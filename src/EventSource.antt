-- ===== src/EventSource.antt =====
-- frontend/miniapp/miniprogram/utils/eventSource.ts: the client of a server-sent event stream. A
-- text is a list of UTF-16 code units. All callbacks are given; what they are called with is listed
-- in `log`, newest first, and they do not call `abort` themselves.
pub mod Separator
pub mod Chunks
pub mod Runs
mod Tests
use pathmemos.Base.{
  ℕ, zero, suc, ◌+◌, ◌*◌, Bool, true, false, not, ◌&&◌, ◌||◌, List, [], ◌∷◌, ◌++◌, Option, none,
  some, ltb, leb, ◌==◌, if◌then◌else◌, is_empty, length, drop, Result, ok, err,
}
use pathmemos.Decoder.{Decoder, decode}

-- What the body of an SSE error holds, as `JSON.parse` reads it; the parser is a parameter, and
-- none is a body that it refuses.
pub record ErrorBody : Type 0 where
  pub biz_code : Option (List ℕ)
  pub code : Option (List ℕ)
  pub message : Option (List ℕ)

pub record SseError : Type 0 where
  pub message : List ℕ
  pub biz_code : Option (List ℕ)
  pub code : Option (List ℕ)

pub data Failure : Type 0 where
  http : (status : ℕ) → Failure
  too_large : Failure
  network : Failure
  server : SseError → Failure

pub data Call : Type 0 where
  opened : Call
  message : (data_text : List ℕ) → (done : Bool) → Call
  closed : Call
  failed : Failure → Call
  reconnects : Call

-- `listening` is whether the current request has its two listeners, `requests` how many were made,
-- `left_listening` how many requests before the current one still have theirs.
pub record Stream : Type 0 where
  pub aborted : Bool
  pub ended : Bool
  pub error_fired : Bool
  pub reconnect_attempted : Bool
  pub buffer : List ℕ
  pub decoder : Decoder
  pub requests : ℕ
  pub listening : Bool
  pub left_listening : ℕ
  pub log : List Call

-- `_byteLength`; the unit after a high surrogate is skipped.
unfoldable pub byte_length : List ℕ → ℕ
byte_length [] = 0
byte_length (c ∷ []) =
    if leb c 0x7f
    then 1
    else if leb c 0x7ff
    then 2
    else if leb 0xd800 c && leb c 0xdbff
    then 4
    else 3
byte_length (c ∷ c' ∷ text) =
    let rest = byte_length (c' ∷ text) in
    let skipped = byte_length text in
    if leb c 0x7f
    then 1 + rest
    else if leb c 0x7ff
    then 2 + rest
    else if leb 0xd800 c && leb c 0xdbff
    then 4 + skipped
    else 3 + rest

abbrev pub max_buffer_size : ℕ
max_buffer_size = 64 * 1024

-- The white space of `trim`.
is_space : ℕ → Bool
is_space c =
    (leb 9 c && leb c 13)
    || (c == 0x20
        || (c == 0xa0
            || (c == 0x1680
                || ((leb 0x2000 c && leb c 0x200a)
                    || (c == 0x2028
                        || (c == 0x2029
                            || (c == 0x202f || (c == 0x205f || (c == 0x3000 || c == 0xfeff)))))))))

trim_start : List ℕ → List ℕ
trim_start [] = []
trim_start (c ∷ text) = if is_space c then trim_start text else c ∷ text

trim_end : List ℕ → List ℕ
trim_end [] = []
trim_end (c ∷ text) =
    let rest = trim_end text in if is_space c && is_empty rest then [] else c ∷ rest

unfoldable pub trim : List ℕ → List ℕ
unfolding trim_start trim_end is_space
trim text = trim_end (trim_start text)

-- `t.startsWith(prefix)`, with what follows the prefix.
strip : List ℕ → List ℕ → Option (List ℕ)
strip [] text = some text
strip (c ∷ prefix) [] = none
strip (c ∷ prefix) (d ∷ text) = if c == d then strip prefix text else none

-- `split('\n')`
lines : List ℕ → List (List ℕ)
lines [] = [] ∷ []
lines (c ∷ text) = elim (lines text) [
  | [] ↦ (c ∷ []) ∷ []
  | line ∷ more ↦ if c == 10 then [] ∷ line ∷ more else (c ∷ line) ∷ more
]

-- `join('\n')`
join : List (List ℕ) → List ℕ
join [] = []
join (line ∷ []) = line
join (line ∷ line' ∷ more) = line ++ 10 ∷ join (line' ∷ more)

abbrev event_prefix : List ℕ
event_prefix = b'e' ∷ b'v' ∷ b'e' ∷ b'n' ∷ b't' ∷ b':' ∷ []

abbrev data_prefix : List ℕ
data_prefix = b'd' ∷ b'a' ∷ b't' ∷ b'a' ∷ b':' ∷ []

same_text : List ℕ → List ℕ → Bool
same_text [] [] = true
same_text (a ∷ s) (b ∷ t) = a == b && same_text s t
same_text _ _ = false

drop_space : List ℕ → List ℕ
drop_space [] = []
drop_space (c ∷ text) = if c == 32 then text else c ∷ text

-- One line of a message: the event's name and the data lines so far, newest last.
read_line : List ℕ → List ℕ × List (List ℕ) → List ℕ × List (List ℕ)
read_line line (event_name, data_lines) =
    let t = trim line in
    elim (strip event_prefix t) [
      | some name ↦ (trim name, data_lines)
      | none ↦ elim (strip data_prefix t) [
        | some value ↦ (event_name, data_lines ++ drop_space value ∷ [])
        | none ↦ (event_name, data_lines)
      ]
    ]

read_lines : List (List ℕ) → List ℕ × List (List ℕ) → List ℕ × List (List ℕ)
read_lines [] fields = fields
read_lines (line ∷ more) fields = read_lines more (read_line line fields)

abbrev error_name : List ℕ
error_name = b'e' ∷ b'r' ∷ b'r' ∷ b'o' ∷ b'r' ∷ []

abbrev done_name : List ℕ
done_name = b'd' ∷ b'o' ∷ b'n' ∷ b'e' ∷ []

-- The separator `(\r?\n){2}` at the head of a text, with what follows it.
unfoldable pub separator : List ℕ → Option (List ℕ)
separator (a ∷ b ∷ rest) = if a == 10 && b == 10 then some rest else separator_3 a b rest
  where
    separator_4 : ℕ → ℕ → ℕ → List ℕ → Option (List ℕ)
    separator_4 a b c [] = none
    separator_4 a b c (d ∷ rest) =
        if a == 13 && (b == 10 && (c == 13 && d == 10)) then some rest else none

    separator_3 : ℕ → ℕ → List ℕ → Option (List ℕ)
    separator_3 a b [] = none
    separator_3 a b (c ∷ rest) =
        if (a == 13 && (b == 10 && c == 10)) || (a == 10 && (b == 13 && c == 10))
        then some rest
        else separator_4 a b c rest
separator _ = none

-- The leftmost separator: the text before it and after it.
unfoldable pub cut : List ℕ → Option (List ℕ × List ℕ)
cut [] = none
cut (c ∷ text) =
    let later = cut text in
    elim (separator (c ∷ text)) [
      | some rest ↦ some ([], rest)
      | none ↦ elim later [ none ↦ none | some (raw, rest) ↦ some (c ∷ raw, rest) ]
    ]

abbrev pub call : Call → Stream → Stream
call c s = record s { log = c ∷ s.log }

-- `abort`
unfoldable pub abort : Stream → Stream
abort s =
    if s.aborted || s.ended
    then s
    else let s' = record s { aborted = true; listening = false } in
      if not s.error_fired then call closed s' else s'

-- `startRequest`; the listeners of the request before are not taken off.
unfoldable pub start_request : Stream → Stream
start_request s = record s {
  requests = s.requests + 1;
  listening = true;
  left_listening = if s.listening then s.left_listening + 1 else s.left_listening;
}

-- `eventSource`
unfoldable pub event_source : Stream
event_source = start_request (record {
  aborted = false;
  ended = false;
  error_fired = false;
  reconnect_attempted = false;
  buffer = [];
  decoder = record { pending = []; fatal = false };
  requests = 0;
  listening = false;
  left_listening = 0;
  log = [];
})

unfoldable pub on_headers_received : ℕ → Stream → Stream
on_headers_received status s =
    if s.aborted
    then s
    else if status == 200
    then call opened s
    else call (failed (http status)) (abort (record s { error_fired = true }))

-- The decoder is lenient, so it throws nothing; a throw would leave the state.
unfoldable pub receive : List ℕ → Bool → Stream → Stream
receive bytes stream s = elim (decode s.decoder bytes stream) [
  | ok (text, d) ↦ record s { buffer = s.buffer ++ text; decoder = d }
  | err e ↦ s
]

-- `fail` of `wx.request`
unfoldable pub on_fail : Stream → Stream
on_fail s =
    if s.aborted
    then s
    else if not s.reconnect_attempted && (not s.error_fired && not s.ended)
    then start_request (call reconnects (record s { reconnect_attempted = true; buffer = [] }))
    else abort (call (failed network) (record s { error_fired = true }))

module _ (parse : List ℕ → Option ErrorBody) (default_message : List ℕ) where
  -- `error` with what the body gives; a field that is missing or empty is none.
  server_error : List ℕ → SseError
  server_error text =
      let shown = if is_empty text then default_message else text in
      elim (parse text) [
        | none ↦ record { message = shown; biz_code = none; code = none }
        | some body ↦ record {
          message = elim body.message [ none ↦ shown | some m ↦ m ];
          biz_code = body.biz_code;
          code = body.code;
        }
      ]

  -- `processMessage`
  unfoldable pub process_message : List ℕ → Stream → Stream
  unfolding read_lines read_line lines join same_text server_error strip drop_space
  process_message [] s = s
  process_message (c ∷ raw) s =
      let (event_name, data_lines) = read_lines (lines (c ∷ raw)) ([], []) in
      let data_text = join data_lines in
      if same_text event_name error_name
      then abort (call (failed (server (server_error data_text))) (record s { error_fired = true }))
      else call (message data_text (same_text event_name done_name)) s

  -- `processBuffer`, on fuel: each round takes a separator off the buffer.
  unfoldable pub process_loop : ℕ → Stream → Stream
  process_loop zero s = s
  process_loop (suc fuel) s = elim (cut s.buffer) [
    | none ↦ s
    | some (raw, rest) ↦ process_loop fuel (process_message (trim raw) (record s { buffer = rest }))
  ]

  unfoldable pub process_buffer : Stream → Stream
  process_buffer s = process_loop (length s.buffer) s

  unfoldable pub on_chunk_received : List ℕ → Stream → Stream
  on_chunk_received bytes s =
      let s' = receive bytes true s in
      if s.aborted
      then s
      else if ltb max_buffer_size (byte_length s'.buffer)
      then call (failed too_large) (abort (record s' { error_fired = true }))
      else process_buffer s'

  -- `success` of `wx.request`
  unfoldable pub on_success : Stream → Stream
  on_success s =
      if s.aborted
      then s
      else let s1 = receive [] false (record s { ended = true }) in
        let s2 = if is_empty (trim s1.buffer) then s1 else process_buffer s1 in
        let s3 = process_message (trim s2.buffer) (record s2 { buffer = [] }) in
        record (call closed s3) { listening = false }
