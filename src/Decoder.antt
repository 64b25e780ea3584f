-- ===== src/Decoder.antt =====
-- frontend/miniapp/miniprogram/polyfills/textDecoder.ts: the UTF-8 decoder. Bytes and UTF-16 code
-- units are numbers; `combined` from position `i` on is a list.
pub mod Scan
pub mod Stream
pub mod Encode
pub mod Fatal
mod Tests
use pathmemos.Base.{
  ℕ, zero, suc, ◌+◌, ◌-◌, ◌*◌, ◌/◌, ◌≡◌, refl, Bool, true, false, not, ◌&&◌, ◌||◌, List, [], ◌∷◌,
  ◌++◌, map, Option, none, some, bit_and, bit_or, arith, ltb, leb, ◌==◌, if◌then◌else◌, is_empty,
  length, drop, Result, ok, err, ◌>>=◌,
}

pub data DecodeError : Type 0 where
  unsupported_label : DecodeError
  invalid_continuation_byte invalid_surrogate invalid_leading_byte : DecodeError
  invalid_code_point trailing_incomplete_sequence : DecodeError

pub record Decoder : Type 0 where
  pub pending : List ℕ
  pub fatal : Bool

-- `toLowerCase` on the ASCII letters.
lower : ℕ → ℕ
lower c = if leb b'A' c && leb c b'Z' then c + 32 else c

same_text : List ℕ → List ℕ → Bool
same_text [] [] = true
same_text (a ∷ s) (b ∷ t) = a == b && same_text s t
same_text _ _ = false

abbrev utf_8 : List ℕ
utf_8 = b'u' ∷ b't' ∷ b'f' ∷ b'-' ∷ b'8' ∷ []

abbrev utf8 : List ℕ
utf8 = b'u' ∷ b't' ∷ b'f' ∷ b'8' ∷ []

-- `new TextDecoder(label, options)`; no options is `none`.
pub new_decoder : List ℕ → Option Bool → Result DecodeError Decoder
unfolding lower same_text
new_decoder label options =
    let normalized = map lower (if is_empty label then utf_8 else label) in
    if not (same_text normalized utf_8) && not (same_text normalized utf8)
    then err unsupported_label
    else ok (record { pending = []; fatal = elim options [ none ↦ false | some f ↦ f ] })

unfoldable pub is_continuation_byte : ℕ → Bool
is_continuation_byte b = bit_and b 0xc0 == 0x80

-- One round of the loop: leave it, append units and advance, or throw.
pub data Step : Type 0 where
  wait : Step
  emit : List ℕ → ℕ → Step
  throws : DecodeError → Step

unfoldable pub replace : Bool → DecodeError → Step
replace fatal e = if fatal then throws e else emit (0xfffd ∷ []) 1

unfoldable pub from_code_point : ℕ → List ℕ
from_code_point code_point =
    if leb code_point 0xffff
    then code_point ∷ []
    else let c = code_point - 0x10000 in (0xd800 + c / 1024) ∷ (0xdc00 + bit_and c 0x3ff) ∷ []

unfoldable pub is_invalid : ℕ → ℕ → Bool
is_invalid size code_point =
    (size == 2 && ltb code_point 0x80)
    || ((size == 3 && ltb code_point 0x800)
        || ((size == 4 && ltb code_point 0x10000) || ltb 0x10ffff code_point))

unfoldable pub finish : Bool → ℕ → ℕ → Step
finish fatal size code_point =
    if is_invalid size code_point
    then replace fatal invalid_code_point
    else emit (from_code_point code_point) size

abbrev pub code_2 : ℕ → ℕ → ℕ
code_2 b1 b2 = bit_or (bit_and b1 0x1f * 64) (bit_and b2 0x3f)

unfoldable pub step_2 : Bool → ℕ → List ℕ → Step
step_2 fatal b1 (b2 ∷ _) =
    if not (is_continuation_byte b2)
    then replace fatal invalid_continuation_byte
    else finish fatal 2 (code_2 b1 b2)
step_2 fatal b1 _ = wait

abbrev pub code_3 : ℕ → ℕ → ℕ → ℕ
code_3 b1 b2 b3 = bit_or (bit_or (bit_and b1 0x0f * 4096) (bit_and b2 0x3f * 64)) (bit_and b3 0x3f)

unfoldable pub step_3 : Bool → ℕ → List ℕ → Step
step_3 fatal b1 (b2 ∷ b3 ∷ _) =
    if not (is_continuation_byte b2) || not (is_continuation_byte b3)
    then replace fatal invalid_continuation_byte
    else if leb 0xd800 (code_3 b1 b2 b3) && leb (code_3 b1 b2 b3) 0xdfff
    then replace fatal invalid_surrogate
    else finish fatal 3 (code_3 b1 b2 b3)
step_3 fatal b1 _ = wait

abbrev pub code_4 : ℕ → ℕ → ℕ → ℕ → ℕ
code_4 b1 b2 b3 b4 =
    bit_or
      (bit_or (bit_or (bit_and b1 0x07 * 262144) (bit_and b2 0x3f * 4096)) (bit_and b3 0x3f * 64))
      (bit_and b4 0x3f)

unfoldable pub step_4 : Bool → ℕ → List ℕ → Step
step_4 fatal b1 (b2 ∷ b3 ∷ b4 ∷ _) =
    if not (is_continuation_byte b2)
      || (not (is_continuation_byte b3) || not (is_continuation_byte b4))
    then replace fatal invalid_continuation_byte
    else finish fatal 4 (code_4 b1 b2 b3 b4)
step_4 fatal b1 _ = wait

unfoldable pub step : Bool → ℕ → List ℕ → Step
step fatal b1 rest =
    if bit_and b1 0x80 == 0
    then finish fatal 1 b1
    else if bit_and b1 0xe0 == 0xc0
    then step_2 fatal b1 rest
    else if bit_and b1 0xf0 == 0xe0
    then step_3 fatal b1 rest
    else if bit_and b1 0xf8 == 0xf0
    then step_4 fatal b1 rest
    else replace fatal invalid_leading_byte

-- What one round does with the rest of the loop.
abbrev pub after :
    Step
    → ℕ
    → List ℕ
    → (List ℕ → Result DecodeError (List ℕ × List ℕ))
    → Result DecodeError (List ℕ × List ℕ)
after wait b1 rest go = ok ([], b1 ∷ rest)
after (emit units size) b1 rest go =
    go (drop size (b1 ∷ rest)) >>= (λ (more, left). ok (units ++ more, left))
after (throws e) b1 rest go = err e

-- The `while` loop, on fuel: what it appends to `result`, and the bytes where it stopped.
unfoldable pub loop : ℕ → Bool → List ℕ → Result DecodeError (List ℕ × List ℕ)
loop zero fatal bytes = ok ([], bytes)
loop (suc f) fatal [] = ok ([], [])
loop (suc f) fatal (b1 ∷ rest) = after (step fatal b1 rest) b1 rest (loop f fatal)

unfoldable pub scan : Bool → List ℕ → Result DecodeError (List ℕ × List ℕ)
scan fatal bytes = loop (length bytes) fatal bytes

-- What follows the loop, by `options.stream`.
unfoldable pub close : Bool → Decoder → List ℕ → List ℕ → Result DecodeError (List ℕ × Decoder)
close true d result left = ok (result, record d { pending = left })
close false d result [] = ok (result, record d { pending = [] })
close false d result (b ∷ left) =
    if d.fatal
    then err trailing_incomplete_sequence
    else ok (result ++ (0xfffd ∷ []), record d { pending = [] })

-- `decode(input, { stream })`. A throw leaves the decoder as it was.
unfoldable pub decode : Decoder → List ℕ → Bool → Result DecodeError (List ℕ × Decoder)
decode d bytes stream =
    if is_empty bytes && is_empty d.pending
    then ok ([], d)
    else scan d.fatal (d.pending ++ bytes) >>= (λ (result, left). close stream d result left)
