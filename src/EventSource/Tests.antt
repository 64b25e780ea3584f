-- ===== src/EventSource/Tests.antt =====
-- Runs of eventSource.ts on concrete streams, and instances of its theorems.
use pathmemos.Base.{suc, ℕ, ◌≡◌, refl, ◌≤◌, true, false, List, [], ◌∷◌, ◌++◌, Option, none, arith}
use pathmemos.Decoder.{
  decode, loop, scan, step, step_2, step_3, step_4, finish, is_invalid, replace, from_code_point,
  is_continuation_byte, close,
}
use pathmemos.EventSource.{
  ErrorBody, Stream, opened, message, closed, failed, server, reconnects, byte_length, trim,
  separator, cut, abort, process_message, process_loop, process_buffer, receive, start_request,
  event_source, on_headers_received, on_chunk_received, on_success, on_fail,
}
use pathmemos.EventSource.Chunks.{on_chunk_received-append}
use pathmemos.EventSource.Runs.{
  Report, headers, chunk, success, fail, aborts, run_reports, run_reports_bounded,
}

runs : Unit {0}
unfolding decode loop scan step step_2 step_3 step_4 finish is_invalid replace from_code_point
    is_continuation_byte close byte_length trim separator cut abort process_message process_loop
    process_buffer receive start_request event_source on_headers_received on_chunk_received
    on_success on_fail
runs = tt

abbrev no_json : List ℕ → Option ErrorBody
no_json text = none

abbrev run : List Report → Stream
run reports = run_reports no_json (b'!' ∷ []) event_source reports

-- "data: a\n\n", and its end with a second message that lacks its separator.
abbrev first_bytes : List ℕ
first_bytes = b'd' ∷ b'a' ∷ b't' ∷ b'a' ∷ b':' ∷ []

abbrev second_bytes : List ℕ
second_bytes = 32 ∷ b'a' ∷ 13 ∷ 10 ∷ 13 ∷ 10 ∷ []

abbrev unended : List ℕ
unended = b'd' ∷ b'a' ∷ b't' ∷ b'a' ∷ b':' ∷ b'b' ∷ []

-- "event:error", and with a separator.
abbrev error_line : List ℕ
error_line = b'e' ∷ b'v' ∷ b'e' ∷ b'n' ∷ b't' ∷ b':' ∷ b'e' ∷ b'r' ∷ b'r' ∷ b'o' ∷ b'r' ∷ []

abbrev error_bytes : List ℕ
error_bytes = error_line ++ 10 ∷ 10 ∷ []

-- Messages; a reconnection; a message behind an error in one chunk, which is still delivered; an
-- error without its separator, after which `onclose` is called too; and an abort.
stream_tests :
    ((run (headers 200 ∷ chunk first_bytes ∷ chunk second_bytes ∷ chunk unended ∷ success ∷ [])).log
      ≡ closed ∷ message (b'b' ∷ []) false ∷ message (b'a' ∷ []) false ∷ opened ∷ [])
    × ((run (chunk first_bytes ∷ fail ∷ chunk unended ∷ success ∷ [])).log
        ≡ closed ∷ message (b'b' ∷ []) false ∷ reconnects ∷ [])
    × ((run (chunk (error_bytes ++ unended ++ 10 ∷ 10 ∷ []) ∷ [])).log
        ≡ message (b'b' ∷ []) false
          ∷ failed (server (record { message = b'!' ∷ []; biz_code = none; code = none }))
          ∷ [])
    × ((run (chunk error_line ∷ success ∷ [])).log
        ≡ closed
          ∷ failed (server (record { message = b'!' ∷ []; biz_code = none; code = none }))
          ∷ [])
    × ((run (aborts ∷ chunk error_bytes ∷ success ∷ [])).log ≡ closed ∷ [])
unfolding runs
stream_tests = (refl, refl, refl, refl, refl)

on_chunk_received-append_example :
    on_chunk_received no_json (b'!' ∷ []) (first_bytes ++ second_bytes) event_source
    ≡ on_chunk_received no_json
        (b'!' ∷ [])
        second_bytes
        (on_chunk_received no_json (b'!' ∷ []) first_bytes event_source)
unfolding runs
on_chunk_received-append_example =
    on_chunk_received-append no_json (b'!' ∷ []) event_source first_bytes second_bytes refl refl
      refl (omega arith) (omega arith) (omega arith)

run_reports_bounded_example :
    let t = run (headers 200 ∷ fail ∷ aborts ∷ []) in
    (t.requests ≤ 2)
    × (t.requests ≡ suc t.left_listening)
    × (t.aborted ≡ true
        → (t.listening ≡ false) × (run_reports no_json (b'!' ∷ []) t (success ∷ []) ≡ t))
run_reports_bounded_example =
    run_reports_bounded no_json (b'!' ∷ []) (headers 200 ∷ fail ∷ aborts ∷ []) (success ∷ [])
