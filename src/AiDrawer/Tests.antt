-- ===== src/AiDrawer/Tests.antt =====
-- Runs of a drawer, and an instance of its theorem. A text is a list of small code points.
use pathmemos.Base.{ℕ, ◌≡◌, refl, ◌⊎◌, true, false, List, [], ◌∷◌, ◌++◌}
use pathmemos.AiDrawer.{Message, attached_drawer}
use pathmemos.AiDrawer.Writes.{trim_old_messages, safe_set_data, force_set_data, flush_ai_text}
use pathmemos.AiDrawer.Callbacks.{
  on_open, on_message, on_close, on_error, finalize, reconnected, opened, received, closed, failed,
  call_back, abort_sse,
}
use pathmemos.AiDrawer.Sending.{
  Event, submits, retries, login_ends, calls, hides, shows, closes, send_message, send, send_prompt,
  login_answered, stream_calls, timer_fires, page_hide, hide, close, detach, show, retry_last,
  run_drawer,
}
use pathmemos.AiDrawer.Lock.Stuck.{LogsIn, Streams, run_drawer_never_stuck}

runs : Unit {0}
unfolding trim_old_messages safe_set_data force_set_data flush_ai_text finalize reconnected opened
    received closed failed call_back abort_sse send_message send send_prompt login_answered
    stream_calls timer_fires page_hide hide close detach show retry_last
runs = tt

abbrev asked : List Event
asked = submits true (72 ∷ 73 ∷ []) ∷ login_ends 1 true ∷ calls 1 on_open ∷ []

-- A tag, which is taken out of the answer.
abbrev tag : List ℕ
tag = 36 ∷ 36 ∷ 50 ∷ 36 ∷ 36 ∷ []

abbrev answer : List Event
answer = calls 1 (on_message (65 ∷ tag) false) ∷ calls 1 (on_message (66 ∷ []) true) ∷ []

abbrev shown : List Event → List Message
shown es = (run_drawer attached_drawer es).view_data.list

abbrev question : Message
question = record { is_user = true; txt = 72 ∷ 73 ∷ []; html = false; error = false }

abbrev answered : Message
answered = record { is_user = false; txt = 65 ∷ 66 ∷ []; html = true; error = false }

abbrev half : Message
half = record { is_user = false; txt = 65 ∷ []; html = true; error = false }

-- An answer; one that is cut off by hiding the page; a stale call after a second prompt, which is
-- ignored; and a blank prompt.
drawer_tests :
    (shown (asked ++ answer) ≡ question ∷ answered ∷ [])
    × (shown (asked ++ calls 1 (on_message (65 ∷ []) false) ∷ hides ∷ shows ∷ [])
        ≡ question ∷ half ∷ [])
    × ((run_drawer attached_drawer
          (asked ++ closes ∷ submits true (80 ∷ []) ∷ calls 1 on_close ∷ [])).sending
        ≡ true)
    × (shown (submits true (32 ∷ []) ∷ []) ≡ [])
    × (shown (asked ++ calls 1 (on_error false) ∷ retries true ∷ []) ≡ question ∷ question ∷ [])
unfolding runs
drawer_tests = (refl, refl, refl, refl, refl)

run_drawer_never_stuck_example :
    let d = run_drawer attached_drawer (asked ++ hides ∷ submits true (80 ∷ []) ∷ []) in
    LogsIn d ⊎ Streams d
unfolding runs
run_drawer_never_stuck_example =
    run_drawer_never_stuck (asked ++ hides ∷ submits true (80 ∷ []) ∷ []) refl refl
