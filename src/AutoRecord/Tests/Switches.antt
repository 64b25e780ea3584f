-- ===== src/AutoRecord/Tests/Switches.antt =====
-- autoRecord.ts: runs of opening, closing and restoring, and instances of the theorems.
use pathmemos.Base.{List, [], ◌∷◌, ℕ, ◌≡◌, refl, inl, inr, true, false, none, some}
use pathmemos.AutoRecord.State.{State, is_recording_enabled}
use pathmemos.AutoRecord.Lifecycle.Overtaken.{times_out, Event, overtakes, opens}
use pathmemos.AutoRecord.Restore.{RestoreAnswers, try_restore_auto_record}
use pathmemos.AutoRecord.Restore.Outcome.{IsWired, try_restore-IsWired}
use pathmemos.AutoRecord.Restore.Retry.{
  vip_unanswered, IsRetried, try_restore-IsRetried, try_restore_without_start,
}
use pathmemos.AutoRecord.Tests.{runs, env, recording, answered}

abbrev restored : RestoreAnswers
restored = record {
  first_start = true;
  reads = true;
  writes = true;
  upload = answered;
  vip = some 1;
  config = some true;
  second_start = true;
  close_reads = true;
  close_writes = true;
  close_upload = answered;
}

abbrev not_started : RestoreAnswers
not_started = record restored { first_start = false; second_start = false }

-- The listener counts as registered, no start succeeds, and yet the restore answers true.
restore_tests :
    ((try_restore_auto_record env not_started recording).1 ≡ true)
    × ((try_restore_auto_record env not_started recording).0.location_handler ≡ false)
    × ((try_restore_auto_record env not_started recording).0.restore_retry_timer ≡ none)
unfolding runs
restore_tests = (refl, refl, refl)

recording_on : (is_recording_enabled env recording).1 ≡ true
unfolding is_recording_enabled
recording_on = refl

-- An opening under way, and what follows a close: its 30 seconds run out, and the user opens again.
abbrev first_open : State ℕ
first_open = record recording { opening = true; closing_generation = 7 }

abbrev again : List Event
again = overtakes times_out ∷ opens env ∷ []

try_restore-IsWired_example :
    IsWired (try_restore_auto_record env restored recording).0
    × ((try_restore_auto_record env restored recording).1 ≡ true
        → ((try_restore_auto_record env restored recording).0.location_handler ≡ true)
          × ((try_restore_auto_record env restored recording).0.listener_registered ≡ true))
try_restore-IsWired_example = try_restore-IsWired env restored recording (inl refl) (inr refl)

abbrev vip_fails : RestoreAnswers
vip_fails = record restored { vip = none }

-- The app has just started: the switch is not yet in memory.
abbrev cold : State ℕ
cold = record recording {
  enabled_in_memory = none;
  location_handler = false;
  listener_registered = false;
}

-- A cold start reads the stored switch, and ends with the handler registered.
cold_tests :
    ((is_recording_enabled env cold).1 ≡ true)
    × ((try_restore_auto_record env restored cold).1 ≡ true)
    × ((try_restore_auto_record env restored cold).0.location_handler ≡ true)
unfolding runs is_recording_enabled
cold_tests = (refl, refl, refl)

try_restore-IsRetried_example :
    ((try_restore_auto_record env vip_fails cold).1 ≡ false)
    × IsRetried (try_restore_auto_record env vip_fails cold).0
    × ((try_restore_auto_record env vip_fails cold).0.restoring ≡ false)
try_restore-IsRetried_example =
    try_restore-IsRetried env vip_fails cold (vip_unanswered refl) refl refl cold_tests.0 refl

try_restore_without_start_example :
    ((try_restore_auto_record env not_started recording).0.location_handler ≡ false)
    × ((try_restore_auto_record env not_started recording).1 ≡ true
        → (try_restore_auto_record env not_started recording).0.listener_registered ≡ true)
try_restore_without_start_example =
    try_restore_without_start env not_started recording refl refl refl refl recording_on
