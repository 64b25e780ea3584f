-- ===== src/OpsLog/Tests.antt =====
-- Runs of opslog.ts, and instances of its theorems.
use pathmemos.Base.{ℕ, ◌≡◌, refl, ◌≤◌, true, false, List, [], ◌∷◌, ◌++◌, some, length}
use pathmemos.OpsLog.{Storage, max_batch, last_events, ops_log, flush_begin, flush_answered}
use pathmemos.OpsLog.Upload.{log_all, flush_drops_batch}

abbrev answers : Storage
answers = record { reads = true; writes = true }

abbrev one : List ℕ
one = 7 ∷ []

abbrev two : List ℕ
two = 7 ∷ 8 ∷ []

abbrev eight : ℕ
eight = 8

abbrev later : List ℕ
later = 9 ∷ []

-- Event 9, logged while 7 and 8 are uploaded, is gone.
ops_tests :
    (ops_log answers eight one ≡ two)
    × (flush_begin answers two ≡ some (two, two))
    × (flush_answered answers true two two (two ++ later) ≡ [])
    × (flush_answered answers false two two (two ++ later) ≡ two ++ later)
unfolding ops_log last_events flush_begin flush_answered
ops_tests = (refl, refl, refl, refl)

flush_drops_batch_example :
    (two ++ flush_answered answers true two two (log_all answers later two) ≡ two)
    × (length two ≤ max_batch)
unfolding flush_begin
flush_drops_batch_example = flush_drops_batch answers two two two later refl refl
