-- ===== src/AutoRecord/Tests/Storage.antt =====
-- autoRecord.ts: runs of the storage and the upload of stay points, and instances of the theorems.
use pathmemos.Base.{ℕ, ◌≡◌, refl, true, false, List, [], ◌∷◌, ◌++◌, arith, zero, suc, drop}
use pathmemos.AutoRecord.Floats.{StayPoint}
use pathmemos.AutoRecord.State.{State}
use pathmemos.AutoRecord.Reports.{flush_to_storage}
use pathmemos.AutoRecord.Reports.Flush.{
  IsStored, unsent, flush_to_storage-IsStored, unsent-flush_to_storage,
}
use pathmemos.AutoRecord.Reports.Overflow.{unsent-flush_excess, unsent-flush_excess_failed}
use pathmemos.AutoRecord.Reports.Once.{
  Op, push, report, uploads, run_ops, pushed, uploads_exactly_once,
}
use pathmemos.AutoRecord.Lifecycle.{close_auto_record_run}
use pathmemos.AutoRecord.Lifecycle.Closing.{close_uploads_all}
use pathmemos.AutoRecord.Tests.{runs, whole, env, point, recording, recording-IsStored, answered}

abbrev day : List (Op whole)
day = push 3 4 7 ∷ report env true true answered false ∷ push 5 6 8 ∷ []

abbrev points : ℕ → List (StayPoint ℕ)
points zero = []
points (suc n) = point ∷ points n

-- A full storage of which two points are uploaded, and three points queued.
abbrev full : State ℕ
full = record recording {
  stored_stay_points = points 50;
  stay_point_queue = points 3;
  reported_leading_count = 2;
}

full-IsStored : IsStored full
full-IsStored = record { limit = omega arith; prefix = omega arith }

-- A report has failed twice, the last time twenty seconds before `env`.
abbrev failing : State ℕ
failing = record recording { report_failure_count = 2; last_report_failure_time = 4_980_000 }

flush_to_storage-IsStored_example : IsStored (flush_to_storage true false recording)
flush_to_storage-IsStored_example =
    flush_to_storage-IsStored true false recording recording-IsStored

unsent-flush_to_storage_example : unsent (flush_to_storage true true recording) ≡ point ∷ []
unsent-flush_to_storage_example =
    unsent-flush_to_storage true true recording recording-IsStored (ground arith)

uploads_exactly_once_example :
    uploads whole recording day ++ unsent (run_ops whole recording day)
    ≡ unsent recording ++ pushed whole day
unfolding runs
uploads_exactly_once_example =
    uploads_exactly_once whole recording day recording-IsStored
      (omega arith, (omega arith, (omega arith, tt)))

close_uploads_all_example :
    let r = close_auto_record_run env true true answered recording in
    (r.uploaded ≡ point ∷ []) × (unsent r.state ≡ [])
unfolding runs
close_uploads_all_example =
    close_uploads_all env answered recording recording-IsStored (ground arith) refl refl refl refl
      refl

unsent-flush_excess_example : unsent (flush_to_storage true true full) ≡ drop 1 (unsent full)
unsent-flush_excess_example = unsent-flush_excess full full-IsStored (omega arith)

unsent-flush_excess_failed_example :
    unsent (flush_to_storage true false full) ≡ points 50 ++ points 3
unsent-flush_excess_failed_example = unsent-flush_excess_failed full full-IsStored (omega arith)
