-- ===== src/AutoRecord/Reports.antt =====
-- autoRecord.ts: the queue of stay points, their storage on the device and their upload. A function
-- that awaits is cut at its `await`s, and put together again for a run in which nothing else
-- happens meanwhile; what the awaited call answers is an argument.
pub mod Flush
pub mod Overflow
pub mod Backoff
pub mod Once
pub mod Frame
use Prim.Native.String.{String}
use text.Mathlib.Text.{◌==◌ as str_eq}
use pathmemos.Base.{
  ℕ, suc, ◌+◌, ◌-◌, ◌*◌, ◌^◌, min, Bool, true, false, not, ◌&&◌, ◌||◌, List, [], ◌∷◌, ◌++◌, ltb,
  ◌==◌, if◌then◌else◌, is_empty, length, drop, Option, none, some,
}
use pathmemos.AutoRecord.Floats.{StayPoint}
use pathmemos.AutoRecord.State.{State, Env, storage_max_size}
use pathmemos.AutoRecord.Timers.{reset_state, schedule_restore_retry}

-- What the source reads of an error: `data.code`, `data.biz_code` and `message`, "" if missing.
pub record Failure : Type 0 where
  pub code : String
  pub biz_code : String
  pub message : String

unfoldable pub is_token_expired_error : Failure → Bool
is_token_expired_error e =
    str_eq e.code "4010"
    || (str_eq e.biz_code "SESSION_INVALID" || str_eq e.message "__ppfj_session_expired__")

-- How a request ends.
pub data Response : Type 0 where
  accepted : Response
  refused : Failure → Response

abbrev pub is_accepted : Response → Bool
is_accepted accepted = true
is_accepted (refused e) = false

after_login : Response → Response → Response
after_login accepted second = second
after_login (refused e) second = refused e

-- `_postTrajectoriesWithSilentRefresh`: the post, the login and the second post, as far as they
-- are made.
unfoldable pub post_with_silent_refresh : Response → Response → Response → Response
unfolding after_login is_token_expired_error
post_with_silent_refresh accepted login second = accepted
post_with_silent_refresh (refused e) login second =
    if not (is_token_expired_error e) then refused e else after_login login second

unfoldable pub backoff_ms : ℕ → ℕ
backoff_ms failures = min (30_000 * 2 ^ (failures - 1)) (5 * 60 * 1000)

module _ {Num : Type 0} where
  unfoldable pub should_skip_report_due_to_backoff : Env → State Num → Bool
  unfolding backoff_ms
  should_skip_report_due_to_backoff env s =
      if s.report_failure_count == 0
      then false
      else ltb env.now (s.last_report_failure_time + backoff_ms s.report_failure_count)

  -- `_flushToStorage` to its first `await`: the points are taken out of the queue.
  unfoldable pub flush_take : State Num → State Num × List (StayPoint Num)
  flush_take s = (record s { stay_point_queue = [] }, s.stay_point_queue)

  -- What was not stored goes back to the head of the queue.
  unfoldable pub put_back : List (StayPoint Num) → State Num → State Num
  put_back points s = record s { stay_point_queue = points ++ s.stay_point_queue }

  -- From the loaded points to `wx.setStorage`: the oldest points over the limit are dropped, and
  -- the reported prefix gets shorter with them.
  unfoldable pub flush_combine :
      List (StayPoint Num) → List (StayPoint Num) → State Num → State Num × List (StayPoint Num)
  flush_combine existing points s =
      let combined = existing ++ points in
      let dropped = length combined - storage_max_size in
      if ltb storage_max_size (length combined)
      then (
        record s { reported_leading_count = s.reported_leading_count - dropped },
        drop dropped combined,
      )
      else (s, combined)

  -- The answer of `wx.setStorage`.
  unfoldable pub flush_store :
      Bool → List (StayPoint Num) → List (StayPoint Num) → State Num → State Num
  unfolding put_back
  flush_store true combined points s = record s { stored_stay_points = combined }
  flush_store false combined points s = put_back points s

  -- `_flushToStorage` from the load on. Points may have been queued since `flush_take`.
  unfoldable pub flush_rest : (reads writes : Bool) → List (StayPoint Num) → State Num → State Num
  unfolding flush_combine flush_store put_back
  flush_rest reads writes points s =
      if not reads
      then put_back points s
      else let (s', combined) = flush_combine s.stored_stay_points points s in
        flush_store writes combined points s'

  -- `_flushToStorage`; `reads` and `writes` say whether the storage answers.
  unfoldable pub flush_to_storage : (reads writes : Bool) → State Num → State Num
  unfolding flush_take
  flush_to_storage reads writes s =
      if is_empty s.stay_point_queue
      then s
      else let (s', points) = flush_take s in flush_rest reads writes points s'

  -- `_loadFromStorage(false)`: a storage that cannot be read counts as empty.
  abbrev pub load_from_storage : Bool → State Num → List (StayPoint Num)
  load_from_storage reads s = if reads then s.stored_stay_points else []

  -- `_reportStayPoints` after the post of a batch that is not empty.
  unfoldable pub report_settled : Env → Response → State Num → State Num
  unfolding reset_state schedule_restore_retry is_token_expired_error
  report_settled env accepted s = record s {
    report_failure_count = 0;
    last_report_failure_time = 0;
  }
  report_settled env (refused e) s =
      let failed = record s {
        report_failure_count = s.report_failure_count + 1;
        last_report_failure_time = env.now;
      } in
      if is_token_expired_error e
      then schedule_restore_retry (reset_state env true failed)
      else failed

  -- The clearing of the storage after `points` were uploaded, and `_clearReportedStorage`.
  unfoldable pub clear_after_report : Env → Bool → ℕ → State Num → State Num
  clear_after_report env true reported s = record s {
    stored_stay_points = [];
    reported_leading_count = 0;
  }
  clear_after_report env false reported s = record s {
    reported_leading_count = reported;
    report_failure_count = s.report_failure_count + 1;
    last_report_failure_time = env.now;
  }

  unfoldable pub clear_reported_storage : Bool → State Num → State Num
  clear_reported_storage true s = record s { stored_stay_points = []; reported_leading_count = 0 }
  clear_reported_storage false s = s

-- What the calls of one upload answer: the read, the post with its silent refresh, the clearing.
pub record Answers : Type 0 where
  pub reads : Bool
  pub response : Response
  pub clears : Bool

-- The state after a report, the value of `_tryReportStorage` (false where a report is skipped), and
-- the points that the server accepted.
pub record Reported (Num : Type 0) : Type 0 where
  pub state : State Num
  pub done : Bool
  pub uploaded : List (StayPoint Num)

module _ {Num : Type 0} where
  -- `_tryReportStorage` once the batch to report is known.
  unfoldable pub report_batch :
      Env → Answers → (points to_report : List (StayPoint Num)) → State Num → Reported Num
  unfolding report_settled clear_after_report clear_reported_storage
  report_batch env a points [] s = record {
    state = clear_reported_storage a.clears s;
    done = true;
    uploaded = [];
  }
  report_batch env a points (p ∷ to_report) s =
      let posted =
        report_settled env a.response (record s { report_batch_seq = s.report_batch_seq + 1 }) in
      if not (is_accepted a.response)
      then record { state = posted; done = false; uploaded = [] }
      else record {
        state = clear_after_report env a.clears (length points) posted;
        done = true;
        uploaded = p ∷ to_report;
      }

  -- `_tryReportStorage`; `_reporting` is set for the time of the run.
  unfoldable pub try_report_storage : Env → Answers → State Num → Reported Num
  unfolding report_batch
  try_report_storage env a s =
      if s.reporting
      then record { state = s; done = true; uploaded = [] }
      else let points = load_from_storage a.reads s in
        if is_empty points
        then record { state = s; done = true; uploaded = [] }
        else report_batch env a points (drop (min s.reported_leading_count (length points)) points)
            s

  -- `_serialFlushAndReport` with no report under way.
  unfoldable pub serial_flush_and_report :
      Env → (reads writes : Bool) → Answers → (force : Bool) → State Num → Reported Num
  unfolding should_skip_report_due_to_backoff
  serial_flush_and_report env reads writes a force s =
      let flushed = flush_to_storage reads writes s in
      if not force && should_skip_report_due_to_backoff env flushed
      then record { state = flushed; done = false; uploaded = [] }
      else try_report_storage env a flushed
