-- ===== src/AutoRecord/Position.antt =====
-- autoRecord.ts: `_getCurrentLocation`, a promise that a timer and two callbacks may settle, and
-- `_saveFirstRecord`, which takes its answer.
pub mod Settled
use pathmemos.Base.{Bool, true, false, Option, none, some, List, [], ◌∷◌, if◌then◌else◌}

-- What happens to the promise: the timer, `success` or `fail` of `wx.getLocation`.
pub data Signal (A : Type 0) : Type 0 where
  timeout : Signal A
  success : A → Signal A
  fail : Signal A

pub data Outcome (A : Type 0) : Type 0 where
  resolved : A → Outcome A
  timed_out : Outcome A
  refused : Outcome A

-- `settled`, whether the timer runs, and how the promise is settled.
pub record Locating (A : Type 0) : Type 0 where
  pub settled : Bool
  pub timer : Bool
  pub outcome : Option (Outcome A)

module _ {A : Type 0} where
  abbrev pub locate : Locating A
  locate = record { settled = false; timer = true; outcome = none }

  settle : Bool → Outcome A → Locating A → Locating A
  settle timer o l =
      if l.settled then l else record { settled = true; timer = timer; outcome = some o }

  -- A timer that has run out runs no more; `success` and `fail` clear one that still does.
  unfoldable pub on_signal : Signal A → Locating A → Locating A
  unfolding settle
  on_signal timeout l = settle false timed_out (record l { timer = false })
  on_signal (success a) l = settle false (resolved a) l
  on_signal fail l = settle false refused l

-- How `_saveFirstRecord` ends: `auto_entry_ok` with whether there is an id, after which the index list
-- is refreshed if there is one; or `auto_entry_fail` and a throw.
pub record Saved : Type 0 where
  pub thrown : Bool
  pub has_id : Bool
  pub refreshes : Bool

-- From the outcome of the position and that of the post: whether its answer has an id, or none for
-- a failure.
unfoldable pub save_first_record : {A : Type 0} → Outcome A → Option Bool → Saved
save_first_record (resolved a) (some has_id) = record {
  thrown = false;
  has_id = has_id;
  refreshes = has_id;
}
save_first_record _ _ = record { thrown = true; has_id = false; refreshes = false }
