-- ===== src/AutoRecord/Lifecycle/Overtaken.antt =====
-- autoRecord.ts: an opening that a close or its timeout has overtaken does not end on.
use pathmemos.Base.{Option, ℕ, suc, ◌≡◌, ◌⊎◌, Bool, false, List, [], ◌∷◌, ◌≤◌}
use pathmemos.AutoRecord.State.{State, Env}
use pathmemos.AutoRecord.Lifecycle.{
  open_synced, open_located, close_begin, open_timeout, open_timeout_answered, setting_answered,
  open_auto_record,
}

-- What ends the generation of an opening: a close, to its first `await`, or the 30 seconds.
pub data Overtaking : Type 0 where
  closes : (env : Env) → Overtaking
  times_out : Overtaking

-- What may happen next: the same, a call of `openAutoRecord`, and the answers that any opening
-- gets: of `wx.getSetting`, of the backend, of the listener and of the backend after the 30 seconds.
pub data Event : Type 0 where
  overtakes : Overtaking → Event
  opens : (env : Env) → Event
  asked : (fired : Bool) (generation : ℕ) (answer : Option Bool) → Event
  synced : (env : Env) (fired : Bool) (generation token : ℕ) (answer : Bool) → Event
  timed_out : (env : Env) (answer : Bool) → Event
  located : (env : Env) (fired : Bool) (generation token : ℕ) (answer : Bool) → Event

module _ {Num : Type 0} where
  -- A generation that is not current, and will not be: a later one has begun, or no opening is
  -- under way and the next one takes a later generation.
  abbrev Past : ℕ → State Num → Type 0
  Past generation s =
      (suc generation ≤ s.closing_generation)
      ⊎ ((generation ≤ s.closing_generation) × (s.opening ≡ false))

  abbrev pub overtake : Overtaking → State Num → State Num
  overtake (closes env) s = (close_begin env s).0
  overtake times_out s = open_timeout s

  abbrev pub go_on : Event → State Num → State Num
  go_on (overtakes o) s = overtake o s
  go_on (opens env) s = (open_auto_record env s).0
  go_on (asked fired generation answer) s = (setting_answered fired generation answer s).0
  go_on (synced env fired generation token answer) s =
      (open_synced env fired generation token answer s).0
  go_on (timed_out env answer) s = (open_timeout_answered env answer s).0
  go_on (located env fired generation token answer) s =
      (open_located env fired generation token answer s).0

  abbrev pub run_events : State Num → List Event → State Num
  run_events s [] = s
  run_events s (e ∷ events) = run_events (go_on e s) events
