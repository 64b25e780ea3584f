-- ===== src/AutoRecord/Position/Settled.antt =====
-- autoRecord.ts: the first signal settles `_getCurrentLocation`, and no later one changes it.
use pathmemos.Base.{◌≡◌, refl, true, false, some, List, [], ◌∷◌, arith}
use pathmemos.AutoRecord.Position.{
  Signal, timeout, success, fail, Outcome, resolved, timed_out, refused, Locating, locate,
  on_signal, settle,
}

module _ {A : Type 0} where
  abbrev pub run_signals : Locating A → List (Signal A) → Locating A
  run_signals l [] = l
  run_signals l (s ∷ signals) = run_signals (on_signal s l) signals

  abbrev pub outcome_of : Signal A → Outcome A
  outcome_of timeout = timed_out
  outcome_of (success a) = resolved a
  outcome_of fail = refused

  abbrev Done : Outcome A → Locating A → Type 0
  Done o l = (l.settled ≡ true) × (l.timer ≡ false) × (l.outcome ≡ some o)

  on_signal-Done :
      (s : Signal A) (o : Outcome A) (l : Locating A) → Done o l → Done o (on_signal s l)
  unfolding on_signal settle
  on_signal-Done timeout o l h = ground arith
  on_signal-Done (success a) o l h = ground arith
  on_signal-Done fail o l h = ground arith

  run-Done :
      (signals : List (Signal A)) (o : Outcome A) (l : Locating A)
      → Done o l
      → Done o (run_signals l signals)
  run-Done [] o l h = h
  run-Done (s ∷ signals) o l h = run-Done signals o (on_signal s l) (on_signal-Done s o l h)

  locate-Done : (s : Signal A) → Done (outcome_of s) (on_signal s locate)
  unfolding on_signal settle
  locate-Done timeout = (refl, refl, refl)
  locate-Done (success a) = (refl, refl, refl)
  locate-Done fail = (refl, refl, refl)

  -- The first signal settles the promise and stops the timer, whatever signals follow.
  pub run_signals_first :
      (first : Signal A) (later : List (Signal A))
      → let l = run_signals locate (first ∷ later) in
        (l.outcome ≡ some (outcome_of first)) × (l.timer ≡ false)
  run_signals_first first later =
      let done = run-Done later (outcome_of first) (on_signal first locate) (locate-Done first) in
      (done.2, done.1)
