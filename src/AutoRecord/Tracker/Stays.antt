-- ===== src/AutoRecord/Tracker/Stays.antt =====
-- autoRecord.ts: histories of locations. A stay is saved once, and ends on two readings.
use pathmemos.Base.{
  ℕ, ◌+◌, ◌≤◌, ◌≡◌, ◌∙◌, ap, inl, inr, Bool, not, ◌&&◌, List, [], ◌∷◌, arith, length, length-append,
  if◌then◌else◌,
}
use pathmemos.AutoRecord.Floats.{
  Floats, LocationPoint, Centroid, StayPoint, round_coord, calc_centroid,
}
use pathmemos.AutoRecord.State.{State, Env, stationary, is_stationary}
use pathmemos.AutoRecord.Tracker.{
  RawLocation, stay, leave, save_if_mature, push_stay_point, push_window, check_exit, calculate,
  track, on_location_change,
}
use pathmemos.AutoRecord.Tracker.Cases.{
  Kept, calculate_cases, track_cases, on_location_change_cases,
}
use pathmemos.AutoRecord.Tracker.Coherence.{
  IsCoherent, Kept-IsCoherent, on_location_change-IsCoherent,
}

abbrev pub count_true : Bool → ℕ
count_true b = if b then 1 else 0

module _ (f : Floats) where
  open f use {Num}

  -- The stay of `s` is over in `t`.
  abbrev pub departs : State Num → State Num → Bool
  departs s t = is_stationary s.state && not (is_stationary t.state)

  abbrev Balanced : State Num → State Num → Type 0
  Balanced s t =
      length t.stay_point_queue + count_true s.stationary_saved
      ≤ length s.stay_point_queue + count_true (departs s t) + count_true t.stationary_saved

  -- A resting user whose exit count is zero still rests.
  abbrev Rests : State Num → State Num → Type 0
  Rests s t = s.state ≡ stationary → s.exit_confirm_count ≡ 0 → t.state ≡ stationary

  abbrev Fair : State Num → State Num → Type 0
  Fair s t = Balanced s t × Rests s t

  save_if_mature-Balanced :
      (env : Env) (t : ℕ) (c : Centroid Num) (s : State Num)
      → (length (save_if_mature f env t c s).stay_point_queue + count_true s.stationary_saved
          ≤ length s.stay_point_queue + count_true (save_if_mature f env t c s).stationary_saved)
        × ((save_if_mature f env t c s).state ≡ s.state)
  unfolding save_if_mature push_stay_point
  save_if_mature-Balanced env t c s = ground (
    arith,
    length-append s.stay_point_queue (
        (record { lat = round_coord f c.lat; lon = round_coord f c.lon; recorded_at = env.now })
        ∷ []),
  )

  stay-Balanced :
      (env : Env) (c : Centroid Num) (s : State Num) → IsCoherent s → Balanced s (stay f env c s)
  unfolding stay
  stay-Balanced env c s h = grind (arith, save_if_mature-Balanced)

  stay-Rests : (env : Env) (c : Centroid Num) (s : State Num) → (stay f env c s).state ≡ stationary
  unfolding stay save_if_mature push_stay_point
  stay-Rests env c s = ground arith

  leave-Fair : (c : Centroid Num) (s : State Num) → Fair s (leave f c s)
  unfolding leave
  leave-Fair c s = (ground arith, λ a b. ground arith)

  check_exit-Fair :
      (env : Env) (p : LocationPoint Num) (c : Centroid Num) (s : State Num)
      → IsCoherent s
      → Fair s (check_exit f env p c s)
  unfolding check_exit
  check_exit-Fair env p c s h = (ground arith, λ a b. ground arith)

  calculate-Fair : (env : Env) (s : State Num) → IsCoherent s → Fair s (calculate f env s)
  calculate-Fair env s h =
      let s' : State Num = record s { last_centroid_calc_time = env.now } in
      let c : Centroid Num = calc_centroid f s.window in
      calculate_cases f (Fair s) env s (ground arith, λ a b. a)
        (
          (
            stay-Balanced env c s' (record { shape = h.shape; count = h.count }),
            λ a b. stay-Rests env c s',
          ),
          leave-Fair c s',
        )

  track-Fair :
      (env : Env) (p : LocationPoint Num) (s : State Num) → IsCoherent s → Fair s (track f env p s)
  unfolding push_window
  track-Fair env p s h =
      track_cases f (Fair s) env p s (λ c _ _. check_exit-Fair env p c s h)
        (λ _. calculate-Fair env (push_window p s) (record { shape = h.shape; count = h.count }))

  Fair-of_Kept : {s t : State Num} (u : State Num) → Kept s t → Fair t u → Fair s u
  Fair-of_Kept u k (b, r) = (
    ground (arith, ap (λ (q : List (StayPoint Num)). length q) k.stay_point_queue),
    λ a c. r (k.state ∙ a) (k.exit_confirm_count ∙ c),
  )

  on_location_change-Fair :
      (env : Env) (res : RawLocation Num) (s : State Num)
      → IsCoherent s
      → Fair s (on_location_change f env res s)
  on_location_change-Fair env res s h =
      let (t, kept, outcome) = on_location_change_cases f env res s in
      elim outcome [
        | inl e ↦ rw e (Fair-of_Kept t kept (ground arith, λ a b. a))
        | inr (p, _, _, e) ↦
            rw e
              (Fair-of_Kept (track f env p t) kept (track-Fair env p t (Kept-IsCoherent f kept h)))
      ]

  -- One reading away from the stay does not end it: a user who rests, in a coherent state with no
  -- exit counted yet, still rests after a location.
  pub on_location_change_rests :
      (env : Env) (res : RawLocation Num) (s : State Num)
      → IsCoherent s
      → s.state ≡ stationary
      → s.exit_confirm_count ≡ 0
      → (on_location_change f env res s).state ≡ stationary
  on_location_change_rests env res s h = (on_location_change-Fair env res s h).1

  -- The handler on a list of locations, each with what its surroundings answer.
  pub run : State Num → List (Env × RawLocation Num) → State Num
  run s [] = s
  run s ((env, res) ∷ rest) = run (on_location_change f env res s) rest

  -- How many stays ended meanwhile.
  pub departures : State Num → List (Env × RawLocation Num) → ℕ
  departures s [] = 0
  departures s ((env, res) ∷ rest) =
      count_true (departs s (on_location_change f env res s))
      + departures (on_location_change f env res s) rest

  -- Over any history of locations from a coherent state, the number of stay points queued is at most the number of stays
  -- that ended, plus one for a stay that is under way and saved at the end, less one for a stay that
  -- was saved at the start: no stay is saved twice.
  pub run_saves_once :
      (s : State Num) (history : List (Env × RawLocation Num))
      → IsCoherent s
      → length (run s history).stay_point_queue + count_true s.stationary_saved
        ≤ length s.stay_point_queue
          + departures s history
          + count_true (run s history).stationary_saved
  unfolding run departures
  run_saves_once s [] h = omega arith
  run_saves_once s ((env, res) ∷ rest) h = omega (
    arith,
    (on_location_change-Fair env res s h).0,
    run_saves_once (on_location_change f env res s) rest
        (on_location_change-IsCoherent f env res s h),
  )
