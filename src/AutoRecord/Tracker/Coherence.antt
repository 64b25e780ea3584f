-- ===== src/AutoRecord/Tracker/Coherence.antt =====
-- autoRecord.ts: the variables of the stay detection fit together after every location.
use pathmemos.Base.{◌<◌, ◌≡◌, refl, ◌⊎◌, inl, inr, Bool, true, false, none, arith, is_some}
use pathmemos.AutoRecord.Floats.{Floats, LocationPoint, Centroid, calc_centroid}
use pathmemos.AutoRecord.State.{State, Env, moving, stationary}
use pathmemos.AutoRecord.Timers.{reset_state}
use pathmemos.AutoRecord.Tracker.Cases.{
  Kept, calculate_cases, track_cases, on_location_change_cases,
}
use pathmemos.AutoRecord.Tracker.{
  RawLocation, save_if_mature, stay, leave, calculate, check_exit, push_window, track,
  on_location_change, push_stay_point,
}

-- A user who moves has no stay under way; one who rests has its start and its place; and the exit
-- count stands below the number that confirms an exit.
pub record IsCoherent {Num : Type 0} (s : State Num) : Type 0 where
  pub shape :
      ((s.state ≡ moving) × (s.stationary_start_time ≡ none) × (s.stationary_saved ≡ false))
      ⊎ ((s.state ≡ stationary)
          × (is_some s.stationary_start_time ≡ true)
          × (is_some s.stable_centroid ≡ true))
  pub count : s.exit_confirm_count < 2

module _ (f : Floats) where
  open f use {Num}

  stay-IsCoherent :
      (env : Env) (c : Centroid Num) (s : State Num) → IsCoherent s → IsCoherent (stay f env c s)
  unfolding stay save_if_mature push_stay_point
  stay-IsCoherent env c s h = ground arith

  leave-IsCoherent : (c : Centroid Num) (s : State Num) → IsCoherent s → IsCoherent (leave f c s)
  unfolding leave
  leave-IsCoherent c s h = ground arith

  check_exit-IsCoherent :
      (env : Env) (p : LocationPoint Num) (c : Centroid Num) (s : State Num)
      → IsCoherent s
      → IsCoherent (check_exit f env p c s)
  unfolding check_exit
  check_exit-IsCoherent env p c s h = ground arith

  calculate-IsCoherent : (env : Env) (s : State Num) → IsCoherent s → IsCoherent (calculate f env s)
  calculate-IsCoherent env s h =
      let s' : State Num = record s { last_centroid_calc_time = env.now } in
      let c : Centroid Num = calc_centroid f s.window in
      let h' : IsCoherent s' = record { shape = h.shape; count = h.count } in
      calculate_cases f IsCoherent env s h (stay-IsCoherent env c s' h', leave-IsCoherent c s' h')

  track-IsCoherent :
      (env : Env) (p : LocationPoint Num) (s : State Num)
      → IsCoherent s
      → IsCoherent (track f env p s)
  unfolding push_window
  track-IsCoherent env p s h =
      track_cases f IsCoherent env p s (λ c _ _. check_exit-IsCoherent env p c s h)
        (λ _.
          calculate-IsCoherent env (push_window p s) (record { shape = h.shape; count = h.count }))

  pub Kept-IsCoherent : {s t : State Num} → Kept s t → IsCoherent s → IsCoherent t
  Kept-IsCoherent k h = ground arith

  -- A location keeps a coherent stay detection coherent, whatever its surroundings answer.
  pub on_location_change-IsCoherent :
      (env : Env) (res : RawLocation Num) (s : State Num)
      → IsCoherent s
      → IsCoherent (on_location_change f env res s)
  on_location_change-IsCoherent env res s h =
      let (t, kept, outcome) = on_location_change_cases f env res s in
      elim outcome [
        | inl e ↦ rw e (Kept-IsCoherent kept h)
        | inr (p, _, _, e) ↦ rw e (track-IsCoherent env p t (Kept-IsCoherent kept h))
      ]

  -- A reset makes it coherent.
  pub reset_state-IsCoherent :
      (env : Env) (preserve : Bool) (s : State Num) → IsCoherent (reset_state env preserve s)
  unfolding reset_state
  reset_state-IsCoherent env preserve s = record {
    shape = inl (refl, refl, refl);
    count = omega arith;
  }
