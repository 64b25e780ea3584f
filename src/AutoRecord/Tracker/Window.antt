-- ===== src/AutoRecord/Tracker/Window.antt =====
-- autoRecord.ts: the window of recent points stays bounded and recent.
use pathmemos.Base.{ℕ, ◌+◌, ◌≤◌, ◌≡◌, refl, inl, inr, List, [], ◌∷◌, arith, length}
use pathmemos.AutoRecord.Floats.{Floats, LocationPoint, Centroid}
use pathmemos.AutoRecord.State.{State, Env, centroid_max, centroid_max_points}
use pathmemos.AutoRecord.Tracker.{
  RawLocation, drop_old, drop_excess, push_window, stay, leave, save_if_mature, push_stay_point,
  check_exit, calculate, on_location_change,
}
use pathmemos.AutoRecord.Tracker.Cases.{calculate_cases, track_cases, on_location_change_cases}

module _ {Num : Type 0} where
  length-drop_excess : (n : ℕ) (ps : List (LocationPoint Num)) → length (drop_excess n ps) ≤ n
  unfolding drop_excess
  length-drop_excess n [] = omega arith
  length-drop_excess n (p ∷ ps) = ground (arith, length-drop_excess n ps)

  -- The oldest point kept is no older than the window allows.
  abbrev pub StartsAfter : ℕ → ℕ → List (LocationPoint Num) → Type 0
  StartsAfter window_time timestamp [] = Unit
  StartsAfter window_time timestamp (p ∷ ps) = timestamp ≤ p.timestamp + window_time

  drop_old-StartsAfter :
      (w t : ℕ) (ps : List (LocationPoint Num)) → StartsAfter w t (drop_old w t ps)
  unfolding drop_old
  drop_old-StartsAfter w t [] = tt
  drop_old-StartsAfter w t (p ∷ ps) = ground (arith, drop_old-StartsAfter w t ps)

  -- Once a point is pushed, the window holds as many points as the mode allows at most.
  push_window_bound :
      (p : LocationPoint Num) (s : State Num) → length (push_window p s).window ≤ centroid_max s
  unfolding push_window
  push_window_bound p s = length-drop_excess (centroid_max s) _

  centroid_max_bound : (s : State Num) → centroid_max s ≤ centroid_max_points
  unfolding centroid_max
  centroid_max_bound s = ground arith

module _ (f : Floats) where
  open f use {Num}

  abbrev Bounded : State Num → Type 0
  Bounded s = length s.window ≤ centroid_max_points

  stay_window : (env : Env) (c : Centroid Num) (s : State Num) → (stay f env c s).window ≡ s.window
  unfolding stay save_if_mature push_stay_point
  stay_window env c s = ground arith

  leave_window : (c : Centroid Num) (s : State Num) → (leave f c s).window ≡ s.window
  unfolding leave
  leave_window c s = ground arith

  calculate_window : (env : Env) (s : State Num) → (calculate f env s).window ≡ s.window
  calculate_window env s =
      calculate_cases f (λ t. t.window ≡ s.window) env s refl
        (
          stay_window env _ (record s { last_centroid_calc_time = env.now }),
          leave_window _ (record s { last_centroid_calc_time = env.now }),
        )

  check_exit_bound :
      (env : Env) (p : LocationPoint Num) (c : Centroid Num) (s : State Num)
      → Bounded s
      → Bounded (check_exit f env p c s)
  unfolding check_exit
  check_exit_bound env p c s h = ground arith

  -- A location leaves at most CENTROID_MAX_POINTS points in a window that has at most as many.
  pub on_location_change_bound :
      (env : Env) (res : RawLocation Num) (s : State Num)
      → length s.window ≤ centroid_max_points
      → length (on_location_change f env res s).window ≤ centroid_max_points
  on_location_change_bound env res s h =
      let (t, kept, outcome) = on_location_change_cases f env res s in
      let h' : Bounded t = rw kept.window h in
      elim outcome [
        | inl e ↦ rw e h'
        | inr (p, _, _, e) ↦ rw e (
            track_cases f Bounded env p t (λ c _ _. check_exit_bound env p c t h')
              (λ _.
                rw (calculate_window env (push_window p t))
                  (omega (arith, push_window_bound p t, centroid_max_bound t))))
      ]
