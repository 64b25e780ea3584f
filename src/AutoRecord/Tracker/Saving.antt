-- ===== src/AutoRecord/Tracker/Saving.antt =====
-- autoRecord.ts: when a stay point is queued, and when a stay ends.
use pathmemos.Base.{
  ℕ, ◌+◌, ◌≤◌, ◌≡◌, refl, sym, ◌∙◌, ap, ◌⊎◌, inl, inr, Bool, true, false, Option, none, some, [],
  ◌∷◌, ◌++◌, arith, Bool-cases, leb,
}
use pathmemos.AutoRecord.Floats.{Floats, LocationPoint, Centroid, round_coord, calc_centroid}
use pathmemos.AutoRecord.State.{
  State, Env, Motion, moving, stationary, known, is_recording_enabled, is_vip_from_cache,
  stay_point_mature_ms,
}
use pathmemos.AutoRecord.Tracker.{
  RawLocation, stay, leave, save_if_mature, push_stay_point, push_window, check_exit, calculate,
  track, on_location_change,
}
use pathmemos.AutoRecord.Tracker.Cases.{
  Kept, calculate_cases, track_cases, on_location_change_cases,
}
use pathmemos.AutoRecord.Tracker.Coherence.{IsCoherent, Kept-IsCoherent}

module _ (f : Floats) where
  open f use {Num}

  -- From `s` to `t` no stay point is queued, or that of a mature stay which was not saved before.
  pub data Queued (env : Env) (s t : State Num) : Type 0 where
    nothing : t.stay_point_queue ≡ s.stay_point_queue → Queued env s t
    stay_point :
        (start_time : ℕ) (c : Centroid Num)
        → s.state ≡ stationary
        → s.stationary_start_time ≡ some start_time
        → start_time + stay_point_mature_ms ≤ env.now
        → s.stable_centroid ≡ some c
        → s.stationary_saved ≡ false
        → t.stationary_saved ≡ true
        → t.state ≡ stationary
        → t.stay_point_queue
          ≡ s.stay_point_queue
            ++ (record {
              lat = round_coord f c.lat;
              lon = round_coord f c.lon;
              recorded_at = env.now;
            })
              ∷ []
        → Queued env s t

  stay-Queued :
      (env : Env) (centroid : Centroid Num) (s : State Num) (m : Motion) (start_time : Option ℕ)
      (stable : Option (Centroid Num)) (saved : Bool)
      → s.state ≡ m
      → s.stationary_start_time ≡ start_time
      → s.stable_centroid ≡ stable
      → s.stationary_saved ≡ saved
      → IsCoherent s
      → Queued env s (stay f env centroid s)
  unfolding stay save_if_mature push_stay_point
  stay-Queued env centroid s moving start_time stable saved em es ec ev h = nothing (ground arith)
  stay-Queued env centroid s stationary none stable saved em es ec ev h = absurd (ground arith)
  stay-Queued env centroid s stationary (some t) none saved em es ec ev h = absurd (ground arith)
  stay-Queued env centroid s stationary (some t) (some c) true em es ec ev h =
      nothing (ground arith)
  stay-Queued env centroid s stationary (some t) (some c) false em es ec ev h =
      elim (Bool-cases (leb (t + stay_point_mature_ms) env.now)) [
        | inl e ↦
            stay_point t c em es (ground arith) ec ev (ground arith) (ground arith) (ground arith)
        | inr e ↦ nothing (ground arith)
      ]

  leave-Queued :
      (env : Env) (centroid : Centroid Num) (s : State Num) → Queued env s (leave f centroid s)
  unfolding leave
  leave-Queued env centroid s = nothing (ground arith)

  check_exit-Queued :
      (env : Env) (p : LocationPoint Num) (c : Centroid Num) (s : State Num)
      → Queued env s (check_exit f env p c s)
  unfolding check_exit
  check_exit-Queued env p c s = nothing (ground arith)

  -- The variables that `Queued` reads of its first state.
  Queued-same :
      {env : Env} {s t u : State Num}
      → t.state ≡ s.state
      → t.stationary_start_time ≡ s.stationary_start_time
      → t.stable_centroid ≡ s.stable_centroid
      → t.stationary_saved ≡ s.stationary_saved
      → t.stay_point_queue ≡ s.stay_point_queue
      → Queued env t u
      → Queued env s u
  Queued-same a b c' d q (nothing e) = nothing (e ∙ q)
  Queued-same a b c' d q (stay_point st c em es m ec ev ev' em' e) =
      stay_point st c (sym a ∙ em) (sym b ∙ es) m (sym c' ∙ ec) (sym d ∙ ev) ev' em' (rw (← q) e)

  Queued-of_Kept : {env : Env} {s t u : State Num} → Kept s t → Queued env t u → Queued env s u
  Queued-of_Kept k q =
      Queued-same k.state k.stationary_start_time k.stable_centroid k.stationary_saved
        k.stay_point_queue q

  calculate-Queued : (env : Env) (s : State Num) → IsCoherent s → Queued env s (calculate f env s)
  calculate-Queued env s h =
      let s' : State Num = record s { last_centroid_calc_time = env.now } in
      calculate_cases f (Queued env s) env s (nothing refl) (
        Queued-same refl refl refl refl refl (
            stay-Queued env (calc_centroid f s.window) s' s.state s.stationary_start_time
              s.stable_centroid s.stationary_saved refl refl refl refl
              (record { shape = h.shape; count = h.count })),
        Queued-same refl refl refl refl refl (leave-Queued env (calc_centroid f s.window) s'),
      )

  track-Queued :
      (env : Env) (p : LocationPoint Num) (s : State Num)
      → IsCoherent s
      → Queued env s (track f env p s)
  unfolding push_window
  track-Queued env p s h =
      track_cases f (Queued env s) env p s (λ c _ _. check_exit-Queued env p c s)
        (λ _.
          Queued-same refl refl refl refl refl
            (calculate-Queued env (push_window p s) (record { shape = h.shape; count = h.count })))

  -- From a coherent state, a location queues nothing, or exactly the stay point of a stay that lasts ten minutes, was not
  -- saved and is saved now; and the latter only while recording is on and the user is a known VIP.
  pub on_location_change-Queued :
      (env : Env) (res : RawLocation Num) (s : State Num)
      → IsCoherent s
      → ((on_location_change f env res s).stay_point_queue ≡ s.stay_point_queue)
        ⊎ (((is_recording_enabled env s).1 ≡ true)
            × ((is_vip_from_cache env s).1 ≡ known true)
            × Queued env s (on_location_change f env res s))
  on_location_change-Queued env res s h =
      let (t, kept, outcome) = on_location_change_cases f env res s in
      elim outcome [
        | inl e ↦ inl (ap (λ (u : State Num). u.stay_point_queue) e ∙ kept.stay_point_queue)
        | inr (p, on, v, e) ↦
            inr
              (on, v, rw e (Queued-of_Kept kept (track-Queued env p t (Kept-IsCoherent f kept h))))
      ]
