-- ===== src/AutoRecord/Tracker/Cases.antt =====
-- autoRecord.ts: what one location can lead to, branch by branch.
use pathmemos.Base.{
  ◌+◌, ◌≡◌, refl, sym, ◌∙◌, ◌⊎◌, inl, inr, Bool, true, false, some, arith, Bool-cases, Option-cases,
  ltb, length, if◌then◌else◌,
}
use pathmemos.AutoRecord.Floats.{Floats, LocationPoint, Centroid, calc_centroid, is_near}
use pathmemos.AutoRecord.State.{
  State, Env, VipState, known, unknown, throws, is_recording_enabled, is_vip_from_cache,
  centroid_calc_interval, centroid_min, accuracy_filter,
}
use pathmemos.AutoRecord.Timers.{touch_active}
use pathmemos.AutoRecord.Tracker.{
  RawLocation, stay, leave, calculate, check_exit, push_window, track, accept, with_vip, heartbeat,
  on_location_change, is_background_stationary_saved, accuracy_of, point_of, note_callback,
}

-- The variables of the stay detection are the same.
pub record Kept {Num : Type 0} (s t : State Num) : Type 0 where
  pub window : t.window ≡ s.window
  pub last_centroid_calc_time : t.last_centroid_calc_time ≡ s.last_centroid_calc_time
  pub state : t.state ≡ s.state
  pub stationary_start_time : t.stationary_start_time ≡ s.stationary_start_time
  pub stationary_saved : t.stationary_saved ≡ s.stationary_saved
  pub stable_centroid : t.stable_centroid ≡ s.stable_centroid
  pub exit_confirm_count : t.exit_confirm_count ≡ s.exit_confirm_count
  pub stay_point_queue : t.stay_point_queue ≡ s.stay_point_queue
  pub app_backgrounded_at : t.app_backgrounded_at ≡ s.app_backgrounded_at

module _ {Num : Type 0} where
  pub Kept-trans : {s t u : State Num} → Kept s t → Kept t u → Kept s u
  Kept-trans h k = record {
    window = k.window ∙ h.window;
    last_centroid_calc_time = k.last_centroid_calc_time ∙ h.last_centroid_calc_time;
    state = k.state ∙ h.state;
    stationary_start_time = k.stationary_start_time ∙ h.stationary_start_time;
    stationary_saved = k.stationary_saved ∙ h.stationary_saved;
    stable_centroid = k.stable_centroid ∙ h.stable_centroid;
    exit_confirm_count = k.exit_confirm_count ∙ h.exit_confirm_count;
    stay_point_queue = k.stay_point_queue ∙ h.stay_point_queue;
    app_backgrounded_at = k.app_backgrounded_at ∙ h.app_backgrounded_at;
  }

  pub is_recording_enabled-Kept :
      (env : Env) (s : State Num) → Kept s (is_recording_enabled env s).0
  unfolding is_recording_enabled
  is_recording_enabled-Kept env s = ground arith

  pub is_vip_from_cache-Kept : (env : Env) (s : State Num) → Kept s (is_vip_from_cache env s).0
  unfolding is_vip_from_cache
  is_vip_from_cache-Kept env s = ground arith

module _ (f : Floats) where
  open f use {Num}

  pub heartbeat-Kept : (env : Env) (s : State Num) → Kept s (heartbeat f env s)
  unfolding heartbeat touch_active
  heartbeat-Kept env s = ground arith

  -- A recomputation is put off, or the centroid is near the stable one, or it is not.
  pub calculate_cases {ℓ} :
      (P : State Num → Type ℓ) (env : Env) (s : State Num)
      → P s
      → (let s' = record s { last_centroid_calc_time = env.now } in
          P (stay f env (calc_centroid f s.window) s') × P (leave f (calc_centroid f s.window) s'))
      → P (calculate f env s)
  unfolding calculate
  calculate_cases P env s same computed =
      elim (Bool-cases (ltb env.now (s.last_centroid_calc_time + centroid_calc_interval s))) [
        | inl e ↦ rw e same
        | inr e ↦ elim (Bool-cases (ltb (length s.window) (centroid_min s))) [
          | inl e' ↦ rw (e, e') same
          | inr e' ↦ rw (e, e') (near (is_near f _ _ _) computed)
        ]
      ]
    where
      near :
          (b : Bool)
          → (let s' = record s { last_centroid_calc_time = env.now } in
              P (stay f env (calc_centroid f s.window) s')
              × P (leave f (calc_centroid f s.window) s'))
          → P (
              if b
              then stay f env
                  (calc_centroid f s.window)
                  (record s { last_centroid_calc_time = env.now })
              else leave f
                  (calc_centroid f s.window)
                  (record s { last_centroid_calc_time = env.now }))
      near true (a, b) = a
      near false (a, b) = b

  pub track_cases {ℓ} :
      (P : State Num → Type ℓ) (env : Env) (p : LocationPoint Num) (s : State Num)
      → ((c : Centroid Num)
          → s.stable_centroid ≡ some c
          → is_background_stationary_saved s ≡ true
          → P (check_exit f env p c s))
      → (is_background_stationary_saved s ≡ false → P (calculate f env (push_window p s)))
      → P (track f env p s)
  unfolding track
  track_cases P env p s exit full = elim (Bool-cases (is_background_stationary_saved s)) [
    | inl e ↦ elim (Option-cases s.stable_centroid) [
      | inl n ↦ absurd (ground arith)
      | inr (c, e') ↦ rw (e, e') (exit c e' e)
    ]
    | inr e ↦ rw e (full e)
  ]

  -- The filters let through a point with both coordinates, or stop the location.
  pub accept_cases :
      (env : Env) (res : RawLocation Num) (s : State Num)
      → (accept f env res s ≡ s)
        ⊎ ((p : LocationPoint Num) × (accept f env res s ≡ track f env p s))
  unfolding accept
  accept_cases env res s =
      elim (Bool-cases (f.lt (f.num (accuracy_filter env.ios)) (accuracy_of f res))) [
        | inl e ↦ inl (rw e)
        | inr e ↦ elim (Option-cases res.latitude) [
          | inl n ↦ inl (rw (e, n))
          | inr (lat, e1) ↦ elim (Option-cases res.longitude) [
            | inl n ↦ inl (rw (e, e1, n))
            | inr (lon, e2) ↦ inr (point_of f env res lat lon, rw (e, e1, e2))
          ]
        ]
      ]

  with_vip_cases :
      (env : Env) (res : RawLocation Num) (s : State Num) (v : VipState)
      → ((t : State Num) × Kept s t × (with_vip f env res s v ≡ t))
        ⊎ ((p : LocationPoint Num) × (v ≡ known true) × (with_vip f env res s v ≡ track f env p s))
  unfolding with_vip
  with_vip_cases env res s (known true) = elim (accept_cases env res s) [
    | inl e ↦ inl (s, ground arith, e)
    | inr (p, e) ↦ inr (p, refl, e)
  ]
  with_vip_cases env res s (known false) = inl (_, ground arith, refl)
  with_vip_cases env res s unknown = inl (_, ground arith, refl)
  with_vip_cases env res s throws = inl (_, ground arith, refl)

  pub verdict-heartbeat :
      (env : Env) (s : State Num)
      → (is_vip_from_cache env (heartbeat f env s)).1 ≡ (is_vip_from_cache env s).1
  unfolding heartbeat touch_active is_vip_from_cache
  verdict-heartbeat env s = ground arith

  pub verdict-is_recording_enabled :
      (env : Env) (s : State Num)
      → (is_vip_from_cache env (is_recording_enabled env s).0).1 ≡ (is_vip_from_cache env s).1
  unfolding is_recording_enabled is_vip_from_cache
  verdict-is_recording_enabled env s = ground arith

  pub note_callback-Kept :
      (env : Env) (res : RawLocation Num) (s : State Num)
      → Kept s (note_callback f env res s)
        × ((is_recording_enabled env (note_callback f env res s)).1
            ≡ (is_recording_enabled env s).1)
        × ((is_vip_from_cache env (note_callback f env res s)).1 ≡ (is_vip_from_cache env s).1)
  unfolding is_recording_enabled is_vip_from_cache
  note_callback-Kept env res s = ground arith

  -- A location is tracked only if recording is on and the user is known to be a VIP; else the
  -- variables of the stay detection stay as they are.
  pub on_location_change_cases :
      (env : Env) (res : RawLocation Num) (s : State Num)
      → (t : State Num) × Kept s t
        × ((on_location_change f env res s ≡ t)
            ⊎ ((p : LocationPoint Num) × ((is_recording_enabled env s).1 ≡ true)
                × ((is_vip_from_cache env s).1 ≡ known true)
                × (on_location_change f env res s ≡ track f env p t)))
  unfolding on_location_change
  on_location_change_cases env res s = elim (Bool-cases (is_recording_enabled env s1).1) [
    | inl on ↦ elim (with_vip_cases env res s4.0 s4.1) [
      | inl (t, kept, e) ↦ (t, Kept-trans through kept, inl (rw on e))
      | inr (p, v, e) ↦ (s4.0, through, inr (p, sym note.1 ∙ on, sym same_verdict ∙ v, rw on e))
    ]
    | inr off ↦ (s2, to_s2, inl (rw off))
  ]
    where
      s1 : State Num
      s1 = note_callback f env res s

      s2 : State Num
      s2 = (is_recording_enabled env s1).0

      s3 : State Num
      s3 = heartbeat f env s2

      s4 : State Num × VipState
      s4 = is_vip_from_cache env s3

      note :
          Kept s s1
          × ((is_recording_enabled env s1).1 ≡ (is_recording_enabled env s).1)
          × ((is_vip_from_cache env s1).1 ≡ (is_vip_from_cache env s).1)
      note = note_callback-Kept env res s

      to_s2 : Kept s s2
      to_s2 = Kept-trans note.0 (is_recording_enabled-Kept env s1)

      through : Kept s s4.0
      through =
          Kept-trans (Kept-trans to_s2 (heartbeat-Kept env s2)) (is_vip_from_cache-Kept env s3)

      same_verdict : s4.1 ≡ (is_vip_from_cache env s).1
      same_verdict = verdict-heartbeat env s2 ∙ verdict-is_recording_enabled env s1 ∙ note.2
