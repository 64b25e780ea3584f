-- ===== src/AutoRecord/Tracker/Gate.antt =====
-- autoRecord.ts: what a location does before it is looked at: heartbeat and VIP check.
use pathmemos.Base.{
  ℕ, suc, ◌+◌, ◌≡◌, refl, inl, inr, Bool, true, false, ◌&&◌, List, [], ◌∷◌, arith, leb,
  if◌then◌else◌,
}
use pathmemos.AutoRecord.Floats.{Floats, LocationPoint, Centroid, calc_centroid}
use pathmemos.AutoRecord.State.{
  State, Env, Effect, close_auto_record, put_active, VipState, known, unknown, throws,
  is_recording_enabled, is_vip_from_cache, active_touch_interval_ms,
}
use pathmemos.AutoRecord.Timers.{touch_active}
use pathmemos.AutoRecord.Tracker.{
  RawLocation, stay, leave, save_if_mature, push_stay_point, push_window, check_exit, calculate,
  track, with_vip, heartbeat, note_callback, on_location_change,
}
use pathmemos.AutoRecord.Tracker.Cases.{
  calculate_cases, track_cases, accept_cases, verdict-heartbeat, verdict-is_recording_enabled,
  note_callback-Kept,
}
use pathmemos.AutoRecord.Tracker.Stays.{count_true}

-- How often the recorder was told to close.
abbrev pub closes : List Effect → ℕ
closes [] = 0
closes (close_auto_record ∷ es) = suc (closes es)
closes (_ ∷ es) = closes es

-- How often a heartbeat was sent.
abbrev pub touches : List Effect → ℕ
touches [] = 0
touches (put_active token ∷ es) = suc (touches es)
touches (_ ∷ es) = touches es

abbrev pub is_denied : VipState → Bool
is_denied (known false) = true
is_denied _ = false

module _ {Num : Type 0} where
  -- The heartbeat is due.
  abbrev pub is_due : Env → State Num → Bool
  is_due env s = leb (s.last_active_touch_time + active_touch_interval_ms) env.now

  is_recording_enabled_gate :
      (env : Env) (s : State Num)
      → (closes (is_recording_enabled env s).0.started ≡ closes s.started)
        × (touches (is_recording_enabled env s).0.started ≡ touches s.started)
        × ((is_recording_enabled env s).0.last_active_touch_time ≡ s.last_active_touch_time)
  unfolding is_recording_enabled
  is_recording_enabled_gate env s = ground arith

  is_vip_from_cache_gate :
      (env : Env) (s : State Num)
      → (closes (is_vip_from_cache env s).0.started ≡ closes s.started)
        × (touches (is_vip_from_cache env s).0.started ≡ touches s.started)
        × ((is_vip_from_cache env s).0.last_active_touch_time ≡ s.last_active_touch_time)
  unfolding is_vip_from_cache
  is_vip_from_cache_gate env s = ground arith

module _ (f : Floats) where
  open f use {Num}

  abbrev Quiet : State Num → State Num → Type 0
  Quiet s t =
      (closes t.started ≡ closes s.started)
      × (touches t.started ≡ touches s.started)
      × (t.last_active_touch_time ≡ s.last_active_touch_time)

  stay-Quiet : (env : Env) (c : Centroid Num) (s : State Num) → Quiet s (stay f env c s)
  unfolding stay save_if_mature push_stay_point
  stay-Quiet env c s = ground arith

  leave-Quiet : (c : Centroid Num) (s : State Num) → Quiet s (leave f c s)
  unfolding leave
  leave-Quiet c s = ground arith

  check_exit-Quiet :
      (env : Env) (p : LocationPoint Num) (c : Centroid Num) (s : State Num)
      → Quiet s (check_exit f env p c s)
  unfolding check_exit
  check_exit-Quiet env p c s = ground arith

  calculate-Quiet : (env : Env) (s : State Num) → Quiet s (calculate f env s)
  calculate-Quiet env s =
      let s' : State Num = record s { last_centroid_calc_time = env.now } in
      let c : Centroid Num = calc_centroid f s.window in
      calculate_cases f (Quiet s) env s (refl, refl, refl) (stay-Quiet env c s', leave-Quiet c s')

  track-Quiet : (env : Env) (p : LocationPoint Num) (s : State Num) → Quiet s (track f env p s)
  unfolding push_window
  track-Quiet env p s =
      track_cases f (Quiet s) env p s (λ c _ _. check_exit-Quiet env p c s)
        (λ _. calculate-Quiet env (push_window p s))

  with_vip_gate :
      (env : Env) (res : RawLocation Num) (s : State Num) (v : VipState)
      → (closes (with_vip f env res s v).started ≡ closes s.started + count_true (is_denied v))
        × (touches (with_vip f env res s v).started ≡ touches s.started)
        × ((with_vip f env res s v).last_active_touch_time ≡ s.last_active_touch_time)
  unfolding with_vip
  with_vip_gate env res s (known true) = elim (accept_cases f env res s) [
    | inl e ↦ rw e (ground arith)
    | inr (p, e) ↦ rw e (ground (arith, track-Quiet env p s))
  ]
  with_vip_gate env res s (known false) = ground arith
  with_vip_gate env res s unknown = ground arith
  with_vip_gate env res s throws = ground arith

  heartbeat_gate :
      (env : Env) (s : State Num)
      → (closes (heartbeat f env s).started ≡ closes s.started)
        × (touches (heartbeat f env s).started ≡ touches s.started + count_true (is_due env s))
        × ((heartbeat f env s).last_active_touch_time
            ≡ (if is_due env s then env.now else s.last_active_touch_time))
  unfolding heartbeat touch_active
  heartbeat_gate env s = ground arith

  note_gate :
      (env : Env) (res : RawLocation Num) (s : State Num) → Quiet s (note_callback f env res s)
  note_gate env res s = ground arith

  -- While recording is on, a location closes the recorder if the user is known to be no VIP and
  -- not otherwise: not when the status is unknown or cannot be read. One heartbeat request is
  -- started, and its time noted, when it is due, whatever the status; none otherwise. While
  -- recording is off, neither happens.
  pub on_location_change_gate :
      (env : Env) (res : RawLocation Num) (s : State Num)
      → let t = on_location_change f env res s in
        let enabled = (is_recording_enabled env s).1 in
        (closes t.started
          ≡ closes s.started + count_true (enabled && is_denied (is_vip_from_cache env s).1))
        × (touches t.started ≡ touches s.started + count_true (enabled && is_due env s))
        × (t.last_active_touch_time
            ≡ (if enabled && is_due env s then env.now else s.last_active_touch_time))
  unfolding on_location_change
  on_location_change_gate env res s =
      let s1 : State Num = note_callback f env res s in
      let s2 : State Num = (is_recording_enabled env s1).0 in
      let s3 : State Num = heartbeat f env s2 in
      let (s4, v) = is_vip_from_cache env s3 in
      ground (
        arith,
        note_gate env res s,
        is_recording_enabled_gate env s1,
        heartbeat_gate env s2,
        is_vip_from_cache_gate env s3,
        with_vip_gate env res s4 v,
        verdict-heartbeat f env s2,
        verdict-is_recording_enabled f env s1,
        (note_callback-Kept f env res s).1,
        (note_callback-Kept f env res s).2,
      )
