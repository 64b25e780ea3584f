-- ===== src/AutoRecord/Timers.antt =====
-- autoRecord.ts: cancel tokens, timers, the listener, and the reset of the state.
use pathmemos.Base.{
  ℕ, suc, ◌+◌, ◌*◌, Bool, true, false, Option, none, some, List, [], ◌∷◌, ltb, ◌==◌, ◌&&◌, ◌||◌,
  not, if◌then◌else◌, is_some, min,
}
use pathmemos.AutoRecord.State.{
  State, Env, put_active, restore_auto_record, get_location, start, is_background,
  is_recording_enabled, set_recording_state, moving, is_stationary, fallback_interval_ms,
  restore_retry_max_delay, ios_resume_get_location_delay_ms,
}

pub mem : ℕ → List ℕ → Bool
mem t [] = false
mem t (u ∷ us) = t == u || mem t us

module _ {Num : Type 0} where
  -- `createCancelToken()`
  abbrev pub create_cancel_token : State Num → State Num × ℕ
  create_cancel_token s = (record s { next_token = suc s.next_token }, s.next_token)

  abbrev pub is_cancelled : State Num → ℕ → Bool
  is_cancelled s t = mem t s.cancelled

  -- `if (token) token.cancel()`, with the token kept.
  abbrev pub cancel : Option ℕ → State Num → State Num
  cancel none s = s
  cancel (some t) s = record s { cancelled = t ∷ s.cancelled }

  unfoldable pub stop_fallback_timer : State Num → State Num
  stop_fallback_timer s = record s { fallback_timer = none; fallback_pending = false }

  unfoldable pub start_fallback_timer : Env → State Num → State Num
  unfolding is_recording_enabled
  start_fallback_timer env s =
      let (s, enabled) = is_recording_enabled env s in
      if not enabled || is_some s.fallback_timer
      then s
      else record s { fallback_timer = some fallback_interval_ms }

  unfoldable pub restart_fallback_timer : Env → State Num → State Num
  unfolding stop_fallback_timer start_fallback_timer is_recording_enabled
  restart_fallback_timer env s =
      let (s, enabled) = is_recording_enabled env (stop_fallback_timer s) in
      if enabled then start_fallback_timer env s else s

  -- The silence that `tick` allows, by how long the user has been stationary.
  pub desired_silence : Env → State Num → ℕ
  desired_silence env s =
      if s.stationary_saved && is_stationary s.state
      then if ltb (30 * 60 * 1000 + elim s.stationary_start_time [ none ↦ 0 | some t ↦ t ]) env.now
        then 5 * 60 * 1000
        else 60_000
      else fallback_interval_ms

  -- `tick`, to its `_getCurrentLocation`.
  unfoldable pub fallback_tick : Env → State Num → State Num
  unfolding is_recording_enabled desired_silence
  fallback_tick env s =
      let (s, enabled) = is_recording_enabled env s in
      if not enabled || (not (is_background s) || s.fallback_pending)
      then s
      else if ltb (env.now + 5000) (s.last_system_callback_at + desired_silence env s)
      then s
      else start get_location (record s { fallback_pending = true })

  unfoldable pub stop_location_update_background : State Num → State Num
  stop_location_update_background s = record s { listener_registered = false }

  unfoldable pub reset_state : Env → Bool → State Num → State Num
  unfolding set_recording_state stop_fallback_timer stop_location_update_background
  reset_state env preserve_storage s =
      let s = record s { ios_resume_timer = none } in
      let s = record (cancel s.active_cancel_token s) { active_cancel_token = none } in
      let s = record s { app_backgrounded_at = 0 } in
      let s =
        if not preserve_storage
        then set_recording_state env false s
        else record s { enabled_in_memory = none } in
      let s = stop_fallback_timer s in
      let s = record s { location_handler = false } in
      let s = stop_location_update_background s in
      record s {
        window = [];
        stable_centroid = none;
        last_centroid_calc_time = 0;
        state = moving;
        stationary_start_time = none;
        stationary_saved = false;
        exit_confirm_count = 0;
        report_batch_seq = 0;
        last_system_callback_at = 0;
        last_stationary_check_time = 0;
        report_failure_count = 0;
        last_report_failure_time = 0;
        last_active_touch_time = 0;
        last_vip_result = none;
        last_vip_check_time = 0;
        last_vip_fetch_at = 0;
        fallback_pending = false;
      }

  -- `_touchActive`, to its `await`, and what follows when the request with token `t` settles.
  unfoldable pub touch_active : State Num → State Num
  touch_active s =
      let (s, token) = create_cancel_token (cancel s.active_cancel_token s) in
      start (put_active token) (record s { active_cancel_token = some token })

  unfoldable pub touch_active_settled : ℕ → State Num → State Num
  touch_active_settled t s = elim s.active_cancel_token [
    | none ↦ s
    | some u ↦ if u == t then record s { active_cancel_token = none } else s
  ]

  unfoldable pub clear_restore_retry : State Num → State Num
  clear_restore_retry s = record s { restore_retry_timer = none }

  unfoldable pub schedule_restore_retry : State Num → State Num
  unfolding clear_restore_retry
  schedule_restore_retry s =
      let s = clear_restore_retry s in
      record s {
        restore_retry_delay = min (s.restore_retry_delay * 2) restore_retry_max_delay;
        restore_retry_timer = some s.restore_retry_delay;
      }

  -- The timer of `_scheduleRestoreRetry` fires.
  unfoldable pub restore_retry_fires : State Num → State Num
  restore_retry_fires s = start restore_auto_record (record s { restore_retry_timer = none })

  unfoldable pub ios_resume_get_location : Env → State Num → State Num
  unfolding is_recording_enabled
  ios_resume_get_location env s =
      if not env.ios
      then s
      else let (s, enabled) = is_recording_enabled env s in
        if not enabled
        then s
        else record s { ios_resume_timer = some ios_resume_get_location_delay_ms }

  unfoldable pub ios_resume_fires : State Num → State Num
  ios_resume_fires s =
      let s = record s { ios_resume_timer = none } in
      if s.fallback_pending then s else start get_location (record s { fallback_pending = true })
