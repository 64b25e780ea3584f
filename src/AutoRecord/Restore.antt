-- ===== src/AutoRecord/Restore.antt =====
-- autoRecord.ts: `tryRestoreAutoRecord`, cut at its `await`s as in Lifecycle, and the app's events.

pub mod Outcome
pub mod Retry
use pathmemos.Base.{
  ℕ, suc, Bool, true, false, not, ◌&&◌, ◌||◌, Option, none, some, List, [], ◌∷◌, ltb, ◌==◌,
  if◌then◌else◌,
}
use pathmemos.AutoRecord.State.{
  State, Env, restore_auto_record, close_auto_record, flush_and_report, start, is_recording_enabled,
  set_recording_state, update_vip_cache,
}
use pathmemos.AutoRecord.Timers.{
  create_cancel_token, cancel, start_fallback_timer, restart_fallback_timer, reset_state,
  touch_active, clear_restore_retry, schedule_restore_retry, ios_resume_get_location,
}
use pathmemos.AutoRecord.Reports.{Answers, Reported, serial_flush_and_report}
use pathmemos.AutoRecord.Lifecycle.{forget_token, close_auto_record_run}

-- What the calls of a restore answer: the two starts of the listener, the storage and the server of
-- the upload, the VIP query (none is a failure), the query of the backend's switch, and the storage
-- and the server of the last upload, when the restore closes the recorder.
pub record RestoreAnswers : Type 0 where
  pub first_start : Bool
  pub reads : Bool
  pub writes : Bool
  pub upload : Answers
  pub vip : Option ℕ
  pub config : Option Bool
  pub second_start : Bool
  pub close_reads : Bool
  pub close_writes : Bool
  pub close_upload : Answers

abbrev denies : Option ℕ → Bool
denies none = false
denies (some is_vip) = not (ltb 0 is_vip)

module _ {Num : Type 0} where
  -- The early returns; the second component says whether the restore goes on.
  unfoldable pub restore_begin : Env → State Num → State Num × Bool
  unfolding is_recording_enabled clear_restore_retry reset_state
  restore_begin env s =
      if s.opening
      then (s, false)
      else let (s', enabled) = is_recording_enabled env s in
        elim enabled [
          | false ↦ (reset_state env false (clear_restore_retry s'), false)
          | true ↦ (record s' { restoring = true }, not s'.restoring)
        ]

  -- A new cancel token takes the place of the one before, which is cancelled.
  unfoldable pub restore_token : State Num → State Num × ℕ
  restore_token s =
      let (s, token) = create_cancel_token (cancel s.lifecycle_cancel_token s) in
      (record s { lifecycle_cancel_token = some token }, token)

  -- `success` of `wx.startLocationUpdateBackground`.
  unfoldable pub restore_started : Env → ℕ → State Num → State Num
  unfolding is_recording_enabled set_recording_state start_fallback_timer
  restore_started env generation s =
      let (s', enabled) = is_recording_enabled env s in
      if not (s.closing_generation == generation)
      then s
      else if not enabled
      then s'
      else start_fallback_timer env
          (record (set_recording_state env true (record s' { listener_registered = true })) {
            location_handler = true;
          })

  -- Step 1: the listener is taken off and started anew; a failed start changes nothing more.
  unfoldable pub restore_listener : Env → ℕ → Bool → State Num → State Num
  unfolding is_recording_enabled
  restore_listener env generation answer s =
      let (s', enabled) = is_recording_enabled env s in
      if not (enabled && (s'.closing_generation == generation))
      then s'
      else let s'' = record s' { location_handler = false } in
        if answer then restore_started env generation s'' else s''

  -- The reactions to a failure: the switch stays, the listener stops, and a retry is set.
  unfoldable pub restore_later : Env → State Num → State Num × Bool
  unfolding reset_state schedule_restore_retry
  restore_later env s = (schedule_restore_retry (reset_state env true s), false)

  -- From the backend's switch on.
  unfoldable pub restore_confirmed : Env → ℕ → (second_start : Bool) → State Num → State Num × Bool
  unfolding clear_restore_retry
  restore_confirmed env generation second_start s =
      let s' =
        if not s.listener_registered && second_start then restore_started env generation s else s in
      if not s'.listener_registered
      then restore_later env s'
      else (record (clear_restore_retry s') { restore_retry_delay = 60_000 }, true)

  unfoldable pub restore_config :
      Env → ℕ → Option Bool → (second_start : Bool) → State Num → State Num × Bool
  unfolding clear_restore_retry
  restore_config env generation none second_start s = restore_later env s
  restore_config env generation (some enabled) second_start s =
      if not (s.closing_generation == generation)
      then (reset_state env false s, false)
      else if not enabled
      then (reset_state env false (clear_restore_retry s), false)
      else restore_confirmed env generation second_start s

  -- Step 2, from the answer of the VIP query on.
  unfoldable pub restore_vip : Env → ℕ → RestoreAnswers → Option ℕ → State Num → State Num × Bool
  unfolding clear_restore_retry update_vip_cache
  restore_vip env generation a none s = restore_later env s
  restore_vip env generation a (some is_vip) s =
      if not (s.closing_generation == generation)
      then (reset_state env false s, false)
      else let s = update_vip_cache env (ltb 0 is_vip) s in
        if ltb 0 is_vip then restore_config env generation a.config a.second_start s else (
          (close_auto_record_run env a.close_reads a.close_writes a.close_upload
              (clear_restore_retry s)).state,
          false,
        )

  -- `finally`
  unfoldable pub restore_finally : Env → ℕ → State Num → State Num
  unfolding forget_token is_recording_enabled touch_active
  restore_finally env token s =
      let (s, enabled) =
        is_recording_enabled env (record (forget_token token s) { restoring = false }) in
      if enabled then touch_active (record s { last_active_touch_time = env.now }) else s

  -- The body of `try`, `catch` and `finally` in a run in which nothing else happens.
  unfoldable pub restore_run : Env → RestoreAnswers → State Num → State Num × Bool
  restore_run env a s =
      let (s1, token) = restore_token s in
      let s2 = restore_listener env s.closing_generation a.first_start s1 in
      let r = serial_flush_and_report env a.reads a.writes a.upload false s2 in
      let (s3, ok) = restore_vip env s.closing_generation a a.vip r.state in
      (restore_finally env token s3, ok)

  -- `tryRestoreAutoRecord`
  unfoldable pub try_restore_auto_record : Env → RestoreAnswers → State Num → State Num × Bool
  try_restore_auto_record env a s =
      let (s', goes_on) = restore_begin env s in
      if goes_on then restore_run env a s' else (s', false)

  -- The watchdog's 60 seconds run out.
  unfoldable pub restore_watchdog : ℕ → State Num → State Num
  unfolding schedule_restore_retry
  restore_watchdog token s = elim s.lifecycle_cancel_token [
    | none ↦ s
    | some t ↦
        if s.restoring && (t == token)
        then schedule_restore_retry (record (cancel (some token) s) { restoring = false })
        else s
  ]

  -- `onAppShow` to its first `await`, and with the answer of the VIP query (none is a failure).
  unfoldable pub on_app_show : Env → State Num → State Num × Bool
  unfolding is_recording_enabled
  on_app_show env s =
      let (s, enabled) = is_recording_enabled env (record s { app_backgrounded_at = 0 }) in
      if not enabled
      then (s, false)
      else if s.listener_registered
      then (s, true)
      else (start restore_auto_record s, true)

  unfoldable pub on_app_show_answered :
      Env → (reads writes : Bool) → Answers → Option ℕ → State Num → State Num
  unfolding ios_resume_get_location restart_fallback_timer touch_active
  on_app_show_answered env reads writes a answer s =
      if denies answer
      then start close_auto_record s
      else let s = restart_fallback_timer env (ios_resume_get_location env s) in
        let s = (serial_flush_and_report env reads writes a false s).state in
        touch_active (record s { last_active_touch_time = env.now })

  unfoldable pub on_app_hide : Env → State Num → State Num
  unfolding is_recording_enabled
  on_app_hide env s =
      let s = record s { ios_resume_timer = none; app_backgrounded_at = env.now } in
      let (s, enabled) = is_recording_enabled env s in
      if enabled then start flush_and_report s else s
