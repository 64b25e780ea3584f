-- ===== src/AutoRecord/Lifecycle.antt =====
-- autoRecord.ts: opening, closing and restoring the recorder, and the app's `onShow` and `onHide`.
-- Each function that awaits is cut at its `await`s; a part takes the answer that it waited for.
-- `generation` is the value of `_closingGeneration` that the call began with, `token` its cancel
-- token. What the source resolves or rejects with is the second component.
pub mod Closing
pub mod Failing
pub mod Generation
pub mod Overtaken
use pathmemos.Base.{
  ℕ, suc, ◌+◌, ◌*◌, Bool, true, false, not, ◌&&◌, ◌||◌, Option, none, some, List, [], ◌∷◌, ltb,
  ◌==◌, if◌then◌else◌, is_some,
}
use pathmemos.AutoRecord.State.{
  State, Env, VipLookup, found, absent, failed, save_first_record, restore_auto_record,
  close_auto_record, flush_and_report, start, is_recording_enabled, set_recording_state,
  update_vip_cache,
}
use pathmemos.AutoRecord.Timers.{
  create_cancel_token, is_cancelled, cancel, start_fallback_timer, restart_fallback_timer,
  reset_state, touch_active, clear_restore_retry, schedule_restore_retry, ios_resume_get_location,
}
use pathmemos.AutoRecord.Reports.{Answers, Reported, serial_flush_and_report}

-- How `openAutoRecord` stands after a part: still waiting for what the constructor names, resolved
-- with true, or rejected; `need_refresh` is the error that asks the page to refresh.
pub data Opening : Type 0 where
  awaits_setting awaits_modal : Opening
  awaits_sync awaits_location awaits_rollback : (generation token : ℕ) → Opening
  resolved : Opening
  rejected : (need_refresh : Bool) → Opening
  ignored : Opening

abbrev pub is_vip : VipLookup → Bool
is_vip (found n) = ltb 0 n
is_vip _ = false

module _ {Num : Type 0} where
  -- `finish`: nothing more once the timeout has fired.
  unfoldable pub finish : (timeout_fired : Bool) → Opening → State Num → State Num × Opening
  finish true o s = (s, ignored)
  finish false o s = (record s { opening = false }, o)

  -- `openAutoRecord` to `wx.getSetting`. A throw of `getVipInfo` rejects and leaves `_opening` set
  -- for the timeout.
  unfoldable pub open_by_vip : VipLookup → State Num → State Num × Opening
  unfolding finish
  open_by_vip failed s = (s, rejected false)
  open_by_vip v s = if is_vip v then (s, awaits_setting) else finish false (rejected false) s

  unfoldable pub open_auto_record : Env → State Num → State Num × Opening
  unfolding open_by_vip
  open_auto_record env s =
      if s.opening
      then (s, rejected false)
      else open_by_vip env.vip (record s {
        opening = true;
        just_from_settings = false;
        closing_generation = suc s.closing_generation;
      })

  -- `_doOpenAutoRecord` to its first `await`.
  unfoldable pub do_open : ℕ → State Num → State Num × Opening
  do_open generation s =
      let (s, token) = create_cancel_token (cancel s.lifecycle_cancel_token s) in
      (record s { lifecycle_cancel_token = some token }, awaits_sync generation token)

  -- The answer of `wx.getSetting`: the authorisation, or none if the call fails.
  unfoldable pub setting_answered :
      (timeout_fired : Bool) → ℕ → Option Bool → State Num → State Num × Opening
  unfolding do_open finish
  setting_answered timeout_fired generation none s = finish timeout_fired (rejected false) s
  setting_answered timeout_fired generation (some true) s = do_open generation s
  setting_answered timeout_fired generation (some false) s = (s, awaits_modal)

  -- The modal is cancelled or fails, or its 15 seconds run out: `_opening = false; onDone(false)`.
  unfoldable pub modal_declined : (timeout_fired : Bool) → State Num → State Num × Opening
  unfolding finish
  modal_declined timeout_fired s =
      finish timeout_fired (rejected false) (record s { opening = false })

  -- The answer of `wx.openSetting`, with whether the modal's own timeout has fired.
  unfoldable pub open_setting_answered :
      (timeout_fired setting_timed_out : Bool) → ℕ → Option Bool → State Num → State Num × Opening
  unfolding do_open modal_declined
  open_setting_answered timeout_fired true generation answer s = (s, ignored)
  open_setting_answered timeout_fired false generation answer s =
      if not s.opening then (s, ignored) else elim answer [
        | none ↦ modal_declined timeout_fired s
        | some authorised ↦
            if authorised
            then do_open generation (record s { just_from_settings = true })
            else modal_declined timeout_fired s
      ]

  -- `_checkAborted` passes.
  abbrev pub is_current : ℕ → State Num → Bool
  is_current generation s = s.opening && (s.closing_generation == generation)

  -- `finally`: the token is forgotten if it is still this call's.
  unfoldable pub forget_token : ℕ → State Num → State Num
  forget_token token s = elim s.lifecycle_cancel_token [
    | none ↦ s
    | some t ↦ if t == token then record s { lifecycle_cancel_token = none } else s
  ]

  -- The end of the `catch` of `_doOpenAutoRecord`.
  unfoldable pub open_failed : Env → (timeout_fired : Bool) → ℕ → State Num → State Num × Opening
  unfolding finish
  open_failed env timeout_fired token s =
      let reset = reset_state env false s in
      let (s', o) =
        finish timeout_fired (rejected reset.just_from_settings)
          (record reset { just_from_settings = false }) in
      (forget_token token s', o)

  -- The start of the `catch`: the backend is switched off again unless the call was cancelled.
  unfoldable pub open_catch :
      Env → (timeout_fired : Bool) → (generation token : ℕ) → State Num → State Num × Opening
  open_catch env timeout_fired generation token s =
      if is_cancelled s token
      then open_failed env timeout_fired token s
      else (s, awaits_rollback generation token)

  -- The answer of `_syncBackendConfig(true)`.
  unfoldable pub open_synced :
      Env → (timeout_fired : Bool) → (generation token : ℕ) → Bool → State Num → State Num × Opening
  open_synced env timeout_fired generation token answer s =
      if answer && is_current generation s
      then (s, awaits_location generation token)
      else open_catch env timeout_fired generation token s

  -- `_startLocationUpdate`: its callbacks.
  unfoldable pub location_started : Env → State Num → State Num
  unfolding start_fallback_timer
  location_started env s =
      start_fallback_timer env (record s { location_handler = true; listener_registered = true })

  -- The answer of `_startLocationUpdate`.
  unfoldable pub open_located :
      Env → (timeout_fired : Bool) → (generation token : ℕ) → Bool → State Num → State Num × Opening
  unfolding finish clear_restore_retry
  open_located env timeout_fired generation token false s =
      open_catch env timeout_fired generation token s
  open_located env timeout_fired generation token true s =
      let s = location_started env s in
      if not (is_current generation s)
      then open_catch env timeout_fired generation token s
      else let s = clear_restore_retry (set_recording_state env true s) in
        let (s, o) = finish timeout_fired resolved (record s { restore_retry_delay = 60_000 }) in
        (forget_token token (start save_first_record s), o)

  -- The 30 seconds of `openAutoRecord` run out: what it does before it asks the backend, and with
  -- the backend's answer (false if the query fails or takes 5 seconds).
  unfoldable pub open_timeout : State Num → State Num
  open_timeout s = let s = record s { opening = false } in cancel s.lifecycle_cancel_token s

  unfoldable pub open_timeout_answered : Env → Bool → State Num → State Num × Opening
  unfolding set_recording_state reset_state
  open_timeout_answered env true s =
      (start restore_auto_record (set_recording_state env true s), rejected false)
  open_timeout_answered env false s = (reset_state env false s, rejected false)

  -- `closeAutoRecord` to its test of the switch.
  unfoldable pub close_cancel : State Num → State Num
  unfolding clear_restore_retry
  close_cancel s =
      let s = clear_restore_retry (record s { closing_generation = suc s.closing_generation }) in
      let s = record (cancel s.lifecycle_cancel_token s) { lifecycle_cancel_token = none } in
      let s = record (cancel s.active_cancel_token s) { active_cancel_token = none } in
      (create_cancel_token s).0

  -- `closeAutoRecord` to its first `await`; the second component says whether it goes on. With the
  -- switch off it returns, and `finally` resets once more.
  unfoldable pub close_begin : Env → State Num → State Num × Bool
  unfolding is_recording_enabled
  close_begin env s =
      let (s', enabled) = is_recording_enabled env (close_cancel s) in
      if not enabled then (reset_state env false (reset_state env false s'), false) else (s', true)

  -- `closeAutoRecord` in a run in which nothing else happens: the last batch is uploaded whatever
  -- the backoff, before the switches go off.
  unfoldable pub close_auto_record_run :
      Env → (reads writes : Bool) → Answers → State Num → Reported Num
  close_auto_record_run env reads writes a s =
      let (s, goes_on) = close_begin env s in
      if not goes_on
      then record { state = s; done = true; uploaded = [] }
      else let r = serial_flush_and_report env reads writes a true s in
        record r { state = reset_state env false r.state }
