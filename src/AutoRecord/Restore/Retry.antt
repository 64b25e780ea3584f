-- ===== src/AutoRecord/Restore/Retry.antt =====
-- autoRecord.ts: a restore with a failed query, and one whose starts of the listener fail.
use pathmemos.Base.{ℕ, suc, ◌≡◌, ◌∙◌, Bool, true, false, Option, none, some, ltb, arith, is_some}
use pathmemos.AutoRecord.State.{State, Env, is_recording_enabled, update_vip_cache}
use pathmemos.AutoRecord.Timers.{reset_state, clear_restore_retry, schedule_restore_retry}
use pathmemos.AutoRecord.Reports.Frame.{serial-Framed}
use pathmemos.AutoRecord.Lifecycle.Closing.{close_auto_record_run-IsOff}
use pathmemos.AutoRecord.Restore.{
  RestoreAnswers, restore_begin, restore_token, restore_started, restore_listener, restore_later,
  restore_confirmed, restore_config, restore_vip, restore_run, try_restore_auto_record,
}
use pathmemos.AutoRecord.Restore.Outcome.{
  before_vip, restore_token-same, restore_finally-IsWired, restore_vip-true,
}

-- A query that fails: the one of the VIP, or the one of the switch after a positive VIP answer.
pub data Unanswered (a : RestoreAnswers) : Type 0 where
  vip_unanswered : a.vip ≡ none → Unanswered a
  config_unanswered : (n : ℕ) → a.vip ≡ some (suc n) → a.config ≡ none → Unanswered a

module _ {Num : Type 0} where
  -- A failure to be retried: the stored switch stays on and a retry is set.
  abbrev pub IsRetried : State Num → Type 0
  IsRetried s = (s.stored_enabled ≡ true) × (is_some s.restore_retry_timer ≡ true)

  restore_later-IsRetried :
      (env : Env) (s : State Num)
      → s.stored_enabled ≡ true
      → ((restore_later env s).1 ≡ false) × IsRetried (restore_later env s).0
  unfolding restore_later schedule_restore_retry reset_state
  restore_later-IsRetried env s e = ground arith

  restore_started-stored :
      (env : Env) (generation : ℕ) (s : State Num)
      → s.stored_enabled ≡ true
      → (restore_started env generation s).stored_enabled ≡ true
  unfolding restore_started is_recording_enabled
  restore_started-stored env generation s e = ground arith

  restore_listener-stored :
      (env : Env) (generation : ℕ) (answer : Bool) (s : State Num)
      → s.stored_enabled ≡ true
      → (restore_listener env generation answer s).stored_enabled ≡ true
  unfolding restore_listener is_recording_enabled
  restore_listener-stored env generation answer s e = ground (
    arith,
    restore_started-stored env generation (record s { location_handler = false }) e,
    restore_started-stored env generation
        (record s { enabled_in_memory = some s.stored_enabled; location_handler = false }) e,
  )

  before_vip-stored :
      (env : Env) (a : RestoreAnswers) (s : State Num)
      → s.stored_enabled ≡ true
      → (before_vip env a s).stored_enabled ≡ true
  before_vip-stored env a s e =
      let s1 : State Num = (restore_token s).0 in
      let s2 : State Num = restore_listener env s.closing_generation a.first_start s1 in
      (serial-Framed env a.reads a.writes a.upload false s2).stored
      ∙ restore_listener-stored env s.closing_generation a.first_start s1
          ((restore_token-same s).3 ∙ e)

  restore_vip-IsRetried :
      (env : Env) (generation : ℕ) (a : RestoreAnswers) (s : State Num)
      → Unanswered a
      → s.closing_generation ≡ generation
      → s.stored_enabled ≡ true
      → ((restore_vip env generation a a.vip s).1 ≡ false)
        × IsRetried (restore_vip env generation a a.vip s).0
  unfolding restore_vip restore_config update_vip_cache
  restore_vip-IsRetried env generation a s (vip_unanswered e) g on =
      simp e (ground (arith, restore_later-IsRetried env s on))
  restore_vip-IsRetried env generation a s (config_unanswered n v c) g on =
      let t : State Num = update_vip_cache env true s in
      simp v (simp c (ground (arith, restore_later-IsRetried env t on)))

  restore_started-generation :
      (env : Env) (generation : ℕ) (s : State Num)
      → (restore_started env generation s).closing_generation ≡ s.closing_generation
  unfolding restore_started is_recording_enabled
  restore_started-generation env generation s = ground arith

  restore_listener-generation :
      (env : Env) (generation : ℕ) (answer : Bool) (s : State Num)
      → (restore_listener env generation answer s).closing_generation ≡ s.closing_generation
  unfolding restore_listener is_recording_enabled
  restore_listener-generation env generation true s = ground (
    arith,
    restore_started-generation env generation (record s { location_handler = false }),
    restore_started-generation env generation
        (record s { enabled_in_memory = some s.stored_enabled; location_handler = false }),
  )
  restore_listener-generation env generation false s = ground arith

  before_vip-generation :
      (env : Env) (a : RestoreAnswers) (s : State Num)
      → (before_vip env a s).closing_generation ≡ s.closing_generation
  before_vip-generation env a s =
      let s1 : State Num = (restore_token s).0 in
      let s2 : State Num = restore_listener env s.closing_generation a.first_start s1 in
      (serial-Framed env a.reads a.writes a.upload false s2).generation
      ∙ restore_listener-generation env s.closing_generation a.first_start s1
      ∙ (restore_token-same s).1

  -- A restore that goes past its early returns starts its run with the switch on in memory.
  try_restore-going :
      (env : Env) (a : RestoreAnswers) (s : State Num)
      → s.opening ≡ false
      → s.restoring ≡ false
      → (is_recording_enabled env s).1 ≡ true
      → let t : State Num = (restore_begin env s).0 in
        (try_restore_auto_record env a s ≡ restore_run env a t)
        × (t.enabled_in_memory ≡ some true)
        × (t.stored_enabled ≡ s.stored_enabled)
  unfolding try_restore_auto_record restore_begin is_recording_enabled
  try_restore-going env a s o r e = ground arith

  -- A restore that begins while no opening and no other restore is under way and recording is on,
  -- as the switch in memory or, on a cold start, the stored one says, and with the stored switch
  -- on, answers false if one of its queries fails: the stored switch stays on, a retry is set, and
  -- the restore is over (`_restoring` is off).
  pub try_restore-IsRetried :
      (env : Env) (a : RestoreAnswers) (s : State Num)
      → Unanswered a
      → s.opening ≡ false
      → s.restoring ≡ false
      → (is_recording_enabled env s).1 ≡ true
      → s.stored_enabled ≡ true
      → ((try_restore_auto_record env a s).1 ≡ false)
        × IsRetried (try_restore_auto_record env a s).0
        × ((try_restore_auto_record env a s).0.restoring ≡ false)
  unfolding restore_run
  try_restore-IsRetried env a s u o r e on =
      let t : State Num = (restore_begin env s).0 in
      let going = try_restore-going env a s o r e in
      let v : State Num × Bool =
        restore_vip env t.closing_generation a a.vip (before_vip env a t) in
      ground (
        arith,
        going,
        restore_vip-IsRetried env t.closing_generation a (before_vip env a t) u
            (before_vip-generation env a t) (before_vip-stored env a t (going.2 ∙ on)),
        restore_finally-IsWired env (restore_token t).1 v.0,
      )

  -- The handler is off, and stays so when no start succeeds.
  restore_listener-off :
      (env : Env) (generation : ℕ) (s : State Num)
      → s.closing_generation ≡ generation
      → s.enabled_in_memory ≡ some true
      → (restore_listener env generation false s).location_handler ≡ false
  unfolding restore_listener is_recording_enabled
  restore_listener-off env generation s g on = ground arith

  restore_config-off :
      (env : Env) (generation : ℕ) (config : Option Bool) (s : State Num)
      → s.location_handler ≡ false
      → (restore_config env generation config false s).0.location_handler ≡ false
  unfolding restore_config restore_confirmed restore_later
  restore_config-off env generation none s h = ground arith
  restore_config-off env generation (some enabled) s h = ground arith

  restore_vip-off :
      (env : Env) (generation : ℕ) (a : RestoreAnswers) (vip : Option ℕ) (s : State Num)
      → a.second_start ≡ false
      → s.location_handler ≡ false
      → (restore_vip env generation a vip s).0.location_handler ≡ false
  unfolding restore_vip restore_later
  restore_vip-off env generation a none s e h = ground arith
  restore_vip-off env generation a (some n) s e h =
      let s' : State Num = update_vip_cache env (ltb 0 n) s in
      simp e (
        ground (
          arith,
          close_auto_record_run-IsOff env a.close_reads a.close_writes a.close_upload
              (clear_restore_retry s'),
          restore_config-off env generation a.config s' h,
        ))

  before_vip-off :
      (env : Env) (a : RestoreAnswers) (s : State Num)
      → a.first_start ≡ false
      → s.enabled_in_memory ≡ some true
      → (before_vip env a s).location_handler ≡ false
  before_vip-off env a s f on =
      let s1 : State Num = (restore_token s).0 in
      let s2 : State Num = restore_listener env s.closing_generation a.first_start s1 in
      let off : s2.location_handler ≡ false = simp f (
        restore_listener-off env s.closing_generation s1 (restore_token-same s).1
          ((restore_token-same s).0 ∙ on)) in
      ground (arith, off, serial-Framed env a.reads a.writes a.upload false s2)

  -- A restore that begins while no opening and no other restore is under way and recording is on,
  -- as the switch in memory or, on a cold start, the stored one says, and whose two starts of the
  -- listener fail leaves the handler off, also when it answers true; it answers true only if the
  -- listener still counts as registered.
  pub try_restore_without_start :
      (env : Env) (a : RestoreAnswers) (s : State Num)
      → a.first_start ≡ false
      → a.second_start ≡ false
      → s.opening ≡ false
      → s.restoring ≡ false
      → (is_recording_enabled env s).1 ≡ true
      → ((try_restore_auto_record env a s).0.location_handler ≡ false)
        × ((try_restore_auto_record env a s).1 ≡ true
            → (try_restore_auto_record env a s).0.listener_registered ≡ true)
  unfolding restore_run
  try_restore_without_start env a s f e o r on =
      let t : State Num = (restore_begin env s).0 in
      let going = try_restore-going env a s o r on in
      let v : State Num × Bool =
        restore_vip env t.closing_generation a a.vip (before_vip env a t) in
      ground (
        arith,
        going,
        restore_vip-off env t.closing_generation a a.vip (before_vip env a t) e
            (before_vip-off env a t f going.1),
        restore_vip-true env t.closing_generation a a.vip (before_vip env a t),
        restore_finally-IsWired env (restore_token t).1 v.0,
      )
