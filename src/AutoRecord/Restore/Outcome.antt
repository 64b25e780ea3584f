-- ===== src/AutoRecord/Restore/Outcome.antt =====
-- autoRecord.ts: what a restore leaves behind, by what its calls answer.
use pathmemos.Base.{
  ℕ, ◌≡◌, ◌∙◌, ◌⊎◌, inl, inr, Bool, true, false, Option, none, some, ltb, arith, Bool-cases,
}
use pathmemos.AutoRecord.State.{State, Env, is_recording_enabled, update_vip_cache}
use pathmemos.AutoRecord.Timers.{touch_active, clear_restore_retry}
use pathmemos.AutoRecord.Reports.{Answers, serial_flush_and_report}
use pathmemos.AutoRecord.Reports.Frame.{Framed, serial-Framed}
use pathmemos.AutoRecord.Lifecycle.Closing.{close_auto_record_run-IsOff}
use pathmemos.AutoRecord.Lifecycle.{forget_token, close_auto_record_run}
use pathmemos.AutoRecord.Restore.{
  RestoreAnswers, restore_begin, restore_token, restore_started, restore_listener, restore_later,
  restore_confirmed, restore_config, restore_vip, restore_finally, restore_run,
  try_restore_auto_record,
}

module _ {Num : Type 0} where
  -- While the listener counts as registered, the handler is registered.
  abbrev pub IsWired : State Num → Type 0
  IsWired s = (s.listener_registered ≡ false) ⊎ (s.location_handler ≡ true)

  Framed-IsWired : {s t : State Num} → Framed s t → IsWired s → IsWired t
  Framed-IsWired f h = ground arith

  restore_started-IsWired :
      (env : Env) (generation : ℕ) (s : State Num)
      → IsWired s
      → IsWired (restore_started env generation s)
  unfolding restore_started
  restore_started-IsWired env generation s h = ground arith

  restore_confirmed-IsWired :
      (env : Env) (generation : ℕ) (second_start : Bool) (s : State Num)
      → IsWired s
      → IsWired (restore_confirmed env generation second_start s).0
  unfolding restore_confirmed restore_later
  restore_confirmed-IsWired env generation second_start s h =
      ground (arith, restore_started-IsWired env generation s h)

  restore_config-IsWired :
      (env : Env) (generation : ℕ) (config : Option Bool) (second_start : Bool) (s : State Num)
      → IsWired s
      → IsWired (restore_config env generation config second_start s).0
  unfolding restore_config restore_later
  restore_config-IsWired env generation none second_start s h = ground arith
  restore_config-IsWired env generation (some enabled) second_start s h =
      ground (arith, restore_confirmed-IsWired env generation second_start s h)

  close-IsWired :
      (env : Env) (reads writes : Bool) (a : Answers) (s : State Num)
      → IsWired (close_auto_record_run env reads writes a s).state
  close-IsWired env reads writes a s =
      inl (close_auto_record_run-IsOff env reads writes a s).listener

  restore_vip-IsWired :
      (env : Env) (generation : ℕ) (a : RestoreAnswers) (vip : Option ℕ) (s : State Num)
      → IsWired s
      → IsWired (restore_vip env generation a vip s).0
  unfolding restore_vip restore_later
  restore_vip-IsWired env generation a none s h = ground arith
  restore_vip-IsWired env generation a (some n) s h =
      let s' : State Num = update_vip_cache env (ltb 0 n) s in
      ground (
        arith,
        close-IsWired env a.close_reads a.close_writes a.close_upload (clear_restore_retry s'),
        restore_config-IsWired env generation a.config a.second_start s' h,
      )

  -- A started listener: registered, with its handler.
  restore_started-on :
      (env : Env) (generation : ℕ) (s : State Num)
      → s.closing_generation ≡ generation
      → s.enabled_in_memory ≡ some true
      → (restore_started env generation s).location_handler ≡ true
  unfolding restore_started is_recording_enabled
  restore_started-on env generation s e on = ground arith

  pub restore_finally-IsWired :
      (env : Env) (token : ℕ) (s : State Num)
      → ((restore_finally env token s).listener_registered ≡ s.listener_registered)
        × ((restore_finally env token s).location_handler ≡ s.location_handler)
        × ((restore_finally env token s).restoring ≡ false)
        × ((restore_finally env token s).stored_enabled ≡ s.stored_enabled)
        × ((restore_finally env token s).restore_retry_timer ≡ s.restore_retry_timer)
  unfolding restore_finally forget_token touch_active is_recording_enabled
  restore_finally-IsWired env token s = ground arith

  restore_confirmed-true :
      (env : Env) (generation : ℕ) (second_start : Bool) (s : State Num)
      → (restore_confirmed env generation second_start s).1 ≡ true
      → (restore_confirmed env generation second_start s).0.listener_registered ≡ true
  unfolding restore_confirmed restore_later
  restore_confirmed-true env generation second_start s h = ground arith

  restore_config-true :
      (env : Env) (generation : ℕ) (config : Option Bool) (second_start : Bool) (s : State Num)
      → (restore_config env generation config second_start s).1 ≡ true
      → (restore_config env generation config second_start s).0.listener_registered ≡ true
  unfolding restore_config restore_later
  restore_config-true env generation none second_start s h = ground arith
  restore_config-true env generation (some enabled) second_start s h =
      ground (arith, restore_confirmed-true env generation second_start s)

  pub restore_vip-true :
      (env : Env) (generation : ℕ) (a : RestoreAnswers) (vip : Option ℕ) (s : State Num)
      → (restore_vip env generation a vip s).1 ≡ true
      → (restore_vip env generation a vip s).0.listener_registered ≡ true
  unfolding restore_vip restore_later
  restore_vip-true env generation a none s h = ground arith
  restore_vip-true env generation a (some n) s h = ground (
    arith,
    restore_config-true env generation a.config a.second_start (update_vip_cache env (ltb 0 n) s),
  )

  -- Step 1 with a start that succeeds, or from a listener that was not registered.
  restore_listener-IsWired :
      (env : Env) (generation : ℕ) (answer : Bool) (s : State Num)
      → s.closing_generation ≡ generation
      → s.enabled_in_memory ≡ some true
      → (answer ≡ true) ⊎ (s.listener_registered ≡ false)
      → IsWired (restore_listener env generation answer s)
  unfolding restore_listener is_recording_enabled
  restore_listener-IsWired env generation true s e on h =
      ground (arith, restore_started-on env generation (record s { location_handler = false }) e on)
  restore_listener-IsWired env generation false s e on h = ground arith

  pub restore_begin-enabled :
      (env : Env) (s : State Num)
      → (restore_begin env s).1 ≡ true
      → (restore_begin env s).0.enabled_in_memory ≡ some true
  unfolding restore_begin is_recording_enabled
  restore_begin-enabled env s h = ground arith

  restore_begin-IsWired :
      (env : Env) (s : State Num)
      → IsWired s
      → IsWired (restore_begin env s).0
        × ((restore_begin env s).0.listener_registered ≡ true → s.listener_registered ≡ true)
  unfolding restore_begin is_recording_enabled
  restore_begin-IsWired env s h = ground arith

  pub restore_token-same :
      (s : State Num)
      → ((restore_token s).0.enabled_in_memory ≡ s.enabled_in_memory)
        × ((restore_token s).0.closing_generation ≡ s.closing_generation)
        × ((restore_token s).0.listener_registered ≡ s.listener_registered)
        × ((restore_token s).0.stored_enabled ≡ s.stored_enabled)
  unfolding restore_token
  restore_token-same s = ground arith

  -- A run up to the answer of the VIP query.
  abbrev pub before_vip : Env → RestoreAnswers → State Num → State Num
  before_vip env a s =
      (serial_flush_and_report env a.reads a.writes a.upload false
        (restore_listener env s.closing_generation a.first_start (restore_token s).0)).state

  before_vip-IsWired :
      (env : Env) (a : RestoreAnswers) (s : State Num)
      → s.enabled_in_memory ≡ some true
      → (a.first_start ≡ true) ⊎ (s.listener_registered ≡ false)
      → IsWired (before_vip env a s)
  before_vip-IsWired env a s on h =
      let s1 : State Num = (restore_token s).0 in
      let s2 : State Num = restore_listener env s.closing_generation a.first_start s1 in
      let same = restore_token-same s in
      Framed-IsWired (serial-Framed env a.reads a.writes a.upload false s2) (
        restore_listener-IsWired env s.closing_generation a.first_start s1 same.1 (same.0 ∙ on)
          (ground arith))

  restore_run-IsWired :
      (env : Env) (a : RestoreAnswers) (s : State Num)
      → s.enabled_in_memory ≡ some true
      → (a.first_start ≡ true) ⊎ (s.listener_registered ≡ false)
      → IsWired (restore_run env a s).0
        × ((restore_run env a s).1 ≡ true
            → ((restore_run env a s).0.location_handler ≡ true)
              × ((restore_run env a s).0.listener_registered ≡ true))
  unfolding restore_run
  restore_run-IsWired env a s on h =
      let s3 : State Num × Bool =
        restore_vip env s.closing_generation a a.vip (before_vip env a s) in
      let wired : IsWired s3.0 =
        restore_vip-IsWired env s.closing_generation a a.vip (before_vip env a s)
          (before_vip-IsWired env a s on h) in
      ground (
        arith,
        restore_finally-IsWired env (restore_token s).1 s3.0,
        restore_vip-true env s.closing_generation a a.vip (before_vip env a s),
        wired,
      )

  -- After a restore whose first start of the listener succeeds, or that finds no listener
  -- registered, the handler is registered while the listener is; if the restore answers true, the
  -- listener and the handler are registered. In the state before it the handler has to be
  -- registered while the listener is.
  pub try_restore-IsWired :
      (env : Env) (a : RestoreAnswers) (s : State Num)
      → (a.first_start ≡ true) ⊎ (s.listener_registered ≡ false)
      → IsWired s
      → IsWired (try_restore_auto_record env a s).0
        × ((try_restore_auto_record env a s).1 ≡ true
            → ((try_restore_auto_record env a s).0.location_handler ≡ true)
              × ((try_restore_auto_record env a s).0.listener_registered ≡ true))
  unfolding try_restore_auto_record
  try_restore-IsWired env a s h wired =
      let s' : State Num = (restore_begin env s).0 in
      elim (Bool-cases (restore_begin env s).1) [
        | inl e ↦ ground (
          arith,
          restore_run-IsWired env a s' (restore_begin-enabled env s e),
          restore_begin-IsWired env s wired,
        )
        | inr e ↦ ground (arith, restore_begin-IsWired env s wired)
      ]
