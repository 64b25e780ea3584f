-- ===== src/AutoRecord/Lifecycle/Generation.antt =====
-- autoRecord.ts: which parts of opening and closing begin a generation, and which go on with it.
use pathmemos.Base.{
  Option, none, some, ℕ, suc, ◌≡◌, refl, Bool-cases, ◌⊎◌, inl, inr, Bool, true, false, arith,
}
use pathmemos.AutoRecord.State.{State, Env, is_recording_enabled, set_recording_state}
use pathmemos.AutoRecord.Timers.{start_fallback_timer, reset_state, clear_restore_retry}
use pathmemos.AutoRecord.Lifecycle.{
  finish, open_failed, open_catch, open_synced, location_started, open_located, close_begin,
  close_cancel, forget_token, open_timeout, open_timeout_answered, setting_answered, do_open,
  open_auto_record, open_by_vip,
}

module _ {Num : Type 0} where
  close_cancel_generation :
      (s : State Num) → (close_cancel s).closing_generation ≡ suc s.closing_generation
  unfolding close_cancel
  close_cancel_generation s = ground arith

  enabled_generation :
      (env : Env) (s : State Num)
      → (is_recording_enabled env s).0.closing_generation ≡ s.closing_generation
  unfolding is_recording_enabled
  enabled_generation env s = ground arith

  reset_generation :
      (env : Env) (s : State Num)
      → (reset_state env false s).closing_generation ≡ s.closing_generation
  unfolding reset_state
  reset_generation env s = ground arith

  opening_refused : (env : Env) (s : State Num) → s.opening ≡ true → (open_auto_record env s).0 ≡ s
  unfolding open_auto_record
  opening_refused env s e = rw e refl

  opening_begins :
      (env : Env) (s : State Num)
      → s.opening ≡ false
      → (open_auto_record env s).0.closing_generation ≡ suc s.closing_generation
  unfolding open_auto_record open_by_vip finish
  opening_begins env s e = ground (arith, e)

  -- `openAutoRecord` begins a generation, or is refused while one is under way.
  pub open_auto_record_cases :
      (env : Env) (s : State Num)
      → ((open_auto_record env s).0 ≡ s)
        ⊎ ((open_auto_record env s).0.closing_generation ≡ suc s.closing_generation)
  open_auto_record_cases env s = elim (Bool-cases s.opening) [
    | inl e ↦ inl (opening_refused env s e)
    | inr e ↦ inr (opening_begins env s e)
  ]

  pub timeout_generation :
      (s : State Num)
      → ((open_timeout s).closing_generation ≡ s.closing_generation)
        × ((open_timeout s).opening ≡ false)
  unfolding open_timeout
  timeout_generation s = ground arith

  pub close_begin_generation :
      (env : Env) (s : State Num)
      → (close_begin env s).0.closing_generation ≡ suc s.closing_generation
  unfolding close_begin
  close_begin_generation env s = ground (
    arith,
    close_cancel_generation s,
    enabled_generation env (close_cancel s),
    reset_generation env (is_recording_enabled env (close_cancel s)).0,
    reset_generation env (reset_state env false (is_recording_enabled env (close_cancel s)).0),
  )

  -- No part of an opening begins a generation, and none is under way that was not.
  abbrev pub Continues : State Num → State Num → Type 0
  Continues s t =
      (t.closing_generation ≡ s.closing_generation) × (s.opening ≡ false → t.opening ≡ false)

  pub timed_out-Continues :
      (env : Env) (answer : Bool) (s : State Num)
      → Continues s (open_timeout_answered env answer s).0
  unfolding open_timeout_answered reset_state set_recording_state
  timed_out-Continues env true s = ground arith
  timed_out-Continues env false s = ground arith

  open_catch-Continues :
      (env : Env) (fired : Bool) (generation token : ℕ) (s : State Num)
      → Continues s (open_catch env fired generation token s).0
  unfolding open_catch open_failed finish reset_state forget_token
  open_catch-Continues env true generation token s = ground arith
  open_catch-Continues env false generation token s = ground arith

  pub located-Continues :
      (env : Env) (fired : Bool) (generation token : ℕ) (answer : Bool) (s : State Num)
      → Continues s (open_located env fired generation token answer s).0
  unfolding open_located location_started start_fallback_timer finish clear_restore_retry
      set_recording_state forget_token
  located-Continues env fired generation token false s =
      open_catch-Continues env fired generation token s
  located-Continues env true generation token true s =
      ground (arith, open_catch-Continues env true generation token (location_started env s))
  located-Continues env false generation token true s =
      ground (arith, open_catch-Continues env false generation token (location_started env s))

  pub asked-Continues :
      (fired : Bool) (generation : ℕ) (answer : Option Bool) (s : State Num)
      → Continues s (setting_answered fired generation answer s).0
  unfolding setting_answered do_open finish
  asked-Continues true generation none s = ground arith
  asked-Continues false generation none s = ground arith
  asked-Continues fired generation (some true) s = ground arith
  asked-Continues fired generation (some false) s = ground arith

  pub synced-Continues :
      (env : Env) (fired : Bool) (generation token : ℕ) (answer : Bool) (s : State Num)
      → Continues s (open_synced env fired generation token answer s).0
  unfolding open_synced
  synced-Continues env fired generation token answer s =
      ground (arith, open_catch-Continues env fired generation token s)
