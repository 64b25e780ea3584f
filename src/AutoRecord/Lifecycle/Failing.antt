-- ===== src/AutoRecord/Lifecycle/Failing.antt =====
-- autoRecord.ts: how the parts of an opening end that is not current.
use pathmemos.Base.{ℕ, ◌≡◌, ◌≢◌, refl, ◌∙◌, Bool-cases, ◌⊎◌, inl, inr, Bool, true, false, arith}
use pathmemos.AutoRecord.State.{State, Env}
use pathmemos.AutoRecord.Timers.{is_cancelled, start_fallback_timer, reset_state}
use pathmemos.AutoRecord.Lifecycle.{
  Opening, awaits_rollback, resolved, finish, is_current, open_failed, open_catch, open_synced,
  location_started, open_located, forget_token,
}
use pathmemos.AutoRecord.Lifecycle.Closing.{IsOff, reset_state-IsOff}

module _ {Num : Type 0} where
  -- How the part of an opening that has failed ends: off, or waiting for the backend's switch, after
  -- which `open_failed` comes.
  abbrev pub Fails : Env → (generation token : ℕ) → State Num × Opening → Type 0
  Fails env generation token (t, o) =
      (o ≢ resolved) × ((o ≡ awaits_rollback generation token) ⊎ IsOff env t)

  forget_token-IsOff :
      (env : Env) (token : ℕ) (s : State Num) → IsOff env s → IsOff env (forget_token token s)
  unfolding forget_token
  forget_token-IsOff env token s h = record {
    enabled = ground arith;
    shown = ground arith;
    stored = λ w. ground (arith, h.stored w);
    listener = ground arith;
    handler = ground arith;
    fallback = ground arith;
    state = ground arith;
  }

  IsOff-record :
      (env : Env) (opening just_from_settings : Bool) (s : State Num)
      → IsOff env s
      → IsOff env (record s { opening = opening; just_from_settings = just_from_settings })
  IsOff-record env opening just_from_settings s h = record {
    enabled = h.enabled;
    shown = h.shown;
    stored = h.stored;
    listener = h.listener;
    handler = h.handler;
    fallback = h.fallback;
    state = h.state;
  }

  pub open_failed-IsOff :
      (env : Env) (timeout_fired : Bool) (token : ℕ) (s : State Num)
      → IsOff env (open_failed env timeout_fired token s).0
        × ((open_failed env timeout_fired token s).1 ≢ resolved)
  unfolding open_failed finish
  open_failed-IsOff env true token s =
      let r : State Num = reset_state env false s in
      (
        forget_token-IsOff env token _
            (IsOff-record env r.opening false r (reset_state-IsOff env s)),
        λ e. cc,
      )
  open_failed-IsOff env false token s =
      let r : State Num = reset_state env false s in
      (
        forget_token-IsOff env token _ (IsOff-record env false false r (reset_state-IsOff env s)),
        λ e. cc,
      )

  open_catch-Fails :
      (env : Env) (timeout_fired : Bool) (generation token : ℕ) (s : State Num)
      → Fails env generation token (open_catch env timeout_fired generation token s)
  unfolding open_catch
  open_catch-Fails env timeout_fired generation token s = elim (Bool-cases (is_cancelled s token)) [
    | inl c ↦ let (off, n) = open_failed-IsOff env timeout_fired token s in rw c (n, inr off)
    | inr c ↦ rw c (λ e. cc, inl refl)
  ]

  location_started_current :
      (env : Env) (generation : ℕ) (s : State Num)
      → is_current generation (location_started env s) ≡ is_current generation s
  unfolding location_started start_fallback_timer
  location_started_current env generation s = ground arith

  pub open_synced-Fails :
      (env : Env) (timeout_fired : Bool) (generation token : ℕ) (answer : Bool) (s : State Num)
      → is_current generation s ≡ false
      → Fails env generation token (open_synced env timeout_fired generation token answer s)
  unfolding open_synced
  open_synced-Fails env timeout_fired generation token true s h =
      rw h (open_catch-Fails env timeout_fired generation token s)
  open_synced-Fails env timeout_fired generation token false s h =
      open_catch-Fails env timeout_fired generation token s

  pub open_located-Fails :
      (env : Env) (timeout_fired : Bool) (generation token : ℕ) (answer : Bool) (s : State Num)
      → is_current generation s ≡ false
      → Fails env generation token (open_located env timeout_fired generation token answer s)
  unfolding open_located
  open_located-Fails env timeout_fired generation token true s h =
      rw (location_started_current env generation s ∙ h)
        (open_catch-Fails env timeout_fired generation token (location_started env s))
  open_located-Fails env timeout_fired generation token false s h =
      open_catch-Fails env timeout_fired generation token s
