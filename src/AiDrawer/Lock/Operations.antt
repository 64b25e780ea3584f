-- ===== src/AiDrawer/Lock/Operations.antt =====
-- AIDrawer.ts: what its other operations do to the lock of sending.
use pathmemos.Base.{
  ℕ, ◌≡◌, refl, ◌∙◌, ap, inl, Bool, true, false, ◌&&◌, ◌||◌, some, [], ◌∷◌, leb, arith,
  if◌then◌else◌, is_empty,
}
use pathmemos.AiDrawer.{Drawer}
use pathmemos.AiDrawer.Writes.{safe_set_data, force_set_data, flush_ai_text}
use pathmemos.AiDrawer.Callbacks.{Callback, call_back}
use pathmemos.AiDrawer.Sending.{
  send_prompt, login_answered, waits, remove_login, stream_calls, is_ending, is_number, timer_fires,
  page_hide, hide, close, show, retry_last,
}
use pathmemos.AiDrawer.{sets_list}
use pathmemos.AiDrawer.Sending.{without_failed}
use pathmemos.AiDrawer.Lock.{
  Core, core, release_if, counts, core-call_back, abort_core, core-abort_sse, core-choice, Prompts,
  core-send_prompt,
}

Prompts-if :
    (has_url b : Bool) (s : Core) (d e : Drawer)
    → Prompts has_url s (core d)
    → Prompts has_url s (core e)
    → Prompts has_url s (core (if b then d else e))
Prompts-if has_url true s d e p q = p
Prompts-if has_url false s d e p q = q

pub core-retry_last :
    (has_url : Bool) (d : Drawer)
    → d.is_detached ≡ false
    → Prompts has_url (core d) (core (retry_last has_url d))
unfolding retry_last safe_set_data
core-retry_last has_url d h =
    let kept : Drawer = safe_set_data (sets_list (without_failed d.view_data.list) ∷ []) d in
    Prompts-if has_url (is_empty d.last_prompt || d.sending) (core d) d
      (send_prompt has_url d.last_prompt kept) (inl refl)
      (core-send_prompt has_url d.last_prompt kept h)

-- The end of a login of a component that is there.
abbrev pub login_core : ℕ → (success : Bool) → Core → Core
login_core k true s = record s {
  logins = remove_login k s.logins;
  newest = k;
  sse_abort = some k;
  live = true;
}
login_core k false s = record s { logins = remove_login k s.logins; sending = false }

pub core-login_answered :
    (k : ℕ) (success : Bool) (d : Drawer)
    → d.is_detached ≡ false
    → core (login_answered k success d)
      ≡ (if waits k d.logins then login_core k success (core d) else core d)
unfolding login_answered safe_set_data
core-login_answered k true d h = ground (arith, h)
core-login_answered k false d h = ground (arith, h)

abbrev pub end_core : ℕ → Callback → Core → Core
end_core k c s = record s {
  live = if is_ending c && is_number k s.sse_abort then false else s.live;
}

pub core-stream_calls :
    (k : ℕ) (c : Callback) (d : Drawer)
    → core (stream_calls k c d) ≡ (
        if leb k d.newest then release_if (counts k c (core d)) (end_core k c (core d)) else core d)
unfolding stream_calls
core-stream_calls k c d =
    let ended : Drawer = record d {
      live = if is_ending c && is_number k d.sse_abort then false else d.live;
    } in
    core-choice (leb k d.newest) (call_back k c ended) d
    ∙ ap (λ s. if leb k d.newest then s else core d) (core-call_back k c ended)

pub core-timer_fires : (d : Drawer) → core (timer_fires d) ≡ core d
unfolding timer_fires flush_ai_text safe_set_data
core-timer_fires d = ground arith

pub core-page_hide : (d : Drawer) → core (page_hide d) ≡ abort_core (core d)
unfolding page_hide force_set_data
core-page_hide d = core-abort_sse d

pub core-hide : (d : Drawer) → core (hide d) ≡ abort_core (core d)
unfolding hide
core-hide d = core-page_hide (record d { is_hidden = true })

pub core-close : (d : Drawer) → core (close d) ≡ abort_core (core d)
unfolding close safe_set_data
core-close d = core-abort_sse d

pub core-show : (d : Drawer) → core (show d) ≡ core d
unfolding show safe_set_data flush_ai_text
core-show d = ground arith
