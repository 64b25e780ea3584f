-- ===== src/AiDrawer/Lock.antt =====
-- AIDrawer.ts: what its operations do to the lock of sending.
pub mod Operations
pub mod Invariant
pub mod Stuck
use pathmemos.Base.{
  ℕ, zero, suc, ◌+◌, ◌≤◌, ◌<◌, ◌≡◌, refl, sym, ◌∙◌, ap, subst, inl, inr, ◌⊎◌, Bool, true, false,
  not, ◌&&◌, ◌||◌, Option, none, some, List, [], ◌∷◌, ◌++◌, leb, ltb, ◌==◌, arith, if◌then◌else◌,
  Bool-cases, is_empty, length,
}
use pathmemos.AiDrawer.{Drawer, Write, sets_loading}
use pathmemos.AiDrawer.Text.{is_blank, max_prompt}
use pathmemos.AiDrawer.Writes.{safe_set_data, force_set_data, flush_ai_text}
use pathmemos.AiDrawer.Callbacks.{
  Callback, on_reconnect, on_open, on_message, on_close, on_error, finalize, reconnected, opened,
  received, closed, failed, react_to, call_back, abort_sse,
}
use pathmemos.AiDrawer.Sending.{
  prompt_writes, send_message, send, send_prompt, login_answered, waits, remove_login, stream_calls,
  is_ending, is_number, timer_fires, page_hide, hide, close, detach, show, retry_last,
}

-- The fields that the lock depends on.
pub record Core : Type 0 where
  pub sending : Bool
  pub send_seq : ℕ
  pub logins : List ℕ
  pub newest : ℕ
  pub sse_abort : Option ℕ
  pub live : Bool
  pub is_detached : Bool

abbrev pub core : Drawer → Core
core d = record {
  sending = d.sending;
  send_seq = d.send_seq;
  logins = d.logins;
  newest = d.newest;
  sse_abort = d.sse_abort;
  live = d.live;
  is_detached = d.is_detached;
}

-- Whether a callback ends the sending.
abbrev pub releases : Callback → Bool
releases on_reconnect = false
releases on_open = false
releases on_close = true
releases (on_message text done) = done
releases (on_error quota_exceeded) = true

abbrev pub release_if : Bool → Core → Core
release_if b c = record c { sending = if b then false else c.sending }

pub core-closed : (d : Drawer) → core (closed d) ≡ release_if true (core d)
unfolding closed finalize safe_set_data
core-closed d = ground arith

pub core-failed : (q : Bool) (d : Drawer) → core (failed q d) ≡ release_if true (core d)
unfolding failed safe_set_data
core-failed true d = refl
core-failed false d = refl

pub core-react_to :
    (c : Callback) (d : Drawer) → core (react_to c d) ≡ release_if (releases c) (core d)
unfolding reconnected opened received finalize safe_set_data
core-react_to on_reconnect d = refl
core-react_to on_open d = refl
core-react_to on_close d = core-closed d
core-react_to (on_message text true) d = refl
core-react_to (on_message text false) d = refl
core-react_to (on_error q) d = core-failed q d

-- A callback counts on a component that is there, if its stream is the last send's.
abbrev pub counts : ℕ → Callback → Core → Bool
counts k c s = not s.is_detached && (k == s.send_seq && releases c)

pub core-call_back :
    (k : ℕ) (c : Callback) (d : Drawer)
    → core (call_back k c d) ≡ release_if (counts k c (core d)) (core d)
unfolding call_back
core-call_back k c d = let e = core-react_to c d in ground (arith, e)

pub core-flush_if :
    (dirty : Bool) (d : Drawer) → core (if dirty then flush_ai_text d else d) ≡ core d
unfolding flush_ai_text safe_set_data
core-flush_if true d = refl
core-flush_if false d = refl

-- What aborting the stream does to the core of a component.
abbrev pub abort_stream : Option ℕ → (live : Bool) → Core → Core
abort_stream none live s = s
abort_stream (some k) live s = record (release_if (live && counts k on_close s) s) {
  sse_abort = none;
  live = false;
}

abbrev pub abort_core : Core → Core
abort_core s = abort_stream s.sse_abort s.live s

abbrev without_abort : Core → Core
without_abort s = record s { sse_abort = none }

pub core-closing :
    (live : Bool) (k : ℕ) (d : Drawer)
    → let closing : Drawer = record d { live = false } in
      core (record (if live then call_back k on_close closing else closing) { sse_abort = none })
      ≡ abort_stream (some k) live (core d)
core-closing true k d = ap without_abort (core-call_back k on_close (record d { live = false }))
core-closing false k d = refl

pub core-abort_stream :
    (sse : Option ℕ) (live : Bool) (d : Drawer)
    → let aborted : Drawer = elim sse [
      | none ↦ d
      | some k ↦
          let closing : Drawer = record d { live = false } in
          record (if live then call_back k on_close closing else closing) { sse_abort = none }
    ] in
      core aborted ≡ abort_stream sse live (core d)
core-abort_stream none live d = refl
core-abort_stream (some k) live d = core-closing live k d

pub core-abort_sse : (d : Drawer) → core (abort_sse d) ≡ abort_core (core d)
unfolding abort_sse
core-abort_sse d =
    let cleared : Drawer = record d { ai_flush_timer = false } in
    core-abort_stream d.sse_abort d.live
      (if d.ai_text_dirty then flush_ai_text cleared else cleared)
    ∙ ap (abort_stream d.sse_abort d.live) (core-flush_if d.ai_text_dirty cleared)

abbrev pub send_message_core : (has_url : Bool) → Core → Core
send_message_core true s = record s { logins = s.logins ++ s.send_seq ∷ [] }
send_message_core false s = record s { sending = false }

-- `send` on a component that is there.
abbrev pub send_core : (has_url : Bool) → Core → Core
send_core has_url s =
    let k = suc s.send_seq in
    let a = abort_core (record s { send_seq = k; sending = true }) in send_message_core has_url a

pub core-send_message :
    (has_url : Bool) (d : Drawer)
    → core (send_message has_url d) ≡ send_message_core has_url (core d)
unfolding send_message safe_set_data
core-send_message true d = refl
core-send_message false d = ground arith

pub core-if : (b : Bool) (d e : Drawer) → b ≡ false → core (if b then d else e) ≡ core e
core-if true d e h = ground arith
core-if false d e h = refl

pub core-send :
    (has_url : Bool) (d : Drawer)
    → d.is_detached ≡ false
    → core (send has_url d) ≡ send_core has_url (core d)
unfolding send safe_set_data
core-send has_url d h =
    let started : Drawer =
      safe_set_data (sets_loading true ∷ [])
        (record d { ai_text_dirty = false; send_seq = suc d.send_seq; sending = true }) in
    let fresh : Drawer = record (abort_sse started) { ai_text = [] } in
    core-if d.is_detached (record d { sending = false }) (send_message has_url fresh) h
    ∙ core-send_message has_url fresh
    ∙ ap (send_message_core has_url) (core-abort_sse started)

pub core-choice :
    (b : Bool) (d e : Drawer) → core (if b then d else e) ≡ (if b then core d else core e)
core-choice true d e = refl
core-choice false d e = refl

-- A prompt is dropped, or starts a send, which it does only while there is none.
abbrev pub Prompts : (has_url : Bool) → Core → Core → Type 0
Prompts has_url s t = (t ≡ s) ⊎ ((s.sending ≡ false) × (t ≡ send_core has_url s))

pub core-send_prompt :
    (has_url : Bool) (prompt : List ℕ) (d : Drawer)
    → d.is_detached ≡ false
    → Prompts has_url (core d) (core (send_prompt has_url prompt d))
unfolding send_prompt safe_set_data
core-send_prompt has_url prompt d h =
    let asked : Drawer =
      safe_set_data (prompt_writes prompt d) (record d { last_prompt = prompt; sending = true }) in
    let refused : Bool = is_blank prompt || ltb max_prompt (length prompt) in
    let chosen : Drawer =
      if d.is_detached then record asked { sending = false } else send has_url asked in
    let sent : core chosen ≡ send_core has_url (core d) =
      core-if d.is_detached (record asked { sending = false }) (send has_url asked) h
      ∙ core-send has_url asked h in
    elim (Bool-cases (d.sending || refused)) [
      | inl e ↦ inl (
          core-choice (d.sending || refused) d chosen
          ∙ ap (λ b. if b then core d else core chosen) e)
      | inr e ↦ inr (
        ground (arith, e),
        core-choice (d.sending || refused) d chosen
            ∙ ap (λ b. if b then core d else core chosen) e
            ∙ sent,
      )
    ]
