-- ===== src/AiDrawer/Sending.antt =====
-- AIDrawer.ts: sending, cut at the login, the lifetimes, and the events of a drawer.
use pathmemos.Base.{
  ℕ, suc, Bool, true, false, not, ◌&&◌, ◌||◌, Option, none, some, List, [], ◌∷◌, ◌++◌, ltb, leb,
  ◌==◌, if◌then◌else◌, is_empty, length,
}
use pathmemos.AiDrawer.{
  Message, Write, sets_input, sets_loading, sets_connecting, sets_quota, sets_list, Drawer,
}
use pathmemos.AiDrawer.Text.{is_blank, max_prompt}
use pathmemos.AiDrawer.Writes.{
  without_last, trim_old_messages, write_all, safe_set_data, force_set_data, last_of, flush_ai_text,
}
use pathmemos.AiDrawer.Callbacks.{
  Callback, on_reconnect, on_open, on_message, on_close, on_error, call_back, abort_sse,
}

-- `send` once the old stream is aborted, to the login; `has_url` is whether a server is configured.
unfoldable pub send_message : (has_url : Bool) → Drawer → Drawer
unfolding safe_set_data
send_message true d = record d { logins = d.logins ++ d.send_seq ∷ [] }
send_message false d =
    let released : Drawer = record d { sending = false } in
    if d.is_detached || d.is_hidden
    then released
    else safe_set_data (sets_loading false ∷ []) released

-- `send`
unfoldable pub send : (has_url : Bool) → Drawer → Drawer
unfolding abort_sse safe_set_data send_message
send has_url d =
    let started : Drawer = record d {
      ai_text_dirty = false;
      send_seq = suc d.send_seq;
      sending = true;
    } in
    let aborted : Drawer = abort_sse (safe_set_data (sets_loading true ∷ []) started) in
    if d.is_detached
    then record d { sending = false }
    else send_message has_url (record aborted { ai_text = [] })

abbrev pub prompt_writes : (prompt : List ℕ) → Drawer → List Write
prompt_writes prompt d =
    let message : Message = record { is_user = true; txt = prompt; html = false; error = false } in
    sets_connecting true
    ∷ sets_input []
    ∷ sets_list (trim_old_messages (d.view_data.list ++ message ∷ []))
    ∷ []

-- `sendPrompt`
unfoldable pub send_prompt : (has_url : Bool) → List ℕ → Drawer → Drawer
unfolding send safe_set_data
send_prompt has_url prompt d =
    let asked : Drawer =
      safe_set_data (prompt_writes prompt d) (record d { last_prompt = prompt; sending = true }) in
    if d.sending || (is_blank prompt || ltb max_prompt (length prompt))
    then d
    else if d.is_detached
    then record asked { sending = false }
    else send has_url asked

abbrev pub remove_login : ℕ → List ℕ → List ℕ
remove_login k [] = []
remove_login k (j ∷ js) = if k == j then js else j ∷ remove_login k js

abbrev pub waits : ℕ → List ℕ → Bool
waits k [] = false
waits k (j ∷ js) = if k == j then true else waits k js

-- The end of the login of the send `k`, and what follows it: the stream is opened.
unfoldable pub login_answered : ℕ → (success : Bool) → Drawer → Drawer
unfolding safe_set_data
login_answered k success d =
    let answered : Drawer = record d { logins = remove_login k d.logins } in
    let released : Drawer = record answered { sending = false } in
    if not (waits k d.logins)
    then d
    else if success
    then if d.is_detached
      then safe_set_data (sets_loading false ∷ []) released
      else record answered { newest = k; sse_abort = some k; live = true }
    else if d.is_detached || d.is_hidden
    then released
    else safe_set_data (sets_loading false ∷ []) released

abbrev pub is_ending : Callback → Bool
is_ending on_reconnect = false
is_ending on_open = false
is_ending on_close = true
is_ending (on_message text done) = false
is_ending (on_error quota_exceeded) = true

abbrev pub is_number : ℕ → Option ℕ → Bool
is_number k none = false
is_number k (some j) = j == k

-- A callback of a stream that was opened; after its last one the stream's `abort` does nothing.
unfoldable pub stream_calls : ℕ → Callback → Drawer → Drawer
unfolding call_back
stream_calls k c d =
    let ended : Drawer = record d {
      live = if is_ending c && is_number k d.sse_abort then false else d.live;
    } in
    if leb k d.newest then call_back k c ended else d

-- `_isAlive`, and the callback of the timer.
unfoldable pub timer_fires : Drawer → Drawer
unfolding flush_ai_text
timer_fires d =
    let off : Drawer = record d { ai_flush_timer = false } in
    if d.ai_flush_timer
    then if d.is_detached || (d.is_hidden || not d.ai_text_dirty) then off else flush_ai_text off
    else d

abbrev pub closing_writes : List Write
closing_writes = sets_loading false ∷ sets_connecting false ∷ sets_quota false ∷ []

-- `pageLifetimes.hide`, `onPageHide`, `hidden` and `detached`; the last two cancel the login, whose
-- failure is an event of its own.
unfoldable pub page_hide : Drawer → Drawer
unfolding abort_sse force_set_data
page_hide d = force_set_data closing_writes (abort_sse d)

unfoldable pub hide : Drawer → Drawer
unfolding page_hide
hide d = page_hide (record d { is_hidden = true })

unfoldable pub close : Drawer → Drawer
unfolding abort_sse safe_set_data
close d = safe_set_data closing_writes (abort_sse d)

unfoldable pub detach : Drawer → Drawer
unfolding abort_sse
detach d = abort_sse (record d { is_detached = true; pending = [] })

-- `pageLifetimes.show`, of the behaviour and of the component.
unfoldable pub show : Drawer → Drawer
unfolding safe_set_data flush_ai_text
show d =
    let applied : Drawer = record d {
      is_hidden = false;
      view_data = write_all d.pending d.view_data;
      pending = [];
    } in
    let flushed : Drawer = if d.ai_text_dirty then flush_ai_text applied else applied in
    if not (is_empty flushed.view_data.list) && not flushed.view_data.connecting
    then safe_set_data (sets_connecting true ∷ []) flushed
    else flushed

-- A failed answer at the end is taken away.
abbrev pub without_failed : List Message → List Message
without_failed l =
    let failed : Bool = elim (last_of l) [
      | none ↦ false
      | some (i, m) ↦ not m.is_user && m.error
    ] in
    if failed then without_last l else l

-- `retryLast`
unfoldable pub retry_last : (has_url : Bool) → Drawer → Drawer
unfolding send_prompt safe_set_data
retry_last has_url d =
    let kept : List Write = sets_list (without_failed d.view_data.list) ∷ [] in
    if is_empty d.last_prompt || d.sending
    then d
    else send_prompt has_url d.last_prompt (safe_set_data kept d)

-- What may happen to a drawer.
pub data Event : Type 0 where
  submits : (has_url : Bool) → (prompt : List ℕ) → Event
  retries : (has_url : Bool) → Event
  login_ends : ℕ → (success : Bool) → Event
  calls : ℕ → Callback → Event
  times_out hides page_hides shows closes detaches : Event

abbrev pub react : Event → Drawer → Drawer
react (submits has_url prompt) d = send_prompt has_url prompt d
react (retries has_url) d = retry_last has_url d
react (login_ends k success) d = login_answered k success d
react (calls k c) d = stream_calls k c d
react times_out d = timer_fires d
react hides d = hide d
react page_hides d = page_hide d
react shows d = show d
react closes d = close d
react detaches d = detach d

abbrev pub run_drawer : Drawer → List Event → Drawer
run_drawer d [] = d
run_drawer d (e ∷ es) = run_drawer (react e d) es
