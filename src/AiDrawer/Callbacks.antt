-- ===== src/AiDrawer/Callbacks.antt =====
-- AIDrawer.ts: the callbacks of a stream, and `_abortSSE`.
use pathmemos.Base.{
  ℕ, Bool, true, false, not, ◌&&◌, ◌||◌, none, some, List, [], ◌∷◌, ◌++◌, ◌==◌, if◌then◌else◌,
  is_empty, take,
}
use pathmemos.AiDrawer.{
  Message, Write, sets_loading, sets_quota, sets_list, sets_item, sets_error, Drawer,
}
use pathmemos.AiDrawer.Text.{clean_text}
use pathmemos.AiDrawer.Writes.{
  trim_old_messages, safe_set_data, last_of, last_index, ends_in_answer, flush_ai_text,
}

pub data Callback : Type 0 where
  on_reconnect on_open on_close : Callback
  on_message : (text : List ℕ) → (done : Bool) → Callback
  on_error : (quota_exceeded : Bool) → Callback

-- `clearTimeout`
abbrev pub clear_timer : Drawer → Drawer
clear_timer d = record d { ai_flush_timer = false }

-- Whether the last message is an answer that was not finished.
abbrev pub ends_in_draft : List Message → Bool
ends_in_draft l = elim (last_of l) [ none ↦ false | some (i, m) ↦ not m.is_user && not m.html ]

-- `markdownToHtml` gives a text just for a text.
abbrev pub finished : List ℕ → Message → Message
finished text m = record m { txt = text; html = not (is_empty text) }

-- `_finalizeAIResponse`
unfoldable pub finalize : Drawer → Drawer
unfolding safe_set_data
finalize d =
    let ws : List Write = elim (last_of d.view_data.list) [
      | none ↦ sets_loading false ∷ []
      | some (i, m) ↦ sets_item i (finished (clean_text d.ai_text) m) ∷ sets_loading false ∷ []
    ] in
    let nothing = is_empty d.view_data.list in
    safe_set_data ws (record d {
      sending = false;
      ai_text = if nothing then d.ai_text else [];
      ai_text_dirty = if nothing then d.ai_text_dirty else false;
    })

-- `onreconnect`
unfoldable pub reconnected : Drawer → Drawer
unfolding safe_set_data
reconnected d =
    let l = d.view_data.list in
    let ws : List Write =
      if ends_in_draft l then sets_list (take (last_index l) l) ∷ sets_loading true ∷ [] else [] in
    safe_set_data ws (clear_timer (record d { ai_text = []; ai_text_dirty = false }))

-- `onopen`
unfoldable pub opened : Drawer → Drawer
unfolding safe_set_data
opened d =
    let answer : Message = record { is_user = false; txt = []; html = false; error = false } in
    safe_set_data (sets_list (trim_old_messages (d.view_data.list ++ answer ∷ [])) ∷ []) d

-- `onmessage`
unfoldable pub received : (text : List ℕ) → (done : Bool) → Drawer → Drawer
unfolding finalize
received text true d = finalize (clear_timer (record d { ai_text = d.ai_text ++ text }))
received text false d = record d {
  ai_text = d.ai_text ++ text;
  ai_text_dirty = true;
  ai_flush_timer = true;
}

-- `onclose`
unfoldable pub closed : Drawer → Drawer
unfolding safe_set_data finalize
closed d =
    if ends_in_draft d.view_data.list
    then finalize (clear_timer d)
    else safe_set_data (sets_loading false ∷ []) (record (clear_timer d) { sending = false })

-- `onerror`
unfoldable pub failed : (quota_exceeded : Bool) → Drawer → Drawer
unfolding safe_set_data
failed quota_exceeded d =
    let asked : Drawer =
      if quota_exceeded
      then safe_set_data (sets_quota true ∷ []) (clear_timer d)
      else clear_timer d in
    let l = asked.view_data.list in
    let ws : List Write =
      if ends_in_answer l
      then sets_error (last_index l) ∷ sets_loading false ∷ []
      else sets_loading false ∷ [] in
    safe_set_data ws (record asked { sending = false })

abbrev pub react_to : Callback → Drawer → Drawer
react_to on_reconnect d = reconnected d
react_to on_open d = opened d
react_to on_close d = closed d
react_to (on_message text done) d = received text done d
react_to (on_error quota_exceeded) d = failed quota_exceeded d

-- A callback of the stream `k`.
unfoldable pub call_back : ℕ → Callback → Drawer → Drawer
call_back k c d = if d.is_detached || not (k == d.send_seq) then d else react_to c d

-- `_abortSSE`; aborting a stream that has not ended calls its `onclose`.
unfoldable pub abort_sse : Drawer → Drawer
unfolding call_back flush_ai_text
abort_sse d =
    let cleared : Drawer = clear_timer d in
    let flushed : Drawer = if d.ai_text_dirty then flush_ai_text cleared else cleared in
    let closing : Drawer = record flushed { live = false } in
    elim d.sse_abort [
      | none ↦ flushed
      | some k ↦ record (if d.live then call_back k on_close closing else closing) {
        sse_abort = none;
      }
    ]
