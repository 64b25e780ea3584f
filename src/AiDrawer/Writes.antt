-- ===== src/AiDrawer/Writes.antt =====
-- AIDrawer.ts, with safeSetData.ts: writes of the view data. An index is one of the list's.
use pathmemos.Base.{
  ℕ, zero, suc, ◌+◌, ◌-◌, ◌*◌, Bool, true, false, not, ◌&&◌, ◌||◌, Option, none, some, List, [],
  ◌∷◌, leb, ◌==◌, if◌then◌else◌, length, drop,
}
use pathmemos.AiDrawer.{
  Message, Data, Write, sets_input, sets_loading, sets_connecting, sets_quota, sets_list, sets_item,
  sets_txt, sets_error, Drawer,
}

abbrev pub max_message_count : ℕ
max_message_count = 50

-- `_trimOldMessages`
unfoldable pub trim_old_messages : List Message → List Message
trim_old_messages l =
    if leb (length l) max_message_count then l else drop (length l - max_message_count) l

-- The key, as a number.
abbrev pub key_of : Write → ℕ
key_of (sets_input s) = 0
key_of (sets_loading b) = 1
key_of (sets_connecting b) = 2
key_of (sets_quota b) = 3
key_of (sets_list l) = 4
key_of (sets_item i m) = 5 + 3 * i
key_of (sets_txt i s) = 6 + 3 * i
key_of (sets_error i) = 7 + 3 * i

abbrev pub change_at : ℕ → (Message → Message) → List Message → List Message
change_at i f [] = []
change_at zero f (m ∷ ms) = f m ∷ ms
change_at (suc i) f (m ∷ ms) = m ∷ change_at i f ms

abbrev pub write_one : Write → Data → Data
write_one (sets_input s) d = record d { input_value = s }
write_one (sets_loading b) d = record d { loading = b }
write_one (sets_connecting b) d = record d { connecting = b }
write_one (sets_quota b) d = record d { show_quota_dialog = b }
write_one (sets_list l) d = record d { list = l }
write_one (sets_item i m) d = record d { list = change_at i (λ old. m) d.list }
write_one (sets_txt i s) d = record d { list = change_at i (λ old. record old { txt = s }) d.list }
write_one (sets_error i) d = record d {
  list = change_at i (λ old. record old { error = true }) d.list;
}

abbrev pub write_all : List Write → Data → Data
write_all [] d = d
write_all (w ∷ ws) d = write_all ws (write_one w d)

-- `Object.assign`: a key that is there keeps its place.
abbrev pub assign_one : Write → List Write → List Write
assign_one w [] = w ∷ []
assign_one w (v ∷ vs) = if key_of w == key_of v then w ∷ vs else v ∷ assign_one w vs

abbrev pub assign_all : (target source : List Write) → List Write
assign_all target [] = target
assign_all target (w ∷ ws) = assign_all (assign_one w target) ws

-- `_safeSetData`
unfoldable pub safe_set_data : List Write → Drawer → Drawer
safe_set_data ws d = record d {
  view_data = if d.is_detached || d.is_hidden then d.view_data else write_all ws d.view_data;
  pending = if not d.is_detached && d.is_hidden then assign_all d.pending ws else d.pending;
}

-- `_forceSetData`
unfoldable pub force_set_data : List Write → Drawer → Drawer
force_set_data ws d = record d {
  view_data = if d.is_detached then d.view_data else write_all ws d.view_data;
}

-- The last message with its index.
abbrev pub last_of : List Message → Option (ℕ × Message)
last_of [] = none
last_of (m ∷ []) = some (0, m)
last_of (m ∷ n ∷ ms) = elim (last_of (n ∷ ms)) [ none ↦ none | some (i, l) ↦ some (suc i, l) ]

abbrev pub last_index : List Message → ℕ
last_index l = length l - 1

-- Whether the last message is the assistant's.
-- `slice(0, -1)`
abbrev pub without_last : List Message → List Message
without_last [] = []
without_last (m ∷ []) = []
without_last (m ∷ n ∷ ms) = m ∷ without_last (n ∷ ms)

abbrev pub ends_in_answer : List Message → Bool
ends_in_answer l = elim (last_of l) [ none ↦ false | some (i, m) ↦ not m.is_user ]

-- `_flushAIText`
unfoldable pub flush_ai_text : Drawer → Drawer
unfolding safe_set_data
flush_ai_text d =
    let ws : List Write =
      if ends_in_answer d.view_data.list
      then sets_txt (last_index d.view_data.list) d.ai_text ∷ []
      else [] in
    safe_set_data ws (record d { ai_text_dirty = false })
