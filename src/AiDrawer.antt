-- ===== src/AiDrawer.antt =====
-- frontend/miniapp/miniprogram/components/AIDrawer/AIDrawer.ts: the chat, its streams and the lock of
-- sending. A text is the list of its code points. Cards of dates, examples, the keyboard and the
-- scrolling are left out, and so are toasts, which no operation reads.
pub mod Text
pub mod Writes
pub mod Callbacks
pub mod Sending
pub mod Lock
mod Tests
use pathmemos.Base.{ℕ, Bool, true, false, Option, none, some, List, [], ◌∷◌}

-- A message of the user or of the assistant (`PPFJ`); `html` is whether it has a formatted text.
pub record Message : Type 0 where
  pub is_user : Bool
  pub txt : List ℕ
  pub html : Bool
  pub error : Bool

-- `data`
pub record Data : Type 0 where
  pub input_value : List ℕ
  pub loading : Bool
  pub connecting : Bool
  pub list : List Message
  pub show_quota_dialog : Bool

-- An entry of an object given to `setData`.
pub data Write : Type 0 where
  sets_input : List ℕ → Write
  sets_loading sets_connecting sets_quota : Bool → Write
  sets_list : List Message → Write
  sets_item : (index : ℕ) → Message → Write
  sets_txt : (index : ℕ) → List ℕ → Write
  sets_error : (index : ℕ) → Write

-- The component. A stream has the number that `_sendSeq` had when it was opened: `sse_abort` is the
-- number of the stream whose `abort` is kept, `live` whether that stream has not ended, `newest` the
-- number of the last stream that was opened, and `logins` the numbers of the sends that wait for the
-- login. `is_detached` is also `_isDestroyed`.
pub record Drawer : Type 0 where
  pub view_data : Data
  pub pending : List Write
  pub ai_text : List ℕ
  pub ai_text_dirty : Bool
  pub ai_flush_timer : Bool
  pub last_prompt : List ℕ
  pub sending : Bool
  pub send_seq : ℕ
  pub logins : List ℕ
  pub newest : ℕ
  pub sse_abort : Option ℕ
  pub live : Bool
  pub is_detached : Bool
  pub is_hidden : Bool

-- After `attached`.
abbrev pub attached_drawer : Drawer
attached_drawer = record {
  view_data = record {
    input_value = [];
    loading = false;
    connecting = false;
    list = [];
    show_quota_dialog = false;
  };
  pending = [];
  ai_text = [];
  ai_text_dirty = false;
  ai_flush_timer = false;
  last_prompt = [];
  sending = false;
  send_seq = 0;
  logins = [];
  newest = 0;
  sse_abort = none;
  live = false;
  is_detached = false;
  is_hidden = false;
}
