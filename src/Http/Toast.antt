-- ===== src/Http/Toast.antt =====
-- http.ts: the toasts and the loading mask. A time is in milliseconds.
use Prim.Native.String.{String}
use text.Mathlib.Text.{◌==◌ as str_eq}
use pathmemos.Base.{
  ℕ, suc, ◌+◌, ◌-◌, Bool, true, false, ◌&&◌, ◌||◌, Option, none, some, List, ◌∷◌, ltb, ◌==◌,
  if◌then◌else◌,
}

-- A body: an object with its three fields, as far as it has them, or no object.
pub data Payload : Type 0 where
  object : (code message msg : Option String) → Payload
  plain : Payload

pub data Toast : Type 0 where
  session_expired service_unavailable private_not_registered default_error : Toast
  shows : String → Toast

-- What the module keeps and reads: the session, the two times of toasts, the current page, the mode of
-- the backend, and the count of loadings with whether the mask is shown.
pub record Client : Type 0 where
  pub session : Bool
  pub session_toast_at : ℕ
  pub error_toast_at : ℕ
  pub page_destroyed : Bool
  pub page_hidden : Bool
  pub private_backend : Bool
  pub loading_count : ℕ
  pub loading_shown : Bool
  pub toasts : List Toast

abbrev pub toast_throttle_ms : ℕ
toast_throttle_ms = 200

abbrev pub is_text : String → Option String → Bool
is_text s none = false
is_text s (some t) = str_eq t s

-- `_showSessionExpiredToast`
unfoldable pub show_session_expired_toast : ℕ → Client → Client
show_session_expired_toast now c =
    if c.page_destroyed || c.page_hidden
    then c
    else if ltb now (c.session_toast_at + toast_throttle_ms)
    then c
    else record c { session_toast_at = now; toasts = session_expired ∷ c.toasts }

-- The first text that is there and is not empty.
first_text : Option String → Option String → Toast
first_text (some s) t = if str_eq s "" then second t else shows s
  where
    second : Option String → Toast
    second none = default_error
    second (some u) = if str_eq u "" then default_error else shows u
first_text none none = default_error
first_text none (some u) = if str_eq u "" then default_error else shows u

toast_of : Bool → Payload → Toast
toast_of private_backend plain = service_unavailable
toast_of private_backend (object code message msg) =
    if is_text "4031" code && private_backend
    then private_not_registered
    else first_text message msg

-- `_handleResponseError`
unfoldable pub handle_response_error :
    ℕ → Payload → (close_the_error_message : Bool) → Client → Client
unfolding toast_of first_text
handle_response_error now payload close_the_error_message c =
    if close_the_error_message
    then c
    else if c.page_destroyed || c.page_hidden
    then c
    else if ltb now (c.error_toast_at + toast_throttle_ms)
    then c
    else record c { error_toast_at = now; toasts = toast_of c.private_backend payload ∷ c.toasts }

-- `_showLoading`, `_hideLoading` and `resetLoading`
unfoldable pub show_loading : Client → Client
show_loading c = record c {
  loading_count = suc c.loading_count;
  loading_shown = if c.loading_count == 0 then true else c.loading_shown;
}

unfoldable pub hide_loading : Client → Client
hide_loading c =
    if ltb 0 c.loading_count
    then record c {
      loading_count = c.loading_count - 1;
      loading_shown = if c.loading_count == 1 then false else c.loading_shown;
    }
    else c

unfoldable pub reset_loading : Client → Client
reset_loading c = record c { loading_count = 0; loading_shown = false }
