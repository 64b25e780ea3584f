-- ===== src/Http/Request.antt =====
-- http.ts: `_request`, as what happens to its promise.
pub mod First
use Prim.Native.String.{String}
use text.Mathlib.Text.{◌==◌ as str_eq}
use pathmemos.Base.{
  ℕ, Bool, true, false, not, ◌&&◌, ◌||◌, Option, none, some, List, [], ◌∷◌, leb, ◌==◌,
  if◌then◌else◌,
}
use pathmemos.Http.Token.{Token, cancel, add_abort, remove_abort, mem}
use pathmemos.Http.Toast.{
  Payload, object, plain, Client, is_text, show_session_expired_toast, handle_response_error,
}

pub record Options : Type 0 where
  pub close_the_error_message : Bool
  pub skip_auth_expire : Bool

pub data Error : Type 0 where
  expired : Error
  private_backend_unreachable : Error
  server_error : (status : ℕ) → Error
  refused : Payload → Error
  request_abort : Error
  network : String → Error

pub data Reply : Type 0 where
  resolves : Payload → Reply
  rejects : Error → Reply

-- The number of the request among the functions of its token, the token, `aborted`, whether the task
-- was aborted, and how the promise is settled.
pub record Flight : Type 0 where
  pub me : ℕ
  pub token : Option Token
  pub aborted : Bool
  pub task_aborted : Bool
  pub reply : Option Reply
  pub client : Client

abbrev pub code_of : Payload → Option String
code_of plain = none
code_of (object code message msg) = code

-- `success` on the status (0 if it is missing) and the body.
unfoldable pub respond : Options → ℕ → (status : ℕ) → Payload → Client → Client × Reply
respond o now status body c =
    let code = code_of body in
    let cleared = record c { session = false } in
    let unreachable = (is_text "5020" code || is_text "5030" code) && c.private_backend in
    if status == 401 && not o.skip_auth_expire
    then (
      if o.close_the_error_message then cleared else show_session_expired_toast now cleared,
      rejects expired,
    )
    else if leb 500 status
    then (c, rejects (if unreachable then private_backend_unreachable else server_error status))
    else if not (is_text "0000" code)
    then (handle_response_error now body o.close_the_error_message c, rejects (refused body))
    else (c, resolves body)

-- A promise is settled once.
abbrev pub settled : Option Reply → Reply → Option Reply
settled none r = some r
settled (some r') r = some r'

-- `settle`
unfoldable pub settle : Reply → Flight → Flight
settle r f = record f {
  reply = settled f.reply r;
  token = elim f.token [ none ↦ none | some t ↦ some (remove_abort f.me t) ];
}

unfoldable pub on_success : Options → ℕ → (status : ℕ) → Payload → Flight → Flight
unfolding settle
on_success o now status body f =
    let (c, r) = respond o now status body f.client in
    if f.aborted then f else settle r (record f { client = c })

-- `fail`; whether the error names an abort is what the platform says.
unfoldable pub on_fail : (is_abort : Bool) → String → Flight → Flight
unfolding settle
on_fail is_abort err_msg f =
    if f.aborted
    then f
    else settle (rejects (if is_abort then request_abort else network err_msg)) f

-- The function that the token calls.
unfoldable pub on_abort : Flight → Flight
on_abort f = record f {
  aborted = true;
  task_aborted = true;
  reply = settled f.reply (rejects request_abort);
}

-- The token is cancelled, which calls the function of this request if the token has it.
unfoldable pub on_cancel : Flight → Flight
unfolding cancel on_abort
on_cancel f = elim f.token [
  | none ↦ f
  | some t ↦
      let (t', called) = cancel t in
      let f' = record f { token = some t' } in if mem f.me called then on_abort f' else f'
]

-- The call, to the end of the promise's function.
unfoldable pub start_request : ℕ → Option Token → Client → Flight
unfolding add_abort on_abort
start_request me token c =
    let f : Flight = record {
      me = me;
      token = token;
      aborted = false;
      task_aborted = false;
      reply = none;
      client = c;
    } in
    elim token [
      | none ↦ f
      | some t ↦
          let (t', at_once) = add_abort me t in
          let f' = record f { token = some t' } in if at_once then on_abort f' else f'
    ]
