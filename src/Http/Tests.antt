-- ===== src/Http/Tests.antt =====
-- Runs of http.ts, and instances of its theorems.
use pathmemos.Base.{◌≡◌, refl, true, false, none, some, List, [], ◌∷◌}
use pathmemos.Http.Token.{Token, cancel, add_abort, remove_abort}
use pathmemos.Http.Toast.{
  Payload, object, plain, Client, shows, session_expired, show_session_expired_toast,
  handle_response_error, show_loading, hide_loading, reset_loading,
}
use pathmemos.Http.Request.{
  Options, rejects, request_abort, respond, settle, on_success, on_fail, on_abort, on_cancel,
  start_request,
}
use pathmemos.Http.Request.First.{Signal, fails, cancels, react, run_request, answer, request_first}

runs : Unit {0}
unfolding cancel add_abort remove_abort show_session_expired_toast handle_response_error
    show_loading hide_loading reset_loading respond settle on_success on_fail on_abort on_cancel
    start_request
runs = tt

abbrev quiet : Client
quiet = record {
  session = true;
  session_toast_at = 0;
  error_toast_at = 0;
  page_destroyed = false;
  page_hidden = false;
  private_backend = false;
  loading_count = 0;
  loading_shown = false;
  toasts = [];
}

abbrev options : Options
options = record { close_the_error_message = false; skip_auth_expire = false }

-- The token of two other requests.
abbrev token : Token
token = record { cancelled = false; abort_fns = 3 ∷ 5 ∷ [] }

abbrev full : Payload
full = object (some "0101") (some "full") none

abbrev late : List Signal
late = fails true "request:fail abort" ∷ cancels ∷ []

http_tests :
    ((show_session_expired_toast 1000 quiet).toasts ≡ session_expired ∷ [])
    × ((handle_response_error 1000 full false quiet).toasts ≡ shows "full" ∷ [])
    × ((respond options 1000 401 plain quiet).0.session ≡ false)
    × ((hide_loading (show_loading (show_loading quiet))).loading_shown ≡ true)
    × ((run_request options late (start_request 7 (some token) quiet)).reply
        ≡ some (rejects request_abort))
    × ((start_request 7 (some ((cancel token).0)) quiet).task_aborted ≡ true)
unfolding runs
http_tests = (refl, refl, refl, refl, refl, refl)

request_first_example :
    let f = run_request options late (react options cancels (start_request 7 (some token) quiet)) in
    let (c', r) = answer options cancels quiet in
    (f.client ≡ c') × ((f.reply ≡ some r) × (f.task_aborted ≡ true))
request_first_example = request_first options 7 token quiet cancels late refl refl refl
