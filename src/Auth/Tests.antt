-- ===== src/Auth/Tests.antt =====
-- Runs of auth.ts, and an instance of its theorem.
use pathmemos.Base.{ℕ, ◌≡◌, refl, ◌⊎◌, true, false, Option, none, some, List, [], ◌∷◌, ◌++◌}
use pathmemos.Auth.{
  Page, family, Auth, LoginData, notify_login_success, join_flight, login, profile_answered,
  flight_ended, is_initiator_page_valid, apply_end, apply_begin, wx_login_ended, login_posted,
  claim_ended,
}
use pathmemos.Auth.Flight.{
  Event, logs_in, profile_ends, wx_ends, posts, claims, run_auth, run_auth_single_flight,
}

runs : Unit {0}
unfolding notify_login_success join_flight login profile_answered flight_ended
    is_initiator_page_valid apply_end apply_begin wx_login_ended login_posted claim_ended
runs = tt

abbrev fresh : Auth
fresh = record {
  session = false;
  is_logining = false;
  login_flight = none;
  initiator_page = none;
  pending_link_id = true;
  pending_inviter = true;
  need_show_xpa = false;
  need_refresh_list = false;
  redirects = [];
  background = [];
  flights = 0;
  active = [];
}

abbrev index : Option Page
index = some (record { number = 1; is_family = false; is_gone = false })

abbrev user : Option LoginData
user = some (record { has_session = true; new_user = false })

abbrev new_user : Option LoginData
new_user = some (record { has_session = true; new_user = true })

abbrev asked : List Event
asked = logs_in index ∷ logs_in none ∷ wx_ends 0 true false ∷ []

-- Two logins in one flight; a new user whose page is gone; a login that is cancelled, which ends
-- like one that succeeds; and a login that finds its user meanwhile, after which two flights are under
-- way.
auth_tests :
    ((run_auth fresh (asked ++ posts 0 true user false index ∷ [])).redirects ≡ family ∷ [])
    × ((run_auth fresh
          (asked ++ posts 0 true new_user false index ∷ claims 0 false true none ∷ [])).redirects
        ≡ [])
    × ((run_auth fresh (asked ++ posts 0 true user true index ∷ [])).session ≡ false)
    × ((run_auth fresh (
          asked
          ++ posts 0 true new_user false index
            ∷ profile_ends true index
            ∷ profile_ends false index
            ∷ [])).active
        ≡ 1 ∷ 0 ∷ [])
unfolding runs
auth_tests = (refl, refl, refl, refl)

run_auth_single_flight_example :
    let b = run_auth fresh asked in
    ((b.active ≡ []) × (b.is_logining ≡ false) × (b.login_flight ≡ none))
    ⊎ ((k : ℕ) × (b.active ≡ k ∷ []) × ((page : Option Page) → join_flight page b ≡ (b, k)))
unfolding runs
run_auth_single_flight_example = run_auth_single_flight asked fresh refl refl refl refl
