-- ===== src/Auth.antt =====
-- frontend/miniapp/miniprogram/utils/auth.ts: the login. A page is a number, and a flight (the promise
-- `_loginFlight` of one login) the number of flights before it. Each async function is cut at its
-- `await`s; the storage that it writes besides is left out.
pub mod Flight
mod Tests
use pathmemos.Base.{
  ℕ, zero, suc, ◌+◌, Bool, true, false, not, ◌&&◌, ◌||◌, Option, none, some, List, [], ◌∷◌, ◌++◌,
  ◌==◌, if◌then◌else◌, is_some,
}

-- The page on top.
pub record Page : Type 0 where
  pub number : ℕ
  pub is_family : Bool
  pub is_gone : Bool

pub data Target : Type 0 where
  family guide : Target

-- Work that is started and not waited for.
pub data Background : Type 0 where
  family_config vip_info : Background

-- The session, the module's variables, the flags of the storage and of the app, how many flights were
-- started, and which of them have not ended.
pub record Auth : Type 0 where
  pub session : Bool
  pub is_logining : Bool
  pub login_flight : Option ℕ
  pub initiator_page : Option ℕ
  pub pending_link_id : Bool
  pub pending_inviter : Bool
  pub need_show_xpa : Bool
  pub need_refresh_list : Bool
  pub redirects : List Target
  pub background : List Background
  pub flights : ℕ
  pub active : List ℕ

-- What the server answers to a login.
pub record LoginData : Type 0 where
  pub has_session : Bool
  pub new_user : Bool

-- `notifyLoginSuccess`
unfoldable pub notify_login_success : Auth → Auth
notify_login_success a = record a { is_logining = false; login_flight = none }

abbrev pub number_of : Option Page → Option ℕ
number_of none = none
number_of (some page) = some page.number

-- The end of `login`: the flight that the caller waits for, a new one if there is none.
unfoldable pub join_flight : Option Page → Auth → Auth × ℕ
join_flight page a =
    let fresh : Auth = record a {
      is_logining = true;
      initiator_page = number_of page;
      login_flight = some a.flights;
      flights = suc a.flights;
      active = a.flights ∷ a.active;
    } in
    elim a.login_flight [
      | none ↦ (fresh, a.flights)
      | some k ↦ if a.is_logining then (a, k) else (fresh, a.flights)
    ]

-- `login` without a session; with one it asks for the profile.
unfoldable pub login : Option Page → Auth → Auth × Option ℕ
unfolding join_flight
login page a = let (b, k) = join_flight page a in if a.session then (a, none) else (b, some k)

-- The answer of the profile query of a `login`, which returns at once if there is a user.
unfoldable pub profile_answered : (found : Bool) → Option Page → Auth → Auth × Option ℕ
unfolding notify_login_success join_flight
profile_answered found page a =
    let known = notify_login_success a in
    let (b, k) = join_flight page (record a { session = false }) in
    if found then (record known { background = vip_info ∷ a.background }, none) else (b, some k)

abbrev pub without : ℕ → List ℕ → List ℕ
without k [] = []
without k (j ∷ js) = if k == j then without k js else j ∷ without k js

-- The end of a flight, be it by a value or by an error.
unfoldable pub flight_ended : ℕ → Auth → Auth
flight_ended k a = record a {
  is_logining = false;
  login_flight = none;
  initiator_page = none;
  active = without k a.active;
}

-- `_isInitiatorPageValid`
unfoldable pub is_initiator_page_valid : Option Page → Auth → Bool
is_initiator_page_valid none a = false
is_initiator_page_valid (some page) a =
    not page.is_gone && elim a.initiator_page [ none ↦ false | some i ↦ i == page.number ]

abbrev pub is_family_page : Option Page → Bool
is_family_page none = false
is_family_page (some page) = page.is_family

-- `_applyLoginResult` from the claim of the free VIP on; `has_link` was read before it.
unfoldable pub apply_end : (cancelled new_user has_link : Bool) → Option Page → Auth → Auth
unfolding notify_login_success is_initiator_page_valid
apply_end cancelled new_user has_link page a =
    let told = notify_login_success a in
    if has_link
    then if is_family_page page || not (is_initiator_page_valid page a)
      then told
      else record told { redirects = family ∷ a.redirects }
    else if new_user
    then if cancelled then a else record told { redirects = guide ∷ a.redirects }
    else told

-- `_applyLoginResult` to the claim.
unfoldable pub apply_begin : LoginData → Auth → Auth
apply_begin d a = record a {
  session = a.session || d.has_session;
  need_refresh_list = true;
  background = family_config ∷ a.background;
  need_show_xpa = a.need_show_xpa || d.new_user;
}

-- The steps of a flight: `wx.login` ends, the server answers, and the claim ends. A step tells whether
-- the flight goes on.
unfoldable pub wx_login_ended : ℕ → (success cancelled : Bool) → Auth → Auth × Bool
unfolding flight_ended
wx_login_ended k success cancelled a =
    if success && not cancelled then (a, true) else (flight_ended k a, false)

unfoldable pub login_posted :
    ℕ
    → (had_inviter : Bool) → Option LoginData
    → (cancelled : Bool) → Option Page
    → Auth
    → Auth × Bool
unfolding flight_ended apply_begin apply_end
login_posted k had_inviter none cancelled page a = (flight_ended k a, false)
login_posted k had_inviter (some d) cancelled page a =
    let posted : Auth = record a {
      pending_inviter = if had_inviter then false else a.pending_inviter;
    } in
    let applied = apply_begin d posted in
    if cancelled
    then (flight_ended k posted, false)
    else if d.new_user
    then (applied, true)
    else (flight_ended k (apply_end false false a.pending_link_id page applied), false)

unfoldable pub claim_ended : ℕ → (cancelled has_link : Bool) → Option Page → Auth → Auth
unfolding flight_ended apply_end
claim_ended k cancelled has_link page a = flight_ended k (apply_end cancelled true has_link page a)
