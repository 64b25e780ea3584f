-- ===== src/Auth/Flight.antt =====
-- auth.ts: logins that come while one is under way share it.
use pathmemos.Base.{
  ℕ, ◌≡◌, refl, sym, ◌∙◌, ap, subst, inl, inr, ◌⊎◌, Bool, true, false, not, ◌&&◌, Option, none,
  some, List, [], ◌∷◌, ◌==◌, arith, if◌then◌else◌, is_empty,
}
use pathmemos.Auth.{
  Page, Auth, LoginData, notify_login_success, join_flight, login, profile_answered, flight_ended,
  apply_end, apply_begin, wx_login_ended, login_posted, claim_ended,
}

pub data Event : Type 0 where
  logs_in : Option Page → Event
  profile_ends : (found : Bool) → Option Page → Event
  wx_ends : ℕ → (success cancelled : Bool) → Event
  posts : ℕ → (had_inviter : Bool) → Option LoginData → (cancelled : Bool) → Option Page → Event
  claims : ℕ → (cancelled has_link : Bool) → Option Page → Event

abbrev pub has : ℕ → List ℕ → Bool
has k [] = false
has k (j ∷ js) = if k == j then true else has k js

-- A step of a flight that has ended is none.
abbrev pub react : Event → Auth → Auth
react (logs_in page) a = (login page a).0
react (profile_ends found page) a = (profile_answered found page a).0
react (wx_ends k success cancelled) a =
    if has k a.active then (wx_login_ended k success cancelled a).0 else a
react (posts k had_inviter data? cancelled page) a =
    if has k a.active then (login_posted k had_inviter data? cancelled page a).0 else a
react (claims k cancelled has_link page) a =
    if has k a.active then claim_ended k cancelled has_link page a else a

abbrev pub run_auth : Auth → List Event → Auth
run_auth a [] = a
run_auth a (e ∷ es) = run_auth (react e a) es

-- Whether an event is a `login` that finds its user while a flight is under way.
abbrev pub disturbs : Event → Auth → Bool
disturbs (logs_in page) a = false
disturbs (profile_ends found page) a = found && not (is_empty a.active)
disturbs (wx_ends k success cancelled) a = false
disturbs (posts k had_inviter data? cancelled page) a = false
disturbs (claims k cancelled has_link page) a = false

abbrev pub undisturbed : Auth → List Event → Bool
undisturbed a [] = true
undisturbed a (e ∷ es) = not (disturbs e a) && undisturbed (react e a) es

-- No flight is under way and the lock is free, or one is, and it is the one that a login joins.
pub data Single (a : Auth) : Type 0 where
  idle : a.active ≡ [] → a.is_logining ≡ false → a.login_flight ≡ none → Single a
  flies : (k : ℕ) → a.active ≡ k ∷ [] → a.is_logining ≡ true → a.login_flight ≡ some k → Single a

joins :
    (a : Auth) (k : ℕ) (page : Option Page)
    → a.is_logining ≡ true
    → a.login_flight ≡ some k
    → join_flight page a ≡ (a, k)
unfolding join_flight
joins a k page l f = ground (arith, l, f)

starts :
    (a : Auth) (page : Option Page)
    → a.active ≡ []
    → a.login_flight ≡ none
    → Single ((join_flight page a).0)
unfolding join_flight
starts a page n f = flies a.flights (ground (arith, n, f)) (ground (arith, f)) (ground (arith, f))

join_flight-Single : (a : Auth) (page : Option Page) → Single a → Single ((join_flight page a).0)
join_flight-Single a page (idle n l f) = starts a page n f
join_flight-Single a page (flies k n l f) =
    subst Single (sym (ap (λ r. r.0) (joins a k page l f))) (flies k n l f)

flight_ended-Single :
    (k : ℕ) (a b : Auth)
    → has k a.active ≡ true
    → Single a
    → b.active ≡ a.active
    → Single (flight_ended k b)
unfolding flight_ended
flight_ended-Single k a b h (idle n l f) e = ground (arith, h, n)
flight_ended-Single k a b h (flies j n l f) e = idle (ground (arith, h, n, e)) refl refl

active-apply_end :
    (cancelled new_user has_link : Bool) (page : Option Page) (a : Auth)
    → (apply_end cancelled new_user has_link page a).active ≡ a.active
unfolding apply_end notify_login_success
active-apply_end cancelled new_user has_link page a = ground arith

Single-apply_begin :
    (d : LoginData) (i : Bool) (a : Auth)
    → Single a
    → Single (apply_begin d (record a { pending_inviter = i }))
unfolding apply_begin
Single-apply_begin d i a (idle n l f) = idle n l f
Single-apply_begin d i a (flies k n l f) = flies k n l f

if-Single : (b : Bool) (over on : Auth) → Single over → Single on → Single (if b then over else on)
if-Single true over on p q = p
if-Single false over on p q = q

pair-if : (b : Bool) (x y : Auth × Bool) → (if b then x else y).0 ≡ (if b then x.0 else y.0)
pair-if true x y = refl
pair-if false x y = refl

wx_login_ended-Single :
    (k : ℕ) (success cancelled : Bool) (a : Auth)
    → has k a.active ≡ true
    → Single a
    → Single ((wx_login_ended k success cancelled a).0)
unfolding wx_login_ended
wx_login_ended-Single k success cancelled a h p =
    let go_on = success && not cancelled in
    subst Single (sym (pair-if go_on (a, true) (flight_ended k a, false)))
      (if-Single go_on a (flight_ended k a) p (flight_ended-Single k a a h p refl))

login_posted-Single :
    (k : ℕ) (had_inviter : Bool) (answer : Option LoginData) (cancelled : Bool) (page : Option Page)
    (a : Auth)
    → has k a.active ≡ true
    → Single a
    → Single ((login_posted k had_inviter answer cancelled page a).0)
unfolding login_posted apply_begin
login_posted-Single k had_inviter none cancelled page a h p = flight_ended-Single k a a h p refl
login_posted-Single k had_inviter (some d) cancelled page a h p =
    let i = if had_inviter then false else a.pending_inviter in
    let posted : Auth = record a { pending_inviter = i } in
    let applied = apply_begin d posted in
    let done = apply_end false false a.pending_link_id page applied in
    let over = flight_ended k posted in
    let ended = flight_ended k done in
    let rest : Auth × Bool = if d.new_user then (applied, true) else (ended, false) in
    subst Single
      (sym (
        pair-if cancelled (over, false) rest
        ∙ ap (λ x. if cancelled then over else x)
            (pair-if d.new_user (applied, true) (ended, false))))
      (if-Single cancelled over (if d.new_user then applied else ended)
        (flight_ended-Single k a posted h p refl)
        (if-Single d.new_user applied ended (Single-apply_begin d i a p) (
          flight_ended-Single k a done h p
            (active-apply_end false false a.pending_link_id page applied))))

profile_answered-Single :
    (found : Bool) (page : Option Page) (a : Auth)
    → (found && not (is_empty a.active)) ≡ false
    → Single a
    → Single ((profile_answered found page a).0)
unfolding profile_answered notify_login_success
profile_answered-Single true page a q (idle n l f) = idle n refl refl
profile_answered-Single true page a q (flies k n l f) = ground (arith, q, n)
profile_answered-Single false page a q (idle n l f) =
    join_flight-Single (record a { session = false }) page (idle n l f)
profile_answered-Single false page a q (flies k n l f) =
    join_flight-Single (record a { session = false }) page (flies k n l f)

login-Single : (page : Option Page) (a : Auth) → Single a → Single ((login page a).0)
unfolding login
login-Single page a p =
    let (b, k) = join_flight page a in
    subst Single (sym (first a.session (a, none) (b, some k)))
      (if-Single a.session a b p (join_flight-Single a page p))
  where
    first : (b : Bool) (x y : Auth × Option ℕ) → (if b then x else y).0 ≡ (if b then x.0 else y.0)
    first true x y = refl
    first false x y = refl

-- A step of a flight that is under way.
step-Single :
    (under_way : Bool) (next a : Auth)
    → (under_way ≡ true → Single next)
    → Single a
    → Single (if under_way then next else a)
step-Single true next a f p = f refl
step-Single false next a f p = p

react-Single : (e : Event) (a : Auth) → disturbs e a ≡ false → Single a → Single (react e a)
unfolding claim_ended
react-Single (logs_in page) a q p = login-Single page a p
react-Single (profile_ends found page) a q p = profile_answered-Single found page a q p
react-Single (wx_ends k success cancelled) a q p =
    step-Single (has k a.active) ((wx_login_ended k success cancelled a).0) a
      (λ h. wx_login_ended-Single k success cancelled a h p) p
react-Single (posts k had answer cancelled page) a q p =
    step-Single (has k a.active) ((login_posted k had answer cancelled page a).0) a
      (λ h. login_posted-Single k had answer cancelled page a h p) p
react-Single (claims k cancelled has_link page) a q p =
    let done = apply_end cancelled true has_link page a in
    step-Single (has k a.active) (flight_ended k done) a
      (λ h. flight_ended-Single k a done h p (active-apply_end cancelled true has_link page a)) p

run_auth-Single :
    (es : List Event) (a : Auth) → undisturbed a es ≡ true → Single a → Single (run_auth a es)
run_auth-Single [] a q p = p
run_auth-Single (e ∷ es) a q p =
    run_auth-Single es (react e a) (ground (arith, q)) (react-Single e a (ground (arith, q)) p)

-- If at first no flight is under way and the lock is free, and as long as no login finds its user
-- while a flight is under way, no two flights are ever under way, whatever logins are asked for and
-- however their flights end, in any order: either none is and the lock is free, or one is, and each
-- further login, on any page, waits for just that one and starts nothing.
pub run_auth_single_flight :
    (es : List Event) (a : Auth)
    → a.active ≡ []
    → a.is_logining ≡ false
    → a.login_flight ≡ none
    → undisturbed a es ≡ true
    → let b = run_auth a es in
      ((b.active ≡ []) × (b.is_logining ≡ false) × (b.login_flight ≡ none))
      ⊎ ((k : ℕ) × (b.active ≡ k ∷ []) × ((page : Option Page) → join_flight page b ≡ (b, k)))
run_auth_single_flight es a n l f q = elim (run_auth-Single es a q (idle n l f)) [
  | idle n' l' f' ↦ inl (n', l', f')
  | flies k n' l' f' ↦ inr (k, n', (λ page. joins (run_auth a es) k page l' f'))
]
