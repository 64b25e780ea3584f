-- ===== src/AiDrawer/Lock/Invariant.antt =====
-- AIDrawer.ts: where a send stands while the lock is held.
use pathmemos.Base.{
  ℕ, suc, ◌≤◌, ◌<◌, ◌≡◌, refl, sym, ◌∙◌, ap, subst, inl, inr, Bool, true, false, ◌&&◌, Option, none,
  some, List, [], ◌∷◌, ◌++◌, leb, ◌==◌, arith, if◌then◌else◌, Bool-cases,
}
use pathmemos.AiDrawer.{Drawer}
use pathmemos.AiDrawer.Callbacks.{Callback, on_reconnect, on_open, on_message, on_close, on_error}
use pathmemos.AiDrawer.Sending.{
  Event, submits, retries, login_ends, calls, times_out, hides, page_hides, shows, closes, detaches,
  react, run_drawer, send_prompt, waits, is_ending, is_number,
}
use pathmemos.AiDrawer.Lock.{
  Core, core, releases, release_if, counts, abort_stream, abort_core, send_message_core, Prompts,
  core-send_prompt,
}
use pathmemos.AiDrawer.Lock.Operations.{
  core-retry_last, login_core, core-login_answered, end_core, core-stream_calls, core-timer_fires,
  core-page_hide, core-hide, core-close, core-show,
}

-- The stream whose `abort` is kept was opened.
abbrev pub Opened : Option ℕ → (newest : ℕ) → Type 0
Opened none newest = Unit
Opened (some k) newest = k ≤ newest

-- No send is under way, or the last one waits for its login, or its stream is open.
pub data Locked (s : Core) : Type 0 where
  free :
      s.sending ≡ false
      → s.logins ≡ []
      → s.newest ≤ s.send_seq
      → Opened s.sse_abort s.newest
      → Locked s
  logs_in :
      s.sending ≡ true
      → s.logins ≡ s.send_seq ∷ []
      → s.newest < s.send_seq
      → s.sse_abort ≡ none
      → Locked s
  streams :
      s.sending ≡ true
      → s.logins ≡ []
      → s.newest ≡ s.send_seq
      → s.sse_abort ≡ some s.send_seq
      → s.live ≡ true
      → Locked s

abort_stream-Locked :
    (sse : Option ℕ) (live : Bool) (s : Core)
    → s.is_detached ≡ false
    → s.sse_abort ≡ sse
    → s.live ≡ live
    → Locked s
    → Locked (abort_stream sse live s)
abort_stream-Locked none live s h e l p = p
abort_stream-Locked (some k) live s h e l (free a b c o) = free (ground (arith, a)) b c tt
abort_stream-Locked (some k) live s h e l (logs_in a b c d) = ground (arith, e, d)
abort_stream-Locked (some k) live s h e l (streams a b c d f) =
    let same : k ≡ s.send_seq = ground (arith, e, d) in
    free (ground (arith, same, l, f, h)) b (omega arith) tt

abort_core-Locked : (s : Core) → s.is_detached ≡ false → Locked s → Locked (abort_core s)
abort_core-Locked s h p = abort_stream-Locked s.sse_abort s.live s h refl refl p

-- A new send, whose number no stream has.
send_stream-Locked :
    (has_url : Bool) (sse : Option ℕ) (live : Bool) (s : Core)
    → s.sending ≡ true
    → s.logins ≡ []
    → s.newest < s.send_seq
    → s.sse_abort ≡ sse
    → Opened sse s.newest
    → Locked (send_message_core has_url (abort_stream sse live s))
send_stream-Locked true none live s a b c e o = logs_in a (ap (λ l. l ++ s.send_seq ∷ []) b) c e
send_stream-Locked false none live s a b c e o =
    free refl b (omega arith) (subst (λ x. Opened x s.newest) (sym e) o)
send_stream-Locked true (some k) live s a b c e o =
    logs_in (ground (arith, a, c, o)) (ap (λ l. l ++ s.send_seq ∷ []) b) c refl
send_stream-Locked false (some k) live s a b c e o = free refl b (omega arith) tt

Prompts-Locked : (has_url : Bool) (s t : Core) → Prompts has_url s t → Locked s → Locked t
Prompts-Locked has_url s t (inl e) p = subst Locked (sym e) p
Prompts-Locked has_url s t (inr (quiet, e)) (free a b c o) = subst Locked (sym e) (
    send_stream-Locked has_url s.sse_abort s.live
      (record s { send_seq = suc s.send_seq; sending = true }) refl b (omega arith) refl o)
Prompts-Locked has_url s t (inr (quiet, e)) (logs_in a b c d) = ground (arith, quiet, a)
Prompts-Locked has_url s t (inr (quiet, e)) (streams a b c d f) = ground (arith, quiet, a)

login_core-Locked :
    (k : ℕ) (success : Bool) (s : Core)
    → waits k s.logins ≡ true
    → Locked s
    → Locked (login_core k success s)
login_core-Locked k success s w (free a b c o) = ground (arith, w, b)
login_core-Locked k success s w (streams a b c d f) = ground (arith, w, b)
login_core-Locked k true s w (logs_in a b c d) =
    let same : k ≡ s.send_seq = ground (arith, w, b) in
    streams a (ground (arith, same, b)) same (ap some same) refl
login_core-Locked k false s w (logs_in a b c d) =
    let same : k ≡ s.send_seq = ground (arith, w, b) in
    free refl (ground (arith, same, b)) (omega arith) (subst (λ x. Opened x s.newest) (sym d) tt)

goes_on : (c : Callback) → releases c ≡ false → is_ending c ≡ false
goes_on on_reconnect r = refl
goes_on on_open r = refl
goes_on on_close r = r
goes_on (on_message text done) r = refl
goes_on (on_error q) r = r

stays_live :
    (k seq : ℕ) (c : Callback)
    → (k == seq && releases c) ≡ false
    → (is_ending c && (seq == k)) ≡ false
stays_live k seq c e = elim (Bool-cases (releases c)) [
  | inl r ↦ ground (arith, e, r)
  | inr r ↦ let g = goes_on c r in ground (arith, g)
]

call-Locked :
    (k : ℕ) (c : Callback) (s : Core)
    → s.is_detached ≡ false
    → k ≤ s.newest
    → Locked s
    → Locked (release_if (counts k c s) (end_core k c s))
call-Locked k c s h i (free a b n o) = free (ground (arith, a)) b n o
call-Locked k c s h i (logs_in a b n d) = logs_in (ground (arith, a, i, n)) b n d
call-Locked k c s h i (streams a b n d f) = elim (Bool-cases (k == s.send_seq && releases c)) [
  | inl e ↦
      free (ground (arith, h, e)) b (omega arith)
        (subst (λ x. Opened x s.newest) (sym d) (omega arith))
  | inr e ↦
      let quiet = stays_live k s.send_seq c e in
      let same : is_number k s.sse_abort ≡ (s.send_seq == k) = ap (is_number k) d in
      streams (ground (arith, a, e)) b n d (ground (arith, f, quiet, same))
]

-- The component stays on its page.
abbrev pub stays : List Event → Bool
stays [] = true
stays (detaches ∷ es) = false
stays (submits has_url prompt ∷ es) = stays es
stays (retries has_url ∷ es) = stays es
stays (login_ends k success ∷ es) = stays es
stays (calls k c ∷ es) = stays es
stays (times_out ∷ es) = stays es
stays (hides ∷ es) = stays es
stays (page_hides ∷ es) = stays es
stays (shows ∷ es) = stays es
stays (closes ∷ es) = stays es

abbrev pub Holds : Core → Type 0
Holds s = (s.is_detached ≡ false) × Locked s

abort_stream-is_detached :
    (sse : Option ℕ) (live : Bool) (s : Core)
    → (abort_stream sse live s).is_detached ≡ s.is_detached
abort_stream-is_detached none live s = refl
abort_stream-is_detached (some k) live s = refl

send_message_core-is_detached :
    (has_url : Bool) (s : Core) → (send_message_core has_url s).is_detached ≡ s.is_detached
send_message_core-is_detached true s = refl
send_message_core-is_detached false s = refl

Prompts-Holds : (has_url : Bool) (s t : Core) → Prompts has_url s t → Holds s → Holds t
Prompts-Holds has_url s t (inl e) (h, p) = subst Holds (sym e) (h, p)
Prompts-Holds has_url s t (inr (quiet, e)) (h, p) =
    let started : Core = record s { send_seq = suc s.send_seq; sending = true } in
    (
      ap (λ c. c.is_detached) e
          ∙ send_message_core-is_detached has_url (abort_core started)
          ∙ abort_stream-is_detached s.sse_abort s.live started
          ∙ h,
      Prompts-Locked has_url s t (inr (quiet, e)) p,
    )

abort_core-Holds : (s t : Core) → t ≡ abort_core s → Holds s → Holds t
abort_core-Holds s t e (h, p) =
    subst Holds (sym e) (abort_stream-is_detached s.sse_abort s.live s ∙ h, abort_core-Locked s h p)

login_core-Holds :
    (asked : Bool) (k : ℕ) (success : Bool) (s : Core)
    → waits k s.logins ≡ asked
    → Holds s
    → Holds (if asked then login_core k success s else s)
login_core-Holds true k true s w (h, p) = (h, login_core-Locked k true s w p)
login_core-Holds true k false s w (h, p) = (h, login_core-Locked k false s w p)
login_core-Holds false k success s w p = p

call-Holds :
    (known : Bool) (k : ℕ) (c : Callback) (s : Core)
    → leb k s.newest ≡ known
    → Holds s
    → Holds (if known then release_if (counts k c s) (end_core k c s) else s)
call-Holds true k c s w (h, p) = (h, call-Locked k c s h (ground (arith, w)) p)
call-Holds false k c s w p = p

react-Holds :
    (e : Event) (d : Drawer) → stays (e ∷ []) ≡ true → Holds (core d) → Holds (core (react e d))
react-Holds (submits has_url prompt) d q p =
    Prompts-Holds has_url (core d) (core (send_prompt has_url prompt d))
      (core-send_prompt has_url prompt d p.0) p
react-Holds (retries has_url) d q p =
    Prompts-Holds has_url (core d) (core (react (retries has_url) d))
      (core-retry_last has_url d p.0) p
react-Holds (login_ends k success) d q p =
    subst Holds (sym (core-login_answered k success d p.0))
      (login_core-Holds (waits k d.logins) k success (core d) refl p)
react-Holds (calls k c) d q p =
    subst Holds (sym (core-stream_calls k c d)) (call-Holds (leb k d.newest) k c (core d) refl p)
react-Holds times_out d q p = subst Holds (sym (core-timer_fires d)) p
react-Holds hides d q p = abort_core-Holds (core d) (core (react hides d)) (core-hide d) p
react-Holds page_hides d q p =
    abort_core-Holds (core d) (core (react page_hides d)) (core-page_hide d) p
react-Holds shows d q p = subst Holds (sym (core-show d)) p
react-Holds closes d q p = abort_core-Holds (core d) (core (react closes d)) (core-close d) p
react-Holds detaches d q p = ground (arith, q)

stays-cons :
    (e : Event) (es : List Event)
    → stays (e ∷ es) ≡ true
    → (stays (e ∷ []) ≡ true) × (stays es ≡ true)
stays-cons (submits has_url prompt) es q = (refl, q)
stays-cons (retries has_url) es q = (refl, q)
stays-cons (login_ends k success) es q = (refl, q)
stays-cons (calls k c) es q = (refl, q)
stays-cons times_out es q = (refl, q)
stays-cons hides es q = (refl, q)
stays-cons page_hides es q = (refl, q)
stays-cons shows es q = (refl, q)
stays-cons closes es q = (refl, q)
stays-cons detaches es q = ground (arith, q)

pub run_drawer-Holds :
    (es : List Event) (d : Drawer)
    → stays es ≡ true
    → Holds (core d)
    → Holds (core (run_drawer d es))
run_drawer-Holds [] d q p = p
run_drawer-Holds (e ∷ es) d q p =
    let (one, rest) = stays-cons e es q in
    run_drawer-Holds es (react e d) rest (react-Holds e d one p)
