-- ===== src/AiDrawer/Lock/Stuck.antt =====
-- AIDrawer.ts: the lock of sending is always released in the end.
use pathmemos.Base.{
  ℕ, ◌≡◌, refl, sym, ◌∙◌, ap, inl, inr, ◌⊎◌, Bool, true, false, some, List, [], ◌∷◌, arith,
  if◌then◌else◌,
}
use pathmemos.AiDrawer.{Drawer, attached_drawer}
use pathmemos.AiDrawer.Callbacks.{Callback, on_message, on_close, on_error}
use pathmemos.AiDrawer.Sending.{Event, run_drawer, login_answered, waits, stream_calls, hide, close}
use pathmemos.AiDrawer.Lock.{Core, core, releases, abort_stream, abort_core}
use pathmemos.AiDrawer.Lock.Operations.{
  login_core, core-login_answered, core-stream_calls, core-hide, core-close,
}
use pathmemos.AiDrawer.Lock.Invariant.{free, logs_in, streams, stays, Holds, run_drawer-Holds}

-- The last send waits for its login: a failure releases the lock, a success opens its stream.
abbrev pub LogsIn : Drawer → Type 0
LogsIn d =
    let t = login_answered d.send_seq true d in
    (d.logins ≡ d.send_seq ∷ [])
    × ((login_answered d.send_seq false d).sending ≡ false)
    × (t.sse_abort ≡ some t.send_seq)
    × (t.live ≡ true)

-- The stream of the last send is open, and the lock is released by its end, its error, the message
-- that is the last one, by hiding the page and by closing the drawer.
abbrev pub Streams : Drawer → Type 0
Streams d =
    let k = d.send_seq in
    (d.sse_abort ≡ some k)
    × (d.live ≡ true)
    × ((stream_calls k on_close d).sending ≡ false)
    × ((quota_exceeded : Bool) → (stream_calls k (on_error quota_exceeded) d).sending ≡ false)
    × ((text : List ℕ) → (stream_calls k (on_message text true) d).sending ≡ false)
    × ((hide d).sending ≡ false)
    × ((close d).sending ≡ false)

own_login :
    (k : ℕ) (success : Bool) (d : Drawer)
    → d.is_detached ≡ false
    → d.logins ≡ k ∷ []
    → core (login_answered k success d) ≡ login_core k success (core d)
own_login k success d h e =
    let asked : waits k d.logins ≡ true = ground (arith, e) in
    core-login_answered k success d h
    ∙ ap (λ b. if b then login_core k success (core d) else core d) asked

releasing :
    (c : Callback) (d : Drawer)
    → d.is_detached ≡ false
    → d.newest ≡ d.send_seq
    → releases c ≡ true
    → (stream_calls d.send_seq c d).sending ≡ false
releasing c d h n r =
    let e = ap (λ s. s.sending) (core-stream_calls d.send_seq c d) in ground (arith, e, h, n, r)

aborting :
    (d : Drawer) (t : Core)
    → t ≡ abort_core (core d)
    → d.is_detached ≡ false
    → d.sse_abort ≡ some d.send_seq
    → d.live ≡ true
    → t.sending ≡ false
aborting d t e h s l =
    let stopped : Core = abort_stream (some d.send_seq) true (core d) in
    let stops : stopped.sending ≡ false = ground (arith, h) in
    ap (λ c. c.sending)
      (e
        ∙ ap (λ x. abort_stream x d.live (core d)) s
        ∙ ap (λ b. abort_stream (some d.send_seq) b (core d)) l)
    ∙ stops

stuck_cases : (d : Drawer) → d.sending ≡ true → Holds (core d) → LogsIn d ⊎ Streams d
stuck_cases d busy (h, free a b c o) = ground (arith, busy, a)
stuck_cases d busy (h, logs_in a b n e) =
    let k = d.send_seq in
    let won = own_login k true d h b in
    inl (
      b,
      ap (λ s. s.sending) (own_login k false d h b),
      ap (λ s. s.sse_abort) won ∙ ap some (sym (ap (λ s. s.send_seq) won)),
      ap (λ s. s.live) won,
    )
stuck_cases d busy (h, streams a b n e l) = inr (
  e,
  l,
  releasing on_close d h n refl,
  (λ q. releasing (on_error q) d h n refl),
  (λ text. releasing (on_message text true) d h n refl),
  aborting d (core (hide d)) (core-hide d) h e l,
  aborting d (core (close d)) (core-close d) h e l,
)

-- Whatever happens to a drawer on its page, in any order, with old streams that still call back and
-- logins that end late, the lock of sending is never held without something that releases it:
-- while it is held, either the last send waits for its login, which releases it if it fails and opens
-- the stream if it does not; or the stream of the last send is open, and its end, its error, its last
-- message, hiding the page and closing the drawer all release it.
pub run_drawer_never_stuck :
    (es : List Event)
    → stays es ≡ true
    → let d = run_drawer attached_drawer es in d.sending ≡ true → LogsIn d ⊎ Streams d
run_drawer_never_stuck es q busy =
    stuck_cases (run_drawer attached_drawer es) busy
      (run_drawer-Holds es attached_drawer q (refl, free refl refl (omega arith) tt))
