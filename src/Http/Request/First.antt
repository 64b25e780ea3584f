-- ===== src/Http/Request/First.antt =====
-- http.ts: which signal settles a request that can be cancelled.
use Prim.Native.String.{String}
use pathmemos.Base.{
  ℕ, ◌≡◌, refl, ◌∙◌, ap, Bool, true, false, ◌||◌, ◌&&◌, Option, none, some, List, [], ◌∷◌, ◌++◌,
  ◌==◌, arith, if◌then◌else◌, Bool-cases, inl, inr,
}
use pathmemos.Http.Token.{Token, cancel, add_abort, remove_abort, remove_first, mem}
use pathmemos.Http.Toast.{Payload, Client}
use pathmemos.Http.Request.{
  Options, Reply, rejects, request_abort, network, Flight, respond, settle, on_success, on_fail,
  on_abort, on_cancel, start_request,
}

pub data Signal : Type 0 where
  succeeds : (now status : ℕ) → Payload → Signal
  fails : (is_abort : Bool) → String → Signal
  cancels : Signal

abbrev pub is_cancel : Signal → Bool
is_cancel (succeeds now status body) = false
is_cancel (fails is_abort err_msg) = false
is_cancel cancels = true

abbrev pub react : Options → Signal → Flight → Flight
react o (succeeds now status body) f = on_success o now status body f
react o (fails is_abort err_msg) f = on_fail is_abort err_msg f
react o cancels f = on_cancel f

abbrev pub run_request : Options → List Signal → Flight → Flight
run_request o [] f = f
run_request o (s ∷ ss) f = run_request o ss (react o s f)

-- What the first signal alone says of the client and of the promise.
abbrev pub answer : Options → Signal → Client → Client × Reply
answer o (succeeds now status body) c = respond o now status body c
answer o (fails is_abort err_msg) c =
    (c, rejects (if is_abort then request_abort else network err_msg))
answer o cancels c = (c, rejects request_abort)

-- After a cancelling the platform may still report; after a report only cancelling may follow.
abbrev pub follows : (cancelled : Bool) → List Signal → Bool
follows cancelled [] = true
follows cancelled (s ∷ ss) = (cancelled || is_cancel s) && follows cancelled ss

abbrev outcome : Flight → Client × (Option Reply × Bool)
outcome f = (f.client, (f.reply, f.task_aborted))

abbrev flight :
    ℕ → (cancelled : Bool) → List ℕ → (aborted task_aborted : Bool) → Option Reply → Client → Flight
flight me cancelled fns aborted task_aborted r c = record {
  me = me;
  token = some (record { cancelled = cancelled; abort_fns = fns });
  aborted = aborted;
  task_aborted = task_aborted;
  reply = r;
  client = c;
}

cancel-other :
    (me : ℕ) (fns : List ℕ) (ab ta : Bool) (r : Option Reply) (c : Client)
    → mem me fns ≡ false
    → on_cancel (flight me false fns ab ta r c) ≡ flight me true [] ab ta r c
unfolding on_cancel cancel
cancel-other me fns ab ta r c h =
    ap (λ b. if b then on_abort (flight me true [] ab ta r c) else flight me true [] ab ta r c) h

cancel-own :
    (me : ℕ) (fns : List ℕ) (c : Client)
    → mem me fns ≡ true
    → on_cancel (flight me false fns false false none c)
      ≡ flight me true [] true true (some (rejects request_abort)) c
unfolding on_cancel cancel on_abort
cancel-own me fns c h =
    ap
      (λ b.
        if b
        then on_abort (flight me true [] false false none c)
        else flight me true [] false false none c)
      h

-- A request that is not on its token's list keeps its outcome.
run_request-unlisted :
    (o : Options) (later : List Signal) (me : ℕ) (cancelled : Bool) (fns : List ℕ) (ab ta : Bool)
    (r : Reply) (c : Client)
    → mem me fns ≡ false
    → follows ab later ≡ true
    → outcome (run_request o later (flight me cancelled fns ab ta (some r) c)) ≡ (c, (some r, ta))
unfolding on_cancel cancel on_success on_fail
run_request-unlisted o [] me cancelled fns ab ta r c h q = refl
run_request-unlisted o (succeeds now status body ∷ later) me cancelled fns true ta r c h q =
    run_request-unlisted o later me cancelled fns true ta r c h q
run_request-unlisted o (succeeds now status body ∷ later) me cancelled fns false ta r c h q =
    ground arith
run_request-unlisted o (fails a e ∷ later) me cancelled fns true ta r c h q =
    run_request-unlisted o later me cancelled fns true ta r c h q
run_request-unlisted o (fails a e ∷ later) me cancelled fns false ta r c h q = ground arith
run_request-unlisted o (cancels ∷ later) me true fns ab ta r c h q =
    run_request-unlisted o later me true fns ab ta r c h (ground (arith, q))
run_request-unlisted o (cancels ∷ later) me false fns ab ta r c h q =
    ap (λ f. outcome (run_request o later f)) (cancel-other me fns ab ta (some r) c h)
    ∙ run_request-unlisted o later me true [] ab ta r c refl (ground (arith, q))

mem-add : (me : ℕ) (fns : List ℕ) → mem me (fns ++ me ∷ []) ≡ true
mem-add me [] = ground arith
mem-add me (f ∷ fns) = let ih = mem-add me fns in ground (arith, ih)

remove_first-add :
    (me : ℕ) (fns : List ℕ) → mem me fns ≡ false → remove_first me (fns ++ me ∷ []) ≡ fns
remove_first-add me [] h = ground arith
remove_first-add me (f ∷ fns) h = elim (Bool-cases (me == f)) [
  | inl e ↦ ground (arith, e, h)
  | inr e ↦ let ih = remove_first-add me fns (ground (arith, e, h)) in ground (arith, e, ih)
]

-- A report takes the request off its token's list.
settle-listed :
    (me : ℕ) (fns : List ℕ) (r : Reply) (c : Client)
    → mem me fns ≡ false
    → settle r (flight me false (fns ++ me ∷ []) false false none c)
      ≡ flight me false fns false false (some r) c
unfolding settle remove_abort
settle-listed me fns r c h =
    ap (λ l. flight me false l false false (some r) c) (remove_first-add me fns h)

first_answer : Options → Signal → Client → Client × (Option Reply × Bool)
first_answer o s c = let (c', r) = answer o s c in (c', (some r, is_cancel s))

listed_answer :
    (o : Options) (me : ℕ) (fns : List ℕ) (c : Client) (s : Signal) (later : List Signal)
    → mem me fns ≡ false
    → follows (is_cancel s) later ≡ true
    → outcome
        (run_request o later (react o s (flight me false (fns ++ me ∷ []) false false none c)))
      ≡ first_answer o s c
unfolding first_answer on_success on_fail
listed_answer o me fns c (succeeds now status body) later h q =
    ap (λ f. outcome (run_request o later f))
      (settle-listed me fns ((respond o now status body c).1) ((respond o now status body c).0) h)
    ∙ run_request-unlisted o later me false fns false false ((respond o now status body c).1)
        ((respond o now status body c).0) h q
listed_answer o me fns c (fails a e) later h q =
    let r = rejects (if a then request_abort else network e) in
    ap (λ f. outcome (run_request o later f)) (settle-listed me fns r c h)
    ∙ run_request-unlisted o later me false fns false false r c h q
listed_answer o me fns c cancels later h q =
    ap (λ f. outcome (run_request o later f)) (cancel-own me (fns ++ me ∷ []) c (mem-add me fns))
    ∙ run_request-unlisted o later me true [] true true (rejects request_abort) c refl q

start_request-fresh :
    (me : ℕ) (cancelled : Bool) (fns : List ℕ) (c : Client)
    → cancelled ≡ false
    → start_request me (some (record { cancelled = cancelled; abort_fns = fns })) c
      ≡ flight me false (fns ++ me ∷ []) false false none c
unfolding start_request add_abort
start_request-fresh me false fns c h = refl
start_request-fresh me true fns c h = ground arith

-- The first signal of a request with a fresh token settles it: it alone decides how the promise is
-- settled and what becomes of the session, the toasts and the mask, and the task is aborted just if
-- it is a cancelling. What follows changes nothing of these, be it cancellings or, after a
-- cancelling, late reports of the platform.
pub request_first :
    (o : Options) (me : ℕ) (t : Token) (c : Client) (s : Signal) (later : List Signal)
    → t.cancelled ≡ false
    → mem me t.abort_fns ≡ false
    → follows (is_cancel s) later ≡ true
    → let f = run_request o later (react o s (start_request me (some t) c)) in
      let (c', r) = answer o s c in
      (f.client ≡ c') × ((f.reply ≡ some r) × (f.task_aborted ≡ is_cancel s))
unfolding first_answer
request_first o me t c s later fresh unlisted q =
    let e =
      ap (λ f. outcome (run_request o later (react o s f)))
        (start_request-fresh me t.cancelled t.abort_fns c fresh)
      ∙ listed_answer o me t.abort_fns c s later unlisted q in
    (ap (λ p. p.0) e, (ap (λ p. p.1.0) e, ap (λ p. p.1.1) e))
