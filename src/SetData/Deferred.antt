-- ===== src/SetData/Deferred.antt =====
-- safeSetData.ts: what a component that is hidden now and then shows in the end.
use pathmemos.Base.{
  Bool, ◌&&◌, ◌≡◌, refl, sym, ◌∙◌, ap, subst, true, false, none, some, List, [], ◌∷◌, arith,
}
use pathmemos.SetData.{DataPath, Tree, Entries, View, write, entries_of, safe_set_data, hide, show}
use pathmemos.SetData.Objects.{IsObject, uses}
use pathmemos.SetData.Keys.{are_apart}
use pathmemos.SetData.Keeping.{
  seen, Lives, Keeps, show-Keeps, hide-Keeps, show-shown, safe_set_data-Keeps,
}

pub data Op (V : Type 0) : Type 0 where
  writes : Entries V → Op V
  hides shows : Op V

module _ {V : Type 0} where
  abbrev pub react : Op V → View V → View V
  react (writes entries) v = safe_set_data entries v
  react hides v = hide v
  react shows v = show v

  abbrev pub run_view : View V → List (Op V) → View V
  run_view v [] = v
  run_view v (op ∷ ops) = run_view (react op v) ops

  -- The same history on a component that is never hidden.
  abbrev pub written : List (Op V) → Tree V → Tree V
  written [] f = f
  written (writes entries ∷ ops) f = written ops (write entries f)
  written (hides ∷ ops) f = written ops f
  written (shows ∷ ops) f = written ops f

  -- The history writes no keys but the given ones.
  abbrev pub all_use : List DataPath → List (Op V) → Bool
  all_use keys [] = true
  all_use keys (writes entries ∷ ops) = uses keys entries && all_use keys ops
  all_use keys (hides ∷ ops) = all_use keys ops
  all_use keys (shows ∷ ops) = all_use keys ops

  module _ (keys : List DataPath) (a : are_apart keys ≡ true) where
    run_view-Keeps :
        (ops : List (Op V)) (v : View V)
        → all_use keys ops ≡ true
        → Lives keys v
        → Keeps keys (written ops (seen v)) (run_view v ops)
    run_view-Keeps [] v u h = (h, refl)
    run_view-Keeps (writes entries ∷ ops) v u h =
        let (h', e) = safe_set_data-Keeps keys a entries v (ground (arith, u)) h in
        let (h'', e') = run_view-Keeps ops (safe_set_data entries v) (ground (arith, u)) h' in
        (h'', e' ∙ ap (written ops) e)
    run_view-Keeps (hides ∷ ops) v u h =
        let (h', e) = hide-Keeps keys v h in
        let (h'', e') = run_view-Keeps ops (hide v) u h' in (h'', e' ∙ ap (written ops) e)
    run_view-Keeps (shows ∷ ops) v u h =
        let (h', e) = show-Keeps keys v h in
        let (h'', e') = run_view-Keeps ops (show v) u h' in (h'', e' ∙ ap (written ops) e)

  -- For a history of writes, of hiding and of showing whose keys are pairwise equal or apart, which
  -- is that none lies below another, and a component that lives, and at first has nothing that waits
  -- to be written: it shows after the history exactly what it would show had it never been hidden,
  -- once it is shown again; and at any time at which it is not hidden.
  pub run_view_refines :
      (keys : List DataPath) (v : View V) (ops : List (Op V))
      → are_apart keys ≡ true
      → all_use keys ops ≡ true
      → v.is_destroyed ≡ some false
      → v.is_detached ≡ false
      → v.pending_set_data ≡ none
      → let t = run_view v ops in
        ((show t).view_data ≡ written ops v.view_data)
        × (t.is_hidden ≡ false → t.view_data ≡ written ops v.view_data)
  run_view_refines keys v ops apart use_keys d a p =
      let waits = ap (λ p'. written ops (write (entries_of p') v.view_data)) p in
      let lives : Lives keys v = record {
        destroyed = d;
        detached = a;
        pending = nothing p;
        known = ap (λ p'. uses keys (entries_of p')) p;
        shown = λ _. p;
      } in
      let t : View V = run_view v ops in
      let (h, e) = run_view-Keeps keys apart ops v use_keys lives in
      let (h', e') = show-Keeps keys t h in
      (
        settled (show t) (h'.shown (not_hidden t)) ∙ e' ∙ e ∙ waits,
        λ s. settled t (h.shown s) ∙ e ∙ waits,
      )
    where
      nothing : v.pending_set_data ≡ none → IsObject (entries_of v.pending_set_data)
      nothing e = subst (λ p'. IsObject (entries_of p')) (sym e) tt

      settled : (t : View V) → t.pending_set_data ≡ none → t.view_data ≡ seen t
      settled t e = sym (ap (λ p'. write (entries_of p') t.view_data) e)

      not_hidden : (t : View V) → (show t).is_hidden ≡ false
      not_hidden t = show-shown t
