-- ===== src/SetData/Keeping.antt =====
-- safeSetData.ts: what a component will show, and that each of its methods keeps it.
use pathmemos.Base.{
  ◌≡◌, refl, sym, ◌∙◌, ap, subst, inl, inr, true, false, none, some, List, arith, Bool-cases,
  Option-cases,
}
use pathmemos.SetData.{
  DataPath, Tree, Entries, View, write, assign, entries_of, set_data, is_alive,
  apply_pending_set_data, safe_set_data, hide, show,
}
use pathmemos.SetData.Objects.{IsObject, uses, write-assign}
use pathmemos.SetData.Keys.{are_apart}

module _ {V : Type 0} where
  -- What the component will show.
  abbrev pub seen : View V → Tree V
  seen v = write (entries_of v.pending_set_data) v.view_data

  pub record Lives (keys : List DataPath) (v : View V) : Type 0 where
    pub destroyed : v.is_destroyed ≡ some false
    pub detached : v.is_detached ≡ false
    pub pending : IsObject (entries_of v.pending_set_data)
    pub known : uses keys (entries_of v.pending_set_data) ≡ true
    pub shown : v.is_hidden ≡ false → v.pending_set_data ≡ none

  -- It lives on, and will show `f`.
  abbrev pub Keeps : List DataPath → Tree V → View V → Type 0
  Keeps keys f t = Lives keys t × (seen t ≡ f)

  show-none : (v : View V) → v.pending_set_data ≡ none → show v ≡ record v { is_hidden = false }
  unfolding show apply_pending_set_data
  show-none v e = ground arith

  show-some :
      (v : View V) (entries : Entries V)
      → v.pending_set_data ≡ some entries
      → show v ≡ record v {
        view_data = write entries v.view_data;
        pending_set_data = none;
        is_hidden = false;
      }
  unfolding show apply_pending_set_data set_data
  show-some v entries e = ground arith

  pub show-shown : (v : View V) → (show v).is_hidden ≡ false
  unfolding show apply_pending_set_data set_data
  show-shown v = ground arith

  pub show-Keeps : (keys : List DataPath) (v : View V) → Lives keys v → Keeps keys (seen v) (show v)
  show-Keeps keys v h = elim (Option-cases v.pending_set_data) [
    | inl e ↦ subst (Keeps keys (seen v)) (sym (show-none v e)) (
      record {
        destroyed = h.destroyed;
        detached = h.detached;
        pending = h.pending;
        known = h.known;
        shown = λ _. e;
      },
      refl,
    )
    | inr (entries, e) ↦ subst (Keeps keys (seen v)) (sym (show-some v entries e)) (
      record {
        destroyed = h.destroyed;
        detached = h.detached;
        pending = tt;
        known = refl;
        shown = λ _. refl;
      },
      ap (λ p. write (entries_of p) v.view_data) (sym e),
    )
  ]

  safe_set_data-hidden :
      (keys : List DataPath) (entries : Entries V) (v : View V)
      → Lives keys v
      → v.is_hidden ≡ true
      → safe_set_data entries v
        ≡ record v { pending_set_data = some (assign (entries_of v.pending_set_data) entries) }
  unfolding safe_set_data is_alive
  safe_set_data-hidden keys entries v h e = ground (arith, h.destroyed, h.detached)

  safe_set_data-shown :
      (keys : List DataPath) (entries : Entries V) (v : View V)
      → Lives keys v
      → v.is_hidden ≡ false
      → safe_set_data entries v ≡ record v { view_data = write entries v.view_data }
  unfolding safe_set_data is_alive set_data
  safe_set_data-shown keys entries v h e = ground (arith, h.destroyed, h.detached)

  pub hide-Keeps : (keys : List DataPath) (v : View V) → Lives keys v → Keeps keys (seen v) (hide v)
  unfolding hide
  hide-Keeps keys v h = (
    record {
      destroyed = h.destroyed;
      detached = h.detached;
      pending = h.pending;
      known = h.known;
      shown = λ e. absurd (ground (arith, e));
    },
    refl,
  )

  nothing_waits :
      (v : View V) (entries : Entries V)
      → v.pending_set_data ≡ none
      → write (entries_of v.pending_set_data) (write entries v.view_data)
        ≡ write entries (write (entries_of v.pending_set_data) v.view_data)
  nothing_waits v entries e =
      ap (λ p. write (entries_of p) (write entries v.view_data)) e
      ∙ sym (ap (λ p. write entries (write (entries_of p) v.view_data)) e)

  module _ (keys : List DataPath) (a : are_apart keys ≡ true) where
    pub safe_set_data-Keeps :
        (entries : Entries V) (v : View V)
        → uses keys entries ≡ true
        → Lives keys v
        → Keeps keys (write entries (seen v)) (safe_set_data entries v)
    safe_set_data-Keeps entries v w h = elim (Bool-cases v.is_hidden) [
      | inl e ↦
          let (merged, object, known) =
            write-assign keys a (entries_of v.pending_set_data) entries v.view_data h.known w
              h.pending in
          subst (Keeps keys (write entries (seen v)))
            (sym (safe_set_data-hidden keys entries v h e))
            (
              record {
                destroyed = h.destroyed;
                detached = h.detached;
                pending = object;
                known = known;
                shown = λ e'. absurd (ground (arith, e, e'));
              },
              merged,
            )
      | inr e ↦
          subst (Keeps keys (write entries (seen v))) (sym (safe_set_data-shown keys entries v h e))
            (
              record {
                destroyed = h.destroyed;
                detached = h.detached;
                pending = h.pending;
                known = h.known;
                shown = λ _. h.shown e;
              },
              nothing_waits v entries (h.shown e),
            )
    ]
