-- ===== src/SetData/Objects.antt =====
-- safeSetData.ts: entries that wait are merged as they would be written, if no key lies below another.
use pathmemos.Base.{
  ◌≡◌, refl, sym, ◌∙◌, ap, fun_ext, inl, inr, Bool, true, ◌&&◌, List, [], ◌∷◌, arith, Bool-cases,
}
use pathmemos.SetData.{DataPath, Tree, Entries, same_path, update, write, assign_entry, assign}
use pathmemos.SetData.Keys.{
  apart, are_apart, member, same_path_sound, apart_comm, apart-below, keys_apart,
}

module _ {V : Type 0} where
  abbrev Absent : DataPath → Entries V → Type 0
  Absent k [] = Unit
  Absent k ((j, y) ∷ entries) = (apart j k ≡ true) × Absent k entries

  -- The keys of an object are apart.
  abbrev pub IsObject : Entries V → Type 0
  IsObject [] = Unit
  IsObject ((k, x) ∷ entries) = Absent k entries × IsObject entries

  -- Its keys are among the given ones.
  abbrev pub uses : List DataPath → Entries V → Bool
  uses keys [] = true
  uses keys ((k, x) ∷ entries) = member k keys && uses keys entries

  update_comm :
      (f : Tree V) (j k : DataPath) (x y : Tree V)
      → apart j k ≡ true
      → update (update f k x) j y ≡ update (update f j y) k x
  update_comm f j k x y e =
      fun_ext
        λ i. elim (apart-below j k i e) [ inl n ↦ ground (arith, n) | inr n ↦ ground (arith, n) ]

  update-update :
      (f : Tree V) (k : DataPath) (x y : Tree V) → update (update f k y) k x ≡ update f k x
  update-update f k x y = fun_ext λ i. ground arith

  write-update :
      (entries : Entries V) (f : Tree V) (k : DataPath) (x : Tree V)
      → Absent k entries
      → write entries (update f k x) ≡ update (write entries f) k x
  write-update [] f k x h = refl
  write-update ((j, y) ∷ entries) f k x h =
      ap (write entries) (update_comm f j k x y h.0) ∙ write-update entries (update f j y) k x h.1

  write-assign_entry :
      (entries : Entries V) (f : Tree V) (k : DataPath) (x : Tree V)
      → IsObject entries
      → write (assign_entry k x entries) f ≡ update (write entries f) k x
  write-assign_entry [] f k x h = refl
  write-assign_entry ((j, y) ∷ entries) f k x h = elim (Bool-cases (same_path j k)) [
    | inl e ↦ rw e (
        write-update entries f j x h.0
        ∙ sym (update-update (write entries f) j x y)
        ∙ ap (λ g. update g j x) (sym (write-update entries f j y h.0))
        ∙ ap (λ j'. update (write entries (update f j y)) j' x) (same_path_sound j k e))
    | inr e ↦ rw e (write-assign_entry entries (update f j y) k x h.1)
  ]

  Absent-assign_entry :
      (entries : Entries V) (j k : DataPath) (x : Tree V)
      → apart k j ≡ true
      → Absent j entries
      → Absent j (assign_entry k x entries)
  Absent-assign_entry [] j k x e h = (e, tt)
  Absent-assign_entry ((i, y) ∷ entries) j k x e h = elim (Bool-cases (same_path i k)) [
    | inl s ↦ rw s h
    | inr s ↦ rw s (h.0, Absent-assign_entry entries j k x e h.1)
  ]

  assign_entry-uses :
      (keys : List DataPath) (entries : Entries V) (k : DataPath) (x : Tree V)
      → member k keys ≡ true
      → uses keys entries ≡ true
      → uses keys (assign_entry k x entries) ≡ true
  assign_entry-uses keys [] k x m h = ground (arith, m)
  assign_entry-uses keys ((j, y) ∷ entries) k x m h =
      ground (arith, h, assign_entry-uses keys entries k x m)

  module _ (keys : List DataPath) (a : are_apart keys ≡ true) where
    assign_entry-IsObject :
        (entries : Entries V) (k : DataPath) (x : Tree V)
        → member k keys ≡ true
        → uses keys entries ≡ true
        → IsObject entries
        → IsObject (assign_entry k x entries)
    assign_entry-IsObject [] k x m u h = (tt, tt)
    assign_entry-IsObject ((j, y) ∷ entries) k x m u h = elim (Bool-cases (same_path j k)) [
      | inl s ↦ rw s h
      | inr s ↦ rw s (
        Absent-assign_entry entries j k x
            (apart_comm k j ∙ keys_apart keys j k a (ground (arith, u)) m s) h.0,
        assign_entry-IsObject entries k x m (ground (arith, u)) h.1,
      )
    ]

    -- Merged entries write what the two objects write, one after the other, and are an object again.
    pub write-assign :
        (target source : Entries V) (f : Tree V)
        → uses keys target ≡ true
        → uses keys source ≡ true
        → IsObject target
        → (write (assign target source) f ≡ write source (write target f))
          × IsObject (assign target source)
          × (uses keys (assign target source) ≡ true)
    write-assign target [] f u w h = (refl, h, u)
    write-assign target ((k, x) ∷ source) f u w h =
        let m : member k keys ≡ true = ground (arith, w) in
        let (e, o, r) =
          write-assign (assign_entry k x target) source f (assign_entry-uses keys target k x m u)
            (ground (arith, w)) (assign_entry-IsObject target k x m u h) in
        (e ∙ ap (write source) (write-assign_entry target f k x h), o, r)
