-- ===== src/SetData/Keys.antt =====
-- safeSetData.ts: data paths, of which one may lie below another.
use pathmemos.Base.{
  ◌≡◌, refl, sym, ◌∙◌, ap, subst, ◌⊎◌, inl, inr, Bool, true, false, ◌&&◌, ◌||◌, none, List, [], ◌∷◌,
  ◌==◌, if◌then◌else◌, arith, Bool-cases,
}
use pathmemos.SetData.{DataPath, below, same_path}

-- Neither path lies at the other or below it.
abbrev pub apart : DataPath → DataPath → Bool
apart [] k = false
apart (a ∷ j) [] = false
apart (a ∷ j) (b ∷ k) = if a == b then apart j k else true

abbrev pub apart_from : DataPath → List DataPath → Bool
apart_from j [] = true
apart_from j (k ∷ keys) = apart j k && apart_from j keys

-- The keys are pairwise apart.
abbrev pub are_apart : List DataPath → Bool
are_apart [] = true
are_apart (k ∷ keys) = apart_from k keys && are_apart keys

abbrev pub member : DataPath → List DataPath → Bool
member k [] = false
member k (j ∷ keys) = same_path j k || member k keys

pub same_path_sound : (j k : DataPath) → same_path j k ≡ true → j ≡ k
same_path_sound [] [] h = refl
same_path_sound [] (b ∷ k) h = absurd (ground (arith, h))
same_path_sound (a ∷ j) [] h = absurd (ground (arith, h))
same_path_sound (a ∷ j) (b ∷ k) h = ground (arith, h, same_path_sound j k)

same_path_refl : (k : DataPath) → same_path k k ≡ true
same_path_refl [] = refl
same_path_refl (a ∷ k) = ground (arith, same_path_refl k)

pub apart_comm : (j k : DataPath) → apart j k ≡ apart k j
apart_comm [] [] = refl
apart_comm [] (b ∷ k) = refl
apart_comm (a ∷ j) [] = refl
apart_comm (a ∷ j) (b ∷ k) = ground (arith, apart_comm j k)

-- No path lies below two keys that are apart.
pub apart-below :
    (j k path : DataPath) → apart j k ≡ true → (below j path ≡ none) ⊎ (below k path ≡ none)
apart-below [] k path h = absurd (ground (arith, h))
apart-below (a ∷ j) [] path h = absurd (ground (arith, h))
apart-below (a ∷ j) (b ∷ k) [] h = inl refl
apart-below (a ∷ j) (b ∷ k) (c ∷ path) h = ground (arith, h, apart-below j k path)

apart_from-member :
    (j k : DataPath) (keys : List DataPath)
    → apart_from j keys ≡ true
    → member k keys ≡ true
    → apart j k ≡ true
apart_from-member j k [] h m = absurd (ground (arith, m))
apart_from-member j k (i ∷ keys) h m = elim (Bool-cases (same_path i k)) [
  | inl e ↦ subst (λ i'. apart j i' ≡ true) (same_path_sound i k e) (ground (arith, h))
  | inr e ↦ apart_from-member j k keys (ground (arith, h)) (ground (arith, m, e))
]

pub keys_apart :
    (keys : List DataPath) (j k : DataPath)
    → are_apart keys ≡ true
    → member j keys ≡ true
    → member k keys ≡ true
    → same_path j k ≡ false
    → apart j k ≡ true
keys_apart [] j k h m n d = absurd (ground (arith, m))
keys_apart (i ∷ keys) j k h m n d = elim (Bool-cases (same_path i j)) [
  | inl e ↦ elim (Bool-cases (same_path i k)) [
    | inl e' ↦ absurd (distinct (sym (same_path_sound i j e) ∙ same_path_sound i k e'))
    | inr e' ↦
        subst (λ i'. apart i' k ≡ true) (same_path_sound i j e)
          (apart_from-member i k keys (ground (arith, h)) (ground (arith, n, e')))
  ]
  | inr e ↦ elim (Bool-cases (same_path i k)) [
    | inl e' ↦
        apart_comm j k
        ∙ subst (λ i'. apart i' j ≡ true) (same_path_sound i k e')
            (apart_from-member i j keys (ground (arith, h)) (ground (arith, m, e)))
    | inr e' ↦
        keys_apart keys j k (ground (arith, h)) (ground (arith, m, e)) (ground (arith, n, e')) d
  ]
]
  where
    distinct : j ≡ k → ⊥
    distinct e = ground (arith, d, same_path_refl j, ap (same_path j) e)
