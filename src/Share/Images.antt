-- ===== src/Share/Images.antt =====
-- shareCanvas.ts: which images a shared picture shows, and with which record.
use pathmemos.Base.{
  ℕ, zero, suc, ◌+◌, ◌-◌, ◌≡◌, refl, sym, ◌∙◌, ap, inl, inr, min, false, Option, List, [], ◌∷◌,
  ◌++◌, append_assoc, map, leb, arith, if◌then◌else◌, Bool-cases, length, take, drop, length-append,
  length-take,
}
use pathmemos.Share.{
  max_record_count, max_total_images, limit, limited, concat, slices, load_all_images,
}

module _ {A : Type 0} where
  take-append :
      (n : ℕ) (xs ys : List A) → take n (xs ++ ys) ≡ take n xs ++ take (n - length (take n xs)) ys
  take-append zero xs ys = refl
  take-append (suc n) [] ys = ap (λ k. take k ys) (whole n)
    where
      whole : (n : ℕ) → suc n ≡ suc n - 0
      whole n = omega arith
  take-append (suc n) (x ∷ xs) ys =
      ap (λ l. x ∷ l)
        (take-append n xs ys ∙ ap (λ k. take n xs ++ take k ys) (less n (length (take n xs))))
    where
      less : (n k : ℕ) → n - k ≡ suc n - suc k
      less n k = omega arith

  -- Cut to the budget, the images are the first ones of all.
  concat-limit :
      (budget : ℕ) (records : List (List A))
      → concat (limit budget records) ≡ take budget (concat records)
  concat-limit zero [] = refl
  concat-limit (suc n) [] = refl
  concat-limit zero (images ∷ records) = concat-limit zero records
  concat-limit (suc n) (images ∷ records) =
      let budget = suc n in
      let kept = take budget images in
      ap
        (λ b.
          concat
            (if b then [] ∷ limit budget records else kept ∷ limit (budget - length kept) records))
        (positive n)
      ∙ ap (λ l. kept ++ l) (concat-limit (budget - length kept) records)
      ∙ sym (take-append budget images (concat records))
    where
      positive : (n : ℕ) → leb (suc n) 0 ≡ false
      positive n = ground arith

  length-limit :
      (budget : ℕ) (records : List (List A)) → length (limit budget records) ≡ length records
  length-limit budget [] = refl
  length-limit budget (images ∷ records) = elim (Bool-cases (leb budget 0)) [
    | inl e ↦ let ih = length-limit budget records in ground (arith, e, ih)
    | inr e ↦
        let ih = length-limit (budget - length (take budget images)) records in
        ground (arith, e, ih)
  ]

module _ {A B : Type 0} (f : A → B) where
  map-append : (xs ys : List A) → map f (xs ++ ys) ≡ map f xs ++ map f ys
  map-append [] ys = refl
  map-append (x ∷ xs) ys = ap (λ l. f x ∷ l) (map-append xs ys)

  length-map : (xs : List A) → length (map f xs) ≡ length xs
  length-map [] = refl
  length-map (x ∷ xs) = ap suc (length-map xs)

module _ {B : Type 0} where
  drop-length : (xs ys : List B) → drop (length xs) (xs ++ ys) ≡ ys
  drop-length [] ys = refl
  drop-length (x ∷ xs) ys = drop-length xs ys

  take-length : (xs ys : List B) → take (length xs) (xs ++ ys) ≡ xs
  take-length [] ys = refl
  take-length (x ∷ xs) ys = ap (λ l. x ∷ l) (take-length xs ys)

module _ {A B : Type 0} (f : A → B) where
  -- Behind what was loaded for earlier records.
  slices-map :
      (before : List B) (records : List (List A))
      → slices (length before) records (before ++ map f (concat records)) ≡ map (map f) records
  slices-map before [] = refl
  slices-map before (images ∷ records) =
      let loaded = map f images in
      let rest = map f (concat records) in
      let split = map-append f images (concat records) in
      let first =
        ap (λ l. take (length images) (drop (length before) (before ++ l))) split
        ∙ ap (take (length images)) (drop-length before (loaded ++ rest))
        ∙ ap (λ n. take n (loaded ++ rest)) (sym (length-map f images))
        ∙ take-length loaded rest in
      let offset =
        ap (λ n. length before + n) (sym (length-map f images))
        ∙ sym (length-append before loaded) in
      let later =
        ap (λ l. slices (length before + length images) records (before ++ l)) split
        ∙ ap (λ l. slices (length before + length images) records l)
            (sym (append_assoc before loaded rest))
        ∙ ap (λ n. slices n records (before ++ loaded ++ rest)) offset
        ∙ slices-map (before ++ loaded) records in
      ap
        (λ l.
          l
          ∷ slices (length before + length images) records
              (before ++ map f (concat (images ∷ records))))
        first
      ∙ ap (λ l. loaded ∷ l) later

-- A shared picture shows the first fifty records, in order, with the first 150 of all their images,
-- and each image with its own record at its own place, also where some fail to load.
pub load_all_images-limited :
    {A B : Type 0} (load : A → Option B) (records : List (List A))
    → let kept = limited records in
      (load_all_images load kept ≡ map (map load) kept)
      × (concat kept ≡ take max_total_images (concat (take max_record_count records)))
      × (length kept ≡ min max_record_count (length records))
unfolding limited load_all_images
load_all_images-limited load records =
    let first = take max_record_count records in
    (
      slices-map load [] (limit max_total_images first),
      concat-limit max_total_images first,
      length-limit max_total_images first ∙ length-take max_record_count records,
    )
