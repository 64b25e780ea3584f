-- ===== src/NoteDetail/Entries.antt =====
-- NoteDetail.ts: lists of entries that grow at their end.
use pathmemos.Base.{
  ℕ, zero, suc, ◌≤◌, ◌≡◌, refl, sym, ◌∙◌, ap, subst, inl, inr, Bool, true, false, not, ◌&&◌, ◌||◌,
  Option, none, some, List, [], ◌∷◌, ◌++◌, append_assoc, append-nil, ltb, arith, if◌then◌else◌,
  Bool-cases, length, take, length-take,
}
use pathmemos.NoteDetail.{Entry, same_id, seen, append_unseen, max_full_list}

-- No two entries have the same id.
abbrev pub distinct : List Entry → Bool
distinct [] = true
distinct (e ∷ es) = not (seen e.id es) && distinct es

same_id_sym : (i j : Option ℕ) → same_id i j ≡ same_id j i
same_id_sym none none = refl
same_id_sym none (some j) = refl
same_id_sym (some i) none = refl
same_id_sym (some i) (some j) = ground arith

seen-append : (i : Option ℕ) (es fs : List Entry) → seen i (es ++ fs) ≡ (seen i es || seen i fs)
seen-append i [] fs = refl
seen-append i (e ∷ es) fs = let ih = seen-append i es fs in ground (arith, ih)

distinct-snoc :
    (es : List Entry) (e : Entry)
    → distinct es ≡ true
    → seen e.id es ≡ false
    → distinct (es ++ e ∷ []) ≡ true
distinct-snoc [] e d s = refl
distinct-snoc (x ∷ xs) e d s =
    let ih = distinct-snoc xs e (ground (arith, d)) (ground (arith, s)) in
    let split = seen-append x.id xs (e ∷ []) in
    let flip = same_id_sym x.id e.id in ground (arith, d, s, ih, split, flip)

pub append_unseen-distinct :
    (es l : List Entry) → distinct l ≡ true → distinct (append_unseen l es) ≡ true
append_unseen-distinct [] l d = d
append_unseen-distinct (e ∷ es) l d = elim (Bool-cases (seen e.id l)) [
  | inl s ↦ let ih = append_unseen-distinct es l d in ground (arith, s, ih)
  | inr s ↦
      let ih = append_unseen-distinct es (l ++ e ∷ []) (distinct-snoc l e d s) in
      ground (arith, s, ih)
]

seen-take :
    (i : Option ℕ) (n : ℕ) (es : List Entry) → seen i es ≡ false → seen i (take n es) ≡ false
seen-take i zero es s = refl
seen-take i (suc n) [] s = refl
seen-take i (suc n) (e ∷ es) s =
    let ih = seen-take i n es (ground (arith, s)) in ground (arith, s, ih)

distinct-take : (n : ℕ) (es : List Entry) → distinct es ≡ true → distinct (take n es) ≡ true
distinct-take zero es d = refl
distinct-take (suc n) [] d = refl
distinct-take (suc n) (e ∷ es) d =
    let ih = distinct-take n es (ground (arith, d)) in
    let s = seen-take e.id n es (ground (arith, d)) in ground (arith, s, ih)

pub take-append_unseen : (es l : List Entry) → take (length l) (append_unseen l es) ≡ l
take-append_unseen es l = prefix es l [] (sym (append-nil l))
  where
    all : (l ms : List Entry) → take (length l) (l ++ ms) ≡ l
    all [] ms = refl
    all (x ∷ l) ms = ap (λ t. x ∷ t) (all l ms)

    go :
        (es l before more : List Entry)
        → l ≡ before ++ more
        → take (length before) (append_unseen l es) ≡ before
    go [] l before more h = ap (take (length before)) h ∙ all before more
    go (e ∷ es) l before more h = elim (Bool-cases (seen e.id l)) [
      | inl s ↦
          ap
            (λ b.
              take (length before)
                (if b then append_unseen l es else append_unseen (l ++ e ∷ []) es))
            s
          ∙ go es l before more h
      | inr s ↦
          ap
            (λ b.
              take (length before)
                (if b then append_unseen l es else append_unseen (l ++ e ∷ []) es))
            s
          ∙ go es (l ++ e ∷ []) before (more ++ e ∷ [])
              (ap (λ t. t ++ e ∷ []) h ∙ append_assoc before more (e ∷ []))
    ]

    prefix : (es l more : List Entry) → l ≡ l ++ more → take (length l) (append_unseen l es) ≡ l
    prefix es l more h = go es l l more h

pub take-take : (n m : ℕ) (es : List Entry) → n ≤ m → take n (take m es) ≡ take n es
take-take zero m es h = refl
take-take (suc n) zero es h = absurd (omega arith)
take-take (suc n) (suc m) [] h = refl
take-take (suc n) (suc m) (e ∷ es) h = ap (λ t. e ∷ t) (take-take n m es (omega arith))

-- A list that grew: nothing of the old one is gone or moved.
abbrev pub Good : (old new : List Entry) → Type 0
Good old new = (distinct new ≡ true) × (length new ≤ max_full_list) × (take (length old) new ≡ old)

unfoldable pub cut : List Entry → List Entry
cut merged = if ltb max_full_list (length merged) then take max_full_list merged else merged

pub cut-Good :
    (old merged : List Entry)
    → length old ≤ max_full_list
    → distinct merged ≡ true
    → take (length old) merged ≡ old
    → Good old (cut merged)
unfolding cut
cut-Good old merged h d t = elim (Bool-cases (ltb max_full_list (length merged))) [
  | inl e ↦
      subst (λ b. Good old (if b then take max_full_list merged else merged)) (sym e)
        (let n = length-take max_full_list merged in
          (
            distinct-take max_full_list merged d,
            omega arith,
            take-take (length old) max_full_list merged h ∙ t,
          ))
  | inr e ↦
      subst (λ b. Good old (if b then take max_full_list merged else merged)) (sym e)
        (d, ground (arith, e), t)
]

pub whole : (es : List Entry) → take (length es) es ≡ es
whole [] = refl
whole (e ∷ es) = ap (λ t. e ∷ t) (whole es)
