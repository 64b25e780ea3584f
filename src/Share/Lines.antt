-- ===== src/Share/Lines.antt =====
-- shareCanvas.ts: `wrapText` breaks a text into full lines and loses nothing.
use pathmemos.Base.{
  ℕ, ◌≡◌, refl, sym, ◌∙◌, ap, subst, inl, inr, ◌⊎◌, Bool, true, false, List, [], ◌∷◌, ◌++◌,
  append_assoc, arith, if◌then◌else◌, Bool-cases, is_empty, length, take, All,
}
use pathmemos.Share.{safe_text, wrap, wrap_text, concat}

module _ (too_wide : List ℕ → Bool) where
  -- A line fits, or is a single character.
  abbrev pub Fits : List ℕ → Type 0
  Fits line = (too_wide line ≡ false) ⊎ (length line ≡ 1)

  -- No line had room for the first character of the next one.
  abbrev pub Full : List (List ℕ) → Type 0
  Full [] = Unit
  Full (line ∷ []) = Unit
  Full (line ∷ next ∷ lines) = (too_wide (line ++ take 1 next) ≡ true) × Full (next ∷ lines)

  -- The lines are those of a text that begins with `line`, which is not empty.
  record Broken (line chars : List ℕ) (lines : List (List ℕ)) : Type 0 where
    text : concat lines ≡ line ++ chars
    fit : All Fits lines
    full : Full lines
    start :
        (first : List ℕ) × (rest : List (List ℕ)) × (lines ≡ first ∷ rest)
        × (take 1 first ≡ take 1 line)

  Full-cons :
      (line : List ℕ) (c : ℕ) (lines : List (List ℕ))
      → too_wide (line ++ c ∷ []) ≡ true
      → (first : List ℕ) × (rest : List (List ℕ)) × (lines ≡ first ∷ rest) × (take 1 first ≡ c ∷ [])
      → Full lines
      → Full (line ∷ lines)
  Full-cons line c lines w (first, rest, e, s) f =
      subst (λ ls. Full (line ∷ ls)) (sym e) (ap (λ x. too_wide (line ++ x)) s ∙ w, subst Full e f)

  wrap-broken :
      (line : List ℕ) (ch : ℕ) (chars : List ℕ)
      → too_wide (line ++ ch ∷ []) ≡ true
      → is_empty line ≡ false
      → wrap too_wide line (ch ∷ chars) ≡ line ∷ wrap too_wide (ch ∷ []) chars
  wrap-broken line ch chars w e = ground (arith, w, e)

  wrap-longer :
      (line : List ℕ) (ch : ℕ) (chars : List ℕ)
      → too_wide (line ++ ch ∷ []) ≡ false
      → wrap too_wide line (ch ∷ chars) ≡ wrap too_wide (line ++ ch ∷ []) chars
  wrap-longer line ch chars w = ground (arith, w)

  wrap-Broken :
      (c : ℕ) (cs chars : List ℕ)
      → Fits (c ∷ cs)
      → Broken (c ∷ cs) chars (wrap too_wide (c ∷ cs) chars)
  wrap-Broken c cs [] f = record {
    text = refl;
    fit = (f, tt);
    full = tt;
    start = (c ∷ cs, [], refl, refl);
  }
  wrap-Broken c cs (ch ∷ chars) f = elim (Bool-cases (too_wide (c ∷ cs ++ ch ∷ []))) [
    | inl w ↦
        let b = wrap-Broken ch [] chars (inr refl) in
        subst (Broken (c ∷ cs) (ch ∷ chars)) (sym (wrap-broken (c ∷ cs) ch chars w refl)) (record {
          text = ap (λ l. c ∷ cs ++ l) b.text;
          fit = (f, b.fit);
          full = Full-cons (c ∷ cs) ch (wrap too_wide (ch ∷ []) chars) w b.start b.full;
          start = (c ∷ cs, wrap too_wide (ch ∷ []) chars, refl, refl);
        })
    | inr w ↦
        let b = wrap-Broken c (cs ++ ch ∷ []) chars (inl w) in
        subst (Broken (c ∷ cs) (ch ∷ chars)) (sym (wrap-longer (c ∷ cs) ch chars w)) (record {
          text = b.text ∙ append_assoc (c ∷ cs) (ch ∷ []) chars;
          fit = b.fit;
          full = b.full;
          start = b.start;
        })
  ]

  wrap-first : (c : ℕ) (cs : List ℕ) → wrap too_wide [] (c ∷ cs) ≡ wrap too_wide (c ∷ []) cs
  wrap-first c cs = ground arith

  abbrev Lines : (text : List ℕ) → List (List ℕ) → Type 0
  Lines text lines = (concat lines ≡ text) × All Fits lines × Full lines

  abbrev or_one : List (List ℕ) → List (List ℕ)
  or_one lines = if is_empty lines then [] ∷ [] else lines

  or_one-some :
      (first : List ℕ) (rest lines : List (List ℕ)) → lines ≡ first ∷ rest → or_one lines ≡ lines
  or_one-some first rest lines e = ap or_one e ∙ sym e

  wrap-Lines : (text : List ℕ) → is_empty text ≡ false → Lines text (or_one (wrap too_wide [] text))
  wrap-Lines [] h = ground (arith, h)
  wrap-Lines (c ∷ cs) h =
      let b = wrap-Broken c [] cs (inr refl) in
      let (first, rest, e, _) = b.start in
      subst (Lines (c ∷ cs))
        (sym (ap or_one (wrap-first c cs) ∙ or_one-some first rest (wrap too_wide (c ∷ []) cs) e))
        (b.text, b.fit, b.full)

  safe_text-is_empty : (c : ℕ) (cs : List ℕ) → is_empty (safe_text (c ∷ cs)) ≡ false
  safe_text-is_empty c cs = ground arith

  -- The lines of a text are the text, cut to its first 3000 characters with three dots if it is longer,
  -- with nothing lost; each line is as wide as the space at most, or a single character, and none had
  -- room for the first character of the next one.
  pub wrap_text-lines :
      (text : List ℕ)
      → let lines = wrap_text too_wide text in
        (concat lines ≡ safe_text text) × All Fits lines × Full lines
  unfolding wrap_text
  wrap_text-lines [] = (refl, tt, tt)
  wrap_text-lines (c ∷ cs) = wrap-Lines (safe_text (c ∷ cs)) (safe_text-is_empty c cs)
