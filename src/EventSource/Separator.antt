-- ===== src/EventSource/Separator.antt =====
-- eventSource.ts: where a separator is found does not depend on what comes later.
use pathmemos.Base.{
  ℕ, ◌≡◌, inl, inr, ◌<◌, List, [], ◌∷◌, ◌++◌, none, some, arith, Option-cases, length,
}
use pathmemos.EventSource.{separator, cut}

separator-append :
    (text more rest : List ℕ)
    → separator text ≡ some rest
    → separator (text ++ more) ≡ some (rest ++ more)
unfolding separator
separator-append [] more rest h = ground arith
separator-append (a ∷ []) more rest h = ground arith
separator-append (a ∷ b ∷ []) more rest h = ground arith
separator-append (a ∷ b ∷ c ∷ []) more rest h = ground arith
separator-append (a ∷ b ∷ c ∷ d ∷ text) more rest h = ground arith

-- No separator starts at a place before one that is complete, whatever is added.
separator-none :
    (a : ℕ) (text more : List ℕ) (r : List ℕ × List ℕ)
    → separator (a ∷ text) ≡ none
    → cut text ≡ some r
    → separator (a ∷ text ++ more) ≡ none
unfolding separator cut
separator-none a [] more r h e = ground arith
separator-none a (b ∷ []) more r h e = ground arith
separator-none a (b ∷ c ∷ []) more r h e = ground arith
separator-none a (b ∷ c ∷ d ∷ text) more r h e = ground arith

pub cut-append :
    (text more raw rest : List ℕ)
    → cut text ≡ some (raw, rest)
    → cut (text ++ more) ≡ some (raw, rest ++ more)
unfolding cut
cut-append [] more raw rest h = ground arith
cut-append (c ∷ text) more raw rest h = elim (Option-cases (separator (c ∷ text))) [
  | inr (after, e) ↦ ground (arith, separator-append (c ∷ text) more after e)
  | inl e ↦ elim (Option-cases (cut text)) [
    | inl e' ↦ ground arith
    | inr ((raw', rest'), e') ↦
        ground
          (arith, separator-none c text more (raw', rest') e e', cut-append text more raw' rest' e')
  ]
]

length-separator : (text rest : List ℕ) → separator text ≡ some rest → length rest < length text
unfolding separator
length-separator [] rest h = ground arith
length-separator (a ∷ []) rest h = ground arith
length-separator (a ∷ b ∷ []) rest h = ground arith
length-separator (a ∷ b ∷ c ∷ []) rest h = ground arith
length-separator (a ∷ b ∷ c ∷ d ∷ text) rest h = ground arith

pub length-cut : (text raw rest : List ℕ) → cut text ≡ some (raw, rest) → length rest < length text
unfolding cut
length-cut [] raw rest h = ground arith
length-cut (c ∷ text) raw rest h = elim (Option-cases (separator (c ∷ text))) [
  | inr (after, e) ↦ ground (arith, length-separator (c ∷ text) after e)
  | inl e ↦ elim (Option-cases (cut text)) [
    | inl e' ↦ ground arith
    | inr ((raw', rest'), e') ↦ ground (arith, length-cut text raw' rest' e')
  ]
]
