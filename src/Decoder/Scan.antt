-- ===== src/Decoder/Scan.antt =====
-- textDecoder.ts: the loop without its fuel.
use pathmemos.Base.{
  ℕ, zero, suc, ◌≤◌, ◌<◌, ◌≡◌, refl, Bool, List, [], ◌∷◌, arith, length, drop, length-drop, Result,
  ok,
}
use pathmemos.Decoder.{
  DecodeError, Step, wait, emit, throws, replace, finish, step_2, step_3, step_4, step, after, loop,
  scan, code_2, code_3, code_4,
}

-- A round leaves the loop, or advances by one byte at least and not past the end.
abbrev pub Advances : List ℕ → Step → Type 0
Advances rest wait = Unit
Advances rest (emit units size) = (0 < size) × (size ≤ suc (length rest))
Advances rest (throws e) = Unit

replace-Advances :
    (fatal : Bool) (e : DecodeError) (rest : List ℕ) → Advances rest (replace fatal e)
unfolding replace
replace-Advances fatal e rest = ground arith

finish-Advances :
    (fatal : Bool) (size code_point : ℕ) (rest : List ℕ)
    → 0 < size
    → size ≤ suc (length rest)
    → Advances rest (finish fatal size code_point)
unfolding finish
finish-Advances fatal size code_point rest p q =
    ground (arith, replace-Advances fatal DecodeError.invalid_code_point rest)

step_2-Advances : (fatal : Bool) (b1 : ℕ) (rest : List ℕ) → Advances rest (step_2 fatal b1 rest)
unfolding step_2
step_2-Advances fatal b1 [] = tt
step_2-Advances fatal b1 (b2 ∷ rest) = ground (
  arith,
  replace-Advances fatal DecodeError.invalid_continuation_byte (b2 ∷ rest),
  finish-Advances fatal 2 (code_2 b1 b2) (b2 ∷ rest) (omega arith) (omega arith),
)

step_3-Advances : (fatal : Bool) (b1 : ℕ) (rest : List ℕ) → Advances rest (step_3 fatal b1 rest)
unfolding step_3
step_3-Advances fatal b1 [] = tt
step_3-Advances fatal b1 (b2 ∷ []) = tt
step_3-Advances fatal b1 (b2 ∷ b3 ∷ rest) = ground (
  arith,
  replace-Advances fatal DecodeError.invalid_continuation_byte (b2 ∷ b3 ∷ rest),
  replace-Advances fatal DecodeError.invalid_surrogate (b2 ∷ b3 ∷ rest),
  finish-Advances fatal 3 (code_3 b1 b2 b3) (b2 ∷ b3 ∷ rest) (omega arith) (omega arith),
)

step_4-Advances : (fatal : Bool) (b1 : ℕ) (rest : List ℕ) → Advances rest (step_4 fatal b1 rest)
unfolding step_4
step_4-Advances fatal b1 [] = tt
step_4-Advances fatal b1 (b2 ∷ []) = tt
step_4-Advances fatal b1 (b2 ∷ b3 ∷ []) = tt
step_4-Advances fatal b1 (b2 ∷ b3 ∷ b4 ∷ rest) = ground (
  arith,
  replace-Advances fatal DecodeError.invalid_continuation_byte (b2 ∷ b3 ∷ b4 ∷ rest),
  finish-Advances fatal 4 (code_4 b1 b2 b3 b4) (b2 ∷ b3 ∷ b4 ∷ rest) (omega arith) (omega arith),
)

pub step-Advances : (fatal : Bool) (b1 : ℕ) (rest : List ℕ) → Advances rest (step fatal b1 rest)
unfolding step
step-Advances fatal b1 rest = ground (
  arith,
  finish-Advances fatal 1 b1 rest (omega arith) (omega arith),
  step_2-Advances fatal b1 rest,
  step_3-Advances fatal b1 rest,
  step_4-Advances fatal b1 rest,
  replace-Advances fatal DecodeError.invalid_leading_byte rest,
)

after-cong :
    (s : Step) (b1 : ℕ) (rest : List ℕ) (go go' : List ℕ → Result DecodeError (List ℕ × List ℕ))
    → Advances rest s
    → ((bytes : List ℕ) → length bytes ≤ length rest → go bytes ≡ go' bytes)
    → after s b1 rest go ≡ after s b1 rest go'
after-cong wait b1 rest go go' a h = refl
after-cong (emit units size) b1 rest go go' a h =
    rw (h (drop size (b1 ∷ rest)) (omega (arith, length-drop size (b1 ∷ rest))))
after-cong (throws e) b1 rest go go' a h = refl

-- Any fuel that covers the bytes gives the same result.
loop_fuel :
    (f g : ℕ) (fatal : Bool) (bytes : List ℕ)
    → length bytes ≤ f
    → length bytes ≤ g
    → loop f fatal bytes ≡ loop g fatal bytes
unfolding loop
loop_fuel zero zero fatal bytes p q = refl
loop_fuel zero (suc g) fatal [] p q = refl
loop_fuel zero (suc g) fatal (b1 ∷ rest) p q = absurd (omega arith)
loop_fuel (suc f) zero fatal [] p q = refl
loop_fuel (suc f) zero fatal (b1 ∷ rest) p q = absurd (omega arith)
loop_fuel (suc f) (suc g) fatal [] p q = refl
loop_fuel (suc f) (suc g) fatal (b1 ∷ rest) p q =
    after-cong (step fatal b1 rest) b1 rest _ _ (step-Advances fatal b1 rest)
      (λ bytes h. loop_fuel f g fatal bytes (omega arith) (omega arith))

pub scan-nil : (fatal : Bool) → scan fatal [] ≡ ok ([], [])
unfolding scan loop
scan-nil fatal = refl

-- The loop of the source: one round, then the loop again on what is left.
pub scan-cons :
    (fatal : Bool) (b1 : ℕ) (rest : List ℕ)
    → scan fatal (b1 ∷ rest) ≡ after (step fatal b1 rest) b1 rest (scan fatal)
unfolding scan loop
scan-cons fatal b1 rest =
    after-cong (step fatal b1 rest) b1 rest _ _ (step-Advances fatal b1 rest)
      (λ bytes h. loop_fuel (length rest) (length bytes) fatal bytes h (omega arith))
