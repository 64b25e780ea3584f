-- ===== src/Base/Results.antt =====
-- Results: a value, or what the source throws.
use mathlib.Core.Path.{◌≡◌, refl}

pub data Result {ℓ κ} (Err : Type κ) (Val : Type ℓ) : Type (ℓ ⊔ κ) where
  err : Err → Result Err Val
  ok : Val → Result Err Val

infixl 5 ◌>>=◌
abbrev pub ◌>>=◌ {ℓ κ μ} :
    {Err : Type κ} {Val : Type ℓ} {Out : Type μ}
    → Result Err Val
    → (Val → Result Err Out)
    → Result Err Out
err thrown >>= next = err thrown
ok value >>= next = next value

-- A chain that gives a value has given one at its first step.
pub >>=-eq-ok {ℓ κ μ} :
    {Err : Type κ} {Val : Type ℓ} {Out : Type μ} (m : Result Err Val) (next : Val → Result Err Out)
    {out : Out}
    → (m >>= next) ≡ ok out
    → (value : Val) × (m ≡ ok value) × (next value ≡ ok out)
>>=-eq-ok (err thrown) next h = cc
>>=-eq-ok (ok value) next h = (value, refl, h)
