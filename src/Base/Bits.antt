-- ===== src/Base/Bits.antt =====
-- `|` of disjoint fields as a sum, and masks of one byte, as tables.
use Prim.Native.Nat.{
  ℕ, zero, suc, ◌+◌, ◌*◌, ◌/◌, ◌%◌, ◌≤◌, ◌<◌, max, min, digits, bitwise, bit_and, bit_and-bitwise,
  bit_or, bit_or-bitwise,
}
use mathlib.Core.Path.{◌≡◌, refl}
use mathlib.Core.Bool.{Bool, true, ◌&&◌}
use native.Mathlib.Omega.{arith}
use native.Mathlib.Nat.{le_refl}

-- The library's recursion on binary digits stops by itself: spare fuel changes nothing.
module _ (past : ℕ → ℕ) (digit : ℕ → ℕ → ℕ) where
  spare_fuel :
      (x y least fuel : ℕ)
      → x ≤ least
      → least ≤ fuel
      → digits past digit fuel x y ≡ digits past digit least x y
  spare_fuel zero y zero zero _ _ = refl
  spare_fuel zero y zero (suc fuel) _ _ = refl
  spare_fuel zero y (suc least) (suc fuel) _ _ = refl
  spare_fuel zero y (suc least) zero _ more = absurd (omega arith)
  spare_fuel (suc x) y zero fuel enough _ = absurd (omega arith)
  spare_fuel (suc x) y (suc least) zero _ more = absurd (omega arith)
  spare_fuel (suc x) y (suc least) (suc fuel) enough more =
      let halves = spare_fuel (suc x / 2) (y / 2) least fuel (omega arith) (omega arith) in
      rw halves refl

  -- So every number gives its lowest digit and the rest, if zero does.
  lowest_digit :
      ((y : ℕ) → digit 0 (y % 2) + 2 * past (y / 2) ≡ past y)
      → (x y : ℕ)
      → digit (x % 2) (y % 2) + 2 * bitwise past digit (x / 2) (y / 2) ≡ bitwise past digit x y
  lowest_digit edge zero y = edge y
  lowest_digit edge (suc x) y =
      let enough = spare_fuel (suc x / 2) (y / 2) (suc x / 2) x (omega arith) (omega arith) in
      omega (arith, enough)

bit_or_step : (a b : ℕ) → max (a % 2) (b % 2) + 2 * bit_or (a / 2) (b / 2) ≡ bit_or a b
bit_or_step a b = simp bit_or-bitwise (lowest_digit (λ y. y) max (λ y. omega arith) a b)

bit_or-zero_fuel : (most x : ℕ) → x ≤ most → bit_or x 0 ≡ x
bit_or-zero_fuel most zero le = refl
bit_or-zero_fuel (suc most) (suc x) le =
    let half = bit_or-zero_fuel most (suc x / 2) (omega arith) in
    omega (arith, half, bit_or_step (suc x) 0)
bit_or-zero_fuel zero (suc x) le = absurd (omega arith)

bit_or_double : (a q r : ℕ) → a ≡ q * 2 → bit_or a r ≡ bit_or q (r / 2) * 2 + r % 2
bit_or_double a q r e = ground (arith, bit_or_step a r)

bit_or_eight : (a q r : ℕ) → a ≡ q * 8 → bit_or a r ≡ bit_or q (r / 8) * 8 + r % 8
bit_or_eight a q r e = ground (
  arith,
  bit_or_double a (q * 4) r,
  bit_or_double (q * 4) (q * 2) (r / 2),
  bit_or_double (q * 2) q (r / 2 / 2),
)

-- `(q << 6) | r` is a sum when `r` fits six bits.
pub bit_or_six : (q r : ℕ) → r < 64 → bit_or (q * 64) r ≡ q * 64 + r
bit_or_six q r h = ground (
  arith,
  bit_or_eight (q * 64) (q * 8) r,
  bit_or_eight (q * 8) q (r / 8),
  bit_or-zero_fuel q q (le_refl q),
)

bit_or_shift : (p q : ℕ) → bit_or (p * 64) (q * 64) ≡ bit_or p q * 64
bit_or_shift p q =
    ground (arith, bit_or_eight (p * 64) (p * 8) (q * 64), bit_or_eight (p * 8) p (q * 8))

-- The code points of three and four bytes, put together from their fields.
pub bit_or_three :
    (a b c : ℕ) → b < 64 → c < 64 → bit_or (bit_or (a * 4096) (b * 64)) c ≡ a * 4096 + b * 64 + c
bit_or_three a b c hb hc =
    ground (arith, bit_or_shift (a * 64) b, bit_or_six a b, bit_or_six (a * 64 + b) c)

pub bit_or_four :
    (a b c d : ℕ)
    → b < 64
    → c < 64
    → d < 64
    → bit_or (bit_or (bit_or (a * 262144) (b * 4096)) (c * 64)) d
      ≡ a * 262144 + b * 4096 + c * 64 + d
bit_or_four a b c d hb hc hd = ground (
  arith,
  bit_or_shift (a * 4096) (b * 64),
  bit_or_shift (a * 64) b,
  bit_or_six a b,
  bit_or_shift (a * 4096 + b * 64) c,
  bit_or_six (a * 64 + b) c,
  bit_or_six (a * 4096 + b * 64 + c) d,
)

bit_and_step : (a b : ℕ) → min (a % 2) (b % 2) + 2 * bit_and (a / 2) (b / 2) ≡ bit_and a b
bit_and_step a b = simp bit_and-bitwise (lowest_digit (λ y. 0) min (λ y. omega arith) a b)

bit_and-zero_fuel : (most x : ℕ) → x ≤ most → 0 ≡ bit_and x 0
bit_and-zero_fuel most zero le = refl
bit_and-zero_fuel (suc most) (suc x) le =
    let half = bit_and-zero_fuel most (suc x / 2) (omega arith) in
    omega (arith, half, bit_and_step (suc x) 0)
bit_and-zero_fuel zero (suc x) le = absurd (omega arith)

bit_and_odd : (a m n : ℕ) → n ≡ m * 2 + 1 → bit_and a n ≡ bit_and (a / 2) m * 2 + a % 2
bit_and_odd a m n e = ground (arith, bit_and_step a n)

bit_and_five_ones : (a m n : ℕ) → n ≡ m * 32 + 31 → bit_and a n ≡ bit_and (a / 32) m * 32 + a % 32
bit_and_five_ones a m n e = ground (
  arith,
  bit_and_odd a (m * 16 + 15) n,
  bit_and_odd (a / 2) (m * 8 + 7) (m * 16 + 15),
  bit_and_odd (a / 2 / 2) (m * 4 + 3) (m * 8 + 7),
  bit_and_odd (a / 2 / 2 / 2) (m * 2 + 1) (m * 4 + 3),
  bit_and_odd (a / 2 / 2 / 2 / 2) m (m * 2 + 1),
)

-- A mask of ten ones is a remainder.
pub bit_and_low_ten : (a : ℕ) → bit_and a 0x3ff ≡ a % 1024
bit_and_low_ten a = ground (
  arith,
  bit_and_five_ones a 31 0x3ff,
  bit_and_five_ones (a / 32) 0 31,
  bit_and-zero_fuel (a / 32 / 32) (a / 32 / 32) (le_refl _),
)

unfoldable pub test_below : ℕ → (ℕ → Bool) → Bool
test_below zero p = true
test_below (suc n) p = p n && test_below n p

pub test_below_sound : (n : ℕ) (p : ℕ → Bool) → test_below n p ≡ true → (x : ℕ) → x < n → p x ≡ true
unfolding test_below
test_below_sound zero p h x lt = absurd (omega arith)
test_below_sound (suc n) p h x lt = ground (arith, test_below_sound n p (ground arith) x)
