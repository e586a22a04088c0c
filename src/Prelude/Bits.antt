-- ===== src/Prelude/Bits.antt =====
-- `|` of disjoint fields and `&` with a mask of low bits, as arithmetic, at every width.
use Prim.Native.Nat.{ℕ, zero, suc, ◌+◌, ◌-◌, ◌*◌, ◌/◌, ◌%◌, ◌^◌, ◌≤◌, ◌<◌, min, max}
use Prim.Native.Nat.add
use Prim.Native.Nat.{bit_and, bit_or, digits, bit_and-bitwise, bit_or-bitwise}
use mathlib.Core.Path.{◌≡◌, refl, sym, ap, ◌∙◌}
use mathlib.Core.Bool.{Bool, true, ◌&&◌}
use native.Mathlib.Nat.{pow-suc, one-le-pow}
use native.Mathlib.Omega.{arith}

-- The recursion on digits does not depend on its fuel, once that is as large as the first number.
module _ (z : ℕ → ℕ) (f : ℕ → ℕ → ℕ) where
  one_more : (n x y : ℕ) → x ≤ n → digits z f (suc n) x y ≡ digits z f n x y
  one_more zero zero y h = refl
  one_more (suc n) zero y h = refl
  one_more zero (suc x) y h = absurd (omega arith)
  one_more (suc n) (suc x) y h =
      ap (λ t. t * 2 + f (suc x % 2) (y % 2)) (one_more n (suc x / 2) (y / 2) (omega arith))

  settle : (extra x y : ℕ) → digits z f (extra + x) x y ≡ digits z f x x y
  settle zero x y = rw add.zero
  settle (suc extra) x y = rw add.suc (one_more (extra + x) x y (omega arith) ∙ settle extra x y)

  -- The lowest digit of a result, and the result for the halves.
  pub lowest_digit :
      (x y : ℕ)
      → digits z f (suc x) (suc x) y
        ≡ digits z f (suc x / 2) (suc x / 2) (y / 2) * 2 + f (suc x % 2) (y % 2)
  lowest_digit x y =
      let room : x - suc x / 2 + suc x / 2 ≡ x = omega arith in
      ap (λ t. t * 2 + f (suc x % 2) (y % 2))
        (ap (λ n. digits z f n (suc x / 2) (y / 2)) (sym room)
          ∙ settle (x - suc x / 2) (suc x / 2) (y / 2))

bit_or_step : (x y : ℕ) → bit_or x y ≡ bit_or (x / 2) (y / 2) * 2 + max (x % 2) (y % 2)
bit_or_step (suc x) y = simp bit_or-bitwise (lowest_digit (λ t. t) max x y)
bit_or_step zero y = simp bit_or-bitwise (omega arith)

bit_and_step : (x y : ℕ) → bit_and x y ≡ bit_and (x / 2) (y / 2) * 2 + min (x % 2) (y % 2)
bit_and_step (suc x) y = simp bit_and-bitwise (lowest_digit (λ t. 0) min x y)
bit_and_step zero y = simp bit_and-bitwise (omega arith)

-- The unit of `|` and the zero of `&`, for numbers up to `n`.
zero_laws : (n x : ℕ) → x ≤ n → (bit_or x 0 ≡ x) × (bit_and x 0 ≡ 0)
zero_laws n zero h = (refl, refl)
zero_laws zero (suc x) h = absurd (omega arith)
zero_laws (suc n) (suc x) h =
    let half = zero_laws n (suc x / 2) (omega arith) in
    (omega (arith, bit_or_step (suc x) 0, half.0), omega (arith, bit_and_step (suc x) 0, half.1))

double_pow : (q k : ℕ) → q * 2 ^ suc k ≡ 2 * (q * 2 ^ k)
double_pow q k = omega (arith, ap (λ (t : ℕ). q * t) (pow-suc 2 k))

-- `(q << k) | r` is a sum when `r` has at most `k` bits.
pub bit_or_sum : (k q r : ℕ) → r < 2 ^ k → bit_or (q * 2 ^ k) r ≡ q * 2 ^ k + r
bit_or_sum zero q r h = ground (arith, (zero_laws q q (omega arith)).0)
bit_or_sum (suc k) q r h =
    ground
      (arith, bit_or_step (q * 2 ^ suc k) r, double_pow q k, bit_or_sum k q (r / 2) (omega arith))

zero-bit_or : (n x : ℕ) → x ≤ n → bit_or 0 x ≡ x
zero-bit_or n zero h = refl
zero-bit_or zero (suc x) h = absurd (omega arith)
zero-bit_or (suc n) (suc x) h =
    omega (arith, bit_or_step 0 (suc x), zero-bit_or n (suc x / 2) (omega arith))

-- `r | (q << k)` too.
pub bit_or_sum_right : (k q r : ℕ) → r < 2 ^ k → bit_or r (q * 2 ^ k) ≡ q * 2 ^ k + r
bit_or_sum_right zero q r h = ground (arith, zero-bit_or q q (omega arith))
bit_or_sum_right (suc k) q r h = ground (
  arith,
  bit_or_step r (q * 2 ^ suc k),
  double_pow q k,
  bit_or_sum_right k q (r / 2) (omega arith),
)

bit_and_sum : (k q r : ℕ) → r < 2 ^ k → bit_and (q * 2 ^ k + r) (2 ^ k - 1) ≡ r
bit_and_sum zero q r h = ground (arith, (zero_laws (q * 1 + r) (q * 1 + r) (omega arith)).1)
bit_and_sum (suc k) q r h = ground (
  arith,
  bit_and_step (q * 2 ^ suc k + r) (2 ^ suc k - 1),
  double_pow q k,
  pow-suc 2 k,
  one-le-pow k 2,
  bit_and_sum k q (r / 2) (omega arith),
)

-- `a & (2^k - 1)` keeps the `k` low bits.
pub bit_and_low : (k a : ℕ) → bit_and a (2 ^ k - 1) ≡ a % 2 ^ k
bit_and_low k a = ground (arith, one-le-pow k 2, bit_and_sum k (a / 2 ^ k) (a % 2 ^ k))

-- Over a small range, every value is checked by evaluation.
unfoldable pub all_below : ℕ → (ℕ → Bool) → Bool
all_below zero p = true
all_below (suc n) p = p n && all_below n p

pub all_below→ : (n : ℕ) (p : ℕ → Bool) (x : ℕ) → all_below n p ≡ true → x < n → p x ≡ true
unfolding all_below
all_below→ zero p x h lt = absurd (omega arith)
all_below→ (suc n) p x h lt = ground (arith, all_below→ n p x)
