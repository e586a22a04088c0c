-- ===== src/Keys/Varint/Step.antt =====
-- monerowire.ts, varintBytes: one byte at a time, with fuel to spare.
use labyrinth_vault.Prelude.{
  ℕ, zero, suc, ◌+◌, ◌/◌, ◌%◌, ◌^◌, ◌≤◌, ◌≡◌, refl, arith, [], ◌∷◌, if◌then◌else◌, leb, All, IsByte,
}
use labyrinth_vault.Prelude.Bits.{bit_and_low, bit_or_sum_right}
use labyrinth_vault.Keys.Varint.{varint_from, varint_bytes}

-- The bytes of a varint: its lowest seven bits, and a mark while there are more.
varint_from_step :
    (fuel n : ℕ)
    → varint_from (suc fuel) n
      ≡ (if leb 128 n then (n % 128 + 128) ∷ varint_from fuel (n / 128) else n ∷ [])
unfolding varint_from
varint_from_step fuel n = ground (arith, bit_and_low 7 n, bit_or_sum_right 7 1 (n % 128))

varint_from_enough : (f g n : ℕ) → n ≤ f → n ≤ g → varint_from f n ≡ varint_from g n
unfolding varint_from
varint_from_enough zero zero n h k = refl
varint_from_enough zero (suc g) n h k = ground arith
varint_from_enough (suc f) zero n h k = ground arith
varint_from_enough (suc f) (suc g) n h k =
    ground (arith, varint_from_enough f g (n / 2 ^ 7) (omega arith) (omega arith))

-- More fuel than the number changes nothing.
pub varint_bytes_step :
    (n : ℕ)
    → varint_bytes n ≡ (if leb 128 n then (n % 128 + 128) ∷ varint_bytes (n / 128) else n ∷ [])
unfolding varint_bytes
varint_bytes_step zero = refl
varint_bytes_step (suc n) = ground (
  arith,
  varint_from_step n (suc n),
  varint_from_enough n (suc n / 128) (suc n / 128) (omega arith) (omega arith),
)

varint_from-IsByte : (fuel n : ℕ) → n ≤ fuel → All IsByte (varint_from fuel n)
unfolding varint_from
varint_from-IsByte zero n h = (omega arith, tt)
varint_from-IsByte (suc fuel) n h = ground (
  arith,
  bit_and_low 7 n,
  bit_or_sum_right 7 1 (n % 128),
  varint_from-IsByte fuel (n / 2 ^ 7) (omega arith),
)

-- Every byte of a varint is one.
pub varint_bytes-IsByte : (n : ℕ) → All IsByte (varint_bytes n)
unfolding varint_bytes
varint_bytes-IsByte n = varint_from-IsByte n n (omega arith)
