-- ===== src/Keys/Archive/Varint.antt =====
-- src/keys/binaryarchive.ts, readVarintU64, against varintBytes of monerowire.ts.
pub mod Canonical
use labyrinth_vault.Prelude.{
  ℕ, zero, suc, ◌+◌, ◌-◌, ◌*◌, ◌/◌, ◌%◌, ◌^◌, ◌≤◌, ◌<◌, ◌≡◌, refl, sym, ap, ◌∙◌, arith, ◌++◌,
  bit_and, bit_or, Bool, true, false, not, ◌&&◌, List, [], ◌∷◌, ◌⊎◌, inl, inr, IsByte,
  if◌then◌else◌, leb, ◌==◌, ==_iff, length, All, Bool-cases,
}
use labyrinth_vault.Prelude.Bits.{all_below, all_below→, bit_and_low, bit_or_sum_right}
use labyrinth_vault.Keys.Archive.{Archive, Read, ok, err, fits_u64, varint_loop, read_varint_u64}
use labyrinth_vault.Keys.Varint.{varint_bytes}
use labyrinth_vault.Keys.Varint.Step.{varint_bytes_step}
use native.Mathlib.Nat.{div-add-mod, pow-suc}
use native.Mathlib.Numerals.{towards_suc}

shift_seven : (s : ℕ) → 2 ^ (s + 7) ≡ 128 * 2 ^ s
shift_seven s = simp towards_suc (omega arith)

top_bit : (b : ℕ) → b < 256 → (bit_and b 0x80 == 0) ≡ leb b 127
unfolding all_below
top_bit b h = ground (
  arith,
  all_below→ 256 (λ (b : ℕ). if leb b 127 then bit_and b 0x80 == 0 else not (bit_and b 0x80 == 0)) b
      refl h,
)

lt→leb_false : (n : ℕ) → n < 128 → leb 128 n ≡ false
lt→leb_false n h = ground arith

-- A round of the loop on a byte with the mark, and on one without.
pub round_more :
    (start g at value shift : ℕ) (rest : List ℕ)
    → g < 128
    → value < 2 ^ shift
    → shift < 63
    → varint_loop start ((g + 128) ∷ rest) at value shift
      ≡ varint_loop start rest (at + 1) (value + g * 2 ^ shift) (shift + 7)
unfolding varint_loop
round_more start g at value shift rest hg hv hs =
    ground (arith, bit_and_low 7 (g + 128), bit_or_sum_right shift g value, top_bit (g + 128))

pub round_last :
    (start b at value shift : ℕ) (rest : List ℕ)
    → b < 128
    → value < 2 ^ shift
    → (shift ≡ 0) ⊎ (1 ≤ b)
    → varint_loop start (b ∷ rest) at value shift
      ≡ fits_u64 start (value + b * 2 ^ shift) rest (at + 1)
unfolding varint_loop
round_last start b at value shift rest hb hv hs =
    ground (arith, bit_and_low 7 b, bit_or_sum_right shift b value, top_bit b)

-- The lowest seven bits of `n` and the rest, both shifted.
pub split_group : (n s : ℕ) → n * 2 ^ s ≡ n % 128 * 2 ^ s + n / 128 * 2 ^ (s + 7)
split_group n s = omega (
  arith,
  ap (λ (t : ℕ). t * 2 ^ s) (div-add-mod n 128),
  ap (λ (t : ℕ). n / 128 * t) (shift_seven s),
)

pub group_bound : (g value s : ℕ) → g < 128 → value < 2 ^ s → value + g * 2 ^ s < 2 ^ (s + 7)
group_bound g value s hg hv =
    let e : 2 ^ (s + 7) ≡ 128 * 2 ^ s = shift_seven s in
    let m : g * 2 ^ s ≤ 127 * 2 ^ s = mul_le g 127 (2 ^ s) (omega arith) in omega arith
  where
    mul_le : (a b c : ℕ) → a ≤ b → a * c ≤ b * c
    mul_le a b c h = grind arith

fits :
    (start value at : ℕ) (rest : List ℕ)
    → value < 2 ^ 64
    → fits_u64 start value rest at ≡ ok value (record { rest = rest; at = at })
unfolding fits_u64
fits start value at rest h = ground arith

ok_eq :
    (v w a b : ℕ) (rest : List ℕ)
    → v ≡ w
    → a ≡ b
    → ◌≡◌ {A = Read ℕ}
        (ok v (record { rest = rest; at = a }))
        (ok w (record { rest = rest; at = b }))
ok_eq v w a b rest e f = cc

-- `n` is what is still to be read, and it counts from bit `shift` on; `j` more rounds are enough.
loop-varint_bytes :
    (j n start at value shift : ℕ) (rest : List ℕ)
    → n < 128 ^ suc j
    → shift + 7 * j ≤ 63
    → value < 2 ^ shift
    → (shift ≡ 0) ⊎ (1 ≤ n)
    → value + n * 2 ^ shift < 2 ^ 64
    → varint_loop start (varint_bytes n ++ rest) at value shift
      ≡ ok (value + n * 2 ^ shift) (record { rest = rest; at = at + length (varint_bytes n) })
loop-varint_bytes zero n start at value shift rest hn hs hv hz ht =
    rw (varint_bytes_step n, lt→leb_false n (omega arith))
      (round_last start n at value shift rest (omega arith) hv hz
        ∙ fits start (value + n * 2 ^ shift) (at + 1) rest ht)
loop-varint_bytes (suc j) n start at value shift rest hn hs hv hz ht =
    elim (Bool-cases (leb 128 n)) [
      | inl more ↦
          let big : 128 ≤ n = ground arith in
          let p : 128 ^ suc (suc j) ≡ 128 * 128 ^ suc j = omega (arith, pow-suc 128 (suc j)) in
          let sum : n * 2 ^ shift ≡ n % 128 * 2 ^ shift + n / 128 * 2 ^ (shift + 7) =
            split_group n shift in
          let rec =
            loop-varint_bytes j (n / 128) start (at + 1) (value + n % 128 * 2 ^ shift) (shift + 7)
              rest (omega arith) (omega arith) (group_bound (n % 128) value shift (omega arith) hv)
              (inr (omega arith)) (omega arith) in
          rw (varint_bytes_step n, more)
            (round_more start (n % 128) at value shift (varint_bytes (n / 128) ++ rest)
                (omega arith) hv (omega arith)
              ∙ rec
              ∙ ok_eq (value + n % 128 * 2 ^ shift + n / 128 * 2 ^ (shift + 7))
                  (value + n * 2 ^ shift) (at + 1 + length (varint_bytes (n / 128)))
                  (at + suc (length (varint_bytes (n / 128)))) rest (omega arith) (omega arith))
      | inr last ↦
          rw (varint_bytes_step n, last)
            (round_last start n at value shift rest (ground arith) hv hz
              ∙ fits start (value + n * 2 ^ shift) (at + 1) rest ht)
    ]

-- A number below 2^64 that `varintBytes` wrote is read back, and the cursor stands behind it.
pub read_varint_u64-varint_bytes :
    (n at : ℕ) (rest : List ℕ)
    → n < 2 ^ 64
    → read_varint_u64 (record { rest = varint_bytes n ++ rest; at = at })
      ≡ ok n (record { rest = rest; at = at + length (varint_bytes n) })
unfolding read_varint_u64
read_varint_u64-varint_bytes n at rest h =
    loop-varint_bytes 9 n at at 0 0 rest (omega arith) (omega arith) (omega arith) (inl refl)
      (omega arith)
    ∙ ok_eq (0 + n * 2 ^ 0) n (at + length (varint_bytes n)) (at + length (varint_bytes n)) rest
        (omega arith) refl
