-- ===== src/Airgap/Crc/Change.antt =====
-- src/airgap/envelope.ts, crc32 and digestOf: payloads that differ in one byte.
use labyrinth_vault.Prelude.{
  ℕ, zero, suc, ◌+◌, ◌/◌, ◌^◌, ◌<◌, bit_and, bit_xor, List, [], ◌∷◌, ◌++◌, ◌==◌, ◌≡◌, ◌≢◌, refl, ap,
  sym, ◌∙◌, arith, Bool, true, false, ◌&&◌, ltb, IsByte, All, ==_iff, ltb→lt, leb, ◌||◌, length,
}
use labyrinth_vault.Prelude.Bits.{bit_and_low, all_below, all_below→}
use labyrinth_vault.Prelude.Xor.{
  bit_xor_shift8, bit_xor_shift24, bit_xor-zero, bit_xor_cancel_left, bit_xor_cancel_right,
  bit_xor-lt,
}
use labyrinth_vault.Prelude.Numerals.{to_string}
use labyrinth_vault.Prelude.Numerals.ReadBack.{
  length-pad_start-to_string, padded_injective, All-pad_start, All-to_string,
}
use labyrinth_vault.Airgap.Crc.{crc_table, crc_step, crc_from, crc32, digest_of}

check_value : crc32 (b'1' ∷ b'2' ∷ b'3' ∷ b'4' ∷ b'5' ∷ b'6' ∷ b'7' ∷ b'8' ∷ b'9' ∷ []) ≡ 0xcbf43926
unfolding crc32
check_value = refl

-- Where in the table the highest byte `t` stands.
find_top : ℕ → ℕ → ℕ → ℕ
find_top zero i t = 256
find_top (suc n) i t = elim (crc_table i / 2 ^ 24 == t) [ true ↦ i | false ↦ find_top n (i + 1) t ]

find_top_table : all_below 256 (λ i. find_top 256 0 (crc_table i / 2 ^ 24) == i) ≡ true
unfolding all_below find_top crc_table
find_top_table = refl

range_table : all_below 256 (λ i. ltb (crc_table i) (2 ^ 32)) ≡ true
unfolding all_below crc_table
range_table = refl

-- The highest byte of an entry names its place in the table.
top_injective : (i j : ℕ) → i < 256 → j < 256 → crc_table i / 2 ^ 24 ≡ crc_table j / 2 ^ 24 → i ≡ j
top_injective i j hi hj e = ground (
  arith,
  (==_iff _ i).0 (all_below→ 256 _ i find_top_table hi),
  (==_iff _ j).0 (all_below→ 256 _ j find_top_table hj),
  ap (find_top 256 0) e,
)

crc_table-lt : (i : ℕ) → i < 256 → crc_table i < 2 ^ 32
crc_table-lt i h = ltb→lt _ _ (all_below→ 256 _ i range_table h)

abbrev IsWord : ℕ → Type 0
IsWord s = s < 2 ^ 32

-- The place in the table that a state and a byte choose.
abbrev place : ℕ → ℕ → ℕ
place s b = bit_and (bit_xor s b) 0xff

place-lt : (s b : ℕ) → place s b < 256
place-lt s b = rw (bit_and_low 8 (bit_xor s b)) (omega arith)

crc_step-lt : (s b : ℕ) → IsWord s → IsWord (crc_step s b)
unfolding crc_step
crc_step-lt s b h =
    bit_xor-lt 32 (crc_table (place s b)) (s / 2 ^ 8) (crc_table-lt _ (place-lt s b)) (omega arith)

crc_step_top : (s b : ℕ) → IsWord s → crc_step s b / 2 ^ 24 ≡ crc_table (place s b) / 2 ^ 24
unfolding crc_step
crc_step_top s b h =
    let small : s / 2 ^ 8 / 2 ^ 24 ≡ 0 = omega arith in
    bit_xor_shift24 (crc_table (place s b)) (s / 2 ^ 8) ∙ rw (small) (bit_xor-zero _)

high_part : (s b : ℕ) → IsByte b → bit_xor s b / 2 ^ 8 ≡ s / 2 ^ 8
high_part s b h =
    let small : b / 2 ^ 8 ≡ 0 = omega arith in bit_xor_shift8 s b ∙ rw small (bit_xor-zero _)

-- A step loses nothing: its result fixes the exclusive or of the state and the byte.
crc_step_injective :
    (s t b c : ℕ)
    → IsWord s
    → IsWord t
    → IsByte b
    → IsByte c
    → crc_step s b ≡ crc_step t c
    → bit_xor s b ≡ bit_xor t c
unfolding crc_step
crc_step_injective s t b c hs ht hb hc e =
    let places : place s b ≡ place t c =
      top_injective (place s b) (place t c) (place-lt s b) (place-lt t c)
        (sym (crc_step_top s b hs) ∙ ap (λ x. x / 2 ^ 24) e ∙ crc_step_top t c ht) in
    let highs : s / 2 ^ 8 ≡ t / 2 ^ 8 =
      bit_xor_cancel_left (crc_table (place t c)) (s / 2 ^ 8) (t / 2 ^ 8) (rw places at e) in
    omega (
      arith,
      high_part s b hb,
      high_part t c hc,
      bit_and_low 8 (bit_xor s b),
      bit_and_low 8 (bit_xor t c),
    )

crc_from-lt : (s : ℕ) (bytes : List ℕ) → IsWord s → IsWord (crc_from s bytes)
unfolding crc_from
crc_from-lt s [] h = h
crc_from-lt s (b ∷ bytes) h = crc_from-lt (crc_step s b) bytes (crc_step-lt s b h)

crc_from_injective :
    (s t : ℕ) (bytes : List ℕ)
    → IsWord s
    → IsWord t
    → All IsByte bytes
    → crc_from s bytes ≡ crc_from t bytes
    → s ≡ t
unfolding crc_from
crc_from_injective s t [] hs ht hb e = e
crc_from_injective s t (b ∷ bytes) hs ht hb e = bit_xor_cancel_right b s t (
    crc_step_injective s t b b hs ht hb.0 hb.0 (
      crc_from_injective (crc_step s b) (crc_step t b) bytes (crc_step-lt s b hs)
        (crc_step-lt t b ht) hb.1 e))

crc_from_change :
    (s : ℕ) (front back : List ℕ) (b c : ℕ)
    → IsWord s
    → IsByte b
    → IsByte c
    → All IsByte back
    → crc_from s (front ++ b ∷ back) ≡ crc_from s (front ++ c ∷ back)
    → b ≡ c
unfolding crc_from
crc_from_change s [] back b c hs hb hc h e = bit_xor_cancel_left s b c (
    crc_step_injective s s b c hs hs hb hc (
      crc_from_injective (crc_step s b) (crc_step s c) back (crc_step-lt s b hs)
        (crc_step-lt s c hs) h e))
crc_from_change s (a ∷ front) back b c hs hb hc h e =
    crc_from_change (crc_step s a) front back b c (crc_step-lt s a hs) hb hc h e

-- Two payloads of bytes that differ in exactly one byte never have the same CRC-32.
pub crc32_change :
    (front back : List ℕ) (b c : ℕ)
    → IsByte b
    → IsByte c
    → All IsByte back
    → b ≢ c
    → crc32 (front ++ b ∷ back) ≢ crc32 (front ++ c ∷ back)
unfolding crc32
crc32_change front back b c hb hc h ne e = ne (
    crc_from_change 0xffffffff front back b c (omega arith) hb hc h (
      bit_xor_cancel_right 0xffffffff (crc_from 0xffffffff (front ++ b ∷ back))
        (crc_from 0xffffffff (front ++ c ∷ back)) e))

pub crc32-lt : (bytes : List ℕ) → crc32 bytes < 2 ^ 32
unfolding crc32
crc32-lt bytes =
    bit_xor-lt 32 _ 0xffffffff (crc_from-lt 0xffffffff bytes (omega arith)) (omega arith)

-- `[0-9a-f]`
abbrev pub is_hex : ℕ → Bool
is_hex c = (leb b'0' c && leb c b'9') || (leb b'a' c && leb c b'f')

-- A digest has eight characters, all of them in `[0-9a-f]`.
pub digest_of_shape :
    (bytes : List ℕ) → (length (digest_of bytes) ≡ 8) × All (λ c. is_hex c ≡ true) (digest_of bytes)
unfolding digest_of
digest_of_shape bytes = (
  length-pad_start-to_string (crc32 bytes) (crc32-lt bytes),
  All-pad_start (λ c. is_hex c ≡ true) 8 b'0' (to_string 16 (crc32 bytes)) refl
      (All-to_string 16 (omega arith) (λ c. is_hex c ≡ true) (λ d h. ground arith) (crc32 bytes)),
)

-- Two payloads that are equal but for one byte never have the same digest text: the two values where
-- they differ are bytes, and so is all that follows.
pub digest_of_change :
    (front back : List ℕ) (b c : ℕ)
    → IsByte b
    → IsByte c
    → All IsByte back
    → b ≢ c
    → digest_of (front ++ b ∷ back) ≢ digest_of (front ++ c ∷ back)
unfolding digest_of
digest_of_change front back b c hb hc h ne e =
    crc32_change front back b c hb hc h ne (padded_injective _ _ e)
