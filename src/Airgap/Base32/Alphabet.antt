-- ===== src/Airgap/Base32/Alphabet.antt =====
-- src/airgap/envelope.ts, base32Encode: the characters and the length of its text.
use labyrinth_vault.Prelude.{
  ℕ, zero, suc, ◌+◌, ◌-◌, ◌*◌, ◌/◌, ◌%◌, ◌^◌, ◌<◌, bit_and, bit_or, Bool, ◌&&◌, ◌||◌, List, [], ◌∷◌,
  ltb, leb, Text, ◌≡◌, refl, arith, All, All-append, All-weaken, ◌∙◌, true, length, length-append,
  text_eq, eq_of_text_eq, Bool-cases, inl, inr,
}
use labyrinth_vault.Prelude.Bits.{bit_and_low, all_below, all_below→}
use labyrinth_vault.Airgap.Base32.{
  alphabet, char_at, shl, drain, encode_from, base32_encode, upper_one, to_upper,
}

-- `[A-Z2-7]`, the characters of a body.
abbrev pub is_b32 : ℕ → Bool
is_b32 c = (leb b'A' c && leb c b'Z') || (leb b'2' c && leb c b'7')

abbrev pub InAlphabet : ℕ → Type 0
InAlphabet c = (is_b32 c ≡ true) × (upper_one c ≡ c ∷ [])

class_table : all_below 32 (λ v. is_b32 (char_at alphabet v)) ≡ true
unfolding all_below
class_table = refl

upper_table :
    all_below 32 (λ v. text_eq (upper_one (char_at alphabet v)) (char_at alphabet v ∷ [])) ≡ true
unfolding all_below upper_one
upper_table = refl

pub char_at-InAlphabet : (v : ℕ) → v < 32 → InAlphabet (char_at alphabet v)
char_at-InAlphabet v h =
    (all_below→ 32 _ v class_table h, eq_of_text_eq _ _ (all_below→ 32 _ v upper_table h))

masked-InAlphabet : (x : ℕ) → InAlphabet (char_at alphabet (bit_and x 31))
masked-InAlphabet x = rw (bit_and_low 5 x) (char_at-InAlphabet (x % 2 ^ 5) (omega arith))

drain-InAlphabet : (x bits : ℕ) → All InAlphabet (drain x bits).0
unfolding drain
drain-InAlphabet x (suc (suc (suc (suc (suc bits))))) =
    (masked-InAlphabet (x / 2 ^ bits), drain-InAlphabet x bits)
drain-InAlphabet x bits = tt

pub encode_from-InAlphabet :
    (x bits : ℕ) (bytes : List ℕ) → All InAlphabet (encode_from x bits bytes)
unfolding encode_from
encode_from-InAlphabet x bits [] = elim (Bool-cases (ltb 0 bits)) [
  | inl e ↦ rw e (masked-InAlphabet (x * 2 ^ (5 - bits) % 2 ^ 32), tt)
  | inr e ↦ rw e tt
]
encode_from-InAlphabet x bits (byte ∷ bytes) =
    All-append InAlphabet _ _ (drain-InAlphabet (bit_or (shl x 8) byte) (bits + 8)) (
      encode_from-InAlphabet (bit_or (shl x 8) byte) (drain (bit_or (shl x 8) byte) (bits + 8)).1
        bytes)

pub to_upper_of_InAlphabet : (s : Text) → All InAlphabet s → to_upper s ≡ s
unfolding to_upper
to_upper_of_InAlphabet [] h = refl
to_upper_of_InAlphabet (c ∷ s) h = rw (h.0.1, to_upper_of_InAlphabet s h.1)

drain_sizes : (x bits : ℕ) → (length (drain x bits).0 ≡ bits / 5) × ((drain x bits).1 ≡ bits % 5)
unfolding drain
drain_sizes x (suc (suc (suc (suc (suc bits))))) = omega (arith, drain_sizes x bits)
drain_sizes x zero = omega arith
drain_sizes x (suc zero) = omega arith
drain_sizes x (suc (suc zero)) = omega arith
drain_sizes x (suc (suc (suc zero))) = omega arith
drain_sizes x (suc (suc (suc (suc zero)))) = omega arith

encode_from_size :
    (x bits : ℕ) (bytes : List ℕ)
    → bits < 5
    → length (encode_from x bits bytes) ≡ (8 * length bytes + bits + 4) / 5
unfolding encode_from
encode_from_size x bits [] h = ground arith
encode_from_size x bits (byte ∷ bytes) h =
    let z = bit_or (shl x 8) byte in
    rw (length-append (drain z (bits + 8)).0 (encode_from z (drain z (bits + 8)).1 bytes)) (
      omega (
        arith,
        drain_sizes z (bits + 8),
        encode_from_size z (drain z (bits + 8)).1 bytes (omega (arith, drain_sizes z (bits + 8))),
      ))

-- The text has one character for each five bits begun, all of them in `[A-Z2-7]`.
pub base32_encode_shape :
    (bytes : List ℕ)
    → (length (base32_encode bytes) ≡ (8 * length bytes + 4) / 5)
      × All (λ c. is_b32 c ≡ true) (base32_encode bytes)
unfolding base32_encode
base32_encode_shape bytes = (
  encode_from_size 0 0 bytes (omega arith) ∙ omega arith,
  All-weaken (λ c h. h.0) (encode_from 0 0 bytes) (encode_from-InAlphabet 0 0 bytes),
)
