-- ===== src/Airgap/Base32/RoundTrip.antt =====
-- src/airgap/envelope.ts, base32Encode and base32Decode: the round trip.
use labyrinth_vault.Prelude.{
  ℕ, ◌+◌, ◌-◌, ◌*◌, ◌/◌, ◌%◌, ◌^◌, ◌<◌, bit_or, Bool, List, [], ◌∷◌, Option, none, some, leb, ◌==◌,
  ◌>>=◌, >>=-some, Text, ◌≡◌, refl, ap, arith, All, IsByte, ◌∙◌, true, false,
}
use labyrinth_vault.Prelude.Bits.{bit_or_sum, bit_and_low, all_below, all_below→}
use labyrinth_vault.Airgap.Base32.Alphabet.{to_upper_of_InAlphabet, encode_from-InAlphabet}
use labyrinth_vault.Airgap.Base32.{
  alphabet, char_at, index_of, shl, drain, encode_from, base32_encode, decode_from, base32_decode,
}

is_some_of : Option ℕ → ℕ → Bool
is_some_of none v = false
is_some_of (some w) v = w == v

eq-some_of : (o : Option ℕ) (v : ℕ) → is_some_of o v ≡ true → o ≡ some v
unfolding is_some_of
eq-some_of none v h = cc
eq-some_of (some w) v h = ground arith

char_table : all_below 32 (λ v. is_some_of (index_of (char_at alphabet v) alphabet) v) ≡ true
unfolding all_below is_some_of
char_table = refl

pub index_of-char_at : (v : ℕ) → v < 32 → index_of (char_at alphabet v) alphabet ≡ some v
index_of-char_at v h = eq-some_of _ v (all_below→ 32 _ v char_table h)

-- `(buffer << 5) | value` and `(buffer << 8) | byte`, in plain arithmetic.
push5 : (x v : ℕ) → v < 32 → bit_or (shl x 5) v ≡ x * 32 % 2 ^ 32 + v
push5 x v h = rw (lemma) (bit_or_sum 5 (x % 2 ^ 27) v h ∙ omega arith)
  where
    lemma : x * 2 ^ 5 % 2 ^ 32 ≡ x % 2 ^ 27 * 2 ^ 5
    lemma = omega arith

push8 : (x v : ℕ) → v < 256 → bit_or (shl x 8) v ≡ x * 256 % 2 ^ 32 + v
push8 x v h = rw (lemma) (bit_or_sum 8 (x % 2 ^ 24) v h ∙ omega arith)
  where
    lemma : x * 2 ^ 8 % 2 ^ 32 ≡ x % 2 ^ 24 * 2 ^ 8
    lemma = omega arith

-- One character of the decoder, which fills a byte or does not.
decode_short :
    (x bits v : ℕ) (text : Text)
    → v < 32
    → leb 8 (bits + 5) ≡ false
    → decode_from x bits (char_at alphabet v ∷ text)
      ≡ decode_from (x * 32 % 2 ^ 32 + v) (bits + 5) text
unfolding decode_from
decode_short x bits v text h k = rw (index_of-char_at v h, push5 x v h, k) (>>=-some _)

decode_full :
    (x bits v : ℕ) (text : Text)
    → v < 32
    → leb 8 (bits + 5) ≡ true
    → decode_from x bits (char_at alphabet v ∷ text) ≡ (
        decode_from (x * 32 % 2 ^ 32 + v) (bits + 5 - 8) text >>= λ more.
        some ((x * 32 % 2 ^ 32 + v) / 2 ^ (bits + 5 - 8) % 2 ^ 8 ∷ more))
unfolding decode_from
decode_full x bits v text h k =
    rw (index_of-char_at v h, push5 x v h, k) (rw (bit_and_low 8 _) refl)

decode_end : (x bits : ℕ) → decode_from x bits [] ≡ some []
unfolding decode_from
decode_end x bits = refl

-- The encoder's buffer after a byte, and the decoder's after a character.
abbrev enc : ℕ → ℕ → ℕ
enc x b = x * 256 % 2 ^ 32 + b

abbrev dec : ℕ → ℕ → ℕ
dec y v = y * 32 % 2 ^ 32 + v

-- The encoder holds `e` bits of its buffer `x`; the decoder has read all that is written, and
-- holds the `8 - e` bits above them in `y`.
some_head : {a b : ℕ} {xs : List ℕ} → a ≡ b → some (a ∷ xs) ≡ some (b ∷ xs)
some_head {xs} e = ap (λ t. some (t ∷ xs)) e

some_heads : {a b c d : ℕ} {xs : List ℕ} → a ≡ c → b ≡ d → some (a ∷ b ∷ xs) ≡ some (c ∷ d ∷ xs)
some_heads p q = cc

mutual
  unfolding encode_from drain

  from0 :
      (bytes : List ℕ) (x y : ℕ)
      → All IsByte bytes
      → decode_from y 0 (encode_from x 0 bytes) ≡ some (bytes)
  from0 [] x y h = decode_end y 0
  from0 (b ∷ bs) x y h =
      rw
        (
          push8 x b h.0,
          bit_and_low 5 _,
          decode_short y 0 (enc x b / 8 % 2 ^ 5) _ (omega arith) refl,
          from3 bs (enc x b) (dec y (enc x b / 8 % 2 ^ 5)) h.1,
        )
        (some_head (omega arith))

  from3 :
      (bytes : List ℕ) (x y : ℕ)
      → All IsByte bytes
      → decode_from y 5 (encode_from x 3 bytes) ≡ some ((y % 32 * 8 + x % 8) ∷ bytes)
  from3 [] x y h =
      rw
        (
          bit_and_low 5 _,
          decode_full y 5 (x * 4 % 2 ^ 32 % 2 ^ 5) [] (omega arith) refl,
          decode_end,
        )
        (some_head (omega arith))
  from3 (b ∷ bs) x y h =
      rw
        (
          push8 x b h.0,
          bit_and_low 5 _,
          bit_and_low 5 _,
          decode_full y 5 (enc x b / 64 % 2 ^ 5) _ (omega arith) refl,
          decode_short (dec y (enc x b / 64 % 2 ^ 5)) 2 (enc x b / 2 % 2 ^ 5) _ (omega arith) refl,
          from1 bs (enc x b) (dec (dec y (enc x b / 64 % 2 ^ 5)) (enc x b / 2 % 2 ^ 5)) h.1,
        )
        (some_heads (omega arith) (omega arith))

  from1 :
      (bytes : List ℕ) (x y : ℕ)
      → All IsByte bytes
      → decode_from y 7 (encode_from x 1 bytes) ≡ some ((y % 128 * 2 + x % 2) ∷ bytes)
  from1 [] x y h =
      rw
        (
          bit_and_low 5 _,
          decode_full y 7 (x * 16 % 2 ^ 32 % 2 ^ 5) [] (omega arith) refl,
          decode_end,
        )
        (some_head (omega arith))
  from1 (b ∷ bs) x y h =
      rw
        (
          push8 x b h.0,
          bit_and_low 5 _,
          decode_full y 7 (enc x b / 16 % 2 ^ 5) _ (omega arith) refl,
          from4 bs (enc x b) (dec y (enc x b / 16 % 2 ^ 5)) h.1,
        )
        (some_heads (omega arith) (omega arith))

  from4 :
      (bytes : List ℕ) (x y : ℕ)
      → All IsByte bytes
      → decode_from y 4 (encode_from x 4 bytes) ≡ some ((y % 16 * 16 + x % 16) ∷ bytes)
  from4 [] x y h =
      rw
        (
          bit_and_low 5 _,
          decode_full y 4 (x * 2 % 2 ^ 32 % 2 ^ 5) [] (omega arith) refl,
          decode_end,
        )
        (some_head (omega arith))
  from4 (b ∷ bs) x y h =
      rw
        (
          push8 x b h.0,
          bit_and_low 5 _,
          bit_and_low 5 _,
          decode_full y 4 (enc x b / 128 % 2 ^ 5) _ (omega arith) refl,
          decode_short (dec y (enc x b / 128 % 2 ^ 5)) 1 (enc x b / 4 % 2 ^ 5) _ (omega arith) refl,
          from2 bs (enc x b) (dec (dec y (enc x b / 128 % 2 ^ 5)) (enc x b / 4 % 2 ^ 5)) h.1,
        )
        (some_heads (omega arith) (omega arith))

  from2 :
      (bytes : List ℕ) (x y : ℕ)
      → All IsByte bytes
      → decode_from y 6 (encode_from x 2 bytes) ≡ some ((y % 64 * 4 + x % 4) ∷ bytes)
  from2 [] x y h =
      rw
        (
          bit_and_low 5 _,
          decode_full y 6 (x * 8 % 2 ^ 32 % 2 ^ 5) [] (omega arith) refl,
          decode_end,
        )
        (some_head (omega arith))
  from2 (b ∷ bs) x y h =
      rw
        (
          push8 x b h.0,
          bit_and_low 5 _,
          bit_and_low 5 _,
          decode_full y 6 (enc x b / 32 % 2 ^ 5) _ (omega arith) refl,
          decode_full (dec y (enc x b / 32 % 2 ^ 5)) 3 (enc x b / 1 % 2 ^ 5) _ (omega arith) refl,
          from0 bs (enc x b) (dec (dec y (enc x b / 32 % 2 ^ 5)) (enc x b / 1 % 2 ^ 5)) h.1,
        )
        (some_heads (omega arith) (omega arith))

-- Decoding what was encoded gives the bytes back.
pub decode_from-encode_from :
    (bytes : List ℕ) → All IsByte bytes → decode_from 0 0 (encode_from 0 0 bytes) ≡ some bytes
decode_from-encode_from bytes h = from0 bytes 0 0 h

-- `base32Decode` gives back the bytes that `base32Encode` was given.
pub base32_decode-base32_encode :
    (bytes : List ℕ) → All IsByte bytes → base32_decode (base32_encode bytes) ≡ some bytes
unfolding base32_decode base32_encode
base32_decode-base32_encode bytes h =
    rw (to_upper_of_InAlphabet (encode_from 0 0 bytes) (encode_from-InAlphabet 0 0 bytes))
      (decode_from-encode_from bytes h)
