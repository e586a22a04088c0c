-- ===== src/Keys/Hex/RoundTrip.antt =====
-- src/keys/monero.ts, toHex and fromHex: the round trip.
use labyrinth_vault.Prelude.{
  ℕ, ◌+◌, ◌*◌, ◌%◌, ◌<◌, ◌≡◌, refl, arith, Bool, true, false, ◌&&◌, List, [], ◌∷◌, some, Text, trim,
  trim_of_ink, IsInk, IsInk-of_range, IsByte, ◌==◌, ==_iff, length, all, All,
}
use labyrinth_vault.Prelude.Bits.{all_below, all_below→}
use labyrinth_vault.Prelude.Numerals.{to_string, pad_start}
use labyrinth_vault.Keys.Hex.{to_hex, without_spaces, is_hex, hex_value, read_pairs, from_hex}

-- The two digits of a byte.
record IsPairOf (b c d : ℕ) : Type 0 where
  first : is_hex c ≡ true
  second : is_hex d ≡ true
  value : hex_value c * 16 + hex_value d ≡ b

is_pair_of : ℕ → Text → Bool
is_pair_of b (c ∷ d ∷ []) = is_hex c && is_hex d && hex_value c * 16 + hex_value d == b
is_pair_of b _ = false

pair_table : (b : ℕ) → b < 256 → is_pair_of b (pad_start 2 b'0' (to_string 16 b)) ≡ true
unfolding all_below is_pair_of is_hex hex_value pad_start to_string
pair_table b h =
    all_below→ 256 (λ (b : ℕ). is_pair_of b (pad_start 2 b'0' (to_string 16 b))) b refl h

IsPairOf-of_test :
    (b : ℕ) (t : Text) → is_pair_of b t ≡ true → (c d : ℕ) × (t ≡ c ∷ d ∷ []) × IsPairOf b c d
unfolding is_pair_of
IsPairOf-of_test b [] h = cc
IsPairOf-of_test b (c ∷ []) h = cc
IsPairOf-of_test b (c ∷ d ∷ []) h =
    (c, d, refl, ground (arith, ==_iff (hex_value c * 16 + hex_value d) b))
IsPairOf-of_test b (c ∷ d ∷ e ∷ t) h = cc

is_hex-IsInk : (c : ℕ) → is_hex c ≡ true → IsInk c
unfolding is_hex
is_hex-IsInk c h = IsInk-of_range c (ground arith) (ground arith)

-- What a text of pairs is to `fromHex`.
record IsHexOf (bytes : List ℕ) (t : Text) : Type 0 where
  ink : All IsInk t
  digits : all is_hex t ≡ true
  even : length t % 2 ≡ 0
  pairs : read_pairs t ≡ bytes

to_hex-IsHexOf : (bytes : List ℕ) → All IsByte bytes → IsHexOf bytes (to_hex bytes)
unfolding to_hex read_pairs
to_hex-IsHexOf [] h = record { ink = tt; digits = refl; even = refl; pairs = refl }
to_hex-IsHexOf (b ∷ bs) h =
    let (c, d, e, p) = IsPairOf-of_test b (pad_start 2 b'0' (to_string 16 b)) (pair_table b h.0) in
    let r = to_hex-IsHexOf bs h.1 in
    rw e (record {
      ink = (is_hex-IsInk c p.first, (is_hex-IsInk d p.second, r.ink));
      digits = ground (arith, p.first, p.second, r.digits);
      even = omega (arith, r.even);
      pairs = rw (p.value, r.pairs);
    })

without_spaces_of_ink : (t : Text) → All IsInk t → without_spaces t ≡ t
unfolding without_spaces
without_spaces_of_ink [] h = refl
without_spaces_of_ink (c ∷ t) h = rw (h.0, without_spaces_of_ink t h.1)

-- The bytes that `toHex` writes, `fromHex` reads.
pub from_hex-to_hex : (bytes : List ℕ) → All IsByte bytes → from_hex (to_hex bytes) ≡ some bytes
unfolding from_hex
from_hex-to_hex bytes h =
    let r = to_hex-IsHexOf bytes h in
    rw (
      trim_of_ink (to_hex bytes) r.ink,
      without_spaces_of_ink (to_hex bytes) r.ink,
      r.digits,
      r.even,
      r.pairs,
    )

hex_value-lt : (c : ℕ) → is_hex c ≡ true → hex_value c < 16
unfolding is_hex hex_value
hex_value-lt c h = ground arith

read_pairs-IsByte : (t : Text) → all is_hex t ≡ true → All IsByte (read_pairs t)
unfolding read_pairs
read_pairs-IsByte [] h = tt
read_pairs-IsByte (c ∷ []) h = tt
read_pairs-IsByte (c ∷ d ∷ t) h =
    let hc : is_hex c ≡ true = ground arith in
    let hd : is_hex d ≡ true = ground arith in
    let ht : all is_hex t ≡ true = ground arith in
    (omega (arith, hex_value-lt c hc, hex_value-lt d hd), read_pairs-IsByte t ht)

-- What `fromHex` gives is bytes.
pub from_hex-IsByte : (t : Text) (b : List ℕ) → from_hex t ≡ some b → All IsByte b
unfolding from_hex
from_hex-IsByte t b e =
    let clean = without_spaces (trim t) in
    let d : all is_hex (without_spaces (trim t)) ≡ true = ground arith in
    let p : read_pairs (without_spaces (trim t)) ≡ b = ground arith in
    rw (← p) (read_pairs-IsByte (without_spaces (trim t)) d)
