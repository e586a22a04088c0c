-- ===== src/Airgap/Bbqr/Header.antt =====
-- src/airgap/bbqr.ts: the header of a frame, and its parser.
use labyrinth_vault.Prelude.{
  ℕ, ◌≡◌, ◌<◌, refl, ap, Bool, true, false, [], ◌∷◌, Option, none, some, ◌==◌, ==_iff, ltb, leb,
  Text, arith,
}
use labyrinth_vault.Prelude.Bits.{all_below, all_below→}
use labyrinth_vault.Airgap.Bbqr.{
  BbqrType, psbt, transaction, json, text, cbor, type_char, known_types, contains, base36_pair,
  digit36, read_base36_pair, frame_of, bbqr_parse_part,
}

is_number : Option ℕ → ℕ → Bool
is_number none n = false
is_number (some m) n = m == n

is_pair : ℕ → Bool
unfolding is_number
is_pair n = elim (base36_pair n) [
  | a ∷ b ∷ [] ↦ is_number (read_base36_pair (a ∷ b ∷ [])) n
  | _ ↦ false
]

pair_table : all_below 1296 is_pair ≡ true
unfolding all_below is_pair base36_pair digit36 read_base36_pair
pair_table = refl

-- The two digits of a number.
Digits : ℕ → Type 0
Digits n =
    (a : ℕ) × (b : ℕ) × (base36_pair n ≡ a ∷ b ∷ []) × (read_base36_pair (a ∷ b ∷ []) ≡ some n)

is_number-some : (o : Option ℕ) (n : ℕ) → is_number o n ≡ true → o ≡ some n
unfolding is_number
is_number-some none n h = cc
is_number-some (some m) n h = ap some ((==_iff m n).0 h)

Digits-of_pair : (n : ℕ) → n < 1296 → Digits n
unfolding Digits is_pair
Digits-of_pair n l = go (base36_pair n) refl (all_below→ 1296 is_pair n pair_table l)
  where
    go :
        (w : Text)
        → base36_pair n ≡ w
        → (elim w [ a ∷ b ∷ [] ↦ is_number (read_base36_pair (a ∷ b ∷ [])) n | _ ↦ false ]) ≡ true
        → Digits n
    go [] e h = cc
    go (a ∷ []) e h = cc
    go (a ∷ b ∷ []) e h = (a, b, e, is_number-some _ n h)
    go (a ∷ b ∷ c ∷ w) e h = cc

type_known : (t : BbqrType) → contains (type_char t) known_types ≡ true
unfolding contains
type_known psbt = refl
type_known transaction = refl
type_known json = refl
type_known text = refl
type_known cbor = refl

in_range : (parts i : ℕ) → i < parts → (leb 1 parts ≡ true) × (ltb i parts ≡ true)
in_range parts i h = (ground arith, ground arith)

-- A frame of a series of at most 1295 parts is read back as the part it was written for.
pub bbqr_parse_part-frame_of :
    (t : BbqrType) (parts i : ℕ) (body : Text)
    → parts < 1296
    → i < parts
    → bbqr_parse_part (frame_of t parts i body)
      ≡ some (record { encoding = b'2'; type = type_char t; parts = parts; index = i; body = body })
unfolding bbqr_parse_part frame_of Digits
bbqr_parse_part-frame_of t parts i body l h =
    let (a, b, e, r) = Digits-of_pair parts l in
    let (c, d, f, s) = Digits-of_pair i (omega (arith, l, h)) in
    let (low, high) = in_range parts i h in rw (e, f, type_known t, r, s, low, high) refl
