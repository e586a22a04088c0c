-- ===== src/Airgap/Base43/RoundTrip.antt =====
-- src/airgap/base43.ts, base43Encode and base43Decode: the round trip.
use labyrinth_vault.Prelude.{
  ℕ, zero, suc, ◌+◌, ◌*◌, ◌<◌, ◌≡◌, refl, ap, arith, ◌++◌, true, false, Bool, List, [], ◌∷◌, Option,
  none, some, ◌==◌, ==_iff, ==_refl, if◌then◌else◌, All, All-drop, IsByte, drop, Bool-cases, inl,
  inr,
}
use labyrinth_vault.Prelude.Bits.{all_below, all_below→}
use labyrinth_vault.Airgap.Base43.{
  leading, number_from, digits_from, repeat, digit_char, write_digits, base43_encode, digit_of,
  read_number, base43_decode,
}
use labyrinth_vault.Airgap.Base43.Digits.{
  IsBase, IsTrimmed, number_from-digits_from, All-digits_from, digits_from-number_from_lem,
  digits_from-IsTrimmed,
}

IsBase-43 : IsBase 43
IsBase-43 = record {
  quotient = λ n d h. omega arith;
  remainder = λ n d h. omega arith;
  whole = λ m. omega arith;
  smaller = λ m h. omega arith;
  positive = λ n d h. omega arith;
  low = λ m. omega arith;
}

IsBase-256 : IsBase 256
IsBase-256 = record {
  quotient = λ n d h. omega arith;
  remainder = λ n d h. omega arith;
  whole = λ m. omega arith;
  smaller = λ m h. omega arith;
  positive = λ n d h. omega arith;
  low = λ m. omega arith;
}

is_digit_at : ℕ → Bool
is_digit_at d = elim (digit_of (digit_char d)) [ none ↦ false | some e ↦ e == d ]

-- Every digit has its own character, and only the first has that of zero.
digit_table : (d : ℕ) → d < 43 → is_digit_at d ≡ true
unfolding is_digit_at digit_of digit_char all_below
digit_table d h = all_below→ 43 is_digit_at d refl h

digit_of-digit_char : (d : ℕ) → d < 43 → digit_of (digit_char d) ≡ some d
unfolding digit_of is_digit_at
digit_of-digit_char d h = found (digit_of (digit_char d)) (digit_table d h)
  where
    found : (o : Option ℕ) → (elim o [ none ↦ false | some e ↦ e == d ]) ≡ true → o ≡ some d
    found none e = cc
    found (some x) e = ap some ((==_iff x d).0 e)

read_number-write_digits :
    (ds : List ℕ) (num : ℕ)
    → All (λ d. d < 43) ds
    → read_number num (write_digits ds) ≡ some (number_from 43 num ds)
unfolding read_number write_digits number_from
read_number-write_digits [] num h = refl
read_number-write_digits (d ∷ ds) num h =
    rw (digit_of-digit_char d h.0) (read_number-write_digits ds (num * 43 + d) h.1)

-- Only the digit 0 is written as the character `0`.
is_zero_alone : ℕ → Bool
is_zero_alone d = if d == 0 then true else if digit_char d == b'0' then false else true

zero_table : (d : ℕ) → d < 43 → is_zero_alone d ≡ true
unfolding is_zero_alone digit_char all_below
zero_table d h = all_below→ 43 is_zero_alone d refl h

leading-trimmed :
    (ds : List ℕ) → All (λ d. d < 43) ds → IsTrimmed ds → leading b'0' (write_digits ds) ≡ 0
unfolding leading write_digits is_zero_alone
leading-trimmed [] a h = refl
leading-trimmed (d ∷ ds) a h = rw (not_zero d (zero_table d a.0) h) refl
  where
    not_zero : (d : ℕ) → is_zero_alone d ≡ true → 0 < d → (digit_char d == b'0') ≡ false
    not_zero d t p = ground arith

leading-repeat :
    (n z : ℕ) (s : List ℕ)
    → leading z s ≡ 0
    → (leading z (repeat n z ++ s) ≡ n) × (drop n (repeat n z ++ s) ≡ s)
unfolding leading repeat
leading-repeat zero z s h = (h, refl)
leading-repeat (suc n) z s h = let (x, y) = leading-repeat n z s h in (rw (==_refl z) (ap suc x), y)

-- Zeros and the rest.
zeros_and_rest : (xs : List ℕ) → repeat (leading 0 xs) 0 ++ drop (leading 0 xs) xs ≡ xs
unfolding leading repeat
zeros_and_rest [] = refl
zeros_and_rest (x ∷ xs) = elim (Bool-cases (x == 0)) [
  | inl e ↦
      let zero_here : x ≡ 0 = ground arith in
      rw (e, zero_here) (ap (λ t. 0 ∷ t) (zeros_and_rest xs))
  | inr e ↦ rw e refl
]

drop-leading-IsTrimmed : (xs : List ℕ) → IsTrimmed (drop (leading 0 xs) xs)
unfolding leading
drop-leading-IsTrimmed [] = tt
drop-leading-IsTrimmed (x ∷ xs) = elim (Bool-cases (x == 0)) [
  | inl e ↦ rw e (drop-leading-IsTrimmed xs)
  | inr e ↦ rw e (ground arith)
]

digits-IsTrimmed : (m : ℕ) → IsTrimmed (digits_from 43 m m [])
unfolding digits_from
digits-IsTrimmed zero = tt
digits-IsTrimmed (suc m) =
    digits_from-IsTrimmed 43 IsBase-43 (suc m) (suc m) [] (omega arith) (omega arith)

number_from-nil : (base n : ℕ) → number_from base n [] ≡ n
unfolding number_from
number_from-nil base n = refl

-- Bytes that are written are read back, the zeros in front included.
pub base43_decode-base43_encode :
    (bytes : List ℕ) → All IsByte bytes → base43_decode (base43_encode bytes) ≡ some bytes
unfolding base43_decode base43_encode
base43_decode-base43_encode bytes h =
    let z = leading 0 bytes in
    let rest = drop z bytes in
    let num = number_from 256 0 rest in
    let ds = digits_from 43 num num [] in
    let low = All-digits_from 43 IsBase-43 num num [] tt in
    let (x, y) =
      leading-repeat z b'0' (write_digits ds) (leading-trimmed ds low (digits-IsTrimmed num)) in
    rw
      (
        x,
        y,
        read_number-write_digits ds 0 low,
        number_from-digits_from 43 IsBase-43 num num [] (omega arith),
        number_from-nil 43 num,
        digits_from-number_from_lem 256 IsBase-256 rest num (All-drop IsByte z bytes h)
            (drop-leading-IsTrimmed bytes) (omega arith),
      )
      (ap some (zeros_and_rest bytes))
