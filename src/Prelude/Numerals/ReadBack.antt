-- ===== src/Prelude/Numerals/ReadBack.antt =====
-- Numbers as text, read back.
use labyrinth_vault.Prelude.Tests.{ltb, if◌then◌else◌, Bool-cases}
use labyrinth_vault.Prelude.Texts.{Text}
use labyrinth_vault.Prelude.Lists.{All, All-append, length, length-append}
use labyrinth_vault.Prelude.Numerals.{
  digit_char, digits_of, to_string, number_from, number_of, replicate, pad_start, pad_end,
}
use Prim.Native.Nat.{ℕ, zero, suc, ◌+◌, ◌-◌, ◌*◌, ◌/◌, ◌%◌, ◌^◌, ◌≤◌, ◌<◌}
use mathlib.Core.Path.{◌≡◌, refl, sym, ap, ◌∙◌}
use mathlib.Core.Bool.{false}
use mathlib.Core.Logic.{inl, inr, ◌≢◌}
use mathlib.Core.List.{[], ◌∷◌, ◌++◌}
use native.Mathlib.Nat.{pow-suc}
use native.Mathlib.Omega.{arith}

number_from-append :
    (acc : ℕ) (s t : Text) → number_from acc (s ++ t) ≡ number_from (number_from acc s) t
unfolding number_from
number_from-append acc [] t = refl
number_from-append acc (c ∷ s) t = number_from-append (acc * 10 + (c - b'0')) s t

number_from-digits_of : (fuel n : ℕ) → n ≤ fuel → number_from 0 (digits_of fuel 10 n) ≡ n
unfolding digits_of number_from
number_from-digits_of zero n h = ground arith
number_from-digits_of (suc fuel) n h = ground (
  arith,
  number_from-append 0 (digits_of fuel 10 (n / 10)) (digit_char (n % 10) ∷ []),
  number_from-digits_of fuel (n / 10),
)

pub number_of-to_string : (n : ℕ) → number_of (to_string 10 n) ≡ n
unfolding number_of to_string
number_of-to_string n = number_from-digits_of n n (omega arith)

-- Every character of a text is a digit below the radix.
module _ (radix : ℕ) (lo : 1 < radix) (P : ℕ → Type 0)
    (digit : (d : ℕ) → d < radix → P (digit_char d)) where
  All-digits_of : (fuel n : ℕ) → n ≤ fuel → All P (digits_of fuel radix n)
  unfolding digits_of
  All-digits_of zero n h = (digit n (omega arith), tt)
  All-digits_of (suc fuel) n h = elim (Bool-cases (ltb n radix)) [
    | inl e ↦ rw e (digit n (ground arith), tt)
    | inr e ↦ rw e (
        All-append P (digits_of fuel radix (n / radix)) (digit_char (n % radix) ∷ [])
          (All-digits_of fuel (n / radix) (smaller e)) (digit (n % radix) (grind arith), tt))
  ]
    where
      smaller : ltb n radix ≡ false → n / radix ≤ fuel
      smaller e = grind arith

  pub All-to_string : (n : ℕ) → All P (to_string radix n)
  unfolding to_string
  All-to_string n = All-digits_of n n (omega arith)

length-replicate : (n c : ℕ) → length (replicate n c) ≡ n
unfolding replicate
length-replicate zero c = refl
length-replicate (suc n) c = ap suc (length-replicate n c)

All-replicate : (P : ℕ → Type 0) (n c : ℕ) → P c → All P (replicate n c)
unfolding replicate
All-replicate P zero c p = tt
All-replicate P (suc n) c p = (p, All-replicate P n c p)

append-ne-nil : (s : Text) (c : ℕ) → s ++ c ∷ [] ≢ []
append-ne-nil [] c = λ e. cc
append-ne-nil (d ∷ s) c = λ e. cc

digits_of-ne-nil : (fuel radix n : ℕ) → digits_of fuel radix n ≢ []
unfolding digits_of
digits_of-ne-nil zero radix n = λ e. cc
digits_of-ne-nil (suc fuel) radix n = elim (Bool-cases (ltb n radix)) [
  | inl e ↦ rw e (λ q. cc)
  | inr e ↦ rw e (append-ne-nil (digits_of fuel radix (n / radix)) (digit_char (n % radix)))
]

pub to_string-ne-nil : (radix n : ℕ) → to_string radix n ≢ []
unfolding to_string
to_string-ne-nil radix n = digits_of-ne-nil n radix n

-- A number below `16 ^ (k + 1)` has at most `k + 1` hexadecimal digits.
hex_size : (fuel n k : ℕ) → n ≤ fuel → n < 16 ^ suc k → length (digits_of fuel 16 n) ≤ suc k
unfolding digits_of
hex_size zero n k h b = omega arith
hex_size (suc fuel) n zero h b = ground arith
hex_size (suc fuel) n (suc k) h b = ground (
  arith,
  pow-suc 16 (suc k),
  length-append (digits_of fuel 16 (n / 16)) (digit_char (n % 16) ∷ []),
  hex_size fuel (n / 16) k,
)

-- The hexadecimal text of a 32-bit number, padded, has eight characters.
pub length-pad_start-to_string :
    (n : ℕ) → n < 2 ^ 32 → length (pad_start 8 b'0' (to_string 16 n)) ≡ 8
unfolding pad_start to_string replicate
length-pad_start-to_string n h =
    rw (length-append (replicate (8 - length (digits_of n 16 n)) b'0') (digits_of n 16 n)) (
      omega (
        arith,
        hex_size n n 7 (omega arith) (omega arith),
        length-replicate (8 - length (digits_of n 16 n)) b'0',
      ))

pub All-pad_start :
    (P : ℕ → Type 0) (width c : ℕ) (s : Text) → P c → All P s → All P (pad_start width c s)
unfolding pad_start
All-pad_start P width c s p h =
    All-append P (replicate (width - length s) c) s (All-replicate P (width - length s) c p) h

-- Reading hexadecimal digits, to show that the padded text names its number.
hex_value : ℕ → ℕ
hex_value c = if ltb c b'a' then c - b'0' else c - b'a' + 10

read_hex : ℕ → Text → ℕ
read_hex acc [] = acc
read_hex acc (c ∷ s) = read_hex (acc * 16 + hex_value c) s

read_hex-append : (acc : ℕ) (s t : Text) → read_hex acc (s ++ t) ≡ read_hex (read_hex acc s) t
unfolding read_hex
read_hex-append acc [] t = refl
read_hex-append acc (c ∷ s) t = read_hex-append (acc * 16 + hex_value c) s t

read_hex-digits_of : (fuel n : ℕ) → n ≤ fuel → read_hex 0 (digits_of fuel 16 n) ≡ n
unfolding digits_of read_hex hex_value
read_hex-digits_of zero n h = ground arith
read_hex-digits_of (suc fuel) n h = ground (
  arith,
  read_hex-append 0 (digits_of fuel 16 (n / 16)) (digit_char (n % 16) ∷ []),
  read_hex-digits_of fuel (n / 16),
)

read_hex-replicate : (k : ℕ) → read_hex 0 (replicate k b'0') ≡ 0
unfolding read_hex replicate hex_value
read_hex-replicate zero = refl
read_hex-replicate (suc k) = read_hex-replicate k

read_hex-padded : (n : ℕ) → read_hex 0 (pad_start 8 b'0' (to_string 16 n)) ≡ n
unfolding pad_start to_string
read_hex-padded n =
    read_hex-append 0 (replicate (8 - length (digits_of n 16 n)) b'0') (digits_of n 16 n)
    ∙ rw (read_hex-replicate (8 - length (digits_of n 16 n))) (read_hex-digits_of n n (omega arith))

pub padded_injective :
    (m n : ℕ) → pad_start 8 b'0' (to_string 16 m) ≡ pad_start 8 b'0' (to_string 16 n) → m ≡ n
padded_injective m n e = sym (read_hex-padded m) ∙ ap (read_hex 0) e ∙ read_hex-padded n

number_from-replicate : (k : ℕ) (s : Text) → number_from 0 (replicate k b'0' ++ s) ≡ number_from 0 s
unfolding replicate number_from
number_from-replicate zero s = refl
number_from-replicate (suc k) s = number_from-replicate k s

-- Zeros in front do not count.
pub number_of-pad_start : (width : ℕ) (s : Text) → number_of (pad_start width b'0' s) ≡ number_of s
unfolding number_of pad_start
number_of-pad_start width s = number_from-replicate (width - length s) s

-- A number below `10 ^ (k + 1)` has at most `k + 1` decimal digits.
decimal_size : (fuel n k : ℕ) → n ≤ fuel → n < 10 ^ suc k → length (digits_of fuel 10 n) ≤ suc k
unfolding digits_of
decimal_size zero n k h b = omega arith
decimal_size (suc fuel) n zero h b = ground arith
decimal_size (suc fuel) n (suc k) h b = ground (
  arith,
  pow-suc 10 (suc k),
  length-append (digits_of fuel 10 (n / 10)) (digit_char (n % 10) ∷ []),
  decimal_size fuel (n / 10) k,
)

-- Padded to a width that its digits fit, a number's text has that width.
pub length-pad_start_decimal :
    (n k : ℕ) → n < 10 ^ suc k → length (pad_start (suc k) b'0' (to_string 10 n)) ≡ suc k
unfolding pad_start to_string
length-pad_start_decimal n k h = omega (
  arith,
  length-append (replicate (suc k - length (digits_of n 10 n)) b'0') (digits_of n 10 n),
  length-replicate (suc k - length (digits_of n 10 n)) b'0',
  decimal_size n n k (omega arith) h,
)

pub pad_end-cons :
    (width c d : ℕ) (s : Text) → pad_end (suc width) c (d ∷ s) ≡ d ∷ pad_end width c s
unfolding pad_end
pad_end-cons width c d s =
    ap (λ (k : ℕ). (d ∷ s) ++ replicate k c)
      (let e : suc width - suc (length s) ≡ width - length s = omega arith in e)

pub pad_end-nil : (width c : ℕ) → pad_end (suc width) c [] ≡ c ∷ pad_end width c []
unfolding pad_end replicate
pad_end-nil width c =
    ap (λ (k : ℕ). replicate k c) (let e : suc width - 0 ≡ suc (width - 0) = omega arith in e)
