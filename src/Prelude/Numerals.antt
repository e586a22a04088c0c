-- ===== src/Prelude/Numerals.antt =====
-- Numbers as text: `toString(radix)`, `padStart`, and `Number` of a run of digits.
pub mod ReadBack
use labyrinth_vault.Prelude.Tests.{ltb, if◌then◌else◌}
use labyrinth_vault.Prelude.Texts.{Text}
use labyrinth_vault.Prelude.Lists.{length}
use Prim.Native.Nat.{ℕ, zero, suc, ◌+◌, ◌-◌, ◌*◌, ◌/◌, ◌%◌}
use mathlib.Core.List.{[], ◌∷◌, ◌++◌}

-- A digit below 36, in lower case.
abbrev pub digit_char : ℕ → ℕ
digit_char d = if ltb d 10 then b'0' + d else b'a' + d - 10

-- With as much fuel as the number, since a division by a radix above 1 makes it smaller.
pub digits_of : ℕ → ℕ → ℕ → Text
digits_of zero radix n = digit_char n ∷ []
digits_of (suc fuel) radix n =
    let rest = digits_of fuel radix (n / radix) ++ digit_char (n % radix) ∷ [] in
    if ltb n radix then digit_char n ∷ [] else rest

-- `n.toString(radix)`
unfoldable pub to_string : ℕ → ℕ → Text
unfolding digits_of
to_string radix n = digits_of n radix n

replicate : ℕ → ℕ → Text
replicate zero c = []
replicate (suc n) c = c ∷ replicate n c

-- `s.padStart(width, c)`
unfoldable pub pad_start : ℕ → ℕ → Text → Text
unfolding replicate
pad_start width c s = replicate (width - length s) c ++ s

-- `s.padEnd(width, c)`
unfoldable pub pad_end : ℕ → ℕ → Text → Text
unfolding replicate
pad_end width c s = s ++ replicate (width - length s) c

-- `Number(s)` of decimal digits.
number_from : ℕ → Text → ℕ
number_from acc [] = acc
number_from acc (c ∷ s) = number_from (acc * 10 + (c - b'0')) s

unfoldable pub number_of : Text → ℕ
unfolding number_from
number_of s = number_from 0 s
