-- ===== src/Wallet/Change.antt =====
-- wallet/src/core/build.ts: where the next change output goes.
pub mod Fresh
use labyrinth_vault.Prelude.{
  ℕ, ◌+◌, ◌-◌, ◌^◌, Bool, true, false, ◌&&◌, List, [], ◌∷◌, Option, none, some, Text, codes,
  if◌then◌else◌, ltb, leb, ◌==◌, is_digit, ◌>>=◌, ◌>>◌, guard, all, length, max,
}
use labyrinth_vault.Prelude.Numerals.{number_of}
use labyrinth_vault.Prelude.Integers.{ℤ, pos, negsuc}

-- What the scan says of an address.
pub record Scanned : Type 0 where
  pub path : Option Text
  pub used : Bool

-- `/^1\/(\d+)$/`, and the number, unless it is past the largest safe integer: from there on a double
-- may hold another number, and none that is safe.
match_change : Text → Option ℕ
match_change (c ∷ d ∷ digits) = do
  guard (c == b'1' && d == b'/')
  guard (ltb 0 (length digits) && all is_digit digits)
  guard (ltb (number_of digits) (2 ^ 53))
  some (number_of digits)
match_change _ = none

pub change_index : Scanned → Option ℕ
unfolding match_change
change_index e = e.path >>= match_change

-- The two variables of the loop. `past_used` is `highestUsed + 1`, which begins at minus one.
pub record Seen : Type 0 where
  pub past_used : ℕ
  pub first_unused : Option ℕ

abbrev pub lower : ℕ → Option ℕ → Option ℕ
lower i none = some i
lower i (some j) = if ltb i j then some i else some j

pub see : Seen → Scanned → Seen
see s e = elim (change_index e) [
  | none ↦ s
  | some i ↦
      if e.used
      then record s { past_used = max s.past_used (i + 1) }
      else record s { first_unused = lower i s.first_unused }
]

pub see_all : Seen → List Scanned → Seen
see_all s [] = s
see_all s (e ∷ es) = see_all (see s e) es

pub base_of : Seen → ℕ
base_of s = elim (s.first_unused) [
  | none ↦ s.past_used
  | some i ↦ if leb s.past_used i then i else s.past_used
]

abbrev pub at_least_zero : ℤ → ℕ
at_least_zero (pos n) = n
at_least_zero (negsuc n) = 0

unfoldable pub next_change_index : List Scanned → ℤ → ℕ
unfolding see_all see base_of change_index
next_change_index addresses ahead =
    base_of (see_all (record { past_used = 0; first_unused = none }) addresses)
    + at_least_zero ahead
