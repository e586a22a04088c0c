-- ===== src/Wallet/Units/Parsing.antt =====
-- wallet/src/core/units.ts, parseAmount: typed text as an amount.
pub mod RoundTrip
use labyrinth_vault.Prelude.{
  ℕ, zero, suc, ◌+◌, ◌*◌, Bool, true, false, not, ◌&&◌, List, [], ◌∷◌, Text, trim, is_space,
  is_digit, if◌then◌else◌, ltb, ◌==◌, length, all,
}
use labyrinth_vault.Prelude.Numerals.{number_of, pad_end}
use labyrinth_vault.Wallet.Model.{Asset}
use labyrinth_vault.Wallet.Units.{atoms_per_unit, decimals}

pub data ParseResult : Type 0 where
  ok : ℕ → ParseResult
  enter_an_amount numbers_only : ParseResult
  too_many_places : ℕ → ParseResult

-- `replace(/,/g, '').replace(/\s/g, '')`
pub clean : Text → Text
clean [] = []
clean (c ∷ s) =
    let rest = clean s in if c == b',' then rest else if is_space c then rest else c ∷ rest

-- What stands before the first dot, and what stands behind it.
pub before_dot : Text → Text
before_dot [] = []
before_dot (c ∷ s) = let rest = before_dot s in if c == b'.' then [] else c ∷ rest

pub after_dot : Text → Text
after_dot [] = []
after_dot (c ∷ s) = let rest = after_dot s in if c == b'.' then s else rest

-- `/^\d*\.?\d*$/`
pub is_decimal : Text → Bool
unfolding before_dot after_dot
is_decimal s = all is_digit (before_dot s) && all is_digit (after_dot s)

-- The parts of a decimal that is not too long.
pub amount_of : Text → Asset → ParseResult
unfolding before_dot after_dot
amount_of cleaned asset =
    let whole = number_of (before_dot cleaned) in
    let fraction = number_of (pad_end (decimals asset) b'0' (after_dot cleaned)) in
    let atoms = whole * atoms_per_unit asset + fraction in
    if atoms == 0 then enter_an_amount else ok atoms

pub is_blank : Text → Bool
is_blank [] = true
is_blank (c ∷ []) = c == b'.'
is_blank (c ∷ d ∷ s) = false

unfoldable pub parse_amount : Text → Asset → ParseResult
unfolding clean is_blank is_decimal amount_of
parse_amount text asset =
    let cleaned = clean (trim text) in
    if is_blank cleaned
    then enter_an_amount
    else if not (is_decimal cleaned)
    then numbers_only
    else if ltb (decimals asset) (length (after_dot cleaned))
    then too_many_places (decimals asset)
    else amount_of cleaned asset
