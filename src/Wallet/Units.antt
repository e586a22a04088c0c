-- ===== src/Wallet/Units.antt =====
-- wallet/src/core/units.ts: amounts as text for a screen, and text in groups to be compared by eye;
-- and coinpick.ts, chunkAddress. Amounts are not negative here.
pub mod Groups
pub mod Parsing
mod Runs
use labyrinth_vault.Prelude.{
  ℕ, zero, suc, ◌+◌, ◌-◌, ◌*◌, ◌/◌, ◌%◌, ◌^◌, ◌++◌, ◌≤◌, Bool, true, false, List, [], ◌∷◌, Text,
  trim, if◌then◌else◌, ltb, leb, ◌==◌, length, take, drop, max, min,
}
use labyrinth_vault.Prelude.Numerals.{to_string, pad_start}
use labyrinth_vault.Wallet.Model.{Asset, btc, xmr}

-- ATOMS_PER_UNIT
abbrev pub atoms_per_unit : Asset → ℕ
atoms_per_unit btc = 100000000
atoms_per_unit xmr = 1000000000000

-- DECIMALS
abbrev pub decimals : Asset → ℕ
decimals btc = 8
decimals xmr = 12

pub record Parts : Type 0 where
  pub whole : Text
  pub fraction : Text
  pub significant : ℕ

-- `replace(/0+$/, '')`
pub strip_zeros : Text → Text
strip_zeros [] = []
strip_zeros (c ∷ s) =
    let rest = strip_zeros s in
    elim rest [ [] ↦ (if c == b'0' then [] else c ∷ []) | d ∷ t ↦ c ∷ d ∷ t ]

unfoldable pub split_amount : ℕ → Asset → Parts
unfolding strip_zeros
split_amount atoms asset =
    let fraction =
      strip_zeros (pad_start (decimals asset) b'0' (to_string 10 (atoms % atoms_per_unit asset))) in
    record {
      whole = to_string 10 (atoms / atoms_per_unit asset);
      fraction = fraction;
      significant = min (length fraction) (elim asset [ btc ↦ 6 | xmr ↦ 4 ]);
    }

unfoldable pub format_amount : ℕ → Asset → Text
unfolding split_amount
format_amount atoms asset =
    let p = split_amount atoms asset in
    if length p.fraction == 0 then p.whole else p.whole ++ b'.' ∷ p.fraction

-- `Math.round` has made the price a whole number of cents.
unfoldable pub fiat_cents : ℕ → Asset → ℕ → ℕ
fiat_cents atoms asset cents_per_unit =
    let per = atoms_per_unit asset in
    let scaled = atoms * cents_per_unit in
    if leb per (scaled % per * 2) then scaled / per + 1 else scaled / per

-- Middle-elided, with U+2026 for what is left out. `slice(-0)` is the whole text.
unfoldable pub elide : Text → ℕ → ℕ → Text
elide text head tail =
    if leb (length text) (head + tail + 1)
    then text
    else take head text ++ 0x2026 ∷ (if tail == 0 then text else drop (length text - tail) text)

-- The loop of both functions below, with as much fuel as the text has characters: a step takes one.
pub groups_from : ℕ → ℕ → Text → List Text
groups_from zero size s = []
groups_from (suc fuel) size [] = []
groups_from (suc fuel) size (c ∷ s) = take size (c ∷ s) ∷ groups_from fuel size (drop size (c ∷ s))

-- A size of at least one: with none, the source's loop does not end.
unfoldable pub in_groups : Text → ℕ → List Text
unfolding groups_from
in_groups text size = groups_from (length text) size text

unfoldable pub chunk_address : Text → ℕ → List Text
unfolding groups_from
chunk_address address size =
    let clean = trim address in groups_from (length clean) (max 1 size) clean
