-- ===== src/Keys/Hex.antt =====
-- src/keys/monero.ts, toHex and fromHex.
pub mod RoundTrip
use labyrinth_vault.Prelude.{
  ℕ, zero, suc, ◌+◌, ◌-◌, ◌*◌, ◌%◌, ◌++◌, Bool, true, false, not, ◌&&◌, ◌||◌, List, [], ◌∷◌, Option,
  none, some, Text, is_digit, is_space, trim, if◌then◌else◌, leb, ◌==◌, length, all,
}
use labyrinth_vault.Prelude.Numerals.{to_string, pad_start}

unfoldable pub to_hex : List ℕ → Text
unfolding pad_start to_string
to_hex [] = []
to_hex (b ∷ bs) = pad_start 2 b'0' (to_string 16 b) ++ to_hex bs

-- `replace(/\s+/g, '')`
pub without_spaces : Text → Text
without_spaces [] = []
without_spaces (c ∷ s) = let rest = without_spaces s in if is_space c then rest else c ∷ rest

-- `[0-9a-fA-F]`
pub is_hex : ℕ → Bool
is_hex c = is_digit c || (leb b'a' c && leb c b'f') || (leb b'A' c && leb c b'F')

pub hex_value : ℕ → ℕ
hex_value c = if is_digit c then c - b'0' else if leb b'a' c then c - b'a' + 10 else c - b'A' + 10

-- The loop: `parseInt(…, 16)` of two characters at a time.
pub read_pairs : Text → List ℕ
unfolding hex_value
read_pairs [] = []
read_pairs (c ∷ []) = []
read_pairs (c ∷ d ∷ s) = (hex_value c * 16 + hex_value d) ∷ read_pairs s

unfoldable pub from_hex : Text → Option (List ℕ)
unfolding without_spaces is_hex read_pairs trim
from_hex hex =
    let clean = without_spaces (trim hex) in
    if not (all is_hex clean) || not (length clean % 2 == 0) then none else some (read_pairs clean)
