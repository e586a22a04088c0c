-- ===== src/Airgap/Bytewords/Tables.antt =====
-- bytewords.ts: facts about the table of words that evaluation decides.
use labyrinth_vault.Prelude.{
  ℕ, ◌≡◌, refl, Bool, true, false, ◌&&◌, [], ◌∷◌, Option, none, some, ◌==◌, is_lower,
}
use labyrinth_vault.Prelude.Bits.{all_below}
use labyrinth_vault.Airgap.Bytewords.{minimal_for, minimal_index, find}

unfoldable pub is_found : Option ℕ → ℕ → Bool
is_found none x = false
is_found (some y) x = y == x

unfoldable pub is_pair : ℕ → Bool
unfolding is_found
is_pair x = elim (minimal_for x) [
  | c ∷ d ∷ [] ↦ is_lower c && is_lower d && is_found (find (c ∷ d ∷ []) minimal_index) x
  | _ ↦ false
]

pub pair_table : all_below 256 is_pair ≡ true
unfolding all_below is_pair minimal_for minimal_index find
pair_table = refl
