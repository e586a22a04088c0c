-- ===== src/Keys/Offsets.antt =====
-- src/keys/monerowire.ts, absoluteToRelative: the offsets of a ring.
use labyrinth_vault.Prelude.{ℕ, ◌-◌, List, [], ◌∷◌, Option, some, ◌>>=◌, ◌>>◌, guard, leb}

-- The loop of `absoluteToRelative`.
pub relative_from : ℕ → List ℕ → Option (List ℕ)
relative_from prev [] = some []
relative_from prev (index ∷ indices) = do
  guard (leb prev index)
  rest ← relative_from index indices
  some ((index - prev) ∷ rest)

unfoldable pub absolute_to_relative : List ℕ → Option (List ℕ)
unfolding relative_from
absolute_to_relative indices = relative_from 0 indices
