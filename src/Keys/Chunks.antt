-- ===== src/Keys/Chunks.antt =====
-- src/keys/monerowire.ts, cat, and the loops that push one part for each item.
use labyrinth_vault.Prelude.{ℕ, ◌++◌, List, [], ◌∷◌, Option, some, ◌>>=◌}
use labyrinth_vault.Keys.Varint.{varint_bytes}

-- `cat`
abbrev pub cat : List (List ℕ) → List ℕ
cat [] = []
cat (c ∷ cs) = c ++ cat cs

-- A loop that writes each item, one after the other.
module _ {A : Type 0} (write : A → Option (List ℕ)) where
  unfoldable pub write_all : List A → Option (List ℕ)
  write_all [] = some []
  write_all (x ∷ xs) = do a ← write x; b ← write_all xs; some (a ++ b)

unfoldable pub write_varints : List ℕ → List ℕ
write_varints [] = []
write_varints (n ∷ ns) = varint_bytes n ++ write_varints ns
