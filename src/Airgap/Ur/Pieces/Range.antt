-- ===== src/Airgap/Ur/Pieces/Range.antt =====
-- src/airgap/ur.ts: the numbers of a piece's fragments under subtraction.
use labyrinth_vault.Prelude.{ℕ, ◌<◌, List, [], ◌∷◌, arith, All}
use labyrinth_vault.Airgap.Ur.Pieces.{Piece, reduce, without}

abbrev pub IsBelow : ℕ → ℕ → Type 0
IsBelow n i = i < n

without-IsBelow : (n : ℕ) (a b : List ℕ) → All (IsBelow n) a → All (IsBelow n) (without a b)
unfolding without
without-IsBelow n [] b h = tt
without-IsBelow n (x ∷ a) b h = ground (arith, without-IsBelow n a b h.1)

abbrev pub InRange : ℕ → Piece → Type 0
InRange n p = All (IsBelow n) p.indexes

pub reduce-InRange : (n : ℕ) (a b : Piece) → InRange n a → InRange n (reduce a b)
unfolding reduce
reduce-InRange n a b h = ground (arith, without-IsBelow n a.indexes b.indexes h)
