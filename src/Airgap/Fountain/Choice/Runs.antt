-- ===== src/Airgap/Fountain/Choice/Runs.antt =====
-- The choice of fragments in a concrete run, with a generator that always draws the upper end.
use labyrinth_vault.Prelude.{ℕ, ◌≡◌, refl, arith, List, [], ◌∷◌, some, All}
use labyrinth_vault.Airgap.Ur.Pieces.Range.{IsBelow}
use labyrinth_vault.Airgap.Ur.Message.{IsDistinct}
use labyrinth_vault.Airgap.Fountain.Choice.{choose_fragments}
use labyrinth_vault.Airgap.Fountain.Choice.Promises.{IsDraw, choose_fragments-IsDistinct}

abbrev last_of : ℕ → ℕ → ℕ → ℕ × ℕ
last_of r lo hi = (hi, r)

abbrev seed : ℕ → ℕ → ℕ
seed seq_num checksum = seq_num

abbrev two : ℕ → ℕ → ℕ × ℕ
two n r = (2, r)

last_of-IsDraw : IsDraw last_of
unfolding IsDraw
last_of-IsDraw r lo hi h = (h, omega arith)

mixed_run : choose_fragments last_of seed two 9 4 77 ≡ some (3 ∷ 2 ∷ [])
unfolding choose_fragments
mixed_run = refl

plain_run : choose_fragments last_of seed two 2 4 77 ≡ some (1 ∷ [])
unfolding choose_fragments
plain_run = refl

choose_fragments-IsDistinct_example :
    (is : List ℕ) × (choose_fragments last_of seed two 9 4 77 ≡ some is)
    × All (IsBelow 4) is
    × IsDistinct is
choose_fragments-IsDistinct_example =
    choose_fragments-IsDistinct last_of seed two last_of-IsDraw 9 4 77 (omega arith) (omega arith)
