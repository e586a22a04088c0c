-- ===== src/Wallet/Monero/Decoys/Runs.antt =====
-- Concrete runs of the choice of a ring, and its theorem at a concrete input.
use labyrinth_vault.Prelude.{ℕ, ◌+◌, ◌%◌, ◌≡◌, refl, arith, List, [], ◌∷◌, none, some}
use labyrinth_vault.Wallet.Monero.Decoys.{
  OutputDistribution, Picker, make_picker, block_of, pick_one, ring, not_spendable, select_ring,
}
use labyrinth_vault.Wallet.Monero.Decoys.Hidden.{IsRing, select_ring-IsRing}

abbrev chain : OutputDistribution
chain = record { cumulative = 2 ∷ 5 ∷ 5 ∷ 9 ∷ 12 ∷ []; start_height = 100 }

abbrev picker : Picker
picker = record { cumulative = chain.cumulative; start_height = 100; spendable_count = 9 }

picker_run : make_picker chain 113 ≡ some picker
unfolding make_picker
picker_run = refl

too_young : make_picker chain 110 ≡ none
unfolding make_picker
too_young = refl

-- The empty block is passed over.
block_run : block_of chain.cumulative 5 ≡ 3
unfolding block_of
block_run = refl

-- Draws that walk through the outputs.
abbrev back : ℕ → ℕ → ℕ → ℕ × ℕ
back outputs blocks r = (r % outputs, r + 1)

abbrev place : ℕ → ℕ → ℕ × ℕ
place n r = (r, r + 1)

abbrev small_ring : List ℕ
small_ring = 6 ∷ 7 ∷ 8 ∷ []

ring_run : (select_ring (pick_one back place) picker 7 3 0).0 ≡ ring small_ring 1
unfolding select_ring pick_one block_of
ring_run = refl

late_run : (select_ring (pick_one back place) picker 9 3 0).0 ≡ not_spendable
unfolding select_ring pick_one block_of
late_run = refl

select_ring-IsRing_example : IsRing 9 3 7 small_ring 1
select_ring-IsRing_example =
    select_ring-IsRing back place picker 7 3 0 small_ring 1 (omega arith) ring_run
