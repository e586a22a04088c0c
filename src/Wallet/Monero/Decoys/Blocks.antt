-- ===== src/Wallet/Monero/Decoys/Blocks.antt =====
-- decoys.ts, blockOf: the block in which an output lives.
use labyrinth_vault.Prelude.{
  ℕ, zero, suc, ◌+◌, ◌-◌, ◌/◌, ◌≤◌, ◌<◌, ◌≡◌, refl, arith, List, ltb, leb, length, ◌⊎◌, inl, inr,
  Bool-cases,
}
use labyrinth_vault.Wallet.Monero.Decoys.{count_at, search, block_of}

-- The total up to the block exceeds the index, and the total up to the one before does not.
pub record IsBlockOf (cumulative : List ℕ) (global_index block : ℕ) : Type 0 where
  pub reached : global_index < count_at cumulative block
  pub first : (block ≡ 0) ⊎ (count_at cumulative (block - 1) ≤ global_index)

search-IsBlockOf :
    (xs : List ℕ) (g fuel lo hi : ℕ)
    → lo ≤ hi
    → hi - lo ≤ fuel
    → g < count_at xs hi
    → (lo ≡ 0) ⊎ (count_at xs (lo - 1) ≤ g)
    → IsBlockOf xs g (search xs g fuel lo hi)
unfolding search
search-IsBlockOf xs g zero lo hi le short above below =
    let same : hi ≡ lo = omega arith in record { reached = rw (← same) above; first = below }
search-IsBlockOf xs g (suc fuel) lo hi le short above below = elim (Bool-cases (ltb lo hi)) [
  | inr done ↦
      let same : hi ≡ lo = ground arith in
      rw done (record { reached = rw (← same) above; first = below })
  | inl more ↦
      let lt : lo < hi = ground arith in
      elim (Bool-cases (leb (count_at xs ((lo + hi) / 2)) g)) [
        | inl e ↦
            let back : (lo + hi) / 2 + 1 - 1 ≡ (lo + hi) / 2 = omega arith in
            let passed : count_at xs ((lo + hi) / 2) ≤ g = ground arith in
            rw (more, e)
              (search-IsBlockOf xs g fuel ((lo + hi) / 2 + 1) hi (omega arith) (omega arith) above
                (inr (rw back passed)))
        | inr e ↦
            rw (more, e)
              (search-IsBlockOf xs g fuel lo ((lo + hi) / 2) (omega arith) (omega arith)
                (ground arith) below)
      ]
]

-- For an index below the last total, the search ends on a block whose total exceeds it while that of
-- the block before does not.
pub block_of-IsBlockOf :
    (cumulative : List ℕ) (global_index : ℕ)
    → global_index < count_at cumulative (length cumulative - 1)
    → IsBlockOf cumulative global_index (block_of cumulative global_index)
unfolding block_of
block_of-IsBlockOf xs g h =
    search-IsBlockOf xs g (length xs) 0 (length xs - 1) (omega arith) (omega arith) h (inl refl)
