-- ===== src/Wallet/Monero/Decoys.antt =====
-- wallet/src/core/decoys.ts: the ring that one real output hides in. The draws are doubles, so how
-- far back a draw goes and where in a block it falls are parameters over a generator `R`.
pub mod Blocks
pub mod Hidden
mod Runs
use labyrinth_vault.Prelude.{
  ℕ, zero, suc, ◌+◌, ◌-◌, ◌*◌, ◌/◌, Bool, true, false, ◌||◌, ◌++◌, List, [], ◌∷◌, Option, none,
  some, ltb, leb, ◌==◌, if◌then◌else◌, length, get_elem?, min,
}

-- wallet/src/net/monerod.ts
pub record OutputDistribution : Type 0 where
  pub cumulative : List ℕ
  pub start_height : ℕ

pub record Picker : Type 0 where
  pub cumulative : List ℕ
  pub start_height : ℕ
  pub spendable_count : ℕ

-- SPENDABLE_AGE
abbrev pub spendable_age : ℕ
spendable_age = 10

pub count_at : List ℕ → ℕ → ℕ
count_at xs i = elim (get_elem? xs i) [ none ↦ 0 | some c ↦ c ]

unfoldable pub make_picker : OutputDistribution → ℕ → Option Picker
unfolding count_at
make_picker dist tip_height =
    let idx = tip_height - spendable_age - dist.start_height in
    let spendable_count = count_at dist.cumulative idx in
    if ltb (length dist.cumulative) 2
    then none
    else if ltb idx 1 || leb (length dist.cumulative) idx
    then none
    else if spendable_count == 0
    then none
    else some (record {
      cumulative = dist.cumulative;
      start_height = dist.start_height;
      spendable_count = spendable_count;
    })

-- The loop of `blockOf`; each round halves what is left, so the length is fuel enough.
pub search : List ℕ → ℕ → ℕ → ℕ → ℕ → ℕ
unfolding count_at
search cumulative global_index zero lo hi = lo
search cumulative global_index (suc fuel) lo hi =
    let mid = (lo + hi) / 2 in
    let right = search cumulative global_index fuel (mid + 1) hi in
    let left = search cumulative global_index fuel lo mid in
    let next = if leb (count_at cumulative mid) global_index then right else left in
    if ltb lo hi then next else lo

unfoldable pub block_of : List ℕ → ℕ → ℕ
unfolding search
block_of cumulative global_index =
    search cumulative global_index (length cumulative) 0 (length cumulative - 1)

module _ {R : Type 0} (draw_back : ℕ → ℕ → R → ℕ × R) (draw_in_block : ℕ → R → ℕ × R) where
  -- `pickOne`. A draw is of how many outputs back, from the number of outputs and of blocks that
  -- they span, and then of a place in a block.
  unfoldable pub pick_one : Picker → R → Option ℕ × R
  unfolding count_at
  pick_one picker r =
      let outputs = picker.spendable_count in
      let (outputs_back, r1) = draw_back outputs (block_of picker.cumulative (outputs - 1) + 1) r in
      let block = block_of picker.cumulative (outputs - 1 - outputs_back) in
      let block_start = if block == 0 then 0 else count_at picker.cumulative (block - 1) in
      let in_block = count_at picker.cumulative block - block_start in
      let (place, r2) = draw_in_block in_block r1 in
      let chosen = block_start + min (in_block - 1) place in
      if leb outputs 1
      then (none, r)
      else if leb outputs outputs_back
      then (none, r1)
      else if in_block == 0
      then (none, r1)
      else if ltb chosen outputs
      then (some chosen, r2)
      else (none, r2)

-- `chosen.has(pick)`, and the set with one more.
pub has : List ℕ → ℕ → Bool
has [] v = false
has (x ∷ xs) v = x == v || has xs v

pub add : List ℕ → Option ℕ → List ℕ
unfolding has
add chosen none = chosen
add chosen (some pick) = if has chosen pick then chosen else chosen ++ pick ∷ []

-- `sort((a, b) => a - b)` of numbers that are all different.
pub insert_number : ℕ → List ℕ → List ℕ
insert_number v [] = v ∷ []
insert_number v (x ∷ xs) = let rest = insert_number v xs in if ltb x v then x ∷ rest else v ∷ x ∷ xs

pub ascending : List ℕ → List ℕ
unfolding insert_number
ascending [] = []
ascending (x ∷ xs) = insert_number x (ascending xs)

-- `indices.indexOf(realIndex)`, for an index that is there.
pub index_of : ℕ → List ℕ → ℕ
index_of v [] = 0
index_of v (x ∷ xs) = let rest = index_of v xs in if x == v then 0 else suc rest

pub data RingSelection : Type 0 where
  ring : List ℕ → ℕ → RingSelection
  not_spendable too_small too_clustered : RingSelection

module _ {R : Type 0} (pick : Picker → R → Option ℕ × R) where
  -- The loop of `selectRing`, with the attempts that are left.
  pub choose_ring : Picker → ℕ → ℕ → List ℕ → R → List ℕ × R
  unfolding add
  choose_ring picker ring_size zero chosen r = (chosen, r)
  choose_ring picker ring_size (suc attempts) chosen r =
      let (found, r') = pick picker r in
      let rest = choose_ring picker ring_size attempts (add chosen found) r' in
      if ltb (length chosen) ring_size then rest else (chosen, r)

  unfoldable pub select_ring : Picker → ℕ → ℕ → R → RingSelection × R
  unfolding choose_ring ascending index_of
  select_ring picker real_index ring_size r =
      let (chosen, r') = choose_ring picker ring_size (ring_size * 400) (real_index ∷ []) r in
      if leb picker.spendable_count real_index
      then (not_spendable, r)
      else if ltb picker.spendable_count ring_size
      then (too_small, r)
      else if ltb (length chosen) ring_size
      then (too_clustered, r')
      else (ring (ascending chosen) (index_of real_index (ascending chosen)), r')
