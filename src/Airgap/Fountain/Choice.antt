-- ===== src/Airgap/Fountain/Choice.antt =====
-- src/airgap/fountain.ts: which fragments a frame mixes, over a generator that is a parameter: its
-- draws are doubles.
pub mod Promises
pub mod Runs
use labyrinth_vault.Prelude.{
  ℕ, zero, suc, ◌+◌, ◌-◌, ◌%◌, ◌^◌, List, [], ◌∷◌, Option, none, some, leb, if◌then◌else◌, ◌>>=◌,
  length, take, get_elem?,
}

-- `remaining.splice(index, 1)`
pub remove_at : List ℕ → ℕ → List ℕ
remove_at [] i = []
remove_at (x ∷ xs) zero = xs
remove_at (x ∷ xs) (suc i) = x ∷ remove_at xs i

-- The loop that fills `indexes`, from number `i` on.
pub indexes_from : ℕ → ℕ → List ℕ
indexes_from zero i = []
indexes_from (suc n) i = i ∷ indexes_from n (suc i)

module _ {R : Type 0} (next_int : R → ℕ → ℕ → ℕ × R) where
  -- The loop of `shuffle`, one round for each item. An index past the end is `none`: the code would
  -- put an undefined item there and take none away.
  pub shuffle_from : ℕ → R → List ℕ → Option (List ℕ)
  unfolding remove_at
  shuffle_from zero r items = some []
  shuffle_from (suc rounds) r [] = some []
  shuffle_from (suc rounds) r (x ∷ xs) = do
    y ← get_elem? (x ∷ xs) (next_int r 0 (length xs)).0
    ys ←
        shuffle_from rounds (next_int r 0 (length xs)).1
          (remove_at (x ∷ xs) (next_int r 0 (length xs)).0)
    some (y ∷ ys)

  pub shuffle : List ℕ → R → Option (List ℕ)
  shuffle items r = shuffle_from (length items) r items

  module _ (seed : ℕ → ℕ → R) (choose_degree : ℕ → R → ℕ × R) where
    -- `chooseFragments`, with the generator's seed and the degree as parameters.
    unfoldable pub choose_fragments : ℕ → ℕ → ℕ → Option (List ℕ)
    unfolding shuffle shuffle_from indexes_from remove_at
    choose_fragments seq_num n checksum =
        let (degree, r) = choose_degree n (seed (seq_num % 2 ^ 32) (checksum % 2 ^ 32)) in
        if leb seq_num n
        then some ((seq_num - 1) ∷ [])
        else (shuffle (indexes_from n 0) r >>= λ items. some (take degree items))
