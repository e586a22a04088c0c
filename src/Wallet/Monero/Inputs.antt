-- ===== src/Wallet/Monero/Inputs.antt =====
-- wallet/src/core/monerospend.ts, selectInputs: which outputs are spent, the fee and the change.
pub mod Funded
use labyrinth_vault.Prelude.{
  ℕ, zero, suc, ◌+◌, ◌-◌, Bool, true, false, ◌&&◌, ◌++◌, List, [], ◌∷◌, Option, none, some, Text,
  ltb, leb, ◌==◌, if◌then◌else◌, length,
}
use labyrinth_vault.Wallet.Monero.Fees.{fee_for}

pub record SpendableOutput : Type 0 where
  pub global_index : ℕ
  pub key : Text
  pub commitment : Text
  pub amount : ℕ
  pub tx_public_key : Text
  pub index_in_tx : ℕ

-- DUST
abbrev pub dust : ℕ
dust = 1000

pub data SpendProblem : Type 0 where
  nothing_to_send no_outputs : SpendProblem
  not_enough : ℕ → ℕ → SpendProblem

pub record InputPlan : Type 0 where
  pub problem : Option SpendProblem
  pub inputs : List SpendableOutput
  pub fee : ℕ
  pub change : ℕ

abbrev pub fail : SpendProblem → InputPlan
fail p = record { problem = some p; inputs = []; fee = 0; change = 0 }

-- `reduce((sum, o) => sum + o.amount, 0n)`
unfoldable pub input_total : List SpendableOutput → ℕ
input_total [] = 0
input_total (o ∷ os) = o.amount + input_total os

-- `filter((o) => o.amount > 0n)`
pub with_value : List SpendableOutput → List SpendableOutput
with_value [] = []
with_value (o ∷ os) = let rest = with_value os in if ltb 0 o.amount then o ∷ rest else rest

-- The sort by falling amount. The comparator never answers that two are equal: an output goes in
-- front of those that are worth the same.
pub insert : SpendableOutput → List SpendableOutput → List SpendableOutput
insert o [] = o ∷ []
insert o (p ∷ ps) = let rest = insert o ps in if ltb o.amount p.amount then p ∷ rest else o ∷ p ∷ ps

pub insert_all : List SpendableOutput → List SpendableOutput → List SpendableOutput
insert_all sorted [] = sorted
insert_all sorted (o ∷ os) = insert_all (insert o sorted) os

module _ (sending per_byte multiplier ring_size destination_count : ℕ) where
  -- The fee with `n` inputs; a change output is counted.
  pub fee_with : ℕ → ℕ
  fee_with n = fee_for n (destination_count + 1) per_byte multiplier ring_size

  -- A total that covers the payment and the fee. Change that is dust goes to the fee.
  pub settle : List SpendableOutput → ℕ → ℕ → InputPlan
  settle chosen total fee =
      let change = total - sending - fee in
      if ltb 0 change && leb change dust
      then record { problem = none; inputs = chosen; fee = fee + change; change = 0 }
      else record { problem = none; inputs = chosen; fee = fee; change = change }

  -- The loop: `chosen` and `total` are what it has taken so far.
  pub choose_from : List SpendableOutput → ℕ → List SpendableOutput → InputPlan
  unfolding settle fee_with
  choose_from chosen total [] = fail (not_enough (sending + fee_with (length chosen)) total)
  choose_from chosen total (o ∷ os) =
      let chosen' = chosen ++ o ∷ [] in
      let total' = total + o.amount in
      let fee = fee_with (length chosen') in
      let rest = choose_from chosen' total' os in
      if leb (sending + fee) total' then settle chosen' total' fee else rest

unfoldable pub select_inputs : List SpendableOutput → ℕ → ℕ → ℕ → ℕ → ℕ → InputPlan
unfolding with_value insert insert_all choose_from
select_inputs owned sending per_byte multiplier ring_size destination_count =
    let spendable = insert_all [] (with_value owned) in
    if sending == 0
    then fail nothing_to_send
    else if length spendable == 0
    then fail no_outputs
    else choose_from sending per_byte multiplier ring_size destination_count [] 0 spendable
