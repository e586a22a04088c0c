-- ===== src/Wallet/Coins.antt =====
-- wallet/src/core/build.ts: fees, and which coins a payment spends. A fee rate is a fraction, in
-- satoshi for each virtual byte; the rounding of a double's product is not modelled.
pub mod Sorting
pub mod Balance
pub mod Gather
pub mod Choice
use labyrinth_vault.Prelude.{
  ℕ, zero, suc, ◌+◌, ◌-◌, ◌*◌, ◌/◌, ◌++◌, Bool, true, false, ◌&&◌, List, [], ◌∷◌, Option, none,
  some, Text, if◌then◌else◌, ltb, leb, ◌==◌, length,
}
use labyrinth_vault.Wallet.Model.{Rate}
use labyrinth_vault.Wallet.Addresses.{AddressCodec, script_for_address}
use labyrinth_vault.Wallet.Verify.{filter}

pub record Utxo : Type 0 where
  pub txid : Text
  pub vout : ℕ
  pub value : ℕ
  pub address : Text
  pub path : ℕ × ℕ
  pub script : List ℕ
  pub confirmations : ℕ

pub output_vbytes : List ℕ → ℕ
output_vbytes script = 9 + length script

abbrev pub change_vbytes : ℕ
change_vbytes = 31

abbrev pub widest_output_vbytes : ℕ
widest_output_vbytes = 43

abbrev pub dust : ℕ
dust = 1000

unfoldable pub output_vbytes_for : AddressCodec → Text → ℕ
unfolding output_vbytes
output_vbytes_for codec address = elim (script_for_address codec address) [
  | none ↦ widest_output_vbytes
  | some script ↦ output_vbytes script
]

pub sum : List ℕ → ℕ
sum [] = 0
sum (n ∷ ns) = n + sum ns

-- `Math.ceil(10.5 + 68 * inputs + outs)`
unfoldable pub estimate_vsize : ℕ → List ℕ → ℕ
unfolding sum
estimate_vsize inputs outputs = 11 + 68 * inputs + sum outputs

-- `Math.ceil(estimateVsize(inputs, outputs) * rate)`
unfoldable pub fee_for : ℕ → List ℕ → Rate → ℕ
fee_for inputs outputs rate =
    (estimate_vsize inputs outputs * rate.sats + (rate.bytes - 1)) / rate.bytes

pub data SelectProblem : Type 0 where
  no_amount nothing_to_spend : SelectProblem
  short_by : ℕ → SelectProblem

pub record Selection : Type 0 where
  pub chosen : List Utxo
  pub fee : ℕ
  pub change : ℕ
  pub change_to_fee : Bool
  pub problem : Option SelectProblem

abbrev pub refusal : SelectProblem → Selection
refusal p = record { chosen = []; fee = 0; change = 0; change_to_fee = false; problem = some p }

unfoldable pub total_value : List Utxo → ℕ
total_value [] = 0
total_value (u ∷ us) = u.value + total_value us

-- A coin goes behind the coins that are worth as much or more: the sort is stable.
pub insert : Utxo → List Utxo → List Utxo
insert u [] = u ∷ []
insert u (v ∷ vs) = let rest = insert u vs in if ltb v.value u.value then u ∷ v ∷ vs else v ∷ rest

pub insert_all : List Utxo → List Utxo → List Utxo
insert_all sorted [] = sorted
insert_all sorted (u ∷ us) = insert_all (insert u sorted) us

-- `sort` by falling value
pub by_value : List Utxo → List Utxo
by_value us = insert_all [] us

-- `sort` by rising value, and its first coin; the last one of those that are worth the same.
pub least : List Utxo → Option Utxo
least [] = none
least (u ∷ us) = elim (least us) [
  | none ↦ some u
  | some v ↦ if ltb u.value v.value then some u else some v
]

-- In the window between the amount with its fee and less than dust above that.
pub is_exact : ℕ → ℕ → Utxo → Bool
is_exact amount fee u = leb (amount + fee) u.value && ltb (u.value - amount - fee) dust

-- No change: what is left over goes to the fee.
pub lean : List Utxo → ℕ → ℕ → ℕ → Selection
lean chosen gathered amount lean_fee = record {
  chosen = chosen;
  fee = gathered - amount;
  change = 0;
  change_to_fee = ltb lean_fee (gathered - amount);
  problem = none;
}

-- The loop that takes coins until they cover the payment.
pub gather : ℕ → ℕ → Rate → List Utxo → ℕ → List Utxo → Selection
gather paying amount rate chosen gathered [] =
    refusal (short_by (amount + fee_for (length chosen) (paying ∷ []) rate - gathered))
gather paying amount rate chosen gathered (u ∷ us) =
    let chosen' = chosen ++ u ∷ [] in
    let gathered' = gathered + u.value in
    let fee = fee_for (length chosen') (paying ∷ change_vbytes ∷ []) rate in
    let lean_fee = fee_for (length chosen') (paying ∷ []) rate in
    let rest = gather paying amount rate chosen' gathered' us in
    if leb (amount + fee) gathered'
    then (if ltb (gathered' - amount - fee) dust
        then lean chosen' gathered' amount lean_fee
        else record {
          chosen = chosen';
          fee = fee;
          change = gathered' - amount - fee;
          change_to_fee = false;
          problem = none;
        })
    else if leb (amount + lean_fee) gathered'
    then lean chosen' gathered' amount lean_fee
    else rest

-- The choice once there is something to spend.
pub choose : ℕ → ℕ → Rate → List Utxo → Selection
choose paying amount rate spendable =
    let single_fee = fee_for 1 (paying ∷ []) rate in
    elim (least (filter (is_exact amount single_fee) spendable)) [
      | some u ↦ lean (u ∷ []) u.value amount single_fee
      | none ↦ gather paying amount rate [] 0 spendable
    ]

unfoldable pub select_coins : AddressCodec → List Utxo → ℕ → Rate → Text → Selection
unfolding choose gather least is_exact lean by_value insert_all insert total_value
select_coins codec utxos amount rate recipient =
    if amount == 0
    then refusal no_amount
    else if total_value (by_value utxos) == 0
    then refusal nothing_to_spend
    else choose (output_vbytes_for codec recipient) amount rate (by_value utxos)

-- The widest output stands for a recipient that is not entered yet.
unfoldable pub paying_vbytes : AddressCodec → Option Text → ℕ
paying_vbytes codec none = widest_output_vbytes
paying_vbytes codec (some []) = widest_output_vbytes
paying_vbytes codec (some (c ∷ cs)) = output_vbytes_for codec (c ∷ cs)

unfoldable pub max_sendable : AddressCodec → List Utxo → Rate → Option Text → ℕ
unfolding total_value paying_vbytes
max_sendable codec utxos rate recipient =
    let total = total_value utxos in
    let fee = fee_for (length utxos) (paying_vbytes codec recipient ∷ []) rate in
    if ltb fee total then total - fee else 0
