-- ===== src/Wallet/Monero/Plan.antt =====
-- wallet/src/core/moneroplan.ts, planMoneroSpend: the online half of a Monero send.
pub mod Rings
pub mod Honest
mod Runs
use labyrinth_vault.Prelude.{
  ℕ, zero, suc, ◌+◌, ◌-◌, Bool, true, false, not, ◌&&◌, ◌||◌, List, [], ◌∷◌, Option, none, some,
  Text, text_eq, is_digit, is_upper, ltb, leb, ◌==◌, if◌then◌else◌, length, map, all, get_elem?,
}
use labyrinth_vault.Wallet.Monero.Decoys.{
  OutputDistribution, Picker, make_picker, spendable_age, RingSelection, ring, select_ring,
  pick_one,
}
use labyrinth_vault.Wallet.Monero.Inputs.{SpendableOutput, SpendProblem, InputPlan, select_inputs}
use labyrinth_vault.Wallet.Monero.Unsigned.{
  ChainOutput, Ring, Destination, UnsignedTxSet, Assembled, ok, no_inputs, no_ring, no_destination,
  misplaced, unbalanced, send_total, assemble_unsigned,
}
use labyrinth_vault.Wallet.Monero.Node.{
  OutEntry, NodeInfo, Node, is_hex64, lower_hex, line_up, outs, CachedDistribution,
  distribution_for,
}

pub data PlanProblem : Type 0 where
  no_selection : SpendProblem → PlanProblem
  no_answer syncing no_history missing_member different_output locked_member : PlanProblem
  no_decoys : RingSelection → PlanProblem
  too_fresh : ℕ → PlanProblem
  refused : Assembled → PlanProblem

pub data Plan {ℓ} (A : Type ℓ) : Type ℓ where
  done : A → Plan A
  failed : PlanProblem → Plan A

-- The checks on the real member, and then on all, of the ring for one input. An output above the tip
-- has depth 0 here, and a negative one in the code: both are too fresh.
pub check_members : ℕ → SpendableOutput → List ChainOutput → ℕ → Option ChainOutput → Plan Ring
check_members tip_height input members position none = failed different_output
check_members tip_height input members position (some real) =
    if not (text_eq real.key input.key) || not (text_eq real.commitment input.commitment)
    then failed different_output
    else if ltb (tip_height - real.height) spendable_age
    then failed (too_fresh (tip_height - real.height))
    else if not (all (λ m. m.unlocked) members)
    then failed locked_member
    else done (record { members = members; real_position = position })

-- A ring whose indices have been selected.
pub fetch_ring : Node → ℕ → SpendableOutput → RingSelection → Plan Ring
unfolding check_members
fetch_ring node tip_height input (ring indices position) = elim (outs node indices) [
  | none ↦ failed no_answer
  | some members ↦
      if not (length members == length indices)
      then failed missing_member
      else check_members tip_height input members position (get_elem? members position)
]
fetch_ring node tip_height input problem = failed (no_decoys problem)

pub of_assembled : Assembled → Plan UnsignedTxSet
of_assembled (ok set) = done set
of_assembled problem = failed (refused problem)

module _ {R : Type 0} (draw_back : ℕ → ℕ → R → ℕ × R) (draw_in_block : ℕ → R → ℕ × R) where
  -- The loop over the inputs.
  pub plan_rings : Node → ℕ → Picker → ℕ → List SpendableOutput → R → Plan (List Ring)
  unfolding fetch_ring
  plan_rings node tip_height picker ring_size [] r = done []
  plan_rings node tip_height picker ring_size (input ∷ inputs) r =
      let (selection, r') =
        select_ring (pick_one draw_back draw_in_block) picker input.global_index ring_size r in
      let rest = plan_rings node tip_height picker ring_size inputs r' in
      elim (fetch_ring node tip_height input selection) [
        | failed q ↦ failed q
        | done first ↦ elim rest [ failed q ↦ failed q | done others ↦ done (first ∷ others) ]
      ]

  -- What is left when the coins are selected and the node has answered with a distribution.
  pub assemble_plan :
      Node
      → ℕ
      → Option Picker
      → ℕ
      → InputPlan
      → List Destination
      → Text
      → Text
      → R
      → Plan UnsignedTxSet
  unfolding plan_rings of_assembled
  assemble_plan node tip_height none ring_size plan ds own_address network r = failed no_history
  assemble_plan node tip_height (some picker) ring_size plan ds own_address network r =
      elim (plan_rings node tip_height picker ring_size plan.inputs r) [
        | failed q ↦ failed q
        | done rings ↦ of_assembled (
            assemble_unsigned (record {
              inputs = plan.inputs;
              rings = rings;
              destinations = ds;
              change = plan.change;
              own_address = own_address;
              fee = plan.fee;
              network = network;
              ring_size = ring_size;
            }))
      ]

  -- Once the node has answered with a distribution, or has not.
  pub plan_from_history :
      Node
      → ℕ
      → Option OutputDistribution
      → ℕ
      → InputPlan
      → List Destination
      → Text
      → Text
      → R
      → Plan UnsignedTxSet
  unfolding assemble_plan
  plan_from_history node tip_height none ring_size plan ds own_address network r = failed no_answer
  plan_from_history node tip_height (some d) ring_size plan ds own_address network r =
      assemble_plan node tip_height (make_picker d tip_height) ring_size plan ds own_address network
        r

  -- Once the node has answered with its height, or has not.
  pub plan_from_tip :
      Node
      → Option NodeInfo
      → ℕ
      → InputPlan
      → List Destination
      → Text
      → Text
      → R
      → Option CachedDistribution
      → Plan UnsignedTxSet × Option CachedDistribution
  unfolding plan_from_history
  plan_from_tip node none ring_size plan ds own_address network r cache = (failed no_answer, cache)
  plan_from_tip node (some tip) ring_size plan ds own_address network r cache =
      let (dist, cache') = distribution_for node (tip.height - spendable_age) cache in
      if tip.syncing
      then (failed syncing, cache)
      else (plan_from_history node tip.height dist ring_size plan ds own_address network r, cache')

  -- Once the coins are selected.
  pub plan_from_coins :
      Node
      → Option SpendProblem
      → ℕ
      → InputPlan
      → List Destination
      → Text
      → Text
      → R
      → Option CachedDistribution
      → Plan UnsignedTxSet × Option CachedDistribution
  unfolding plan_from_tip
  plan_from_coins node (some q) ring_size plan ds own_address network r cache =
      (failed (no_selection q), cache)
  plan_from_coins node none ring_size plan ds own_address network r cache =
      plan_from_tip node node.info ring_size plan ds own_address network r cache

  -- The plan and the new cache.
  unfoldable pub plan_monero_spend :
      Node
      → List SpendableOutput
      → List Destination
      → ℕ
      → Text
      → Text
      → ℕ
      → ℕ
      → R
      → Option CachedDistribution
      → Plan UnsignedTxSet × Option CachedDistribution
  unfolding plan_from_coins
  plan_monero_spend node owned ds fee_per_byte own_address network ring_size multiplier r cache =
      let plan =
        select_inputs owned (send_total ds) fee_per_byte multiplier ring_size (length ds) in
      plan_from_coins node plan.problem ring_size plan ds own_address network r cache
