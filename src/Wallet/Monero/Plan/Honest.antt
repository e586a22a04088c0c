-- ===== src/Wallet/Monero/Plan/Honest.antt =====
-- wallet/src/core/moneroplan.ts: what a set that is planned rests on.
use labyrinth_vault.Prelude.{
  ℕ, ◌-◌, ◌≤◌, ◌≡◌, refl, false, List, Option, none, some, Text, length, inl, inr, Bool-cases,
}
use labyrinth_vault.Wallet.Monero.Decoys.{OutputDistribution, Picker, spendable_age, make_picker}
use labyrinth_vault.Wallet.Monero.Inputs.{SpendableOutput, SpendProblem, InputPlan, select_inputs}
use labyrinth_vault.Wallet.Monero.Unsigned.{
  Ring, Destination, UnsignedTxSet, Assembled, ok, no_inputs, no_ring, no_destination, misplaced,
  unbalanced, send_total, assemble_unsigned,
}
use labyrinth_vault.Wallet.Monero.Unsigned.Sound.{
  IsSound, params_of, assemble_unsigned-IsSound, assemble_unsigned-inputs,
}
use labyrinth_vault.Wallet.Monero.Plan.{
  Plan, done, failed, plan_rings, of_assembled, assemble_plan, plan_from_history, plan_from_tip,
  plan_from_coins, plan_monero_spend,
}
use labyrinth_vault.Wallet.Monero.Node.{NodeInfo, Node, CachedDistribution, distribution_for}
use labyrinth_vault.Wallet.Monero.Plan.Rings.{
  AreRingsFor, AreInputsOf, wire_inputs-AreInputsOf, plan_rings-AreRingsFor,
}

module _ {R : Type 0} (draw_back : ℕ → ℕ → R → ℕ × R) (draw_in_block : ℕ → R → ℕ × R) where
  -- A set assembled from a plan for the coins: rings that hide each input among the picker's
  -- outputs, inputs of the set that carry these rings, and a set that is sound for them.
  pub record IsDraft (node : Node) (tip_height : ℕ) (found : Option Picker) (plan : InputPlan)
      (ds : List Destination) (own_address network : Text) (ring_size : ℕ) (set : UnsignedTxSet)
      : Type 0 where
    pub picker : Picker
    pub made : found ≡ some picker
    pub rings : List Ring
    pub hidden : AreRingsFor node picker.spendable_count ring_size tip_height plan.inputs rings
    pub carried : AreInputsOf plan.inputs rings set.inputs
    pub sound : IsSound (params_of plan ds rings own_address network ring_size) set

  of_assembled-done : (x : Assembled) (set : UnsignedTxSet) → of_assembled x ≡ done set → x ≡ ok set
  unfolding of_assembled
  of_assembled-done (ok s) set e = cc
  of_assembled-done no_inputs set e = cc
  of_assembled-done no_ring set e = cc
  of_assembled-done no_destination set e = cc
  of_assembled-done misplaced set e = cc
  of_assembled-done (unbalanced i o f) set e = cc

  assemble_plan-IsDraft :
      (node : Node) (tip_height : ℕ) (found : Option Picker) (ring_size : ℕ) (plan : InputPlan)
      (ds : List Destination) (own_address network : Text) (r : R) (set : UnsignedTxSet)
      → 1 ≤ ring_size
      → assemble_plan draw_back draw_in_block node tip_height found ring_size plan ds own_address
          network r
        ≡ done set
      → IsDraft node tip_height found plan ds own_address network ring_size set
  unfolding assemble_plan
  assemble_plan-IsDraft node tip_height none ring_size plan ds own_address network r set one e = cc
  assemble_plan-IsDraft node tip_height (some picker) ring_size plan ds own_address network r set
        one e =
      with_rings (plan_rings draw_back draw_in_block node tip_height picker ring_size plan.inputs r)
        refl e
    where
      with_rings :
          (p : Plan (List Ring))
          → plan_rings draw_back draw_in_block node tip_height picker ring_size plan.inputs r ≡ p
          → (elim p [
            | failed q ↦ failed q
            | done rings ↦
                of_assembled
                  (assemble_unsigned (params_of plan ds rings own_address network ring_size))
          ])
            ≡ done set
          → IsDraft node tip_height (some picker) plan ds own_address network ring_size set
      with_rings (failed q) got e = cc
      with_rings (done rings) got e =
          let params = params_of plan ds rings own_address network ring_size in
          let assembled = of_assembled-done (assemble_unsigned params) set e in
          let made = assemble_unsigned-inputs params set assembled in
          record {
            picker = picker;
            made = refl;
            rings = rings;
            hidden =
                plan_rings-AreRingsFor draw_back draw_in_block node tip_height picker ring_size
                  plan.inputs r rings one got;
            carried = rw (made.1) (wire_inputs-AreInputsOf plan.inputs rings made.0);
            sound = assemble_unsigned-IsSound params set assembled;
          }

  -- What a node contributes to a planned set: it is not catching up, a distribution of its (or the
  -- cached one), and a draft from these.
  pub record IsAnswered (node : Node) (found : Option NodeInfo) (plan : InputPlan)
      (ds : List Destination) (own_address network : Text) (ring_size : ℕ)
      (cache : Option CachedDistribution) (set : UnsignedTxSet) : Type 0 where
    pub tip : NodeInfo
    pub answered : found ≡ some tip
    pub synced : tip.syncing ≡ false
    pub distribution : OutputDistribution
    pub given : (distribution_for node (tip.height - spendable_age) cache).0 ≡ some distribution
    pub draft :
        IsDraft node tip.height
          (make_picker distribution tip.height)
          plan
          ds
          own_address
          network
          ring_size
          set

  plan_from_tip-IsAnswered :
      (node : Node) (found : Option NodeInfo) (ring_size : ℕ) (plan : InputPlan)
      (ds : List Destination) (own_address network : Text) (r : R)
      (cache : Option CachedDistribution) (set : UnsignedTxSet)
      → 1 ≤ ring_size
      → (plan_from_tip draw_back draw_in_block node found ring_size plan ds own_address network r
          cache).0
        ≡ done set
      → IsAnswered node found plan ds own_address network ring_size cache set
  unfolding plan_from_tip plan_from_history
  plan_from_tip-IsAnswered node none ring_size plan ds own_address network r cache set one e = cc
  plan_from_tip-IsAnswered node (some tip) ring_size plan ds own_address network r cache set one e =
      elim (Bool-cases tip.syncing) [
        | inl behind ↦ let f = rw behind at e in cc
        | inr synced ↦
            with_history synced (distribution_for node (tip.height - spendable_age) cache).0 refl
              (rw synced at e)
      ]
    where
      with_history :
          tip.syncing ≡ false
          → (o : Option OutputDistribution)
          → (distribution_for node (tip.height - spendable_age) cache).0 ≡ o
          → plan_from_history draw_back draw_in_block node tip.height o ring_size plan ds
              own_address network r
            ≡ done set
          → IsAnswered node (some tip) plan ds own_address network ring_size cache set
      with_history synced none given e = cc
      with_history synced (some d) given e = record {
        tip = tip;
        answered = refl;
        synced = synced;
        distribution = d;
        given = given;
        draft =
            assemble_plan-IsDraft node tip.height (make_picker d tip.height) ring_size plan ds
              own_address network r set one e;
      }

  -- What a planned set rests on: a selection of coins that was accepted, and the node's part.
  pub record IsPlanned (node : Node) (owned : List SpendableOutput) (ds : List Destination)
      (fee_per_byte multiplier ring_size : ℕ) (own_address network : Text)
      (cache : Option CachedDistribution) (set : UnsignedTxSet) : Type 0 where
    pub plan : InputPlan
    pub chosen :
        plan ≡ select_inputs owned (send_total ds) fee_per_byte multiplier ring_size (length ds)
    pub accepted : plan.problem ≡ none
    pub node_part : IsAnswered node node.info plan ds own_address network ring_size cache set

  -- What planMoneroSpend returns as a set, whatever the node answers, whatever is cached and whatever
  -- the draws are, for rings of one member at least. The coins are those selectInputs accepts for the
  -- sum sent, and the node answered that it is not catching up. The inputs of the set are these coins,
  -- each with a ring whose members, in index, key and commitment, are what the node answered to `outs`
  -- for their indices. A ring has the size asked for, of different spendable outputs of the
  -- distribution in rising order, with the coin at the position that the set reports; there the node
  -- gave the key and the commitment of the coin and a depth of ten blocks; and it called every member
  -- unlocked. The set is sound for these rings: it balances, and pays only the destinations and the
  -- owner.
  pub plan_monero_spend-IsPlanned :
      (node : Node) (owned : List SpendableOutput) (ds : List Destination) (fee_per_byte : ℕ)
      (own_address network : Text) (ring_size multiplier : ℕ) (r : R)
      (cache : Option CachedDistribution) (set : UnsignedTxSet)
      → 1 ≤ ring_size
      → (plan_monero_spend draw_back draw_in_block node owned ds fee_per_byte own_address network
          ring_size multiplier r cache).0
        ≡ done set
      → IsPlanned node owned ds fee_per_byte multiplier ring_size own_address network cache set
  unfolding plan_monero_spend plan_from_coins
  plan_monero_spend-IsPlanned node owned ds fee_per_byte own_address network ring_size multiplier r
        cache set one e =
      with_coins plan.problem refl e
    where
      plan : InputPlan
      plan = select_inputs owned (send_total ds) fee_per_byte multiplier ring_size (length ds)

      with_coins :
          (o : Option SpendProblem)
          → plan.problem ≡ o
          → (plan_from_coins draw_back draw_in_block node o ring_size plan ds own_address network r
              cache).0
            ≡ done set
          → IsPlanned node owned ds fee_per_byte multiplier ring_size own_address network cache set
      with_coins (some q) refused_coins e = cc
      with_coins none accepted e = record {
        plan = plan;
        chosen = refl;
        accepted = accepted;
        node_part =
            plan_from_tip-IsAnswered node node.info ring_size plan ds own_address network r cache
              set one e;
      }
