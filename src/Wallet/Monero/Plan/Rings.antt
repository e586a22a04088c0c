-- ===== src/Wallet/Monero/Plan/Rings.antt =====
-- wallet/src/core/moneroplan.ts, the loop over the inputs: the ring that each input gets.
use labyrinth_vault.Prelude.{
  ℕ, ◌+◌, ◌≤◌, ◌≡◌, refl, arith, true, not, List, [], ◌∷◌, Option, none, some, eq_of_text_eq, ◌==◌,
  if◌then◌else◌, length, map, all, get_elem?, inl, inr, Bool-cases,
}
use labyrinth_vault.Prelude.Numerals.{number_of}
use labyrinth_vault.Prelude.Numerals.ReadBack.{number_of-to_string}
use labyrinth_vault.Wallet.Monero.Decoys.{
  Picker, spendable_age, RingSelection, ring, not_spendable, too_small, too_clustered, select_ring,
  pick_one,
}
use labyrinth_vault.Wallet.Monero.Decoys.Hidden.{IsRing, select_ring-IsRing}
use labyrinth_vault.Wallet.Monero.Inputs.{SpendableOutput}
use labyrinth_vault.Wallet.Monero.Unsigned.{ChainOutput, Ring, UnsignedInput, wire_inputs}
use labyrinth_vault.Wallet.Monero.Plan.{
  Plan, done, failed, no_answer, missing_member, check_members, fetch_ring, plan_rings,
}
use labyrinth_vault.Wallet.Monero.Node.Indices.{outs-indices}
use labyrinth_vault.Wallet.Monero.Node.{Node, outs}

-- A ring for an input, among `n` spendable outputs: its members' indices are different spendable
-- ones in rising order, the real one among them at the position that is reported; the members are
-- what the node answered for these indices; it gave the real one the key and the commitment of the input, and a depth of ten blocks; and it called all
-- members unlocked.
pub record IsRingFor (node : Node) (n ring_size tip_height : ℕ) (input : SpendableOutput) (r : Ring)
    : Type 0 where
  pub ring :
      IsRing n ring_size input.global_index (map (λ m. m.global_index) r.members) r.real_position
  pub fetched : outs node (map (λ m. m.global_index) r.members) ≡ some r.members
  pub real : ChainOutput
  pub stands : get_elem? r.members r.real_position ≡ some real
  pub key : real.key ≡ input.key
  pub commitment : real.commitment ≡ input.commitment
  pub deep : real.height + spendable_age ≤ tip_height
  pub unlocked : all (λ m. m.unlocked) r.members ≡ true

abbrev pub AreRingsFor : Node → ℕ → ℕ → ℕ → List SpendableOutput → List Ring → Type 0
AreRingsFor node n ring_size tip_height [] [] = Unit
AreRingsFor node n ring_size tip_height [] (r ∷ rs) = ⊥
AreRingsFor node n ring_size tip_height (o ∷ os) [] = ⊥
AreRingsFor node n ring_size tip_height (o ∷ os) (r ∷ rs) =
    IsRingFor node n ring_size tip_height o r × AreRingsFor node n ring_size tip_height os rs

-- An input of a set: the output that is spent, and the ring, member by member.
pub record IsInputOf (o : SpendableOutput) (r : Ring) (u : UnsignedInput) : Type 0 where
  pub tx_public_key : u.tx_public_key ≡ o.tx_public_key
  pub index_in_tx : u.index_in_tx ≡ o.index_in_tx
  pub global_index : u.global_index ≡ o.global_index
  pub amount : number_of u.amount ≡ o.amount
  pub ring_members :
      u.ring
      ≡ map
          (λ m. record { global_index = m.global_index; key = m.key; commitment = m.commitment })
          r.members
  pub position : u.real_position ≡ r.real_position

-- The inputs of a set, one for each output with its ring.
abbrev pub AreInputsOf : List SpendableOutput → List Ring → List UnsignedInput → Type 0
AreInputsOf [] [] [] = Unit
AreInputsOf (o ∷ os) (r ∷ rs) (u ∷ us) = IsInputOf o r u × AreInputsOf os rs us
AreInputsOf os rs us = ⊥

pub wire_inputs-AreInputsOf :
    (os : List SpendableOutput) (rs : List Ring)
    → length rs ≡ length os
    → AreInputsOf os rs (wire_inputs os rs)
unfolding wire_inputs
wire_inputs-AreInputsOf [] [] h = tt
wire_inputs-AreInputsOf [] (r ∷ rs) h = absurd (omega arith)
wire_inputs-AreInputsOf (o ∷ os) [] h = absurd (omega arith)
wire_inputs-AreInputsOf (o ∷ os) (r ∷ rs) h = (
  record {
    tx_public_key = refl;
    index_in_tx = refl;
    global_index = refl;
    amount = number_of-to_string o.amount;
    ring_members = refl;
    position = refl;
  },
  wire_inputs-AreInputsOf os rs (omega arith),
)

-- What the checks on the members leave.
record IsChecked (tip_height : ℕ) (input : SpendableOutput) (members : List ChainOutput)
    (position : ℕ) (found : Option ChainOutput) (r : Ring) : Type 0 where
  same : r ≡ record { members = members; real_position = position }
  real : ChainOutput
  is_found : found ≡ some real
  key : real.key ≡ input.key
  commitment : real.commitment ≡ input.commitment
  deep : real.height + spendable_age ≤ tip_height
  unlocked : all (λ m. m.unlocked) members ≡ true

check_members-IsChecked :
    (tip_height : ℕ) (input : SpendableOutput) (members : List ChainOutput) (position : ℕ)
    (found : Option ChainOutput) (r : Ring)
    → check_members tip_height input members position found ≡ done r
    → IsChecked tip_height input members position found r
unfolding check_members
check_members-IsChecked tip_height input members position none r e = cc
check_members-IsChecked tip_height input members position (some real) r e = record {
  same = ground arith;
  real = real;
  is_found = refl;
  key = eq_of_text_eq real.key input.key (ground arith);
  commitment = eq_of_text_eq real.commitment input.commitment (ground arith);
  deep = ground arith;
  unlocked = ground arith;
}

fetched-IsRingFor :
    (node : Node) (n ring_size tip_height : ℕ) (input : SpendableOutput) (selection : RingSelection)
    (r : Ring)
    → fetch_ring node tip_height input selection ≡ done r
    → ((indices : List ℕ) (position : ℕ)
        → selection ≡ ring indices position
        → IsRing n ring_size input.global_index indices position)
    → IsRingFor node n ring_size tip_height input r
unfolding fetch_ring
fetched-IsRingFor node n ring_size tip_height input not_spendable r e h = cc
fetched-IsRingFor node n ring_size tip_height input too_small r e h = cc
fetched-IsRingFor node n ring_size tip_height input too_clustered r e h = cc
fetched-IsRingFor node n ring_size tip_height input (ring indices position) r e h =
    answered (outs node indices) refl e
  where
    answered :
        (o : Option (List ChainOutput))
        → outs node indices ≡ o
        → (elim o [
          | none ↦ failed no_answer
          | some members ↦
              if not (length members == length indices)
              then failed missing_member
              else check_members tip_height input members position (get_elem? members position)
        ])
          ≡ done r
        → IsRingFor node n ring_size tip_height input r
    answered none got e = cc
    answered (some members) got e = elim (Bool-cases (length members == length indices)) [
      | inr short ↦ let q = rw short at e in cc
      | inl full ↦
          let c =
            check_members-IsChecked tip_height input members position (get_elem? members position) r
              (rw full at e) in
          let i = outs-indices node indices members got in
          rw (c.same) (record {
            ring = rw i (h indices position refl);
            fetched = rw i got;
            real = c.real;
            stands = c.is_found;
            key = c.key;
            commitment = c.commitment;
            deep = c.deep;
            unlocked = c.unlocked;
          })
    ]

module _ {R : Type 0} (draw_back : ℕ → ℕ → R → ℕ × R) (draw_in_block : ℕ → R → ℕ × R) where
  pub plan_rings-AreRingsFor :
      (node : Node) (tip_height : ℕ) (picker : Picker) (ring_size : ℕ)
      (inputs : List SpendableOutput) (r : R) (rings : List Ring)
      → 1 ≤ ring_size
      → plan_rings draw_back draw_in_block node tip_height picker ring_size inputs r ≡ done rings
      → AreRingsFor node picker.spendable_count ring_size tip_height inputs rings
  unfolding plan_rings
  plan_rings-AreRingsFor node tip_height picker ring_size [] r rings one e =
      let same : [] ≡ rings = cc in rw (← same) tt
  plan_rings-AreRingsFor node tip_height picker ring_size (o ∷ os) r rings one e =
      both
        (fetch_ring node tip_height o
          (select_ring (pick_one draw_back draw_in_block) picker o.global_index ring_size r).0)
        (plan_rings draw_back draw_in_block node tip_height picker ring_size os
          (select_ring (pick_one draw_back draw_in_block) picker o.global_index ring_size r).1)
        (λ first f.
          fetched-IsRingFor node picker.spendable_count ring_size tip_height o _ first f
            (λ indices position q.
              select_ring-IsRing draw_back draw_in_block picker o.global_index ring_size r indices
                position one q))
        (λ others f. plan_rings-AreRingsFor node tip_height picker ring_size os _ others one f) e
    where
      both :
          (first : Plan Ring) (others : Plan (List Ring))
          → ((x : Ring)
              → first ≡ done x
              → IsRingFor node picker.spendable_count ring_size tip_height o x)
          → ((xs : List Ring)
              → others ≡ done xs
              → AreRingsFor node picker.spendable_count ring_size tip_height os xs)
          → (elim first [
            | failed q ↦ failed q
            | done x ↦ elim others [ failed q ↦ failed q | done xs ↦ done (x ∷ xs) ]
          ])
            ≡ done rings
          → AreRingsFor node picker.spendable_count ring_size tip_height (o ∷ os) rings
      both (failed q) others h k e = cc
      both (done x) (failed q) h k e = cc
      both (done x) (done xs) h k e =
          let same : x ∷ xs ≡ rings = cc in rw (← same) (h x refl, k xs refl)
