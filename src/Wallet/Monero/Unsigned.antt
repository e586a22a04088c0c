-- ===== src/Wallet/Monero/Unsigned.antt =====
-- wallet/src/core/monerospend.ts, assembleUnsigned: the set that crosses to the vault. The
-- fixed fields `v` and `chain` are left out of the set.
pub mod Sound
use labyrinth_vault.Prelude.{
  ℕ, zero, suc, ◌+◌, Bool, true, false, not, ◌&&◌, ◌||◌, ◌++◌, List, [], ◌∷◌, Option, none, some,
  Text, codes, text_eq, ltb, leb, ◌==◌, if◌then◌else◌, length, map, get_elem?,
}
use labyrinth_vault.Prelude.Numerals.{to_string}
use labyrinth_vault.Wallet.Monero.Inputs.{SpendableOutput, input_total}

-- wallet/src/net/monerod.ts
pub record ChainOutput : Type 0 where
  pub global_index : ℕ
  pub key : Text
  pub commitment : Text
  pub unlocked : Bool
  pub height : ℕ

pub record Ring : Type 0 where
  pub members : List ChainOutput
  pub real_position : ℕ

pub record Destination : Type 0 where
  pub address : Text
  pub amount : ℕ

pub record RingMember : Type 0 where
  pub global_index : ℕ
  pub key : Text
  pub commitment : Text

pub record UnsignedInput : Type 0 where
  pub tx_public_key : Text
  pub index_in_tx : ℕ
  pub global_index : ℕ
  pub amount : Text
  pub ring : List RingMember
  pub real_position : ℕ

pub record UnsignedOutput : Type 0 where
  pub address : Text
  pub amount : Text
  pub change : Bool
  pub dummy : Bool

pub record UnsignedTxSet : Type 0 where
  pub inputs : List UnsignedInput
  pub outputs : List UnsignedOutput
  pub fee : Text
  pub network : Text
  pub ring_size : ℕ

pub data Assembled : Type 0 where
  ok : UnsignedTxSet → Assembled
  no_inputs no_ring no_destination misplaced : Assembled
  unbalanced : ℕ → ℕ → ℕ → Assembled

pub record AssembleParams : Type 0 where
  pub inputs : List SpendableOutput
  pub rings : List Ring
  pub destinations : List Destination
  pub change : ℕ
  pub own_address : Text
  pub fee : ℕ
  pub network : Text
  pub ring_size : ℕ

unfoldable pub send_total : List Destination → ℕ
send_total [] = 0
send_total (d ∷ ds) = d.amount + send_total ds

pub pay : Destination → UnsignedOutput
pay d = record {
  address = d.address;
  amount = to_string 10 d.amount;
  change = false;
  dummy = false;
}

-- The output for the change, if there is any.
pub change_output : Text → ℕ → List UnsignedOutput
change_output own_address change =
    if ltb 0 change
    then record {
      address = own_address;
      amount = to_string 10 change;
      change = true;
      dummy = false;
    }
      ∷ []
    else []

-- A second output where there is only one.
pub padded : Text → List UnsignedOutput → List UnsignedOutput
padded own_address outputs =
    if ltb (length outputs) 2
    then outputs
      ++ record { address = own_address; amount = codes "0"; change = true; dummy = true } ∷ []
    else outputs

pub outputs_of : List Destination → Text → ℕ → List UnsignedOutput
unfolding pay change_output padded
outputs_of ds own_address change =
    padded own_address (map pay ds ++ change_output own_address change)

pub member_of : ChainOutput → RingMember
member_of m = record { global_index = m.global_index; key = m.key; commitment = m.commitment }

pub wire_input : SpendableOutput → Ring → UnsignedInput
unfolding member_of
wire_input o r = record {
  tx_public_key = o.tx_public_key;
  index_in_tx = o.index_in_tx;
  global_index = o.global_index;
  amount = to_string 10 o.amount;
  ring = map member_of r.members;
  real_position = r.real_position;
}

-- Input `i` with ring `i`; the lengths have been compared.
unfoldable pub wire_inputs : List SpendableOutput → List Ring → List UnsignedInput
unfolding wire_input
wire_inputs [] rs = []
wire_inputs (o ∷ os) [] = []
wire_inputs (o ∷ os) (r ∷ rs) = wire_input o r ∷ wire_inputs os rs

-- The ring member at the real position is the output that is spent.
pub is_real : Option RingMember → SpendableOutput → Bool
is_real none o = false
is_real (some m) o = m.global_index == o.global_index && text_eq m.key o.key

unfoldable pub all_real : List UnsignedInput → List SpendableOutput → Bool
unfolding is_real
all_real [] os = true
all_real (w ∷ ws) [] = false
all_real (w ∷ ws) (o ∷ os) = is_real (get_elem? w.ring w.real_position) o && all_real ws os

-- The set of parameters that pass the checks.
pub set_of : AssembleParams → UnsignedTxSet
unfolding outputs_of wire_inputs
set_of p = record {
  inputs = wire_inputs p.inputs p.rings;
  outputs = outputs_of p.destinations p.own_address p.change;
  fee = to_string 10 p.fee;
  network = p.network;
  ring_size = p.ring_size;
}

unfoldable pub assemble_unsigned : AssembleParams → Assembled
unfolding set_of all_real input_total send_total
assemble_unsigned p =
    let total_in = input_total p.inputs in
    let total_out = send_total p.destinations + p.change in
    if length p.inputs == 0
    then no_inputs
    else if not (length p.rings == length p.inputs)
    then no_ring
    else if length p.destinations == 0
    then no_destination
    else if not (total_in == total_out + p.fee)
    then unbalanced total_in total_out p.fee
    else if not (all_real (set_of p).inputs p.inputs)
    then misplaced
    else ok (set_of p)
