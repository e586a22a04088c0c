-- ===== src/Wallet/Monero/Unsigned/Sound.antt =====
-- wallet/src/core/monerospend.ts, assembleUnsigned: the set that is assembled.
use labyrinth_vault.Prelude.{
  append_assoc, All-append, ℕ, zero, suc, ◌+◌, ◌≤◌, ◌≡◌, refl, sym, ap, ◌∙◌, arith, true, ◌++◌,
  List, [], ◌∷◌, Option, none, some, Text, codes, eq_of_text_eq, ltb, ==_iff, length, length-append,
  map, All, get_elem?, inl, inr, Bool-cases,
}
use labyrinth_vault.Prelude.Numerals.{to_string, number_of}
use labyrinth_vault.Prelude.Numerals.ReadBack.{number_of-to_string}
use labyrinth_vault.Wallet.Monero.Inputs.{SpendableOutput, InputPlan, input_total, select_inputs}
use labyrinth_vault.Wallet.Monero.Inputs.Funded.{accepted-IsFunded}
use labyrinth_vault.Wallet.Monero.Unsigned.{
  Ring, Destination, RingMember, UnsignedInput, UnsignedOutput, UnsignedTxSet, ok, AssembleParams,
  send_total, pay, change_output, padded, outputs_of, wire_inputs, is_real, all_real, set_of,
  assemble_unsigned,
}

-- What the outputs of a set pay, as the texts say.
pub output_total : List UnsignedOutput → ℕ
output_total [] = 0
output_total (o ∷ os) = number_of o.amount + output_total os

output_total-append :
    (os ps : List UnsignedOutput) → output_total (os ++ ps) ≡ output_total os + output_total ps
unfolding output_total
output_total-append [] ps = omega arith
output_total-append (o ∷ os) ps = omega (arith, output_total-append os ps)

pay-total : (ds : List Destination) → output_total (map pay ds) ≡ send_total ds
unfolding output_total send_total pay
pay-total [] = refl
pay-total (d ∷ ds) = omega (arith, number_of-to_string d.amount, pay-total ds)

length-pay : (ds : List Destination) → length (map pay ds) ≡ length ds
length-pay [] = refl
length-pay (d ∷ ds) = ap suc (length-pay ds)

-- An output that pays the owner.
abbrev pub IsOwn : Text → UnsignedOutput → Type 0
IsOwn own_address o = (o.address ≡ own_address) × (o.change ≡ true)

-- Outputs that only the owner gets.
record IsTail (own_address : Text) (change : ℕ) (os : List UnsignedOutput) : Type 0 where
  own : All (IsOwn own_address) os
  total : output_total os ≡ change

change-IsTail :
    (own_address : Text) (change : ℕ) → IsTail own_address change (change_output own_address change)
unfolding change_output output_total
change-IsTail own_address zero = record { own = tt; total = refl }
change-IsTail own_address (suc n) =
    let more : ltb 0 (suc n) ≡ true = ground arith in
    rw more
      (record { own = ((refl, refl), tt); total = omega (arith, number_of-to_string (suc n)) })

-- The destinations, in their order, and then the owner's outputs; at least two in all.
pub record PaysOut (ds : List Destination) (own_address : Text) (change : ℕ)
    (os : List UnsignedOutput) : Type 0 where
  pub back : List UnsignedOutput
  pub form : os ≡ map pay ds ++ back
  pub own : All (IsOwn own_address) back
  pub back_total : output_total back ≡ change
  pub two : 2 ≤ length os

padded-PaysOut :
    (ds : List Destination) (own_address : Text) (change : ℕ) (back : List UnsignedOutput)
    → 1 ≤ length ds
    → IsTail own_address change back
    → PaysOut ds own_address change (padded own_address (map pay ds ++ back))
unfolding padded output_total
padded-PaysOut ds own_address change back h t =
    let dummy : UnsignedOutput = record {
      address = own_address;
      amount = codes "0";
      change = true;
      dummy = true;
    } in
    let zero_text : number_of (codes "0") ≡ 0 = unfold number_of in refl in
    elim (Bool-cases (ltb (length (map pay ds ++ back)) 2)) [
      | inl e ↦ rw e (record {
        back = back ++ dummy ∷ [];
        form = append_assoc (map pay ds) back (dummy ∷ []);
        own = All-append (IsOwn own_address) back (dummy ∷ []) t.own ((refl, refl), tt);
        back_total = omega (arith, output_total-append back (dummy ∷ []), t.total, zero_text);
        two = omega (
          arith,
          length-append (map pay ds ++ back) (dummy ∷ []),
          length-append (map pay ds) back,
          length-pay ds,
        );
      })
      | inr e ↦ rw e (record {
        back = back;
        form = refl;
        own = t.own;
        back_total = t.total;
        two = ground (arith, e);
      })
    ]

outputs_of-PaysOut :
    (ds : List Destination) (own_address : Text) (change : ℕ)
    → 1 ≤ length ds
    → PaysOut ds own_address change (outputs_of ds own_address change)
unfolding outputs_of
outputs_of-PaysOut ds own_address change h =
    padded-PaysOut ds own_address change (change_output own_address change) h
      (change-IsTail own_address change)

-- The member of a ring at the real position is the output that is spent, for each input in turn.
abbrev pub HoldReal : List UnsignedInput → List SpendableOutput → Type 0
HoldReal [] [] = Unit
HoldReal [] (o ∷ os) = ⊥
HoldReal (w ∷ ws) [] = ⊥
HoldReal (w ∷ ws) (o ∷ os) =
    ((m : RingMember) × (get_elem? w.ring w.real_position ≡ some m)
      × (m.global_index ≡ o.global_index)
      × (m.key ≡ o.key))
    × HoldReal ws os

is_real-eq :
    (q : Option RingMember) (o : SpendableOutput)
    → is_real q o ≡ true
    → (m : RingMember) × (q ≡ some m) × (m.global_index ≡ o.global_index) × (m.key ≡ o.key)
unfolding is_real
is_real-eq none o e = cc
is_real-eq (some m) o e = (
  m,
  refl,
  ground (arith, ==_iff m.global_index o.global_index),
  eq_of_text_eq m.key o.key (ground arith),
)

all_real-HoldReal :
    (os : List SpendableOutput) (rs : List Ring)
    → length rs ≡ length os
    → all_real (wire_inputs os rs) os ≡ true
    → HoldReal (wire_inputs os rs) os
unfolding wire_inputs all_real
all_real-HoldReal [] [] l e = tt
all_real-HoldReal [] (r ∷ rs) l e = tt
all_real-HoldReal (o ∷ os) [] l e = absurd (omega arith)
all_real-HoldReal (o ∷ os) (r ∷ rs) l e =
    (is_real-eq _ o (ground arith), all_real-HoldReal os rs (omega arith) (ground arith))

-- What a set promises for the parameters that it was assembled from.
pub record IsSound (p : AssembleParams) (set : UnsignedTxSet) : Type 0 where
  pub balanced : input_total p.inputs ≡ output_total set.outputs + p.fee
  pub fee_text : set.fee ≡ to_string 10 p.fee
  pub pays : PaysOut p.destinations p.own_address p.change set.outputs
  pub real : HoldReal set.inputs p.inputs
  pub some_inputs : 1 ≤ length set.inputs

length-wire_inputs :
    (os : List SpendableOutput) (rs : List Ring)
    → length rs ≡ length os
    → length (wire_inputs os rs) ≡ length os
unfolding wire_inputs
length-wire_inputs [] rs l = refl
length-wire_inputs (o ∷ os) [] l = absurd (omega arith)
length-wire_inputs (o ∷ os) (r ∷ rs) l = ap suc (length-wire_inputs os rs (omega arith))

-- What `assembleUnsigned` asks of its parameters.
record IsReady (p : AssembleParams) : Type 0 where
  inputs : 1 ≤ length p.inputs
  rings : length p.rings ≡ length p.inputs
  destinations : 1 ≤ length p.destinations
  balanced : input_total p.inputs ≡ send_total p.destinations + p.change + p.fee
  real : all_real (set_of p).inputs p.inputs ≡ true

ok-IsReady :
    (p : AssembleParams) (set : UnsignedTxSet)
    → assemble_unsigned p ≡ ok set
    → IsReady p × (set ≡ set_of p)
unfolding assemble_unsigned
ok-IsReady p set e = (
  record {
    inputs = ground arith;
    rings = ground arith;
    destinations = ground arith;
    balanced = ground arith;
    real = ground arith;
  },
  ground arith,
)

IsReady-ok : (p : AssembleParams) → IsReady p → assemble_unsigned p ≡ ok (set_of p)
unfolding assemble_unsigned
IsReady-ok p r = ground (arith, r.inputs, r.rings, r.destinations, r.balanced, r.real)

set_of-IsSound : (p : AssembleParams) → IsReady p → IsSound p (set_of p)
unfolding set_of
set_of-IsSound p r =
    let pays = outputs_of-PaysOut p.destinations p.own_address p.change r.destinations in
    let whole : output_total (outputs_of p.destinations p.own_address p.change)
        ≡ send_total p.destinations + p.change =
      ap output_total pays.form
      ∙ output_total-append (map pay p.destinations) pays.back
      ∙ omega (arith, pay-total p.destinations, pays.back_total) in
    record {
      balanced = omega (arith, r.balanced);
      fee_text = refl;
      pays = pays;
      real = all_real-HoldReal p.inputs p.rings r.rings r.real;
      some_inputs = omega (arith, length-wire_inputs p.inputs p.rings r.rings, r.inputs);
    }

-- A set that is assembled balances to the piconero: what its outputs say they pay, with the fee, is
-- what the inputs hold. Its outputs are two at least: the destinations, each with its amount, and
-- then only outputs that pay the owner, the change in all. Each input's ring has, at the real
-- position, the index and the key of the output that is spent.
pub assemble_unsigned-IsSound :
    (p : AssembleParams) (set : UnsignedTxSet) → assemble_unsigned p ≡ ok set → IsSound p set
assemble_unsigned-IsSound p set e =
    let (r, same) = ok-IsReady p set e in rw same (set_of-IsSound p r)

pub assemble_unsigned-inputs :
    (p : AssembleParams) (set : UnsignedTxSet)
    → assemble_unsigned p ≡ ok set
    → (length p.rings ≡ length p.inputs) × (set.inputs ≡ wire_inputs p.inputs p.rings)
unfolding set_of
assemble_unsigned-inputs p set e =
    let (r, same) = ok-IsReady p set e in (r.rings, ap (λ (s : UnsignedTxSet). s.inputs) same)

-- The parameters that a plan of selectInputs gives.
abbrev pub params_of : InputPlan → List Destination → List Ring → Text → Text → ℕ → AssembleParams
params_of plan ds rings own_address network ring_size = record {
  inputs = plan.inputs;
  rings = rings;
  destinations = ds;
  change = plan.change;
  own_address = own_address;
  fee = plan.fee;
  network = network;
  ring_size = ring_size;
}

some_destination :
    (owned : List SpendableOutput) (per_byte multiplier ring_size : ℕ) (ds : List Destination)
    → (select_inputs owned (send_total ds) per_byte multiplier ring_size (length ds)).problem ≡ none
    → 1 ≤ length ds
unfolding select_inputs send_total
some_destination owned per_byte multiplier ring_size [] h = cc
some_destination owned per_byte multiplier ring_size (d ∷ ds) h = omega arith

-- Where selectInputs accepts a payment of the destinations' total, and there is a ring for each
-- input that has the real output where it says, assembleUnsigned gives a set: the plan balances.
pub assemble_unsigned-select_inputs :
    (owned : List SpendableOutput) (per_byte multiplier ring_size : ℕ) (ds : List Destination)
    (rings : List Ring) (own_address network : Text) (plan : InputPlan)
    → plan ≡ select_inputs owned (send_total ds) per_byte multiplier ring_size (length ds)
    → plan.problem ≡ none
    → length rings ≡ length plan.inputs
    → all_real (wire_inputs plan.inputs rings) plan.inputs ≡ true
    → (set : UnsignedTxSet) × (assemble_unsigned
          (params_of plan ds rings own_address network ring_size)
        ≡ ok set)
      × IsSound (params_of plan ds rings own_address network ring_size) set
unfolding set_of
assemble_unsigned-select_inputs owned per_byte multiplier ring_size ds rings own_address network
      plan e h l r =
    let f =
      accepted-IsFunded (send_total ds) per_byte multiplier ring_size (length ds) owned plan e h in
    let one =
      some_destination owned per_byte multiplier ring_size ds
        (ap (λ (q : InputPlan). q.problem) (sym e) ∙ h) in
    let p = params_of plan ds rings own_address network ring_size in
    let ready : IsReady (params_of plan ds rings own_address network ring_size) = record {
      inputs = f.some_inputs;
      rings = l;
      destinations = one;
      balanced = f.balanced;
      real = r;
    } in
    (set_of p, IsReady-ok p ready, set_of-IsSound p ready)
