-- ===== src/Wallet/Monero/Runs.antt =====
-- Concrete runs of the Monero send, and the theorems at concrete inputs.
use labyrinth_vault.Prelude.{
  ℕ, ◌≡◌, refl, true, false, List, [], ◌∷◌, none, some, Text, codes, length,
}
use labyrinth_vault.Prelude.Numerals.{to_string}
use labyrinth_vault.Wallet.Monero.Fees.{estimate_weight, fee_for}
use labyrinth_vault.Wallet.Monero.Inputs.{SpendableOutput, InputPlan, not_enough, select_inputs}
use labyrinth_vault.Wallet.Monero.Unsigned.{
  ChainOutput, Ring, Destination, UnsignedTxSet, ok, misplaced, wire_inputs, all_real, send_total,
  assemble_unsigned,
}
use labyrinth_vault.Wallet.Monero.Unsigned.Sound.{
  IsSound, params_of, assemble_unsigned-IsSound, assemble_unsigned-select_inputs,
}

-- wallet2's estimate for one input and two outputs in a ring of sixteen.
weight_run : estimate_weight 1 2 16 44 ≡ 1536
unfolding estimate_weight
weight_run = refl

abbrev coin : ℕ → ℕ → SpendableOutput
coin i amount = record {
  global_index = i;
  key = codes "aa";
  commitment = codes "bb";
  amount = amount;
  tx_public_key = codes "cc";
  index_in_tx = 0;
}

abbrev owned : List SpendableOutput
owned = coin 4 5000 ∷ coin 7 90000 ∷ coin 9 0 ∷ []

abbrev plan : InputPlan
plan = record { problem = none; inputs = coin 7 90000 ∷ []; fee = 1536; change = 38464 }

plan_run : select_inputs owned 50000 1 1 16 1 ≡ plan
unfolding select_inputs fee_for estimate_weight
plan_run = refl

-- Change of 464 piconero is dust, and goes to the fee.
dust_run :
    select_inputs owned 88000 1 1 16 1
    ≡ record { problem = none; inputs = coin 7 90000 ∷ []; fee = 2000; change = 0 }
unfolding select_inputs fee_for estimate_weight
dust_run = refl

short_run : (select_inputs owned 95000 1 1 16 1).problem ≡ some (not_enough 97215 95000)
unfolding select_inputs fee_for estimate_weight
short_run = refl

abbrev member : ℕ → Text → ChainOutput
member i key = record {
  global_index = i;
  key = key;
  commitment = codes "dd";
  unlocked = true;
  height = 100;
}

abbrev rings : List Ring
rings =
    record { members = member 3 (codes "ee") ∷ member 7 (codes "aa") ∷ []; real_position = 1 } ∷ []

abbrev to_shop : List Destination
to_shop = record { address = codes "shop"; amount = 50000 } ∷ []

-- The parameters name the wrong member.
misplaced_run :
    assemble_unsigned (
      params_of plan to_shop
        (record { members = member 3 (codes "ee") ∷ member 7 (codes "aa") ∷ []; real_position = 0 }
          ∷ [])
        (codes "me")
        (codes "mainnet")
        16)
    ≡ misplaced
unfolding assemble_unsigned
misplaced_run = refl

abbrev set : UnsignedTxSet
set = record {
  inputs =
      record {
        tx_public_key = codes "cc";
        index_in_tx = 0;
        global_index = 7;
        amount = codes "90000";
        ring =
            record { global_index = 3; key = codes "ee"; commitment = codes "dd" }
            ∷ record { global_index = 7; key = codes "aa"; commitment = codes "dd" }
            ∷ [];
        real_position = 1;
      }
      ∷ [];
  outputs =
      record { address = codes "shop"; amount = codes "50000"; change = false; dummy = false }
      ∷ record { address = codes "me"; amount = codes "38464"; change = true; dummy = false }
      ∷ [];
  fee = codes "1536";
  network = codes "mainnet";
  ring_size = 16;
}

assemble_run :
    assemble_unsigned (params_of plan to_shop rings (codes "me") (codes "mainnet") 16) ≡ ok set
unfolding assemble_unsigned to_string
assemble_run = refl

assemble_unsigned-IsSound_example :
    IsSound (params_of plan to_shop rings (codes "me") (codes "mainnet") 16) set
assemble_unsigned-IsSound_example =
    assemble_unsigned-IsSound (params_of plan to_shop rings (codes "me") (codes "mainnet") 16) set
      assemble_run

plan_of_shop : plan ≡ select_inputs owned (send_total to_shop) 1 1 16 (length to_shop)
unfolding select_inputs fee_for estimate_weight send_total
plan_of_shop = refl

rings_real : all_real (wire_inputs plan.inputs rings) plan.inputs ≡ true
unfolding all_real wire_inputs
rings_real = refl

assemble_unsigned-select_inputs_example :
    (set : UnsignedTxSet) × (assemble_unsigned
        (params_of plan to_shop rings (codes "me") (codes "mainnet") 16)
      ≡ ok set)
    × IsSound (params_of plan to_shop rings (codes "me") (codes "mainnet") 16) set
assemble_unsigned-select_inputs_example =
    assemble_unsigned-select_inputs owned 1 1 16 to_shop rings (codes "me") (codes "mainnet") plan
      plan_of_shop refl refl rings_real
