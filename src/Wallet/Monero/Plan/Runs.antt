-- ===== src/Wallet/Monero/Plan/Runs.antt =====
-- Concrete runs of the online half of a Monero send, and its theorem at a concrete input.
use labyrinth_vault.Prelude.{
  ℕ, ◌+◌, ◌%◌, ◌≡◌, refl, ap, arith, Bool, true, false, List, [], ◌∷◌, Option, none, some, Text,
  codes, map, ◌==◌, if◌then◌else◌,
}
use labyrinth_vault.Prelude.Numerals.{to_string}
use labyrinth_vault.Wallet.Monero.Decoys.{
  OutputDistribution, make_picker, block_of, pick_one, select_ring,
}
use labyrinth_vault.Wallet.Monero.Fees.{estimate_weight, fee_for}
use labyrinth_vault.Wallet.Monero.Inputs.{SpendableOutput, select_inputs}
use labyrinth_vault.Wallet.Monero.Unsigned.{
  Destination, UnsignedTxSet, RingMember, send_total, assemble_unsigned,
}
use labyrinth_vault.Wallet.Monero.Node.{OutEntry, Node, CachedDistribution, outs, distribution_for}
use labyrinth_vault.Wallet.Monero.Plan.{
  Plan, done, failed, no_answer, syncing, different_output, too_fresh, locked_member,
  plan_monero_spend,
}
use labyrinth_vault.Wallet.Monero.Plan.Honest.{IsPlanned, plan_monero_spend-IsPlanned}

abbrev own_key : Text
own_key = codes "a0a1a2a3a4a5a6a7a8a9aaabacadaeafa0a1a2a3a4a5a6a7a8a9aaabacadaeaf"

abbrev own_commitment : Text
own_commitment = codes "b0b1b2b3b4b5b6b7b8b9babbbcbdbebfb0b1b2b3b4b5b6b7b8b9babbbcbdbebf"

abbrev other_key : Text
other_key = codes "c0c1c2c3c4c5c6c7c8c9cacbcccdcecfc0c1c2c3c4c5c6c7c8c9cacbcccdcecf"

abbrev owned : List SpendableOutput
owned =
    record {
      global_index = 7;
      key = own_key;
      commitment = own_commitment;
      amount = 90000;
      tx_public_key = other_key;
      index_in_tx = 0;
    }
    ∷ []

abbrev to_shop : List Destination
to_shop = record { address = codes "shop"; amount = 50000 } ∷ []

abbrev chain : OutputDistribution
chain = record { cumulative = 2 ∷ 5 ∷ 5 ∷ 9 ∷ 12 ∷ []; start_height = 100 }

abbrev entry : Bool → ℕ → ℕ → OutEntry
entry unlocked height i = record {
  key = if i == 7 then own_key else other_key;
  mask = own_commitment;
  unlocked = unlocked;
  height = some height;
}

-- A node at height 113 that answers for each index with `reply`.
abbrev node_with : Bool → (ℕ → OutEntry) → Node
node_with behind reply = record {
  base = codes "node";
  info = some (record { height = 113; syncing = behind });
  output_distribution = λ h. some chain;
  get_outs = λ is. some (map reply is);
}

-- Draws that walk through the outputs.
abbrev back : ℕ → ℕ → ℕ → ℕ × ℕ
back outputs blocks r = (r % outputs, r + 1)

abbrev place : ℕ → ℕ → ℕ × ℕ
place n r = (r, r + 1)

abbrev plan :
    Node
    → List SpendableOutput
    → Option CachedDistribution
    → Plan UnsignedTxSet × Option CachedDistribution
plan node coins cache =
    plan_monero_spend back place node coins to_shop 1 (codes "me") (codes "mainnet") 3 1 0 cache

abbrev honest : Node
honest = node_with false (entry true 100)

abbrev member : ℕ → Text → RingMember
member i key = record { global_index = i; key = key; commitment = own_commitment }

abbrev set : UnsignedTxSet
set = record {
  inputs =
      record {
        tx_public_key = other_key;
        index_in_tx = 0;
        global_index = 7;
        amount = codes "90000";
        ring = member 6 other_key ∷ member 7 own_key ∷ member 8 other_key ∷ [];
        real_position = 1;
      }
      ∷ [];
  outputs =
      record { address = codes "shop"; amount = codes "50000"; change = false; dummy = false }
      ∷ record { address = codes "me"; amount = codes "38906"; change = true; dummy = false }
      ∷ [];
  fee = codes "1094";
  network = codes "mainnet";
  ring_size = 3;
}

abbrev seen : CachedDistribution
seen = record { node = codes "node"; to_height = 103; value = chain }

plan_run : plan honest owned none ≡ (done set, some seen)
unfolding plan_monero_spend select_inputs send_total fee_for estimate_weight distribution_for
    make_picker select_ring pick_one block_of outs assemble_unsigned to_string
plan_run = refl

-- A failed fetch is not kept; what was kept serves the next attempt.
abbrev silent : Node
silent = record {
  base = codes "node";
  info = some (record { height = 113; syncing = false });
  output_distribution = λ h. none;
  get_outs = λ is. some (map (entry true 100) is);
}

silent_run : plan silent owned none ≡ (failed no_answer, none)
unfolding plan_monero_spend select_inputs send_total fee_for estimate_weight distribution_for
silent_run = refl

cached_run : plan silent owned (some seen) ≡ (done set, some seen)
unfolding plan_monero_spend select_inputs send_total fee_for estimate_weight distribution_for
    make_picker select_ring pick_one block_of outs assemble_unsigned to_string
cached_run = refl

behind_run : (plan (node_with true (entry true 100)) owned none).0 ≡ failed syncing
unfolding plan_monero_spend select_inputs send_total fee_for estimate_weight
behind_run = refl

-- An output nine blocks deep is refused.
fresh_run : (plan (node_with false (entry true 104)) owned none).0 ≡ failed (too_fresh 9)
unfolding plan_monero_spend select_inputs send_total fee_for estimate_weight distribution_for
    make_picker select_ring pick_one block_of outs
fresh_run = refl

locked_run : (plan (node_with false (entry false 100)) owned none).0 ≡ failed locked_member
unfolding plan_monero_spend select_inputs send_total fee_for estimate_weight distribution_for
    make_picker select_ring pick_one block_of outs
locked_run = refl

-- The node gives another key for the output being spent.
swapped_run :
    (plan (node_with false (λ i. entry true 100 (i + 1))) owned none).0 ≡ failed different_output
unfolding plan_monero_spend select_inputs send_total fee_for estimate_weight distribution_for
    make_picker select_ring pick_one block_of outs
swapped_run = refl

plan_monero_spend-IsPlanned_example :
    IsPlanned back place honest owned to_shop 1 1 3 (codes "me") (codes "mainnet") none set
plan_monero_spend-IsPlanned_example =
    plan_monero_spend-IsPlanned back place honest owned to_shop 1 (codes "me") (codes "mainnet") 3 1
      0 none set (omega arith) (ap (λ p. p.0) plan_run)
