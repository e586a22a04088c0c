-- ===== src/Wallet/Runs/Preparing.antt =====
-- Concrete runs of prepare, and its theorem at a concrete input.
use labyrinth_vault.Prelude.{◌≡◌, refl, arith, false, map, [], ◌∷◌, none, some, codes, trim}
use labyrinth_vault.Prelude.Numerals.{to_string, pad_start}
use labyrinth_vault.Prelude.Integers.{pos}
use labyrinth_vault.Wallet.Model.{Draft, btc, accepted}
use labyrinth_vault.Wallet.Addresses.{canonical_btc_address}
use labyrinth_vault.Wallet.Verify.{RawTx, verify_signed, to_hex}
use labyrinth_vault.Wallet.Verify.Coins.{here}
use labyrinth_vault.Wallet.Verify.Matches.{verdict}
use labyrinth_vault.Wallet.Coins.{
  Utxo, select_coins, output_vbytes_for, paying_vbytes, fee_for, estimate_vsize,
}
use labyrinth_vault.Wallet.Verify.{spent_key, approved_key, output_fact}
use labyrinth_vault.Wallet.Verify.Coins.{Within}
use labyrinth_vault.Wallet.Prepare.{
  built, too_small, readable_build_error, BuildLibrary, PrepareParams, prepare, drafted,
  digest_of_bytes,
}
use labyrinth_vault.Wallet.Prepare.Honest.{expected_outputs, verify_signed-prepare}
use labyrinth_vault.Wallet.Coins.{Selection}
use labyrinth_vault.Wallet.Runs.{slow, codec}

calls : Unit {0}
unfolding prepare digest_of_bytes select_coins output_vbytes_for paying_vbytes fee_for
    canonical_btc_address verify_signed to_hex trim to_string pad_start estimate_vsize
calls = tt

abbrev builder : BuildLibrary
builder = record {
  codec = codec;
  open_watch = λ zpub. some (λ i. codes "bc1c");
  to_psbt = λ coins outputs. built (9 ∷ []);
  sha256 = λ b. b;
}

abbrev held : Utxo
held = record {
  txid = codes "0a";
  vout = 1;
  value = 7200;
  address = [];
  path = (0, 0);
  script = [];
  confirmations = 1;
}

abbrev order : PrepareParams
order = record {
  asset = btc;
  recipient = codes "BC1Q";
  amount = 5000;
  rate = slow;
  utxos = held ∷ [];
  balance = 7200;
  zpub = [];
  change_index = 0;
  now = 3;
}

abbrev ordered : Draft
ordered = record {
  asset = btc;
  recipient = codes "bc1q";
  amount = 5000;
  fee = 141;
  fee_rate = slow;
  unsigned = 9 ∷ [];
  digest = codes "09";
  created_at = 3;
  inputs = record { txid = codes "0a"; vout = 1 } ∷ [];
  input_total = 7200;
  change_addresses = codes "bc1c" ∷ [];
  spent_keys = none;
}

abbrev ordered_coins : Selection
ordered_coins = record {
  chosen = held ∷ [];
  fee = 141;
  change = 2059;
  change_to_fee = false;
  problem = none;
}

abbrev finished : RawTx
finished = record {
  id = codes "id";
  inputs = record { txid = some (10 ∷ []); index = some 1 } ∷ [];
  outputs =
      record { amount = some 5000; address = some (codes "bc1q") }
      ∷ record { amount = some 2059; address = some (codes "bc1c") }
      ∷ [];
}

prepare-order : prepare builder order ≡ drafted ordered ordered_coins
unfolding calls
prepare-order = refl

spelled : canonical_btc_address codec (codes "bc1q") ≡ codes "bc1q"
unfolding calls
spelled = refl

Within-spent : Within (map spent_key finished.inputs) (map approved_key ordered.inputs)
unfolding calls
Within-spent = (here [], tt)

Within-approved : Within (map approved_key ordered.inputs) (map spent_key finished.inputs)
unfolding calls
Within-approved = (here [], tt)

finished_outputs : map output_fact finished.outputs ≡ expected_outputs ordered ordered_coins
unfolding calls
finished_outputs = refl

verify_signed-prepare_example :
    verify_signed (record { codec = codec; from_raw = λ raw. some finished }) ordered (7 ∷ [])
    ≡ accepted (verdict finished (7 ∷ []) (pos 141))
verify_signed-prepare_example =
    verify_signed-prepare builder (λ raw. some finished) order ordered ordered_coins (7 ∷ [])
      finished prepare-order spelled ((λ e. ground arith), tt) refl Within-spent Within-approved
      finished_outputs

readable_run : readable_build_error (codes "Amount too LOW") ≡ too_small
unfolding readable_build_error
readable_run = refl
