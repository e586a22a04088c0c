-- ===== src/Wallet/Runs.antt =====
-- Concrete runs of the wallet's core, and the theorems at concrete inputs.
mod Sending
mod Preparing
use labyrinth_vault.Prelude.{
  ℕ, ◌+◌, ◌↔◌, length, max, ◌<◌, ◌&&◌, ◌≡◌, ◌≢◌, ◌≤◌, refl, arith, true, false, All, map, List, [],
  ◌∷◌, none, some, codes, Text, trim,
}
use labyrinth_vault.Prelude.Numerals.{number_of, to_string, pad_start}
use labyrinth_vault.Prelude.Integers.{pos}
use labyrinth_vault.Wallet.Model.{Rate, Draft, btc, accepted, Accepted}
use labyrinth_vault.Wallet.Session.{
  SessionState, SessionEvent, start, reduce, can_broadcast, is_verified, mismatch, signing,
  prepared, begin_transmit, handed_over, read_back, returned,
}
use labyrinth_vault.Wallet.Session.Approval.{
  run, Reach, begun, moved, Approval, can_broadcast-Approval, run_mismatch, run_signing,
}
use labyrinth_vault.Wallet.Addresses.{AddressCodec, canonical_btc_address}
use labyrinth_vault.Wallet.Verify.{RawTx, TxLibrary, verify_signed, to_hex}
use labyrinth_vault.Wallet.Verify.Coins.{here}
use labyrinth_vault.Wallet.Verify.Matches.{
  Matches, verdict, verify_signed-Matches, verify_signed-accepts, to_recipient, to_change,
}
use labyrinth_vault.Wallet.Coins.{
  Utxo, select_coins, max_sendable, output_vbytes_for, paying_vbytes, fee_for, estimate_vsize,
  total_value,
}
use labyrinth_vault.Wallet.Coins.Balance.{IsBalanced}
use labyrinth_vault.Wallet.Coins.Sorting.{count}
use labyrinth_vault.Wallet.Coins.Choice.{
  select_coins-IsBalanced, select_coins-count, select_coins-suffices, select_coins-max_sendable,
}
use labyrinth_vault.Wallet.Verify.{spent_key, approved_key, output_fact}
use labyrinth_vault.Wallet.Verify.Coins.{Within}
use labyrinth_vault.Wallet.Change.{Scanned, change_index, next_change_index}
use labyrinth_vault.Wallet.Change.Fresh.{next_change_index-lt}
use labyrinth_vault.Wallet.Signgate.{
  Biometrics, hot, decide, can_sign_here, ever_signs_unprompted, decide-allow,
}
use labyrinth_vault.Wallet.Prepare.{BuildLibrary, PrepareParams, prepare, drafted, digest_of_bytes}
use labyrinth_vault.Wallet.Prepare.Honest.{expected_outputs, verify_signed-prepare}
use labyrinth_vault.Wallet.Coins.{Selection}
use labyrinth_vault.Wallet.Model.{xmr}
use labyrinth_vault.Wallet.Units.{format_amount, in_groups, chunk_address}
use labyrinth_vault.Wallet.Units.Groups.{join, chunk_address-join}
use labyrinth_vault.Wallet.Wire.{Transmission, transmit, frame_estimate, pass_seconds}
use labyrinth_vault.Airgap.Envelope.{psbt, encode_parts}
use labyrinth_vault.Airgap.Base32.{base32_encode}
use labyrinth_vault.Airgap.Crc.{digest_of}

runs : Unit {0}
unfolding select_coins max_sendable output_vbytes_for paying_vbytes fee_for canonical_btc_address
    verify_signed to_hex trim to_string pad_start estimate_vsize
runs = tt

abbrev pub slow : Rate
slow = record { sats = 1; bytes = 1 }

-- A codec that knows one address, `bc1q`, with a script of 22 bytes, in either spelling.
abbrev pub script : List ℕ
script = 0 ∷ 20 ∷ 1 ∷ 1 ∷ 1 ∷ 1 ∷ 1 ∷ 1 ∷ 1 ∷ 1 ∷ 1 ∷ 1 ∷ 1 ∷ 1 ∷ 1 ∷ 1 ∷ 1 ∷ 1 ∷ 1 ∷ 1 ∷ 1 ∷ 1 ∷ []

abbrev pub codec : AddressCodec
codec = record { encode_script = λ a. some script; address_of = λ s. some (codes "bc1q") }

abbrev pub paying_draft : Draft
paying_draft = record {
  asset = btc;
  recipient = codes "BC1Q";
  amount = 5000;
  fee = 200;
  fee_rate = slow;
  unsigned = 1 ∷ [];
  digest = codes "d";
  created_at = 0;
  inputs = record { txid = codes "0a"; vout = 1 } ∷ [];
  input_total = 7200;
  change_addresses = codes "bc1c" ∷ [];
  spent_keys = none;
}

abbrev signed : RawTx
signed = record {
  id = codes "id";
  inputs = record { txid = some (10 ∷ []); index = some 1 } ∷ [];
  outputs =
      record { amount = some 2000; address = some (codes "bc1c") }
      ∷ record { amount = some 5000; address = some (codes "bc1q") }
      ∷ [];
}

abbrev library : TxLibrary
library = record { codec = codec; from_raw = λ raw. some signed }

abbrev pub verdict_of_signed : Accepted
verdict_of_signed = verdict signed (7 ∷ []) (pos 200)

verify_signed-signed : verify_signed library paying_draft (7 ∷ []) ≡ accepted verdict_of_signed
unfolding runs
verify_signed-signed = refl

in_order : Matches (canonical_btc_address codec paying_draft.recipient) paying_draft signed
unfolding runs
in_order = record {
  approved_only = (here [], tt);
  approved_all = (here [], tt);
  paid = refl;
  some_paid = λ e. omega (arith, e);
  known = (to_change (codes "bc1c") refl (here []), (to_recipient refl, tt));
  balance = refl;
}

verify_signed-Matches_example :
    (tx : RawTx) × (some signed ≡ some tx)
    × Matches (canonical_btc_address codec paying_draft.recipient) paying_draft tx
    × (verdict_of_signed ≡ verdict tx (7 ∷ []) (pos 200))
verify_signed-Matches_example =
    verify_signed-Matches library paying_draft (7 ∷ []) verdict_of_signed verify_signed-signed

verify_signed-accepts_example :
    verify_signed library paying_draft (7 ∷ []) ≡ accepted verdict_of_signed
verify_signed-accepts_example =
    verify_signed-accepts library paying_draft (7 ∷ []) signed refl refl in_order

abbrev coin : ℕ → Utxo
coin v = record {
  txid = codes "0a";
  vout = 0;
  value = v;
  address = [];
  path = (0, 0);
  script = [];
  confirmations = 1;
}

abbrev purse : List Utxo
purse = coin 900 ∷ coin 7000 ∷ coin 3000 ∷ []

select_some : (select_coins codec purse 5000 slow (codes "bc1q")).change ≡ 1859
unfolding runs
select_some = refl

select_fits : (select_coins codec purse 5000 slow (codes "bc1q")).problem ≡ none
unfolding runs
select_fits = refl

select_coins-IsBalanced_example :
    IsBalanced
      (output_vbytes_for codec (codes "bc1q"))
      5000
      slow
      (select_coins codec purse 5000 slow (codes "bc1q"))
select_coins-IsBalanced_example =
    select_coins-IsBalanced codec purse 5000 slow (codes "bc1q") select_fits

select_coins-count_example :
    count (λ u. true) (select_coins codec purse 5000 slow (codes "bc1q")).chosen
    ≤ count (λ u. true) purse
select_coins-count_example = select_coins-count codec purse 5000 slow (codes "bc1q") (λ u. true)

covered : 9000 + fee_for 3 (output_vbytes_for codec (codes "bc1q") ∷ []) slow ≤ total_value purse
unfolding runs total_value
covered = omega arith

select_coins-suffices_example : (select_coins codec purse 9000 slow (codes "bc1q")).problem ≡ none
select_coins-suffices_example =
    select_coins-suffices codec purse 9000 slow (codes "bc1q") (omega arith) covered

sweep : max_sendable codec purse slow none ≡ 10642
unfolding runs total_value
sweep = refl

no_wider : output_vbytes_for codec (codes "bc1q") ≤ paying_vbytes codec none
unfolding runs
no_wider = omega arith

select_coins-max_sendable_example :
    (select_coins codec purse (max_sendable codec purse slow none) slow (codes "bc1q")).problem
    ≡ none
select_coins-max_sendable_example =
    select_coins-max_sendable codec purse slow none (codes "bc1q") no_wider (omega (arith, sweep))

abbrev scanned : List Scanned
scanned =
    record { path = some (codes "1/2"); used = true }
    ∷ record { path = some (codes "1/1"); used = false }
    ∷ record { path = some (codes "0/9"); used = true }
    ∷ []

-- Past every used address, not at the first gap, and two behind that.
next_change_index-scanned : next_change_index scanned (pos 2) ≡ 5
unfolding next_change_index number_of
next_change_index-scanned = refl

next_change_index-lt_example :
    All
      (λ e.
        (i : ℕ) → change_index e ≡ some i → e.used ≡ true → i < next_change_index scanned (pos 2))
      scanned
next_change_index-lt_example = next_change_index-lt scanned (pos 2)

abbrev phone : Biometrics
phone = record { hardware = true; enrolled = false; passcode = true }

decide-allow_example :
    (((decide hot phone).allow ≡ true) ↔ ((hot ≡ hot) × (phone.passcode ≡ true)))
    × ((decide hot phone).prompt ≡ (decide hot phone).allow)
    × (((decide hot phone).reason ≡ none) ↔ ((decide hot phone).allow ≡ true))
    × (ever_signs_unprompted phone ≡ false)
decide-allow_example = decide-allow hot phone

abbrev only_frame : Text
only_frame = codes "LV1:PSBT:1:1:a505df1b:AE"

abbrev on_screen : Transmission
on_screen = record {
  kind = psbt;
  total = 1;
  digest = codes "d";
  frames = only_frame ∷ [];
  cursor = 0;
  laps = 0;
  frame = only_frame;
}

transmit-on_screen : transmit paying_draft ≡ some on_screen
unfolding transmit encode_parts base32_encode digest_of to_string pad_start
transmit-on_screen = refl

estimate_run : frame_estimate 1 ≡ (1, pass_seconds on_screen)
unfolding frame_estimate pass_seconds
estimate_run = refl
