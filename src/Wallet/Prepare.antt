-- ===== src/Wallet/Prepare.antt =====
-- wallet/src/core/build.ts: the draft of a Bitcoin payment.
pub mod Honest
use labyrinth_vault.Prelude.{
  ℕ, ◌+◌, Bool, true, false, List, [], ◌∷◌, ◌++◌, map, Option, none, some, Text, codes, is_upper,
  ◌&&◌, ◌||◌, ◌==◌, if◌then◌else◌, ltb,
}
use labyrinth_vault.Wallet.Model.{Asset, btc, xmr, Draft, Outpoint, Rate}
use labyrinth_vault.Wallet.Addresses.{AddressCodec, canonical_btc_address}
use labyrinth_vault.Wallet.Verify.{to_hex}
use labyrinth_vault.Wallet.Coins.{Utxo, Selection, SelectProblem, select_coins, total_value}

-- A PSBT; the message of what the library threw while the transaction was put together; or what
-- `toPSBT` threw, which is outside the `try`.
pub data Built : Type 0 where
  built : List ℕ → Built
  refused : Text → Built
  escaped : Built

-- What the draft's building takes from elsewhere: the codec; the account key, opened, with the
-- address at each index of the change branch; the library's PSBT for the coins and the outputs, which
-- are addresses with amounts; and SHA-256.
pub record BuildLibrary : Type 0 where
  pub codec : AddressCodec
  pub open_watch : Text → Option (ℕ → Text)
  pub to_psbt : List Utxo → List (Text × ℕ) → Built
  pub sha256 : List ℕ → List ℕ

pub record PrepareParams : Type 0 where
  pub asset : Asset
  pub recipient : Text
  pub amount : ℕ
  pub rate : Rate
  pub utxos : List Utxo
  pub balance : ℕ
  pub zpub : Text
  pub change_index : ℕ
  pub now : ℕ

-- The sentences of `readableBuildError`.
pub data BuildProblem : Type 0 where
  bad_destination too_small : BuildProblem
  could_not : Text → BuildProblem

pub data PrepareProblem : Type 0 where
  planned_elsewhere no_account : PrepareProblem
  not_selected : SelectProblem → PrepareProblem
  not_built : BuildProblem → PrepareProblem

-- `thrown` is an exception that `prepare` does not catch.
pub data Prepared : Type 0 where
  drafted : Draft → Selection → Prepared
  stopped : PrepareProblem → Prepared
  thrown : Prepared

small : ℕ → ℕ
small c = if is_upper c then c + 32 else c

-- The text begins with a word, in either case.
begins : Text → Text → Bool
unfolding small
begins [] s = true
begins (w ∷ ws) [] = false
begins (w ∷ ws) (c ∷ s) = small c == w && begins ws s

-- `/word/i.test(text)`, for a word in small letters.
mentions : Text → Text → Bool
unfolding begins
mentions word [] = false
mentions word (c ∷ s) = begins word (c ∷ s) || mentions word s

unfoldable pub readable_build_error : Text → BuildProblem
unfolding mentions
readable_build_error message =
    if mentions (codes "address") message
    then bad_destination
    else if mentions (codes "dust") message || mentions (codes "amount") message
    then too_small
    else could_not message

unfoldable pub digest_of_bytes : BuildLibrary → List ℕ → Text
unfolding to_hex
digest_of_bytes lib b = to_hex (lib.sha256 b)

pub outpoint_of : Utxo → Outpoint
outpoint_of u = record { txid = u.txid; vout = u.vout }

-- The addresses of the change, and the outputs.
pub change_addresses_of : Selection → Text → List Text
change_addresses_of s address = if ltb 0 s.change then address ∷ [] else []

pub outputs_of : Text → ℕ → Selection → Text → List (Text × ℕ)
outputs_of recipient amount s address =
    (recipient, amount) ∷ (if ltb 0 s.change then (address, s.change) ∷ [] else [])

pub draft_of : BuildLibrary → PrepareParams → Text → Selection → Text → List ℕ → Draft
draft_of lib p recipient s address unsigned = record {
  asset = p.asset;
  recipient = recipient;
  amount = p.amount;
  fee = s.fee;
  fee_rate = p.rate;
  unsigned = unsigned;
  digest = digest_of_bytes lib unsigned;
  created_at = p.now;
  inputs = map outpoint_of s.chosen;
  input_total = total_value s.chosen;
  change_addresses = change_addresses_of s address;
  spent_keys = none;
}

-- Once the library has answered.
pub draft_built : BuildLibrary → PrepareParams → Text → Selection → Text → Built → Prepared
unfolding readable_build_error
draft_built lib p recipient s address (built unsigned) =
    drafted (draft_of lib p recipient s address unsigned) s
draft_built lib p recipient s address (refused message) =
    stopped (not_built (readable_build_error message))
draft_built lib p recipient s address escaped = thrown

-- From a selection on.
pub build_draft : BuildLibrary → PrepareParams → Text → Selection → Prepared
unfolding draft_built
build_draft lib p recipient s = elim (s.problem) [
  | some problem ↦ stopped (not_selected problem)
  | none ↦ elim (lib.open_watch p.zpub) [
    | none ↦ stopped no_account
    | some address_at ↦
        draft_built lib p recipient s (address_at p.change_index)
          (lib.to_psbt s.chosen (outputs_of recipient p.amount s (address_at p.change_index)))
  ]
]

unfoldable pub prepare : BuildLibrary → PrepareParams → Prepared
unfolding build_draft draft_of outputs_of change_addresses_of outpoint_of
prepare lib p = elim (p.asset) [
  | xmr ↦ stopped planned_elsewhere
  | btc ↦
      let recipient = canonical_btc_address lib.codec p.recipient in
      build_draft lib p recipient (select_coins lib.codec p.utxos p.amount p.rate recipient)
]
