-- ===== src/Wallet/Model.antt =====
-- wallet/src/core/model.ts and chain.ts, and the types of build.ts that the send flow carries.
-- Amounts are counted in the smallest unit; what a person or a coin sets is never negative.
use labyrinth_vault.Prelude.{ℕ, Bool, true, false, List, Option, Text}
use labyrinth_vault.Prelude.Integers.{ℤ}

pub data Asset : Type 0 where
  btc xmr : Asset

pub data Network : Type 0 where
  mainnet stagenet testnet : Network

-- `sats` satoshi for `bytes` virtual bytes.
pub record Rate : Type 0 where
  pub sats : ℕ
  pub bytes : ℕ

-- A coin's name: the transaction that made it, and its place among that one's outputs.
pub record Outpoint : Type 0 where
  pub txid : Text
  pub vout : ℕ

pub record Draft : Type 0 where
  pub asset : Asset
  pub recipient : Text
  pub amount : ℕ
  pub fee : ℕ
  pub fee_rate : Rate
  pub unsigned : List ℕ
  pub digest : Text
  pub created_at : ℕ
  pub inputs : List Outpoint
  pub input_total : ℕ
  pub change_addresses : List Text
  pub spent_keys : Option (List Text)

pub record OutputFact : Type 0 where
  pub address : Option Text
  pub value : ℕ

-- The sentences of a refusal, with the values that they quote.
pub data Reason : Type 0 where
  checked_elsewhere unreadable : Reason
  unapproved_coins missing_coins strangers : ℕ → Reason
  unpaid : Text → Reason
  other_amount : ℕ → ℕ → Reason
  fee_above fee_below : ℤ → ℕ → Reason

pub record Accepted : Type 0 where
  pub txid : Text
  pub raw : List ℕ
  pub outputs : List OutputFact
  pub fee : ℤ
  pub network : Option Network

pub record Refused : Type 0 where
  pub reasons : List Reason
  pub outputs : List OutputFact

pub data Verified : Type 0 where
  accepted : Accepted → Verified
  refused : Refused → Verified

abbrev pub is_ok : Verified → Bool
is_ok (accepted a) = true
is_ok (refused r) = false
