-- ===== src/Wallet/Session.antt =====
-- wallet/src/core/session.ts: the send flow, one reducer on one state.
-- `T` is the type of a transmission, an object that the flow holds and never looks into.
pub mod Moves
pub mod Approval
use labyrinth_vault.Prelude.{
  ℕ, Bool, true, false, ◌&&◌, List, [], ◌∷◌, Option, none, some, Text, if◌then◌else◌,
}
use labyrinth_vault.Wallet.Model.{Draft, Verified, is_ok}

pub data Step : Type 0 where
  compose review transmit signing awaiting receive ready broadcasting done mismatch failed : Step

pub data FeeKey : Type 0 where
  economy standard priority : FeeKey

pub data RecipientSource : Type 0 where
  typed pasted scanned : RecipientSource

pub record Compose : Type 0 where
  pub recipient : Text
  pub amount_text : Text
  pub fee_key : FeeKey
  pub source : Option RecipientSource

pub record SessionState (T : Type 0) : Type 0 where
  pub step : Step
  pub composing : Compose
  pub draft : Option Draft
  pub account : Option Text
  pub transmission : Option T
  pub capture : Option (ℕ × ℕ)
  pub verified : Option Verified
  pub txid : Option Text
  pub problem : Option Text
  pub since : ℕ

-- START
abbrev pub start : {T : Type 0} → SessionState T
start = record {
  step = compose;
  composing = record { recipient = []; amount_text = []; fee_key = standard; source = none };
  draft = none;
  account = none;
  transmission = none;
  capture = none;
  verified = none;
  txid = none;
  problem = none;
  since = 0;
}

pub data SessionEvent (T : Type 0) : Type 0 where
  set_recipient : Text → Option RecipientSource → SessionEvent T
  set_amount : Text → SessionEvent T
  set_fee : FeeKey → SessionEvent T
  prepared : Draft → Option Text → ℕ → SessionEvent T
  begin_transmit : T → ℕ → SessionEvent T
  sign_here : Bool → ℕ → SessionEvent T
  handed_over read_back : ℕ → SessionEvent T
  captured : ℕ → ℕ → SessionEvent T
  returned : Verified → ℕ → SessionEvent T
  broadcast : ℕ → SessionEvent T
  published : Text → ℕ → SessionEvent T
  fail : Text → ℕ → SessionEvent T
  back reset : SessionEvent T

-- `state.verified?.ok`
abbrev pub is_verified : Option Verified → Bool
is_verified none = false
is_verified (some v) = is_ok v

-- The case `back` of the reducer.
go_back : {T : Type 0} → SessionState T → SessionState T
go_back s = elim (s.step) [
  | review ↦ record s { step = compose; draft = none; account = none }
  | transmit ↦ record s { step = review; transmission = none }
  | awaiting ↦ record s { step = transmit }
  | receive ↦ record s { step = awaiting; capture = none }
  | signing ↦ record s { step = review }
  | broadcasting ↦ record s { step = ready }
  | failed ↦ if is_verified s.verified then record s { step = ready; problem = none } else start
  | _ ↦ s
]

-- The case `returned` of the reducer, in a step that takes a signature.
take_verdict : {T : Type 0} → SessionState T → Verified → ℕ → SessionState T
take_verdict s v at =
    if is_ok v
    then record s { step = ready; verified = some v; txid = none; since = at }
    else record s { step = mismatch; verified = some v; since = at }

unfoldable pub reduce : {T : Type 0} → SessionState T → SessionEvent T → SessionState T
unfolding go_back take_verdict
reduce s reset = start
reduce s (set_recipient value from) = elim (s.step) [
  | compose ↦ record s { composing = record (s.composing) { recipient = value; source = from } }
  | _ ↦ s
]
reduce s (set_amount value) = elim (s.step) [
  | compose ↦ record s { composing = record (s.composing) { amount_text = value } }
  | _ ↦ s
]
reduce s (set_fee value) = elim (s.step) [
  | compose ↦ record s { composing = record (s.composing) { fee_key = value } }
  | _ ↦ s
]
reduce s (prepared d who at) = elim (s.step) [
  | compose ↦ record s { step = review; draft = some d; account = who; problem = none; since = at }
  | _ ↦ s
]
reduce s (begin_transmit t at) = elim (s.step) [
  | review ↦ record s { step = transmit; transmission = some t; since = at }
  | _ ↦ s
]
reduce s (sign_here here at) = elim (s.step) [
  | review ↦ if here then record s { step = signing; since = at } else s
  | _ ↦ s
]
reduce s (handed_over at) = elim (s.step) [
  | transmit ↦ record s { step = awaiting; since = at }
  | _ ↦ s
]
reduce s (read_back at) = elim (s.step) [
  | awaiting ↦ record s { step = receive; capture = some (0, 0); since = at }
  | transmit ↦ record s { step = receive; capture = some (0, 0); since = at }
  | _ ↦ s
]
reduce s (captured have total) = elim (s.step) [
  | receive ↦ record s { capture = some (have, total) }
  | _ ↦ s
]
reduce s (returned v at) = elim (s.step) [
  | receive ↦ take_verdict s v at
  | signing ↦ take_verdict s v at
  | _ ↦ s
]
reduce s (broadcast at) = elim (s.step) [
  | ready ↦ record s { step = broadcasting; since = at }
  | _ ↦ s
]
reduce s (published txid at) = elim (s.step) [
  | broadcasting ↦ record s { step = done; txid = some txid; since = at }
  | _ ↦ s
]
reduce s (fail problem at) = elim (s.step) [
  | mismatch ↦ s
  | _ ↦ record s { step = failed; problem = some problem; since = at }
]
reduce s back = go_back s

unfoldable pub can_broadcast : {T : Type 0} → SessionState T → Bool
can_broadcast s = elim (s.step) [ ready ↦ is_verified s.verified | _ ↦ false ]

unfoldable pub journey_reached : {T : Type 0} → SessionState T → ℕ
journey_reached s = elim (s.step) [
  | compose ↦ 0
  | review ↦ 1
  | transmit ↦ 2
  | signing ↦ 3
  | awaiting ↦ 3
  | receive ↦ 3
  | ready ↦ 4
  | broadcasting ↦ 4
  | done ↦ 5
  | _ ↦ 0
]
