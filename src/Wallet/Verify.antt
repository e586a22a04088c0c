-- ===== src/Wallet/Verify.antt =====
-- wallet/src/core/build.ts: the check of a signed transaction against the draft.
pub mod Coins
pub mod Matches
use labyrinth_vault.Prelude.{
  ℕ, ◌+◌, ◌++◌, Bool, true, false, ◌&&◌, not, List, [], ◌∷◌, map, Option, none, some, Text, text_eq,
  codes, if◌then◌else◌, ltb, ◌==◌, length,
}
use labyrinth_vault.Prelude.Numerals.{to_string, pad_start}
use labyrinth_vault.Prelude.Integers.{ℤ, difference, is_pos, above}
use labyrinth_vault.Wallet.Model.{
  Asset, btc, xmr, Outpoint, Draft, OutputFact, Reason, checked_elsewhere, unreadable,
  unapproved_coins, missing_coins, strangers, unpaid, other_amount, fee_above, fee_below, Accepted,
  Refused, Verified, accepted, refused,
}
use labyrinth_vault.Wallet.Addresses.{AddressCodec, canonical_btc_address}

-- What the library reads from a finished transaction. An address is `none` where it throws.
pub record RawInput : Type 0 where
  pub txid : Option (List ℕ)
  pub index : Option ℕ

pub record RawOutput : Type 0 where
  pub amount : Option ℕ
  pub address : Option Text

pub record RawTx : Type 0 where
  pub id : Text
  pub inputs : List RawInput
  pub outputs : List RawOutput

-- The library's parser, `none` where it throws, with its address codec.
pub record TxLibrary : Type 0 where
  pub codec : AddressCodec
  pub from_raw : List ℕ → Option RawTx

abbrev or_default {ℓ} : {A : Type ℓ} → Option A → A → A
or_default none d = d
or_default (some a) d = a

-- units.ts
unfoldable pub to_hex : List ℕ → Text
to_hex [] = []
to_hex (b ∷ bs) = pad_start 2 b'0' (to_string 16 b) ++ to_hex bs

coin_key : Text → ℕ → Text
coin_key txid vout = txid ++ b':' ∷ to_string 10 vout

pub approved_key : Outpoint → Text
approved_key i = coin_key i.txid i.vout

pub spent_key : RawInput → Text
spent_key i =
    coin_key (elim (i.txid) [ none ↦ codes "?" | some t ↦ to_hex t ]) (or_default i.index 0)

pub output_fact : RawOutput → OutputFact
output_fact o = record { address = o.address; value = or_default o.amount 0 }

unfoldable pub filter {ℓ} : {A : Type ℓ} → (A → Bool) → List A → List A
filter p [] = []
filter p (x ∷ xs) = let rest = filter p xs in if p x then x ∷ rest else rest

pub includes : Text → List Text → Bool
includes t [] = false
includes t (x ∷ xs) = if text_eq t x then true else includes t xs

-- `new Set(keys)`, in the order of first insertion.
pub distinct : List Text → List Text
distinct [] = []
distinct (x ∷ xs) = x ∷ filter (λ y. not (text_eq y x)) (distinct xs)

unfoldable pub sum_of : List OutputFact → ℕ
sum_of [] = 0
sum_of (o ∷ os) = o.value + sum_of os

unfoldable pub pays : Text → OutputFact → Bool
pays a o = elim (o.address) [ none ↦ false | some b ↦ text_eq b a ]

pub is_ours : Draft → OutputFact → Bool
is_ours d o = elim (o.address) [ none ↦ false | some a ↦ includes a d.change_addresses ]

pub is_stranger : Text → Draft → OutputFact → Bool
is_stranger recipient d o = not (pays recipient o) && not (is_ours d o)

-- One reason, or none.
abbrev pub said : Bool → Reason → List Reason
said b r = if b then r ∷ [] else []

-- The reasons that the checks of `verifySigned` push, in their order.
pub payment_reasons : Text → Draft → List OutputFact → List Reason
payment_reasons recipient d outputs =
    let paid = sum_of (filter (pays recipient) outputs) in
    if paid == 0
    then unpaid recipient ∷ []
    else if paid == d.amount
    then []
    else other_amount paid d.amount ∷ []

pub fee_reasons : ℕ → ℕ → Draft → ℤ → List Reason
fee_reasons unapproved missing d fee =
    if unapproved == 0 && missing == 0 && not (is_pos fee d.fee)
    then (if above fee d.fee then fee_above fee d.fee else fee_below fee d.fee) ∷ []
    else []

pub coins_unapproved : Draft → RawTx → List Text
coins_unapproved d tx =
    filter (λ k. not (includes k (map approved_key d.inputs))) (distinct (map spent_key tx.inputs))

pub coins_missing : Draft → RawTx → List Text
coins_missing d tx =
    filter (λ k. not (includes k (map spent_key tx.inputs))) (distinct (map approved_key d.inputs))

pub reasons_for : AddressCodec → Draft → RawTx → List Reason
reasons_for codec d tx =
    let outputs = map output_fact tx.outputs in
    let unapproved = length (coins_unapproved d tx) in
    let missing = length (coins_missing d tx) in
    let recipient = canonical_btc_address codec d.recipient in
    let others = length (filter (is_stranger recipient d) outputs) in
    said (ltb 0 unapproved) (unapproved_coins unapproved)
    ++ (said (ltb 0 missing) (missing_coins missing)
        ++ (payment_reasons recipient d outputs
            ++ (said (ltb 0 others) (strangers others)
                ++ fee_reasons unapproved missing d (difference d.input_total (sum_of outputs)))))

pub conclude : Draft → RawTx → List ℕ → List Reason → Verified
conclude d tx raw [] = accepted (record {
  txid = tx.id;
  raw = raw;
  outputs = map output_fact tx.outputs;
  fee = difference d.input_total (sum_of (map output_fact tx.outputs));
  network = none;
})
conclude d tx raw (r ∷ rs) =
    refused (record { reasons = r ∷ rs; outputs = map output_fact tx.outputs })

unfoldable pub verify_signed : TxLibrary → Draft → List ℕ → Verified
unfolding reasons_for conclude coins_unapproved coins_missing payment_reasons fee_reasons
    is_stranger is_ours pays sum_of distinct includes filter output_fact spent_key approved_key
    coin_key to_hex canonical_btc_address
verify_signed lib d raw = elim (d.asset) [
  | xmr ↦ refused (record { reasons = checked_elsewhere ∷ []; outputs = [] })
  | btc ↦ elim (lib.from_raw raw) [
    | none ↦ refused (record { reasons = unreadable ∷ []; outputs = [] })
    | some tx ↦ conclude d tx raw (reasons_for lib.codec d tx)
  ]
]
