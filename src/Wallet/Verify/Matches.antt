-- ===== src/Wallet/Verify/Matches.antt =====
-- build.ts: what an accepted transaction is, apart from the reasons of a refusal.
use labyrinth_vault.Prelude.{
  ℕ, ◌+◌, ◌≡◌, ◌≢◌, refl, ap, ◌∙◌, ◌++◌, Bool, false, List, [], ◌∷◌, map, none, some, Text, text_eq,
  text_eq_refl, eq_of_text_eq, ltb, All, All-weaken, ◌⊎◌, inl, inr, arith, Bool-cases, Option-cases,
}
use labyrinth_vault.Prelude.Integers.{ℤ, pos, difference, is_pos-difference}
use labyrinth_vault.Wallet.Model.{Asset, btc, xmr, Draft, OutputFact, Reason, Accepted, accepted}
use labyrinth_vault.Wallet.Addresses.{AddressCodec, canonical_btc_address}
use labyrinth_vault.Wallet.Verify.{
  RawTx, TxLibrary, output_fact, approved_key, spent_key, filter, sum_of, pays, is_ours,
  is_stranger, reasons_for, coins_unapproved, coins_missing, verify_signed, said, payment_reasons,
  fee_reasons, conclude,
}
use labyrinth_vault.Wallet.Verify.Coins.{
  IsIn, includes-IsIn, IsIn-includes, Within, filter-nil, filter-none, extra-Within, Within-extra,
}

payment-none :
    (r : Text) (d : Draft) (os : List OutputFact)
    → payment_reasons r d os ≡ []
    → (sum_of (filter (pays r) os) ≡ d.amount) × (d.amount ≢ 0)
unfolding payment_reasons
payment-none r d os h = ground arith

none-payment :
    (r : Text) (d : Draft) (os : List OutputFact)
    → sum_of (filter (pays r) os) ≡ d.amount
    → d.amount ≢ 0
    → payment_reasons r d os ≡ []
unfolding payment_reasons
none-payment r d os h n = ground arith

fee-none :
    (d : Draft) (total m n : ℕ)
    → m ≡ 0
    → n ≡ 0
    → fee_reasons m n d (difference d.input_total total) ≡ []
    → d.input_total ≡ d.fee + total
unfolding fee_reasons
fee-none d total m n z w h = is_pos-difference d.input_total total d.fee (ground arith)

none-fee :
    (d : Draft) (total : ℕ)
    → d.input_total ≡ d.fee + total
    → fee_reasons 0 0 d (difference d.input_total total) ≡ []
unfolding fee_reasons
none-fee d total h = ground arith

said-none : (b : Bool) (r : Reason) → said b r ≡ [] → b ≡ false
said-none b r h = ground arith

append-none {ℓ} : {A : Type ℓ} (xs ys : List A) → xs ++ ys ≡ [] → (xs ≡ []) × (ys ≡ [])
append-none [] ys h = (refl, h)
append-none (x ∷ xs) ys h = cc

-- The output goes to the recipient, or to an address that the draft records as its own change.
pub data IsKnown (recipient : Text) (d : Draft) (o : OutputFact) : Type 0 where
  to_recipient : o.address ≡ some recipient → IsKnown recipient d o
  to_change : (a : Text) → o.address ≡ some a → IsIn a d.change_addresses → IsKnown recipient d o

stranger-IsKnown :
    (r : Text) (d : Draft) (o : OutputFact) → is_stranger r d o ≡ false → IsKnown r d o
unfolding is_stranger pays is_ours
stranger-IsKnown r d o h = elim (Option-cases (o.address)) [
  | inl e ↦ absurd (ground arith)
  | inr (a, e) ↦ elim (Bool-cases (text_eq a r)) [
    | inl q ↦ to_recipient (e ∙ ap some (eq_of_text_eq a r q))
    | inr q ↦ to_change a e (includes-IsIn a d.change_addresses (ground arith))
  ]
]

IsKnown-stranger :
    (r : Text) (d : Draft) (o : OutputFact) → IsKnown r d o → is_stranger r d o ≡ false
unfolding is_stranger pays is_ours
IsKnown-stranger r d o (to_recipient e) = rw (e, text_eq_refl r) refl
IsKnown-stranger r d o (to_change a e i) = ground (arith, IsIn-includes i)

pub Asset-cases : (a : Asset) → (a ≡ btc) ⊎ (a ≡ xmr)
Asset-cases btc = inl refl
Asset-cases xmr = inr refl

-- The transaction spends the coins of the draft and no others, pays the recipient the amount and
-- nobody else but the draft's change, and leaves the fee of the draft.
pub record Matches (recipient : Text) (d : Draft) (tx : RawTx) : Type 0 where
  pub approved_only : Within (map spent_key tx.inputs) (map approved_key d.inputs)
  pub approved_all : Within (map approved_key d.inputs) (map spent_key tx.inputs)
  pub paid : sum_of (filter (pays recipient) (map output_fact tx.outputs)) ≡ d.amount
  pub some_paid : d.amount ≢ 0
  pub known : All (IsKnown recipient d) (map output_fact tx.outputs)
  pub balance : d.input_total ≡ d.fee + sum_of (map output_fact tx.outputs)

zero_of : (n : ℕ) → ltb 0 n ≡ false → n ≡ 0
zero_of n h = ground arith

reasons_none :
    (codec : AddressCodec) (d : Draft) (tx : RawTx)
    → reasons_for codec d tx ≡ []
    → Matches (canonical_btc_address codec d.recipient) d tx
unfolding reasons_for coins_unapproved coins_missing
reasons_none codec d tx h =
    let (a, h1) = append-none _ _ h in
    let (b, h2) = append-none _ _ h1 in
    let (p, h3) = append-none _ _ h2 in
    let (s, f) = append-none _ _ h3 in
    let no_more = zero_of _ (said-none _ _ a) in
    let no_less = zero_of _ (said-none _ _ b) in
    let pay = payment-none _ d _ p in
    record {
      approved_only = extra-Within _ _ no_more;
      approved_all = extra-Within _ _ no_less;
      paid = pay.0;
      some_paid = pay.1;
      known =
          All-weaken (λ o q. stranger-IsKnown _ d o q) _
            (filter-nil _ _ (zero_of _ (said-none _ _ s)));
      balance = fee-none d _ _ _ no_more no_less f;
    }

none_reasons :
    (codec : AddressCodec) (d : Draft) (tx : RawTx)
    → Matches (canonical_btc_address codec d.recipient) d tx
    → reasons_for codec d tx ≡ []
unfolding reasons_for coins_unapproved coins_missing
none_reasons codec d tx m =
    let no_more = Within-extra _ _ m.approved_only in
    let no_less = Within-extra _ _ m.approved_all in
    let no_others =
      filter-none (is_stranger (canonical_btc_address codec d.recipient) d)
        (map output_fact tx.outputs) (All-weaken (λ o q. IsKnown-stranger _ d o q) _ m.known) in
    rw (no_more, no_less, no_others, none-payment _ d _ m.paid m.some_paid, none-fee d _ m.balance)
      refl

abbrev pub verdict : RawTx → List ℕ → ℤ → Accepted
verdict tx raw fee = record {
  txid = tx.id;
  raw = raw;
  outputs = map output_fact tx.outputs;
  fee = fee;
  network = none;
}

conclude-accepted :
    (d : Draft) (tx : RawTx) (raw : List ℕ) (rs : List Reason) (a : Accepted)
    → conclude d tx raw rs ≡ accepted a
    → (rs ≡ [])
      × (a ≡ verdict tx raw (difference d.input_total (sum_of (map output_fact tx.outputs))))
unfolding conclude
conclude-accepted d tx raw [] a h = (refl, cc)
conclude-accepted d tx raw (r ∷ rs) a h = cc

difference_of : (i f o : ℕ) → i ≡ f + o → difference i o ≡ pos f
difference_of i f o h = ground arith

verify_signed-read :
    (lib : TxLibrary) (d : Draft) (raw : List ℕ) (tx : RawTx)
    → d.asset ≡ btc
    → lib.from_raw raw ≡ some tx
    → verify_signed lib d raw ≡ conclude d tx raw (reasons_for lib.codec d tx)
unfolding verify_signed
verify_signed-read lib d raw tx b e = ground arith

-- A returned transaction is accepted only if it parses, spends exactly the draft's coins, pays the
-- recipient exactly the draft's amount, which is not zero, and pays nobody else but the draft's own
-- change; the inputs' total is then what it pays out and the draft's fee, and the verdict carries
-- that transaction's id, outputs and fee, and the bytes that came back.
pub verify_signed-Matches :
    (lib : TxLibrary) (d : Draft) (raw : List ℕ) (a : Accepted)
    → verify_signed lib d raw ≡ accepted a
    → (tx : RawTx) × (lib.from_raw raw ≡ some tx)
      × Matches (canonical_btc_address lib.codec d.recipient) d tx
      × (a ≡ verdict tx raw (pos d.fee))
unfolding verify_signed
verify_signed-Matches lib d raw a h = elim (Asset-cases d.asset) [
  | inl b ↦ elim (Option-cases (lib.from_raw raw)) [
    | inl e ↦ absurd (ground arith)
    | inr (tx, e) ↦
        let (n, q) = conclude-accepted d tx raw (reasons_for lib.codec d tx) a (ground arith) in
        let m = reasons_none lib.codec d tx n in
        (tx, e, m, q ∙ ap (verdict tx raw) (difference_of _ _ _ m.balance))
  ]
  | inr x ↦ absurd (ground arith)
]

-- For a Bitcoin draft, every transaction that the parser reads and that does what the draft says
-- is accepted, whatever the order of its inputs and outputs.
pub verify_signed-accepts :
    (lib : TxLibrary) (d : Draft) (raw : List ℕ) (tx : RawTx)
    → d.asset ≡ btc
    → lib.from_raw raw ≡ some tx
    → Matches (canonical_btc_address lib.codec d.recipient) d tx
    → verify_signed lib d raw ≡ accepted (verdict tx raw (pos d.fee))
unfolding conclude
verify_signed-accepts lib d raw tx b e m =
    verify_signed-read lib d raw tx b e
    ∙ rw (none_reasons lib.codec d tx m, difference_of _ _ _ m.balance) refl
