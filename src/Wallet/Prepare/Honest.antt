-- ===== src/Wallet/Prepare/Honest.antt =====
-- build.ts: a draft, and the transaction that the vault makes of it by signing.
use labyrinth_vault.Prelude.{
  ℕ, ◌+◌, ◌≡◌, ◌≢◌, refl, sym, ap, ◌∙◌, arith, List, [], ◌∷◌, map, Option, none, some, Text, ltb,
  inl, inr, Option-cases, Bool-cases, All, text_eq, text_eq_refl, eq_of_text_eq,
}
use labyrinth_vault.Wallet.Model.{btc, Draft, Rate, OutputFact, accepted}
use labyrinth_vault.Wallet.Addresses.{AddressCodec, canonical_btc_address}
use labyrinth_vault.Wallet.Coins.{Utxo, Selection, select_coins, total_value}
use labyrinth_vault.Wallet.Coins.Choice.{select_coins-IsBalanced}
use labyrinth_vault.Wallet.Verify.{
  RawTx, filter, pays, sum_of, spent_key, approved_key, output_fact, verify_signed,
}
use labyrinth_vault.Wallet.Verify.Coins.{Within, IsIn, here, there}
use labyrinth_vault.Wallet.Verify.Matches.{
  Asset-cases, IsKnown, to_recipient, to_change, verdict, verify_signed-accepts,
}
use labyrinth_vault.Prelude.Integers.{pos}
use labyrinth_vault.Wallet.Prepare.{
  Built, built, refused, escaped, draft_built, BuildLibrary, PrepareParams, drafted, prepare,
  build_draft, draft_of, outputs_of, change_addresses_of,
}

-- What a draft that was made says.
record Drafted (lib : BuildLibrary) (p : PrepareParams) (d : Draft) (s : Selection) : Type 0 where
  bitcoin : p.asset ≡ btc
  selected :
      s
      ≡ select_coins lib.codec p.utxos p.amount p.rate (canonical_btc_address lib.codec p.recipient)
  chosen : s.problem ≡ none
  address : Text
  unsigned : List ℕ
  made : d ≡ draft_of lib p (canonical_btc_address lib.codec p.recipient) s address unsigned

draft_built-drafted :
    (lib : BuildLibrary) (p : PrepareParams) (r : Text) (s t : Selection) (address : Text)
    (b : Built) (d : Draft)
    → draft_built lib p r s address b ≡ drafted d t
    → (unsigned : List ℕ) × (d ≡ draft_of lib p r s address unsigned) × (t ≡ s)
unfolding draft_built
draft_built-drafted lib p r s t address (built unsigned) d e =
    (unsigned, ground arith, ground arith)
draft_built-drafted lib p r s t address (refused message) d e = cc
draft_built-drafted lib p r s t address escaped d e = cc

build-Drafted :
    (lib : BuildLibrary) (p : PrepareParams) (r : Text) (s t : Selection) (d : Draft)
    → build_draft lib p r s ≡ drafted d t
    → (s.problem ≡ none)
      × (t ≡ s)
      × (address : Text) × (unsigned : List ℕ) × (d ≡ draft_of lib p r s address unsigned)
unfolding build_draft
build-Drafted lib p r s t d h = elim (Option-cases (s.problem)) [
  | inr (x, e) ↦ absurd (ground arith)
  | inl e ↦ elim (Option-cases (lib.open_watch p.zpub)) [
    | inl o ↦ absurd (ground arith)
    | inr (at, o) ↦
        let answer = lib.to_psbt s.chosen (outputs_of r p.amount s (at p.change_index)) in
        let k : draft_built lib p r s (at p.change_index) answer ≡ drafted d t = ground arith in
        let (unsigned, made, same) =
          draft_built-drafted lib p r s t (at p.change_index) answer d k in
        (e, same, at p.change_index, unsigned, made)
  ]
]

prepare-Drafted :
    (lib : BuildLibrary) (p : PrepareParams) (d : Draft) (s : Selection)
    → prepare lib p ≡ drafted d s
    → Drafted lib p d s
unfolding prepare
prepare-Drafted lib p d s h = elim (Asset-cases p.asset) [
  | inr x ↦ absurd (ground arith)
  | inl b ↦
      let r = canonical_btc_address lib.codec p.recipient in
      let sel = select_coins lib.codec p.utxos p.amount p.rate r in
      let k : build_draft lib p r sel ≡ drafted d s = ground arith in
      let (e, q, a, u, m) = build-Drafted lib p r sel s d k in
      record {
        bitcoin = b;
        selected = q;
        chosen = ap (λ t. t.problem) q ∙ e;
        address = a;
        unsigned = u;
        made = m ∙ ap (λ t. draft_of lib p r t a u) (sym q);
      }
]

select_coins-amount :
    (codec : AddressCodec) (us : List Utxo) (amount : ℕ) (rate : Rate) (r : Text)
    → (select_coins codec us amount rate r).problem ≡ none
    → amount ≢ 0
unfolding select_coins
select_coins-amount codec us amount rate r h = λ e. ground arith

-- The outputs of a draft: its amount to its recipient, and the change to its own address, if any.
abbrev pub expected_outputs : Draft → Selection → List OutputFact
expected_outputs d s =
    record { address = some d.recipient; value = d.amount }
    ∷ map (λ a. record { address = some a; value = s.change }) d.change_addresses

change_fact : ℕ → Text → OutputFact
change_fact n a = record { address = some a; value = n }

unpaid :
    (r : Text) (n : ℕ) (as' : List Text)
    → All (λ a. a ≢ r) as'
    → sum_of (filter (pays r) (map (change_fact n) as')) ≡ 0
unfolding sum_of filter pays change_fact
unpaid r n [] h = refl
unpaid r n (a ∷ more) (h, hs) = elim (Bool-cases (text_eq a r)) [
  | inl e ↦ absurd (h (eq_of_text_eq a r e))
  | inr e ↦ rw e (unpaid r n more hs)
]

fields :
    (lib : BuildLibrary) (p : PrepareParams) (d : Draft) (r a : Text) (s : Selection) (u : List ℕ)
    → d ≡ draft_of lib p r s a u
    → (d.asset ≡ p.asset)
      × (d.recipient ≡ r)
      × (d.amount ≡ p.amount)
      × (d.fee ≡ s.fee)
      × (d.input_total ≡ total_value s.chosen)
      × (d.change_addresses ≡ change_addresses_of s a)
unfolding draft_of
fields lib p d r a s u e = rw e (refl, refl, refl, refl, refl, refl)

change-sum :
    (s : Selection) (a : Text)
    → sum_of (map (change_fact s.change) (change_addresses_of s a)) ≡ s.change
unfolding change_addresses_of sum_of change_fact
change-sum s a = elim (Bool-cases (ltb 0 s.change)) [
  | inl e ↦ rw e (omega arith)
  | inr e ↦ rw e (ground arith)
]

changes-IsKnown :
    (r : Text) (d : Draft) (n : ℕ) (ts : List Text)
    → ((a : Text) → IsIn a ts → IsIn a d.change_addresses)
    → All (IsKnown r d) (map (change_fact n) ts)
unfolding change_fact
changes-IsKnown r d n [] f = tt
changes-IsKnown r d n (a ∷ ts) f =
    (to_change a refl (f a (here ts)), changes-IsKnown r d n ts (λ b i. f b (there a i)))

outputs-IsKnown : (d : Draft) (s : Selection) → All (IsKnown d.recipient d) (expected_outputs d s)
unfolding change_fact
outputs-IsKnown d s =
    (to_recipient refl, changes-IsKnown d.recipient d s.change d.change_addresses (λ a i. i))

outputs-paid :
    (d : Draft) (s : Selection)
    → All (λ a. a ≢ d.recipient) d.change_addresses
    → sum_of (filter (pays d.recipient) (expected_outputs d s)) ≡ d.amount
unfolding sum_of filter pays change_fact
outputs-paid d s h =
    rw (text_eq_refl d.recipient) (omega (arith, unpaid d.recipient s.change d.change_addresses h))

outputs-total :
    (d : Draft) (s : Selection) (a : Text)
    → d.change_addresses ≡ change_addresses_of s a
    → sum_of (expected_outputs d s) ≡ d.amount + s.change
unfolding sum_of change_fact
outputs-total d s a e =
    omega (arith, ap (λ ts. sum_of (map (change_fact s.change) ts)) e, change-sum s a)

-- The vault signs a draft as it is: a transaction that spends the draft's coins, in any order, and
-- has the draft's outputs. If the change address is not the recipient, and the codec spells the
-- recipient as it spelled it for the draft, then the check accepts that transaction, with the
-- draft's fee.
pub verify_signed-prepare :
    (lib : BuildLibrary) (from_raw : List ℕ → Option RawTx) (p : PrepareParams) (d : Draft)
    (s : Selection) (raw : List ℕ) (tx : RawTx)
    → prepare lib p ≡ drafted d s
    → canonical_btc_address lib.codec d.recipient ≡ d.recipient
    → All (λ a. a ≢ d.recipient) d.change_addresses
    → from_raw raw ≡ some tx
    → Within (map spent_key tx.inputs) (map approved_key d.inputs)
    → Within (map approved_key d.inputs) (map spent_key tx.inputs)
    → map output_fact tx.outputs ≡ expected_outputs d s
    → verify_signed (record { codec = lib.codec; from_raw = from_raw }) d raw
      ≡ accepted (verdict tx raw (pos d.fee))
verify_signed-prepare lib from_raw p d s raw tx h canon apart read only all' outs =
    let made = prepare-Drafted lib p d s h in
    let f = fields lib p d _ made.address s made.unsigned made.made in
    let r = canonical_btc_address lib.codec p.recipient in
    let sel = select_coins lib.codec p.utxos p.amount p.rate r in
    let fine : sel.problem ≡ none = ap (λ t. t.problem) (sym made.selected) ∙ made.chosen in
    let sums : total_value s.chosen ≡ p.amount + s.fee + s.change =
      rw made.selected
        ((select_coins-IsBalanced lib.codec p.utxos p.amount p.rate r fine).balance) in
    let total = outputs-total d s made.address f.5 in
    verify_signed-accepts (record { codec = lib.codec; from_raw = from_raw }) d raw tx
      (f.0 ∙ made.bitcoin) read
      (rw (canon) (record {
        approved_only = only;
        approved_all = all';
        paid = rw outs (outputs-paid d s apart);
        some_paid = λ e. select_coins-amount lib.codec p.utxos p.amount p.rate r fine (sym f.2 ∙ e);
        known = rw outs (outputs-IsKnown d s);
        balance = rw outs (omega (arith, total, sums, f.2, f.3, f.4));
      }))
