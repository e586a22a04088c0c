-- ===== src/Wallet/Coins/Choice.antt =====
-- build.ts: which selections `selectCoins` makes, and which payments it refuses.
use labyrinth_vault.Prelude.{
  ℕ, ◌+◌, ◌≤◌, ◌<◌, ◌≡◌, ◌≢◌, refl, sym, ap, ◌∙◌, Bool, true, List, [], ◌∷◌, Option, none, some,
  ◌==◌, length, inl, inr, arith, Bool-cases, Option-cases, Text, ==_iff,
}
use mathlib.Core.Path.{subst}
use labyrinth_vault.Wallet.Addresses.{AddressCodec}
use labyrinth_vault.Wallet.Verify.{filter}
use labyrinth_vault.Wallet.Model.{Rate}
use labyrinth_vault.Wallet.Coins.{
  Utxo, Selection, total_value, fee_for, gather, lean, choose, is_exact, least, by_value,
  select_coins, output_vbytes_for, refusal, no_amount, nothing_to_spend, max_sendable,
  paying_vbytes,
}
use labyrinth_vault.Wallet.Coins.Sorting.{
  count, filter-passes, least-All, least-filter, by_value-count, by_value-total,
}
use labyrinth_vault.Wallet.Coins.Balance.{
  IsBalanced, gather-IsBalanced, lean-IsBalanced, fee_for_wider,
}
use labyrinth_vault.Wallet.Coins.Gather.{exact-enough, gather-count, gather-suffices}

-- The coin of the window, where there is one.
window : ℕ → ℕ → Rate → List Utxo → Option Utxo
window paying amount rate us = least (filter (is_exact amount (fee_for 1 (paying ∷ []) rate)) us)

choose_many :
    (paying amount : ℕ) (rate : Rate) (us : List Utxo)
    → window paying amount rate us ≡ none
    → choose paying amount rate us ≡ gather paying amount rate [] 0 us
unfolding choose window
choose_many paying amount rate us e = rw (e, choose) refl

choose_one :
    (paying amount : ℕ) (rate : Rate) (us : List Utxo) (u : Utxo)
    → window paying amount rate us ≡ some u
    → choose paying amount rate us ≡ lean (u ∷ []) u.value amount (fee_for 1 (paying ∷ []) rate)
unfolding choose window
choose_one paying amount rate us u e = rw (e, choose) refl

choose-IsBalanced :
    (paying amount : ℕ) (rate : Rate) (us : List Utxo)
    → (choose paying amount rate us).problem ≡ none
    → IsBalanced paying amount rate (choose paying amount rate us)
unfolding window total_value
choose-IsBalanced paying amount rate us h = elim (Option-cases (window paying amount rate us)) [
  | inl e ↦
      let q = choose_many paying amount rate us e in
      rw q (gather-IsBalanced paying amount rate [] 0 us refl (ap (λ s. s.problem) (sym q) ∙ h))
  | inr (u, e) ↦ rw (choose_one paying amount rate us u e) (
      lean-IsBalanced paying amount rate (u ∷ []) u.value _ (omega arith) refl (
        exact-enough amount _ u (
          least-All (λ v. is_exact amount (fee_for 1 (paying ∷ []) rate) v ≡ true) _ u e
            (filter-passes _ us))))
]

choose-count :
    (p : Utxo → Bool) (paying amount : ℕ) (rate : Rate) (us : List Utxo)
    → count p (choose paying amount rate us).chosen ≤ count p us
unfolding window lean count
choose-count p paying amount rate us = elim (Option-cases (window paying amount rate us)) [
  | inl e ↦
      rw (choose_many paying amount rate us e)
        (omega (arith, gather-count p paying amount rate [] 0 us))
  | inr (u, e) ↦ rw (choose_one paying amount rate us u e) (least-filter p _ us u e)
]

choose-suffices :
    (paying amount : ℕ) (rate : Rate) (u : Utxo) (us : List Utxo)
    → amount + fee_for (length (u ∷ us)) (paying ∷ []) rate ≤ total_value (u ∷ us)
    → (choose paying amount rate (u ∷ us)).problem ≡ none
unfolding lean
choose-suffices paying amount rate u us h =
    elim (Option-cases (window paying amount rate (u ∷ us))) [
      | inl e ↦ rw (choose_many paying amount rate (u ∷ us) e) (
          gather-suffices paying amount rate [] 0 (length (u ∷ us)) u us (omega arith)
            (omega (arith, h)))
      | inr (v, e) ↦ rw (choose_one paying amount rate (u ∷ us) v e) refl
    ]

-- The three ways of `selectCoins`.
select_cases :
    (P : Selection → Type 0) (codec : AddressCodec) (utxos : List Utxo) (amount : ℕ) (rate : Rate)
    (recipient : Text)
    → (amount ≡ 0 → P (refusal no_amount))
      × (total_value utxos ≡ 0 → P (refusal nothing_to_spend))
      × (amount ≢ 0
          → total_value utxos ≢ 0
          → P (choose (output_vbytes_for codec recipient) amount rate (by_value utxos)))
    → P (select_coins codec utxos amount rate recipient)
unfolding select_coins
select_cases P codec utxos amount rate recipient (x, y, z) = elim (Bool-cases (amount == 0)) [
  | inl e ↦ rw (e, select_coins) (x ((==_iff _ _).0 e))
  | inr e ↦ elim (Bool-cases (total_value (by_value utxos) == 0)) [
    | inl q ↦ rw (e, q, select_coins) (y (sym (by_value-total utxos).0 ∙ (==_iff _ _).0 q))
    | inr q ↦
        rw (e, q, select_coins) (z (λ w. ground arith) (λ w. ground (arith, by_value-total utxos)))
  ]
]

-- A selection that is not refused adds up: its coins are worth the amount, the fee and the change;
-- the fee is at least what the size without a change output costs; and either there is no change,
-- or it is at least 1000 and the fee is exactly what the size with the change output costs.
pub select_coins-IsBalanced :
    (codec : AddressCodec) (utxos : List Utxo) (amount : ℕ) (rate : Rate) (recipient : Text)
    → (select_coins codec utxos amount rate recipient).problem ≡ none
    → IsBalanced
        (output_vbytes_for codec recipient)
        amount
        rate
        (select_coins codec utxos amount rate recipient)
select_coins-IsBalanced codec utxos amount rate recipient =
    select_cases
      (λ s. s.problem ≡ none → IsBalanced (output_vbytes_for codec recipient) amount rate s) codec
      utxos amount rate recipient
      (
        λ _ e. absurd (cc),
        λ _ e. absurd (cc),
        λ _ _ e. choose-IsBalanced _ amount rate (by_value utxos) e,
      )

-- No coin is spent that the wallet does not list, and none more often than it is listed: whatever
-- a test on coins is, no more coins pass it among the chosen ones than among the given ones.
pub select_coins-count :
    (codec : AddressCodec) (utxos : List Utxo) (amount : ℕ) (rate : Rate) (recipient : Text)
    (p : Utxo → Bool)
    → count p (select_coins codec utxos amount rate recipient).chosen ≤ count p utxos
unfolding count
select_coins-count codec utxos amount rate recipient p =
    select_cases (λ s. count p s.chosen ≤ count p utxos) codec utxos amount rate recipient
      (
        λ _. omega arith,
        λ _. omega arith,
        λ _ _. omega (
          arith,
          choose-count p (output_vbytes_for codec recipient) amount rate (by_value utxos),
          by_value-count p utxos,
        ),
      )

sorted-suffices :
    (paying amount n : ℕ) (rate : Rate) (us : List Utxo)
    → 0 < total_value us
    → n ≡ length us
    → amount + fee_for n (paying ∷ []) rate ≤ total_value us
    → (choose paying amount rate us).problem ≡ none
unfolding total_value
sorted-suffices paying amount n rate [] e q h = absurd (omega (arith, e))
sorted-suffices paying amount n rate (u ∷ us) e q h =
    choose-suffices paying amount rate u us
      (subst (λ n. amount + fee_for n (paying ∷ []) rate ≤ total_value (u ∷ us)) q h)

-- A payment is not refused when all the coins together cover its amount, which is not zero, and
-- the fee of a transaction that spends all of them without change.
pub select_coins-suffices :
    (codec : AddressCodec) (utxos : List Utxo) (amount : ℕ) (rate : Rate) (recipient : Text)
    → 0 < amount
    → amount + fee_for (length utxos) (output_vbytes_for codec recipient ∷ []) rate
      ≤ total_value utxos
    → (select_coins codec utxos amount rate recipient).problem ≡ none
select_coins-suffices codec utxos amount rate recipient h k =
    let b = by_value-total utxos in
    select_cases (λ s. s.problem ≡ none) codec utxos amount rate recipient
      (
        λ e. absurd (omega (arith, e, h)),
        λ e. absurd (omega (arith, e, h, k)),
        λ _ n.
            sorted-suffices _ amount (length utxos) rate (by_value utxos) (omega (arith, b.0, h, k))
              (sym b.1) (omega (arith, b.0, k)),
      )

max_sendable-fee :
    (codec : AddressCodec) (utxos : List Utxo) (rate : Rate) (entered : Option Text)
    → 0 < max_sendable codec utxos rate entered
    → max_sendable codec utxos rate entered
        + fee_for (length utxos) (paying_vbytes codec entered ∷ []) rate
      ≡ total_value utxos
unfolding max_sendable
max_sendable-fee codec utxos rate entered h = ground arith

-- The amount that SEND MAX computes is one that the selection accepts, if it is not zero, for every
-- recipient whose output is no wider than the one that was budgeted.
pub select_coins-max_sendable :
    (codec : AddressCodec) (utxos : List Utxo) (rate : Rate) (entered : Option Text)
    (recipient : Text)
    → output_vbytes_for codec recipient ≤ paying_vbytes codec entered
    → 0 < max_sendable codec utxos rate entered
    → (select_coins codec utxos (max_sendable codec utxos rate entered) rate recipient).problem
      ≡ none
select_coins-max_sendable codec utxos rate entered recipient w h =
    select_coins-suffices codec utxos _ rate recipient h (
      omega
        (arith, max_sendable-fee codec utxos rate entered h, fee_for_wider (length utxos) rate w))
