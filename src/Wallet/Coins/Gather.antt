-- ===== src/Wallet/Coins/Gather.antt =====
-- build.ts: the loop of `selectCoins` that takes coins until they cover the payment.
use labyrinth_vault.Prelude.{
  ℕ, ◌+◌, ◌≤◌, ◌≡◌, refl, ◌++◌, Bool, true, List, [], ◌∷◌, none, length, length-append, arith,
}
use mathlib.Core.Path.{subst}
use labyrinth_vault.Wallet.Model.{Rate}
use labyrinth_vault.Wallet.Coins.{Utxo, total_value, fee_for, gather, lean, is_exact}
use labyrinth_vault.Wallet.Coins.Sorting.{count, count-append}
use labyrinth_vault.Wallet.Coins.Balance.{gather_cases, gather_nothing}

pub exact-enough : (amount f : ℕ) (u : Utxo) → is_exact amount f u ≡ true → amount + f ≤ u.value
unfolding is_exact
exact-enough amount f u h = ground arith

count_snoc :
    (p : Utxo → Bool) (chosen : List Utxo) (u : Utxo) (us : List Utxo)
    → count p (chosen ++ u ∷ []) + count p us ≡ count p chosen + count p (u ∷ us)
unfolding count
count_snoc p chosen u us = omega (arith, count-append p chosen (u ∷ []))

pub gather-count :
    (p : Utxo → Bool) (paying amount : ℕ) (rate : Rate) (chosen : List Utxo) (gathered : ℕ)
    (us : List Utxo)
    → count p (gather paying amount rate chosen gathered us).chosen ≤ count p chosen + count p us
unfolding count lean
gather-count p paying amount rate chosen gathered [] =
    rw ((gather_nothing paying amount rate chosen gathered).1) (omega arith)
gather-count p paying amount rate chosen gathered (u ∷ us) =
    let c = count_snoc p chosen u us in
    gather_cases (λ s. count p s.chosen ≤ count p chosen + count p (u ∷ us)) paying amount rate
      chosen gathered u us
      (
        λ e. omega (arith, c),
        λ e. omega (arith, c),
        λ e. omega (
          arith,
          c,
          gather-count p paying amount rate (chosen ++ u ∷ []) (gathered + u.value) us,
        ),
      )

pub gather-suffices :
    (paying amount : ℕ) (rate : Rate) (chosen : List Utxo) (gathered n : ℕ) (u : Utxo)
    (us : List Utxo)
    → n ≡ length chosen + length (u ∷ us)
    → amount + fee_for n (paying ∷ []) rate ≤ gathered + total_value (u ∷ us)
    → (gather paying amount rate chosen gathered (u ∷ us)).problem ≡ none
unfolding lean total_value
gather-suffices paying amount rate chosen gathered n u [] q h =
    let all : n ≡ length (chosen ++ u ∷ []) = omega (arith, q, length-append chosen (u ∷ [])) in
    gather_cases (λ s. s.problem ≡ none) paying amount rate chosen gathered u []
      (
        λ e. refl,
        λ e. refl,
        λ e. absurd (
            omega (
              arith,
              e,
              subst (λ n. amount + fee_for n (paying ∷ []) rate ≤ gathered + total_value (u ∷ []))
                  all h,
            )),
      )
gather-suffices paying amount rate chosen gathered n u (v ∷ vs) q h =
    gather_cases (λ s. s.problem ≡ none) paying amount rate chosen gathered u (v ∷ vs)
      (
        λ e. refl,
        λ e. refl,
        λ e.
            gather-suffices paying amount rate (chosen ++ u ∷ []) (gathered + u.value) n v vs
              (omega (arith, q, length-append chosen (u ∷ []))) (omega (arith, h)),
      )
