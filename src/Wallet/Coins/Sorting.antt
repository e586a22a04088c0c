-- ===== src/Wallet/Coins/Sorting.antt =====
-- wallet/src/core/build.ts: the sort by value.
use labyrinth_vault.Prelude.{
  ℕ, ◌+◌, ◌≤◌, ◌≡◌, refl, sym, ap, ◌∙◌, ◌++◌, Bool, true, List, [], ◌∷◌, some, if◌then◌else◌,
  length, All, ◌⊎◌, inl, inr, arith, Bool-cases, Option-cases,
}
use mathlib.Core.Path.{subst}
use labyrinth_vault.Wallet.Verify.{filter}
use labyrinth_vault.Wallet.Coins.{least, Utxo, insert, insert_all, by_value, total_value}

-- How many of the coins pass a test.
unfoldable pub count : (Utxo → Bool) → List Utxo → ℕ
count p [] = 0
count p (u ∷ us) = (if p u then 1 else 0) + count p us

pub count-append :
    (p : Utxo → Bool) (us vs : List Utxo) → count p (us ++ vs) ≡ count p us + count p vs
unfolding count
count-append p [] vs = omega arith
count-append p (u ∷ us) vs = omega (arith, count-append p us vs)

insert-count :
    (p : Utxo → Bool) (u : Utxo) (us : List Utxo) → count p (insert u us) ≡ count p (u ∷ us)
unfolding insert count
insert-count p u [] = refl
insert-count p u (v ∷ vs) = ground (arith, insert-count p u vs)

insert_all-count :
    (p : Utxo → Bool) (s us : List Utxo) → count p (insert_all s us) ≡ count p s + count p us
unfolding insert_all count
insert_all-count p s [] = omega arith
insert_all-count p s (u ∷ us) =
    omega (arith, insert_all-count p (insert u s) us, insert-count p u s)

-- The sorted coins are the given ones.
pub by_value-count : (p : Utxo → Bool) (us : List Utxo) → count p (by_value us) ≡ count p us
unfolding by_value count
by_value-count p us = omega (arith, insert_all-count p [] us)

insert-total :
    (u : Utxo) (us : List Utxo)
    → (total_value (insert u us) ≡ u.value + total_value us)
      × (length (insert u us) ≡ 1 + length us)
unfolding insert total_value
insert-total u [] = (refl, refl)
insert-total u (v ∷ vs) = ground (arith, insert-total u vs)

insert_all-total :
    (s us : List Utxo)
    → (total_value (insert_all s us) ≡ total_value s + total_value us)
      × (length (insert_all s us) ≡ length s + length us)
unfolding insert_all total_value
insert_all-total s [] = (omega arith, omega arith)
insert_all-total s (u ∷ us) =
    let a = insert_all-total (insert u s) us in
    let b = insert-total u s in (omega (arith, a.0, b.0), omega (arith, a.1, b.1))

pub by_value-total :
    (us : List Utxo)
    → (total_value (by_value us) ≡ total_value us) × (length (by_value us) ≡ length us)
unfolding by_value total_value
by_value-total us = let a = insert_all-total [] us in (omega (arith, a.0), omega (arith, a.1))

filter-count : (p q : Utxo → Bool) (us : List Utxo) → count p (filter q us) ≤ count p us
unfolding filter count
filter-count p q [] = omega arith
filter-count p q (u ∷ us) = ground (arith, filter-count p q us)

pub filter-passes : (q : Utxo → Bool) (us : List Utxo) → All (λ u. q u ≡ true) (filter q us)
unfolding filter
filter-passes q [] = tt
filter-passes q (u ∷ us) = elim (Bool-cases (q u)) [
  | inl e ↦ rw e (e, filter-passes q us)
  | inr e ↦ rw e (filter-passes q us)
]

least-count :
    (p : Utxo → Bool) (us : List Utxo) (u : Utxo)
    → least us ≡ some u
    → (if p u then 1 else 0) ≤ count p us
unfolding least count
least-count p [] u h = cc
least-count p (v ∷ vs) u h = elim (Option-cases (least vs)) [
  | inl e ↦ let q : v ≡ u = ground arith in rw (sym q) (omega arith)
  | inr (w, e) ↦
      let q : (v ≡ u) ⊎ (w ≡ u) = ground arith in
      elim q [
        | inl q ↦ rw (sym q) (omega arith)
        | inr q ↦ omega (arith, least-count p vs u (e ∙ ap some q))
      ]
]

pub least-All {ℓ} :
    (P : Utxo → Type ℓ) (us : List Utxo) (u : Utxo) → least us ≡ some u → All P us → P u
unfolding least
least-All P [] u h a = cc
least-All P (v ∷ vs) u h (a, more) = elim (Option-cases (least vs)) [
  | inl e ↦ let q : v ≡ u = ground arith in subst P q a
  | inr (w, e) ↦
      let q : (v ≡ u) ⊎ (w ≡ u) = ground arith in
      elim q [ inl q ↦ subst P q a | inr q ↦ least-All P vs u (e ∙ ap some q) more ]
]

pub least-filter :
    (p q : Utxo → Bool) (us : List Utxo) (u : Utxo)
    → least (filter q us) ≡ some u
    → count p (u ∷ []) ≤ count p us
unfolding count
least-filter p q us u h = omega (arith, least-count p (filter q us) u h, filter-count p q us)
