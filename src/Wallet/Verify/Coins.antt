-- ===== src/Wallet/Verify/Coins.antt =====
-- build.ts: the sets of coins that the check compares, as inclusions of lists.
use labyrinth_vault.Prelude.{
  ◌≡◌, refl, sym, Bool, true, false, not, List, [], ◌∷◌, Text, text_eq, text_eq_refl, eq_of_text_eq,
  length, All, All-weaken, inl, inr, arith, Bool-cases,
}
use mathlib.Core.Path.{subst}
use labyrinth_vault.Wallet.Verify.{filter, includes, distinct}

-- `t` is one of the texts.
pub data IsIn (t : Text) : List Text → Type 0 where
  here : (ts : List Text) → IsIn t (t ∷ ts)
  there : (u : Text) {ts : List Text} → IsIn t ts → IsIn t (u ∷ ts)

pub includes-IsIn : (t : Text) (ts : List Text) → includes t ts ≡ true → IsIn t ts
unfolding includes
includes-IsIn t [] h = cc
includes-IsIn t (x ∷ xs) h = elim (Bool-cases (text_eq t x)) [
  | inl e ↦ rw (sym (eq_of_text_eq t x e)) (here xs)
  | inr e ↦ there x (includes-IsIn t xs (ground arith))
]

pub IsIn-includes : {t : Text} {ts : List Text} → IsIn t ts → includes t ts ≡ true
unfolding includes
IsIn-includes {t} (here ts) = rw (text_eq_refl t) refl
IsIn-includes (there u i) = ground (arith, IsIn-includes i)

-- Every text of `ts` is one of `us`.
abbrev pub Within : List Text → List Text → Type 0
Within ts us = All (λ t. IsIn t us) ts

pub filter-nil {ℓ} :
    {A : Type ℓ} (p : A → Bool) (xs : List A) → length (filter p xs) ≡ 0 → All (λ x. p x ≡ false) xs
unfolding filter
filter-nil p [] h = tt
filter-nil p (x ∷ xs) h = elim (Bool-cases (p x)) [
  | inl e ↦ absurd (ground arith)
  | inr e ↦ (e, filter-nil p xs (ground arith))
]

pub filter-none {ℓ} :
    {A : Type ℓ} (p : A → Bool) (xs : List A) → All (λ x. p x ≡ false) xs → length (filter p xs) ≡ 0
unfolding filter
filter-none p [] h = refl
filter-none p (x ∷ xs) (h, hs) = ground (arith, filter-none p xs hs)

filter-keep {ℓ} :
    {A : Type ℓ} (p : A → Bool) (x : A) (xs : List A)
    → p x ≡ true
    → filter p (x ∷ xs) ≡ x ∷ filter p xs
unfolding filter
filter-keep p x xs h = rw h refl

filter-drop {ℓ} :
    {A : Type ℓ} (p : A → Bool) (x : A) (xs : List A)
    → p x ≡ false
    → filter p (x ∷ xs) ≡ filter p xs
unfolding filter
filter-drop p x xs h = rw h refl

-- Removing the copies of `x` takes nothing else away.
others-All :
    (P : Text → Type 0) (x : Text) (ys : List Text)
    → P x
    → All P (filter (λ y. not (text_eq y x)) ys)
    → All P ys
others-All P x [] p h = tt
others-All P x (y ∷ ys) p h = elim (Bool-cases (text_eq y x)) [
  | inl e ↦ (
    rw (eq_of_text_eq y x e) p,
    others-All P x ys p (subst (All P) (filter-drop _ y ys (rw e refl)) h),
  )
  | inr e ↦
      let (q, r) = subst (All P) (filter-keep _ y ys (rw e refl)) h in (q, others-All P x ys p r)
]

filter-All {ℓ κ} :
    {A : Type ℓ} (P : A → Type κ) (p : A → Bool) (xs : List A) → All P xs → All P (filter p xs)
unfolding filter
filter-All P p [] h = tt
filter-All P p (x ∷ xs) (h, hs) =
    let rest = filter-All P p xs hs in
    elim (Bool-cases (p x)) [ inl e ↦ rw e (h, rest) | inr e ↦ rw e rest ]

distinct-All : (P : Text → Type 0) (xs : List Text) → All P (distinct xs) → All P xs
unfolding distinct
distinct-All P [] h = tt
distinct-All P (x ∷ xs) (h, hs) = (h, distinct-All P xs (others-All P x (distinct xs) h hs))

All-distinct : (P : Text → Type 0) (xs : List Text) → All P xs → All P (distinct xs)
unfolding distinct
All-distinct P [] h = tt
All-distinct P (x ∷ xs) (h, hs) = (h, filter-All P _ (distinct xs) (All-distinct P xs hs))

-- No text of `ts` that is not one of `us`.
abbrev pub extra : List Text → List Text → List Text
extra us ts = filter (λ k. not (includes k us)) (distinct ts)

pub extra-Within : (ts us : List Text) → length (extra us ts) ≡ 0 → Within ts us
extra-Within ts us h =
    All-weaken (λ k q. includes-IsIn k us (ground (arith, q))) ts
      (distinct-All (λ k. not (includes k us) ≡ false) ts
        (filter-nil (λ k. not (includes k us)) (distinct ts) h))

pub Within-extra : (ts us : List Text) → Within ts us → length (extra us ts) ≡ 0
Within-extra ts us h =
    filter-none (λ k. not (includes k us)) (distinct ts)
      (All-distinct (λ k. not (includes k us) ≡ false) ts
        (All-weaken {Q = λ k. not (includes k us) ≡ false} (λ k q. ground (arith, IsIn-includes q))
          ts h))
