-- ===== src/Airgap/Base43/Digits.antt =====
-- src/airgap/base43.ts: a number and its digits.
use labyrinth_vault.Prelude.{
  ℕ, zero, suc, ◌+◌, ◌*◌, ◌/◌, ◌%◌, ◌≤◌, ◌<◌, ◌≡◌, refl, sym, ◌∙◌, ap, arith, List, [], ◌∷◌, ◌==◌,
  All, Bool-cases, inl, inr,
}
use labyrinth_vault.Airgap.Base43.{number_from, digits_from}

-- What the proofs use of a base.
pub record IsBase (base : ℕ) : Type 0 where
  pub quotient : (n d : ℕ) → d < base → (n * base + d) / base ≡ n
  pub remainder : (n d : ℕ) → d < base → (n * base + d) % base ≡ d
  pub whole : (m : ℕ) → m / base * base + m % base ≡ m
  pub smaller : (m : ℕ) → 0 < m → m / base < m
  pub positive : (n d : ℕ) → 0 < n → 0 < n * base + d
  pub low : (m : ℕ) → m % base < base

-- The first digit is not zero.
abbrev pub IsTrimmed : List ℕ → Type 0
IsTrimmed [] = Unit
IsTrimmed (d ∷ ds) = 0 < d

module _ (base : ℕ) (b : IsBase base) where
  digits_from-zero : (fuel : ℕ) (out : List ℕ) → digits_from base fuel 0 out ≡ out
  unfolding digits_from
  digits_from-zero zero out = refl
  digits_from-zero (suc fuel) out = refl

  digits_from-step :
      (fuel m : ℕ) (out : List ℕ)
      → 0 < m
      → digits_from base (suc fuel) m out ≡ digits_from base fuel (m / base) (m % base ∷ out)
  unfolding digits_from
  digits_from-step fuel m out h = ground arith

  digits_from-fuel :
      (f g m : ℕ) (out : List ℕ)
      → m ≤ f
      → m ≤ g
      → digits_from base f m out ≡ digits_from base g m out
  digits_from-fuel f g zero out h k = digits_from-zero f out ∙ sym (digits_from-zero g out)
  digits_from-fuel zero g (suc m) out h k = absurd (omega arith)
  digits_from-fuel (suc f) zero (suc m) out h k = absurd (omega arith)
  digits_from-fuel (suc f) (suc g) (suc m) out h k =
      let less = b.smaller (suc m) (omega arith) in
      digits_from-step f (suc m) out (omega arith)
      ∙ digits_from-fuel f g (suc m / base) (suc m % base ∷ out) (omega (arith, less, h))
          (omega (arith, less, k))
      ∙ sym (digits_from-step g (suc m) out (omega arith))

  -- The digits of a number, read as digits.
  pub number_from-digits_from :
      (fuel m : ℕ) (out : List ℕ)
      → m ≤ fuel
      → number_from base 0 (digits_from base fuel m out) ≡ number_from base m out
  unfolding number_from
  number_from-digits_from fuel zero out h = ap (number_from base 0) (digits_from-zero fuel out)
  number_from-digits_from zero (suc m) out h = absurd (omega arith)
  number_from-digits_from (suc fuel) (suc m) out h =
      ap (number_from base 0) (digits_from-step fuel (suc m) out (omega arith))
      ∙ number_from-digits_from fuel (suc m / base) (suc m % base ∷ out)
          (omega (arith, b.smaller (suc m) (omega arith), h))
      ∙ ap (λ n. number_from base n out) (b.whole (suc m))

  -- More digits of a number that has some.
  digits_from-number_from :
      (ds : List ℕ) (n f g : ℕ)
      → All (λ d. d < base) ds
      → 0 < n
      → number_from base n ds ≤ f
      → n ≤ g
      → digits_from base f (number_from base n ds) [] ≡ digits_from base g n ds
  unfolding number_from
  digits_from-number_from [] n f g a h k l = digits_from-fuel f g n [] k l
  digits_from-number_from (d ∷ ds) n f g a h k l =
      let m = n * base + d in
      let p = b.positive n d h in
      let less : n < m = rw (b.quotient n d a.0) at (b.smaller m p) in
      digits_from-number_from ds m f (suc m) a.1 p k (omega arith)
      ∙ digits_from-step m m ds p
      ∙ ap (λ q. digits_from base m q (m % base ∷ ds)) (b.quotient n d a.0)
      ∙ ap (λ r. digits_from base m n (r ∷ ds)) (b.remainder n d a.0)
      ∙ digits_from-fuel m g n (d ∷ ds) (omega (arith, less)) l

  pub All-digits_from :
      (fuel m : ℕ) (out : List ℕ)
      → All (λ d. d < base) out
      → All (λ d. d < base) (digits_from base fuel m out)
  unfolding digits_from
  All-digits_from zero m out h = h
  All-digits_from (suc fuel) m out h = elim (Bool-cases (m == 0)) [
    | inl e ↦ rw e h
    | inr e ↦ rw e (All-digits_from fuel (m / base) (m % base ∷ out) (b.low m, h))
  ]

  -- Digits without a zero in front, as a number and as digits again.
  pub digits_from-number_from_lem :
      (ds : List ℕ) (fuel : ℕ)
      → All (λ d. d < base) ds
      → IsTrimmed ds
      → number_from base 0 ds ≤ fuel
      → digits_from base fuel (number_from base 0 ds) [] ≡ ds
  unfolding number_from
  digits_from-number_from_lem [] fuel a h k = digits_from-zero fuel []
  digits_from-number_from_lem (d ∷ ds) fuel a h k =
      let n = 0 * base + d in
      let p : 0 < n = omega (arith, h) in
      digits_from-number_from ds n fuel (suc n) a.1 p k (omega arith)
      ∙ digits_from-step n n ds p
      ∙ ap (λ q. digits_from base n q (n % base ∷ ds)) (b.quotient 0 d a.0)
      ∙ ap (λ r. digits_from base n 0 (r ∷ ds)) (b.remainder 0 d a.0)
      ∙ digits_from-zero n (d ∷ ds)

  -- No zero stands in front of the digits of a number.
  pub digits_from-IsTrimmed :
      (fuel m : ℕ) (out : List ℕ) → m ≤ fuel → 0 < m → IsTrimmed (digits_from base fuel m out)
  digits_from-IsTrimmed zero m out h k = absurd (omega arith)
  digits_from-IsTrimmed (suc fuel) m out h k = elim (Bool-cases (m / base == 0)) [
    | inr more ↦ rw (digits_from-step fuel m out k) (
        digits_from-IsTrimmed fuel (m / base) (m % base ∷ out) (omega (arith, b.smaller m k, h))
          (ground arith))
    | inl last ↦
        let none_left : m / base ≡ 0 = ground arith in
        let all : 0 * base + m % base ≡ m = rw none_left at (b.whole m) in
        let pos : 0 < m % base = omega (arith, all, k) in
        rw (digits_from-step fuel m out k, none_left, digits_from-zero fuel (m % base ∷ out)) pos
  ]
