-- ===== src/Wallet/Coins/Balance.antt =====
-- build.ts: what a selection adds up to.
use labyrinth_vault.Prelude.{
  ℕ, ◌+◌, ◌-◌, ◌/◌, ◌≤◌, ◌<◌, ◌<◌, ◌≡◌, ◌≢◌, refl, ◌++◌, false, List, [], ◌∷◌, none, ltb, leb,
  leb→le, length, ◌⊎◌, inl, inr, arith, Bool-cases,
}
use labyrinth_vault.Wallet.Model.{Rate}
use labyrinth_vault.Wallet.Coins.{
  Utxo, Selection, total_value, fee_for, estimate_vsize, sum, change_vbytes, dust, gather, lean,
}
use native.Mathlib.Nat.{mul-le-mul_right, le-div_iff_mul-le, div-mul-le_self}

Zero-or-more : (k : ℕ) → (k ≡ 0) ⊎ (0 < k)
Zero-or-more k = ground arith

pub total-append : (us vs : List Utxo) → total_value (us ++ vs) ≡ total_value us + total_value vs
unfolding total_value
total-append [] vs = omega arith
total-append (u ∷ us) vs = omega (arith, total-append us vs)

pub total_snoc : (us : List Utxo) (u : Utxo) → total_value (us ++ u ∷ []) ≡ total_value us + u.value
unfolding total_value
total_snoc us u = omega (arith, total-append us (u ∷ []))

div_mono : (m n k : ℕ) → m ≤ n → m / k ≤ n / k
div_mono m n k h = elim (Zero-or-more k) [
  | inl z ↦ rw z (omega arith)
  | inr p ↦ (le-div_iff_mul-le p).1 (omega (arith, div-mul-le_self m k, h))
]

-- A change output never makes a transaction cheaper.
fee_for_change : (n p : ℕ) (r : Rate) → fee_for n (p ∷ []) r ≤ fee_for n (p ∷ change_vbytes ∷ []) r
unfolding fee_for estimate_vsize sum
fee_for_change n p r = div_mono _ _ r.bytes (omega arith)

-- A wider output never makes it cheaper either.
pub fee_for_wider :
    (n : ℕ) (r : Rate) {p q : ℕ} → p ≤ q → fee_for n (p ∷ []) r ≤ fee_for n (q ∷ []) r
unfolding fee_for estimate_vsize sum
fee_for_wider n r {p} {q} h = div_mono _ _ r.bytes (omega (arith, mul-le-mul_right r.sats h))

-- What a selection without a problem promises: the coins pay the amount, the fee and the change;
-- the fee covers the size of a transaction without change; and change is either absent, or worth
-- its output, with the fee of the size with it.
pub record IsBalanced (paying amount : ℕ) (rate : Rate) (s : Selection) : Type 0 where
  pub balance : total_value s.chosen ≡ amount + s.fee + s.change
  pub fee_enough : fee_for (length s.chosen) (paying ∷ []) rate ≤ s.fee
  pub change_worth :
      (s.change ≡ 0)
      ⊎ ((dust ≤ s.change) × (s.fee ≡ fee_for (length s.chosen) (paying ∷ change_vbytes ∷ []) rate))

pub gather_cases :
    (P : Selection → Type 0) (paying amount : ℕ) (rate : Rate) (chosen : List Utxo) (gathered : ℕ)
    (u : Utxo) (us : List Utxo)
    → (let n = length (chosen ++ u ∷ []) in
        let g = gathered + u.value in
        let lean_fee = fee_for n (paying ∷ []) rate in
        let fee = fee_for n (paying ∷ change_vbytes ∷ []) rate in
        ((amount + lean_fee ≤ g → P (lean (chosen ++ u ∷ []) g amount lean_fee))
          × (amount + fee + dust ≤ g
              → P (record {
                chosen = chosen ++ u ∷ [];
                fee = fee;
                change = g - amount - fee;
                change_to_fee = false;
                problem = none;
              }))
          × (g < amount + lean_fee → P (gather paying amount rate (chosen ++ u ∷ []) g us))))
    → P (gather paying amount rate chosen gathered (u ∷ us))
unfolding gather
gather_cases P paying amount rate chosen gathered u us (x, y, z) =
    let n = length (chosen ++ u ∷ []) in
    let g = gathered + u.value in
    let lean_fee = fee_for n (paying ∷ []) rate in
    let fee = fee_for n (paying ∷ change_vbytes ∷ []) rate in
    elim (Bool-cases (leb (amount + fee) g)) [
      | inl e ↦ elim (Bool-cases (ltb (g - amount - fee) dust)) [
        | inl q ↦ rw (e, q) (x (omega (arith, fee_for_change n paying rate, leb→le _ _ e)))
        | inr q ↦ rw (e, q) (y (ground arith))
      ]
      | inr e ↦ elim (Bool-cases (leb (amount + lean_fee) g)) [
        | inl q ↦ rw (e, q) (x (leb→le _ _ q))
        | inr q ↦ rw (e, q) (z (ground arith))
      ]
    ]

pub lean-IsBalanced :
    (paying amount : ℕ) (rate : Rate) (chosen : List Utxo) (g f : ℕ)
    → g ≡ total_value chosen
    → f ≡ fee_for (length chosen) (paying ∷ []) rate
    → amount + f ≤ g
    → IsBalanced paying amount rate (lean chosen g amount f)
unfolding lean
lean-IsBalanced paying amount rate chosen g f h q e = record {
  balance = omega (arith, h, e);
  fee_enough = omega (arith, q, e);
  change_worth = inl refl;
}

pub gather_nothing :
    (paying amount : ℕ) (rate : Rate) (chosen : List Utxo) (gathered : ℕ)
    → ((gather paying amount rate chosen gathered []).problem ≢ none)
      × ((gather paying amount rate chosen gathered []).chosen ≡ [])
unfolding gather
gather_nothing paying amount rate chosen gathered = (λ e. ground arith, refl)

pub gather-IsBalanced :
    (paying amount : ℕ) (rate : Rate) (chosen : List Utxo) (gathered : ℕ) (us : List Utxo)
    → gathered ≡ total_value chosen
    → (gather paying amount rate chosen gathered us).problem ≡ none
    → IsBalanced paying amount rate (gather paying amount rate chosen gathered us)
gather-IsBalanced paying amount rate chosen gathered [] h =
    λ n. absurd ((gather_nothing paying amount rate chosen gathered).0 n)
gather-IsBalanced paying amount rate chosen gathered (u ∷ us) h =
    let q : gathered + u.value ≡ total_value (chosen ++ u ∷ []) =
      omega (arith, h, total_snoc chosen u) in
    gather_cases (λ s. s.problem ≡ none → IsBalanced paying amount rate s) paying amount rate chosen
      gathered u us
      (
        λ e _. lean-IsBalanced paying amount rate (chosen ++ u ∷ []) _ _ q refl e,
        λ e _. record {
          balance = omega (arith, q, e);
          fee_enough = fee_for_change _ paying rate;
          change_worth = inr (omega (arith, e), refl);
        },
        λ e. gather-IsBalanced paying amount rate (chosen ++ u ∷ []) (gathered + u.value) us q,
      )
