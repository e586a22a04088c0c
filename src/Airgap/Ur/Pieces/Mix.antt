-- ===== src/Airgap/Ur/Pieces/Mix.antt =====
-- The mixture that a piece should hold: the exclusive or of the message's fragments at its indexes.
use labyrinth_vault.Prelude.{
  ℕ, zero, suc, ◌≤◌, ◌<◌, ◌≡◌, refl, sym, ◌∙◌, ap, arith, true, false, ◌&&◌, not, List, [], ◌∷◌,
  ◌==◌, ==_iff, if◌then◌else◌, length, Bool-cases, inl, inr,
}
use labyrinth_vault.Airgap.Fountain.{zeros, xor_into}
use labyrinth_vault.Airgap.Fountain.Laws.{
  xor_into_comm, xor_into_self, xor_into-zeros, length-zeros, length-xor_into, xor_into_swap,
  xor_into_cancel,
}
use labyrinth_vault.Airgap.Ur.Pieces.{Piece, includes, is_subset, without, reduce}
use labyrinth_vault.Airgap.Ur.Pieces.Range.{InRange, reduce-InRange}

-- Of the fragments below `n`, those that `indexes` has, of `size` bytes each.
unfoldable pub mix : (ℕ → List ℕ) → ℕ → List ℕ → ℕ → List ℕ
mix f size indexes zero = zeros size
mix f size indexes (suc n) =
    let rest = mix f size indexes n in if includes indexes n then xor_into rest (f n) else rest

includes-without :
    (a b : List ℕ) (i : ℕ) → includes (without a b) i ≡ (includes a i && not (includes b i))
unfolding includes without
includes-without [] b i = refl
includes-without (x ∷ a) b i = elim (Bool-cases (x == i)) [
  | inl e ↦ ground (arith, includes-without a b i, ap (includes b) ((==_iff x i).0 e))
  | inr e ↦ ground (arith, includes-without a b i)
]

is_subset_at :
    (a b : List ℕ) (i : ℕ) → is_subset a b ≡ true → includes b i ≡ true → includes a i ≡ true
unfolding includes is_subset
is_subset_at a [] i h k = cc
is_subset_at a (y ∷ b) i h k = elim (Bool-cases (y == i)) [
  | inl e ↦ ground (arith, ap (includes a) ((==_iff y i).0 e))
  | inr e ↦ ground (arith, is_subset_at a b i)
]

-- What a subtraction gives: the piece as it was, nothing, or the rest.
data Reduced (a b r : Piece) : Type 0 where
  same : r ≡ a → Reduced a b r
  gone : length r.indexes ≡ 0 → Reduced a b r
  rest :
      0 < length b.indexes
      → is_subset a.indexes b.indexes ≡ true
      → r ≡ record {
        indexes = without a.indexes b.indexes;
        fragment = xor_into a.fragment b.fragment;
      }
      → Reduced a b r

reduce-Reduced : (a b : Piece) → Reduced a b (reduce a b)
unfolding reduce
reduce-Reduced a b = elim (Bool-cases (length b.indexes == 0)) [
  | inl e ↦ same (rw e refl)
  | inr e ↦ elim (Bool-cases (is_subset a.indexes b.indexes)) [
    | inr s ↦ same (rw (e, s) refl)
    | inl s ↦ elim (Bool-cases (length a.indexes == length b.indexes)) [
      | inl l ↦ gone (rw (e, s, l) refl)
      | inr l ↦ rest (ground arith) s (rw (e, s, l) refl)
    ]
  ]
]

module _ (f : ℕ → List ℕ) (size : ℕ) where
  abbrev pub IsSized : ℕ → Type 0
  IsSized n = (i : ℕ) → i < n → length (f i) ≡ size

  pub length-mix : (indexes : List ℕ) (n : ℕ) → IsSized n → length (mix f size indexes n) ≡ size
  unfolding mix
  length-mix indexes zero h = length-zeros size
  length-mix indexes (suc n) h = ground (
    arith,
    length-mix indexes n (λ i k. h i (omega arith)),
    length-xor_into (mix f size indexes n) (f n),
    h n (omega arith),
  )

  pub mix_in :
      (a : List ℕ) (n : ℕ)
      → includes a n ≡ true
      → mix f size a (suc n) ≡ xor_into (mix f size a n) (f n)
  unfolding mix
  mix_in a n e = rw e refl

  pub mix_out : (a : List ℕ) (n : ℕ) → includes a n ≡ false → mix f size a (suc n) ≡ mix f size a n
  unfolding mix
  mix_out a n e = rw e refl

  zeros_lem : (n : ℕ) → xor_into (zeros n) (zeros n) ≡ zeros n
  zeros_lem n = xor_into_self (zeros n) ∙ ap zeros (length-zeros n)

  -- Taking the fragments of a part out of a mixture.
  pub mix-without :
      (a b : List ℕ) (n : ℕ)
      → IsSized n
      → is_subset a b ≡ true
      → xor_into (mix f size a n) (mix f size b n) ≡ mix f size (without a b) n
  unfolding mix
  mix-without a b zero h s = zeros_lem size
  mix-without a b (suc n) h s =
      let x = mix f size a n in
      let y = mix f size b n in
      let g : IsSized n = λ i k. h i (omega arith) in
      let ih = mix-without a b n g s in
      let w = includes-without a b n in
      elim (Bool-cases (includes a n)) [
        | inl p ↦ elim (Bool-cases (includes b n)) [
          | inl q ↦
              rw (mix_in a n p, mix_in b n q, mix_out (without a b) n (rw (w, p, q) refl))
                (xor_into_cancel x y (f n) (length-mix a n g ∙ sym (h n (omega arith)))
                    (length-mix b n g ∙ sym (h n (omega arith)))
                  ∙ ih)
          | inr q ↦
              rw (mix_in a n p, mix_out b n q, mix_in (without a b) n (rw (w, p, q) refl))
                (xor_into_swap x y (f n) ∙ ap (λ t. xor_into t (f n)) ih)
        ]
        | inr p ↦ elim (Bool-cases (includes b n)) [
          | inl q ↦ absurd (ground (arith, is_subset_at a b n s q))
          | inr q ↦ rw (mix_out a n p, mix_out b n q, mix_out (without a b) n (rw (w, p) refl)) ih
        ]
      ]

  mix_beyond : (i n : ℕ) → n ≤ i → mix f size (i ∷ []) n ≡ zeros size
  unfolding mix includes
  mix_beyond i zero h = refl
  mix_beyond i (suc n) h = ground (arith, mix_beyond i n (omega arith))

  xor_into-sized : (x : List ℕ) → length x ≡ size → xor_into x (zeros size) ≡ x
  xor_into-sized x e = rw (← e) (xor_into-zeros x)

  -- A single fragment is itself.
  pub mix_single : (i n : ℕ) → IsSized n → i < n → mix f size (i ∷ []) n ≡ f i
  unfolding mix includes
  mix_single i zero h k = absurd (omega arith)
  mix_single i (suc n) h k = elim (Bool-cases (i == n)) [
    | inl e ↦
        mix_in (i ∷ []) n (rw e refl)
        ∙ rw (mix_beyond i n (ground arith), xor_into_comm (zeros size) (f n))
            (xor_into-sized (f n) (h n (omega arith)))
        ∙ ap f (sym ((==_iff i n).0 e))
    | inr e ↦ ground (arith, mix_single i n (λ j l. h j (omega arith)))
  ]

  -- A piece that is what its indexes say, if it has any.
  abbrev pub IsHonest : ℕ → Piece → Type 0
  IsHonest n p = InRange n p × (0 < length p.indexes → p.fragment ≡ mix f size p.indexes n)

  without-pos : (a b : List ℕ) → 0 < length (without a b) → 0 < length a
  unfolding without
  without-pos [] b h = h
  without-pos (x ∷ a) b h = omega arith

  mixed_of :
      (n : ℕ) (a b r : Piece)
      → IsSized n
      → IsHonest n a
      → IsHonest n b
      → Reduced a b r
      → 0 < length r.indexes
      → r.fragment ≡ mix f size r.indexes n
  mixed_of n a b r h p q (same e) k = rw e (p.1 (rw e at k))
  mixed_of n a b r h p q (gone e) k = absurd (omega (arith, e, k))
  mixed_of n a b r h p q (rest l s e) k =
      let k' : 0 < length (without a.indexes b.indexes) = rw e at k in
      rw (e, p.1 (without-pos a.indexes b.indexes k'), q.1 l)
        (mix-without a.indexes b.indexes n h s)

  -- Subtraction keeps pieces honest.
  pub reduce-IsHonest :
      (n : ℕ) (a b : Piece) → IsSized n → IsHonest n a → IsHonest n b → IsHonest n (reduce a b)
  reduce-IsHonest n a b h p q =
      (reduce-InRange n a b p.0, mixed_of n a b (reduce a b) h p q (reduce-Reduced a b))
