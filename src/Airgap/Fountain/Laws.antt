-- ===== src/Airgap/Fountain/Laws.antt =====
-- src/airgap/fountain.ts: the laws of mixing.
use labyrinth_vault.Prelude.{ℕ, zero, suc, ◌≡◌, refl, sym, ◌∙◌, ap, arith, List, [], ◌∷◌, length}
use labyrinth_vault.Prelude.Xor.{
  bit_xor_comm, bit_xor_assoc, bit_xor_self, bit_xor-zero, zero-bit_xor,
}
use labyrinth_vault.Airgap.Fountain.{zeros, xor_into}

xor_into-nil : (xs : List ℕ) → xor_into xs [] ≡ xs
unfolding xor_into
xor_into-nil [] = refl
xor_into-nil (x ∷ xs) = rw (bit_xor-zero x, xor_into-nil xs) refl

nil-xor_into : (xs : List ℕ) → xor_into [] xs ≡ xs
unfolding xor_into
nil-xor_into [] = refl
nil-xor_into (x ∷ xs) = rw (zero-bit_xor x, nil-xor_into xs) refl

pub xor_into_comm : (xs ys : List ℕ) → xor_into xs ys ≡ xor_into ys xs
unfolding xor_into
xor_into_comm [] ys = nil-xor_into ys ∙ sym (xor_into-nil ys)
xor_into_comm (x ∷ xs) [] = xor_into-nil (x ∷ xs) ∙ sym (nil-xor_into (x ∷ xs))
xor_into_comm (x ∷ xs) (y ∷ ys) = rw (bit_xor_comm x y, xor_into_comm xs ys) refl

pub xor_into_assoc :
    (xs ys zs : List ℕ) → xor_into (xor_into xs ys) zs ≡ xor_into xs (xor_into ys zs)
unfolding xor_into
xor_into_assoc [] ys zs = rw (nil-xor_into ys, nil-xor_into (xor_into ys zs)) refl
xor_into_assoc (x ∷ xs) [] zs =
    ap (λ t. xor_into t zs) (xor_into-nil (x ∷ xs)) ∙ sym (ap (xor_into (x ∷ xs)) (nil-xor_into zs))
xor_into_assoc (x ∷ xs) (y ∷ ys) [] =
    xor_into-nil (xor_into (x ∷ xs) (y ∷ ys)) ∙ sym (ap (xor_into (x ∷ xs)) (xor_into-nil (y ∷ ys)))
xor_into_assoc (x ∷ xs) (y ∷ ys) (z ∷ zs) = rw (bit_xor_assoc x y z, xor_into_assoc xs ys zs) refl

pub length-zeros : (n : ℕ) → length (zeros n) ≡ n
unfolding zeros
length-zeros zero = refl
length-zeros (suc n) = ap suc (length-zeros n)

pub xor_into_self : (xs : List ℕ) → xor_into xs xs ≡ zeros (length xs)
unfolding xor_into zeros
xor_into_self [] = refl
xor_into_self (x ∷ xs) = rw (bit_xor_self x, xor_into_self xs) refl

pub xor_into-zeros : (xs : List ℕ) → xor_into xs (zeros (length xs)) ≡ xs
unfolding xor_into zeros
xor_into-zeros [] = refl
xor_into-zeros (x ∷ xs) = rw (bit_xor-zero x, xor_into-zeros xs) refl

pub length-xor_into : (xs ys : List ℕ) → length xs ≡ length ys → length (xor_into xs ys) ≡ length xs
unfolding xor_into
length-xor_into [] [] h = refl
length-xor_into [] (y ∷ ys) h = absurd (omega arith)
length-xor_into (x ∷ xs) [] h = absurd (omega arith)
length-xor_into (x ∷ xs) (y ∷ ys) h = ap suc (length-xor_into xs ys (omega arith))

-- Fragments of one length.
module _ (x y z : List ℕ) where
  pub xor_into_swap : xor_into (xor_into x z) y ≡ xor_into (xor_into x y) z
  xor_into_swap =
      xor_into_assoc x z y ∙ ap (xor_into x) (xor_into_comm z y) ∙ sym (xor_into_assoc x y z)

  pub xor_into_cancel :
      length x ≡ length z
      → length y ≡ length z
      → xor_into (xor_into x z) (xor_into y z) ≡ xor_into x y
  xor_into_cancel h k =
      xor_into_assoc x z (xor_into y z)
      ∙ ap (xor_into x) (
          ap (xor_into z) (xor_into_comm y z)
          ∙ sym (xor_into_assoc z z y)
          ∙ rw (xor_into_self z, xor_into_comm (zeros (length z)) y, ← k) (xor_into-zeros y))
