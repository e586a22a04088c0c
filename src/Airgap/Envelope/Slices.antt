-- ===== src/Airgap/Envelope/Slices.antt =====
-- src/airgap/envelope.ts: the slices of encodeParts, and their count.
use labyrinth_vault.Prelude.{
  ℕ, zero, suc, ◌+◌, ◌*◌, ◌≤◌, ◌<◌, ◌++◌, ◌≡◌, sym, ap, ◌∙◌, arith, List, [], ◌∷◌, length, take,
  drop, take-nil, drop-nil, take_all,
}
use Prim.Native.Nat.add
use labyrinth_vault.Airgap.Envelope.{slice_at, part_count}

module _ {ℓ} {A : Type ℓ} where
  take-add : (m n : ℕ) (xs : List A) → take (m + n) xs ≡ take m xs ++ take n (drop m xs)
  take-add zero n xs = rw add.zero
  take-add (suc m) n [] = take-nil (suc m + n) ∙ sym (take-nil n)
  take-add (suc m) n (x ∷ xs) = rw add.suc (ap (λ t. x ∷ t) (take-add m n xs))

  drop-add : (m n : ℕ) (xs : List A) → drop (m + n) xs ≡ drop n (drop m xs)
  drop-add zero n xs = rw add.zero
  drop-add (suc m) n [] = drop-nil (suc m + n) ∙ sym (drop-nil n)
  drop-add (suc m) n (x ∷ xs) = rw add.suc (drop-add m n xs)

-- The slices from number `i` on, `n` of them, end to end.
unfoldable pub joined_slices : ℕ → List ℕ → ℕ → ℕ → List ℕ
joined_slices size payload zero i = []
joined_slices size payload (suc n) i =
    slice_at size payload i ++ joined_slices size payload n (i + 1)

joined_slices-take :
    (size : ℕ) (payload : List ℕ) (n i : ℕ)
    → joined_slices size payload n i ≡ take (n * size) (drop (i * size) payload)
unfolding joined_slices slice_at
joined_slices-take size payload zero i = let none_left : 0 * size ≡ 0 = omega arith in rw none_left
joined_slices-take size payload (suc n) i =
    let more : suc n * size ≡ size + n * size = omega arith in
    let next : (i + 1) * size ≡ i * size + size = omega arith in
    rw (
      more,
      take-add size (n * size) (drop (i * size) payload),
      joined_slices-take size payload n (i + 1),
      next,
      drop-add (i * size) size payload,
    )

pub joined_slices_all :
    (size n : ℕ) (payload : List ℕ)
    → length payload ≤ n * size
    → joined_slices size payload n 0 ≡ payload
joined_slices_all size n payload h =
    let start : 0 * size ≡ 0 = omega arith in
    joined_slices-take size payload n 0 ∙ rw start (take_all (n * size) payload h)

pub part_count_enough : (size len : ℕ) → 0 < size → len ≤ part_count size len * size
unfolding part_count
part_count_enough size len h = grind arith
