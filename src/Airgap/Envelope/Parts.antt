-- ===== src/Airgap/Envelope/Parts.antt =====
-- The collector's map of parts, and how many of the wanted numbers it holds.
use labyrinth_vault.Prelude.{
  ℕ, zero, suc, ◌+◌, ◌≤◌, ◌<◌, ◌≡◌, refl, ap, arith, Bool, true, false, List, [], ◌∷◌, Option, none,
  some, ◌==◌, ==_iff, if◌then◌else◌, Text, length, Bool-cases, inl, inr,
}
use labyrinth_vault.Airgap.Envelope.{get_part, set_part}

abbrev pub is_some {ℓ} : {A : Type ℓ} → Option A → Bool
is_some none = false
is_some (some a) = true

pub get_part-set_part :
    (j i : ℕ) (b : Text) (m : List (ℕ × Text))
    → get_part j (set_part i b m) ≡ (if j == i then some b else get_part j m)
unfolding get_part set_part
get_part-set_part j i b [] = refl
get_part-set_part j i b ((k, c) ∷ m) = ground (arith, get_part-set_part j i b m)

pub length-set_part :
    (i : ℕ) (b : Text) (m : List (ℕ × Text))
    → length (set_part i b m) ≡ (if is_some (get_part i m) then length m else suc (length m))
unfolding get_part set_part
length-set_part i b [] = refl
length-set_part i b ((k, c) ∷ m) = ground (arith, length-set_part i b m)

-- How many of the numbers 1 to `n` the map has.
unfoldable pub seen : ℕ → List (ℕ × Text) → ℕ
seen zero m = 0
seen (suc n) m = if is_some (get_part (n + 1) m) then suc (seen n m) else seen n m

pub seen-le : (n : ℕ) (m : List (ℕ × Text)) → seen n m ≤ n
unfolding seen
seen-le zero m = omega arith
seen-le (suc n) m = ground (arith, seen-le n m)

pub seen-nil : (n : ℕ) → seen n [] ≡ 0
unfolding seen get_part
seen-nil zero = refl
seen-nil (suc n) = seen-nil n

seen-set_part_other :
    (n i : ℕ) (b : Text) (m : List (ℕ × Text)) → n ≤ i → seen n (set_part (i + 1) b m) ≡ seen n m
unfolding seen
seen-set_part_other zero i b m h = refl
seen-set_part_other (suc n) i b m h =
    ground (arith, get_part-set_part (n + 1) (i + 1) b m, seen-set_part_other n i b m)

pub seen-set_part :
    (n i : ℕ) (b : Text) (m : List (ℕ × Text))
    → i < n
    → seen n (set_part (i + 1) b m)
      ≡ (if is_some (get_part (i + 1) m) then seen n m else suc (seen n m))
unfolding seen
seen-set_part zero i b m h = absurd (omega arith)
seen-set_part (suc n) i b m h = elim (Bool-cases (n == i)) [
  | inl e ↦ ground (
    arith,
    get_part-set_part (n + 1) (i + 1) b m,
    seen-set_part_other n i b m,
    ap (λ k. get_part (k + 1) m) ((==_iff n i).0 e),
  )
  | inr e ↦ ground (arith, get_part-set_part (n + 1) (i + 1) b m, seen-set_part n i b m)
]

-- All of the numbers are there exactly when the count is full.
pub seen_all :
    (n i : ℕ) (m : List (ℕ × Text)) → seen n m ≡ n → i < n → is_some (get_part (i + 1) m) ≡ true
unfolding seen
seen_all zero i m e h = absurd (omega arith)
seen_all (suc n) i m e h = elim (Bool-cases (n == i)) [
  | inl same ↦ ground (arith, seen-le n m)
  | inr other ↦ ground (arith, seen-le n m, seen_all n i m)
]

pub seen_full :
    (n : ℕ) (m : List (ℕ × Text))
    → ((i : ℕ) → i < n → is_some (get_part (i + 1) m) ≡ true)
    → seen n m ≡ n
unfolding seen
seen_full zero m h = refl
seen_full (suc n) m h = rw (h n (omega arith)) (ap suc (seen_full n m (λ i k. h i (omega arith))))
