-- ===== src/Airgap/Fountain/Choice/Promises.antt =====
-- src/airgap/fountain.ts, chooseFragments: the indexes that it gives.
use labyrinth_vault.Prelude.{
  ℕ, zero, suc, ◌+◌, ◌-◌, ◌%◌, ◌^◌, ◌≤◌, ◌<◌, ◌≡◌, refl, ap, arith, true, false, List, [], ◌∷◌,
  some, leb, ==_iff, length, take, get_elem?, All, All-take, Bool-cases, inl, inr,
}
use labyrinth_vault.Airgap.Ur.Pieces.{includes}
use labyrinth_vault.Airgap.Ur.Pieces.Range.{IsBelow}
use labyrinth_vault.Airgap.Ur.Message.{IsDistinct}
use labyrinth_vault.Airgap.Fountain.Choice.{
  remove_at, indexes_from, shuffle_from, shuffle, choose_fragments,
}

get_elem?-lt : (xs : List ℕ) (i : ℕ) → i < length xs → (y : ℕ) × (get_elem? xs i ≡ some y)
get_elem?-lt [] i h = absurd (omega arith)
get_elem?-lt (x ∷ xs) zero h = (x, refl)
get_elem?-lt (x ∷ xs) (suc i) h = get_elem?-lt xs i (omega arith)

length-remove_at : (xs : List ℕ) (i : ℕ) → i < length xs → suc (length (remove_at xs i)) ≡ length xs
unfolding remove_at
length-remove_at [] i h = absurd (omega arith)
length-remove_at (x ∷ xs) zero h = refl
length-remove_at (x ∷ xs) (suc i) h = ap suc (length-remove_at xs i (omega arith))

-- What is left after an item is taken: nothing new, and not the item.
includes-remove_at :
    (xs : List ℕ) (i v : ℕ) → includes xs v ≡ false → includes (remove_at xs i) v ≡ false
unfolding includes remove_at
includes-remove_at [] i v h = refl
includes-remove_at (x ∷ xs) zero v h = ground arith
includes-remove_at (x ∷ xs) (suc i) v h = ground (arith, includes-remove_at xs i v)

remove_at-IsDistinct : (xs : List ℕ) (i : ℕ) → IsDistinct xs → IsDistinct (remove_at xs i)
unfolding remove_at
remove_at-IsDistinct [] i h = tt
remove_at-IsDistinct (x ∷ xs) zero h = h.1
remove_at-IsDistinct (x ∷ xs) (suc i) h =
    (includes-remove_at xs i x h.0, remove_at-IsDistinct xs i h.1)

get_elem?-includes : (xs : List ℕ) (i y : ℕ) → get_elem? xs i ≡ some y → includes xs y ≡ true
unfolding includes
get_elem?-includes [] i y e = cc
get_elem?-includes (x ∷ xs) zero y e = let same : x ≡ y = ground arith in ground (arith, same)
get_elem?-includes (x ∷ xs) (suc i) y e = ground (arith, get_elem?-includes xs i y e)

taken_is_gone :
    (xs : List ℕ) (i y : ℕ)
    → IsDistinct xs
    → get_elem? xs i ≡ some y
    → includes (remove_at xs i) y ≡ false
unfolding remove_at includes
taken_is_gone [] i y h e = refl
taken_is_gone (x ∷ xs) zero y h e = let same : x ≡ y = ground arith in rw (← same) h.0
taken_is_gone (x ∷ xs) (suc i) y h e =
    ground (arith, taken_is_gone xs i y h.1 e, get_elem?-includes xs i y e, ==_iff x y, h.0)

All-remove_at :
    (n : ℕ) (xs : List ℕ) (i : ℕ) → All (IsBelow n) xs → All (IsBelow n) (remove_at xs i)
unfolding remove_at
All-remove_at n [] i h = tt
All-remove_at n (x ∷ xs) zero h = h.1
All-remove_at n (x ∷ xs) (suc i) h = (h.0, All-remove_at n xs i h.1)

get_elem?-IsBelow :
    (n : ℕ) (xs : List ℕ) (i y : ℕ) → All (IsBelow n) xs → get_elem? xs i ≡ some y → y < n
get_elem?-IsBelow n [] i y h e = cc
get_elem?-IsBelow n (x ∷ xs) zero y h e = ground arith
get_elem?-IsBelow n (x ∷ xs) (suc i) y h e = get_elem?-IsBelow n xs i y h.1 e

-- A draw from `nextInt(lo, hi)` lies between the two.
unfoldable pub IsDraw : {R : Type 0} → (R → ℕ → ℕ → ℕ × R) → Type 0
IsDraw {R} next_int =
    (r : R) (lo hi : ℕ) → lo ≤ hi → (lo ≤ (next_int r lo hi).0) × ((next_int r lo hi).0 ≤ hi)

-- A list whose items are distinct, below `n` and all in `xs`.
PicksFrom : ℕ → List ℕ → List ℕ → Type 0
PicksFrom n xs ys =
    All (IsBelow n) ys × IsDistinct ys × ((v : ℕ) → includes xs v ≡ false → includes ys v ≡ false)

PicksFrom-cons :
    (n : ℕ) (xs ys : List ℕ) (i y : ℕ)
    → All (IsBelow n) xs
    → IsDistinct xs
    → get_elem? xs i ≡ some y
    → PicksFrom n (remove_at xs i) ys
    → PicksFrom n xs (y ∷ ys)
unfolding PicksFrom includes
PicksFrom-cons n xs ys i y below distinct e (b, d, sub) = (
  (get_elem?-IsBelow n xs i y below e, b),
  (sub y (taken_is_gone xs i y distinct e), d),
  λ v absent.
      ground
        (arith, sub v (includes-remove_at xs i v absent), get_elem?-includes xs i y e, ==_iff y v),
)

shuffle_from-PicksFrom :
    {R : Type 0} (next_int : R → ℕ → ℕ → ℕ × R)
    → IsDraw next_int
    → (n rounds : ℕ) (r : R) (xs : List ℕ) → rounds ≡ length xs
    → All (IsBelow n) xs
    → IsDistinct xs
    → (ys : List ℕ) × (shuffle_from next_int rounds r xs ≡ some ys) × PicksFrom n xs ys
unfolding shuffle_from PicksFrom IsDraw includes
shuffle_from-PicksFrom next_int draw n zero r xs e below distinct =
    ([], refl, (tt, tt, λ v h. refl))
shuffle_from-PicksFrom next_int draw n (suc rounds) r [] e below distinct = absurd (omega arith)
shuffle_from-PicksFrom next_int draw n (suc rounds) r (x ∷ xs) e below distinct =
    let i : ℕ = (next_int r 0 (length xs)).0 in
    let d : i ≤ length xs = (draw r 0 (length xs) (omega arith)).1 in
    let inside : i < length (x ∷ xs) = omega arith in
    let l : suc (length (remove_at (x ∷ xs) i)) ≡ length (x ∷ xs) =
      length-remove_at (x ∷ xs) i inside in
    let (y, got) = get_elem?-lt (x ∷ xs) i inside in
    let (ys, run, picks) =
      shuffle_from-PicksFrom next_int draw n rounds (next_int r 0 (length xs)).1
        (remove_at (x ∷ xs) i) (omega arith) (All-remove_at n (x ∷ xs) i below)
        (remove_at-IsDistinct (x ∷ xs) i distinct) in
    (y ∷ ys, rw (got, run) refl, PicksFrom-cons n (x ∷ xs) ys i y below distinct got picks)

includes-take : (k v : ℕ) (xs : List ℕ) → includes xs v ≡ false → includes (take k xs) v ≡ false
unfolding includes
includes-take zero v xs h = refl
includes-take (suc k) v [] h = refl
includes-take (suc k) v (x ∷ xs) h = ground (arith, includes-take k v xs)

take-IsDistinct : (k : ℕ) (xs : List ℕ) → IsDistinct xs → IsDistinct (take k xs)
take-IsDistinct zero xs h = tt
take-IsDistinct (suc k) [] h = tt
take-IsDistinct (suc k) (x ∷ xs) h = (includes-take k x xs h.0, take-IsDistinct k xs h.1)

includes-indexes_from : (n i v : ℕ) → v < i → includes (indexes_from n i) v ≡ false
unfolding includes indexes_from
includes-indexes_from zero i v h = refl
includes-indexes_from (suc n) i v h =
    ground (arith, includes-indexes_from n (suc i) v (omega arith), ==_iff i v)

indexes_from-IsDistinct : (n i : ℕ) → IsDistinct (indexes_from n i)
unfolding indexes_from
indexes_from-IsDistinct zero i = tt
indexes_from-IsDistinct (suc n) i =
    (includes-indexes_from n (suc i) i (omega arith), indexes_from-IsDistinct n (suc i))

indexes_from-IsBelow : (m n i : ℕ) → n + i ≤ m → All (IsBelow m) (indexes_from n i)
unfolding indexes_from
indexes_from-IsBelow m zero i h = tt
indexes_from-IsBelow m (suc n) i h = (omega arith, indexes_from-IsBelow m n (suc i) (omega arith))

-- Whatever the seed and the degree, a generator whose draws lie in the range asked for makes
-- `chooseFragments` return, for a frame numbered from 1 and at least one fragment, with fragments
-- of the message and none of them twice.
pub choose_fragments-IsDistinct :
    {R : Type 0} (next_int : R → ℕ → ℕ → ℕ × R) (seed : ℕ → ℕ → R) (choose_degree : ℕ → R → ℕ × R)
    → IsDraw next_int
    → (seq_num n checksum : ℕ) → 1 ≤ seq_num
    → 1 ≤ n
    → (is : List ℕ) × (choose_fragments next_int seed choose_degree seq_num n checksum ≡ some is)
      × All (IsBelow n) is
      × IsDistinct is
unfolding choose_fragments shuffle PicksFrom includes
choose_fragments-IsDistinct next_int seed choose_degree draw seq_num n checksum p q =
    let (degree, r) = choose_degree n (seed (seq_num % 2 ^ 32) (checksum % 2 ^ 32)) in
    let (items, run, (below, distinct, sub)) =
      shuffle_from-PicksFrom next_int draw n (length (indexes_from n 0)) r (indexes_from n 0) refl
        (indexes_from-IsBelow n n 0 (omega arith)) (indexes_from-IsDistinct n 0) in
    elim (Bool-cases (leb seq_num n)) [
      | inl e ↦ ((seq_num - 1) ∷ [], rw e refl, (ground arith, tt), (refl, tt))
      | inr e ↦ (
        take degree items,
        rw (e, run) refl,
        All-take (IsBelow n) degree items below,
        take-IsDistinct degree items distinct,
      )
    ]
