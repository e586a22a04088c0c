-- ===== src/Airgap/Ur/Collector/Simple.antt =====
-- The collector's map of single fragments, and how many of the wanted numbers it holds.
use labyrinth_vault.Prelude.{
  ℕ, zero, suc, ◌+◌, ◌≤◌, ◌<◌, ◌≡◌, refl, ap, arith, true, List, [], ◌∷◌, ◌++◌, none, some, ◌==◌,
  ==_iff, if◌then◌else◌, Bool-cases, Option-cases, inl, inr,
}
use labyrinth_vault.Airgap.Envelope.Parts.{is_some}
use labyrinth_vault.Airgap.Ur.Collector.{get_simple, join_from}

pub get_simple-append :
    (j i : ℕ) (f : List ℕ) (m : List (ℕ × List ℕ))
    → get_simple i m ≡ none
    → get_simple j (m ++ (i, f) ∷ []) ≡ (if j == i then some f else get_simple j m)
unfolding get_simple
get_simple-append j i f [] e = refl
get_simple-append j i f ((k, g) ∷ m) e = ground (arith, get_simple-append j i f m)

-- How many of the numbers below `n` the map has.
unfoldable pub seen : ℕ → List (ℕ × List ℕ) → ℕ
seen zero m = 0
seen (suc n) m = if is_some (get_simple n m) then suc (seen n m) else seen n m

pub seen-le : (n : ℕ) (m : List (ℕ × List ℕ)) → seen n m ≤ n
unfolding seen
seen-le zero m = omega arith
seen-le (suc n) m = ground (arith, seen-le n m)

pub seen-nil : (n : ℕ) → seen n [] ≡ 0
unfolding seen get_simple
seen-nil zero = refl
seen-nil (suc n) = seen-nil n

seen-append_other :
    (n i : ℕ) (f : List ℕ) (m : List (ℕ × List ℕ))
    → n ≤ i
    → get_simple i m ≡ none
    → seen n (m ++ (i, f) ∷ []) ≡ seen n m
unfolding seen
seen-append_other zero i f m h e = refl
seen-append_other (suc n) i f m h e =
    ground (arith, get_simple-append n i f m e, seen-append_other n i f m)

pub seen-append :
    (n i : ℕ) (f : List ℕ) (m : List (ℕ × List ℕ))
    → i < n
    → get_simple i m ≡ none
    → seen n (m ++ (i, f) ∷ []) ≡ suc (seen n m)
unfolding seen
seen-append zero i f m h e = absurd (omega arith)
seen-append (suc n) i f m h e = elim (Bool-cases (n == i)) [
  | inl q ↦ ground (
    arith,
    get_simple-append n i f m e,
    seen-append_other n i f m,
    ap (λ k. get_simple k m) ((==_iff n i).0 q),
  )
  | inr q ↦ ground (arith, get_simple-append n i f m e, seen-append n i f m)
]

-- All of the numbers are there when the count is full.
pub seen_all :
    (n i : ℕ) (m : List (ℕ × List ℕ)) → seen n m ≡ n → i < n → is_some (get_simple i m) ≡ true
unfolding seen
seen_all zero i m e h = absurd (omega arith)
seen_all (suc n) i m e h = elim (Bool-cases (n == i)) [
  | inl same ↦ ground (arith, seen-le n m)
  | inr other ↦ ground (arith, seen-le n m, seen_all n i m)
]

-- Then they can be joined.
pub join_from_total :
    (n i : ℕ) (m : List (ℕ × List ℕ))
    → ((j : ℕ) → j < i + n → is_some (get_simple j m) ≡ true)
    → (b : List ℕ) × (join_from n i m ≡ some b)
unfolding join_from
join_from_total zero i m h = ([], refl)
join_from_total (suc n) i m h = elim (Option-cases (get_simple i m)) [
  | inl e ↦ absurd (ground (arith, h i (omega arith)))
  | inr (f, e) ↦
      let (b, r) = join_from_total n (i + 1) m (λ j k. h j (omega arith)) in
      (f ++ b, rw (e, r) refl)
]

pub seen_full :
    (n : ℕ) (m : List (ℕ × List ℕ))
    → ((i : ℕ) → i < n → is_some (get_simple i m) ≡ true)
    → seen n m ≡ n
unfolding seen
seen_full zero m h = refl
seen_full (suc n) m h = rw (h n (omega arith)) (ap suc (seen_full n m (λ i k. h i (omega arith))))
