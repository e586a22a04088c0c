-- ===== src/Wallet/Monero/Decoys/Hidden.antt =====
-- wallet/src/core/decoys.ts, selectRing: the ring that is returned.
use labyrinth_vault.Prelude.{
  ℕ, zero, suc, ◌*◌, ◌≤◌, ◌<◌, ◌≡◌, refl, ◌∙◌, arith, true, false, ◌||◌, ◌++◌, List, [], ◌∷◌,
  Option, none, some, ltb, leb, ◌==◌, ==_iff, length, length-append, get_elem?, All, All-append,
  inl, inr, Bool-cases,
}
use labyrinth_vault.Wallet.Monero.Decoys.{
  Picker, has, add, insert_number, ascending, index_of, ring, choose_ring, select_ring, pick_one,
}

-- No number twice.
abbrev IsDistinct : List ℕ → Type 0
IsDistinct [] = Unit
IsDistinct (x ∷ xs) = (has xs x ≡ false) × IsDistinct xs

-- Each number is below the next.
abbrev pub IsRising : List ℕ → Type 0
IsRising [] = Unit
IsRising (x ∷ xs) = All (λ y. x < y) xs × IsRising xs

abbrev pub IsBelow : ℕ → ℕ → Type 0
IsBelow n i = i < n

insert_number-All :
    (P : ℕ → Type 0) (v : ℕ) (xs : List ℕ) → P v → All P xs → All P (insert_number v xs)
unfolding insert_number
insert_number-All P v [] p h = (p, tt)
insert_number-All P v (x ∷ xs) p h = elim (Bool-cases (ltb x v)) [
  | inl e ↦ rw e (h.0, insert_number-All P v xs p h.1)
  | inr e ↦ rw e (p, h)
]

above_all : (v x : ℕ) (xs : List ℕ) → v < x → All (λ y. x < y) xs → All (λ y. v < y) xs
above_all v x [] l h = tt
above_all v x (y ∷ ys) l h = (omega (arith, h.0), above_all v x ys l h.1)

insert_number-IsRising :
    (v : ℕ) (xs : List ℕ) → has xs v ≡ false → IsRising xs → IsRising (insert_number v xs)
unfolding insert_number has
insert_number-IsRising v [] n h = (tt, tt)
insert_number-IsRising v (x ∷ xs) n h = elim (Bool-cases (ltb x v)) [
  | inl e ↦
      let later : has xs v ≡ false = ground (arith, n) in
      rw e (
        insert_number-All (λ y. x < y) v xs (ground arith) h.0,
        insert_number-IsRising v xs later h.1,
      )
  | inr e ↦
      let less : v < x = ground (arith, n, ==_iff x v) in
      rw e ((less, above_all v x xs less h.0), h)
]

has-insert_number : (v w : ℕ) (xs : List ℕ) → has (insert_number v xs) w ≡ (v == w || has xs w)
unfolding insert_number has
has-insert_number v w [] = refl
has-insert_number v w (x ∷ xs) = ground (arith, has-insert_number v w xs)

has-ascending : (w : ℕ) (xs : List ℕ) → has (ascending xs) w ≡ has xs w
unfolding ascending has
has-ascending w [] = refl
has-ascending w (x ∷ xs) = has-insert_number x w (ascending xs) ∙ ground (arith, has-ascending w xs)

ascending-IsRising : (xs : List ℕ) → IsDistinct xs → IsRising (ascending xs)
unfolding ascending
ascending-IsRising [] h = tt
ascending-IsRising (x ∷ xs) h =
    insert_number-IsRising x (ascending xs) (has-ascending x xs ∙ h.0) (ascending-IsRising xs h.1)

ascending-All : (P : ℕ → Type 0) (xs : List ℕ) → All P xs → All P (ascending xs)
unfolding ascending
ascending-All P [] h = tt
ascending-All P (x ∷ xs) h = insert_number-All P x (ascending xs) h.0 (ascending-All P xs h.1)

length-insert_number : (v : ℕ) (xs : List ℕ) → length (insert_number v xs) ≡ suc (length xs)
unfolding insert_number
length-insert_number v [] = refl
length-insert_number v (x ∷ xs) = ground (arith, length-insert_number v xs)

length-ascending : (xs : List ℕ) → length (ascending xs) ≡ length xs
unfolding ascending
length-ascending [] = refl
length-ascending (x ∷ xs) =
    omega (arith, length-insert_number x (ascending xs), length-ascending xs)

get_elem?-index_of : (v : ℕ) (xs : List ℕ) → has xs v ≡ true → get_elem? xs (index_of v xs) ≡ some v
unfolding has index_of
get_elem?-index_of v [] h = cc
get_elem?-index_of v (x ∷ xs) h = ground (arith, ==_iff x v, get_elem?-index_of v xs)

has_snoc : (xs : List ℕ) (v w : ℕ) → has (xs ++ v ∷ []) w ≡ (has xs w || v == w)
unfolding has
has_snoc [] v w = ground arith
has_snoc (x ∷ xs) v w = ground (arith, has_snoc xs v w)

snoc-IsDistinct :
    (xs : List ℕ) (v : ℕ) → has xs v ≡ false → IsDistinct xs → IsDistinct (xs ++ v ∷ [])
unfolding has
snoc-IsDistinct [] v n h = (refl, tt)
snoc-IsDistinct (x ∷ xs) v n h = (
  has_snoc xs v x ∙ ground (arith, h.0, n, ==_iff x v, ==_iff v x),
  snoc-IsDistinct xs v (ground (arith, n)) h.1,
)

-- What the set of chosen outputs always is: different ones among `n`, the real one with them, and
-- no more than `k`.
record IsChosen (n k real : ℕ) (chosen : List ℕ) : Type 0 where
  distinct : IsDistinct chosen
  below : All (IsBelow n) chosen
  holds : has chosen real ≡ true
  small : length chosen ≤ k

add-IsChosen :
    (n k real : ℕ) (chosen : List ℕ) (found : Option ℕ)
    → ((i : ℕ) → found ≡ some i → i < n)
    → length chosen < k
    → IsChosen n k real chosen
    → IsChosen n k real (add chosen found)
unfolding add
add-IsChosen n k real chosen none b l h = h
add-IsChosen n k real chosen (some v) b l h = elim (Bool-cases (has chosen v)) [
  | inl e ↦ rw e h
  | inr e ↦ rw e (record {
    distinct = snoc-IsDistinct chosen v e h.distinct;
    below = All-append (IsBelow n) chosen (v ∷ []) h.below (b v refl, tt);
    holds = has_snoc chosen v real ∙ ground (arith, h.holds);
    small = omega (arith, length-append chosen (v ∷ []));
  })
]

module _ {R : Type 0} (pick : Picker → R → Option ℕ × R)
    (pick-lt : (picker : Picker) (r : R) (i : ℕ)
      → (pick picker r).0 ≡ some i
      → i < picker.spendable_count) where
  choose_ring-IsChosen :
      (picker : Picker) (k real attempts : ℕ) (chosen : List ℕ) (r : R)
      → IsChosen picker.spendable_count k real chosen
      → IsChosen picker.spendable_count k real (choose_ring pick picker k attempts chosen r).0
  unfolding choose_ring
  choose_ring-IsChosen picker k real zero chosen r h = h
  choose_ring-IsChosen picker k real (suc attempts) chosen r h =
      elim (Bool-cases (ltb (length chosen) k)) [
        | inl e ↦ rw e (
            choose_ring-IsChosen picker k real attempts (add chosen (pick picker r).0)
              (pick picker r).1
              (add-IsChosen picker.spendable_count k real chosen (pick picker r).0
                (pick-lt picker r) (ground arith) h))
        | inr e ↦ rw e h
      ]

-- The ring of a real output among `n` spendable ones.
pub record IsRing (n ring_size real : ℕ) (indices : List ℕ) (position : ℕ) : Type 0 where
  pub rising : IsRising indices
  pub below : All (IsBelow n) indices
  pub full : length indices ≡ ring_size
  pub placed : get_elem? indices position ≡ some real

ascending-IsRing :
    (n k real : ℕ) (chosen : List ℕ)
    → IsChosen n k real chosen
    → k ≤ length chosen
    → IsRing n k real (ascending chosen) (index_of real (ascending chosen))
ascending-IsRing n k real chosen h full = record {
  rising = ascending-IsRising chosen h.distinct;
  below = ascending-All (IsBelow n) chosen h.below;
  full = omega (arith, length-ascending chosen, h.small);
  placed = get_elem?-index_of real (ascending chosen) (has-ascending real chosen ∙ h.holds);
}

pick_one-lt :
    {R : Type 0} (draw_back : ℕ → ℕ → R → ℕ × R) (draw_in_block : ℕ → R → ℕ × R) (picker : Picker)
    (r : R) (i : ℕ)
    → (pick_one draw_back draw_in_block picker r).0 ≡ some i
    → i < picker.spendable_count
unfolding pick_one
pick_one-lt draw_back draw_in_block picker r i e = ground arith

real_alone : (n k real : ℕ) → real < n → 1 ≤ k → IsChosen n k real (real ∷ [])
unfolding has
real_alone n k real l one = record {
  distinct = (refl, tt);
  below = (l, tt);
  holds = ground arith;
  small = one;
}

-- Where a ring of one member at least is asked for, and whatever the draws: a ring that is returned
-- has as many outputs as asked for, all spendable, in strictly rising order, and the real output
-- stands at the position that is reported.
pub select_ring-IsRing :
    {R : Type 0} (draw_back : ℕ → ℕ → R → ℕ × R) (draw_in_block : ℕ → R → ℕ × R) (picker : Picker)
    (real ring_size : ℕ) (r : R) (indices : List ℕ) (position : ℕ)
    → 1 ≤ ring_size
    → (select_ring (pick_one draw_back draw_in_block) picker real ring_size r).0
      ≡ ring indices position
    → IsRing picker.spendable_count ring_size real indices position
unfolding select_ring
select_ring-IsRing draw_back draw_in_block picker real ring_size r indices position one e =
    elim (Bool-cases (leb picker.spendable_count real)) [
      | inl late ↦ let q = rw late at e in cc
      | inr early ↦
          let chosen =
            (choose_ring (pick_one draw_back draw_in_block) picker ring_size (ring_size * 400)
              (real ∷ []) r).0 in
          let h =
            choose_ring-IsChosen (pick_one draw_back draw_in_block)
              (pick_one-lt draw_back draw_in_block) picker ring_size real (ring_size * 400)
              (real ∷ []) r (real_alone picker.spendable_count ring_size real (ground arith) one) in
          let full : ring_size ≤ length chosen = ground arith in
          let same : indices ≡ ascending chosen = ground arith in
          let place : position ≡ index_of real (ascending chosen) = ground arith in
          rw (same, place) (ascending-IsRing picker.spendable_count ring_size real chosen h full)
    ]
