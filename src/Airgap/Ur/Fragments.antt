-- ===== src/Airgap/Ur/Fragments.antt =====
-- src/airgap/ur.ts: how a message is cut into fragments.
use labyrinth_vault.Prelude.{
  ℕ, zero, suc, ◌+◌, ◌-◌, ◌≤◌, ◌<◌, ◌≡◌, refl, sym, ◌∙◌, ap, arith, ◌++◌, append_assoc, append-nil,
  leb, List, [], ◌∷◌, some, length, length-append, length-take, length-drop, take, drop,
  take-append-drop, take_all, drop_all, take-append, get_elem?, All, Bool-cases, inl, inr,
}
use native.Mathlib.Nat.{div-lt_iff_lt-mul}
use labyrinth_vault.Airgap.Fountain.{zeros}
use labyrinth_vault.Airgap.Fountain.Laws.{length-zeros}
use labyrinth_vault.Airgap.Ur.{
  ceil_div, fragment_length_from, nominal_fragment_length, padded, fragments_from, or_blank,
  partition,
}

fragment_length_from_le :
    (left count len limit last : ℕ)
    → 1 ≤ count
    → 10 ≤ limit
    → 0 < left
    → count + left ≡ ceil_div len 10 + 1
    → fragment_length_from left count len limit last ≤ limit
unfolding fragment_length_from
fragment_length_from_le zero count len limit last h k p e = absurd (omega arith)
fragment_length_from_le (suc zero) count len limit last h k p e =
    (let s = div-lt_iff_lt-mul {x = len + count - 1} {y = 11} h in
      let t : ceil_div len count < 11 = s.1 (omega arith) in ground (arith, t))
fragment_length_from_le (suc (suc left)) count len limit last h k p e =
    ground (arith, fragment_length_from_le (suc left) (count + 1) len limit)

length-padded : (n : ℕ) (b : List ℕ) → length b ≤ n → length (padded n b) ≡ n
unfolding padded
length-padded n b h =
    omega (arith, length-append b (zeros (n - length b)), length-zeros (n - length b))

abbrev pub IsLong : ℕ → List ℕ → Type 0
IsLong n f = length f ≡ n

fragments_from-IsLong :
    (fuel : ℕ) (message : List ℕ) (n : ℕ) → All (IsLong n) (fragments_from fuel message n)
unfolding fragments_from
fragments_from-IsLong zero message n = tt
fragments_from-IsLong (suc fuel) [] n = tt
fragments_from-IsLong (suc fuel) (b ∷ message) n = (
  length-padded n (take n (b ∷ message)) (omega (arith, length-take n (b ∷ message))),
  fragments_from-IsLong fuel (drop n (b ∷ message)) n,
)

pub partition-IsLong : (message : List ℕ) (n : ℕ) → All (IsLong n) (partition message n)
unfolding partition
partition-IsLong message n =
    go (fragments_from (length message) message n)
      (fragments_from-IsLong (length message) message n)
  where
    go : (fs : List (List ℕ)) → All (IsLong n) fs → All (IsLong n) (or_blank fs n)
    go [] h = (length-zeros n, tt)
    go (f ∷ fs) h = h

unfoldable pub concat : List (List ℕ) → List ℕ
concat [] = []
concat (f ∷ fs) = f ++ concat fs

padded_lem : (n : ℕ) (b : List ℕ) → padded n b ≡ b ++ zeros (n - length b)
unfolding padded
padded_lem n b = refl

padded_full : (n : ℕ) (b : List ℕ) → length b ≡ n → padded n b ≡ b
unfolding padded zeros
padded_full n b h = (let e : n - length b ≡ 0 = omega (arith, h) in rw e (append-nil b))

fragments_from-nil : (fuel n : ℕ) → fragments_from fuel [] n ≡ []
unfolding fragments_from
fragments_from-nil zero n = refl
fragments_from-nil (suc fuel) n = refl

-- The join of the fragments is the message and then padding.
fragments_from_join :
    (fuel : ℕ) (message : List ℕ) (n : ℕ)
    → 1 ≤ n
    → length message ≤ fuel
    → (k : ℕ) × (k ≤ n) × (concat (fragments_from fuel message n) ≡ message ++ zeros k)
unfolding fragments_from concat zeros
fragments_from_join zero [] n h l = (0, omega arith, refl)
fragments_from_join zero (b ∷ message) n h l = absurd (omega arith)
fragments_from_join (suc fuel) [] n h l = (0, omega arith, refl)
fragments_from_join (suc fuel) (b ∷ message) n h l =
    elim (Bool-cases (leb (length (b ∷ message)) n)) [
      | inl e ↦ (
        n - length (b ∷ message),
        omega arith,
        rw
            (
              take_all n (b ∷ message) (ground arith),
              drop_all n (b ∷ message) (ground arith),
              fragments_from-nil fuel n,
            )
            (append-nil (padded n (b ∷ message)) ∙ padded_lem n (b ∷ message)),
      )
      | inr e ↦
          let (k, small, q) =
            fragments_from_join fuel (drop n (b ∷ message)) n h
              (omega (arith, length-drop n (b ∷ message))) in
          (
            k,
            small,
            ap (λ t. t ++ concat (fragments_from fuel (drop n (b ∷ message)) n))
                  (padded_full n (take n (b ∷ message))
                    (ground (arith, length-take n (b ∷ message))))
                ∙ ap (λ t. take n (b ∷ message) ++ t) q
                ∙ sym (append_assoc (take n (b ∷ message)) (drop n (b ∷ message)) (zeros k))
                ∙ ap (λ t. t ++ zeros k) (take-append-drop n (b ∷ message)),
          )
    ]

-- The join of all fragments, a blank one of an empty message included.
concat-partition :
    (message : List ℕ) (n : ℕ)
    → 1 ≤ n
    → (k : ℕ) × (k ≤ n) × (concat (partition message n) ≡ message ++ zeros k)
unfolding partition concat
concat-partition message n h =
    let (k, small, q) = fragments_from_join (length message) message n h (omega arith) in
    go (fragments_from (length message) message n) message k small q
  where
    go :
        (fs : List (List ℕ)) (m : List ℕ) (k : ℕ)
        → k ≤ n
        → concat fs ≡ m ++ zeros k
        → (k : ℕ) × (k ≤ n) × (concat (or_blank fs n) ≡ m ++ zeros k)
    go [] [] k s q = (n, omega arith, append-nil (zeros n))
    go [] (x ∷ m) k s q = cc
    go (f ∷ fs) m k s q = (k, s, q)

-- The front of the join is the message.
pub take-concat-partition :
    (message : List ℕ) (n : ℕ)
    → 1 ≤ n
    → take (length message) (concat (partition message n)) ≡ message
take-concat-partition message n h =
    let (k, small, q) = concat-partition message n h in rw q (take-append message (zeros k))

-- The fragment with a number.
unfoldable pub fragment_at : List (List ℕ) → ℕ → List ℕ
fragment_at [] i = []
fragment_at (f ∷ fs) zero = f
fragment_at (f ∷ fs) (suc i) = fragment_at fs i

pub get_elem?-fragment_at :
    (fs : List (List ℕ)) (i : ℕ) → i < length fs → get_elem? fs i ≡ some (fragment_at fs i)
unfolding fragment_at
get_elem?-fragment_at [] i h = absurd (omega arith)
get_elem?-fragment_at (f ∷ fs) zero h = refl
get_elem?-fragment_at (f ∷ fs) (suc i) h = get_elem?-fragment_at fs i (omega arith)

pub length-fragment_at :
    (fs : List (List ℕ)) (n i : ℕ)
    → All (IsLong n) fs
    → i < length fs
    → length (fragment_at fs i) ≡ n
unfolding fragment_at
length-fragment_at [] n i h k = absurd (omega arith)
length-fragment_at (f ∷ fs) n zero h k = h.0
length-fragment_at (f ∷ fs) n (suc i) h k = length-fragment_at fs n i h.1 (omega arith)

pub partition-pos : (message : List ℕ) (n : ℕ) → 0 < length (partition message n)
unfolding partition or_blank
partition-pos message n = go (fragments_from (length message) message n)
  where
    go : (fs : List (List ℕ)) → 0 < length (or_blank fs n)
    go [] = omega arith
    go (f ∷ fs) = omega arith

nominal_fragment_length_bounds :
    (len limit : ℕ)
    → 10 ≤ limit
    → (1 ≤ nominal_fragment_length len limit) × (nominal_fragment_length len limit ≤ limit)
unfolding nominal_fragment_length
nominal_fragment_length_bounds zero limit h = ground (arith, h)
nominal_fragment_length_bounds (suc len) limit h =
    let q =
      fragment_length_from_le (ceil_div (suc len) 10) 1 (suc len) limit (suc len) (omega arith) h
        (omega arith) (omega arith) in
    (omega arith, omega (arith, q, h))

-- A message cut for a limit of ten bytes or more: every fragment has the one length, which is within
-- the limit, and the fragments in order are the message and then only zeros, no more than one
-- fragment of them.
pub partition-nominal_fragment_length :
    (message : List ℕ) (limit : ℕ)
    → 10 ≤ limit
    → let n = nominal_fragment_length (length message) limit in
      All (IsLong n) (partition message n)
      × (n ≤ limit)
      × (k : ℕ) × (k ≤ n)
      × (concat (partition message n) ≡ message ++ zeros k)
partition-nominal_fragment_length message limit h =
    let n = nominal_fragment_length (length message) limit in
    let (low, high) = nominal_fragment_length_bounds (length message) limit h in
    let (k, small, join) = concat-partition message n low in
    (partition-IsLong message n, high, k, small, join)
