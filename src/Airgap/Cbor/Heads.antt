-- ===== src/Airgap/Cbor/Heads.antt =====
-- src/airgap/cbor.ts: the head of an item.
use labyrinth_vault.Prelude.{
  ℕ, ◌+◌, ◌*◌, ◌/◌, ◌%◌, ◌^◌, ◌≤◌, ◌<◌, ◌≡◌, refl, sym, ap, ◌∙◌, ◌++◌, List, [], ◌∷◌, Option, some,
  if◌then◌else◌, ltb, ◌==◌, ◌>>=◌, ◌>>◌, guard, bit_or, arith, ◌⊎◌, inl, inr, All, IsByte,
}
use mathlib.Core.Path.{subst}
use labyrinth_vault.Prelude.Bits.{bit_or_sum, bit_and_low}
use labyrinth_vault.Airgap.Cbor.{head, byte_at, read_head, take_number, width_of, minimal_width}

-- A head by its size.
tag : ℕ → ℕ → ℕ
tag major info = bit_or (major * 2 ^ 5) info

tag-value : (major info : ℕ) → info < 32 → tag major info ≡ major * 32 + info
unfolding tag
tag-value major info h = bit_or_sum 5 major info h

byte-value : (shift n : ℕ) → n < 2 ^ 32 → byte_at shift n ≡ n / 2 ^ shift % 256
unfolding byte_at
byte-value shift n h =
    bit_and_low 8 (n % 2 ^ 32 / 2 ^ shift) ∙ ap (λ x. x / 2 ^ shift % 256) (omega (arith, h))

pub head_small : (major n : ℕ) → n < 24 → head major n ≡ (major * 32 + n) ∷ []
unfolding head tag
head_small major n h = let q = tag-value major n (omega (arith, h)) in ground arith

pub head_one : (major n : ℕ) → 24 ≤ n → n < 256 → head major n ≡ (major * 32 + 24) ∷ n ∷ []
unfolding head tag
head_one major n h k = let q = tag-value major 24 (omega arith) in ground arith

pub head_two :
    (major n : ℕ)
    → 256 ≤ n
    → n < 65536
    → head major n ≡ (major * 32 + 25) ∷ (n / 256) ∷ (n % 256) ∷ []
unfolding head tag
head_two major n h k =
    let q = tag-value major 25 (omega arith) in
    let a = byte-value 8 n (omega (arith, k)) in
    let b = byte-value 0 n (omega (arith, k)) in ground arith

pub head_four :
    (major n : ℕ)
    → 65536 ≤ n
    → n < 2 ^ 32
    → head major n
      ≡ (major * 32 + 26) ∷ (n / 2 ^ 24) ∷ (n / 2 ^ 16 % 256) ∷ (n / 256 % 256) ∷ (n % 256) ∷ []
unfolding head tag
head_four major n h k =
    let q = tag-value major 26 (omega arith) in
    let a = byte-value 24 n k in
    let b = byte-value 16 n k in
    let c = byte-value 8 n k in let d = byte-value 0 n k in ground arith

-- The head of an initial byte, by its quotient and its remainder.
read_wide : ℕ → ℕ → List ℕ → Option (ℕ × (ℕ × List ℕ))
read_wide major info rest = if ltb info 24 then some (major, (info, rest)) else do
  guard (ltb 0 (width_of info))
  (n, after) ← take_number (width_of info) 0 rest
  guard (width_of info == minimal_width n)
  some (major, (n, after))

read_head-split : (x : ℕ) (rest : List ℕ) → read_head (x ∷ rest) ≡ read_wide (x / 32) (x % 32) rest
unfolding read_head read_wide
read_head-split x rest = rw (bit_and_low 5 x) refl

read_head-tag :
    (major info : ℕ) (rest : List ℕ)
    → info < 32
    → read_head ((major * 32 + info) ∷ rest) ≡ read_wide major info rest
read_head-tag major info rest h =
    let q : (major * 32 + info) / 32 ≡ major = omega (arith, h) in
    let r : (major * 32 + info) % 32 ≡ info = omega (arith, h) in
    rw (read_head-split (major * 32 + info) rest, q, r) refl

-- What is written is read back, and the bytes behind it are left.
pub read_head-head :
    (major n : ℕ) (rest : List ℕ)
    → n < 2 ^ 32
    → read_head (head major n ++ rest) ≡ some (major, (n, rest))
unfolding read_wide take_number
read_head-head major n rest h = elim (four_sizes n) [
  | inl a ↦ rw (head_small major n a, read_head-tag major n rest (omega (arith, a))) (ground arith)
  | inr (inl (a, b)) ↦
      rw (head_one major n a b, read_head-tag major 24 (n ∷ rest) (omega arith)) (ground arith)
  | inr (inr (inl (a, b))) ↦
      rw (head_two major n a b, read_head-tag major 25 ((n / 256) ∷ (n % 256) ∷ rest) (omega arith))
        (let e : (0 + n / 256) * 256 + n % 256 ≡ n = omega arith in rw e (ground arith))
  | inr (inr (inr a)) ↦
      rw
        (
          head_four major n a h,
          read_head-tag major 26
              ((n / 2 ^ 24) ∷ (n / 2 ^ 16 % 256) ∷ (n / 256 % 256) ∷ (n % 256) ∷ rest)
              (omega arith),
        )
        (let e : (((0 + n / 2 ^ 24) * 256 + n / 2 ^ 16 % 256) * 256 + n / 256 % 256) * 256 + n % 256
              ≡ n =
            omega (arith, h) in
          rw e (ground arith))
]
  where
    four_sizes :
        (n : ℕ) → (n < 24) ⊎ (((24 ≤ n) × (n < 256)) ⊎ (((256 ≤ n) × (n < 65536)) ⊎ (65536 ≤ n)))
    four_sizes n = ground arith

-- What a head that was read says of the bytes it was read from.
abbrev Written : ℕ → ℕ → List ℕ → ℕ × (ℕ × List ℕ) → Type 0
Written major info bs r =
    (r.0 ≡ major)
    × ((major * 32 + info) ∷ bs ≡ head major r.1.0 ++ r.1.1)
    × (r.1.0 < 2 ^ 32)
    × All IsByte r.1.1

Written-small :
    (major info : ℕ) (bs : List ℕ) (r : ℕ × (ℕ × List ℕ))
    → info < 24
    → All IsByte bs
    → read_wide major info bs ≡ some r
    → Written major info bs r
unfolding read_wide
Written-small major info bs r k h e =
    let q : r ≡ (major, (info, bs)) = ground arith in
    rw q (refl, rw (head_small major info k) refl, omega (arith, k), h)

Written-one :
    (major : ℕ) (bs : List ℕ) (r : ℕ × (ℕ × List ℕ))
    → All IsByte bs
    → read_wide major 24 bs ≡ some r
    → Written major 24 bs r
unfolding read_wide take_number
Written-one major [] r h e = cc
Written-one major (x ∷ bs) r (b, h) e =
    let q : (24 ≤ x) × (r ≡ (major, (x, bs))) = ground arith in
    rw q.1 (refl, rw (head_one major x q.0 b) refl, omega (arith, b), h)

Written-two :
    (major : ℕ) (bs : List ℕ) (r : ℕ × (ℕ × List ℕ))
    → All IsByte bs
    → read_wide major 25 bs ≡ some r
    → Written major 25 bs r
unfolding read_wide take_number
Written-two major [] r h e = cc
Written-two major (x ∷ []) r h e = cc
Written-two major (x ∷ y ∷ bs) r (b, (c, h)) e =
    let n = x * 256 + y in
    let q : (256 ≤ n) × (r ≡ (major, (n, bs))) = ground arith in
    let hi : n / 256 ≡ x = omega (arith, c) in
    let lo : n % 256 ≡ y = omega (arith, c) in
    rw q.1
      (refl, rw (head_two major n q.0 (omega (arith, b, c)), hi, lo) refl, omega (arith, b, c), h)

Written-four :
    (major : ℕ) (bs : List ℕ) (r : ℕ × (ℕ × List ℕ))
    → All IsByte bs
    → read_wide major 26 bs ≡ some r
    → Written major 26 bs r
unfolding read_wide take_number
Written-four major [] r h e = cc
Written-four major (x ∷ []) r h e = cc
Written-four major (x ∷ y ∷ []) r h e = cc
Written-four major (x ∷ y ∷ z ∷ []) r h e = cc
Written-four major (x ∷ y ∷ z ∷ w ∷ bs) r (b, (c, (d, (f, h)))) e =
    let n = ((x * 256 + y) * 256 + z) * 256 + w in
    let q : (65536 ≤ n) × (r ≡ (major, (n, bs))) = ground arith in
    let n1 : n / 2 ^ 24 ≡ x = omega (arith, c, d, f) in
    let n2 : n / 2 ^ 16 % 256 ≡ y = omega (arith, c, d, f) in
    let n3 : n / 256 % 256 ≡ z = omega (arith, c, d, f) in
    let n4 : n % 256 ≡ w = omega (arith, c, d, f) in
    let small : n < 2 ^ 32 = omega (arith, b, c, d, f) in
    rw q.1 (refl, rw (head_four major n q.0 small, n1, n2, n3, n4) refl, small, h)

no_width :
    (major info : ℕ) (bs : List ℕ) (r : ℕ × (ℕ × List ℕ))
    → 26 < info
    → read_wide major info bs ≡ some r
    → ⊥
unfolding read_wide
no_width major info bs r h e = ground arith

-- Only the bytes that the writer makes are read as a head.
pub head_canonical :
    (bs : List ℕ) (r : ℕ × (ℕ × List ℕ))
    → All IsByte bs
    → read_head bs ≡ some r
    → (bs ≡ head r.0 r.1.0 ++ r.1.1) × (r.1.0 < 2 ^ 32) × All IsByte r.1.1
unfolding read_head
head_canonical [] r h e = cc
head_canonical (x ∷ bs) r (b, h) e =
    let s = sym (read_head-split x bs) ∙ e in
    let (m, w, l, a) : Written (x / 32) (x % 32) bs r = elim (five_infos (x % 32)) [
      | inl k ↦ Written-small (x / 32) (x % 32) bs r k h s
      | inr (inl k) ↦
          rw k (Written-one (x / 32) bs r h (subst (λ i. read_wide (x / 32) i bs ≡ some r) k s))
      | inr (inr (inl k)) ↦
          rw k (Written-two (x / 32) bs r h (subst (λ i. read_wide (x / 32) i bs ≡ some r) k s))
      | inr (inr (inr (inl k))) ↦
          rw k (Written-four (x / 32) bs r h (subst (λ i. read_wide (x / 32) i bs ≡ some r) k s))
      | inr (inr (inr (inr k))) ↦ absurd (no_width (x / 32) (x % 32) bs r k s)
    ] in
    let whole : x / 32 * 32 + x % 32 ≡ x = omega arith in
    (rw (m) (subst (λ y. y ∷ bs ≡ head (x / 32) r.1.0 ++ r.1.1) whole w), l, a)
  where
    five_infos : (i : ℕ) → (i < 24) ⊎ ((i ≡ 24) ⊎ ((i ≡ 25) ⊎ ((i ≡ 26) ⊎ (26 < i))))
    five_infos i = ground arith
