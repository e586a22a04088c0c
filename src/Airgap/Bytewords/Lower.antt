-- ===== src/Airgap/Bytewords/Lower.antt =====
-- bytewords.ts, the first step of reading: white space at the ends goes, and letters become small.
use labyrinth_vault.Prelude.{
  ℕ, ◌+◌, ◌≤◌, ◌<◌, ◌≡◌, ◌≢◌, ◌++◌, ◌||◌, ◌==◌, true, Bool-cases, ◌⊎◌, inl, inr, refl, ap, ◌∙◌,
  false, [], ◌∷◌, All, All-weaken, IsInk-of_range, trim, trim_of_ink, is_upper, Text, arith,
}
use labyrinth_vault.Airgap.Bytewords.{to_lower, lower_one}

-- Characters that neither trimming nor lower case changes.
pub record IsPlain (c : ℕ) : Type 0 where
  pub low : 33 ≤ c
  pub high : c < 127
  pub small : is_upper c ≡ false

lower_plain : (c : ℕ) → IsPlain c → lower_one c ≡ c ∷ []
unfolding lower_one
lower_plain c h = ground (arith, h.low, h.high, h.small)

to_lower_plain : (s : Text) → All IsPlain s → to_lower s ≡ s
unfolding to_lower
to_lower_plain [] h = refl
to_lower_plain (c ∷ s) h = rw (lower_plain c h.0, to_lower_plain s h.1) refl

pub clean_plain : (s : Text) → All IsPlain s → to_lower (trim s) ≡ s
clean_plain s h =
    ap to_lower (trim_of_ink s (All-weaken (λ c p. IsInk-of_range c p.low p.high) s h))
    ∙ to_lower_plain s h

-- A character whose small form begins with a given ASCII letter or mark, other than k and i.
lower_head :
    (c x : ℕ) (s t : Text)
    → x < 127
    → x ≢ b'k'
    → x ≢ b'i'
    → lower_one c ++ s ≡ x ∷ t
    → (s ≡ t) × ((c ≡ x) ⊎ ((is_upper c ≡ true) × (c + 32 ≡ x)))
unfolding lower_one
lower_head c x s t h k i e = elim (Bool-cases (is_upper c)) [
  | inl u ↦ let q : (c + 32 ≡ x) × (s ≡ t) = ground arith in (q.1, inr (u, q.0))
  | inr u ↦ elim (Bool-cases (c == 0x212a)) [
    | inl v ↦ absurd (k (ground arith))
    | inr v ↦ elim (Bool-cases (c == 0x130)) [
      | inl w ↦ absurd (i (ground arith))
      | inr w ↦ let q : (c ≡ x) × (s ≡ t) = ground arith in (q.1, inl q.0)
    ]
  ]
]

-- The three characters in front of a UR, before they are made small.
pub record IsUrPrefix (s : Text) : Type 0 where
  pub first : ℕ
  pub second : ℕ
  pub rest : Text
  pub form : s ≡ first ∷ second ∷ b':' ∷ rest
  pub is_u : (first == b'u' || first == b'U') ≡ true
  pub is_r : (second == b'r' || second == b'R') ≡ true

colon_first : (s t : Text) → to_lower s ≡ b':' ∷ t → (rest : Text) × (s ≡ b':' ∷ rest)
unfolding to_lower
colon_first [] t e = cc
colon_first (a ∷ s) t e =
    let (e1, p) = lower_head a b':' (to_lower s) t (omega arith) (omega arith) (omega arith) e in
    let here : a ≡ b':' = ground arith in (s, rw here refl)

r_first :
    (s t : Text)
    → to_lower s ≡ b'r' ∷ t
    → (a : ℕ) × (rest : Text) × (s ≡ a ∷ rest)
      × (to_lower rest ≡ t)
      × ((a == b'r' || a == b'R') ≡ true)
unfolding to_lower
r_first [] t e = cc
r_first (a ∷ s) t e =
    let (e1, p) = lower_head a b'r' (to_lower s) t (omega arith) (omega arith) (omega arith) e in
    (a, s, refl, e1, ground arith)

u_first :
    (s t : Text)
    → to_lower s ≡ b'u' ∷ t
    → (a : ℕ) × (rest : Text) × (s ≡ a ∷ rest)
      × (to_lower rest ≡ t)
      × ((a == b'u' || a == b'U') ≡ true)
unfolding to_lower
u_first [] t e = cc
u_first (a ∷ s) t e =
    let (e1, p) = lower_head a b'u' (to_lower s) t (omega arith) (omega arith) (omega arith) e in
    (a, s, refl, e1, ground arith)

pub to_lower-IsUrPrefix : (s t : Text) → to_lower s ≡ b'u' ∷ b'r' ∷ b':' ∷ t → IsUrPrefix s
to_lower-IsUrPrefix s t e =
    let (a, s1, e1, f1, p) = u_first s (b'r' ∷ b':' ∷ t) e in
    let (b, s2, e2, f2, q) = r_first s1 (b':' ∷ t) f1 in
    let (rest, e3) = colon_first s2 t f2 in
    record {
      first = a;
      second = b;
      rest = rest;
      form = e1 ∙ ap (λ x. a ∷ x) (e2 ∙ ap (λ x. b ∷ x) e3);
      is_u = p;
      is_r = q;
    }
