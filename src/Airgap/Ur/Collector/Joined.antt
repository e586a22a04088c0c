-- ===== src/Airgap/Ur/Collector/Joined.antt =====
-- The join of a collector whose fragments are a message's: the message's fragments, end to end.
use labyrinth_vault.Prelude.{
  ℕ, zero, suc, ◌+◌, ◌≡◌, refl, ◌∙◌, ap, arith, ◌++◌, List, [], ◌∷◌, some, length, Option-cases,
  inl, inr,
}
use labyrinth_vault.Airgap.Ur.Fragments.{concat, fragment_at}
use labyrinth_vault.Airgap.Ur.Collector.{get_simple, join_from}

-- The fragments from number `i` on, `k` of them, end to end.
pub concat_at : List (List ℕ) → ℕ → ℕ → List ℕ
concat_at fs zero i = []
concat_at fs (suc k) i = fragment_at fs i ++ concat_at fs k (suc i)

concat_at_cons :
    (f : List ℕ) (fs : List (List ℕ)) (k i : ℕ) → concat_at (f ∷ fs) k (suc i) ≡ concat_at fs k i
unfolding concat_at fragment_at
concat_at_cons f fs zero i = refl
concat_at_cons f fs (suc k) i = ap (λ t. fragment_at fs i ++ t) (concat_at_cons f fs k (suc i))

pub concat_at_all : (fs : List (List ℕ)) → concat_at fs (length fs) 0 ≡ concat fs
unfolding concat_at concat fragment_at
concat_at_all [] = refl
concat_at_all (f ∷ fs) = ap (λ t. f ++ t) (concat_at_cons f fs (length fs) 0 ∙ concat_at_all fs)

pub join_from_lem :
    (fs : List (List ℕ)) (simple : List (ℕ × List ℕ)) (k i : ℕ) (m : List ℕ)
    → ((j : ℕ) (g : List ℕ) → get_simple j simple ≡ some g → g ≡ fragment_at fs j)
    → join_from k i simple ≡ some m
    → m ≡ concat_at fs k i
unfolding join_from concat_at
join_from_lem fs simple zero i m h e = ground arith
join_from_lem fs simple (suc k) i m h e = elim (Option-cases (get_simple i simple)) [
  | inl q ↦ ground arith
  | inr (g, q) ↦ elim (Option-cases (join_from k (i + 1) simple)) [
    | inl r ↦ ground arith
    | inr (t, r) ↦
        let same : m ≡ g ++ t = ground arith in
        let next : i + 1 ≡ suc i = omega arith in
        same
        ∙ rw (h i g q, join_from_lem fs simple k (i + 1) t h r)
            (ap (λ x. fragment_at fs i ++ concat_at fs k x) next)
  ]
]
