-- ===== src/Wallet/Change/Fresh.antt =====
-- wallet/src/core/build.ts, nextChangeIndex, and what the scan has seen.
use labyrinth_vault.Prelude.{
  ℕ, ◌+◌, ◌≤◌, ◌<◌, ◌≡◌, arith, true, List, [], ◌∷◌, none, some, All, All-weaken,
}
use labyrinth_vault.Prelude.Integers.{ℤ}
use labyrinth_vault.Wallet.Change.{
  Scanned, Seen, change_index, see, see_all, base_of, at_least_zero, next_change_index,
}

see-past_used : (s : Seen) (e : Scanned) → s.past_used ≤ (see s e).past_used
unfolding see
see-past_used s e = ground arith

see_all-past_used : (s : Seen) (es : List Scanned) → s.past_used ≤ (see_all s es).past_used
unfolding see_all
see_all-past_used s [] = omega arith
see_all-past_used s (e ∷ es) = omega (arith, see-past_used s e, see_all-past_used (see s e) es)

see-used :
    (s : Seen) (e : Scanned) (i : ℕ)
    → change_index e ≡ some i
    → e.used ≡ true
    → i < (see s e).past_used
unfolding see
see-used s e i h u = ground arith

see_all-used :
    (s : Seen) (es : List Scanned)
    → All (λ e. (i : ℕ) → change_index e ≡ some i → e.used ≡ true → i < (see_all s es).past_used) es
unfolding see_all
see_all-used s [] = tt
see_all-used s (e ∷ es) = (
  λ i h u. omega (arith, see-used s e i h u, see_all-past_used (see s e) es),
  see_all-used (see s e) es,
)

base-past_used : (s : Seen) → s.past_used ≤ base_of s
unfolding base_of
base-past_used s = ground arith

-- The index chosen for change is above the index of every change address that the scan marks as
-- used, whatever the order of the scan and the number of drafts since.
pub next_change_index-lt :
    (addresses : List Scanned) (ahead : ℤ)
    → All
        (λ e.
          (i : ℕ) → change_index e ≡ some i → e.used ≡ true → i < next_change_index addresses ahead)
        addresses
unfolding next_change_index
next_change_index-lt addresses ahead =
    let s = see_all (record { past_used = 0; first_unused = none }) addresses in
    All-weaken
      {Q = λ e.
        (i : ℕ) → change_index e ≡ some i → e.used ≡ true → i < base_of s + at_least_zero ahead}
      (λ e f i h u. omega (arith, f i h u, base-past_used s)) addresses
      (see_all-used (record { past_used = 0; first_unused = none }) addresses)
