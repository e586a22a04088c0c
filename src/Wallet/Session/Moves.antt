-- ===== src/Wallet/Session/Moves.antt =====
-- session.ts: what one event can do to the state.
use labyrinth_vault.Prelude.{
  Bool, true, false, ◌≡◌, ◌≢◌, refl, Option, none, some, ◌⊎◌, arith, ◌&&◌, ◌||◌, not,
}
use labyrinth_vault.Wallet.Model.{Verified}
use labyrinth_vault.Wallet.Session.{
  Step, compose, review, transmit, signing, awaiting, receive, ready, broadcasting, done, mismatch,
  failed, SessionState, SessionEvent, reduce, is_verified, sign_here, returned, reset,
}

pub reduce_mismatch :
    {T : Type 0} (s : SessionState T) (e : SessionEvent T)
    → s.step ≡ mismatch
    → e ≢ reset
    → reduce s e ≡ s
unfolding reduce
reduce_mismatch s reset h n = absurd (n refl)
reduce_mismatch s e h n = rw h refl

-- Does the event ask for a signature of this device, for an account that it may sign for?
abbrev pub signs : {T : Type 0} → SessionEvent T → Bool
signs (sign_here b at) = b
signs _ = false

pub reduce_signing :
    {T : Type 0} (s : SessionState T) (e : SessionEvent T)
    → (reduce s e).step ≡ signing
    → (s.step ≡ signing) ⊎ (signs e ≡ true)
unfolding reduce
reduce_signing s e h = ground arith

abbrev pub has {ℓ} : {A : Type ℓ} → Option A → Bool
has none = false
has (some a) = true

-- What every step may rely on: a draft from the review on, no verdict before one was taken, and in
-- the steps behind the check the verdict that it passed.
abbrev pub is_sound : {T : Type 0} → SessionState T → Bool
is_sound s = elim (s.step) [
  | compose ↦ not (has s.draft) && not (has s.account) && not (has s.verified)
  | review ↦ has s.draft && not (has s.verified)
  | transmit ↦ has s.draft && not (has s.verified)
  | signing ↦ has s.draft && not (has s.verified)
  | awaiting ↦ has s.draft && not (has s.verified)
  | receive ↦ has s.draft && not (has s.verified)
  | ready ↦ has s.draft && is_verified s.verified
  | broadcasting ↦ has s.draft && is_verified s.verified
  | done ↦ has s.draft && is_verified s.verified
  | mismatch ↦ has s.draft && has s.verified && not (is_verified s.verified)
  | failed ↦ not (has s.verified) || (has s.draft && is_verified s.verified)
]

pub reduce_sound :
    {T : Type 0} (s : SessionState T) (e : SessionEvent T)
    → is_sound s ≡ true
    → is_sound (reduce s e) ≡ true
unfolding reduce
reduce_sound s e h = ground arith

-- The steps in which a signature is taken.
abbrev pub takes : Step → Bool
takes receive = true
takes signing = true
takes _ = false

-- The verdict that an event brings.
abbrev pub verdict_of : {T : Type 0} → SessionEvent T → Option Verified
verdict_of (returned v at) = some v
verdict_of _ = none

abbrev KeepsIntent : {T : Type 0} → SessionState T → SessionState T → Type 0
KeepsIntent s t = (t.draft ≡ s.draft) × (t.account ≡ s.account)

-- A verdict that passed was there before the event, or the event brought it to a step that takes
-- one. Either way the draft and the account stay.
pub reduce_verified :
    {T : Type 0} (s : SessionState T) (e : SessionEvent T)
    → is_sound s ≡ true
    → is_verified (reduce s e).verified ≡ true
    → (((is_verified s.verified ≡ true) × ((reduce s e).verified ≡ s.verified))
        ⊎ ((takes s.step ≡ true) × ((reduce s e).verified ≡ verdict_of e)))
      × KeepsIntent s (reduce s e)
unfolding reduce
reduce_verified s e h k = ground arith
