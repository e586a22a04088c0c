-- ===== src/Wallet/Runs/Sending.antt =====
-- Concrete runs of the send flow, and its theorems at concrete inputs.
use labyrinth_vault.Prelude.{ℕ, ◌≡◌, ◌≢◌, refl, true, List, [], ◌∷◌, none, some, codes}
use labyrinth_vault.Wallet.Model.{accepted}
use labyrinth_vault.Wallet.Session.{
  SessionState, SessionEvent, start, reduce, can_broadcast, is_verified, mismatch, signing,
  prepared, begin_transmit, handed_over, read_back, returned,
}
use labyrinth_vault.Wallet.Session.Approval.{
  run, Reach, begun, moved, Approval, can_broadcast-Approval, run_mismatch, run_signing,
}
use labyrinth_vault.Wallet.Runs.{paying_draft, verdict_of_signed}

-- A payment over the camera, with a transmission that is a number.
abbrev walk : List (SessionEvent ℕ)
walk =
    prepared paying_draft (some (codes "vault")) 1
    ∷ begin_transmit 4 2
    ∷ handed_over 3
    ∷ read_back 4
    ∷ returned (accepted verdict_of_signed) 5
    ∷ []

walk-Reach : Reach (run start walk)
walk-Reach = moved (moved (moved (moved (moved begun _) _) _) _) _

walk_ready : can_broadcast (run start walk) ≡ true
unfolding reduce can_broadcast
walk_ready = refl

can_broadcast-Approval_example :
    Approval (run start walk)
    × (is_verified (run start walk).verified ≡ true)
    × ((run start walk).draft ≢ none)
can_broadcast-Approval_example = can_broadcast-Approval (run start walk) walk-Reach walk_ready

run_signing_example : (run start walk).step ≢ signing
run_signing_example = run_signing start walk (λ e. cc) (refl, (refl, (refl, (refl, (refl, tt)))))

abbrev stopped : SessionState ℕ
stopped = record start { step = mismatch }

run_mismatch_example : run stopped walk ≡ stopped
run_mismatch_example =
    run_mismatch stopped walk refl
      ((λ e. cc), ((λ e. cc), ((λ e. cc), ((λ e. cc), ((λ e. cc), tt)))))
