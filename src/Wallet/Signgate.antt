-- ===== src/Wallet/Signgate.antt =====
-- wallet/src/core/signgate.ts, and canSignHere of keyvault.ts: may this device sign, and does it ask?
use labyrinth_vault.Prelude.{
  Bool, true, false, ◌&&◌, ◌||◌, not, Option, none, some, ◌≡◌, ◌↔◌, refl, arith, if◌then◌else◌,
}

pub data Source : Type 0 where
  vault hot : Source

unfoldable pub can_sign_here : Source → Bool
can_sign_here vault = false
can_sign_here hot = true

pub record Biometrics : Type 0 where
  pub hardware : Bool
  pub enrolled : Bool
  pub passcode : Bool

-- The sentences of a refusal.
pub data Refusal : Type 0 where
  keys_elsewhere no_passcode : Refusal

pub record Verdict : Type 0 where
  pub allow : Bool
  pub prompt : Bool
  pub reason : Option Refusal

abbrev refuse : Refusal → Verdict
refuse r = record { allow = false; prompt = false; reason = some r }

abbrev ask : Verdict
ask = record { allow = true; prompt = true; reason = none }

unfoldable pub decide : Source → Biometrics → Verdict
unfolding can_sign_here
decide source device =
    if not (can_sign_here source)
    then refuse keys_elsewhere
    else if not device.passcode
    then refuse no_passcode
    else if not device.hardware || not device.enrolled
    then ask
    else ask

unfoldable pub ever_signs_unprompted : Biometrics → Bool
unfolding decide
ever_signs_unprompted device = (decide hot device).allow && not (decide hot device).prompt

-- Signing is allowed exactly for a hot account on a device with a passcode, so never for an account
-- whose keys are in the vault; the person is asked exactly where it is allowed; a reason is missing
-- exactly there; and everSignsUnprompted is false on every device.
pub decide-allow :
    (source : Source) (device : Biometrics)
    → (((decide source device).allow ≡ true) ↔ ((source ≡ hot) × (device.passcode ≡ true)))
      × ((decide source device).prompt ≡ (decide source device).allow)
      × (((decide source device).reason ≡ none) ↔ ((decide source device).allow ≡ true))
      × (ever_signs_unprompted device ≡ false)
unfolding decide ever_signs_unprompted can_sign_here
decide-allow vault device = (((λ h. cc), (λ h. cc)), refl, ((λ h. cc), (λ h. cc)), ground arith)
decide-allow hot device = (
  ((λ h. (refl, ground arith)), (λ h. ground arith)),
  ground arith,
  ((λ h. ground arith), (λ h. ground arith)),
  ground arith,
)
