-- ===== src/Airgap/Base43/Runs.antt =====
-- Concrete runs of base43.ts, and the theorems at concrete inputs.
use labyrinth_vault.Prelude.{ℕ, ◌≡◌, refl, arith, List, [], ◌∷◌, none, some, codes, all}
use labyrinth_vault.Airgap.Envelope.Parts.{is_some}
use labyrinth_vault.Airgap.Base43.{base43_encode, base43_decode, base43_frame}
use labyrinth_vault.Airgap.Base43.RoundTrip.{base43_decode-base43_encode}
use labyrinth_vault.Airgap.Base43.Refusal.{is_known, base43_decode-is_known}

abbrev sample : List ℕ
sample = 0 ∷ 0 ∷ 7 ∷ 255 ∷ []

encode_run : base43_encode sample ≡ codes "0014Q"
unfolding base43_encode
encode_run = refl

unknown_character : base43_decode (codes "0a") ≡ none
unfolding base43_decode
unknown_character = refl

empty_frame : base43_frame [] ≡ some ([] ∷ [])
unfolding base43_frame base43_encode
empty_frame = refl

base43_decode-base43_encode_example : base43_decode (base43_encode sample) ≡ some sample
base43_decode-base43_encode_example = base43_decode-base43_encode sample (omega arith)

base43_decode-is_known_example : is_some (base43_decode (codes "0A!")) ≡ all is_known (codes "0A!")
base43_decode-is_known_example = base43_decode-is_known (codes "0A!")
