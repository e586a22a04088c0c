-- ===== src/Airgap/Scanner/Runs.antt =====
-- Concrete runs of scanner.ts, and the theorems at concrete inputs.
use labyrinth_vault.Prelude.{
  ℕ, ◌-◌, ◌≡◌, refl, List, [], ◌∷◌, some, codes, trim, Text, ◌>>=◌, split_on,
}
use labyrinth_vault.Prelude.Numerals.{number_of}
use labyrinth_vault.Airgap.Crc.{crc32}
use labyrinth_vault.Airgap.Bytewords.{bytewords_decode, minimal_index}
use labyrinth_vault.Airgap.Cbor.{cbor_decode}
use labyrinth_vault.Airgap.Envelope.{Part, psbt, parse_part, fresh}
use labyrinth_vault.Airgap.Ur.{UrPart, frame, parse_ur, is_ur_type}
use labyrinth_vault.Airgap.Ur.Collector.{empty}
use labyrinth_vault.Airgap.Scanner.{new_scanner}
use labyrinth_vault.Airgap.Scanner.Routing.{own_after, ur_after, scan, scan-own_after-ur_after}

abbrev own_text : Text
own_text = codes "LV1:PSBT:1:1:a505df1b:AE"

abbrev own_part : Part
own_part = record {
  version = 1;
  kind = psbt;
  index = 1;
  total = 1;
  digest = codes "a505df1b";
  body = codes "AE";
}

abbrev ur_text : Text
ur_text = codes "UR:BYTES/2-2/LPAOAOBECYNYNLPRGLFDCXJZIHJYJYIHJPJKDWDKBYSF"

abbrev ur_part : UrPart
ur_part =
    frame (codes "bytes") 2 2 16 2593763918 (32 ∷ 108 ∷ 101 ∷ 116 ∷ 116 ∷ 101 ∷ 114 ∷ 115 ∷ [])

own_reads : parse_part own_text ≡ some own_part
unfolding parse_part trim number_of
own_reads = refl

ur_reads : parse_ur ur_text ≡ some ur_part
unfolding parse_ur bytewords_decode minimal_index cbor_decode number_of crc32 trim split_on
    is_ur_type
ur_reads = refl

-- The first pass of any message.
abbrev in_order : ℕ → ℕ → ℕ → List ℕ
in_order seq_num n checksum = (seq_num - 1) ∷ []

scan-own_after-ur_after_example : scan in_order new_scanner (ur_text ∷ own_text ∷ ur_text ∷ []) ≡ (
    ur_after in_order empty (ur_text ∷ own_text ∷ ur_text ∷ []) >>= λ c.
    some (record { own = own_after fresh (ur_text ∷ own_text ∷ ur_text ∷ []); ur = c }))
scan-own_after-ur_after_example =
    scan-own_after-ur_after in_order new_scanner (ur_text ∷ own_text ∷ ur_text ∷ [])
