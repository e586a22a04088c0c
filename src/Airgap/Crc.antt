-- ===== src/Airgap/Crc.antt =====
-- src/airgap/envelope.ts, the digest: CRC-32 over a table of 256 entries, and its text.
pub mod Change
use labyrinth_vault.Prelude.{
  ℕ, zero, suc, ◌-◌, ◌/◌, ◌+◌, bit_and, bit_xor, List, [], ◌∷◌, ◌==◌, if◌then◌else◌, Text,
}
use labyrinth_vault.Prelude.Numerals.{to_string, pad_start}
use labyrinth_vault.Airgap.Base32.{shr}

-- One round of `for (k = 0; k < 8; k++)`.
round : ℕ → ℕ
round c = if bit_and c 1 == 1 then bit_xor 0xedb88320 (shr c 1) else shr c 1

rounds : ℕ → ℕ → ℕ
rounds zero c = c
rounds (suc k) c = rounds k (round c)

-- `crcTable[n]`. The table is filled on the first call and never changed.
crc_table : ℕ → ℕ
unfolding rounds round
crc_table n = rounds 8 n

crc_step : ℕ → ℕ → ℕ
crc_step crc byte = bit_xor (crc_table (bit_and (bit_xor crc byte) 0xff)) (shr crc 8)

crc_from : ℕ → List ℕ → ℕ
crc_from crc [] = crc
crc_from crc (byte ∷ bytes) = crc_from (crc_step crc byte) bytes

unfoldable pub crc32 : List ℕ → ℕ
unfolding crc_from crc_step crc_table
crc32 bytes = bit_xor (crc_from 0xffffffff bytes) 0xffffffff

unfoldable pub digest_of : List ℕ → Text
unfolding crc32
digest_of payload = pad_start 8 b'0' (to_string 16 (crc32 payload))
