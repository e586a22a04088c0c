-- ===== src/Keys/Varint.antt =====
-- src/keys/monerowire.ts, varintBytes.
pub mod Step
use labyrinth_vault.Prelude.{
  ℕ, zero, suc, ◌/◌, ◌^◌, bit_and, bit_or, List, [], ◌∷◌, if◌then◌else◌, leb,
}

-- The loop of `varintBytes`, with as much fuel as the number.
pub varint_from : ℕ → ℕ → List ℕ
varint_from zero n = n ∷ []
varint_from (suc fuel) n =
    let rest = bit_or (bit_and n 0x7f) 0x80 ∷ varint_from fuel (n / 2 ^ 7) in
    if leb 0x80 n then rest else n ∷ []

unfoldable pub varint_bytes : ℕ → List ℕ
unfolding varint_from
varint_bytes n = varint_from n n
