-- ===== src/Wallet/Addresses.antt =====
-- wallet/src/core/addresses.ts: the one spelling of a Bitcoin address.
use labyrinth_vault.Prelude.{ℕ, List, Option, none, some, Text, trim}

-- What the wallet uses of the Bitcoin library: the script of an address, and the address of a
-- script, each `none` where the library throws or has no answer.
pub record AddressCodec : Type 0 where
  pub encode_script : Text → Option (List ℕ)
  pub address_of : List ℕ → Option Text

unfoldable pub script_for_address : AddressCodec → Text → Option (List ℕ)
script_for_address lib address = lib.encode_script (trim address)

unfoldable pub canonical_btc_address : AddressCodec → Text → Text
unfolding script_for_address
canonical_btc_address lib address =
    let trimmed = trim address in
    elim (script_for_address lib trimmed) [
      | none ↦ trimmed
      | some script ↦ elim (lib.address_of script) [ none ↦ trimmed | some a ↦ a ]
    ]
