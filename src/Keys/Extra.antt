-- ===== src/Keys/Extra.antt =====
-- src/keys/monerowire.ts, buildTxExtra: the extra field of a spend.
use labyrinth_vault.Prelude.{
  ℕ, List, [], ◌∷◌, Option, none, some, Text, ◌>>=◌, ◌>>◌, guard, ◌==◌, length,
}
use labyrinth_vault.Keys.Chunks.{cat, write_all}
use labyrinth_vault.Keys.Hex.{to_hex, from_hex}
use labyrinth_vault.Keys.Varint.{varint_bytes}

-- EXTRA_TAG_PUBKEY, EXTRA_TAG_NONCE, EXTRA_TAG_ADDITIONAL_PUBKEYS, NONCE_ENCRYPTED_PAYMENT_ID
abbrev pub extra_tag_pubkey : ℕ
extra_tag_pubkey = 0x01

abbrev pub extra_tag_nonce : ℕ
extra_tag_nonce = 0x02

abbrev pub extra_tag_additional_pubkeys : ℕ
extra_tag_additional_pubkeys = 0x04

abbrev pub nonce_encrypted_payment_id : ℕ
nonce_encrypted_payment_id = 0x01

pub record ExtraFields : Type 0 where
  pub tx_public_key : Text
  pub additional_public_keys : List Text
  pub encrypted_payment_id : Option Text

-- The part of `buildTxExtra` for the additional keys, and that for the payment id.
pub extra_keys : List Text → Option (List ℕ)
unfolding write_all
extra_keys [] = some []
extra_keys (key ∷ keys) = do
  written ← write_all from_hex (key ∷ keys)
  some (
      cat ((extra_tag_additional_pubkeys ∷ []) ∷ varint_bytes (length (key ∷ keys)) ∷ written ∷ []))

pub extra_payment_id : Option Text → Option (List ℕ)
extra_payment_id none = some []
extra_payment_id (some hex) = do
  id ← from_hex hex
  guard (length id == 8)
  let nonce = nonce_encrypted_payment_id ∷ id
  some (cat ((extra_tag_nonce ∷ []) ∷ varint_bytes (length nonce) ∷ nonce ∷ []))

unfoldable pub build_tx_extra : ExtraFields → Option Text
unfolding extra_keys extra_payment_id
build_tx_extra fields = do
  key ← from_hex fields.tx_public_key
  keys ← extra_keys fields.additional_public_keys
  id ← extra_payment_id fields.encrypted_payment_id
  some (to_hex (cat ((extra_tag_pubkey ∷ []) ∷ key ∷ keys ∷ id ∷ [])))
