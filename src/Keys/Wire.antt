-- ===== src/Keys/Wire.antt =====
-- src/keys/monerowire.ts: the bytes of a Monero transaction. Keys, images and scalars are hex, as
-- in the source; what throws there is `none`. Keccak is a parameter.
pub mod ReadBack
pub mod Whole
use labyrinth_vault.Prelude.{
  ℕ, zero, suc, ◌+◌, ◌-◌, ◌*◌, ◌/◌, ◌^◌, ◌++◌, Bool, true, false, not, ◌||◌, List, [], ◌∷◌, Option,
  none, some, Text, ◌>>=◌, ◌>>◌, guard, if◌then◌else◌, ltb, leb, ◌==◌, length,
}
use labyrinth_vault.Keys.Chunks.{cat, write_all, write_varints}
use labyrinth_vault.Keys.Weight.{transaction_weight}
use labyrinth_vault.Keys.Hex.{to_hex, from_hex}
use labyrinth_vault.Keys.Varint.{varint_bytes}

-- RCT_TYPE_BPP, TXOUT_TO_TAGGED_KEY, TXIN_TO_KEY
abbrev pub rct_type_bpp : ℕ
rct_type_bpp = 6

abbrev pub txout_to_tagged_key : ℕ
txout_to_tagged_key = 0x03

abbrev pub txin_to_key : ℕ
txin_to_key = 0x02

pub record WireInput : Type 0 where
  pub key_offsets : List ℕ
  pub key_image : Text

pub record WireOutput : Type 0 where
  pub key : Text
  pub view_tag : Text

pub record WirePrefix : Type 0 where
  pub version : ℕ
  pub unlock_time : ℕ
  pub inputs : List WireInput
  pub outputs : List WireOutput
  pub extra : Text

-- One round of each loop of `serializePrefix`.
pub write_input : WireInput → Option (List ℕ)
write_input input = do
  image ← from_hex input.key_image
  some (
      cat (
        (txin_to_key ∷ [])
        ∷ varint_bytes 0
        ∷ varint_bytes (length input.key_offsets)
        ∷ write_varints input.key_offsets
        ∷ image
        ∷ []))

pub write_output : WireOutput → Option (List ℕ)
write_output output = do
  key ← from_hex output.key
  tag ← from_hex output.view_tag
  some (cat (varint_bytes 0 ∷ (txout_to_tagged_key ∷ []) ∷ key ∷ tag ∷ []))

unfoldable pub serialize_prefix : WirePrefix → Option (List ℕ)
unfolding write_input write_output write_varints write_all
serialize_prefix prefix = do
  inputs ← write_all write_input prefix.inputs
  outputs ← write_all write_output prefix.outputs
  extra ← from_hex prefix.extra
  some (
      cat (
        varint_bytes prefix.version
        ∷ varint_bytes prefix.unlock_time
        ∷ varint_bytes (length prefix.inputs)
        ∷ inputs
        ∷ varint_bytes (length prefix.outputs)
        ∷ outputs
        ∷ varint_bytes (length extra)
        ∷ extra
        ∷ []))

pub record WireRctBase : Type 0 where
  pub fee : ℕ
  pub ecdh_amounts : List Text
  pub out_pk : List Text

pub write_amount : Text → Option (List ℕ)
write_amount amount = do bytes ← from_hex amount; guard (length bytes == 8); some bytes

unfoldable pub serialize_rct_base : WireRctBase → Option (List ℕ)
unfolding write_all write_amount
serialize_rct_base base = do
  guard (length base.ecdh_amounts == length base.out_pk)
  amounts ← write_all write_amount base.ecdh_amounts
  commitments ← write_all from_hex base.out_pk
  some (cat ((rct_type_bpp ∷ []) ∷ varint_bytes base.fee ∷ amounts ∷ commitments ∷ []))

-- src/keys/bulletproofplus.ts
pub record BulletproofPlus : Type 0 where
  pub a : Text
  pub a1 : Text
  pub b : Text
  pub r1 : Text
  pub s1 : Text
  pub d1 : Text
  pub l : List Text
  pub r : List Text

pub record WireClsag : Type 0 where
  pub s : List Text
  pub c1 : Text
  pub d : Text

pub record WireRctPrunable : Type 0 where
  pub bpp : List BulletproofPlus
  pub clsags : List WireClsag
  pub pseudo_outs : List Text

-- The six scalars and points that stand first.
pub write_scalars : BulletproofPlus → Option (List ℕ)
unfolding write_all
write_scalars proof =
    write_all from_hex (proof.a ∷ proof.a1 ∷ proof.b ∷ proof.r1 ∷ proof.s1 ∷ proof.d1 ∷ [])

pub serialize_bpp : BulletproofPlus → Option (List ℕ)
unfolding write_all write_scalars
serialize_bpp proof = do
  scalars ← write_scalars proof
  ls ← write_all from_hex proof.l
  rs ← write_all from_hex proof.r
  some
      (cat (scalars ∷ varint_bytes (length proof.l) ∷ ls ∷ varint_bytes (length proof.r) ∷ rs ∷ []))

pub write_clsag : WireClsag → Option (List ℕ)
unfolding write_all
write_clsag clsag = write_all from_hex (clsag.s ++ clsag.c1 ∷ clsag.d ∷ [])

unfoldable pub serialize_rct_prunable : WireRctPrunable → Option (List ℕ)
unfolding write_all serialize_bpp write_clsag
serialize_rct_prunable prunable = do
  guard (length prunable.clsags == length prunable.pseudo_outs)
  proofs ← write_all serialize_bpp prunable.bpp
  clsags ← write_all write_clsag prunable.clsags
  pseudos ← write_all from_hex prunable.pseudo_outs
  some (cat (varint_bytes (length prunable.bpp) ∷ proofs ∷ clsags ∷ pseudos ∷ []))

pub record RawTransaction : Type 0 where
  pub hex : Text
  pub txid : Text
  pub weight : ℕ

-- The elements of one proof, without the counts.
pub proof_fields : BulletproofPlus → Option (List ℕ)
unfolding write_all write_scalars
proof_fields proof = do
  scalars ← write_scalars proof
  ls ← write_all from_hex proof.l
  rs ← write_all from_hex proof.r
  some (cat (scalars ∷ ls ∷ rs ∷ []))

module _ (keccak_256 : List ℕ → List ℕ) where
  pub transaction_id : List ℕ → List ℕ → List ℕ → Text
  transaction_id prefix base prunable =
      to_hex (keccak_256 (cat (keccak_256 prefix ∷ keccak_256 base ∷ keccak_256 prunable ∷ [])))

  unfoldable pub pre_clsag_hash : List ℕ → List ℕ → List BulletproofPlus → Option (List ℕ)
  unfolding write_all proof_fields
  pre_clsag_hash prefix_hash base_bytes bpp = do
    fields ← write_all proof_fields bpp
    some (keccak_256 (cat (prefix_hash ∷ keccak_256 base_bytes ∷ keccak_256 fields ∷ [])))

  unfoldable pub assemble_raw_transaction :
      WirePrefix → WireRctBase → WireRctPrunable → Option RawTransaction
  unfolding transaction_id
  assemble_raw_transaction prefix base prunable = do
    prefix_bytes ← serialize_prefix prefix
    base_bytes ← serialize_rct_base base
    prunable_bytes ← serialize_rct_prunable prunable
    let size = length prefix_bytes + length base_bytes + length prunable_bytes
    some (record {
      hex = to_hex (cat (prefix_bytes ∷ base_bytes ∷ prunable_bytes ∷ []));
      txid = transaction_id prefix_bytes base_bytes prunable_bytes;
      weight = transaction_weight size (length base.out_pk);
    })
