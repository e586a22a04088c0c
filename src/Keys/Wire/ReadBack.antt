-- ===== src/Keys/Wire/ReadBack.antt =====
-- src/keys/monerowire.ts, serializePrefix, against a reader of the wire format over the readers of
-- binaryarchive.ts. The reader of the prefix is a specification: the repository has none.
use labyrinth_vault.Prelude.{
  ℕ, ◌+◌, ◌^◌, ◌<◌, ◌≡◌, refl, sym, ap, ◌∙◌, arith, ◌++◌, List, [], ◌∷◌, some, All, IsByte, Text,
  length, if◌then◌else◌, ◌==◌, ==_refl,
}
use labyrinth_vault.Keys.Archive.{
  Archive, Read, ok, err, trailing_zero, ◌>>=◌, pure, read_u8, read_blob, read_varint_u64,
  read_elements,
}
use labyrinth_vault.Keys.Archive.Reads.{
  Reads, Reads->>=, Reads-u8, Reads-blob, Reads-varint, Reads-varints, Reads-pure_eq,
  Reads-write_all,
}
use labyrinth_vault.Keys.Chunks.{cat, write_varints}
use labyrinth_vault.Keys.Hex.{to_hex, from_hex}
use labyrinth_vault.Keys.Hex.RoundTrip.{from_hex-to_hex}
use labyrinth_vault.Keys.Varint.{varint_bytes}
use labyrinth_vault.Keys.Wire.{
  WireInput, WireOutput, WirePrefix, txin_to_key, txout_to_tagged_key, write_input, write_output,
  serialize_prefix,
}

-- What `m` reads must be `n`.
expect : ℕ → (Archive → Read ℕ) → Archive → Read ℕ
expect n m = m >>= λ a s. if a == n then ok a s else err trailing_zero s.at

-- `txin_to_key`, tag 2: an amount of zero, the offsets, the key image.
read_input : Archive → Read WireInput
unfolding expect
read_input = do
  tag ← expect 2 read_u8
  amount ← expect 0 read_varint_u64
  count ← read_varint_u64
  offsets ← read_elements (λ i. read_varint_u64) count 0
  image ← read_blob 32
  pure (record { key_offsets = offsets; key_image = to_hex image })

-- An amount of zero, and `txout_to_tagged_key`, tag 3: the key, and the view tag.
read_output : Archive → Read WireOutput
unfolding expect
read_output = do
  amount ← expect 0 read_varint_u64
  tag ← expect 3 read_u8
  key ← read_blob 32
  view_tag ← read_blob 1
  pure (record { key = to_hex key; view_tag = to_hex view_tag })

-- The cryptonote prefix, field by field.
pub read_prefix : Archive → Read WirePrefix
read_prefix = do
  version ← read_varint_u64
  unlock_time ← read_varint_u64
  n_inputs ← read_varint_u64
  inputs ← read_elements (λ i. read_input) n_inputs 0
  n_outputs ← read_varint_u64
  outputs ← read_elements (λ i. read_output) n_outputs 0
  n_extra ← read_varint_u64
  extra ← read_blob n_extra
  pure (record {
    version = version;
    unlock_time = unlock_time;
    inputs = inputs;
    outputs = outputs;
    extra = to_hex extra;
  })

-- `n` bytes as `toHex` writes them.
pub record IsHex (n : ℕ) (hex : Text) : Type 0 where
  pub bytes : List ℕ
  pub in_bytes : All IsByte bytes
  pub counted : length bytes ≡ n
  pub written : hex ≡ to_hex bytes

abbrev pub IsU64 : ℕ → Type 0
IsU64 n = n < 2 ^ 64

pub record IsInput (input : WireInput) : Type 0 where
  pub image : IsHex 32 input.key_image
  pub offsets : All IsU64 input.key_offsets
  pub count : IsU64 (length input.key_offsets)

pub record IsOutput (output : WireOutput) : Type 0 where
  pub key : IsHex 32 output.key
  pub view_tag : IsHex 1 output.view_tag

pub record IsPrefix (prefix : WirePrefix) : Type 0 where
  pub version : IsU64 prefix.version
  pub unlock_time : IsU64 prefix.unlock_time
  pub inputs : All IsInput prefix.inputs
  pub n_inputs : IsU64 (length prefix.inputs)
  pub outputs : All IsOutput prefix.outputs
  pub n_outputs : IsU64 (length prefix.outputs)
  pub extra_length : ℕ
  pub extra : IsHex extra_length prefix.extra
  pub n_extra : IsU64 extra_length

from_hex-IsHex : (n : ℕ) (hex : Text) (h : IsHex n hex) → from_hex hex ≡ some h.bytes
from_hex-IsHex n hex h = rw (h.written) (from_hex-to_hex h.bytes h.in_bytes)

Reads-hex : (n : ℕ) (hex : Text) (h : IsHex n hex) → Reads (read_blob n) h.bytes h.bytes
Reads-hex n hex h = rw (← h.counted) (Reads-blob h.bytes)

Reads-expect : (n : ℕ) (m : Archive → Read ℕ) (x : List ℕ) → Reads m x n → Reads (expect n m) x n
unfolding expect
Reads-expect n m x h = record { run = λ rest at. rw (◌>>=◌, h.run rest at, ==_refl n) refl }

input-ReadsBack :
    (input : WireInput) (i : ℕ)
    → IsInput input
    → (b : List ℕ) × (write_input input ≡ some b) × Reads read_input b input
unfolding write_input read_input
input-ReadsBack input i h =
    let image = from_hex-IsHex 32 input.key_image h.image in
    (
      cat (
          (txin_to_key ∷ [])
          ∷ varint_bytes 0
          ∷ varint_bytes (length input.key_offsets)
          ∷ write_varints input.key_offsets
          ∷ h.image.bytes
          ∷ []),
      rw image refl,
      Reads->>= _ (Reads-expect 2 read_u8 _ (Reads-u8 txin_to_key)) (
          Reads->>= _ (Reads-expect 0 read_varint_u64 _ (Reads-varint 0 (omega arith))) (
            Reads->>= _ (Reads-varint (length input.key_offsets) h.count) (
              Reads->>= _ (Reads-varints input.key_offsets 0 h.offsets) (
                Reads->>= _ (Reads-hex 32 input.key_image h.image) (
                  Reads-pure_eq _ input (
                    ap (λ (t : Text). record { key_offsets = input.key_offsets; key_image = t })
                      (sym h.image.written))))))),
    )

output-ReadsBack :
    (output : WireOutput) (i : ℕ)
    → IsOutput output
    → (b : List ℕ) × (write_output output ≡ some b) × Reads read_output b output
unfolding write_output read_output
output-ReadsBack output i h =
    let key = from_hex-IsHex 32 output.key h.key in
    let tag = from_hex-IsHex 1 output.view_tag h.view_tag in
    (
      cat (varint_bytes 0 ∷ (txout_to_tagged_key ∷ []) ∷ h.key.bytes ∷ h.view_tag.bytes ∷ []),
      rw (key, tag) refl,
      Reads->>= _ (Reads-expect 0 read_varint_u64 _ (Reads-varint 0 (omega arith))) (
          Reads->>= _ (Reads-expect 3 read_u8 _ (Reads-u8 txout_to_tagged_key)) (
            Reads->>= _ (Reads-hex 32 output.key h.key) (
              Reads->>= _ (Reads-hex 1 output.view_tag h.view_tag) (
                Reads-pure_eq _ output (
                  sym (
                    ap (λ (t : Text). record { key = t; view_tag = output.view_tag }) h.key.written
                    ∙ ap (λ (t : Text). record { key = to_hex h.key.bytes; view_tag = t })
                        h.view_tag.written)))))),
    )

pub prefix-ReadsBack :
    (prefix : WirePrefix)
    → IsPrefix prefix
    → (b : List ℕ) × (serialize_prefix prefix ≡ some b) × Reads read_prefix b prefix
unfolding serialize_prefix read_prefix
prefix-ReadsBack prefix h =
    let (ins, ei, ri) =
      Reads-write_all write_input (λ i. read_input) IsInput input-ReadsBack prefix.inputs 0
        h.inputs in
    let (outs, eo, ro) =
      Reads-write_all write_output (λ i. read_output) IsOutput output-ReadsBack prefix.outputs 0
        h.outputs in
    let ex = from_hex-IsHex h.extra_length prefix.extra h.extra in
    let n : length h.extra.bytes ≡ h.extra_length = h.extra.counted in
    (
      cat (
          varint_bytes prefix.version
          ∷ varint_bytes prefix.unlock_time
          ∷ varint_bytes (length prefix.inputs)
          ∷ ins
          ∷ varint_bytes (length prefix.outputs)
          ∷ outs
          ∷ varint_bytes (length h.extra.bytes)
          ∷ h.extra.bytes
          ∷ []),
      rw (ei, eo, ex) refl,
      Reads->>= _ (Reads-varint prefix.version h.version) (
          Reads->>= _ (Reads-varint prefix.unlock_time h.unlock_time) (
            Reads->>= _ (Reads-varint (length prefix.inputs) h.n_inputs) (
              Reads->>= _ ri (
                Reads->>= _ (Reads-varint (length prefix.outputs) h.n_outputs) (
                  Reads->>= _ ro (
                    Reads->>= _ (Reads-varint (length h.extra.bytes) (rw n h.n_extra)) (
                      Reads->>= _ (Reads-blob h.extra.bytes) (
                        Reads-pure_eq _ prefix (
                          ap
                            (λ (t : Text). record {
                              version = prefix.version;
                              unlock_time = prefix.unlock_time;
                              inputs = prefix.inputs;
                              outputs = prefix.outputs;
                              extra = t;
                            })
                            (sym h.extra.written)))))))))),
    )

-- A prefix whose keys, images, tags and extra field are hex of their size and whose numbers fit 64
-- bits is written, and its bytes, whatever follows them, are read back as the prefix by the readers
-- of binaryarchive.ts in the order of the wire format; the cursor then stands behind them.
pub read_prefix-serialize_prefix :
    (prefix : WirePrefix) (rest : List ℕ) (at : ℕ)
    → IsPrefix prefix
    → (b : List ℕ) × (serialize_prefix prefix ≡ some b)
      × (read_prefix (record { rest = b ++ rest; at = at })
          ≡ ok prefix (record { rest = rest; at = at + length b }))
read_prefix-serialize_prefix prefix rest at h =
    let (b, e, r) = prefix-ReadsBack prefix h in (b, e, r.run rest at)
