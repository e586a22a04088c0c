-- ===== src/Keys/Runs.antt =====
-- Concrete runs of the Monero formats, and the theorems at concrete inputs.
use labyrinth_vault.Prelude.{
  ℕ, ◌+◌, ◌^◌, ◌≡◌, ◌≤◌, ◌<◌, refl, arith, ◌++◌, take, List, [], ◌∷◌, none, some, codes, length,
}
use labyrinth_vault.Keys.Archive.{
  Archive, ok, err, read_varint_u64, read_u32, read_u64, read_bool, read_count, read_array, read_u8,
  expect_pair, expect_end, trailing_zero, overflowed, off_the_end, claims_past, left_over,
  not_a_bool,
}
use labyrinth_vault.Keys.Archive.Varint.Canonical.{read_varint_u64-canonical}
use labyrinth_vault.Keys.Chunks.{write_all, write_varints}
use labyrinth_vault.Keys.Extra.{build_tx_extra}
use labyrinth_vault.Keys.Offsets.{absolute_to_relative}
use labyrinth_vault.Keys.Varint.{varint_bytes}
use labyrinth_vault.Keys.Hex.{to_hex, from_hex}
use labyrinth_vault.Keys.Weight.{transaction_weight}
use labyrinth_vault.Keys.Wire.{
  WirePrefix, WireRctBase, WireRctPrunable, RawTransaction, serialize_prefix, serialize_rct_base,
  serialize_rct_prunable, assemble_raw_transaction,
}
use labyrinth_vault.Keys.Wire.ReadBack.{IsPrefix, read_prefix}
use labyrinth_vault.Keys.Wire.Whole.{assemble_raw_transaction-read_prefix}

varint_run : varint_bytes 300 ≡ 172 ∷ 2 ∷ []
unfolding varint_bytes
varint_run = refl

abbrev at_start : List ℕ → Archive
at_start bytes = record { rest = bytes; at = 0 }

longer_run : read_varint_u64 (at_start (172 ∷ 0 ∷ [])) ≡ err trailing_zero 1
unfolding read_varint_u64
longer_run = refl

cut_run : read_varint_u64 (at_start (172 ∷ [])) ≡ err off_the_end 0
unfolding read_varint_u64
cut_run = refl

wide_run :
    read_varint_u64 (at_start (128 ∷ 128 ∷ 128 ∷ 128 ∷ 128 ∷ 128 ∷ 128 ∷ 128 ∷ 128 ∷ 2 ∷ []))
    ≡ err overflowed 0
unfolding read_varint_u64
wide_run = refl

fixed_run :
    read_u32 (at_start (1 ∷ 2 ∷ 0 ∷ 128 ∷ 9 ∷ []))
    ≡ ok 0x80000201 (record { rest = 9 ∷ []; at = 4 })
unfolding read_u32
fixed_run = refl

fixed_run8 :
    read_u64 (at_start (1 ∷ 2 ∷ 0 ∷ 0 ∷ 0 ∷ 0 ∷ 0 ∷ 128 ∷ []))
    ≡ ok 0x8000000000000201 (record { rest = []; at = 8 })
unfolding read_u64
fixed_run8 = refl

bool_run : read_bool (at_start (2 ∷ [])) ≡ err (not_a_bool 2) 0
unfolding read_bool
bool_run = refl

count_run :
    read_count (codes "outputs") 8 (at_start (3 ∷ 1 ∷ 2 ∷ []))
    ≡ err (claims_past (codes "outputs") 3 2) 1
unfolding read_count
count_run = refl

array_run :
    read_array (λ i. read_u8) (codes "bytes") 1 (at_start (2 ∷ 7 ∷ 8 ∷ 9 ∷ []))
    ≡ ok (7 ∷ 8 ∷ []) (record { rest = 9 ∷ []; at = 3 })
unfolding read_array read_u8
array_run = refl

pair_run : expect_pair (at_start (2 ∷ [])) ≡ ok tt (record { rest = []; at = 1 })
unfolding expect_pair
pair_run = refl

end_run : expect_end (at_start (2 ∷ [])) ≡ err (left_over 1) 0
unfolding expect_end
end_run = refl

extra_run :
    build_tx_extra (record {
      tx_public_key = codes "aB01";
      additional_public_keys = codes "ff" ∷ [];
      encrypted_payment_id = some (codes "0000000000000000");
    })
    ≡ some (codes "01ab010401ff0209010000000000000000")
unfolding build_tx_extra from_hex to_hex varint_bytes
extra_run = refl

offsets_run : absolute_to_relative (5 ∷ 9 ∷ 9 ∷ 30 ∷ []) ≡ some (5 ∷ 4 ∷ 0 ∷ 21 ∷ [])
unfolding absolute_to_relative
offsets_run = refl

unsorted_run : absolute_to_relative (5 ∷ 4 ∷ []) ≡ none
unfolding absolute_to_relative
unsorted_run = refl

-- Three outputs are padded to four: 1280 - 704 bytes, and four fifths of them.
weight_run : transaction_weight 2000 3 ≡ 2460
unfolding transaction_weight
weight_run = refl

read_300 : read_varint_u64 (at_start (172 ∷ 2 ∷ 9 ∷ [])) ≡ ok 300 (record { rest = 9 ∷ []; at = 2 })
unfolding read_varint_u64
read_300 = refl

read_varint_u64-canonical_example :
    (300 < 2 ^ 64)
    × (◌≡◌ {A = List ℕ} (172 ∷ 2 ∷ 9 ∷ []) (varint_bytes 300 ++ 9 ∷ []))
    × (◌≡◌ {A = ℕ} 2 (0 + length (varint_bytes 300)))
read_varint_u64-canonical_example =
    read_varint_u64-canonical (172 ∷ 2 ∷ 9 ∷ []) 0 300 (record { rest = 9 ∷ []; at = 2 })
      (omega arith) read_300

abbrev key : List ℕ
key =
    1 ∷ 2 ∷ 3 ∷ 4 ∷ 5 ∷ 6 ∷ 7 ∷ 8 ∷ 9 ∷ 10 ∷ 11 ∷ 12 ∷ 13 ∷ 14 ∷ 15 ∷ 16 ∷ 17 ∷ 18 ∷ 19 ∷ 20 ∷ 21
    ∷ 22 ∷ 23 ∷ 24 ∷ 25 ∷ 26 ∷ 27 ∷ 28 ∷ 29 ∷ 30 ∷ 31 ∷ 255 ∷ []

abbrev prefix : WirePrefix
prefix = record {
  version = 2;
  unlock_time = 0;
  inputs = record { key_offsets = 300 ∷ 7 ∷ []; key_image = to_hex key } ∷ [];
  outputs = record { key = to_hex key; view_tag = to_hex (171 ∷ []) } ∷ [];
  extra = to_hex (1 ∷ 255 ∷ []);
}

prefix-IsPrefix : IsPrefix prefix
prefix-IsPrefix = record {
  version = omega arith;
  unlock_time = omega arith;
  inputs = (
    record {
      image = record { bytes = key; in_bytes = omega arith; counted = refl; written = refl };
      offsets = omega arith;
      count = omega arith;
    },
    tt,
  );
  n_inputs = omega arith;
  outputs = (
    record {
      key = record { bytes = key; in_bytes = omega arith; counted = refl; written = refl };
      view_tag = record {
        bytes = 171 ∷ [];
        in_bytes = omega arith;
        counted = refl;
        written = refl;
      };
    },
    tt,
  );
  n_outputs = omega arith;
  extra_length = 2;
  extra = record { bytes = 1 ∷ 255 ∷ []; in_bytes = omega arith; counted = refl; written = refl };
  n_extra = omega arith;
}

abbrev base : WireRctBase
base = record { fee = 900; ecdh_amounts = codes "0011223344556677" ∷ []; out_pk = codes "ab" ∷ [] }

abbrev prunable : WireRctPrunable
prunable = record { bpp = []; clsags = []; pseudo_outs = [] }

-- In place of the hash: the first two bytes.
abbrev front : List ℕ → List ℕ
front b = take 2 b

abbrev raw : RawTransaction
raw = record {
  hex = to_hex (
      2 ∷ 0 ∷ 1 ∷ 2 ∷ 0 ∷ 2 ∷ 172 ∷ 2 ∷ 7 ∷ key
      ++ (1 ∷ 0 ∷ 3 ∷ key
          ++ (171 ∷ 2 ∷ 1 ∷ 255 ∷ 6 ∷ 132 ∷ 7 ∷ 0 ∷ 17 ∷ 34 ∷ 51 ∷ 68 ∷ 85 ∷ 102 ∷ 119 ∷ 171 ∷ 0
              ∷ [])));
  txid = to_hex (2 ∷ 0 ∷ []);
  weight = 93;
}

assemble_run : assemble_raw_transaction front prefix base prunable ≡ some raw
unfolding assemble_raw_transaction serialize_prefix serialize_rct_base serialize_rct_prunable
    from_hex to_hex varint_bytes transaction_weight write_all write_varints
assemble_run = refl

assemble_raw_transaction-read_prefix_example :
    (bytes x y : List ℕ) × (from_hex raw.hex ≡ some bytes)
    × (serialize_rct_base base ≡ some x)
    × (serialize_rct_prunable prunable ≡ some y)
    × ((at : ℕ) × (read_prefix (record { rest = bytes; at = 0 })
          ≡ ok prefix (record { rest = x ++ y; at = at })))
    × (length bytes ≤ raw.weight)
assemble_raw_transaction-read_prefix_example =
    assemble_raw_transaction-read_prefix front prefix base prunable raw prefix-IsPrefix assemble_run
