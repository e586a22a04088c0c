-- ===== src/Airgap/Runs.antt =====
-- Concrete runs of envelope.ts, and the theorems at concrete inputs.
use labyrinth_vault.Prelude.{
  ℕ, ◌↔◌, Text, ◌++◌, ◌≡◌, ◌≢◌, ◌≤◌, refl, arith, List, [], ◌∷◌, none, some, if◌then◌else◌, codes,
  trim,
}
use labyrinth_vault.Prelude.Numerals.{to_string, number_of, pad_start}
use labyrinth_vault.Airgap.Base32.{base32_encode, base32_decode}
use labyrinth_vault.Airgap.Base32.RoundTrip.{base32_decode-base32_encode}
use labyrinth_vault.Airgap.Crc.{crc32, digest_of}
use labyrinth_vault.Airgap.Crc.Change.{digest_of_change}
use labyrinth_vault.Airgap.Envelope.{psbt, Part, fresh, offer, parse_part, encode_parts}
use labyrinth_vault.Airgap.Envelope.Transmission.{nth_text, collect, offer-encode_parts}
use labyrinth_vault.Airgap.Envelope.Delivery.{covers}
use labyrinth_vault.Airgap.Envelope.Safety.{offer-payload}
use labyrinth_vault.Airgap.Envelope.Reachable.{start, read, IsSane, offer-IsSane_of_Reach}
use labyrinth_vault.Airgap.Cbor.{
  CborValue, number, bytes, array, end, item, count, cbor_encode, cbor_decode,
}
use labyrinth_vault.Airgap.Cbor.RoundTrip.{levels, Fits, cbor_decode-cbor_encode}
use labyrinth_vault.Airgap.Cbor.Canonical.{cbor_encode-cbor_decode}
use labyrinth_vault.Airgap.Bytewords.{
  minimal, standard, uri, bytewords_encode, bytewords_decode, to_lower, word_for, minimal_for,
  full_index,
}
use labyrinth_vault.Airgap.Bytewords.Canonical.{bytewords_decode-canonical}
use labyrinth_vault.Airgap.Bbqr.{
  transaction, type_char, base36_pair, digit36, frame_of, bbqr_encode, bbqr_decode, bbqr_parse_part,
}
use labyrinth_vault.Airgap.Bbqr.Header.{bbqr_parse_part-frame_of}

runs : Unit {0}
unfolding encode_parts parse_part offer base32_encode base32_decode digest_of trim number_of
    to_string pad_start
runs = tt

abbrev three : List ℕ
three = 1 ∷ 2 ∷ 0xff ∷ []

encode_three : base32_encode three ≡ codes "AEBP6"
unfolding base32_encode
encode_three = refl

decode_small : base32_decode (codes "aebp6") ≡ some three
unfolding base32_decode
decode_small = refl

-- The lenient decoder drops a last character that fills no byte.
decode_ragged : base32_decode (codes "AEBP6A") ≡ some three
unfolding base32_decode
decode_ragged = refl

crc32_check : crc32 (codes "123456789") ≡ 0xcbf43926
unfolding crc32
crc32_check = refl

abbrev frames_of_three : List (List ℕ)
frames_of_three = codes "LV1:PSBT:1:2:e1b73e2a:AEBA" ∷ codes "LV1:PSBT:2:2:e1b73e2a:74" ∷ []

encode_parts_run : encode_parts psbt three 2 ≡ some frames_of_three
unfolding runs
encode_parts_run = refl

parse_padded :
    parse_part (codes " LV1:PSBT:01:2:e1b73e2a:AEBA ")
    ≡ some (record {
      version = 1;
      kind = psbt;
      index = 1;
      total = 2;
      digest = codes "e1b73e2a";
      body = codes "AEBA";
    })
unfolding runs
parse_padded = refl

parse_past_end : parse_part (codes "LV1:PSBT:3:2:e1b73e2a:AEBA") ≡ none
unfolding runs
parse_past_end = refl

base32_decode-base32_encode_example : base32_decode (base32_encode three) ≡ some three
base32_decode-base32_encode_example = base32_decode-base32_encode three (omega arith)

digest_of_change_example :
    digest_of ((7 ∷ []) ++ 1 ∷ (9 ∷ [])) ≢ digest_of ((7 ∷ []) ++ 2 ∷ (9 ∷ []))
digest_of_change_example =
    digest_of_change (7 ∷ []) (9 ∷ []) 1 2 (omega arith) (omega arith) (omega arith) (omega arith)

-- The second frame, then the first, then the second again.
offer-encode_parts_example :
    ((offer (collect frames_of_three (0 ∷ 1 ∷ [])) (nth_text frames_of_three 1)).1.payload
      ≡ (if covers 2 (1 ∷ 0 ∷ 1 ∷ []) then some three else none))
    × ((offer (collect frames_of_three (0 ∷ 1 ∷ [])) (nth_text frames_of_three 1)).1.problem ≡ none)
offer-encode_parts_example =
    offer-encode_parts psbt three 2 frames_of_three 1 (0 ∷ 1 ∷ []) (omega arith) encode_parts_run
      (omega arith)

abbrev single : List ℕ
single = codes "LV1:PSBT:1:1:a505df1b:AE"

offer-single : (offer fresh single).1.payload ≡ some (1 ∷ [])
unfolding runs
offer-single = refl

offer-payload_example :
    (p : Part) × (parse_part single ≡ some p)
    × (digest_of (1 ∷ []) ≡ p.digest)
    × ((offer fresh single).1.kind ≡ p.kind)
offer-payload_example = offer-payload fresh single (1 ∷ []) offer-single

offer-IsSane_of_Reach_example : IsSane (offer (offer fresh single).0 single).1
offer-IsSane_of_Reach_example =
    offer-IsSane_of_Reach (offer fresh single).0 single (read start single)

abbrev sample : CborValue
sample = array (item (number 300) (item (bytes (7 ∷ 8 ∷ [])) end))

abbrev sample_bytes : List ℕ
sample_bytes = 0x82 ∷ 0x19 ∷ 0x01 ∷ 0x2c ∷ 0x42 ∷ 7 ∷ 8 ∷ []

encode_sample : cbor_encode sample ≡ some sample_bytes
unfolding cbor_encode
encode_sample = refl

-- A length that is longer than it had to be is refused.
decode_long : cbor_decode (0x18 ∷ 3 ∷ []) ≡ none
unfolding cbor_decode
decode_long = refl

two_levels : levels sample ≤ 5
unfolding levels
two_levels = omega arith

sample-Fits : Fits sample
unfolding Fits count
sample-Fits = (omega arith, (tt, (omega arith, tt)))

decode_sample : cbor_decode sample_bytes ≡ some sample
decode_sample = cbor_decode-cbor_encode sample sample_bytes two_levels sample-Fits encode_sample

cbor_decode-cbor_encode_example : cbor_decode sample_bytes ≡ some sample
cbor_decode-cbor_encode_example =
    cbor_decode-cbor_encode sample sample_bytes two_levels sample-Fits encode_sample

cbor_encode-cbor_decode_example : cbor_encode sample ≡ some sample_bytes
cbor_encode-cbor_decode_example =
    cbor_encode-cbor_decode sample_bytes sample
      (
        omega arith,
        (
          omega arith,
          (omega arith, (omega arith, (omega arith, (omega arith, (omega arith, tt))))),
        ),
      )
      decode_sample

bytewords_minimal :
    bytewords_encode (0 ∷ 1 ∷ 2 ∷ 128 ∷ 255 ∷ []) minimal ≡ codes "aeadaolazmjendeoti"
unfolding bytewords_encode minimal_for crc32
bytewords_minimal = refl

bytewords_read : bytewords_decode (codes " ABLE-acid-also-apex-zoom ") uri ≡ none
unfolding bytewords_decode full_index word_for trim crc32
bytewords_read = refl

bytewords_words :
    (bytewords_decode (bytewords_encode three standard) standard ≡ some three)
    × (bytewords_decode (bytewords_encode three uri) uri ≡ some three)
unfolding bytewords_encode bytewords_decode full_index word_for trim crc32
bytewords_words = (refl, refl)

-- The letters of the bytes 1, 2 and 255 and of the checksum, in capitals and after a space.
abbrev shouted : Text
shouted = codes " ADAOZMVYRLFMDR"

bytewords_decode-canonical_example :
    (bytewords_decode (bytewords_encode three minimal) minimal ≡ some three)
    × ((bytewords_decode shouted minimal ≡ some three)
        ↔ (to_lower (trim shouted) ≡ bytewords_encode three minimal))
bytewords_decode-canonical_example =
    bytewords_decode-canonical three shouted (omega arith, (omega arith, (omega arith, tt)))

abbrev bbqr_frames : List (List ℕ)
bbqr_frames = codes "B$2T0200AEBAGBAF" ∷ codes "B$2T0201AY" ∷ []

bbqr_encode_run : bbqr_encode (1 ∷ 2 ∷ 3 ∷ 4 ∷ 5 ∷ 6 ∷ []) transaction 8 ≡ some bbqr_frames
unfolding bbqr_encode base32_encode
bbqr_encode_run = refl

bbqr_decode_run :
    bbqr_decode bbqr_frames ≡ some (record { type = b'T'; bytes = 1 ∷ 2 ∷ 3 ∷ 4 ∷ 5 ∷ 6 ∷ [] })
unfolding bbqr_decode bbqr_parse_part
bbqr_decode_run = refl

-- 1296 parts are let through, but two digits end at 1295.
base36_past_end : base36_pair 1296 ≡ codes "undefined0"
unfolding base36_pair digit36
base36_past_end = refl

bbqr_parse_part-frame_of_example :
    bbqr_parse_part (frame_of transaction 40 37 (codes "AE"))
    ≡ some (record {
      encoding = b'2';
      type = type_char transaction;
      parts = 40;
      index = 37;
      body = codes "AE";
    })
bbqr_parse_part-frame_of_example =
    bbqr_parse_part-frame_of transaction 40 37 (codes "AE") (omega arith) (omega arith)
