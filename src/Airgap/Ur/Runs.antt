-- ===== src/Airgap/Ur/Runs.antt =====
-- Concrete runs of ur.ts, and the theorems at concrete inputs.
use labyrinth_vault.Prelude.{
  ℕ, ◌+◌, ◌-◌, ◌++◌, ◌≤◌, ◌<◌, ◌≡◌, refl, arith, true, List, [], ◌∷◌, Option, none, some, ltb, leb,
  ◌>>=◌, if◌then◌else◌, codes, All, take, trim, split_on, Text,
}
use labyrinth_vault.Prelude.Numerals.{to_string, number_of}
use labyrinth_vault.Airgap.Crc.{crc32}
use labyrinth_vault.Airgap.Fountain.{xor_into}
use labyrinth_vault.Airgap.Cbor.{cbor_encode, cbor_decode}
use labyrinth_vault.Airgap.Bytewords.{
  bytewords_encode, bytewords_decode, minimal_for, minimal_index,
}
use labyrinth_vault.Airgap.Ur.{
  UrEncoder, encode_ur, new_encoder, part_text, partition, nominal_fragment_length, parse_ur,
  ur_payload_bytes, frame, UrPart, frame_text, frame_value, is_ur_type,
}
use labyrinth_vault.Airgap.Ur.Message.{IsChooser}
use labyrinth_vault.Airgap.Ur.Fragments.{IsLong, concat, partition-nominal_fragment_length}
use labyrinth_vault.Airgap.Cbor.{cbor_encode}
use labyrinth_vault.Airgap.Fountain.{zeros}
use labyrinth_vault.Airgap.Ur.Parsing.{IsFrame, parse_ur-IsPart}
use labyrinth_vault.Airgap.Ur.ReadBack.{parse_ur-frame_text}
use labyrinth_vault.Airgap.Ur.Collector.Ending.{IsReady, untouched, offer-IsReady}
use labyrinth_vault.Airgap.Ur.Pieces.{includes, reduce, is_known}
use labyrinth_vault.Airgap.Ur.Collector.{
  UrCollector, UrProgress, empty, offer, offer_part, get_simple,
}
use labyrinth_vault.Airgap.Ur.Transmission.{
  texts_of, collect, IsPayload, collect-encode_ur, collect-encode_ur_complete,
}

-- After the first pass, every frame mixes the first two fragments.
abbrev choice : ℕ → ℕ → ℕ → List ℕ
choice seq_num n checksum =
    if leb seq_num n then (seq_num - 1) ∷ [] else if ltb 1 n then 0 ∷ 1 ∷ [] else 0 ∷ []

choice-IsChooser : IsChooser choice
unfolding includes
choice-IsChooser = record {
  below = λ s n k p q. ground arith;
  distinct = λ s n k p q. ground arith;
  plain = λ s n k p q. ground arith;
}

abbrev payload : List ℕ
payload = codes "fifteen letters"

-- The encoder of the payload: two fragments.
abbrev encoder : UrEncoder
encoder = record {
  type = codes "bytes";
  seq_length = 2;
  fragments =
      (79 ∷ 102 ∷ 105 ∷ 102 ∷ 116 ∷ 101 ∷ 101 ∷ 110 ∷ [])
      ∷ (32 ∷ 108 ∷ 101 ∷ 116 ∷ 116 ∷ 101 ∷ 114 ∷ 115 ∷ [])
      ∷ [];
  message_length = 16;
  checksum = 2593763918;
  seq_num = 0;
}

encode_ur_run : encode_ur (codes "bytes") payload 10 ≡ some encoder
unfolding encode_ur new_encoder crc32 cbor_encode
encode_ur_run = refl

runs : Unit {0}
unfolding offer_part ur_payload_bytes cbor_decode crc32 xor_into reduce is_known includes get_simple
    to_string
runs = tt

-- The first frame is lost; the second and the mixture of both are enough.
abbrev second : UrPart
second =
    frame (codes "bytes") 2 2 16 2593763918
      (take 8 (32 ∷ 108 ∷ 101 ∷ 116 ∷ 116 ∷ 101 ∷ 114 ∷ 115 ∷ []))

abbrev mixture : UrPart
mixture = frame (codes "bytes") 3 2 16 2593763918 (111 ∷ 10 ∷ 12 ∷ 18 ∷ 0 ∷ 0 ∷ 23 ∷ 29 ∷ [])

abbrev received : UrPart → UrPart → Option (List ℕ)
received p q = offer_part choice empty p >>= λ a.
    offer_part choice a.0 q >>= λ b. b.1.cbor >>= λ m. ur_payload_bytes m

lost_frame : received second mixture ≡ some payload
unfolding runs
lost_frame = refl

repeated_frame : received mixture mixture ≡ none
unfolding runs
repeated_frame = refl

payload-IsPayload : IsPayload payload 10 encoder
payload-IsPayload = record {
  in_bytes = ground arith;
  short = omega arith;
  least = omega arith;
  most = omega arith;
  few_fragments = omega arith;
}

collect-encode_ur_example :
    (ts : List Text) × (texts_of choice encoder (2 ∷ 3 ∷ []) ≡ some ts)
    × (d : UrCollector) × (collect choice empty ts ≡ some d)
    × ((m : List ℕ) → d.done ≡ some m → ur_payload_bytes m ≡ some payload)
collect-encode_ur_example =
    collect-encode_ur choice (codes "bytes") payload 10 encoder (2 ∷ 3 ∷ []) choice-IsChooser
      payload-IsPayload encode_ur_run (omega arith)

all_covered : (i : ℕ) → i < 2 → includes (2 ∷ 3 ∷ 1 ∷ []) (i + 1) ≡ true
unfolding includes
all_covered i h = ground arith

collect-encode_ur_complete_example :
    (ts : List Text) × (texts_of choice encoder (2 ∷ 3 ∷ 1 ∷ []) ≡ some ts)
    × (d : UrCollector) × (collect choice empty ts ≡ some d)
    × (m : List ℕ) × (d.done ≡ some m)
    × (ur_payload_bytes m ≡ some payload)
collect-encode_ur_complete_example =
    collect-encode_ur_complete choice (codes "bytes") payload 10 encoder (2 ∷ 3 ∷ 1 ∷ [])
      choice-IsChooser payload-IsPayload encode_ur_run (omega arith) all_covered

abbrev second_text : Text
second_text = codes "ur:bytes/2-2/lpaoaobecynynlprglfdcxjzihjyjyihjpjkdwdkbysf"

part_text_run : part_text choice encoder 2 ≡ some second_text
unfolding part_text bytewords_encode minimal_for cbor_encode to_string crc32 xor_into
part_text_run = refl

parse_ur_run : parse_ur second_text ≡ some second
unfolding parse_ur bytewords_decode minimal_index cbor_decode number_of crc32 trim split_on
    is_ur_type
parse_ur_run = refl

offer-IsReady_example :
    (out : UrCollector × UrProgress) × (offer choice empty second_text ≡ some out) × IsReady out.0
offer-IsReady_example =
    offer-IsReady choice empty second_text choice-IsChooser.below (untouched refl)

second-IsFrame :
    IsFrame (codes "bytes") 2 2 16 2593763918 (32 ∷ 108 ∷ 101 ∷ 116 ∷ 116 ∷ 101 ∷ 114 ∷ 115 ∷ [])
unfolding is_ur_type
second-IsFrame = record {
  typed = refl;
  numbered = omega arith;
  some_fragments = omega arith;
  few_fragments = omega arith;
  some_message = omega arith;
  short_message = omega arith;
  some_bytes = omega arith;
  enough = omega arith;
}

parse_ur-frame_text_example :
    (body : List ℕ) × (cbor_encode
        (frame_value 2 2 16 2593763918 (32 ∷ 108 ∷ 101 ∷ 116 ∷ 116 ∷ 101 ∷ 114 ∷ 115 ∷ []))
      ≡ some body)
    × (parse_ur (frame_text (codes "bytes") 2 2 body) ≡ some second)
parse_ur-frame_text_example =
    parse_ur-frame_text (codes "bytes") 2 2 16 2593763918 _ second-IsFrame (omega arith)
      (omega arith) (omega arith) (omega arith)

partition-nominal_fragment_length_example :
    let n = nominal_fragment_length 15 10 in
    All (IsLong n) (partition payload n)
    × (n ≤ 10)
    × (k : ℕ) × (k ≤ n)
    × (concat (partition payload n) ≡ payload ++ zeros k)
partition-nominal_fragment_length_example =
    partition-nominal_fragment_length payload 10 (omega arith)

parse_ur-IsPart_example :
    IsFrame (codes "bytes") 2 2 16 2593763918 (32 ∷ 108 ∷ 101 ∷ 116 ∷ 116 ∷ 101 ∷ 114 ∷ 115 ∷ [])
parse_ur-IsPart_example = parse_ur-IsPart second_text second parse_ur_run
