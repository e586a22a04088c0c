-- ===== src/Airgap/Ur.antt =====
-- src/airgap/ur.ts, the frames: a message in fragments, the text of a frame, and its parser. Which
-- fragments a frame mixes is a parameter: `choose seq_num seq_length checksum`.
pub mod Fragments
pub mod Pieces
pub mod Parsing
pub mod Frames
pub mod ReadBack
pub mod Message
pub mod Sending
pub mod Collector
pub mod Delivery
pub mod Transmission
mod Runs
use labyrinth_vault.Prelude.{
  ℕ, zero, suc, ◌+◌, ◌-◌, ◌*◌, ◌/◌, ◌%◌, ◌^◌, ◌++◌, ◌&&◌, ◌||◌, Bool, List, [], ◌∷◌, Option, none,
  some, ltb, leb, ◌==◌, if◌then◌else◌, ◌>>=◌, ◌>>◌, guard, Text, codes, trim, split_on, is_digit,
  is_lower, length, take, drop, max, get_elem?, all,
}
use labyrinth_vault.Prelude.Numerals.{to_string, number_of}
use labyrinth_vault.Airgap.Bytewords.{minimal, to_lower, bytewords_encode, bytewords_decode}
use labyrinth_vault.Airgap.Cbor.{
  CborValue, number, bytes, array, end, item, cbor_encode, cbor_decode,
}
use labyrinth_vault.Airgap.Crc.{crc32}
use labyrinth_vault.Airgap.Fountain.{zeros, xor_into}

-- MAX_MESSAGE_BYTES
abbrev pub max_message_bytes : ℕ
max_message_bytes = 8 * 1024 * 1024

-- MAX_FRAGMENTS
abbrev pub max_fragments : ℕ
max_fragments = 2048

abbrev is_type_char : ℕ → Bool
is_type_char c = is_lower c || is_digit c || c == b'-'

-- `/^[a-z0-9-]+$/.test(type)`
unfoldable pub is_ur_type : Text → Bool
is_ur_type type = ltb 0 (length type) && all is_type_char type

-- `Math.ceil(a / b)`
abbrev pub ceil_div : ℕ → ℕ → ℕ
ceil_div a b = (a + b - 1) / b

-- The loop over the counts that are left, from `count` on.
fragment_length_from : ℕ → ℕ → ℕ → ℕ → ℕ → ℕ
fragment_length_from zero count message_length max_length last = last
fragment_length_from (suc left) count message_length max_length last =
    let now = ceil_div message_length count in
    let later = fragment_length_from left (count + 1) message_length max_length now in
    if leb now max_length then now else later

-- With the default of `minFragmentLength`, 10.
unfoldable pub nominal_fragment_length : ℕ → ℕ → ℕ
unfolding fragment_length_from
nominal_fragment_length message_length max_length =
    max 1
      (fragment_length_from (ceil_div message_length 10) 1 message_length max_length message_length)

-- A new array of the length, with the bytes at its front.
pub padded : ℕ → List ℕ → List ℕ
unfolding zeros
padded n b = b ++ zeros (n - length b)

-- The loop of `partition`, on as much fuel as the message has bytes: each round takes one at least.
fragments_from : ℕ → List ℕ → ℕ → List (List ℕ)
fragments_from zero message n = []
fragments_from (suc fuel) [] n = []
fragments_from (suc fuel) (b ∷ message) n =
    padded n (take n (b ∷ message)) ∷ fragments_from fuel (drop n (b ∷ message)) n

or_blank : List (List ℕ) → ℕ → List (List ℕ)
or_blank [] n = zeros n ∷ []
or_blank (f ∷ fs) n = f ∷ fs

unfoldable pub partition : List ℕ → ℕ → List (List ℕ)
unfolding fragments_from or_blank padded zeros
partition message n = or_blank (fragments_from (length message) message n) n

pub record UrEncoder : Type 0 where
  pub type : Text
  pub seq_length : ℕ
  pub fragments : List (List ℕ)
  pub message_length : ℕ
  pub checksum : ℕ
  pub seq_num : ℕ

-- The constructor, where `none` is its exception.
unfoldable pub new_encoder : Text → List ℕ → ℕ → Option UrEncoder
unfolding partition nominal_fragment_length is_ur_type
new_encoder type cbor max_length =
    let fragments = partition cbor (nominal_fragment_length (length cbor) max_length) in
    (guard (is_ur_type type)
      >> some (record {
        type = type;
        seq_length = length fragments;
        fragments = fragments;
        message_length = length cbor;
        checksum = crc32 cbor;
        seq_num = 0;
      }))

-- The loop that mixes fragments; a fragment that is not there is an exception.
unfoldable pub mix_from : List (List ℕ) → List ℕ → List ℕ → Option (List ℕ)
mix_from fragments mixed [] = some mixed
mix_from fragments mixed (i ∷ indexes) = do
  f ← get_elem? fragments i
  mix_from fragments (xor_into mixed f) indexes

-- `new Uint8Array(fragment.length)`
pub blank : List (List ℕ) → List ℕ
blank [] = []
blank (f ∷ fs) = zeros (length f)

-- What a frame of an animation carries.
unfoldable pub frame_value : ℕ → ℕ → ℕ → ℕ → List ℕ → CborValue
frame_value seq_num seq_length message_length checksum fragment = array (
    item (number seq_num) (
      item (number seq_length)
        (item (number message_length) (item (number checksum) (item (bytes fragment) end)))))

pub whole_text : Text → List ℕ → Text
whole_text type message = codes "ur:" ++ (type ++ b'/' ∷ bytewords_encode message minimal)

pub frame_text : Text → ℕ → ℕ → List ℕ → Text
frame_text type seq_num seq_length body =
    codes "ur:"
    ++ (type
        ++ b'/'
          ∷ (to_string 10 seq_num
              ++ b'-' ∷ (to_string 10 seq_length ++ b'/' ∷ bytewords_encode body minimal)))

first_fragment : List (List ℕ) → List ℕ
first_fragment [] = []
first_fragment (f ∷ fs) = f

module _ (choose : ℕ → ℕ → ℕ → List ℕ) where
  -- The frame with a number, from the fragments that `choose` names.
  unfoldable pub part_text : UrEncoder → ℕ → Option Text
  unfolding whole_text frame_text first_fragment blank zeros mix_from frame_value
  part_text e seq_num =
      if e.seq_length == 1
      then some (whole_text e.type (take e.message_length (first_fragment e.fragments)))
      else do
        mixed ← mix_from e.fragments (blank e.fragments) (choose seq_num e.seq_length e.checksum)
        body ← cbor_encode (frame_value seq_num e.seq_length e.message_length e.checksum mixed)
        some (frame_text e.type seq_num e.seq_length body)

  -- `nextPart`: the number is one more, in 32 bits.
  unfoldable pub next_part : UrEncoder → Option (UrEncoder × Text)
  next_part e =
      let seq_num = (e.seq_num + 1) % 2 ^ 32 in
      (part_text e seq_num >>= λ text. some (record e { seq_num = seq_num }, text))

  parts_loop : ℕ → UrEncoder → Option (UrEncoder × List Text)
  parts_loop zero e = some (e, [])
  parts_loop (suc n) e = do
    (e', text) ← next_part e
    (last, texts) ← parts_loop n e'
    some (last, text ∷ texts)

  unfoldable pub first_pass : UrEncoder → Option (UrEncoder × List Text)
  unfolding parts_loop
  first_pass e = parts_loop e.seq_length e

-- `encodeUr`
unfoldable pub encode_ur : Text → List ℕ → ℕ → Option UrEncoder
encode_ur type payload max_length = do
  cbor ← cbor_encode (bytes payload)
  new_encoder type cbor max_length

-- A whole message in one frame, or a frame of an animation.
pub data UrPart : Type 0 where
  whole : Text → List ℕ → UrPart
  frame : Text → ℕ → ℕ → ℕ → ℕ → List ℕ → UrPart

after_prefix : Text → Option Text
after_prefix (a ∷ b ∷ c ∷ s) = guard (a == b'u' && b == b'r' && c == b':') >> some s
after_prefix _ = none

-- `/^\d+$/`
is_number : Text → Bool
is_number s = ltb 0 (length s) && all is_digit s

-- `/^(\d+)-(\d+)$/`: no digit is a dash, so the text has exactly one.
parse_seq : List Text → Option (ℕ × ℕ)
unfolding is_number
parse_seq (n ∷ l ∷ []) = guard (is_number n && is_number l) >> some (number_of n, number_of l)
parse_seq _ = none

-- The checks of a frame's header, once its items have the right types.
check_header : Text → ℕ → ℕ → ℕ → ℕ → ℕ → ℕ → List ℕ → Option UrPart
check_header type seq_num seq_length num len message_length checksum fragment = do
  guard (ltb 0 (length fragment))
  guard (num == seq_num && len == seq_length)
  guard (ltb 0 message_length && leb message_length max_message_bytes)
  guard (leb message_length (length fragment * seq_length))
  some (frame type seq_num seq_length message_length checksum fragment)

read_header : Text → ℕ → ℕ → CborValue → Option UrPart
unfolding check_header
read_header type seq_num seq_length
      (array (
        item (number num) (
          item
            (number len)
            (item (number message_length) (item (number checksum) (item (bytes fragment) end)))))) =
    check_header type seq_num seq_length num len message_length checksum fragment
read_header _ _ _ _ = none

parse_whole : Text → Text → Option UrPart
parse_whole type message = do
  guard (is_ur_type type)
  guard (leb (length message) (max_message_bytes * 2))
  cbor ← bytewords_decode message minimal
  some (whole type cbor)

parse_frame : Text → Text → Text → Option UrPart
unfolding parse_seq read_header
parse_frame type seq message = do
  guard (is_ur_type type)
  (seq_num, seq_length) ← parse_seq (split_on b'-' seq)
  guard (leb 1 seq_num && leb 1 seq_length && leb seq_length max_fragments)
  guard (leb (length message) (max_message_bytes * 2))
  body ← bytewords_decode message minimal
  value ← cbor_decode body
  read_header type seq_num seq_length value

parse_components : List Text → Option UrPart
unfolding parse_whole parse_frame
parse_components (type ∷ message ∷ []) = parse_whole type message
parse_components (type ∷ seq ∷ message ∷ []) = parse_frame type seq message
parse_components _ = none

unfoldable pub parse_ur : Text → Option UrPart
unfolding parse_components parse_whole parse_frame parse_seq is_number read_header check_header
    after_prefix
parse_ur text = do rest ← after_prefix (to_lower (trim text)); parse_components (split_on b'/' rest)

-- `urPayloadBytes`
unfoldable pub ur_payload_bytes : List ℕ → Option (List ℕ)
ur_payload_bytes cbor = elim (cbor_decode cbor) [ some (bytes b) ↦ some b | _ ↦ none ]
