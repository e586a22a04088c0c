-- ===== src/Airgap/Bbqr.antt =====
-- src/airgap/bbqr.ts: BBQr frames, their header, and the series put together again.
pub mod Header
use labyrinth_vault.Prelude.{
  ℕ, zero, suc, ◌+◌, ◌-◌, ◌*◌, ◌/◌, ◌%◌, ◌^◌, ◌++◌, bit_and, bit_or, Bool, true, false, ◌&&◌, ◌||◌,
  not, List, [], ◌∷◌, Option, none, some, if◌then◌else◌, ltb, leb, ◌==◌, ◌>>=◌, ◌>>◌, guard, length,
  take, drop, max, Text, codes, text_eq,
}
use labyrinth_vault.Airgap.Base32.{alphabet, char_at, index_of, shl, shr, base32_encode}
use labyrinth_vault.Airgap.Envelope.{get_part, set_part}

-- BASE36
abbrev pub digits36 : Text
digits36 = codes "0123456789ABCDEFGHIJKLMNOPQRSTUVWXYZ"

abbrev pub header_length : ℕ
header_length = 8

pub data BbqrType : Type 0 where
  psbt transaction json text cbor : BbqrType

abbrev pub type_char : BbqrType → ℕ
type_char psbt = b'P'
type_char transaction = b'T'
type_char json = b'J'
type_char text = b'U'
type_char cbor = b'C'

-- KNOWN_TYPES
abbrev pub known_types : Text
known_types = codes "PTJUC"

abbrev pub max_frames : ℕ
max_frames = 36 * 36

-- `base32Encode`: the loop of envelope.ts with `>>` for `>>>`, whose sign the mask removes.
pub body_of : List ℕ → Text
body_of bytes = base32_encode bytes

-- `base32Decode`: what is left at the end must be less than a character, and zero.
pub strict_from : ℕ → ℕ → Text → Option (List ℕ)
strict_from buffer bits [] =
    if leb 5 bits || not (bit_and buffer (2 ^ bits - 1) == 0) then none else some []
strict_from buffer bits (ch ∷ rest) = do
  value ← index_of ch alphabet
  let next = bit_or (shl buffer 5) value
  let full = leb 8 (bits + 5)
  more ← strict_from next (if full then bits + 5 - 8 else bits + 5) rest
  some (if full then bit_and (shr next (bits + 5 - 8)) 255 ∷ more else more)

-- `BASE36[n]` in a concatenation: past the end it is the text of `undefined`.
unfoldable pub digit36 : ℕ → Text
digit36 n = if ltb n 36 then char_at digits36 n ∷ [] else codes "undefined"

unfoldable pub base36_pair : ℕ → Text
base36_pair n = digit36 (n / 36) ++ digit36 (n % 36)

pub read_base36_pair : Text → Option ℕ
read_base36_pair (a ∷ b ∷ _) = do
  high ← index_of a digits36
  low ← index_of b digits36
  some (high * 36 + low)
read_base36_pair _ = none

pub frame_of : BbqrType → ℕ → ℕ → Text → Text
frame_of type parts i body =
    codes "B$2" ++ type_char type ∷ (base36_pair parts ++ (base36_pair i ++ body))

-- `n` frames from number `i` on.
frames_of : BbqrType → ℕ → ℕ → Text → ℕ → ℕ → List Text
frames_of type parts size encoded zero i = []
frames_of type parts size encoded (suc n) i =
    frame_of type parts i (take size (drop (i * size) encoded))
    ∷ frames_of type parts size encoded n (i + 1)

unfoldable pub bbqr_encode : List ℕ → BbqrType → ℕ → Option (List Text)
unfolding frames_of frame_of base36_pair digit36 body_of
bbqr_encode payload type body_chars = do
  guard (body_chars % 8 == 0 && leb 8 body_chars)
  let encoded = body_of payload
  let parts = max 1 ((length encoded + body_chars - 1) / body_chars)
  guard (leb parts max_frames)
  some (frames_of type parts body_chars encoded parts 0)

pub record BbqrPart : Type 0 where
  pub encoding : ℕ
  pub type : ℕ
  pub parts : ℕ
  pub index : ℕ
  pub body : Text

pub contains : ℕ → Text → Bool
contains c [] = false
contains c (d ∷ s) = if c == d then true else contains c s

-- A frame of eight characters or more, by its characters.
unfoldable pub bbqr_parse_part : Text → Option BbqrPart
unfolding contains read_base36_pair
bbqr_parse_part (b ∷ s ∷ encoding ∷ type ∷ p ∷ q ∷ i ∷ j ∷ body) = do
  guard (b == b'B' && s == b'$')
  guard (contains type known_types)
  parts ← read_base36_pair (p ∷ q ∷ [])
  index ← read_base36_pair (i ∷ j ∷ [])
  guard (leb 1 parts && ltb index parts)
  some (record { encoding = encoding; type = type; parts = parts; index = index; body = body })
bbqr_parse_part _ = none

pub record BbqrMessage : Type 0 where
  pub type : ℕ
  pub bytes : List ℕ

hex_digit : ℕ → Option ℕ
hex_digit c = index_of c (codes "0123456789ABCDEF")

-- `hexDecode`
pub hex_decode : Text → Option (List ℕ)
unfolding hex_digit
hex_decode [] = some []
hex_decode (c ∷ []) = none
hex_decode (c ∷ d ∷ s) = do
  high ← hex_digit c
  low ← hex_digit d
  more ← hex_decode s
  some ((high * 16 + low) ∷ more)

-- The loop over the frames, with the bodies so far.
pub collect_bodies : BbqrPart → List Text → List (ℕ × Text) → Option (List (ℕ × Text))
collect_bodies first [] bodies = some bodies
collect_bodies first (frame ∷ frames) bodies = do
  part ← bbqr_parse_part frame
  guard (part.encoding == first.encoding)
  guard (part.type == first.type)
  guard (part.parts == first.parts)
  guard (elim (get_part part.index bodies) [ none ↦ true | some seen ↦ text_eq seen part.body ])
  collect_bodies first frames (set_part part.index part.body bodies)

-- `n` bodies from number `i` on, joined.
pub join_bodies : ℕ → ℕ → List (ℕ × Text) → Option Text
join_bodies zero i bodies = some []
join_bodies (suc n) i bodies = do
  body ← get_part i bodies
  more ← join_bodies n (i + 1) bodies
  some (body ++ more)

unfoldable pub bbqr_decode : List Text → Option BbqrMessage
unfolding collect_bodies join_bodies hex_decode strict_from get_part set_part bbqr_parse_part
bbqr_decode [] = none
bbqr_decode (frame ∷ frames) = do
  first ← bbqr_parse_part frame
  guard (first.encoding == b'2' || first.encoding == b'H')
  bodies ← collect_bodies first (frame ∷ frames) []
  guard (length bodies == first.parts)
  joined ← join_bodies first.parts 0 bodies
  bytes ← (if first.encoding == b'H' then hex_decode joined else strict_from 0 0 joined)
  some (record { type = first.type; bytes = bytes })
