-- ===== src/Airgap/Base32.antt =====
-- src/airgap/envelope.ts, base32: five bits to a character, no padding. A buffer is its 32-bit
-- pattern, which `>>>` reads as unsigned.
pub mod Alphabet
pub mod RoundTrip
use labyrinth_vault.Prelude.{
  ℕ, zero, suc, ◌+◌, ◌-◌, ◌*◌, ◌/◌, ◌%◌, ◌^◌, bit_and, bit_or, Bool, ◌&&◌, ◌||◌, ◌++◌, List, [],
  ◌∷◌, Option, none, some, ltb, leb, ◌==◌, if◌then◌else◌, ◌>>=◌, Text, codes,
}

-- B32
abbrev pub alphabet : Text
alphabet = codes "ABCDEFGHIJKLMNOPQRSTUVWXYZ234567"

-- `text[i]`, at an index below the length.
abbrev pub char_at : Text → ℕ → ℕ
char_at [] i = 0
char_at (c ∷ s) zero = c
char_at (c ∷ s) (suc i) = char_at s i

-- `text.indexOf(c)` of one character; `none` is a negative result.
abbrev pub index_of : ℕ → Text → Option ℕ
index_of c [] = none
index_of c (d ∷ s) = if c == d then some 0 else (index_of c s >>= λ i. some (suc i))

-- `x << k` and `x >>> k`
abbrev pub shl : ℕ → ℕ → ℕ
shl x k = x * 2 ^ k % 2 ^ 32

abbrev pub shr : ℕ → ℕ → ℕ
shr x k = x / 2 ^ k

-- `while (bits >= 5)`: the characters written, and the bits that stay.
pub drain : ℕ → ℕ → Text × ℕ
drain buffer (suc (suc (suc (suc (suc bits))))) =
    let (out, left) = drain buffer bits in
    (char_at alphabet (bit_and (shr buffer bits) 31) ∷ out, left)
drain buffer bits = ([], bits)

pub encode_from : ℕ → ℕ → List ℕ → Text
encode_from buffer bits [] =
    if ltb 0 bits then char_at alphabet (bit_and (shl buffer (5 - bits)) 31) ∷ [] else []
encode_from buffer bits (byte ∷ bytes) =
    let next = bit_or (shl buffer 8) byte in
    let (out, left) = drain next (bits + 8) in out ++ encode_from next left bytes

unfoldable pub base32_encode : List ℕ → Text
unfolding encode_from drain
base32_encode bytes = encode_from 0 0 bytes

pub decode_from : ℕ → ℕ → Text → Option (List ℕ)
decode_from buffer bits [] = some []
decode_from buffer bits (ch ∷ text) = do
  value ← index_of ch alphabet
  let next = bit_or (shl buffer 5) value
  let full = leb 8 (bits + 5)
  more ← decode_from next (if full then bits + 5 - 8 else bits + 5) text
  some (if full then bit_and (shr next (bits + 5 - 8)) 0xff ∷ more else more)

-- `toUpperCase` as far as the alphabet can tell: the small letters, and the ten other characters
-- whose capitals are plain letters. Any other character has a capital outside the alphabet.
pub upper_one : ℕ → Text
upper_one c =
    if leb b'a' c && leb c b'z'
    then (c - 32) ∷ []
    else if c == 0xdf
    then codes "SS"
    else if c == 0x131
    then codes "I"
    else if c == 0x17f
    then codes "S"
    else if c == 0xfb00
    then codes "FF"
    else if c == 0xfb01
    then codes "FI"
    else if c == 0xfb02
    then codes "FL"
    else if c == 0xfb03
    then codes "FFI"
    else if c == 0xfb04
    then codes "FFL"
    else if c == 0xfb05 || c == 0xfb06
    then codes "ST"
    else c ∷ []

pub to_upper : Text → Text
to_upper [] = []
to_upper (c ∷ s) = upper_one c ++ to_upper s

unfoldable pub base32_decode : Text → Option (List ℕ)
unfolding decode_from to_upper upper_one
base32_decode text = decode_from 0 0 (to_upper text)
