-- ===== src/Airgap/Base43.antt =====
-- src/airgap/base43.ts: bytes as one number in base 43, with leading zeros kept apart.
pub mod Digits
pub mod RoundTrip
pub mod Refusal
mod Runs
use labyrinth_vault.Prelude.{
  ℕ, zero, suc, ◌+◌, ◌*◌, ◌/◌, ◌%◌, ◌++◌, List, [], ◌∷◌, Option, none, some, ltb, leb, ◌==◌,
  if◌then◌else◌, ◌>>=◌, Text, codes, length, drop, get_elem?,
}

-- ALPHABET
abbrev pub alphabet : Text
alphabet = codes "0123456789ABCDEFGHIJKLMNOPQRSTUVWXYZ$*+-./:"

-- MAX_ALPHANUMERIC_QR_CHARS
abbrev pub max_qr_chars : ℕ
max_qr_chars = 4296

-- The loop that counts the items at the front that are `z`.
pub leading : ℕ → List ℕ → ℕ
leading z [] = 0
leading z (x ∷ xs) = let more = suc (leading z xs) in if x == z then more else 0

-- The loop that reads digits of a base, the first the most significant.
pub number_from : ℕ → ℕ → List ℕ → ℕ
number_from base num [] = num
number_from base num (d ∷ ds) = number_from base (num * base + d) ds

-- The loop that takes digits off a number, the last in front, on as much fuel as the number: a
-- division by a base above 1 makes it smaller.
pub digits_from : ℕ → ℕ → ℕ → List ℕ → List ℕ
digits_from base zero num out = out
digits_from base (suc fuel) num out =
    let rest = digits_from base fuel (num / base) (num % base ∷ out) in
    if num == 0 then out else rest

pub repeat : ℕ → ℕ → List ℕ
repeat zero x = []
repeat (suc n) x = x ∷ repeat n x

or_zero : Option ℕ → ℕ
or_zero none = 0
or_zero (some c) = c

-- `ALPHABET[digit]!`
pub digit_char : ℕ → ℕ
unfolding or_zero
digit_char d = or_zero (get_elem? alphabet d)

pub write_digits : List ℕ → Text
unfolding digit_char or_zero
write_digits [] = []
write_digits (d ∷ ds) = digit_char d ∷ write_digits ds

unfoldable pub base43_encode : List ℕ → Text
unfolding leading number_from digits_from repeat write_digits
base43_encode bytes =
    let zeros = leading 0 bytes in
    let num = number_from 256 0 (drop zeros bytes) in
    repeat zeros b'0' ++ write_digits (digits_from 43 num num [])

-- `ALPHABET.indexOf(c)`, where `none` is the -1.
index_of : ℕ → Text → ℕ → Option ℕ
index_of c [] i = none
index_of c (x ∷ xs) i = let later = index_of c xs (i + 1) in if x == c then some i else later

pub digit_of : ℕ → Option ℕ
unfolding index_of
digit_of c = index_of c alphabet 0

-- The loop over the text, which a character outside the alphabet ends.
pub read_number : ℕ → Text → Option ℕ
unfolding digit_of
read_number num [] = some num
read_number num (c ∷ s) = do d ← digit_of c; read_number (num * 43 + d) s

unfoldable pub base43_decode : Text → Option (List ℕ)
unfolding leading read_number digit_of index_of digits_from repeat
base43_decode text =
    let zeros = leading b'0' text in
    (read_number 0 (drop zeros text) >>= λ num. some (repeat zeros 0 ++ digits_from 256 num num []))

unfoldable pub base43_frame : List ℕ → Option (List Text)
base43_frame psbt =
    let encoded = base43_encode psbt in
    if leb (length encoded) max_qr_chars then some (encoded ∷ []) else none
