-- ===== src/Airgap/Bytewords/RoundTrip.antt =====
-- src/airgap/bytewords.ts, the minimal style, which the wire uses: the round trip.
use labyrinth_vault.Prelude.{
  ℕ, ◌+◌, ◌-◌, ◌*◌, ◌/◌, ◌%◌, ◌^◌, ◌≡◌, ◌≤◌, ◌<◌, refl, ap, ◌∙◌, ◌++◌, true, false, ◌&&◌, List, [],
  ◌∷◌, Option, none, some, ==_iff, ==_refl, is_lower, Text, arith, All, All-append, IsByte, IsInk,
  IsInk-of_range, trim_of_ink, trim, length, length-append, take-append, drop-append, all, leb,
}
use labyrinth_vault.Prelude.Bits.{all_below→, bit_and_low}
use labyrinth_vault.Airgap.Crc.{crc32}
use labyrinth_vault.Airgap.Crc.Change.{crc32-lt}
use labyrinth_vault.Airgap.Bytewords.{
  minimal, minimal_for, minimal_index, find, pairs_of, read_pairs, to_lower, lower_one,
  with_checksum, check, number_from_bytes, checksum_byte, read_style, bytewords_encode,
  bytewords_decode,
}
use labyrinth_vault.Airgap.Bytewords.Tables.{is_pair, is_found, pair_table}

-- The two letters of a byte.
record IsPairOf (x : ℕ) : Type 0 where
  first : ℕ
  second : ℕ
  form : minimal_for x ≡ first ∷ second ∷ []
  low_first : is_lower first ≡ true
  low_second : is_lower second ≡ true
  found : find (first ∷ second ∷ []) minimal_index ≡ some x

found_some : (o : Option ℕ) (x : ℕ) → is_found o x ≡ true → o ≡ some x
unfolding is_found
found_some none x h = cc
found_some (some y) x h = ap some ((==_iff y x).0 h)

is_pair-IsPairOf : (x : ℕ) → is_pair x ≡ true → IsPairOf x
unfolding is_pair
is_pair-IsPairOf x h = go (minimal_for x) refl h
  where
    go :
        (w : Text)
        → minimal_for x ≡ w
        → (elim w [
          | c ∷ d ∷ [] ↦ is_lower c && is_lower d && is_found (find (c ∷ d ∷ []) minimal_index) x
          | _ ↦ false
        ])
          ≡ true
        → IsPairOf x
    go [] e h = cc
    go (c ∷ []) e h = cc
    go (c ∷ d ∷ []) e h =
        let q : (is_lower c ≡ true)
            × (is_lower d ≡ true)
            × (is_found (find (c ∷ d ∷ []) minimal_index) x ≡ true) =
          ground arith in
        record {
          first = c;
          second = d;
          form = e;
          low_first = q.0;
          low_second = q.1;
          found = found_some _ x q.2;
        }
    go (c ∷ d ∷ e' ∷ w) e h = cc

pair_of : (x : ℕ) → x < 256 → IsPairOf x
pair_of x h = is_pair-IsPairOf x (all_below→ 256 is_pair x pair_table h)

lower_self : (c : ℕ) → 97 ≤ c → c < 123 → lower_one c ≡ c ∷ []
unfolding lower_one
lower_self c h k = ground arith

lower_lem : (s : Text) → all is_lower s ≡ true → (to_lower s ≡ s) × All IsInk s
unfolding to_lower
lower_lem [] h = (refl, tt)
lower_lem (c ∷ s) h =
    let q : (97 ≤ c) × (c < 123) × (all is_lower s ≡ true) = ground arith in
    let r = lower_lem s q.2 in
    (
      rw (lower_self c q.0 q.1, r.0) refl,
      (IsInk-of_range c (omega (arith, q.0)) (omega (arith, q.1)), r.1),
    )

pairs-lower :
    (bs : List ℕ)
    → All IsByte bs
    → (all is_lower (pairs_of bs) ≡ true)
      × (length (pairs_of bs) % 2 ≡ 0)
      × (read_pairs (pairs_of bs) ≡ some bs)
unfolding pairs_of read_pairs
pairs-lower [] h = (refl, refl, refl)
pairs-lower (b ∷ bs) (h, hs) =
    let p = pair_of b h in
    let (x, y, z) = pairs-lower bs hs in
    rw (p.form)
      (ground (arith, p.low_first, p.low_second, x), omega (arith, y), rw (p.found, z) refl)

-- The checksum's bytes, read big-endian, are the checksum.
four_bytes :
    (crc : ℕ)
    → crc < 2 ^ 32
    → number_from_bytes 0 (
        checksum_byte crc 24
        ∷ checksum_byte crc 16
        ∷ checksum_byte crc 8
        ∷ checksum_byte crc 0
        ∷ [])
      ≡ crc
unfolding number_from_bytes checksum_byte
four_bytes crc h =
    rw
      (
        bit_and_low 8 (crc / 2 ^ 24),
        bit_and_low 8 (crc / 2 ^ 16),
        bit_and_low 8 (crc / 2 ^ 8),
        bit_and_low 8 (crc / 2 ^ 0),
      )
      (omega (arith, h))

checksum_byte-IsByte : (crc shift : ℕ) → IsByte (checksum_byte crc shift)
unfolding checksum_byte
checksum_byte-IsByte crc shift = rw (bit_and_low 8 (crc / 2 ^ shift)) (omega arith)

with_checksum-IsByte : (payload : List ℕ) → All IsByte payload → All IsByte (with_checksum payload)
unfolding with_checksum
with_checksum-IsByte payload h =
    let b = checksum_byte-IsByte (crc32 payload) in
    All-append IsByte payload _ h (b 24, (b 16, (b 8, (b 0, tt))))

check_tail :
    (payload tail : List ℕ)
    → length tail ≡ 4
    → number_from_bytes 0 tail ≡ crc32 payload
    → check (payload ++ tail) ≡ some payload
unfolding check
check_tail payload tail four crc =
    let long : leb 4 (length (payload ++ tail)) ≡ true =
      ground (arith, length-append payload tail) in
    let size : length (payload ++ tail) - 4 ≡ length payload =
      omega (arith, length-append payload tail, four) in
    rw
      (long, size, take-append payload tail, drop-append payload tail, crc, ==_refl (crc32 payload))
      refl

check-with_checksum : (payload : List ℕ) → check (with_checksum payload) ≡ some payload
unfolding with_checksum
check-with_checksum payload =
    check_tail payload _ refl (four_bytes (crc32 payload) (crc32-lt payload))

-- The text of bytes has no space around it and no capital.
pub encoded_clean :
    (payload : List ℕ)
    → All IsByte payload
    → to_lower (trim (bytewords_encode payload minimal)) ≡ bytewords_encode payload minimal
unfolding bytewords_encode
encoded_clean payload h =
    let (x, y, z) = pairs-lower (with_checksum payload) (with_checksum-IsByte payload h) in
    let (l, i) = lower_lem (pairs_of (with_checksum payload)) x in rw (trim_of_ink _ i, l) refl

-- The minimal style gives back the bytes that it was given.
pub bytewords_decode-bytewords_encode :
    (payload : List ℕ)
    → All IsByte payload
    → bytewords_decode (bytewords_encode payload minimal) minimal ≡ some payload
unfolding bytewords_decode bytewords_encode read_style
bytewords_decode-bytewords_encode payload h =
    let (x, y, z) = pairs-lower (with_checksum payload) (with_checksum-IsByte payload h) in
    let (l, i) = lower_lem (pairs_of (with_checksum payload)) x in
    rw (trim_of_ink _ i, l, x, y, z) (check-with_checksum payload)

length-pairs_of : (bs : List ℕ) → All IsByte bs → length (pairs_of bs) ≡ 2 * length bs
unfolding pairs_of
length-pairs_of [] h = refl
length-pairs_of (b ∷ bs) (h, hs) =
    let p = pair_of b h in rw (p.form) (omega (arith, length-pairs_of bs hs))

-- Two lower-case letters for each byte and for each of the checksum's four.
pub bytewords_encode-minimal :
    (payload : List ℕ)
    → All IsByte payload
    → (all is_lower (bytewords_encode payload minimal) ≡ true)
      × (length (bytewords_encode payload minimal) ≡ 2 * (length payload + 4))
unfolding bytewords_encode with_checksum
bytewords_encode-minimal payload h =
    let bytes = with_checksum-IsByte payload h in
    (
      (pairs-lower (with_checksum payload) bytes).0,
      length-pairs_of (with_checksum payload) bytes
          ∙ ap (λ n. 2 * n)
              (length-append payload (
                checksum_byte (crc32 payload) 24
                ∷ checksum_byte (crc32 payload) 16
                ∷ checksum_byte (crc32 payload) 8
                ∷ checksum_byte (crc32 payload) 0
                ∷ [])),
    )
