-- ===== src/Airgap/Bytewords/Canonical.antt =====
-- src/airgap/bytewords.ts, the minimal style: the texts that the reader accepts.
use labyrinth_vault.Prelude.{
  ℕ, zero, suc, ◌+◌, ◌-◌, ◌/◌, ◌%◌, ◌^◌, ◌≡◌, ◌<◌, ◌↔◌, refl, sym, ap, ◌∙◌, ◌++◌, ◌&&◌, List, [],
  ◌∷◌, some, ◌>>=◌, ==_iff, ◌==◌, leb, is_lower, Text, text_eq, eq_of_text_eq, arith, All, IsByte,
  trim, length, length-drop, bit_and, take, drop, take-append-drop, All-drop, all, Bool-cases,
  Option-cases, inl, inr,
}
use labyrinth_vault.Prelude.Bits.{bit_and_low}
use labyrinth_vault.Airgap.Crc.{crc32}
use labyrinth_vault.Airgap.Bytewords.{
  minimal, minimal_for, minimal_index, entries, find, pairs_of, read_pairs, to_lower, with_checksum,
  check, number_from_bytes, checksum_byte, read_style, bytewords_encode, bytewords_decode,
}
use labyrinth_vault.Airgap.Bytewords.RoundTrip.{bytewords_decode-bytewords_encode, encoded_clean}

-- A word that is found stands in the index, for the byte that it is found for.
find-entries :
    (form : ℕ → Text) (t : Text) (n b c : ℕ)
    → find t (entries form n b) ≡ some c
    → (form c ≡ t) × (c < b + n)
unfolding find entries
find-entries form t zero b c e = cc
find-entries form t (suc n) b c e = elim (Option-cases (find t (entries form n (b + 1)))) [
  | inr (d, later) ↦
      let q = rw later at e in
      let same : d ≡ c = cc in
      let r = find-entries form t n (b + 1) d later in rw (← same) (r.0, omega (arith, r.1))
  | inl none_later ↦ elim (Bool-cases (text_eq (form b) t)) [
    | inl here ↦
        let q = rw (none_later, here) at e in
        let same : b ≡ c = cc in rw (← same) (eq_of_text_eq (form b) t here, omega arith)
    | inr other ↦ let q = rw (none_later, other) at e in cc
  ]
]

find-minimal : (t : Text) (c : ℕ) → find t minimal_index ≡ some c → (minimal_for c ≡ t) × IsByte c
unfolding minimal_index
find-minimal t c e = let (w, l) = find-entries minimal_for t 256 0 c e in (w, omega (arith, l))

-- The letters that are read are those of the bytes.
read_pairs-pairs_of :
    (s : Text) (bs : List ℕ) → read_pairs s ≡ some bs → (pairs_of bs ≡ s) × All IsByte bs
unfolding read_pairs pairs_of
read_pairs-pairs_of [] bs e = let same : [] ≡ bs = cc in rw (← same) (refl, tt)
read_pairs-pairs_of (c ∷ []) bs e = cc
read_pairs-pairs_of (c ∷ d ∷ s) bs e = elim (Option-cases (find (c ∷ d ∷ []) minimal_index)) [
  | inl absent ↦ let q = rw absent at e in cc
  | inr (b, here) ↦ elim (Option-cases (read_pairs s)) [
    | inl absent ↦ let q = rw (here, absent) at e in cc
    | inr (rest, more) ↦
        let q = rw (here, more) at e in
        let same : b ∷ rest ≡ bs = cc in
        let (w, l) = find-minimal (c ∷ d ∷ []) b here in
        let (ws, ls) = read_pairs-pairs_of s rest more in rw (← same) (rw (w, ws) refl, (l, ls))
  ]
]

-- Four bytes whose number is the checksum are the checksum's.
checksum_tail :
    (crc : ℕ) (tail : List ℕ)
    → length tail ≡ 4
    → All IsByte tail
    → crc ≡ number_from_bytes 0 tail
    → checksum_byte crc 24 ∷ checksum_byte crc 16 ∷ checksum_byte crc 8 ∷ checksum_byte crc 0 ∷ []
      ≡ tail
unfolding number_from_bytes checksum_byte
checksum_tail crc (a ∷ b ∷ c ∷ d ∷ []) l (ha, (hb, (hc, (hd, u)))) e =
    let ea : bit_and (crc / 2 ^ 24) 0xff ≡ a = omega (arith, bit_and_low 8 (crc / 2 ^ 24)) in
    let eb : bit_and (crc / 2 ^ 16) 0xff ≡ b = omega (arith, bit_and_low 8 (crc / 2 ^ 16)) in
    let ec : bit_and (crc / 2 ^ 8) 0xff ≡ c = omega (arith, bit_and_low 8 (crc / 2 ^ 8)) in
    let ed : bit_and (crc / 2 ^ 0) 0xff ≡ d = omega (arith, bit_and_low 8 (crc / 2 ^ 0)) in
    rw (ea, eb, ec, ed) refl
checksum_tail crc [] l h e = absurd (omega arith)
checksum_tail crc (a ∷ []) l h e = absurd (omega arith)
checksum_tail crc (a ∷ b ∷ []) l h e = absurd (omega arith)
checksum_tail crc (a ∷ b ∷ c ∷ []) l h e = absurd (omega arith)
checksum_tail crc (a ∷ b ∷ c ∷ d ∷ x ∷ xs) l h e = absurd (omega arith)

-- Bytes that pass the check are a payload and its checksum.
check-IsChecksummed :
    (bs payload : List ℕ) → All IsByte bs → check bs ≡ some payload → with_checksum payload ≡ bs
unfolding check with_checksum
check-IsChecksummed bs payload h e =
    let n = length bs - 4 in
    elim (Bool-cases (leb 4 (length bs))) [
      | inr short ↦ let q = rw short at e in cc
      | inl long ↦ elim (Bool-cases (crc32 (take n bs) == number_from_bytes 0 (drop n bs))) [
        | inr other ↦ let q = rw (long, other) at e in cc
        | inl summed ↦
            let q = rw (long, summed) at e in
            let same : take n bs ≡ payload = cc in
            let tail =
              checksum_tail (crc32 (take n bs)) (drop n bs) (ground (arith, length-drop n bs))
                (All-drop IsByte n bs h) ((==_iff _ _).0 summed) in
            rw (← same) (ap (λ t. take n bs ++ t) tail ∙ take-append-drop n bs)
      ]
    ]

decoded-is_encoded :
    (text : Text) (payload : List ℕ)
    → bytewords_decode text minimal ≡ some payload
    → to_lower (trim text) ≡ bytewords_encode payload minimal
unfolding bytewords_decode bytewords_encode read_style
decoded-is_encoded text payload e = of_clean (to_lower (trim text)) e
  where
    of_clean :
        (clean : Text)
        → read_style minimal clean >>= check ≡ some payload
        → clean ≡ pairs_of (with_checksum payload)
    of_clean clean e = elim (Bool-cases (all is_lower clean && length clean % 2 == 0)) [
      | inr bad ↦ let q = rw bad at e in cc
      | inl good ↦ elim (Option-cases (read_pairs clean)) [
        | inl absent ↦ let q = rw (good, absent) at e in cc
        | inr (bs, found) ↦
            let q : check bs ≡ some payload = rw (good, found) at e in
            let (w, l) = read_pairs-pairs_of clean bs found in
            sym (rw (check-IsChecksummed bs payload l q) w)
      ]
    ]

-- The minimal style, for any payload of bytes: the text written for it is read back as the payload; and
-- a text is read as the payload exactly if, without the space around it and in small letters, it is
-- the text that is written for it, the letters of the payload's CRC-32 included.
pub bytewords_decode-canonical :
    (payload : List ℕ) (text : Text)
    → All IsByte payload
    → (bytewords_decode (bytewords_encode payload minimal) minimal ≡ some payload)
      × ((bytewords_decode text minimal ≡ some payload)
          ↔ (to_lower (trim text) ≡ bytewords_encode payload minimal))
unfolding bytewords_decode
bytewords_decode-canonical payload text h =
    let back = bytewords_decode-bytewords_encode payload h in
    (
      back,
      (
        decoded-is_encoded text payload,
        λ e.
            ap (λ (s : Text). read_style minimal s >>= check) (e ∙ sym (encoded_clean payload h))
            ∙ back,
      ),
    )
