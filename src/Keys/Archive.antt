-- ===== src/Keys/Archive.antt =====
-- src/keys/binaryarchive.ts: Monero's binary archive, reading only. An archive is what its cursor
-- has not reached and the cursor's place, so that `this.bytes.length - this.at` is the length of
-- the rest. A refusal is an `ArchiveError`: what it says, and the byte it names.
pub mod Varint
pub mod Reads
use labyrinth_vault.Prelude.{
  ℕ, zero, suc, ◌+◌, ◌-◌, ◌*◌, ◌/◌, ◌%◌, ◌^◌, bit_and, bit_or, Bool, true, false, not, ◌&&◌, List,
  [], ◌∷◌, ◌++◌, Text, codes, if◌then◌else◌, ltb, leb, ◌==◌, length, take, drop,
}

-- The messages of `ArchiveError`, by what they say.
pub data Complaint : Type 0 where
  needs : Text → ℕ → ℕ → Complaint
  not_a_bool : ℕ → Complaint
  off_the_end trailing_zero too_long overflowed : Complaint
  too_large : Text → Complaint
  claims : Text → ℕ → Complaint
  claims_past : Text → ℕ → ℕ → Complaint
  pair_claims : ℕ → Complaint
  tuple_claims : ℕ → ℕ → Complaint
  left_over : ℕ → Complaint

pub record Archive : Type 0 where
  pub rest : List ℕ
  pub at : ℕ

pub data Read {ℓ} (A : Type ℓ) : Type ℓ where
  ok : A → Archive → Read A
  err : Complaint → ℕ → Read A

infixl 5 ◌>>=◌ ◌>>◌
abbrev pub ◌>>=◌ {ℓ κ} :
    {A : Type ℓ} {B : Type κ} → (Archive → Read A) → (A → Archive → Read B) → Archive → Read B
◌>>=◌ m f s = elim (m s) [ ok a s' ↦ f a s' | err c at ↦ err c at ]

abbrev pub ◌>>◌ {ℓ} :
    {B : Type ℓ} → (Archive → Read (Unit {0})) → (Archive → Read B) → Archive → Read B
m >> k = m >>= λ _. k

abbrev pub pure {ℓ} : {A : Type ℓ} → A → Archive → Read A
pure a s = ok a s

-- `throw new ArchiveError(…, this.at)` when the test holds.
abbrev pub refuse_if : Bool → Complaint → Archive → Read (Unit {0})
refuse_if b c s = if b then err c s.at else ok tt s

-- MAX_ARRAY
abbrev pub max_array : ℕ
max_array = 1000000

-- `remaining`
abbrev pub remaining : Archive → ℕ
remaining s = length s.rest

pub need : ℕ → Text → Archive → Read (Unit {0})
need n what s = refuse_if (ltb (remaining s) n) (needs what n (remaining s)) s

unfoldable pub read_blob : ℕ → Archive → Read (List ℕ)
unfolding need
read_blob n = do
  need n (codes "a blob")
  λ s. ok (take n s.rest) (record { rest = drop n s.rest; at = s.at + n })

unfoldable pub read_key : Archive → Read (List ℕ)
unfolding read_blob
read_key = read_blob 32

-- `this.bytes[this.at++]`, where `need` has made sure of a byte.
pub next_byte : List ℕ → ℕ → Read ℕ
next_byte [] at = err (needs (codes "a byte") 1 0) at
next_byte (b ∷ rest) at = ok b (record { rest = rest; at = at + 1 })

unfoldable pub read_u8 : Archive → Read ℕ
unfolding next_byte
read_u8 s = next_byte s.rest s.at

unfoldable pub read_bool : Archive → Read Bool
unfolding read_u8
read_bool = do
  byte ← read_u8
  λ s. if ltb 1 byte then err (not_a_bool byte) (s.at - 1) else ok (byte == 1) s

-- The four bytes at the cursor as an unsigned number, the lowest first.
pub u32_of : List ℕ → ℕ
u32_of (a ∷ b ∷ c ∷ d ∷ _) =
    bit_or (bit_or (bit_or a (b * 2 ^ 8)) (c * 2 ^ 16)) (d * 2 ^ 24) % 2 ^ 32
u32_of _ = 0

unfoldable pub read_u32 : Archive → Read ℕ
unfolding need u32_of
read_u32 = do
  need 4 (codes "a uint32")
  λ s. ok (u32_of s.rest) (record { rest = drop 4 s.rest; at = s.at + 4 })

-- The loop of `readU64`: the lowest byte is put in last.
pub little_endian : List ℕ → ℕ
little_endian [] = 0
little_endian (b ∷ bs) = bit_or (little_endian bs * 2 ^ 8) b

unfoldable pub read_u64 : Archive → Read ℕ
unfolding need little_endian
read_u64 = do
  need 8 (codes "a uint64")
  λ s. ok (little_endian (take 8 s.rest)) (record { rest = drop 8 s.rest; at = s.at + 8 })

-- The end of the loop below: the bound of 64 bits.
pub fits_u64 : ℕ → ℕ → List ℕ → ℕ → Read ℕ
fits_u64 start value rest at =
    if leb (2 ^ 64) value then err overflowed start else ok value (record { rest = rest; at = at })

-- The loop of `readVarintU64`, from the byte at `at` on.
pub varint_loop : ℕ → List ℕ → ℕ → ℕ → ℕ → Read ℕ
unfolding fits_u64
varint_loop start [] at value shift = err off_the_end start
varint_loop start (byte ∷ rest) at value shift =
    let value' = bit_or value (bit_and byte 0x7f * 2 ^ shift) in
    let more = varint_loop start rest (at + 1) value' (shift + 7) in
    if byte == 0 && not (shift == 0)
    then err trailing_zero at
    else if bit_and byte 0x80 == 0
    then fits_u64 start value' rest (at + 1)
    else if leb 70 (shift + 7)
    then err too_long start
    else more

unfoldable pub read_varint_u64 : Archive → Read ℕ
unfolding varint_loop
read_varint_u64 s = varint_loop s.at s.rest s.at 0 0

-- Up to `Number.MAX_SAFE_INTEGER`.
unfoldable pub read_varint_number : Text → Archive → Read ℕ
unfolding read_varint_u64
read_varint_number what = do
  value ← read_varint_u64
  refuse_if (ltb (2 ^ 53 - 1) value) (too_large what)
  pure value

unfoldable pub read_count : Text → ℕ → Archive → Read ℕ
unfolding read_varint_number
read_count what minimum_element_bytes = do
  count ← read_varint_number (what ++ codes " count")
  refuse_if (ltb max_array count) (claims what count)
  λ s.
      refuse_if (ltb (remaining s) (count * minimum_element_bytes))
        (claims_past what count (remaining s)) s
  pure count

module _ {ℓ} {A : Type ℓ} (read : ℕ → Archive → Read A) where
  -- The loop of `readArray`, from element `i` on.
  pub read_elements : ℕ → ℕ → Archive → Read (List A)
  read_elements zero i = pure []
  read_elements (suc n) i = do a ← read i; rest ← read_elements n (i + 1); pure (a ∷ rest)

  unfoldable pub read_array : Text → ℕ → Archive → Read (List A)
  unfolding read_elements read_count
  read_array what minimum_element_bytes = do
    count ← read_count what minimum_element_bytes
    read_elements count 0

unfoldable pub expect_pair : Archive → Read (Unit {0})
unfolding read_varint_number
expect_pair = do
  two ← read_varint_number (codes "a pair")
  refuse_if (not (two == 2)) (pair_claims two)

unfoldable pub expect_tuple : ℕ → Archive → Read (Unit {0})
unfolding read_varint_number
expect_tuple arity = do
  got ← read_varint_number (codes "a tuple")
  refuse_if (not (got == arity)) (tuple_claims got arity)

-- The bytes of a string, which a `TextDecoder` then reads as UTF-8.
module _ (decode : List ℕ → Text) where
  unfoldable pub read_string : Text → Archive → Read Text
  unfolding read_count read_blob
  read_string what = do count ← read_count what 1; bytes ← read_blob count; pure (decode bytes)

unfoldable pub expect_end : Archive → Read (Unit {0})
expect_end s = refuse_if (not (remaining s == 0)) (left_over (remaining s)) s
