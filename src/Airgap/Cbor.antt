-- ===== src/Airgap/Cbor.antt =====
-- src/airgap/cbor.ts: the two halves of the wire's CBOR, the reader and its writer. The cursor is
-- the rest of the bytes. A number is written only if it fits 32 bits, as the source's check has it.
pub mod Heads
pub mod RoundTrip
pub mod Canonical
pub mod Sizes
use labyrinth_vault.Prelude.{
  ℕ, zero, suc, ◌+◌, ◌-◌, ◌*◌, ◌/◌, ◌%◌, ◌^◌, ◌++◌, Bool, true, false, List, [], ◌∷◌, Option, none,
  some, if◌then◌else◌, ltb, leb, ◌==◌, ◌>>=◌, ◌>>◌, guard, length, take, drop, bit_or, bit_and,
}

mutual
  -- A number, bytes, or an array.
  pub data CborValue : Type 0 where
    number : ℕ → CborValue
    bytes : List ℕ → CborValue
    array : CborList → CborValue

  pub data CborList : Type 0 where
    end : CborList
    item : CborValue → CborList → CborList

unfoldable pub count : CborList → ℕ
count end = 0
count (item v vs) = suc (count vs)

-- `(n >>> shift) & 0xff`
pub byte_at : ℕ → ℕ → ℕ
byte_at shift n = bit_and (n % 2 ^ 32 / 2 ^ shift) 0xff

-- `head`; a type is `major << 5`.
unfoldable pub head : ℕ → ℕ → List ℕ
unfolding byte_at
head major n =
    let type = major * 2 ^ 5 in
    if ltb n 24
    then bit_or type n ∷ []
    else if ltb n 0x100
    then bit_or type 24 ∷ n ∷ []
    else if ltb n 0x10000
    then bit_or type 25 ∷ byte_at 8 n ∷ byte_at 0 n ∷ []
    else bit_or type 26 ∷ byte_at 24 n ∷ byte_at 16 n ∷ byte_at 8 n ∷ byte_at 0 n ∷ []

mutual
  -- `write`, where `none` is the exception for a number that does not fit.
  pub write : CborValue → Option (List ℕ)
  write (number n) = if ltb 0xffffffff n then none else some (head 0 n)
  write (bytes b) = some (head 2 (length b) ++ b)
  write (array vs) = do rest ← write_all vs; some (head 4 (count vs) ++ rest)

  pub write_all : CborList → Option (List ℕ)
  write_all end = some []
  write_all (item v vs) = do first ← write v; rest ← write_all vs; some (first ++ rest)

unfoldable pub cbor_encode : CborValue → Option (List ℕ)
unfolding write head count
cbor_encode v = write v

-- A big-endian number of `width` bytes from the rest, and the rest behind it.
pub take_number : ℕ → ℕ → List ℕ → Option (ℕ × List ℕ)
take_number zero n rest = some (n, rest)
take_number (suc width) n [] = none
take_number (suc width) n (b ∷ rest) = take_number width (n * 256 + b) rest

abbrev pub width_of : ℕ → ℕ
width_of info = if info == 24 then 1 else if info == 25 then 2 else if info == 26 then 4 else 0

abbrev pub minimal_width : ℕ → ℕ
minimal_width n = if ltb n 24 then 0 else if ltb n 0x100 then 1 else if ltb n 0x10000 then 2 else 4

-- The major type, the length, and the rest of the bytes.
unfoldable pub read_head : List ℕ → Option (ℕ × (ℕ × List ℕ))
unfolding take_number
read_head [] = none
read_head (initial ∷ rest) =
    let major = initial / 2 ^ 5 in
    let info = bit_and initial 31 in
    if ltb info 24 then some (major, (info, rest)) else do
      guard (ltb 0 (width_of info))
      (n, after) ← take_number (width_of info) 0 rest
      guard (width_of info == minimal_width n)
      some (major, (n, after))

-- The loop over the items of an array, each read by `reader`.
pub read_items : (List ℕ → Option (CborValue × List ℕ)) → ℕ → List ℕ → Option (CborList × List ℕ)
read_items reader zero rest = some (end, rest)
read_items reader (suc n) rest = do
  (v, after) ← reader rest
  (vs, last) ← read_items reader n after
  some (item v vs, last)

-- What `read` does with a head, where `reader` reads one level deeper.
pub read_body :
    (List ℕ → Option (CborValue × List ℕ)) → ℕ → ℕ → List ℕ → Option (CborValue × List ℕ)
read_body reader major n rest =
    if major == 0
    then some (number n, rest)
    else if major == 2
    then (if ltb (length rest) n then none else some (bytes (take n rest), drop n rest))
    else if major == 4
    then (read_items reader n rest >>= λ r. some (array r.0, r.1))
    else none

-- `read`, with the levels that are left: five at depth 0.
pub read : ℕ → List ℕ → Option (CborValue × List ℕ)
read zero rest = none
read (suc levels) rest = do
  (major, (n, after)) ← read_head rest
  read_body (read levels) major n after

unfoldable pub cbor_decode : List ℕ → Option CborValue
unfolding read read_body read_items read_head
cbor_decode b = do (v, rest) ← read 5 b; guard (length rest == 0); some v

mutual
  -- What is written and not read: booleans, maps with numbers for keys, and tags besides.
  pub data CborWritable : Type 0 where
    boolean : Bool → CborWritable
    plain : ℕ → CborWritable
    string : List ℕ → CborWritable
    sequence : CborItems → CborWritable
    mapping : CborPairs → CborWritable
    tagged : ℕ → CborWritable → CborWritable

  pub data CborItems : Type 0 where
    no_item : CborItems
    next_item : CborWritable → CborItems → CborItems

  pub data CborPairs : Type 0 where
    no_pair : CborPairs
    pair : ℕ → CborWritable → CborPairs → CborPairs

pub count_items : CborItems → ℕ
count_items no_item = 0
count_items (next_item v vs) = suc (count_items vs)

pub count_pairs : CborPairs → ℕ
count_pairs no_pair = 0
count_pairs (pair k v ps) = suc (count_pairs ps)

mutual
  -- `writeRich`
  pub write_rich : CborWritable → Option (List ℕ)
  write_rich (boolean b) = some (bit_or 0xe0 (if b then 21 else 20) ∷ [])
  write_rich (plain n) = write (number n)
  write_rich (string b) = write (bytes b)
  write_rich (sequence vs) = do rest ← write_items vs; some (head 4 (count_items vs) ++ rest)
  write_rich (mapping ps) = do rest ← write_pairs ps; some (head 5 (count_pairs ps) ++ rest)
  write_rich (tagged tag v) = do rest ← write_rich v; some (head 6 tag ++ rest)

  pub write_items : CborItems → Option (List ℕ)
  write_items no_item = some []
  write_items (next_item v vs) = do
    first ← write_rich v
    rest ← write_items vs
    some (first ++ rest)

  pub write_pairs : CborPairs → Option (List ℕ)
  write_pairs no_pair = some []
  write_pairs (pair k v ps) = do
    first ← write_rich v
    rest ← write_pairs ps
    some (head 0 k ++ (first ++ rest))

unfoldable pub cbor_write : CborWritable → Option (List ℕ)
unfolding write_rich write head count count_items count_pairs
cbor_write v = write_rich v
