-- ===== src/Airgap/Cbor/RoundTrip.antt =====
-- src/airgap/cbor.ts, the narrow writer and the strict reader: the round trip.
use labyrinth_vault.Prelude.{
  ℕ, zero, suc, ◌^◌, ◌≤◌, ◌<◌, ◌≡◌, refl, ◌∙◌, ◌++◌, append_assoc, append-nil, false, List, [],
  Option, some, ltb, ◌>>=◌, length, length-append, take-append, drop-append, arith, >>=-eq-some,
  max,
}
use mathlib.Core.Path.{subst}
use labyrinth_vault.Airgap.Cbor.{
  CborValue, CborList, number, bytes, array, end, item, count, head, write, write_all, cbor_encode,
  read_head, read_items, read_body, read, cbor_decode,
}
use labyrinth_vault.Airgap.Cbor.Heads.{read_head-head}

-- Reading one item and then the others.
read_items_step :
    (reader : List ℕ → Option (CborValue × List ℕ)) (n : ℕ) (bs after last : List ℕ) (v : CborValue)
    (vs : CborList)
    → reader bs ≡ some (v, after)
    → read_items reader n after ≡ some (vs, last)
    → read_items reader (suc n) bs ≡ some (item v vs, last)
unfolding read_items
read_items_step reader n bs after last v vs e f = rw (e, f) refl

unfoldable mutual
  -- The levels of a value, and what its numbers and lengths must fit.
  pub levels : CborValue → ℕ
  levels (number n) = 1
  levels (bytes b) = 1
  levels (array vs) = suc (levels_all vs)

  pub levels_all : CborList → ℕ
  levels_all end = 0
  levels_all (item v vs) = max (levels v) (levels_all vs)

unfoldable mutual
  -- A length has 32 bits.
  pub Fits : CborValue → Type 0
  Fits (number n) = Unit
  Fits (bytes b) = length b < 2 ^ 32
  Fits (array vs) = (count vs < 2 ^ 32) × FitsAll vs

  pub FitsAll : CborList → Type 0
  FitsAll end = Unit
  FitsAll (item v vs) = Fits v × FitsAll vs

levels-pos : (v : CborValue) → 0 < levels v
unfolding levels
levels-pos (number n) = omega arith
levels-pos (bytes b) = omega arith
levels-pos (array vs) = omega arith

read_step :
    (k m n : ℕ) (bs rest : List ℕ)
    → read_head bs ≡ some (m, (n, rest))
    → read (suc k) bs ≡ read_body (read k) m n rest
unfolding read
read_step k m n bs rest e = rw e refl

-- What an item writes behind its head is read back by `read_body`.
read_item :
    (k m n : ℕ) (tail rest : List ℕ) (out : Option (CborValue × List ℕ))
    → n < 2 ^ 32
    → read_body (read k) m n (tail ++ rest) ≡ out
    → read (suc k) ((head m n ++ tail) ++ rest) ≡ out
read_item k m n tail rest out h e =
    rw (append_assoc (head m n) tail rest)
      (read_step k m n _ _ (read_head-head m n (tail ++ rest) h) ∙ e)

read_body-number :
    (reader : List ℕ → Option (CborValue × List ℕ)) (n : ℕ) (rest : List ℕ)
    → read_body reader 0 n rest ≡ some (number n, rest)
unfolding read_body
read_body-number reader n rest = refl

read_body-bytes :
    (reader : List ℕ → Option (CborValue × List ℕ)) (b rest : List ℕ)
    → read_body reader 2 (length b) (b ++ rest) ≡ some (bytes b, rest)
unfolding read_body
read_body-bytes reader b rest =
    (let q : ltb (length (b ++ rest)) (length b) ≡ false = ground (arith, length-append b rest) in
      rw (q, take-append b rest, drop-append b rest) refl)

read_body-array :
    (reader : List ℕ → Option (CborValue × List ℕ)) (n : ℕ) (rest after : List ℕ) (vs : CborList)
    → read_items reader n rest ≡ some (vs, after)
    → read_body reader 4 n rest ≡ some (array vs, after)
unfolding read_body
read_body-array reader n rest after vs e = rw e refl

mutual
  unfolding read read_items write levels Fits count

  read-write :
      (k : ℕ) (v : CborValue) (b rest : List ℕ)
      → levels v ≤ k
      → Fits v
      → write v ≡ some b
      → read k (b ++ rest) ≡ some (v, rest)
  read-write zero v b rest l f e = absurd (omega (arith, levels-pos v, l))
  read-write (suc k) (number n) b rest l f e =
      let q : (n < 2 ^ 32) × (b ≡ head 0 n) = ground arith in
      rw q.1 (read_step k 0 n _ _ (read_head-head 0 n rest q.0) ∙ read_body-number (read k) n rest)
  read-write (suc k) (bytes c) b rest l f e =
      let q : b ≡ head 2 (length c) ++ c = ground arith in
      rw q (read_item k 2 (length c) c rest _ f (read_body-bytes (read k) c rest))
  read-write (suc k) (array vs) b rest l f e =
      let (w, e1, e2) = >>=-eq-some (write_all vs) (λ rest. some (head 4 (count vs) ++ rest)) e in
      let q : b ≡ head 4 (count vs) ++ w = ground arith in
      rw q (
        read_item k 4 (count vs) w rest _ f.0 (
          read_body-array (read k) (count vs) (w ++ rest) rest vs
            (read_items-write_all k vs w rest (omega (arith, l)) f.1 e1)))

  read_items-write_all :
      (k : ℕ) (vs : CborList) (b rest : List ℕ)
      → levels_all vs ≤ k
      → FitsAll vs
      → write_all vs ≡ some b
      → read_items (read k) (count vs) (b ++ rest) ≡ some (vs, rest)
  read_items-write_all k end b rest l f e = let q : b ≡ [] = ground arith in rw q refl
  read_items-write_all k (item v vs) b rest l (f, g) e =
      let (x, e1, e2) =
        >>=-eq-some (write v) (λ first. write_all vs >>= λ rest. some (first ++ rest)) e in
      let (y, e3, e4) = >>=-eq-some (write_all vs) (λ rest. some (x ++ rest)) e2 in
      let q : b ≡ x ++ y = ground arith in
      let r1 : read k (x ++ (y ++ rest)) ≡ some (v, y ++ rest) =
        read-write k v x (y ++ rest) (omega (arith, l)) f e1 in
      let r2 = read_items-write_all k vs y rest (omega (arith, l)) g e3 in
      rw (q, append_assoc x y rest) (read_items_step (read k) (count vs) _ _ _ v vs r1 r2)

-- A value of at most five levels whose lengths have 32 bits is read back from what was written.
pub cbor_decode-cbor_encode :
    (v : CborValue) (b : List ℕ)
    → levels v ≤ 5
    → Fits v
    → cbor_encode v ≡ some b
    → cbor_decode b ≡ some v
unfolding cbor_decode cbor_encode
cbor_decode-cbor_encode v b l f e =
    let q : read 5 b ≡ some (v, []) =
      subst (λ c. read 5 c ≡ some (v, [])) (append-nil b) (read-write 5 v b [] l f e) in
    rw q refl
