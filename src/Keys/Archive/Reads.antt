-- ===== src/Keys/Archive/Reads.antt =====
-- binaryarchive.ts: what a reader makes of bytes that were written for it.
use labyrinth_vault.Prelude.{
  ℕ, ◌+◌, ◌^◌, ◌<◌, ◌≡◌, refl, arith, ◌++◌, append_assoc, append-nil, false, List, [], ◌∷◌, Option,
  some, All, ltb, length, length-append, take-append, drop-append,
}
use labyrinth_vault.Keys.Archive.{
  Archive, Read, ok, ◌>>=◌, pure, need, read_u8, read_blob, read_varint_u64, read_elements,
}
use labyrinth_vault.Keys.Archive.Varint.{read_varint_u64-varint_bytes}
use labyrinth_vault.Keys.Chunks.{write_all, write_varints}
use labyrinth_vault.Keys.Varint.{varint_bytes}

-- A reader makes `a` of the bytes, whatever follows them, and its cursor stands behind them.
pub record Reads {ℓ} {A : Type ℓ} (m : Archive → Read A) (bytes : List ℕ) (a : A) : Type ℓ where
  pub run :
      (rest : List ℕ) (at : ℕ)
      → m (record { rest = bytes ++ rest; at = at })
        ≡ ok a (record { rest = rest; at = at + length bytes })

pub Reads-pure {ℓ} : {A : Type ℓ} (a : A) → Reads (pure a) [] a
Reads-pure a = record { run = λ rest at. let e : at + 0 ≡ at = omega arith in rw e refl }

pub Reads-pure_eq {ℓ} : {A : Type ℓ} (a b : A) → a ≡ b → Reads (pure a) [] b
Reads-pure_eq a b e = rw (← e) (Reads-pure a)

module _ {ℓ κ} {A : Type ℓ} {B : Type κ} where
  pub Reads->>= :
      {m : Archive → Read A} (f : A → Archive → Read B) {x y : List ℕ} {a : A} {b : B}
      → Reads m x a
      → Reads (f a) y b
      → Reads (m >>= f) (x ++ y) b
  Reads->>= {m = m} f {x = x} {y = y} h k = record {
    run = λ rest at.
        let e : (x ++ y) ++ rest ≡ x ++ (y ++ rest) = append_assoc x y rest in
        let l : at + length (x ++ y) ≡ at + length x + length y =
          omega (arith, length-append x y) in
        rw (e, ◌>>=◌, h.run (y ++ rest) at, l) (k.run rest (at + length x));
  }

  pub Reads-map :
      (m : Archive → Read A) (f : A → B) (x : List ℕ) (a : A)
      → Reads m x a
      → Reads (m >>= λ a. pure (f a)) x (f a)
  Reads-map m f x a h =
      rw (← append-nil x) (Reads->>= (λ a. pure (f a)) {y = []} h (Reads-pure (f a)))

pub Reads-u8 : (b : ℕ) → Reads read_u8 (b ∷ []) b
unfolding read_u8
Reads-u8 b = record { run = λ rest at. refl }

pub Reads-blob : (bytes : List ℕ) → Reads (read_blob (length bytes)) bytes bytes
unfolding read_blob need
Reads-blob bytes = record {
  run = λ rest at.
      let enough : ltb (length (bytes ++ rest)) (length bytes) ≡ false =
        ground (arith, length-append bytes rest) in
      ground (arith, enough, take-append bytes rest, drop-append bytes rest);
}

pub Reads-varint : (n : ℕ) → n < 2 ^ 64 → Reads read_varint_u64 (varint_bytes n) n
Reads-varint n h = record { run = λ rest at. read_varint_u64-varint_bytes n at rest h }

-- A loop that writes each item so that it is read back, against the loop that reads them.
module _ {A : Type 0} (write : A → Option (List ℕ)) (read : ℕ → Archive → Read A) where
  pub Reads-write_all :
      (P : A → Type 0)
      → ((a : A) (i : ℕ) → P a → (b : List ℕ) × (write a ≡ some b) × Reads (read i) b a)
      → (xs : List A) (i : ℕ) → All P xs
      → (b : List ℕ) × (write_all write xs ≡ some b) × Reads (read_elements read (length xs) i) b xs
  unfolding write_all read_elements
  Reads-write_all P each [] i h = ([], refl, Reads-pure [])
  Reads-write_all P each (x ∷ xs) i h =
      let (b, e, r) = each x i h.0 in
      let (c, f, q) = Reads-write_all P each xs (i + 1) h.1 in
      (
        b ++ c,
        rw (e, f) refl,
        Reads->>= _ r (Reads-map (read_elements read (length xs) (i + 1)) (λ l. x ∷ l) c xs q),
      )

pub Reads-varints :
    (ns : List ℕ) (i : ℕ)
    → All (λ n. n < 2 ^ 64) ns
    → Reads (read_elements (λ i. read_varint_u64) (length ns) i) (write_varints ns) ns
unfolding read_elements write_varints
Reads-varints [] i h = Reads-pure []
Reads-varints (n ∷ ns) i h =
    let read = read_elements (λ i. read_varint_u64) (length ns) (i + 1) in
    Reads->>= _ (Reads-varint n h.0)
      (Reads-map read (λ l. n ∷ l) (write_varints ns) ns (Reads-varints ns (i + 1) h.1))
