-- ===== src/Keys/Wire/Whole.antt =====
-- src/keys/monerowire.ts, assembleRawTransaction: the bytes of the whole transaction.
use labyrinth_vault.Prelude.{
  ℕ, ◌+◌, ◌≤◌, ◌≡◌, refl, ap, ◌∙◌, arith, ◌++◌, append-nil, Bool, true, false, List, [], ◌∷◌,
  Option, some, none, All, All-append, IsByte, Text, length, length-append, ◌>>=◌, ◌>>◌, guard,
  >>=-eq-some, ◌==◌,
}
use labyrinth_vault.Keys.Archive.{ok}
use labyrinth_vault.Keys.Chunks.{cat, write_all, write_varints}
use labyrinth_vault.Keys.Hex.{to_hex, from_hex}
use labyrinth_vault.Keys.Hex.RoundTrip.{from_hex-to_hex, from_hex-IsByte}
use labyrinth_vault.Keys.Varint.{varint_bytes}
use labyrinth_vault.Keys.Varint.Step.{varint_bytes-IsByte}
use labyrinth_vault.Keys.Weight.{transaction_weight}
use labyrinth_vault.Keys.Wire.{
  WireInput, WireOutput, WirePrefix, WireRctBase, WireRctPrunable, WireClsag, BulletproofPlus,
  RawTransaction, write_input, write_output, serialize_prefix, write_amount, serialize_rct_base,
  write_scalars, serialize_bpp, write_clsag, serialize_rct_prunable, assemble_raw_transaction,
}
use labyrinth_vault.Keys.Wire.ReadBack.{IsPrefix, read_prefix, read_prefix-serialize_prefix}

-- Bytes, if anything.
abbrev InBytes : Option (List ℕ) → Type 0
InBytes none = Unit
InBytes (some b) = All IsByte b

InBytes->>= :
    (m : Option (List ℕ)) (f : List ℕ → Option (List ℕ))
    → InBytes m
    → ((a : List ℕ) → All IsByte a → InBytes (f a))
    → InBytes (m >>= f)
InBytes->>= none f h k = tt
InBytes->>= (some a) f h k = k a h

InBytes-guard : (b : Bool) (m : Option (List ℕ)) → InBytes m → InBytes (guard b >> m)
InBytes-guard true m h = h
InBytes-guard false m h = tt

from_hex-InBytes : (t : Text) → InBytes (from_hex t)
from_hex-InBytes t = of_some (from_hex t) (from_hex-IsByte t)
  where
    of_some : (o : Option (List ℕ)) → ((b : List ℕ) → o ≡ some b → All IsByte b) → InBytes o
    of_some none h = tt
    of_some (some b) h = h b refl

write_all-InBytes :
    {A : Type 0} (write : A → Option (List ℕ)) (xs : List A)
    → ((a : A) → InBytes (write a))
    → InBytes (write_all write xs)
unfolding write_all
write_all-InBytes write [] h = tt
write_all-InBytes write (x ∷ xs) h = InBytes->>= (write x) _ (h x) λ a ha.
    InBytes->>= (write_all write xs) _ (write_all-InBytes write xs h)
      λ b hb. All-append IsByte a b ha hb

write_varints-IsByte : (ns : List ℕ) → All IsByte (write_varints ns)
unfolding write_varints
write_varints-IsByte [] = tt
write_varints-IsByte (n ∷ ns) =
    All-append IsByte (varint_bytes n) (write_varints ns) (varint_bytes-IsByte n)
      (write_varints-IsByte ns)

glue : (b c : List ℕ) → All IsByte b → All IsByte c → All IsByte (b ++ c)
glue = All-append IsByte

input-InBytes : (input : WireInput) → InBytes (write_input input)
unfolding write_input
input-InBytes input =
    InBytes->>= (from_hex input.key_image) _ (from_hex-InBytes input.key_image) λ a h. (
      omega arith,
      glue _ _ (varint_bytes-IsByte 0) (
          glue _ _ (varint_bytes-IsByte (length input.key_offsets))
            (glue _ _ (write_varints-IsByte input.key_offsets) (glue a [] h tt))),
    )

output-InBytes : (output : WireOutput) → InBytes (write_output output)
unfolding write_output
output-InBytes output = InBytes->>= (from_hex output.key) _ (from_hex-InBytes output.key) λ a h.
    InBytes->>= (from_hex output.view_tag) _ (from_hex-InBytes output.view_tag)
      λ b k. glue _ _ (varint_bytes-IsByte 0) (omega arith, glue a _ h (glue b [] k tt))

prefix-InBytes : (prefix : WirePrefix) → InBytes (serialize_prefix prefix)
unfolding serialize_prefix
prefix-InBytes prefix =
    InBytes->>= (write_all write_input prefix.inputs) _
      (write_all-InBytes write_input prefix.inputs input-InBytes)
      λ a h.
        InBytes->>= (write_all write_output prefix.outputs) _
          (write_all-InBytes write_output prefix.outputs output-InBytes)
          λ b k. InBytes->>= (from_hex prefix.extra) _ (from_hex-InBytes prefix.extra) λ c l.
            glue _ _ (varint_bytes-IsByte prefix.version) (
              glue _ _ (varint_bytes-IsByte prefix.unlock_time) (
                glue _ _ (varint_bytes-IsByte (length prefix.inputs)) (
                  glue a _ h (
                    glue _ _ (varint_bytes-IsByte (length prefix.outputs))
                      (glue b _ k (glue _ _ (varint_bytes-IsByte (length c)) (glue c [] l tt)))))))

amount-InBytes : (amount : Text) → InBytes (write_amount amount)
unfolding write_amount
amount-InBytes amount =
    InBytes->>= (from_hex amount) _ (from_hex-InBytes amount)
      λ a h. InBytes-guard (length a == 8) (some a) h

base-InBytes : (base : WireRctBase) → InBytes (serialize_rct_base base)
unfolding serialize_rct_base
base-InBytes base = InBytes-guard (length base.ecdh_amounts == length base.out_pk) _ (
    InBytes->>= (write_all write_amount base.ecdh_amounts) _
      (write_all-InBytes write_amount base.ecdh_amounts amount-InBytes)
      λ a h.
        InBytes->>= (write_all from_hex base.out_pk) _
          (write_all-InBytes from_hex base.out_pk from_hex-InBytes)
          λ b k.
            (omega arith, glue _ _ (varint_bytes-IsByte base.fee) (glue a _ h (glue b [] k tt))))

bpp-InBytes : (proof : BulletproofPlus) → InBytes (serialize_bpp proof)
unfolding serialize_bpp write_scalars
bpp-InBytes proof =
    InBytes->>= (write_scalars proof) _
      (write_all-InBytes from_hex
        (proof.a ∷ proof.a1 ∷ proof.b ∷ proof.r1 ∷ proof.s1 ∷ proof.d1 ∷ []) from_hex-InBytes)
      λ a h.
        InBytes->>= (write_all from_hex proof.l) _
          (write_all-InBytes from_hex proof.l from_hex-InBytes)
          λ b k.
            InBytes->>= (write_all from_hex proof.r) _
              (write_all-InBytes from_hex proof.r from_hex-InBytes)
              λ c l. glue a _ h (
                glue _ _ (varint_bytes-IsByte (length proof.l))
                  (glue b _ k (glue _ _ (varint_bytes-IsByte (length proof.r)) (glue c [] l tt))))

clsag-InBytes : (clsag : WireClsag) → InBytes (write_clsag clsag)
unfolding write_clsag
clsag-InBytes clsag = write_all-InBytes from_hex _ from_hex-InBytes

prunable-InBytes : (prunable : WireRctPrunable) → InBytes (serialize_rct_prunable prunable)
unfolding serialize_rct_prunable
prunable-InBytes p = InBytes-guard (length p.clsags == length p.pseudo_outs) _ (
    InBytes->>= (write_all serialize_bpp p.bpp) _
      (write_all-InBytes serialize_bpp p.bpp bpp-InBytes)
      λ a h.
        InBytes->>= (write_all write_clsag p.clsags) _
          (write_all-InBytes write_clsag p.clsags clsag-InBytes)
          λ b k.
            InBytes->>= (write_all from_hex p.pseudo_outs) _
              (write_all-InBytes from_hex p.pseudo_outs from_hex-InBytes)
              λ c l.
                glue _ _ (varint_bytes-IsByte (length p.bpp))
                  (glue a _ h (glue b _ k (glue c [] l tt))))

InBytes-some : (o : Option (List ℕ)) (b : List ℕ) → InBytes o → o ≡ some b → All IsByte b
InBytes-some none b h e = cc
InBytes-some (some a) b h e = let same : a ≡ b = cc in rw (← same) h

transaction_weight-ge : (size n : ℕ) → size ≤ transaction_weight size n
unfolding transaction_weight
transaction_weight-ge size n = ground arith

-- The three sections, one after the other, and the prefix at their front.
sections :
    (prefix : WirePrefix) (base : WireRctBase) (prunable : WireRctPrunable) (p x y : List ℕ)
    → IsPrefix prefix
    → serialize_prefix prefix ≡ some p
    → serialize_rct_base base ≡ some x
    → serialize_rct_prunable prunable ≡ some y
    → (from_hex (to_hex (cat (p ∷ x ∷ y ∷ []))) ≡ some (p ++ (x ++ y)))
      × (read_prefix (record { rest = p ++ (x ++ y); at = 0 })
          ≡ ok prefix (record { rest = x ++ y; at = length p }))
sections prefix base prunable p x y h ep ex ey =
    let (b, e, r) = read_prefix-serialize_prefix prefix (x ++ y) 0 h in
    let same : b ≡ p = cc in
    let start : 0 + length b ≡ length b = omega arith in
    (
      rw (append-nil y) (
          from_hex-to_hex (p ++ (x ++ y)) (
            glue p _ (InBytes-some (serialize_prefix prefix) p (prefix-InBytes prefix) ep) (
              glue x y (InBytes-some (serialize_rct_base base) x (base-InBytes base) ex) (
                InBytes-some (serialize_rct_prunable prunable) y (prunable-InBytes prunable) ey)))),
      rw (← same) (r ∙ ap (λ (n : ℕ). ok prefix (record { rest = x ++ y; at = n })) start),
    )

-- A transaction that is assembled from a well-formed prefix is broadcast as the hex of bytes. From
-- these `read_prefix` gets the prefix back: a specification of the wire format over the readers of
-- binaryarchive.ts, which refuses an input that is not tagged 2 or an output that is not tagged 3,
-- and any amount but zero. What it leaves is the RingCT base and the prunable part. The weight is at
-- least the number of the bytes.
pub assemble_raw_transaction-read_prefix :
    (keccak_256 : List ℕ → List ℕ) (prefix : WirePrefix) (base : WireRctBase)
    (prunable : WireRctPrunable) (raw : RawTransaction)
    → IsPrefix prefix
    → assemble_raw_transaction keccak_256 prefix base prunable ≡ some raw
    → (bytes x y : List ℕ) × (from_hex raw.hex ≡ some bytes)
      × (serialize_rct_base base ≡ some x)
      × (serialize_rct_prunable prunable ≡ some y)
      × ((at : ℕ) × (read_prefix (record { rest = bytes; at = 0 })
            ≡ ok prefix (record { rest = x ++ y; at = at })))
      × (length bytes ≤ raw.weight)
unfolding assemble_raw_transaction
assemble_raw_transaction-read_prefix keccak_256 prefix base prunable raw h e =
    let (p, ep, e1) = >>=-eq-some (serialize_prefix prefix) _ e in
    let (x, ex, e2) = >>=-eq-some (serialize_rct_base base) _ e1 in
    let (y, ey, e3) = >>=-eq-some (serialize_rct_prunable prunable) _ e2 in
    let (read, back) = sections prefix base prunable p x y h ep ex ey in
    let hex : raw.hex ≡ to_hex (cat (p ∷ x ∷ y ∷ [])) = cc in
    let weight : raw.weight
        ≡ transaction_weight (length p + length x + length y) (length base.out_pk) =
      cc in
    (
      p ++ (x ++ y),
      x,
      y,
      rw hex read,
      ex,
      ey,
      (length p, back),
      rw weight (
          omega (
            arith,
            length-append p (x ++ y),
            length-append x y,
            transaction_weight-ge (length p + length x + length y) (length base.out_pk),
          )),
    )
