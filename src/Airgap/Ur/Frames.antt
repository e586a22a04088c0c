-- ===== src/Airgap/Ur/Frames.antt =====
-- src/airgap/ur.ts: the body of a frame, over cbor.ts.
use labyrinth_vault.Prelude.{
  ℕ, ◌+◌, ◌≤◌, ◌<◌, ◌^◌, ◌≡◌, refl, arith, ◌++◌, List, [], some, false, ltb, length, length-append,
  All, All-append, IsByte,
}
use labyrinth_vault.Airgap.Cbor.{bytes, head, cbor_encode, cbor_decode, count}
use labyrinth_vault.Airgap.Cbor.Sizes.{head-bounds, head-pos}
use labyrinth_vault.Airgap.Cbor.RoundTrip.{Fits, levels, cbor_decode-cbor_encode}
use labyrinth_vault.Airgap.Ur.{frame_value}

-- The numbers of a header have 32 bits.
abbrev pub IsHeader : ℕ → ℕ → ℕ → ℕ → Type 0
IsHeader a b c d = (a < 2 ^ 32) × (b < 2 ^ 32) × (c < 2 ^ 32) × (d < 2 ^ 32)

-- What the encoder writes for a frame.
pub record IsWritten (a b c d : ℕ) (f : List ℕ) : Type 0 where
  pub body : List ℕ
  pub written : cbor_encode (frame_value a b c d f) ≡ some body
  pub read_back : cbor_decode body ≡ some (frame_value a b c d f)
  pub in_bytes : All IsByte body
  pub short : length body ≤ length f + 30

frame_bytes : ℕ → ℕ → ℕ → ℕ → List ℕ → List ℕ
frame_bytes a b c d f =
    head 4 5
    ++ (head 0 a ++ (head 0 b ++ (head 0 c ++ (head 0 d ++ ((head 2 (length f) ++ f) ++ [])))))

fits : (n : ℕ) → n < 2 ^ 32 → ltb 0xffffffff n ≡ false
fits n h = ground arith

cbor_encode-frame_value :
    (a b c d : ℕ) (f : List ℕ)
    → IsHeader a b c d
    → cbor_encode (frame_value a b c d f) ≡ some (frame_bytes a b c d f)
unfolding cbor_encode frame_value count frame_bytes
cbor_encode-frame_value a b c d f h = rw (fits a h.0, fits b h.1, fits c h.2, fits d h.3) refl

-- Bytes, and no more than a number of them.
abbrev pub IsShort : ℕ → List ℕ → Type 0
IsShort k xs = All IsByte xs × (length xs ≤ k)

levels_two : (a b c d : ℕ) (f : List ℕ) → levels (frame_value a b c d f) ≤ 5
unfolding levels frame_value
levels_two a b c d f = omega arith

Fits-frame_value : (a b c d : ℕ) (f : List ℕ) → length f < 2 ^ 32 → Fits (frame_value a b c d f)
unfolding Fits frame_value count
Fits-frame_value a b c d f h = (omega arith, (tt, (tt, (tt, (tt, (h, tt))))))

append-IsShort :
    {j k : ℕ} (xs ys : List ℕ) → IsShort j xs → IsShort k ys → IsShort (j + k) (xs ++ ys)
append-IsShort xs ys p q =
    (All-append IsByte xs ys p.0 q.0, omega (arith, length-append xs ys, p.1, q.1))

frame_bytes-IsShort :
    (a b c d : ℕ) (f : List ℕ)
    → IsHeader a b c d
    → length f < 2 ^ 32
    → All IsByte f
    → IsShort (5 + (5 + (5 + (5 + (5 + ((5 + length f) + 0)))))) (frame_bytes a b c d f)
unfolding frame_bytes
frame_bytes-IsShort a b c d f h k l =
    append-IsShort (head 4 5) _ (head-bounds 4 5 (omega arith) (omega arith)) (
      append-IsShort (head 0 a) _ (head-bounds 0 a (omega arith) h.0) (
        append-IsShort (head 0 b) _ (head-bounds 0 b (omega arith) h.1) (
          append-IsShort (head 0 c) _ (head-bounds 0 c (omega arith) h.2) (
            append-IsShort (head 0 d) _ (head-bounds 0 d (omega arith) h.3) (
              append-IsShort (head 2 (length f) ++ f) []
                (append-IsShort (head 2 (length f)) f (head-bounds 2 (length f) (omega arith) k)
                  (l, omega arith))
                (tt, omega arith))))))

pub frame_value-IsWritten :
    (a b c d : ℕ) (f : List ℕ)
    → IsHeader a b c d
    → length f < 2 ^ 32
    → All IsByte f
    → IsWritten a b c d f
frame_value-IsWritten a b c d f h k l =
    let e = cbor_encode-frame_value a b c d f h in
    let q = frame_bytes-IsShort a b c d f h k l in
    record {
      body = frame_bytes a b c d f;
      written = e;
      read_back =
          cbor_decode-cbor_encode (frame_value a b c d f) (frame_bytes a b c d f)
            (levels_two a b c d f) (Fits-frame_value a b c d f k) e;
      in_bytes = q.0;
      short = omega (arith, q.1);
    }

-- The wrapper of a payload.
pub record IsWrapped (payload : List ℕ) : Type 0 where
  pub message : List ℕ
  pub written : cbor_encode (bytes payload) ≡ some message
  pub unwrapped : cbor_decode message ≡ some (bytes payload)
  pub wrapped_short : IsShort (5 + length payload) message
  pub not_blank : 0 < length message

pub bytes-IsWrapped :
    (payload : List ℕ) → length payload < 2 ^ 32 → All IsByte payload → IsWrapped payload
unfolding cbor_encode levels Fits
bytes-IsWrapped payload h k =
    let q = head-bounds 2 (length payload) (omega arith) h in
    record {
      message = head 2 (length payload) ++ payload;
      written = refl;
      unwrapped = cbor_decode-cbor_encode (bytes payload) _ (omega arith) h refl;
      wrapped_short = append-IsShort (head 2 (length payload)) payload q (k, omega arith);
      not_blank =
          omega
            (arith, length-append (head 2 (length payload)) payload, head-pos 2 (length payload));
    }
