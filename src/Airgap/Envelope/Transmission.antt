-- ===== src/Airgap/Envelope/Transmission.antt =====
-- src/airgap/envelope.ts: from encodeParts to the collector.
use labyrinth_vault.Prelude.{
  ℕ, zero, suc, ◌+◌, ◌-◌, ◌/◌, ◌≤◌, ◌<◌, ◌≡◌, refl, ap, ◌∙◌, arith, Bool, true, false, List, [],
  ◌∷◌, none, some, if◌then◌else◌, Text, length, All, IsByte, ltb, max,
}
use mathlib.Core.Path.{subst}
use labyrinth_vault.Airgap.Envelope.{
  PayloadKind, Collector, fresh, offer, part_count, frames_from, encode_parts, max_parts,
}
use labyrinth_vault.Airgap.Envelope.Slices.{part_count_enough}
use labyrinth_vault.Airgap.Envelope.Delivery.{
  covers, IsSending, frame, after, after-HasSeen, offer_step,
}

-- `frames[i]`, at an index below the length.
abbrev pub nth_text : List Text → ℕ → Text
nth_text [] i = []
nth_text (t ∷ ts) zero = t
nth_text (t ∷ ts) (suc i) = nth_text ts i

-- The collector after the frames with the numbers `shown`, the latest first.
pub collect : List Text → List ℕ → Collector
collect frames [] = fresh
collect frames (i ∷ shown) = (offer (collect frames shown) (nth_text frames i)).0

length-frames_from :
    (kind : PayloadKind) (payload : List ℕ) (size total n i : ℕ)
    → length (frames_from kind payload size total n i) ≡ n
unfolding frames_from
length-frames_from kind payload size total zero i = refl
length-frames_from kind payload size total (suc n) i =
    ap suc (length-frames_from kind payload size total n (i + 1))

nth_text-frames_from :
    (kind : PayloadKind) (payload : List ℕ) (size total n i k : ℕ)
    → k < n
    → nth_text (frames_from kind payload size total n i) k ≡ frame kind payload size total (i + k)
unfolding frames_from
nth_text-frames_from kind payload size total zero i k h = absurd (omega arith)
nth_text-frames_from kind payload size total (suc n) i zero h =
    let same : i + 0 ≡ i = omega arith in rw same
nth_text-frames_from kind payload size total (suc n) i (suc k) h =
    let same : i + suc k ≡ i + 1 + k = omega arith in
    rw same (nth_text-frames_from kind payload size total n (i + 1) k (omega arith))

-- What success of `encodeParts` says.
record IsEncoded (kind : PayloadKind) (payload : List ℕ) (part_bytes : ℕ) (frames : List Text)
    : Type 0 where
  few : part_count (max 1 part_bytes) (length payload) ≤ max_parts
  are :
      frames
      ≡ frames_from kind payload
          (max 1 part_bytes)
          (part_count (max 1 part_bytes) (length payload))
          (part_count (max 1 part_bytes) (length payload))
          0

encode_parts-IsEncoded :
    (kind : PayloadKind) (payload : List ℕ) (part_bytes : ℕ) (frames : List Text)
    → encode_parts kind payload part_bytes ≡ some frames
    → IsEncoded kind payload part_bytes frames
unfolding encode_parts
encode_parts-IsEncoded kind payload part_bytes frames e =
    encoded (ltb max_parts total) refl (ground arith)
  where
    total : ℕ
    total = part_count (max 1 part_bytes) (length payload)

    encoded :
        (b : Bool)
        → ltb max_parts total ≡ b
        → (if b then none else some (frames_from kind payload (max 1 part_bytes) total total 0))
          ≡ some frames
        → IsEncoded kind payload part_bytes frames
    encoded true q e' = cc
    encoded false q e' = record { few = ground arith; are = ground arith }

module _ (kind : PayloadKind) (payload : List ℕ) (part_bytes : ℕ) (frames : List Text)
    (bytes : All IsByte payload)
    (encoded : encode_parts kind payload part_bytes ≡ some frames) where
  size : ℕ
  size = max 1 part_bytes

  total : ℕ
  total = part_count size (length payload)

  sending : IsSending kind payload size total
  unfolding size total part_count
  sending = record {
    bytes = bytes;
    some_part = omega arith;
    few_parts = (encode_parts-IsEncoded kind payload part_bytes frames encoded).few;
    enough = part_count_enough size (length payload) (omega arith);
  }

  length_frames : length frames ≡ total
  unfolding size total
  length_frames =
      rw ((encode_parts-IsEncoded kind payload part_bytes frames encoded).are)
        (length-frames_from kind payload size total total 0)

  nth_frame : (i : ℕ) → i < total → nth_text frames i ≡ frame kind payload size total i
  unfolding size total
  nth_frame i h =
      let at : 0 + i ≡ i = omega arith in
      rw ((encode_parts-IsEncoded kind payload part_bytes frames encoded).are)
        (nth_text-frames_from kind payload size total total 0 i h ∙ rw at)

  collect-after :
      (shown : List ℕ)
      → All (λ i. i < total) shown
      → collect frames shown ≡ after kind payload size total sending shown
  unfolding collect after
  collect-after [] h = refl
  collect-after (i ∷ shown) h =
      ap (λ c. (offer c (nth_text frames i)).0) (collect-after shown h.1)
      ∙ ap (λ t. (offer (after kind payload size total sending shown) t).0) (nth_frame i h.0)

  deliver :
      (i : ℕ) (shown : List ℕ)
      → All (λ k. k < total) (i ∷ shown)
      → ((offer (collect frames shown) (nth_text frames i)).1.payload
          ≡ (if covers total (i ∷ shown) then some payload else none))
        × ((offer (collect frames shown) (nth_text frames i)).1.problem ≡ none)
  deliver i shown h =
      let step =
        offer_step kind payload size total sending i shown
          (after kind payload size total sending shown) h.0
          (after-HasSeen kind payload size total sending shown h.1) in
      rw (collect-after shown h.1, nth_frame i h.0) (step.1, step.2)

-- Take any payload of bytes that `encodeParts` accepts, and offer its frames to a new collector in
-- any order, with any of them repeated. No offer reports a problem, and an offer returns the payload
-- exactly when every frame has been offered by then. Until then it returns no payload.
pub offer-encode_parts :
    (kind : PayloadKind) (payload : List ℕ) (part_bytes : ℕ) (frames : List Text) (i : ℕ)
    (shown : List ℕ)
    → All IsByte payload
    → encode_parts kind payload part_bytes ≡ some frames
    → All (λ k. k < length frames) (i ∷ shown)
    → ((offer (collect frames shown) (nth_text frames i)).1.payload
        ≡ (if covers (length frames) (i ∷ shown) then some payload else none))
      × ((offer (collect frames shown) (nth_text frames i)).1.problem ≡ none)
offer-encode_parts kind payload part_bytes frames i shown bytes e h =
    rw (length_frames kind payload part_bytes frames bytes e) (
      deliver kind payload part_bytes frames bytes e i shown (
        subst (λ n. All (λ k. k < n) (i ∷ shown))
          (length_frames kind payload part_bytes frames bytes e) h))

pub encode_parts-length :
    (kind : PayloadKind) (payload : List ℕ) (part_bytes : ℕ) (frames : List Text)
    → encode_parts kind payload part_bytes ≡ some frames
    → length frames ≡ max 1 ((length payload + max 1 part_bytes - 1) / max 1 part_bytes)
unfolding part_count
encode_parts-length kind payload part_bytes frames e =
    let q = encode_parts-IsEncoded kind payload part_bytes frames e in
    ap (λ f. length f) q.are ∙ length-frames_from kind payload _ _ _ 0
