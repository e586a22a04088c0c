-- ===== src/Airgap/Ur/Collector/Ending.antt =====
-- src/airgap/ur.ts: the collector on any texts at all.
use labyrinth_vault.Prelude.{
  ℕ, ◌≤◌, ◌≡◌, refl, sym, ◌∙◌, arith, List, Option, none, some, Text, length, All, Option-cases,
  inl, inr,
}
use labyrinth_vault.Airgap.Ur.{UrPart, whole, frame, parse_ur}
use labyrinth_vault.Airgap.Ur.Parsing.{IsPart, parse_ur-IsPart}
use labyrinth_vault.Airgap.Ur.Pieces.Range.{IsBelow, InRange, reduce-InRange}
use labyrinth_vault.Airgap.Ur.Collector.{
  UrCollector, UrProgress, empty, status, conclude, take_frame, offer_part, offer, not_ur,
}
use labyrinth_vault.Airgap.Ur.Collector.Mixtures.{Meaning}
use labyrinth_vault.Airgap.Ur.Collector.Waiting.{
  IsWaiting, begun-IsWaiting, IsFor, admit_cases, take_frame_lem, Outcome, delivered, waits, failed,
  conclude_lem, take_frame_done,
}

-- All that the end of the loop needs: the numbers are in range.
abbrev pub ranged : (n : ℕ) → Meaning n
ranged n = record {
  Holds = InRange n;
  keep = λ a b h k. reduce-InRange n a b h;
  range = λ i f h. h.0;
}

-- A collector between two codes.
pub data IsReady (c : UrCollector) : Type 0 where
  untouched : c ≡ empty → IsReady c
  finished : (t : Text) (m : List ℕ) → c.type ≡ some t → c.done ≡ some m → IsReady c
  going :
      (t : Text) (n message_length checksum : ℕ)
      → c.type ≡ some t
      → IsWaiting n message_length checksum (ranged n) c
      → IsReady c

untyped_is_empty : (c : UrCollector) → IsReady c → c.type ≡ none → c ≡ empty
untyped_is_empty c (untouched e) h = e
untyped_is_empty c (finished t m e d) h = ground arith
untyped_is_empty c (going t n l k e w) h = ground arith

-- The result of an offer that ends well.
abbrev pub EndsReady : Option (UrCollector × UrProgress) → Type 0
EndsReady r = (out : UrCollector × UrProgress) × (r ≡ some out) × IsReady out.0

conclude_ready :
    (type : Text) (n message_length checksum : ℕ) (t : Text) (d : UrCollector)
    → d.type ≡ some t
    → Outcome n message_length checksum (ranged n) type d
    → IsReady (conclude type d).0
conclude_ready type n message_length checksum t d e (delivered m q r) = rw r (finished t m e q)
conclude_ready type n message_length checksum t d e (waits q r) =
    rw r (going t n message_length checksum e q)
conclude_ready type n message_length checksum t d e (failed m j q r) = untouched r

same_message :
    (n l k n' l' k' : ℕ) (c : UrCollector)
    → n ≡ n'
    → l ≡ l'
    → k ≡ k'
    → IsWaiting n l k (ranged n) c
    → IsWaiting n' l' k' (ranged n') c
same_message n l k n' l' k' c p q r w = rw (← p, ← q, ← r) w

module _ (choose : ℕ → ℕ → ℕ → List ℕ) where
  frame_ready :
      (type : Text) (seq_num n message_length checksum : ℕ) (f : List ℕ) (t : Text)
      (c : UrCollector)
      → c.type ≡ some t
      → All (IsBelow n) (choose seq_num n checksum)
      → IsWaiting n message_length checksum (ranged n) c
      → EndsReady (take_frame choose type seq_num n checksum f c)
  frame_ready type seq_num n message_length checksum f t c e h w =
      let (d, r, u, t', l, g, z, has) =
        take_frame_lem n message_length checksum (ranged n) choose type seq_num f c h w in
      (
        conclude type d,
        r,
        conclude_ready type n message_length checksum t d (t' ∙ e)
            (conclude_lem n message_length checksum (ranged n) type d u z),
      )

  -- A frame for the collector's own message.
  own_frame :
      (type : Text) (seq_num n message_length checksum : ℕ) (f : List ℕ) (c : UrCollector)
      → IsFor c type n message_length checksum (length f)
      → All (IsBelow n) (choose seq_num n checksum)
      → IsReady c
      → EndsReady (take_frame choose type seq_num n checksum f c)
  own_frame type seq_num n l k f c v h (untouched e) = absurd (ground (arith, v.type_eq))
  own_frame type seq_num n l k f c v h (finished t m e q) =
      ((c, status c), take_frame_done choose type seq_num n k f c m q, finished t m e q)
  own_frame type seq_num n l k f c v h (going t n' l' k' e w) =
      frame_ready type seq_num n l k f t c e h (
        same_message n' l' k' n l k c (sym w.collecting.length_eq ∙ v.length_eq)
          (sym w.collecting.message_eq ∙ v.message_eq)
          (sym w.collecting.checksum_eq ∙ v.checksum_eq) w)

-- The fragments of a frame are among those of the message.
abbrev pub Chooses : (ℕ → ℕ → ℕ → List ℕ) → Type 0
Chooses choose =
    (seq_num n checksum : ℕ) → 1 ≤ seq_num → 1 ≤ n → All (IsBelow n) (choose seq_num n checksum)

offer_part_ready :
    (choose : ℕ → ℕ → ℕ → List ℕ) (c : UrCollector) (p : UrPart)
    → Chooses choose
    → IsPart p
    → IsReady c
    → EndsReady (offer_part choose c p)
unfolding offer_part
offer_part_ready choose c (whole type cbor) h k r = (_, refl, finished type cbor refl refl)
offer_part_ready choose c (frame type num n l k f) h v r =
    let below = h num n k v.numbered v.some_fragments in
    elim (admit_cases c type n l k f (untyped_is_empty c r)) [
      | inl (e, q) ↦ rw e (own_frame choose type num n l k f c q below r)
      | inr e ↦ rw e (
          frame_ready choose type num n l k f type _ refl below
            (begun-IsWaiting type n l k (length f) (ranged n) v.some_fragments))
    ]

-- If `choose` names only fragments of the message, then a collector that is ready, as a new one is,
-- takes any text at all: there is no exception, the loop over the queue ends within the rounds that it
-- is given, and the collector is ready again.
pub offer-IsReady :
    (choose : ℕ → ℕ → ℕ → List ℕ) (c : UrCollector) (text : Text)
    → Chooses choose
    → IsReady c
    → (out : UrCollector × UrProgress) × (offer choose c text ≡ some out) × IsReady out.0
unfolding offer
offer-IsReady choose c text h r = elim (Option-cases (parse_ur text)) [
  | inl e ↦ ((c, record (status c) { problem = some not_ur }), rw (e, offer) refl, r)
  | inr (p, e) ↦ rw (e, offer) (offer_part_ready choose c p h (parse_ur-IsPart text p e) r)
]
