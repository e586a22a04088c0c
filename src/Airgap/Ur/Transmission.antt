-- ===== src/Airgap/Ur/Transmission.antt =====
-- ur.ts, from the payload through frames to the payload again.
use labyrinth_vault.Prelude.{
  ℕ, ◌+◌, ◌-◌, ◌^◌, ◌≤◌, ◌<◌, ◌≡◌, ◌≢◌, refl, sym, ◌∙◌, ap, arith, true, false, List, [], ◌∷◌,
  Option, some, none, ◌==◌, ◌>>=◌, length, All, IsByte, ◌⊎◌, Text, Bool-cases, inl, inr,
}
use labyrinth_vault.Airgap.Cbor.{bytes, cbor_encode, cbor_decode}
use labyrinth_vault.Airgap.Ur.{
  UrEncoder, part_text, new_encoder, encode_ur, ur_payload_bytes, max_fragments, max_message_bytes,
}
use labyrinth_vault.Airgap.Ur.Message.{IsChooser, new_encoder-IsEncoder}
use labyrinth_vault.Airgap.Ur.Frames.{bytes-IsWrapped}
use labyrinth_vault.Airgap.Ur.Sending.{IsSendable, part_text-frame, part_text-whole}
use labyrinth_vault.Airgap.Ur.Pieces.{includes}
use labyrinth_vault.Airgap.Ur.Collector.{
  UrCollector, UrProgress, empty, status, get_simple, offer, offer_part,
}
use labyrinth_vault.Airgap.Envelope.Parts.{is_some}
use labyrinth_vault.Airgap.Ur.Collector.Simple.{seen, seen_full}
use labyrinth_vault.Airgap.Ur.Delivery.{
  Receiving, start, partial, finished, Has, offer_of_part, offer_part-frame, not-Has-empty,
  none_ne_some,
}

-- The frames with some numbers, and a collector that reads texts one by one.
module _ (choose : ℕ → ℕ → ℕ → List ℕ) where
  unfoldable pub texts_of : UrEncoder → List ℕ → Option (List Text)
  texts_of e [] = some []
  texts_of e (num ∷ nums) = do
    text ← part_text choose e num
    texts ← texts_of e nums
    some (text ∷ texts)

  unfoldable pub collect : UrCollector → List Text → Option UrCollector
  collect c [] = some c
  collect c (text ∷ texts) = do out ← offer choose c text; collect out.0 texts

false_ne_true : false ≡ true → ⊥
false_ne_true e = cc

-- A frame's number has 32 bits, and starts from 1.
abbrev pub IsNumber : ℕ → Type 0
IsNumber num = (1 ≤ num) × (num < 2 ^ 32)

module _ (choose : ℕ → ℕ → ℕ → List ℕ) where
  texts_of_step :
      (e : UrEncoder) (num : ℕ) (nums : List ℕ) (t : Text) (ts : List Text)
      → part_text choose e num ≡ some t
      → texts_of choose e nums ≡ some ts
      → texts_of choose e (num ∷ nums) ≡ some (t ∷ ts)
  unfolding texts_of
  texts_of_step e num nums t ts p q = rw (p, q) refl

  collect_step :
      (c d : UrCollector) (g : UrProgress) (t : Text) (ts : List Text)
      → offer choose c t ≡ some (d, g)
      → collect choose c (t ∷ ts) ≡ collect choose d ts
  unfolding collect
  collect_step c d g t ts p = rw p refl

module _ (size : ℕ) (message : List ℕ) (e : UrEncoder) (s : IsSendable size message e)
    (choose : ℕ → ℕ → ℕ → List ℕ) (h : IsChooser choose) where
  -- Any frames of an animation: all are written and read, and nothing is lost.
  abbrev Arrives : UrCollector → List ℕ → Type 0
  Arrives c nums =
      (ts : List Text) × (texts_of choose e nums ≡ some ts)
      × (d : UrCollector) × (collect choose c ts ≡ some d)
      × Receiving size message e s d
      × ((i : ℕ) → Has size message e s c i → Has size message e s d i)
      × ((i : ℕ) → includes nums (i + 1) ≡ true → i < e.seq_length → Has size message e s d i)

  arrives :
      (c : UrCollector) (nums : List ℕ)
      → (e.seq_length == 1) ≡ false
      → All IsNumber nums
      → Receiving size message e s c
      → Arrives c nums
  unfolding texts_of collect includes
  arrives c [] q v r = ([], refl, c, refl, r, λ i a. a, λ i a l. cc)
  arrives c (num ∷ nums) q v r =
      let (t, p, read) = part_text-frame size message e s choose num h q v.0.0 v.0.1 in
      let (d, o, x, keep, plain) = offer_part-frame size message e s choose num c h v.0.0 r in
      let (ts, ps, d', cs, x', keep', plain') = arrives d nums q v.1 x in
      (
        t ∷ ts,
        texts_of_step choose e num nums t ts p ps,
        d',
        collect_step choose c d (status d) t ts
              (offer_of_part size message e s choose c t _ read ∙ o)
            ∙ cs,
        x',
        λ i a. keep' i (keep i a),
        λ i a l. elim (Bool-cases (num == (i + 1))) [
          | inl same ↦
              let before : num - 1 ≡ i = ground arith in
              keep' i (rw before at (plain (ground arith)))
          | inr other ↦ plain' i (rw other at a) l
        ],
      )

  -- All the plain frames have come.
  abbrev Covers : List ℕ → Type 0
  Covers nums = (i : ℕ) → i < e.seq_length → includes nums (i + 1) ≡ true

  all_there :
      (d : UrCollector)
      → Receiving size message e s d
      → ((i : ℕ) → i < e.seq_length → Has size message e s d i)
      → d.done ≡ some message
  all_there d (start q) k =
      absurd (not-Has-empty size message e s d 0 q (k 0 s.encoder.some_fragments))
  all_there d (finished f q) k = q
  all_there d (partial f w) k = absurd (omega (arith, w.short, w.collecting.counted, full))
    where
      there : (i : ℕ) → i < e.seq_length → is_some (get_simple i d.simple) ≡ true
      there i l = elim (k i l) [ inl a ↦ absurd (none_ne_some (sym w.undone ∙ a)) | inr a ↦ a ]

      full : seen e.seq_length d.simple ≡ e.seq_length
      full = seen_full e.seq_length d.simple there

  only_message :
      (d : UrCollector) → Receiving size message e s d → (d.done ≡ none) ⊎ (d.done ≡ some message)
  only_message d (start q) = inl (rw q refl)
  only_message d (partial f w) = inl w.undone
  only_message d (finished f q) = inr q

  -- What becomes of some frames, in the end.
  abbrev Ends : List ℕ → Type 0
  Ends nums =
      (ts : List Text) × (texts_of choose e nums ≡ some ts)
      × (d : UrCollector) × (collect choose empty ts ≡ some d)
      × ((d.done ≡ none) ⊎ (d.done ≡ some message))
      × (Covers nums → d.done ≡ some message)

  animated : (nums : List ℕ) → (e.seq_length == 1) ≡ false → All IsNumber nums → Ends nums
  animated nums q v =
      let (ts, p, d, r, x, keep, plain) = arrives empty nums q v (start refl) in
      (ts, p, d, r, only_message d x, λ cover. all_there d x (λ i l. plain i (cover i l) l))

  -- A message in one frame: every frame is the whole.
  arrives_whole :
      (c : UrCollector) (nums : List ℕ)
      → (e.seq_length == 1) ≡ true
      → (c.done ≡ none) ⊎ (c.done ≡ some message)
      → (ts : List Text) × (texts_of choose e nums ≡ some ts)
        × (d : UrCollector) × (collect choose c ts ≡ some d)
        × ((d.done ≡ none) ⊎ (d.done ≡ some message))
        × ((c.done ≡ some message) ⊎ (nums ≢ []) → d.done ≡ some message)
  unfolding texts_of collect offer_part
  arrives_whole c [] q r =
      ([], refl, c, refl, r, λ a. elim a [ inl x ↦ x | inr x ↦ absurd (x refl) ])
  arrives_whole c (num ∷ nums) q r =
      let (t, p, read) = part_text-whole size message e s choose num q in
      let d : UrCollector = record empty {
        type = some e.type;
        seq_length = 1;
        done = some message;
      } in
      let (ts, ps, d', cs, x', all') = arrives_whole d nums q (inr refl) in
      (
        t ∷ ts,
        texts_of_step choose e num nums t ts p ps,
        d',
        collect_step choose c d _ t ts (offer_of_part size message e s choose c t _ read) ∙ cs,
        x',
        λ a. all' (inl refl),
      )

  Covers-ne-nil : (nums : List ℕ) → Covers nums → nums ≢ []
  unfolding includes
  Covers-ne-nil [] k q = false_ne_true (k 0 s.encoder.some_fragments)
  Covers-ne-nil (num ∷ nums) k q = cc

  pub ends : (nums : List ℕ) → All IsNumber nums → Ends nums
  ends nums v = elim (Bool-cases (e.seq_length == 1)) [
    | inr q ↦ animated nums q v
    | inl q ↦
        let (ts, p, d, r, x, y) = arrives_whole empty nums q (inl refl) in
        (ts, p, d, r, x, λ cover. y (inr (Covers-ne-nil nums cover)))
  ]

-- What is asked of a payload, the size of a frame, and the encoder that they give.
pub record IsPayload (payload : List ℕ) (limit : ℕ) (e : UrEncoder) : Type 0 where
  pub in_bytes : All IsByte payload
  pub short : length payload + 5 ≤ max_message_bytes
  pub least : 10 ≤ limit
  pub most : limit + 34 ≤ max_message_bytes
  pub few_fragments : e.seq_length ≤ max_fragments

encode_ur_of :
    (type : Text) (payload message : List ℕ) (limit : ℕ) (e : UrEncoder)
    → cbor_encode (bytes payload) ≡ some message
    → encode_ur type payload limit ≡ some e
    → new_encoder type message limit ≡ some e
unfolding encode_ur
encode_ur_of type payload message limit e w q = rw w at q

ur_payload_bytes_of :
    (message payload : List ℕ)
    → cbor_decode message ≡ some (bytes payload)
    → ur_payload_bytes message ≡ some payload
unfolding ur_payload_bytes
ur_payload_bytes_of message payload e = rw (e, ur_payload_bytes) refl

some_inj : {a b : List ℕ} → some a ≡ some b → a ≡ b
some_inj e = cc

encode_ur-IsSendable :
    (type : Text) (payload : List ℕ) (limit : ℕ) (e : UrEncoder)
    → IsPayload payload limit e
    → encode_ur type payload limit ≡ some e
    → (message : List ℕ) × (ur_payload_bytes message ≡ some payload)
      × (size : ℕ) × IsSendable size message e
encode_ur-IsSendable type payload limit e h q =
    let w = bytes-IsWrapped payload (omega (arith, h.short)) h.in_bytes in
    let n = encode_ur_of type payload w.message limit e w.written q in
    let (size, le, v) = new_encoder-IsEncoder type w.message limit e w.wrapped_short.0 h.least n in
    (
      w.message,
      ur_payload_bytes_of w.message payload w.unwrapped,
      size,
      record {
        encoder = v;
        in_bytes = w.wrapped_short.0;
        some_message = w.not_blank;
        short_message = omega (arith, w.wrapped_short.1, h.short);
        few_fragments = h.few_fragments;
        short_fragment = omega (arith, le, h.most);
      },
    )

-- The encoder of a payload of bytes, at least five short of the message bound, with fragments of ten
-- bytes or more, 34 short of the bound, and no more than the greatest number of them; and a choice of
-- fragments that keeps its promises. Of its frames, any whose numbers start from 1 and have 32 bits,
-- whatever their order, with any lost or repeated: each can be written and is taken without an
-- exception, and if the collector has a message at the end, the bytes in it are the payload.
pub collect-encode_ur :
    (choose : ℕ → ℕ → ℕ → List ℕ) (type : Text) (payload : List ℕ) (limit : ℕ) (e : UrEncoder)
    (nums : List ℕ)
    → IsChooser choose
    → IsPayload payload limit e
    → encode_ur type payload limit ≡ some e
    → All IsNumber nums
    → (ts : List Text) × (texts_of choose e nums ≡ some ts)
      × (d : UrCollector) × (collect choose empty ts ≡ some d)
      × ((m : List ℕ) → d.done ≡ some m → ur_payload_bytes m ≡ some payload)
collect-encode_ur choose type payload limit e nums h v q k =
    let (message, u, size, s) = encode_ur-IsSendable type payload limit e v q in
    let (ts, p, d, r, x, y) = ends size message e s choose h nums k in
    (
      ts,
      p,
      d,
      r,
      λ m a. elim x [
        | inl n ↦ absurd (none_ne_some (sym n ∙ a))
        | inr b ↦ ap ur_payload_bytes (some_inj (sym a ∙ b)) ∙ u
      ],
    )

-- Under the same conditions, if every number from 1 to the count of fragments is among the frames,
-- then the collector has a message at the end, and the bytes in it are the payload.
pub collect-encode_ur_complete :
    (choose : ℕ → ℕ → ℕ → List ℕ) (type : Text) (payload : List ℕ) (limit : ℕ) (e : UrEncoder)
    (nums : List ℕ)
    → IsChooser choose
    → IsPayload payload limit e
    → encode_ur type payload limit ≡ some e
    → All IsNumber nums
    → ((i : ℕ) → i < e.seq_length → includes nums (i + 1) ≡ true)
    → (ts : List Text) × (texts_of choose e nums ≡ some ts)
      × (d : UrCollector) × (collect choose empty ts ≡ some d)
      × (m : List ℕ) × (d.done ≡ some m)
      × (ur_payload_bytes m ≡ some payload)
collect-encode_ur_complete choose type payload limit e nums h v q k cover =
    let (message, u, size, s) = encode_ur-IsSendable type payload limit e v q in
    let (ts, p, d, r, x, y) = ends size message e s choose h nums k in
    (ts, p, d, r, message, y cover, u)
