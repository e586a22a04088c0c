-- ===== src/Airgap/Envelope/Delivery.antt =====
-- src/airgap/envelope.ts: the collector on the frames of one payload.
use labyrinth_vault.Prelude.{
  ℕ, zero, suc, ◌+◌, ◌*◌, ◌≤◌, ◌<◌, ◌≡◌, ◌⊎◌, refl, sym, ap, ◌∙◌, arith, Bool, true, false, ◌||◌,
  ◌&&◌, List, [], ◌∷◌, none, some, ◌==◌, ==_refl, if◌then◌else◌, Text, text_eq_refl, length,
  Bool-cases, inl, inr, All, All-take, All-drop, IsByte, ltb,
}
use labyrinth_vault.Airgap.Base32.{base32_encode, base32_decode}
use labyrinth_vault.Airgap.Base32.Alphabet.{base32_encode_shape}
use labyrinth_vault.Airgap.Base32.RoundTrip.{base32_decode-base32_encode}
use labyrinth_vault.Airgap.Crc.{digest_of}
use labyrinth_vault.Airgap.Crc.Change.{digest_of_shape}
use labyrinth_vault.Airgap.Envelope.{
  PayloadKind, kind_name, kind_eq, Part, Progress, Collector, fresh, offer, accept, finish, admit,
  begin, is_other, assemble, get_part, set_part, status, slice_at, frame_text, wire_version,
  max_parts, parse_part,
}
use labyrinth_vault.Airgap.Envelope.Parsing.{parse_part-frame_text}
use labyrinth_vault.Airgap.Envelope.Slices.{joined_slices, joined_slices_all}
use labyrinth_vault.Airgap.Envelope.Parts.{
  is_some, get_part-set_part, length-set_part, seen, seen-le, seen-set_part, seen-nil, seen_all,
  seen_full,
}

abbrev pub elem : ℕ → List ℕ → Bool
elem i [] = false
elem i (j ∷ js) = i == j || elem i js

-- `is` names each number below `n`.
abbrev pub covers : ℕ → List ℕ → Bool
covers zero is = true
covers (suc n) is = elem n is && covers n is

kind_eq_refl : (k : PayloadKind) → kind_eq k k ≡ true
kind_eq_refl k = text_eq_refl (kind_name k)

elem_of_covers : (n i : ℕ) (is : List ℕ) → covers n is ≡ true → i < n → elem i is ≡ true
elem_of_covers zero i is e h = absurd (omega arith)
elem_of_covers (suc n) i is e h = ground (arith, elem_of_covers n i is)

covers_of_elem : (n : ℕ) (is : List ℕ) → ((i : ℕ) → i < n → elem i is ≡ true) → covers n is ≡ true
covers_of_elem zero is h = refl
covers_of_elem (suc n) is h =
    rw (h n (omega arith)) (covers_of_elem n is (λ i k. h i (omega arith)))

pub offer_of_part :
    (c : Collector) (text : Text) (p : Part)
    → parse_part text ≡ some p
    → offer c text ≡ accept (admit c p) p
unfolding offer
offer_of_part c text p e = rw (e, offer)

-- One payload on its way: the frames with the numbers 1 to `total`.
module _ (kind : PayloadKind) (payload : List ℕ) (size total : ℕ) where
  pub record IsSending : Type 0 where
    pub bytes : All IsByte payload
    pub some_part : 1 ≤ total
    pub few_parts : total ≤ max_parts
    pub enough : length payload ≤ total * size

  abbrev pub body : ℕ → Text
  body i = base32_encode (slice_at size payload i)

  abbrev pub frame : ℕ → Text
  frame i = frame_text kind (i + 1) total (digest_of payload) (body i)

  abbrev part : ℕ → Part
  part i = record {
    version = wire_version;
    kind = kind;
    index = i + 1;
    total = total;
    digest = digest_of payload;
    body = body i;
  }

  abbrev pub begun : List (ℕ × Text) → Collector
  begun parts = record {
    kind = some kind;
    digest = some (digest_of payload);
    total = total;
    parts = parts;
  }

  -- The map holds right bodies only, and nothing but wanted numbers.
  pub record IsGood (parts : List (ℕ × Text)) : Type 0 where
    right : (i : ℕ) → (get_part (i + 1) parts ≡ none) ⊎ (get_part (i + 1) parts ≡ some (body i))
    counted : length parts ≡ seen total parts

  module _ (s : IsSending) where
    slice_bytes : (i : ℕ) → All IsByte (slice_at size payload i)
    unfolding slice_at
    slice_bytes i = All-take IsByte size _ (All-drop IsByte (i * size) payload s.bytes)

    decode_body : (i : ℕ) → base32_decode (body i) ≡ some (slice_at size payload i)
    decode_body i = base32_decode-base32_encode (slice_at size payload i) (slice_bytes i)

    parse_frame : (i : ℕ) → i < total → parse_part (frame i) ≡ some (part i)
    parse_frame i h =
        parse_part-frame_text kind (i + 1) total (digest_of payload) (body i) (record {
          positive = omega arith;
          ordered = omega arith;
          bounded = s.few_parts;
          digest_size = (digest_of_shape payload).0;
          digest_class = (digest_of_shape payload).1;
          body_class = (base32_encode_shape (slice_at size payload i)).1;
        })

    set_part-IsGood :
        (i : ℕ) (parts : List (ℕ × Text))
        → i < total
        → IsGood parts
        → IsGood (set_part (i + 1) (body i) parts)
    set_part-IsGood i parts h g = record {
      right = λ j. ground (arith, get_part-set_part (j + 1) (i + 1) (body i) parts, g.right j);
      counted = ground (
        arith,
        length-set_part (i + 1) (body i) parts,
        seen-set_part total i (body i) parts h,
        g.counted,
      );
    }

    admit-begun : (i : ℕ) (parts : List (ℕ × Text)) → admit (begun parts) (part i) ≡ begun parts
    unfolding admit begin is_other
    admit-begun i parts = ground (arith, text_eq_refl (digest_of payload), kind_eq_refl kind)

    admit-fresh : (i : ℕ) → admit fresh (part i) ≡ begun []
    unfolding admit begin is_other
    admit-fresh i = refl

    -- Bodies that are all there decode to the slices.
    assemble_good :
        (n i : ℕ) (parts : List (ℕ × Text))
        → ((j : ℕ) → j < i + n → get_part (j + 1) parts ≡ some (body j))
        → assemble n (i + 1) parts ≡ some (joined_slices size payload n i)
    unfolding assemble joined_slices
    assemble_good zero i parts h = refl
    assemble_good (suc n) i parts h =
        rw
          (
            h i (omega arith),
            decode_body i,
            assemble_good n (i + 1) parts (λ j k. h j (omega arith)),
          )
          refl

    -- The numbers whose frames were taken in are the numbers that the map has.
    module _ (parts : List (ℕ × Text)) (shown : List ℕ) (g : IsGood parts)
        (held : (i : ℕ) → is_some (get_part (i + 1) parts) ≡ elem i shown) where
      covers-full : covers total shown ≡ true → length parts ≡ total
      covers-full e =
          g.counted ∙ seen_full total parts (λ i h. held i ∙ elem_of_covers total i shown e h)

      full-covers : length parts ≡ total → covers total shown ≡ true
      full-covers e =
          covers_of_elem total shown
            (λ i h. sym (held i) ∙ seen_all total i parts (sym g.counted ∙ e) h)

      length_parts-le : length parts ≤ total
      length_parts-le = omega (arith, g.counted, seen-le total parts)

      right_body :
          covers total shown ≡ true → (i : ℕ) → i < total → get_part (i + 1) parts ≡ some (body i)
      right_body e i h = ground (arith, g.right i, held i, elem_of_covers total i shown e h)

      assembled : covers total shown ≡ true → assemble total 1 parts ≡ some payload
      assembled e =
          assemble_good total 0 parts (λ j h. right_body e j (omega arith))
          ∙ ap some (joined_slices_all size total payload s.enough)

      finish_covered :
          (i : ℕ)
          → covers total shown ≡ true
          → finish (begun parts) (part i) ≡ (
            begun parts,
            record {
              kind = kind;
              have = total;
              total = total;
              payload = some payload;
              problem = none;
            },
          )
      unfolding finish
      finish_covered i e = rw (assembled e, finish, text_eq_refl (digest_of payload))

    -- What a collector that has seen the frames `shown` of this payload looks like.
    pub record HasSeen (shown : List ℕ) (c : Collector) : Type 0 where
      at : (c ≡ fresh) ⊎ (c ≡ begun c.parts)
      good : IsGood c.parts
      held : (i : ℕ) → is_some (get_part (i + 1) c.parts) ≡ elem i shown

    admit_seen :
        (i : ℕ) (shown : List ℕ) (c : Collector)
        → HasSeen shown c
        → admit c (part i) ≡ begun c.parts
    admit_seen i shown c h = elim (h.at) [
      | inl e ↦ rw e (admit-fresh i)
      | inr e ↦ ap (λ d. admit d (part i)) e ∙ admit-begun i c.parts
    ]

    -- The answer to one more frame.
    abbrev answer : Bool → Progress → Progress
    answer full p =
        if full
        then record {
          kind = kind;
          have = total;
          total = total;
          payload = some payload;
          problem = none;
        }
        else p

    held_step :
        (i : ℕ) (shown : List ℕ) (parts : List (ℕ × Text))
        → ((j : ℕ) → is_some (get_part (j + 1) parts) ≡ elem j shown)
        → (j : ℕ)
        → is_some (get_part (j + 1) (set_part (i + 1) (body i) parts)) ≡ elem j (i ∷ shown)
    held_step i shown parts held j =
        ground (arith, get_part-set_part (j + 1) (i + 1) (body i) parts, held j)

    accept_covered :
        (i : ℕ) (parts : List (ℕ × Text)) (shown : List ℕ)
        → IsGood (set_part (i + 1) (body i) parts)
        → ((j : ℕ) → is_some (get_part (j + 1) (set_part (i + 1) (body i) parts)) ≡ elem j shown)
        → accept (begun parts) (part i) ≡ (
          begun (set_part (i + 1) (body i) parts),
          answer (covers total shown) (status (begun (set_part (i + 1) (body i) parts)) none),
        )
    unfolding accept
    accept_covered i parts shown g held = elim (Bool-cases (covers total shown)) [
      | inl e ↦
          let full : ltb (length (set_part (i + 1) (body i) parts)) total ≡ false =
            ground (arith, covers-full _ shown g held e) in
          rw (==_refl total, decode_body i, full, finish_covered _ shown g held i e, e)
      | inr e ↦
          let short : ltb (length (set_part (i + 1) (body i) parts)) total ≡ true =
            ground (arith, full-covers _ shown g held, length_parts-le _ shown g held) in
          rw (==_refl total, decode_body i, short, e)
    ]

    offer_eq :
        (i : ℕ) (shown : List ℕ) (c : Collector)
        → i < total
        → HasSeen shown c
        → offer c (frame i) ≡ (
          begun (set_part (i + 1) (body i) c.parts),
          answer
              (covers total (i ∷ shown))
              (status (begun (set_part (i + 1) (body i) c.parts)) none),
        )
    offer_eq i shown c h before =
        offer_of_part c (frame i) (part i) (parse_frame i h)
        ∙ ap (λ d. accept d (part i)) (admit_seen i shown c before)
        ∙ (accept_covered i c.parts (i ∷ shown) (set_part-IsGood i c.parts h before.good)
            (held_step i shown c.parts before.held))

    HasSeen-begun :
        (i : ℕ) (shown : List ℕ) (c : Collector)
        → i < total
        → HasSeen shown c
        → HasSeen (i ∷ shown) (begun (set_part (i + 1) (body i) c.parts))
    HasSeen-begun i shown c h before = record {
      at = inr refl;
      good = set_part-IsGood i c.parts h before.good;
      held = held_step i shown c.parts before.held;
    }

    pub offer_step :
        (i : ℕ) (shown : List ℕ) (c : Collector)
        → i < total
        → HasSeen shown c
        → HasSeen (i ∷ shown) (offer c (frame i)).0
          × ((offer c (frame i)).1.payload
              ≡ (if covers total (i ∷ shown) then some payload else none))
          × ((offer c (frame i)).1.problem ≡ none)
    offer_step i shown c h before =
        rw (offer_eq i shown c h before)
          (HasSeen-begun i shown c h before, ground arith, ground arith)

    HasSeen-fresh : HasSeen [] fresh
    unfolding get_part
    HasSeen-fresh = record {
      at = inl refl;
      good = record { right = λ i. inl refl; counted = sym (seen-nil total) };
      held = λ i. refl;
    }

    -- The collector after a sequence of frames.
    unfoldable pub after : List ℕ → Collector
    after [] = fresh
    after (i ∷ shown) = (offer (after shown) (frame i)).0

    pub after-HasSeen : (shown : List ℕ) → All (λ i. i < total) shown → HasSeen shown (after shown)
    unfolding after
    after-HasSeen [] h = HasSeen-fresh
    after-HasSeen (i ∷ shown) h = (offer_step i shown (after shown) h.0 (after-HasSeen shown h.1)).0
