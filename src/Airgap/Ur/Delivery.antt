-- ===== src/Airgap/Ur/Delivery.antt =====
-- src/airgap/ur.ts, both ends: a collector that sees frames of one message.
use labyrinth_vault.Prelude.{
  ℕ, ◌-◌, ◌≤◌, ◌≡◌, ◌≢◌, refl, sym, ◌∙◌, ap, arith, true, List, [], ◌∷◌, Option, some, none, ◌==◌,
  ==_iff, ==_refl, All, ◌⊎◌, Text, Bool-cases, inl, inr,
}
use labyrinth_vault.Airgap.Crc.{crc32}
use labyrinth_vault.Airgap.Envelope.Parts.{is_some}
use labyrinth_vault.Airgap.Ur.{UrEncoder, UrPart, frame, parse_ur}
use labyrinth_vault.Airgap.Ur.Fragments.{concat, fragment_at}
use labyrinth_vault.Airgap.Ur.Message.{IsChooser, mixture, fragments-IsSized, length-mixture}
use labyrinth_vault.Airgap.Ur.Sending.{IsSendable}
use labyrinth_vault.Airgap.Ur.Pieces.Mix.{IsHonest, reduce-IsHonest, mix_single}
use labyrinth_vault.Airgap.Ur.Collector.{
  UrCollector, UrProgress, empty, status, get_simple, join_from, admit, conclude, take_frame,
  offer_part, offer,
}
use labyrinth_vault.Airgap.Ur.Collector.Joined.{concat_at, concat_at_all, join_from_lem}
use labyrinth_vault.Airgap.Ur.Collector.Mixtures.{Meaning, Collecting, single, verdict}
use labyrinth_vault.Airgap.Ur.Collector.Waiting.{
  IsWaiting, begun, begun-IsWaiting, IsFor, take_frame_lem, Outcome, delivered, waits, failed,
  conclude_lem, offer_part_lem, take_frame_done, admit_own, admit-empty,
}

pub none_ne_some : {m : List ℕ} → ◌≡◌ {A = Option (List ℕ)} none (some m) → ⊥
none_ne_some e = cc

module _ (size : ℕ) (message : List ℕ) (e : UrEncoder) (s : IsSendable size message e) where
  abbrev pub fragment : ℕ → List ℕ
  fragment i = fragment_at e.fragments i

  -- What every piece of the collector is.
  abbrev pub honest : Meaning e.seq_length
  honest = record {
    Holds = IsHonest (fragment_at e.fragments) size e.seq_length;
    keep = λ a b p q.
        reduce-IsHonest (fragment_at e.fragments) size e.seq_length a b
          (fragments-IsSized size message e s.encoder) p q;
    range = λ i f h. h.0.0;
  }

  abbrev pub Waiting : UrCollector → Type 0
  Waiting c = IsWaiting e.seq_length e.message_length e.checksum honest c

  simple_honest :
      (simple : List (ℕ × List ℕ)) (j : ℕ) (g : List ℕ)
      → All (λ x. honest.Holds (single x)) simple
      → get_simple j simple ≡ some g
      → g ≡ fragment_at e.fragments j
  unfolding get_simple
  simple_honest [] j g h q = cc
  simple_honest ((i, f) ∷ simple) j g h q = elim (Bool-cases (j == i)) [
    | inl same ↦
        let g' : g ≡ f = ground arith in
        let f' : f ≡ fragment_at e.fragments i =
          h.0.1 (omega arith)
          ∙ mix_single (fragment_at e.fragments) size i e.seq_length
              (fragments-IsSized size message e s.encoder) h.0.0.0 in
        g' ∙ f' ∙ ap (fragment_at e.fragments) (sym ((==_iff j i).0 same))
    | inr other ↦ simple_honest simple j g h.1 (rw other at q)
  ]

  verdict_lem :
      (d : UrCollector) (m : List ℕ)
      → Collecting e.seq_length e.message_length e.checksum honest d
      → join_from e.seq_length 0 d.simple ≡ some m
      → verdict e.message_length e.checksum m ≡ some message
  verdict_lem d m v j =
      let x = s.encoder in
      let all : m ≡ concat e.fragments =
        join_from_lem e.fragments d.simple e.seq_length 0 m
          (λ i g q. simple_honest d.simple i g v.singles q) j
        ∙ ap (λ n. concat_at e.fragments n 0) x.counted
        ∙ concat_at_all e.fragments in
      rw (all, x.joined, x.summed, ==_refl (crc32 message)) refl

  whole_message :
      (d : UrCollector) (m : List ℕ)
      → Collecting e.seq_length e.message_length e.checksum honest d
      → d.done ≡ some m
      → d.done ≡ some message
  whole_message d m v q = elim (v.settled) [
    | inl (short, idle) ↦ absurd (none_ne_some (sym idle ∙ q))
    | inr (full, t, j, g) ↦ g ∙ verdict_lem d t v j
  ]

  -- The collector's state while frames of the message come in.
  pub data Receiving (c : UrCollector) : Type 0 where
    start : c ≡ empty → Receiving c
    partial : IsFor c e.type e.seq_length e.message_length e.checksum size → Waiting c → Receiving c
    finished :
        IsFor c e.type e.seq_length e.message_length e.checksum size
        → c.done ≡ some message
        → Receiving c

  -- The fragment with a number has been recovered, or all have.
  abbrev pub Has : UrCollector → ℕ → Type 0
  Has c i = (c.done ≡ some message) ⊎ (is_some (get_simple i c.simple) ≡ true)

  drained :
      (d : UrCollector)
      → IsFor d e.type e.seq_length e.message_length e.checksum size
      → Collecting e.seq_length e.message_length e.checksum honest d
      → (d.queue ≡ []) ⊎ (d.done ≢ none)
      → Receiving (conclude e.type d).0 × ((conclude e.type d) ≡ (d, status d))
  drained d f v z = go (conclude_lem e.seq_length e.message_length e.checksum honest e.type d v z)
    where
      go :
          Outcome e.seq_length e.message_length e.checksum honest e.type d
          → Receiving (conclude e.type d).0 × ((conclude e.type d) ≡ (d, status d))
      go (delivered m q r) = rw r (finished f (whole_message d m v q), refl)
      go (waits q r) = rw r (partial f q, refl)
      go (failed m j q r) = absurd (none_ne_some (sym q ∙ verdict_lem d m v j))

  abbrev pub mixed_piece : (ℕ → ℕ → ℕ → List ℕ) → ℕ → List ℕ
  mixed_piece choose num = mixture size message e s.encoder (choose num e.seq_length e.checksum)

  -- What one frame does: nothing goes wrong, what is there stays, and a plain fragment is there.
  abbrev pub Steps : UrCollector → ℕ → Option (UrCollector × UrProgress) → Type 0
  Steps c num r =
      (d : UrCollector) × (r ≡ some (d, status d))
      × Receiving d
      × ((i : ℕ) → Has c i → Has d i)
      × (num ≤ e.seq_length → Has d (num - 1))

  piece_honest :
      (choose : ℕ → ℕ → ℕ → List ℕ) (num : ℕ)
      → IsChooser choose
      → 1 ≤ num
      → honest.Holds (record {
        indexes = choose num e.seq_length e.checksum;
        fragment = mixed_piece choose num;
      })
  piece_honest choose num h k =
      (h.below num e.seq_length e.checksum k s.encoder.some_fragments, λ _. refl)

  take_next :
      (choose : ℕ → ℕ → ℕ → List ℕ) (num : ℕ) (c : UrCollector)
      → IsChooser choose
      → 1 ≤ num
      → IsFor c e.type e.seq_length e.message_length e.checksum size
      → Waiting c
      → Steps c num
          (take_frame choose e.type num e.seq_length e.checksum (mixed_piece choose num) c)
  take_next choose num c h k f w =
      let (d, r, u, t, l, g, z, has) =
        take_frame_lem e.seq_length e.message_length e.checksum honest choose e.type num
          (mixed_piece choose num) c (piece_honest choose num h k) w in
      let f' : IsFor d e.type e.seq_length e.message_length e.checksum size = record {
        type_eq = t ∙ f.type_eq;
        length_eq = u.length_eq;
        message_eq = u.message_eq;
        checksum_eq = u.checksum_eq;
        size_eq = l ∙ f.size_eq;
      } in
      let (x, y) = drained d f' u z in
      (
        d,
        r ∙ ap some y,
        rw (ap (λ p. p.0) y) at x,
        λ i q. elim q [ inl a ↦ absurd (none_ne_some (sym w.undone ∙ a)) | inr a ↦ inr (g i a) ],
        λ le. inr (has (num - 1) (h.plain num e.seq_length e.checksum k le)),
      )

  take_finished :
      (choose : ℕ → ℕ → ℕ → List ℕ) (num : ℕ) (c : UrCollector)
      → IsFor c e.type e.seq_length e.message_length e.checksum size
      → c.done ≡ some message
      → Steps c num
          (take_frame choose e.type num e.seq_length e.checksum (mixed_piece choose num) c)
  take_finished choose num c f q = (
    c,
    take_frame_done choose e.type num e.seq_length e.checksum (mixed_piece choose num) c message q,
    finished f q,
    λ i a. a,
    λ le. inl q,
  )

  pub offer_of_part :
      (choose : ℕ → ℕ → ℕ → List ℕ) (c : UrCollector) (t : Text) (p : UrPart)
      → parse_ur t ≡ some p
      → offer choose c t ≡ offer_part choose c p
  unfolding offer
  offer_of_part choose c t p q = rw (q, offer) refl

  own :
      (c : UrCollector) (num : ℕ) (choose : ℕ → ℕ → ℕ → List ℕ)
      → IsFor c e.type e.seq_length e.message_length e.checksum size
      → admit c e.type e.seq_length e.message_length e.checksum (mixed_piece choose num) ≡ c
  own c num choose f =
      admit_own c e.type e.seq_length e.message_length e.checksum (mixed_piece choose num)
        (rw (length-mixture size message e s.encoder (choose num e.seq_length e.checksum)) f)

  first :
      (num : ℕ) (choose : ℕ → ℕ → ℕ → List ℕ)
      → admit empty e.type e.seq_length e.message_length e.checksum (mixed_piece choose num)
        ≡ begun e.type e.seq_length e.message_length e.checksum size
  first num choose =
      admit-empty e.type e.seq_length e.message_length e.checksum (mixed_piece choose num)
      ∙ ap (begun e.type e.seq_length e.message_length e.checksum)
          (length-mixture size message e s.encoder (choose num e.seq_length e.checksum))

  pub not-Has-empty : (c : UrCollector) (i : ℕ) → c ≡ empty → Has c i → ⊥
  unfolding get_simple
  not-Has-empty c i q h = ground arith

  opened :
      (c : UrCollector) (choose : ℕ → ℕ → ℕ → List ℕ) (num : ℕ)
      → offer_part choose c
          (frame e.type num e.seq_length e.message_length e.checksum (mixed_piece choose num))
        ≡ take_frame choose e.type num e.seq_length e.checksum
            (mixed_piece choose num)
            (admit c e.type e.seq_length e.message_length e.checksum (mixed_piece choose num))
  opened c choose num =
      offer_part_lem choose c e.type num e.seq_length e.message_length e.checksum
        (mixed_piece choose num)

  pub offer_part-frame :
      (choose : ℕ → ℕ → ℕ → List ℕ) (num : ℕ) (c : UrCollector)
      → IsChooser choose
      → 1 ≤ num
      → Receiving c
      → Steps c num (
          offer_part choose c
            (frame e.type num e.seq_length e.message_length e.checksum (mixed_piece choose num)))
  offer_part-frame choose num c h k (start q) =
      let b = begun e.type e.seq_length e.message_length e.checksum size in
      let f : IsFor b e.type e.seq_length e.message_length e.checksum size = record {
        type_eq = refl;
        length_eq = refl;
        message_eq = refl;
        checksum_eq = refl;
        size_eq = refl;
      } in
      let w =
        begun-IsWaiting e.type e.seq_length e.message_length e.checksum size honest
          s.encoder.some_fragments in
      let (d, r, x, y, z) = take_next choose num b h k f w in
      rw (q, opened empty choose num, first num choose)
        (d, r, x, (λ i a. absurd (not-Has-empty empty i refl a)), z)
  offer_part-frame choose num c h k (partial f w) =
      rw (opened c choose num, own c num choose f) (take_next choose num c h k f w)
  offer_part-frame choose num c h k (finished f q) =
      rw (opened c choose num, own c num choose f) (take_finished choose num c f q)
