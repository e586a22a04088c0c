-- ===== src/Airgap/Ur/Sending.antt =====
-- src/airgap/ur.ts: the encoder's frames, through the parser.
use labyrinth_vault.Prelude.{
  ℕ, zero, suc, ◌+◌, ◌*◌, ◌^◌, ◌≤◌, ◌<◌, ◌≡◌, refl, ◌∙◌, ap, arith, append-nil, true, false, List,
  [], ◌∷◌, some, ◌==◌, length, length-append, length-take, take, All, IsByte, Text,
}
use labyrinth_vault.Airgap.Crc.Change.{crc32-lt}
use labyrinth_vault.Airgap.Fountain.{zeros}
use labyrinth_vault.Airgap.Fountain.Laws.{length-zeros}
use labyrinth_vault.Airgap.Cbor.{cbor_encode}
use labyrinth_vault.Airgap.Ur.{
  UrEncoder, whole, frame, mix_from, blank, part_text, frame_text, frame_value, whole_text,
  first_fragment, max_fragments, max_message_bytes, parse_ur,
}
use labyrinth_vault.Airgap.Ur.Fragments.{IsLong, concat}
use labyrinth_vault.Airgap.Ur.Frames.{frame_value-IsWritten}
use labyrinth_vault.Airgap.Ur.Parsing.{IsFrame}
use labyrinth_vault.Airgap.Ur.Message.{
  IsChooser, IsEncoder, mixture, fragments-IsSized, length-mixture, mix-IsByte, mix_from_lem,
  blank-zeros, zeros-xor_into,
}
use labyrinth_vault.Airgap.Ur.ReadBack.{parse_ur-whole_text, parse_ur-IsWritten}

-- The message and the fragments are within the receiver's bounds.
pub record IsSendable (size : ℕ) (message : List ℕ) (e : UrEncoder) : Type 0 where
  pub encoder : IsEncoder size message e
  pub in_bytes : All IsByte message
  pub some_message : 0 < length message
  pub short_message : length message ≤ max_message_bytes
  pub few_fragments : e.seq_length ≤ max_fragments
  pub short_fragment : size + 34 ≤ max_message_bytes

length-concat :
    (fs : List (List ℕ)) (n : ℕ) → All (IsLong n) fs → length (concat fs) ≡ n * length fs
unfolding concat
length-concat [] n h = omega arith
length-concat (f ∷ fs) n h = grind (arith, length-append f (concat fs), length-concat fs n h.1, h.0)

not_blank : (size n : ℕ) → 0 < size * n → 0 < size
not_blank zero n h = omega arith
not_blank (suc size) n h = omega arith

module _ (size : ℕ) (message : List ℕ) (e : UrEncoder) (s : IsSendable size message e) where
  -- The fragments are long enough for the message.
  enough : e.message_length ≤ size * e.seq_length
  enough =
      let v = s.encoder in
      let long : length (concat e.fragments) ≡ size * length e.fragments =
        length-concat e.fragments size v.long in
      grind (
        arith,
        v.measured,
        v.counted,
        long,
        length-take e.message_length (concat e.fragments),
        ap length v.joined,
      )

  sent-IsFrame :
      (seq_num : ℕ) (f : List ℕ)
      → 1 ≤ seq_num
      → length f ≡ size
      → IsFrame e.type seq_num e.seq_length e.message_length e.checksum f
  sent-IsFrame seq_num f h l = record {
    typed = s.encoder.typed;
    numbered = h;
    some_fragments = s.encoder.some_fragments;
    few_fragments = s.few_fragments;
    some_message = omega (arith, s.encoder.measured, s.some_message);
    short_message = omega (arith, s.encoder.measured, s.short_message);
    some_bytes =
        rw l
          (not_blank size e.seq_length (omega (arith, s.encoder.measured, s.some_message, enough)));
    enough = rw l enough;
  }

  part_text_of :
      (choose : ℕ → ℕ → ℕ → List ℕ) (seq_num : ℕ) (m body : List ℕ)
      → (e.seq_length == 1) ≡ false
      → mix_from e.fragments (blank e.fragments) (choose seq_num e.seq_length e.checksum) ≡ some m
      → cbor_encode (frame_value seq_num e.seq_length e.message_length e.checksum m) ≡ some body
      → part_text choose e seq_num ≡ some (frame_text e.type seq_num e.seq_length body)
  unfolding part_text
  part_text_of choose seq_num m body q p r = rw (q, p, r) refl

  mixed_of :
      (choose : ℕ → ℕ → ℕ → List ℕ) (seq_num : ℕ)
      → IsChooser choose
      → 1 ≤ seq_num
      → mix_from e.fragments (blank e.fragments) (choose seq_num e.seq_length e.checksum)
        ≡ some (mixture size message e s.encoder (choose seq_num e.seq_length e.checksum))
  mixed_of choose seq_num c h =
      let v = s.encoder in
      let is = choose seq_num e.seq_length e.checksum in
      let n = e.seq_length in
      let pos : 0 < length e.fragments = omega (arith, v.counted, v.some_fragments) in
      ap (λ b. mix_from e.fragments b is) (blank-zeros e.fragments size v.long pos)
      ∙ mix_from_lem e.fragments size is (zeros size)
          (rw (← v.counted) (c.below seq_num n e.checksum h v.some_fragments))
          (c.distinct seq_num n e.checksum h v.some_fragments) (length-zeros size)
          (rw (← v.counted) (fragments-IsSized size message e v))
      ∙ ap some (rw (← v.counted) (zeros-xor_into _ size (length-mixture size message e v is)))

  -- A frame of an animation: its text, and what the receiver reads in it.
  pub part_text-frame :
      (choose : ℕ → ℕ → ℕ → List ℕ) (seq_num : ℕ)
      → IsChooser choose
      → (e.seq_length == 1) ≡ false
      → 1 ≤ seq_num
      → seq_num < 2 ^ 32
      → (t : Text) × (part_text choose e seq_num ≡ some t)
        × (parse_ur t
            ≡ some (
                frame e.type seq_num e.seq_length e.message_length e.checksum
                  (mixture size message e s.encoder (choose seq_num e.seq_length e.checksum))))
  part_text-frame choose seq_num c q h k =
      let v = s.encoder in
      let m = mixture size message e v (choose seq_num e.seq_length e.checksum) in
      let l = length-mixture size message e v (choose seq_num e.seq_length e.checksum) in
      let w =
        frame_value-IsWritten seq_num e.seq_length e.message_length e.checksum m
          (
            k,
            omega (arith, s.few_fragments),
            omega (arith, v.measured, s.short_message),
            rw (v.summed) (crc32-lt message),
          )
          (omega (arith, l, s.short_fragment))
          (mix-IsByte e.fragments size (choose seq_num e.seq_length e.checksum) e.seq_length
            v.in_bytes) in
      (
        frame_text e.type seq_num e.seq_length w.body,
        part_text_of choose seq_num m w.body q (mixed_of choose seq_num c h) w.written,
        parse_ur-IsWritten e.type seq_num e.seq_length e.message_length e.checksum m w
            (sent-IsFrame seq_num m h l) (omega (arith, l, s.short_fragment)),
      )

  first_lem :
      (fs : List (List ℕ)) (m : List ℕ)
      → length fs ≡ 1
      → take e.message_length (concat fs) ≡ m
      → take e.message_length (first_fragment fs) ≡ m
  unfolding concat first_fragment
  first_lem [] m h q = absurd (omega arith)
  first_lem (f ∷ []) m h q = rw (append-nil f) at q
  first_lem (f ∷ g ∷ fs) m h q = absurd (omega arith)

  part_text_whole :
      (choose : ℕ → ℕ → ℕ → List ℕ) (seq_num : ℕ)
      → (e.seq_length == 1) ≡ true
      → part_text choose e seq_num
        ≡ some (whole_text e.type (take e.message_length (first_fragment e.fragments)))
  unfolding part_text
  part_text_whole choose seq_num q = rw q refl

  -- A message in one frame.
  pub part_text-whole :
      (choose : ℕ → ℕ → ℕ → List ℕ) (seq_num : ℕ)
      → (e.seq_length == 1) ≡ true
      → (t : Text) × (part_text choose e seq_num ≡ some t)
        × (parse_ur t ≡ some (whole e.type message))
  part_text-whole choose seq_num q =
      let v = s.encoder in
      let one : e.seq_length ≡ 1 = ground arith in
      let big : e.message_length ≤ size * 1 = rw one at enough in
      let m = first_lem e.fragments message (omega (arith, v.counted, one)) v.joined in
      (
        whole_text e.type message,
        part_text_whole choose seq_num q ∙ ap (λ b. some (whole_text e.type b)) m,
        parse_ur-whole_text e.type message v.typed s.in_bytes
            (omega (arith, big, v.measured, s.short_fragment)),
      )
