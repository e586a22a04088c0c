-- ===== src/Airgap/Ur/Collector/Waiting.antt =====
-- A collector between two codes, and what one frame makes of it.
use labyrinth_vault.Prelude.{
  ℕ, ◌+◌, ◌*◌, ◌≤◌, ◌<◌, ◌≡◌, ◌≢◌, refl, sym, ◌∙◌, arith, true, false, List, [], ◌∷◌, none, some,
  ◌==◌, Text, eq_of_text_eq, text_eq_refl, ==_refl, length, Bool-cases, Option-cases, ◌⊎◌, inl, inr,
}
use labyrinth_vault.Airgap.Envelope.Parts.{is_some}
use labyrinth_vault.Airgap.Ur.{frame}
use labyrinth_vault.Airgap.Ur.Collector.{
  UrCollector, empty, status, push, admit, begin, is_other, drain, rounds_left, conclude,
  take_frame, offer_part, join_from, get_simple,
}
use labyrinth_vault.Airgap.Ur.Collector.Simple.{seen-nil}
use labyrinth_vault.Airgap.Ur.Collector.Mixtures.{
  verdict, single, weights, rounds_left_lem, Meaning, Collecting, Keeps,
}
use labyrinth_vault.Airgap.Ur.Collector.Rounds.{drain_lem, drain_has}

-- Fragments are still missing, and no piece waits.
pub record IsWaiting (n message_length checksum : ℕ) (w : Meaning n) (c : UrCollector)
    : Type 0 where
  pub collecting : Collecting n message_length checksum w c
  pub idle : c.queue ≡ []
  pub short : length c.simple < n
  pub undone : c.done ≡ none

-- What a frame begins.
abbrev pub begun : Text → ℕ → ℕ → ℕ → ℕ → UrCollector
begun type n message_length checksum size = record empty {
  type = some type;
  seq_length = n;
  message_length = message_length;
  checksum = checksum;
  fragment_length = size;
}

pub begun-IsWaiting :
    (type : Text) (n message_length checksum size : ℕ) (w : Meaning n)
    → 0 < n
    → IsWaiting n message_length checksum w (begun type n message_length checksum size)
begun-IsWaiting type n message_length checksum size w h = record {
  collecting = record {
    length_eq = refl;
    message_eq = refl;
    checksum_eq = refl;
    counted = sym (seen-nil n);
    singles = tt;
    mixtures = tt;
    waiting = tt;
    settled = inl (h, refl);
  };
  idle = refl;
  short = h;
  undone = refl;
}

-- The collector is for the frame's message.
pub record IsFor (c : UrCollector) (type : Text) (n message_length checksum size : ℕ) : Type 0 where
  pub type_eq : c.type ≡ some type
  pub length_eq : c.seq_length ≡ n
  pub message_eq : c.message_length ≡ message_length
  pub checksum_eq : c.checksum ≡ checksum
  pub size_eq : c.fragment_length ≡ size

-- A frame finds a collector for its message, or begins a new one.
pub admit_cases :
    (c : UrCollector) (type : Text) (n message_length checksum : ℕ) (f : List ℕ)
    → (c.type ≡ none → c ≡ empty)
    → ((admit c type n message_length checksum f ≡ c)
        × IsFor c type n message_length checksum (length f))
      ⊎ (admit c type n message_length checksum f ≡ begun type n message_length checksum (length f))
unfolding admit begin is_other
admit_cases c type n message_length checksum f h = elim (Option-cases c.type) [
  | inl e ↦ inr (rw (h e) refl)
  | inr (t, e) ↦ elim (Bool-cases (is_other c type n message_length checksum f)) [
    | inl other ↦ inr (rw (other, admit) refl)
    | inr same ↦ inl (ground (arith, eq_of_text_eq type t))
  ]
]

module _ (choose : ℕ → ℕ → ℕ → List ℕ) where
  pub offer_part_lem :
      (c : UrCollector) (type : Text) (seq_num n message_length checksum : ℕ) (f : List ℕ)
      → offer_part choose c (frame type seq_num n message_length checksum f)
        ≡ take_frame choose type seq_num n checksum f (admit c type n message_length checksum f)
  unfolding offer_part
  offer_part_lem c type seq_num n message_length checksum f = refl

  pub take_frame_done :
      (type : Text) (seq_num n checksum : ℕ) (f : List ℕ) (c : UrCollector) (m : List ℕ)
      → c.done ≡ some m
      → take_frame choose type seq_num n checksum f c ≡ some (c, status c)
  unfolding take_frame
  take_frame_done type seq_num n checksum f c m e = ground arith

pub admit_own :
    (c : UrCollector) (type : Text) (n message_length checksum : ℕ) (f : List ℕ)
    → IsFor c type n message_length checksum (length f)
    → admit c type n message_length checksum f ≡ c
unfolding admit begin is_other
admit_own c type n message_length checksum f h = ground (
  arith,
  h.type_eq,
  h.length_eq,
  h.message_eq,
  h.checksum_eq,
  h.size_eq,
  text_eq_refl type,
  ==_refl n,
  ==_refl message_length,
  ==_refl checksum,
  ==_refl (length f),
)

pub admit-empty :
    (type : Text) (n message_length checksum : ℕ) (f : List ℕ)
    → admit empty type n message_length checksum f ≡ begun type n message_length checksum (length f)
unfolding admit begin is_other
admit-empty type n message_length checksum f = refl

module _ (n message_length checksum : ℕ) (w : Meaning n) where
  push_lem :
      (indexes f : List ℕ) (c : UrCollector)
      → w.Holds (record { indexes = indexes; fragment = f })
      → IsWaiting n message_length checksum w c
      → Collecting n message_length checksum w (push indexes f c)
  unfolding push
  push_lem indexes f c h v = record {
    length_eq = v.collecting.length_eq;
    message_eq = v.collecting.message_eq;
    checksum_eq = v.collecting.checksum_eq;
    counted = v.collecting.counted;
    singles = v.collecting.singles;
    mixtures = v.collecting.mixtures;
    waiting = rw (v.idle) (h, tt);
    settled = v.collecting.settled;
  }

  push_queue :
      (indexes f : List ℕ) (c : UrCollector) (i : ℕ)
      → c.queue ≡ []
      → indexes ≡ i ∷ []
      → (push indexes f c).queue ≡ single (i, f) ∷ []
  unfolding push
  push_queue indexes f c i e q = rw (e, q) refl

  take_frame_of :
      (choose : ℕ → ℕ → ℕ → List ℕ) (type : Text) (seq_num : ℕ) (f : List ℕ) (c d : UrCollector)
      → c.done ≡ none
      → drain
          (rounds_left
            (push (choose seq_num n checksum) f c).queue
            (push (choose seq_num n checksum) f c).mixed)
          (push (choose seq_num n checksum) f c)
        ≡ some d
      → take_frame choose type seq_num n checksum f c ≡ some (conclude type d)
  unfolding take_frame
  take_frame_of choose type seq_num f c d u e = ground (arith, e)

  -- One frame's piece is worked in, without an exception.
  pub take_frame_lem :
      (choose : ℕ → ℕ → ℕ → List ℕ) (type : Text) (seq_num : ℕ) (f : List ℕ) (c : UrCollector)
      → w.Holds (record { indexes = choose seq_num n checksum; fragment = f })
      → IsWaiting n message_length checksum w c
      → (d : UrCollector) × (take_frame choose type seq_num n checksum f c ≡ some (conclude type d))
        × Collecting n message_length checksum w d
        × (d.type ≡ c.type)
        × (d.fragment_length ≡ c.fragment_length)
        × Keeps c d
        × ((d.queue ≡ []) ⊎ (d.done ≢ none))
        × ((i : ℕ) → choose seq_num n checksum ≡ i ∷ [] → is_some (get_simple i d.simple) ≡ true)
  unfolding push
  take_frame_lem choose type seq_num f c h v =
      let c' = push (choose seq_num n checksum) f c in
      let v' = push_lem (choose seq_num n checksum) f c h v in
      let rounds : weights c'.queue + 2 * length c'.mixed ≤ rounds_left c'.queue c'.mixed =
        omega (arith, rounds_left_lem c'.queue c'.mixed) in
      let (d, e, u, t, l, g, z) =
        drain_lem n message_length checksum w (rounds_left c'.queue c'.mixed) c' v' rounds in
      (
        d,
        take_frame_of choose type seq_num f c d v.undone e,
        u,
        t,
        l,
        g,
        z,
        λ i q.
            drain_has n message_length checksum w (rounds_left c'.queue c'.mixed) c' d i f v'
              v.undone (push_queue (choose seq_num n checksum) f c i v.idle q) rounds e,
      )

  -- What the end of the loop makes of the collector: a message, a wait for more, or a new start.
  pub data Outcome (type : Text) (d : UrCollector) : Type 0 where
    delivered : (m : List ℕ) → d.done ≡ some m → conclude type d ≡ (d, status d) → Outcome type d
    waits :
        IsWaiting n message_length checksum w d → conclude type d ≡ (d, status d) → Outcome type d
    failed :
        (m : List ℕ)
        → join_from n 0 d.simple ≡ some m
        → verdict message_length checksum m ≡ none
        → (conclude type d).0 ≡ empty
        → Outcome type d

  conclude_done :
      (type : Text) (d : UrCollector) (m : List ℕ)
      → d.done ≡ some m
      → conclude type d ≡ (d, status d)
  unfolding conclude
  conclude_done type d m e = ground arith

  conclude_short :
      (type : Text) (d : UrCollector)
      → d.done ≡ none
      → (length d.simple == d.seq_length) ≡ false
      → conclude type d ≡ (d, status d)
  unfolding conclude
  conclude_short type d e q = ground arith

  conclude_full :
      (type : Text) (d : UrCollector)
      → d.done ≡ none
      → (length d.simple == d.seq_length) ≡ true
      → (conclude type d).0 ≡ empty
  unfolding conclude
  conclude_full type d e q = ground arith

  pub conclude_lem :
      (type : Text) (d : UrCollector)
      → Collecting n message_length checksum w d
      → (d.queue ≡ []) ⊎ (d.done ≢ none)
      → Outcome type d
  conclude_lem type d v z = elim (Option-cases d.done) [
    | inr (m, e) ↦ delivered m e (conclude_done type d m e)
    | inl e ↦ elim z [
      | inr q ↦ absurd (q e)
      | inl q ↦ elim (v.settled) [
        | inl (short, _) ↦
            waits (record { collecting = v; idle = q; short = short; undone = e })
              (conclude_short type d e (ground (arith, v.length_eq)))
        | inr (full, m, j, g) ↦
            failed m j (sym g ∙ e) (conclude_full type d e (ground (arith, v.length_eq)))
      ]
    ]
  ]
