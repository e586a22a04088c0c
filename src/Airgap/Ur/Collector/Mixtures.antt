-- ===== src/Airgap/Ur/Collector/Mixtures.antt =====
-- src/airgap/ur.ts: the mixtures of a collector.
use labyrinth_vault.Prelude.{
  ℕ, ◌+◌, ◌*◌, ◌≤◌, ◌<◌, ◌≡◌, refl, arith, true, List, [], ◌∷◌, ◌++◌, Option, none, some, ◌==◌,
  if◌then◌else◌, length, length-append, take, All, All-append, Bool-cases, ◌⊎◌, inl, inr,
}
use labyrinth_vault.Airgap.Crc.{crc32}
use labyrinth_vault.Airgap.Envelope.Parts.{is_some}
use labyrinth_vault.Airgap.Ur.Pieces.{Piece, reduce, is_known}
use labyrinth_vault.Airgap.Ur.Collector.{
  UrCollector, get_simple, join_from, reduce_all, reduce_mixed_by, reduce_by_simple,
  reduce_by_mixed, place, take_mixed, rounds_left,
}
use labyrinth_vault.Airgap.Ur.Collector.Simple.{seen}

abbrev pub single : ℕ × List ℕ → Piece
single s = record { indexes = s.0 ∷ []; fragment = s.1 }

-- What the queue counts for.
unfoldable pub weight : Piece → ℕ
weight p = if length p.indexes == 1 then 1 else 3

unfoldable pub weights : List Piece → ℕ
weights [] = 0
weights (p ∷ ps) = weight p + weights ps

pub rounds_left_lem :
    (queue mixed : List Piece) → rounds_left queue mixed ≡ weights queue + 2 * length mixed
unfolding rounds_left weights weight
rounds_left_lem [] [] = refl
rounds_left_lem [] (m ∷ mixed) = omega (arith, rounds_left_lem [] mixed)
rounds_left_lem (p ∷ queue) mixed = ground (arith, rounds_left_lem queue mixed)

weights-append : (ps : List Piece) (p : Piece) → weights (ps ++ p ∷ []) ≡ weights ps + weight p
unfolding weights
weights-append [] p = omega arith
weights-append (q ∷ ps) p = omega (arith, weights-append ps p)

weight_alone : (p : Piece) → (length p.indexes == 1) ≡ true → weight p ≡ 1
unfolding weight
weight_alone p e = rw e refl

-- What is handed over once the fragments are joined.
abbrev pub verdict : ℕ → ℕ → List ℕ → Option (List ℕ)
verdict message_length checksum m =
    let trimmed = take message_length m in if crc32 trimmed == checksum then some trimmed else none

-- A collector for a message of `n` fragments, whose pieces all satisfy `P`.
pub record IsCollecting (n message_length checksum : ℕ) (P : Piece → Type 0) (c : UrCollector)
    : Type 0 where
  pub length_eq : c.seq_length ≡ n
  pub message_eq : c.message_length ≡ message_length
  pub checksum_eq : c.checksum ≡ checksum
  pub counted : length c.simple ≡ seen n c.simple
  pub singles : All (λ s. P (single s)) c.simple
  pub mixtures : All P c.mixed
  pub waiting : All P c.queue
  pub settled :
      ((length c.simple < n) × (c.done ≡ none))
      ⊎ ((length c.simple ≡ n)
          × (m : List ℕ) × (join_from n 0 c.simple ≡ some m)
          × (c.done ≡ verdict message_length checksum m))

-- What is known of every piece of a collector for `n` fragments: it survives subtraction, and a
-- single fragment's number is in range.
pub record Meaning (n : ℕ) : Type 1 where
  pub Holds : Piece → Type 0
  pub keep : (a b : Piece) → Holds a → Holds b → Holds (reduce a b)
  pub range : (i : ℕ) (f : List ℕ) → Holds (single (i, f)) → i < n

-- A fragment that is there stays.
abbrev pub Keeps : UrCollector → UrCollector → Type 0
Keeps c d =
    (j : ℕ) → is_some (get_simple j c.simple) ≡ true → is_some (get_simple j d.simple) ≡ true

abbrev pub Collecting : (n message_length checksum : ℕ) → Meaning n → UrCollector → Type 0
Collecting n message_length checksum w c = IsCollecting n message_length checksum w.Holds c

-- A round that ends, with less than `k` left to do.
abbrev pub Ends :
    (n message_length checksum : ℕ) → Meaning n → UrCollector → ℕ → Option UrCollector → Type 0
Ends n message_length checksum w c k r =
    (d : UrCollector) × (r ≡ some d)
    × Collecting n message_length checksum w d
    × (d.type ≡ c.type)
    × (d.fragment_length ≡ c.fragment_length)
    × Keeps c d
    × (weights d.queue + 2 * length d.mixed < k)

module _ {n : ℕ} (w : Meaning n) where
  reduce_all_lem :
      (p : Piece) (mixed queue : List Piece)
      → w.Holds p
      → All w.Holds mixed
      → All w.Holds queue
      → All w.Holds (reduce_all p mixed queue).0
        × All w.Holds (reduce_all p mixed queue).1
        × (weights (reduce_all p mixed queue).1 + 2 * length (reduce_all p mixed queue).0
            ≤ weights queue + 2 * length mixed)
  unfolding reduce_all
  reduce_all_lem p [] queue h k l = (tt, l, omega arith)
  reduce_all_lem p (o ∷ mixed) queue h k l =
      let r = reduce o p in
      let hr : w.Holds r = w.keep o p k.0 h in
      let alone =
        reduce_all_lem p mixed (queue ++ r ∷ []) h k.1 (All-append w.Holds queue _ l (hr, tt)) in
      let rest = reduce_all_lem p mixed queue h k.1 l in
      elim (Bool-cases (length r.indexes == 1)) [
        | inl e ↦
            rw e
              (alone.0, alone.1, omega (arith, alone.2, weights-append queue r, weight_alone r e))
        | inr e ↦ ground (arith, rest.0, rest.1, rest.2, hr)
      ]

  reduce_by_simple_lem :
      (p : Piece) (m : List (ℕ × List ℕ))
      → w.Holds p
      → All (λ s. w.Holds (single s)) m
      → w.Holds (reduce_by_simple p m)
  unfolding reduce_by_simple
  reduce_by_simple_lem p [] h k = h
  reduce_by_simple_lem p (s ∷ m) h k =
      reduce_by_simple_lem (reduce p (single s)) m (w.keep p (single s) h k.0) k.1

  reduce_by_mixed_lem :
      (p : Piece) (m : List Piece) → w.Holds p → All w.Holds m → w.Holds (reduce_by_mixed p m)
  unfolding reduce_by_mixed
  reduce_by_mixed_lem p [] h k = h
  reduce_by_mixed_lem p (o ∷ m) h k = reduce_by_mixed_lem (reduce p o) m (w.keep p o h k.0) k.1

module _ (n message_length checksum : ℕ) (w : Meaning n) where
  pub reduce_mixed_by_lem :
      (p : Piece) (c : UrCollector)
      → w.Holds p
      → Collecting n message_length checksum w c
      → Collecting n message_length checksum w (reduce_mixed_by p c)
        × (weights (reduce_mixed_by p c).queue + 2 * length (reduce_mixed_by p c).mixed
            ≤ weights c.queue + 2 * length c.mixed)
  unfolding reduce_mixed_by
  reduce_mixed_by_lem p c h v =
      let r = reduce_all_lem w p c.mixed c.queue h v.mixtures v.waiting in
      (
        record {
          length_eq = v.length_eq;
          message_eq = v.message_eq;
          checksum_eq = v.checksum_eq;
          counted = v.counted;
          singles = v.singles;
          mixtures = r.0;
          waiting = r.1;
          settled = v.settled;
        },
        r.2,
      )

  place_lem :
      (p : Piece) (c : UrCollector)
      → w.Holds p
      → Collecting n message_length checksum w c
      → Ends n message_length checksum w c
          (weights c.queue + 2 * length c.mixed + 3)
          (some (place p c))
  unfolding place reduce_mixed_by
  place_lem p c h v = elim (Bool-cases (length p.indexes == 0)) [
    | inl e ↦ (c, rw e refl, v, refl, refl, λ j h. h, omega arith)
    | inr e ↦ elim (Bool-cases (length p.indexes == 1)) [
      | inl o ↦ (
        record c { queue = c.queue ++ p ∷ [] },
        rw (e, o) refl,
        record {
          length_eq = v.length_eq;
          message_eq = v.message_eq;
          checksum_eq = v.checksum_eq;
          counted = v.counted;
          singles = v.singles;
          mixtures = v.mixtures;
          waiting = All-append w.Holds c.queue _ v.waiting (h, tt);
          settled = v.settled;
        },
        refl,
        refl,
        λ j h. h,
        omega (arith, weights-append c.queue p, weight_alone p o),
      )
      | inr o ↦
          let r = reduce_mixed_by_lem p c h v in
          (
            record (reduce_mixed_by p c) { mixed = (reduce_mixed_by p c).mixed ++ p ∷ [] },
            rw (e, o) refl,
            record {
              length_eq = v.length_eq;
              message_eq = v.message_eq;
              checksum_eq = v.checksum_eq;
              counted = v.counted;
              singles = v.singles;
              mixtures = All-append w.Holds (reduce_mixed_by p c).mixed _ r.0.mixtures (h, tt);
              waiting = r.0.waiting;
              settled = v.settled;
            },
            refl,
            refl,
            λ j h. h,
            omega (arith, r.1, length-append (reduce_mixed_by p c).mixed (p ∷ [])),
          )
    ]
  ]

  pub take_mixed_lem :
      (p : Piece) (c : UrCollector)
      → w.Holds p
      → Collecting n message_length checksum w c
      → Ends n message_length checksum w c
          (weights c.queue + 2 * length c.mixed + 3)
          (some (take_mixed p c))
  unfolding take_mixed
  take_mixed_lem p c h v = elim (Bool-cases (is_known c.mixed p.indexes)) [
    | inl e ↦ (c, rw e refl, v, refl, refl, λ j h. h, omega arith)
    | inr e ↦ rw e (
        place_lem (reduce_by_mixed (reduce_by_simple p c.simple) c.mixed) c
          (reduce_by_mixed_lem w (reduce_by_simple p c.simple) c.mixed
            (reduce_by_simple_lem w p c.simple h v.singles) v.mixtures)
          v)
  ]
