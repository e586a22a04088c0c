-- ===== src/Airgap/Ur/Collector/Rounds.antt =====
-- src/airgap/ur.ts: the collector's loop over its queue.
use labyrinth_vault.Prelude.{
  ℕ, zero, suc, ◌+◌, ◌*◌, ◌≤◌, ◌<◌, ◌≡◌, ◌≢◌, refl, sym, ◌∙◌, ap, arith, true, List, [], ◌∷◌,
  Option, none, some, length, All, Option-cases, List-cases, ◌⊎◌, inl, inr,
}
use labyrinth_vault.Airgap.Envelope.Parts.{is_some}
use labyrinth_vault.Airgap.Ur.Pieces.{Piece}
use labyrinth_vault.Airgap.Ur.Collector.{UrCollector, empty, get_simple, handle, drain}
use labyrinth_vault.Airgap.Ur.Collector.Mixtures.{
  single, weight, weights, Meaning, Collecting, Keeps, Ends, take_mixed_lem,
}
use labyrinth_vault.Airgap.Ur.Collector.Singles.{take_simple_lem, take_simple_has}

-- What the loop leaves.
abbrev pub Drained :
    (n message_length checksum : ℕ) → Meaning n → UrCollector → Option UrCollector → Type 0
Drained n message_length checksum w c r =
    (d : UrCollector) × (r ≡ some d)
    × Collecting n message_length checksum w d
    × (d.type ≡ c.type)
    × (d.fragment_length ≡ c.fragment_length)
    × Keeps c d
    × ((d.queue ≡ []) ⊎ (d.done ≢ none))

module _ (n message_length checksum : ℕ) (w : Meaning n) where
  handle_of :
      (is f : List ℕ) (c : UrCollector)
      → w.Holds (record { indexes = is; fragment = f })
      → Collecting n message_length checksum w c
      → Ends n message_length checksum w c
          (weight (record { indexes = is; fragment = f }) + (weights c.queue + 2 * length c.mixed))
          (handle (record { indexes = is; fragment = f }) c)
  unfolding handle weight
  handle_of [] f c h v = (c, refl, v, refl, refl, λ j h. h, omega arith)
  handle_of (i ∷ []) f c h v =
      let (d, e, w, t, l, g, k) = take_simple_lem n message_length checksum w i f c h v in
      (d, e, w, t, l, g, omega (arith, k))
  handle_of (i ∷ j ∷ is) f c h v =
      let (d, e, w, t, l, g, k) = take_mixed_lem n message_length checksum w _ c h v in
      (d, e, w, t, l, g, ground (arith, k))

  drain_done : (fuel : ℕ) (c : UrCollector) (m : List ℕ) → c.done ≡ some m → drain fuel c ≡ some c
  unfolding drain
  drain_done zero c m e = ground arith
  drain_done (suc left) c m e = ground arith

  drain_idle : (fuel : ℕ) (c : UrCollector) → c.done ≡ none → c.queue ≡ [] → drain fuel c ≡ some c
  unfolding drain
  drain_idle zero c e q = ground arith
  drain_idle (suc left) c e q = ground arith

  drain_round :
      (left : ℕ) (c d : UrCollector) (p : Piece) (ps : List Piece)
      → c.done ≡ none
      → c.queue ≡ p ∷ ps
      → handle p (record c { queue = ps }) ≡ some d
      → drain (suc left) c ≡ drain left d
  unfolding drain
  drain_round left c d p ps e q h = ground (arith, h)

  weight-pos : (p : Piece) → 0 < weight p
  unfolding weight
  weight-pos p = ground arith

  weights_cons : (p : Piece) (ps : List Piece) → weights (p ∷ ps) ≡ weight p + weights ps
  unfolding weights
  weights_cons p ps = refl

  taken :
      (c : UrCollector) (p : Piece) (ps : List Piece)
      → c.queue ≡ p ∷ ps
      → Collecting n message_length checksum w c
      → w.Holds p × Collecting n message_length checksum w (record c { queue = ps })
  taken c p ps q v =
      let k : All w.Holds (p ∷ ps) = rw q at (v.waiting) in
      (
        k.0,
        record {
          length_eq = v.length_eq;
          message_eq = v.message_eq;
          checksum_eq = v.checksum_eq;
          counted = v.counted;
          singles = v.singles;
          mixtures = v.mixtures;
          waiting = k.1;
          settled = v.settled;
        },
      )

  some_ne_none : (o : Option (List ℕ)) (m : List ℕ) → o ≡ some m → o ≢ none
  some_ne_none o m e q = ground arith

  drain_stops :
      (fuel : ℕ) (c : UrCollector)
      → Collecting n message_length checksum w c
      → ((p : Piece) (ps : List Piece)
          → c.done ≡ none
          → c.queue ≡ p ∷ ps
          → Drained n message_length checksum w c (drain fuel c))
      → Drained n message_length checksum w c (drain fuel c)
  drain_stops fuel c v go = elim (Option-cases c.done) [
    | inr (m, e) ↦
        (c, drain_done fuel c m e, v, refl, refl, λ j h. h, inr (some_ne_none c.done m e))
    | inl e ↦ elim (List-cases c.queue) [
      | inl q ↦ (c, drain_idle fuel c e q, v, refl, refl, λ j h. h, inl q)
      | inr (p, ps, q) ↦ go p ps e q
    ]
  ]

  -- The queue is worked off within the rounds that it counts, or a message is done before.
  pub drain_lem :
      (fuel : ℕ) (c : UrCollector)
      → Collecting n message_length checksum w c
      → weights c.queue + 2 * length c.mixed ≤ fuel
      → Drained n message_length checksum w c (drain fuel c)
  drain_lem zero c v k =
      drain_stops 0 c v
        λ p ps e q. absurd (omega (arith, k, ap weights q, weights_cons p ps, weight-pos p))
  drain_lem (suc left) c v k = drain_stops (suc left) c v λ p ps e q.
      let (h, u0) = taken c p ps q v in
      let (d, r, u, t, l, g, less) =
        handle_of p.indexes p.fragment (record c { queue = ps }) h u0 in
      let (last, s, x, t', l', g', f) =
        drain_lem left d u (omega (arith, less, k, ap weights q, weights_cons p ps)) in
      (last, drain_round left c d p ps e q r ∙ s, x, t' ∙ t, l' ∙ l, λ j q. g' j (g j q), f)

  some_inj : {c d : UrCollector} → some c ≡ some d → c ≡ d
  some_inj e = ap (λ (o : Option UrCollector). elim o [ none ↦ empty | some x ↦ x ]) e

  -- A fragment that waits alone is there once the queue is worked off.
  pub drain_has :
      (fuel : ℕ) (c d : UrCollector) (i : ℕ) (f : List ℕ)
      → Collecting n message_length checksum w c
      → c.done ≡ none
      → c.queue ≡ single (i, f) ∷ []
      → weights c.queue + 2 * length c.mixed ≤ fuel
      → drain fuel c ≡ some d
      → is_some (get_simple i d.simple) ≡ true
  unfolding handle
  drain_has zero c d i f v e q k r =
      absurd (
        omega (arith, k, ap weights q, weights_cons (single (i, f)) [], weight-pos (single (i, f))))
  drain_has (suc left) c d i f v e q k r =
      let (h, u0) = taken c (single (i, f)) [] q v in
      let (d1, r1, u, t, l, g, less) = handle_of (i ∷ []) f (record c { queue = [] }) h u0 in
      let (last, s, x, t', l', g', z) =
        drain_lem left d1 u
          (omega (arith, less, k, ap weights q, weights_cons (single (i, f)) [])) in
      let same : d ≡ last =
        some_inj (sym r ∙ drain_round left c d1 (single (i, f)) [] e q r1 ∙ s) in
      rw same
        (g' i (take_simple_has n message_length checksum w i f (record c { queue = [] }) d1 r1))
