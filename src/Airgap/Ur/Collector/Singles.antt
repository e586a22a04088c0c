-- ===== src/Airgap/Ur/Collector/Singles.antt =====
-- src/airgap/ur.ts: the single fragments of a collector.
use labyrinth_vault.Prelude.{
  ℕ, suc, ◌+◌, ◌*◌, ◌<◌, ◌≡◌, refl, sym, ◌∙◌, ap, arith, true, false, List, [], ◌∷◌, ◌++◌, Option,
  none, some, ◌==◌, length, length-append, All-append, Bool-cases, Option-cases, inl, inr,
}
use labyrinth_vault.Airgap.Envelope.Parts.{is_some}
use labyrinth_vault.Airgap.Ur.Collector.{
  UrCollector, get_simple, join_from, reduce_mixed_by, take_simple, complete, hand_over,
}
use labyrinth_vault.Airgap.Ur.Collector.Simple.{
  seen, seen-append, get_simple-append, seen_all, join_from_total,
}
use labyrinth_vault.Airgap.Ur.Collector.Mixtures.{
  single, weights, verdict, Meaning, Collecting, Keeps, Ends, reduce_mixed_by_lem,
}

module _ (n message_length checksum : ℕ) (w : Meaning n) where
  -- A fragment that is not there yet leaves the collector short of one.
  not_full :
      (i : ℕ) (c : UrCollector)
      → i < n
      → Collecting n message_length checksum w c
      → get_simple i c.simple ≡ none
      → (length c.simple < n) × (c.done ≡ none)
  not_full i c h v e = elim (v.settled) [
    | inl q ↦ q
    | inr (q, m, r, s) ↦ absurd (ground (arith, seen_all n i c.simple (sym v.counted ∙ q) h))
  ]

  abbrev added : ℕ → List ℕ → UrCollector → UrCollector
  added i f c = record c { simple = c.simple ++ (i, f) ∷ [] }

  added_counted :
      (i : ℕ) (f : List ℕ) (c : UrCollector)
      → i < n
      → Collecting n message_length checksum w c
      → get_simple i c.simple ≡ none
      → (length (c.simple ++ (i, f) ∷ []) ≡ suc (length c.simple))
        × (length (c.simple ++ (i, f) ∷ []) ≡ seen n (c.simple ++ (i, f) ∷ []))
  added_counted i f c h v e =
      let one : length (c.simple ++ (i, f) ∷ []) ≡ suc (length c.simple) =
        omega (arith, length-append c.simple ((i, f) ∷ [])) in
      (one, one ∙ ap suc v.counted ∙ sym (seen-append n i f c.simple h e))

  added_more :
      (i : ℕ) (f : List ℕ) (c : UrCollector)
      → w.Holds (single (i, f))
      → Collecting n message_length checksum w c
      → get_simple i c.simple ≡ none
      → suc (length c.simple) < n
      → Collecting n message_length checksum w (added i f c)
  added_more i f c h v e more =
      let k = added_counted i f c (w.range i f h) v e in
      record {
        length_eq = v.length_eq;
        message_eq = v.message_eq;
        checksum_eq = v.checksum_eq;
        counted = k.1;
        singles = All-append (λ s. w.Holds (single s)) c.simple _ v.singles (h, tt);
        mixtures = v.mixtures;
        waiting = v.waiting;
        settled = inl (omega (arith, k.0, more), (not_full i c (w.range i f h) v e).1);
      }

  added_last :
      (i : ℕ) (f : List ℕ) (c : UrCollector) (m : List ℕ) (d : Option (List ℕ))
      → w.Holds (single (i, f))
      → Collecting n message_length checksum w c
      → get_simple i c.simple ≡ none
      → suc (length c.simple) ≡ n
      → join_from n 0 (c.simple ++ (i, f) ∷ []) ≡ some m
      → d ≡ verdict message_length checksum m
      → Collecting n message_length checksum w (record (added i f c) { done = d })
  added_last i f c m d h v e last j g =
      let k = added_counted i f c (w.range i f h) v e in
      record {
        length_eq = v.length_eq;
        message_eq = v.message_eq;
        checksum_eq = v.checksum_eq;
        counted = k.1;
        singles = All-append (λ s. w.Holds (single s)) c.simple _ v.singles (h, tt);
        mixtures = v.mixtures;
        waiting = v.waiting;
        settled = inr (k.0 ∙ last, m, j, g);
      }

  last_joins :
      (i : ℕ) (f : List ℕ) (c : UrCollector)
      → i < n
      → Collecting n message_length checksum w c
      → get_simple i c.simple ≡ none
      → suc (length c.simple) ≡ n
      → (m : List ℕ) × (join_from n 0 (c.simple ++ (i, f) ∷ []) ≡ some m)
  last_joins i f c h v e last =
      let k = added_counted i f c h v e in
      join_from_total n 0 _ λ j q. seen_all n j _ (sym k.1 ∙ k.0 ∙ last) (omega (arith, q))

  take_simple_known :
      (i : ℕ) (f : List ℕ) (c : UrCollector) (g : List ℕ)
      → get_simple i c.simple ≡ some g
      → take_simple i f c ≡ some c
  unfolding take_simple
  take_simple_known i f c g e = ground arith

  take_simple_more :
      (i : ℕ) (f : List ℕ) (c : UrCollector)
      → get_simple i c.simple ≡ none
      → (length (c.simple ++ (i, f) ∷ []) == c.seq_length) ≡ false
      → take_simple i f c ≡ some (reduce_mixed_by (single (i, f)) (added i f c))
  unfolding take_simple
  take_simple_more i f c e q = ground arith

  take_simple_last :
      (i : ℕ) (f : List ℕ) (c : UrCollector)
      → get_simple i c.simple ≡ none
      → (length (c.simple ++ (i, f) ∷ []) == c.seq_length) ≡ true
      → take_simple i f c ≡ complete (added i f c)
  unfolding take_simple
  take_simple_last i f c e q = ground arith

  complete_lem :
      (c : UrCollector) (m : List ℕ)
      → c.done ≡ none
      → join_from c.seq_length 0 c.simple ≡ some m
      → complete c ≡ some (record c { done = verdict c.message_length c.checksum m })
  unfolding complete hand_over
  complete_lem c m e j = ground (arith, j)

  added-Keeps :
      (i : ℕ) (f : List ℕ) (c : UrCollector) → get_simple i c.simple ≡ none → Keeps c (added i f c)
  added-Keeps i f c e j h = ground (arith, get_simple-append j i f c.simple e)

  pub take_simple_lem :
      (i : ℕ) (f : List ℕ) (c : UrCollector)
      → w.Holds (single (i, f))
      → Collecting n message_length checksum w c
      → Ends n message_length checksum w c
          (weights c.queue + 2 * length c.mixed + 1)
          (take_simple i f c)
  unfolding reduce_mixed_by
  take_simple_lem i f c h v = elim (Option-cases (get_simple i c.simple)) [
    | inr (g, e) ↦ (c, take_simple_known i f c g e, v, refl, refl, λ j h. h, omega arith)
    | inl e ↦
        let k = added_counted i f c (w.range i f h) v e in
        let (short, idle) = not_full i c (w.range i f h) v e in
        elim (Bool-cases (length (c.simple ++ (i, f) ∷ []) == c.seq_length)) [
          | inr more ↦
              let r =
                reduce_mixed_by_lem n message_length checksum w (single (i, f)) (added i f c) h
                  (added_more i f c h v e (ground (arith, k.0, v.length_eq))) in
              (
                reduce_mixed_by (single (i, f)) (added i f c),
                take_simple_more i f c e more,
                r.0,
                refl,
                refl,
                added-Keeps i f c e,
                omega (arith, r.1),
              )
          | inl last ↦
              let full : suc (length c.simple) ≡ n = ground (arith, k.0, v.length_eq) in
              let (m, j) = last_joins i f c (w.range i f h) v e full in
              let j' : join_from c.seq_length 0 (c.simple ++ (i, f) ∷ []) ≡ some m =
                rw (v.length_eq) j in
              (
                record (added i f c) { done = verdict c.message_length c.checksum m },
                take_simple_last i f c e last ∙ complete_lem (added i f c) m idle j',
                added_last i f c m _ h v e full j (rw (v.message_eq, v.checksum_eq) refl),
                refl,
                refl,
                added-Keeps i f c e,
                omega arith,
              )
        ]
  ]

  complete_simple : (c d : UrCollector) → complete c ≡ some d → d.simple ≡ c.simple
  unfolding complete hand_over
  complete_simple c d q = elim (Option-cases (join_from c.seq_length 0 c.simple)) [
    | inl e ↦ ground arith
    | inr (m, e) ↦ ground arith
  ]

  added_has :
      (i : ℕ) (f : List ℕ) (c d : UrCollector)
      → get_simple i c.simple ≡ none
      → d.simple ≡ c.simple ++ (i, f) ∷ []
      → is_some (get_simple i d.simple) ≡ true
  added_has i f c d e q = rw q (ground (arith, get_simple-append i i f c.simple e))

  -- A fragment that is taken is there.
  pub take_simple_has :
      (i : ℕ) (f : List ℕ) (c d : UrCollector)
      → take_simple i f c ≡ some d
      → is_some (get_simple i d.simple) ≡ true
  unfolding reduce_mixed_by
  take_simple_has i f c d q = elim (Option-cases (get_simple i c.simple)) [
    | inr (g, e) ↦ ground (arith, take_simple_known i f c g e)
    | inl e ↦ elim (Bool-cases (length (c.simple ++ (i, f) ∷ []) == c.seq_length)) [
      | inr more ↦ added_has i f c d e (
          ap (λ (o : Option UrCollector). elim o [ none ↦ [] | some x ↦ x.simple ])
            (sym q ∙ take_simple_more i f c e more))
      | inl last ↦
          added_has i f c d e
            (complete_simple (added i f c) d (sym (take_simple_last i f c e last) ∙ q))
    ]
  ]
