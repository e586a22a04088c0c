-- ===== src/Airgap/Envelope/Reachable.antt =====
-- Every collector that frames can lead to, and what it reports.
use labyrinth_vault.Prelude.{
  ℕ, ◌+◌, ◌-◌, ◌≤◌, ◌≡◌, ◌≢◌, sym, ◌∙◌, arith, true, false, List, [], Option, none, some,
  Option-cases, ◌==◌, ==_iff, Text, text_eq, length, Bool-cases, inl, inr, ltb,
}
use mathlib.Core.Path.{subst}
use labyrinth_vault.Airgap.Base32.{base32_decode}
use labyrinth_vault.Airgap.Crc.{digest_of}
use labyrinth_vault.Airgap.Envelope.{
  Part, Problem, not_labyrinth, other_set, unclean, not_whole, damaged, Progress, Collector, fresh,
  offer, accept, finish, admit, assemble, set_part, or_else, status, parse_part, max_parts,
}
use labyrinth_vault.Airgap.Envelope.Parsing.{IsPart, parse_part-IsPart}
use labyrinth_vault.Airgap.Envelope.Parts.{seen-le}
use labyrinth_vault.Airgap.Envelope.Delivery.{offer_of_part}
use labyrinth_vault.Airgap.Envelope.Safety.{
  IsValid, fresh-IsValid, admit-IsValid, admit_digest, set_part-IsValid, assemble_decodes,
  offer_unread,
}

-- What a progress line may rely on.
pub record IsSane (r : Progress) : Type 0 where
  pub some_of : r.have ≤ r.total
  pub bounded : r.total ≤ max_parts
  pub undamaged : r.problem ≢ some damaged

abbrev IsFine : Collector × Progress → Type 0
IsFine r = IsValid r.0 × IsSane r.1

status-IsFine :
    (c : Collector) (o : Option Problem) → IsValid c → o ≢ some damaged → IsFine (c, status c o)
status-IsFine c o v h = (
  v,
  record {
    some_of = omega (arith, v.counted, seen-le c.total c.parts);
    bounded = v.bounded;
    undamaged = h;
  },
)

finish_whole :
    (c : Collector) (p : Part) (bytes : List ℕ)
    → assemble c.total 1 c.parts ≡ some bytes
    → text_eq (digest_of bytes) (or_else c.digest []) ≡ true
    → finish c p ≡ (
      c,
      record {
        kind = p.kind;
        have = c.total;
        total = c.total;
        payload = some bytes;
        problem = none;
      },
    )
unfolding finish
finish_whole c p bytes e q = rw (e, finish, q)

finish_broken :
    (c : Collector) (p : Part) (bytes : List ℕ)
    → assemble c.total 1 c.parts ≡ some bytes
    → text_eq (digest_of bytes) (or_else c.digest []) ≡ false
    → finish c p ≡ (
      fresh,
      record { kind = p.kind; have = 0; total = 0; payload = none; problem = some not_whole },
    )
unfolding finish
finish_broken c p bytes e q = rw (e, finish, q)

finish-IsFine : (c : Collector) (p : Part) → IsValid c → IsFine (finish c p)
finish-IsFine c p v = elim (Option-cases (assemble c.total 1 c.parts)) [
  | inl e ↦ absurd (assemble_decodes c.total 1 c.parts v.bodies e)
  | inr (bytes, e) ↦ elim (Bool-cases (text_eq (digest_of bytes) (or_else c.digest []))) [
    | inl q ↦
        rw (finish_whole c p bytes e q)
          (v, record { some_of = omega arith; bounded = v.bounded; undamaged = λ x. cc })
    | inr q ↦ rw (finish_broken c p bytes e q) (
      fresh-IsValid,
      record { some_of = omega arith; bounded = omega arith; undamaged = λ x. cc },
    )
  ]
]

some-ne-none {ℓ} : {A : Type ℓ} {a : A} → some a ≡ none → ⊥
some-ne-none e = cc

filled : Collector → Part → Collector
filled c p = record c { parts = set_part p.index p.body c.parts }

accept_cases :
    (P : Collector × Progress → Type 0) (c : Collector) (p : Part)
    → P (c, status c (some other_set))
    → P (c, status c (some unclean))
    → ((b : List ℕ)
        → p.total ≡ c.total
        → base32_decode p.body ≡ some b
        → P (filled c p, status (filled c p) none) × P (finish (filled c p) p))
    → P (accept c p)
unfolding accept filled
accept_cases P c p x y z = elim (Bool-cases (p.total == c.total)) [
  | inl e ↦ elim (Option-cases (base32_decode p.body)) [
    | inl q ↦ rw (e, q, accept) y
    | inr (b, q) ↦ elim (Bool-cases (ltb (length (filled c p).parts) c.total)) [
      | inl l ↦ rw (e, q, l, accept) (z b ((==_iff _ _).0 e) q).0
      | inr l ↦ rw (e, q, l, accept) (z b ((==_iff _ _).0 e) q).1
    ]
  ]
  | inr e ↦ rw (e, accept) x
]

filled-IsValid :
    (c : Collector) (p : Part) (b : List ℕ)
    → IsValid c
    → IsPart p
    → c.digest ≡ some p.digest
    → p.total ≡ c.total
    → base32_decode p.body ≡ some b
    → IsValid (filled c p)
unfolding filled
filled-IsValid c p b v q d t e =
    let number : p.index - 1 + 1 ≡ p.index = omega (arith, q.positive) in
    subst (λ i. IsValid (record c { parts = set_part i p.body c.parts })) number
      (set_part-IsValid c (p.index - 1) p.body v (λ x. some-ne-none (sym d ∙ x))
        (omega (arith, q.ordered, q.positive, t)) (λ x. some-ne-none (sym e ∙ x)))

accept-IsFine :
    (c : Collector) (p : Part)
    → IsValid c
    → IsPart p
    → c.digest ≡ some p.digest
    → IsFine (accept c p)
accept-IsFine c p v q d =
    accept_cases IsFine c p (status-IsFine c (some other_set) v (λ x. cc))
      (status-IsFine c (some unclean) v (λ x. cc))
      (λ b t e.
        let w = filled-IsValid c p b v q d t e in
        (status-IsFine (filled c p) none w (λ x. cc), finish-IsFine (filled c p) p w))

-- From a valid collector, any frame leads to a valid collector, and the progress reported has at
-- most as many parts as its total, a total in range, and never the problem of a damaged code.
pub offer-IsValid :
    (c : Collector) (text : Text) → IsValid c → IsValid (offer c text).0 × IsSane (offer c text).1
offer-IsValid c text v = elim (Option-cases (parse_part text)) [
  | inl e ↦ rw (offer_unread c text e) (status-IsFine c (some not_labyrinth) v (λ x. cc))
  | inr (p, e) ↦
      let q = parse_part-IsPart text p e in
      rw (offer_of_part c text p e)
        (accept-IsFine (admit c p) p (admit-IsValid p c q v) q (admit_digest c p))
]

-- The collectors that a scan can produce: frames are offered, and a scan may be reset.
pub data Reach : Collector → Type 0 where
  start : Reach fresh
  read : {c : Collector} → Reach c → (text : Text) → Reach (offer c text).0
  again : {c : Collector} → Reach c → Reach fresh

pub Reach-IsValid : {c : Collector} → Reach c → IsValid c
Reach-IsValid start = fresh-IsValid
Reach-IsValid (read {c} r text) = (offer-IsValid c text (Reach-IsValid r)).0
Reach-IsValid (again r) = fresh-IsValid

-- In a scan from a new collector, whatever frames it meets, the progress reported has at most as
-- many parts as its total, the total is at most 2048, and no code is ever reported as damaged.
pub offer-IsSane_of_Reach : (c : Collector) (text : Text) → Reach c → IsSane (offer c text).1
offer-IsSane_of_Reach c text r = (offer-IsValid c text (Reach-IsValid r)).1
