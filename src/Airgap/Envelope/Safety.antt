-- ===== src/Airgap/Envelope/Safety.antt =====
-- src/airgap/envelope.ts: the collector on any frames at all.
use labyrinth_vault.Prelude.{
  ℕ, zero, suc, ◌+◌, ◌≤◌, ◌<◌, ◌≡◌, ◌≢◌, refl, sym, ap, ◌∙◌, arith, true, false, List, [], Option,
  none, some, Option-cases, ◌==◌, if◌then◌else◌, Text, eq_of_text_eq, length, Bool-cases, inl, inr,
}
use labyrinth_vault.Airgap.Base32.{base32_decode}
use labyrinth_vault.Airgap.Crc.{digest_of}
use labyrinth_vault.Airgap.Envelope.{
  Part, not_labyrinth, Collector, fresh, offer, accept, finish, admit, begin, is_other, assemble,
  get_part, set_part, or_else, status, parse_part, max_parts,
}
use labyrinth_vault.Airgap.Envelope.Parsing.{IsPart}
use labyrinth_vault.Airgap.Envelope.Parts.{
  get_part-set_part, length-set_part, seen, seen-set_part, seen-nil,
}
use labyrinth_vault.Airgap.Envelope.Delivery.{offer_of_part}

-- Whatever the collector held, it is for the part's payload once the part is admitted.
pub admit_digest : (c : Collector) (p : Part) → (admit c p).digest ≡ some p.digest
unfolding admit begin is_other
admit_digest c p = elim (Option-cases c.digest) [
  | inl e ↦ ground arith
  | inr (d, e) ↦ ground (arith, eq_of_text_eq p.digest d)
]

finish_payload :
    (c : Collector) (p : Part) (bytes : List ℕ)
    → c.digest ≡ some p.digest
    → (finish c p).1.payload ≡ some bytes
    → (digest_of bytes ≡ p.digest)
      × ((finish c p).1.kind ≡ p.kind)
      × (assemble c.total 1 c.parts ≡ some bytes)
unfolding finish
finish_payload c p bytes h e = elim (Option-cases (assemble c.total 1 c.parts)) [
  | inl q ↦ ground arith
  | inr (b, q) ↦ ground (arith, eq_of_text_eq (digest_of b) p.digest)
]

accept_payload :
    (c : Collector) (p : Part) (bytes : List ℕ)
    → c.digest ≡ some p.digest
    → (accept c p).1.payload ≡ some bytes
    → (digest_of bytes ≡ p.digest) × ((accept c p).1.kind ≡ p.kind)
unfolding accept
accept_payload c p bytes h e = elim (Option-cases (base32_decode p.body)) [
  | inl q ↦ ground arith
  | inr (b, q) ↦
      ground
        (arith, finish_payload (record c { parts = set_part p.index p.body c.parts }) p bytes h)
]

pub offer_unread :
    (c : Collector) (text : Text)
    → parse_part text ≡ none
    → offer c text ≡ (c, status c (some not_labyrinth))
unfolding offer
offer_unread c text q = rw (q, offer)

none_given : {b : List ℕ} → ◌≡◌ {A = Option (List ℕ)} none (some b) → ⊥
none_given e = cc

-- A collector, whatever it holds, hands bytes over only when the frame just read is a part whose
-- digest is the digest of those bytes; the kind that it reports is that part's.
pub offer-payload :
    (c : Collector) (text : Text) (bytes : List ℕ)
    → (offer c text).1.payload ≡ some bytes
    → (p : Part) × (parse_part text ≡ some p)
      × (digest_of bytes ≡ p.digest)
      × ((offer c text).1.kind ≡ p.kind)
offer-payload c text bytes e = elim (Option-cases (parse_part text)) [
  | inl q ↦ absurd (none_given (ap (λ r. r.1.payload) (sym (offer_unread c text q)) ∙ e))
  | inr (p, q) ↦
      let same = offer_of_part c text p q in
      let (digests, kinds) = accept_payload (admit c p) p bytes (admit_digest c p) (rw same at e) in
      (p, q, digests, rw same kinds)
]

-- Every body that is kept decodes, and the parts are numbered from 1 to a total in range.
pub record IsValid (c : Collector) : Type 0 where
  pub idle : c.digest ≡ none → c.parts ≡ []
  pub bodies : (j : ℕ) (b : Text) → get_part j c.parts ≡ some b → base32_decode b ≢ none
  pub counted : length c.parts ≡ seen c.total c.parts
  pub bounded : c.total ≤ max_parts

pub fresh-IsValid : IsValid fresh
unfolding get_part seen
fresh-IsValid = record {
  idle = λ e. refl;
  bodies = λ j b e. cc;
  counted = refl;
  bounded = omega arith;
}

begin_idle :
    (p : Part) (c : Collector)
    → c.digest ≡ none
    → begin p c ≡ record c { kind = some p.kind; digest = some p.digest; total = p.total }
unfolding begin
begin_idle p c e = rw (e, begin)

begin_busy : (p : Part) (c : Collector) (d : Text) → c.digest ≡ some d → begin p c ≡ c
unfolding begin
begin_busy p c d e = ground arith

none_seen : (n : ℕ) (m : List (ℕ × Text)) → m ≡ [] → length m ≡ seen n m
none_seen n m e = rw e (sym (seen-nil n))

begin-IsValid : (p : Part) (c : Collector) → IsPart p → IsValid c → IsValid (begin p c)
begin-IsValid p c q v = elim (Option-cases c.digest) [
  | inl e ↦ rw (begin_idle p c e) (record {
    idle = λ k. cc;
    bodies = v.bodies;
    counted = none_seen p.total c.parts (v.idle e);
    bounded = q.bounded;
  })
  | inr (d, e) ↦ rw (begin_busy p c d e) v
]

pub admit-IsValid : (p : Part) (c : Collector) → IsPart p → IsValid c → IsValid (admit c p)
unfolding admit
admit-IsValid p c q v = elim (Bool-cases (is_other c p)) [
  | inl e ↦ rw e (begin-IsValid p fresh q fresh-IsValid)
  | inr e ↦ rw e (begin-IsValid p c q v)
]

pub set_part-IsValid :
    (c : Collector) (i : ℕ) (b : Text)
    → IsValid c
    → c.digest ≢ none
    → i < c.total
    → base32_decode b ≢ none
    → IsValid (record c { parts = set_part (i + 1) b c.parts })
set_part-IsValid c i b v busy h ok = record {
  idle = λ e. absurd (busy e);
  bodies = λ j b' e. kept j b' (sym (get_part-set_part j (i + 1) b c.parts) ∙ e);
  counted =
      ground
        (arith, length-set_part (i + 1) b c.parts, seen-set_part c.total i b c.parts h, v.counted);
  bounded = v.bounded;
}
  where
    kept :
        (j : ℕ) (b' : Text)
        → (if j == i + 1 then some b else get_part j c.parts) ≡ some b'
        → base32_decode b' ≢ none
    kept j b' e = elim (Bool-cases (j == i + 1)) [
      | inl q ↦ λ x. ok (ap base32_decode (same q e) ∙ x)
      | inr q ↦ v.bodies j b' (other q e)
    ]
      where
        same :
            (j == i + 1) ≡ true
            → (if j == i + 1 then some b else get_part j c.parts) ≡ some b'
            → b ≡ b'
        same q e = cc

        other :
            (j == i + 1) ≡ false
            → (if j == i + 1 then some b else get_part j c.parts) ≡ some b'
            → get_part j c.parts ≡ some b'
        other q e = rw q at e

empty_decodes : base32_decode [] ≢ none
unfolding base32_decode
empty_decodes e = cc

body_decodes :
    (m : List (ℕ × Text)) (i : ℕ)
    → ((j : ℕ) (b : Text) → get_part j m ≡ some b → base32_decode b ≢ none)
    → base32_decode (or_else (get_part i m) []) ≢ none
body_decodes m i h = elim (Option-cases (get_part i m)) [
  | inl e ↦ rw e empty_decodes
  | inr (b, e) ↦ rw e (h i b e)
]

pub assemble_decodes :
    (n i : ℕ) (m : List (ℕ × Text))
    → ((j : ℕ) (b : Text) → get_part j m ≡ some b → base32_decode b ≢ none)
    → assemble n i m ≢ none
unfolding assemble
assemble_decodes zero i m h = λ e. cc
assemble_decodes (suc n) i m h = elim (Option-cases (assemble n (i + 1) m)) [
  | inl e ↦ absurd (assemble_decodes n (i + 1) m h e)
  | inr (more, e) ↦ elim (Option-cases (base32_decode (or_else (get_part i m) []))) [
    | inl q ↦ absurd (body_decodes m i h q)
    | inr (chunk, q) ↦ rw (q, e) (λ x. cc)
  ]
]
