-- ===== src/Airgap/Scanner/Routing.antt =====
-- src/airgap/scanner.ts: which texts each collector gets.
use labyrinth_vault.Prelude.{
  ℕ, ◌≡◌, refl, ◌∙◌, arith, Bool, true, false, List, [], ◌∷◌, Option, none, some, if◌then◌else◌,
  ◌>>=◌, Text, trim, Option-cases, ◌⊎◌, inl, inr,
}
use labyrinth_vault.Airgap.Envelope.{Part, parse_part, Collector, strip, field, is_plus}
use labyrinth_vault.Airgap.Envelope
use labyrinth_vault.Airgap.Envelope.Parsing.{parse_part_prefix, strip_other}
use labyrinth_vault.Airgap.Bytewords.Lower.{IsUrPrefix}
use labyrinth_vault.Airgap.Ur.{UrPart, parse_ur}
use labyrinth_vault.Airgap.Ur.Parsing.{parse_ur-IsUrPrefix}
use labyrinth_vault.Airgap.Ur.Collector.{UrCollector, UrProgress}
use labyrinth_vault.Airgap.Ur
use labyrinth_vault.Airgap.Scanner.{
  WireFormat, labyrinth, ur, is_labyrinth, is_ur, format_of, Scanner, ScanProgress, offer, unknown,
  own_progress, ur_progress,
}

part_is_labyrinth :
    (text : Text) (p : Part) → parse_part text ≡ some p → is_labyrinth (trim text) ≡ true
unfolding is_labyrinth
part_is_labyrinth text p e = let (x, q) = parse_part_prefix text p e in rw q refl

is_ur-IsUrPrefix : (s : Text) → IsUrPrefix s → is_ur s ≡ true
unfolding is_ur
is_ur-IsUrPrefix s h = rw (h.form, h.is_u, h.is_r) refl

-- A text that starts with `u` does not start with `L`.
not_labyrinth : (s : Text) → IsUrPrefix s → is_labyrinth s ≡ false
unfolding is_labyrinth
not_labyrinth s h =
    rw
      (
        h.form,
        strip_other b'L' h.first (b'V' ∷ []) (h.second ∷ b':' ∷ h.rest) (ground (arith, h.is_u)),
      )
      refl

-- A text that the own collector would read is not sent elsewhere.
pub format_of-parse_part :
    (text : Text) (p : Part) → parse_part text ≡ some p → format_of text ≡ some labyrinth
unfolding format_of
format_of-parse_part text p e = rw (part_is_labyrinth text p e) refl

-- A text that the UR collector would read is not sent elsewhere.
pub format_of-parse_ur :
    (text : Text) (p : UrPart) → parse_ur text ≡ some p → format_of text ≡ some ur
unfolding format_of
format_of-parse_ur text p e =
    let h = parse_ur-IsUrPrefix text p e in
    rw (not_labyrinth (trim text) h, is_ur-IsUrPrefix (trim text) h) refl

format_cases : (f : Option WireFormat) → (f ≡ none) ⊎ (f ≡ some labyrinth) ⊎ (f ≡ some ur)
format_cases none = inl refl
format_cases (some labyrinth) = inr (inl refl)
format_cases (some ur) = inr (inr refl)

-- Each collector alone, on the texts of its format among others.
abbrev pub is_own : Option WireFormat → Bool
is_own (some labyrinth) = true
is_own (some ur) = false
is_own none = false

abbrev pub is_other_wire : Option WireFormat → Bool
is_other_wire (some labyrinth) = false
is_other_wire (some ur) = true
is_other_wire none = false

unfoldable pub own_after : Collector → List Text → Collector
own_after c [] = c
own_after c (t ∷ ts) = own_after (if is_own (format_of t) then (Envelope.offer c t).0 else c) ts

module _ (choose : ℕ → ℕ → ℕ → List ℕ) where
  unfoldable pub ur_after : UrCollector → List Text → Option UrCollector
  ur_after c [] = some c
  ur_after c (t ∷ ts) = do
    d ←
        if is_other_wire (format_of t)
        then (Ur.Collector.offer choose c t >>= λ out. some out.0)
        else some c
    ur_after d ts

  unfoldable pub scan : Scanner → List Text → Option Scanner
  scan s [] = some s
  scan s (t ∷ ts) = do out ← offer choose s t; scan out.0 ts

  scan_nil : (s : Scanner) → scan s [] ≡ some (record { own = s.own; ur = s.ur })
  unfolding scan
  scan_nil s = refl

  -- One text, by its format.
  abbrev Becomes : Scanner → Text → Scanner → Type 0
  Becomes s t s' = (g : ScanProgress) × (offer choose s t ≡ some (s', g))

  offer_unknown : (s : Scanner) (t : Text) → format_of t ≡ none → Becomes s t s
  unfolding offer
  offer_unknown s t e = (unknown, rw (e, offer) refl)

  offer_own :
      (s : Scanner) (t : Text)
      → format_of t ≡ some labyrinth
      → Becomes s t (record s { own = (Envelope.offer s.own t).0 })
  unfolding offer
  offer_own s t e = (own_progress (Envelope.offer s.own t).1, rw (e, offer) refl)

  offer_ur :
      (s : Scanner) (t : Text) (out : UrCollector × UrProgress)
      → format_of t ≡ some ur
      → Ur.Collector.offer choose s.ur t ≡ some out
      → Becomes s t (record s { ur = out.0 })
  unfolding offer
  offer_ur s t out e q = (ur_progress out.1, rw (e, offer, q) refl)

  offer_ur_none :
      (s : Scanner) (t : Text)
      → format_of t ≡ some ur
      → Ur.Collector.offer choose s.ur t ≡ none
      → offer choose s t ≡ none
  unfolding offer
  offer_ur_none s t e q = rw (e, offer, q) refl

  scan_step :
      (s s' : Scanner) (t : Text) (ts : List Text) → Becomes s t s' → scan s (t ∷ ts) ≡ scan s' ts
  unfolding scan
  scan_step s s' t ts (g, e) = rw e refl

  scan_fails :
      (s : Scanner) (t : Text) (ts : List Text) → offer choose s t ≡ none → scan s (t ∷ ts) ≡ none
  unfolding scan
  scan_fails s t ts e = rw e refl

  -- Whatever texts come, in whatever order, the scanner is the two collectors side by side, each on
  -- the texts of its own format alone.
  pub scan-own_after-ur_after :
      (s : Scanner) (ts : List Text)
      → scan s ts ≡ (ur_after s.ur ts >>= λ c. some (record { own = own_after s.own ts; ur = c }))
  unfolding own_after ur_after
  scan-own_after-ur_after s [] = scan_nil s
  scan-own_after-ur_after s (t ∷ ts) = elim (format_cases (format_of t)) [
    | inl e ↦ scan_step s s t ts (offer_unknown s t e) ∙ rw e (scan-own_after-ur_after s ts)
    | inr (inl e) ↦
        let s' = record s { own = (Envelope.offer s.own t).0 } in
        scan_step s s' t ts (offer_own s t e) ∙ rw e (scan-own_after-ur_after s' ts)
    | inr (inr e) ↦ elim (Option-cases (Ur.Collector.offer choose s.ur t)) [
      | inl q ↦ scan_fails s t ts (offer_ur_none s t e q) ∙ rw (e, q) refl
      | inr (out, q) ↦
          let s' = record s { ur = out.0 } in
          scan_step s s' t ts (offer_ur s t out e q) ∙ rw (e, q) (scan-own_after-ur_after s' ts)
    ]
  ]
