-- ===== src/Wallet/Units/Parsing/RoundTrip.antt =====
-- wallet/src/core/units.ts, formatAmount and parseAmount: the round trip.
use labyrinth_vault.Prelude.{
  ℕ, suc, ◌+◌, ◌*◌, ◌/◌, ◌%◌, ◌≤◌, ◌<◌, ◌≡◌, ◌≢◌, refl, sym, ap, ◌∙◌, arith, ◌++◌, true, false, [],
  ◌∷◌, Text, trim, trim_of_ink, IsInk, IsInk-of_range, is_digit, ltb, ◌==◌, ==_iff, length, all,
  All, All-append, All-weaken, append-nil, inl, inr, Bool-cases, List-cases,
}
use labyrinth_vault.Prelude.Numerals.{to_string, number_of, pad_start, pad_end, digit_char}
use labyrinth_vault.Prelude.Numerals.ReadBack.{
  number_of-to_string, All-to_string, All-pad_start, to_string-ne-nil, number_of-pad_start,
  length-pad_start_decimal, pad_end-cons, pad_end-nil,
}
use labyrinth_vault.Wallet.Model.{Asset, btc, xmr}
use labyrinth_vault.Wallet.Units.{atoms_per_unit, decimals, strip_zeros, format_amount}
use labyrinth_vault.Wallet.Units.Parsing.{ok, clean, before_dot, after_dot, is_blank, parse_amount}

abbrev IsDigit : ℕ → Type 0
IsDigit c = is_digit c ≡ true

digit_char-IsDigit : (d : ℕ) → d < 10 → IsDigit (digit_char d)
digit_char-IsDigit d h = ground arith

decimal-IsDigit : (n : ℕ) → All IsDigit (to_string 10 n)
decimal-IsDigit n = All-to_string 10 (omega arith) IsDigit digit_char-IsDigit n

strip_zeros-All : (s : Text) → All IsDigit s → All IsDigit (strip_zeros s)
unfolding strip_zeros
strip_zeros-All [] h = tt
strip_zeros-All (c ∷ s) h =
    let r = strip_zeros-All s h.1 in
    elim (List-cases (strip_zeros s)) [
      | inl e ↦ rw e (ground (arith, h.0))
      | inr (d, t, e) ↦ rw e (h.0, rw e at r)
    ]

-- The zeros that are stripped are the ones that padding puts back.
pad_end-strip_zeros : (s : Text) → pad_end (length s) b'0' (strip_zeros s) ≡ s
unfolding strip_zeros
pad_end-strip_zeros [] = unfold pad_end in refl
pad_end-strip_zeros (c ∷ s) =
    let r = pad_end-strip_zeros s in
    elim (List-cases (strip_zeros s)) [
      | inl e ↦
          let r' : pad_end (length s) b'0' [] ≡ s = rw e at r in
          elim (Bool-cases (c == b'0')) [
            | inl z ↦
                let same : c ≡ b'0' = (==_iff c b'0').0 z in
                rw (e, z) (pad_end-nil (length s) b'0' ∙ rw (r', same) refl)
            | inr z ↦ rw (e, z) (pad_end-cons (length s) b'0' c [] ∙ rw r' refl)
          ]
      | inr (d, t, e) ↦
          let r' : pad_end (length s) b'0' (d ∷ t) ≡ s = rw e at r in
          rw e (pad_end-cons (length s) b'0' c (d ∷ t) ∙ rw r' refl)
    ]

length-strip_zeros : (s : Text) → length (strip_zeros s) ≤ length s
unfolding strip_zeros
length-strip_zeros [] = omega arith
length-strip_zeros (c ∷ s) =
    let r = length-strip_zeros s in
    elim (List-cases (strip_zeros s)) [
      | inl e ↦ rw e (ground arith)
      | inr (d, t, e) ↦ rw e (let r' : suc (length t) ≤ length s = rw e at r in omega arith)
    ]

-- A digit or a dot is kept by the cleaning.
abbrev IsKept : ℕ → Type 0
IsKept c = (IsInk c) × ((c == b',') ≡ false)

digit-IsKept : (c : ℕ) → IsDigit c → IsKept c
digit-IsKept c h = (IsInk-of_range c (ground arith) (ground arith), ground arith)

clean_of_kept : (s : Text) → All IsKept s → clean s ≡ s
unfolding clean
clean_of_kept [] h = refl
clean_of_kept (c ∷ s) h = rw (h.0.0, h.0.1, clean_of_kept s h.1) refl

-- The text of an amount: digits, and a dot with digits where there is a fraction.
abbrev joined : Text → Text → Text
joined whole fraction = whole ++ b'.' ∷ fraction

before_dot-joined : (w f : Text) → All IsDigit w → before_dot (joined w f) ≡ w
unfolding before_dot
before_dot-joined [] f h = refl
before_dot-joined (c ∷ w) f h =
    let n : (c == b'.') ≡ false = ground (arith, h.0) in
    rw n (ap (λ (t : Text). c ∷ t) (before_dot-joined w f h.1))

after_dot-joined : (w f : Text) → All IsDigit w → after_dot (joined w f) ≡ f
unfolding after_dot
after_dot-joined [] f h = refl
after_dot-joined (c ∷ w) f h =
    let n : (c == b'.') ≡ false = ground (arith, h.0) in rw n (after_dot-joined w f h.1)

before_dot-digits : (w : Text) → All IsDigit w → before_dot w ≡ w
unfolding before_dot
before_dot-digits [] h = refl
before_dot-digits (c ∷ w) h =
    let n : (c == b'.') ≡ false = ground (arith, h.0) in
    rw n (ap (λ (t : Text). c ∷ t) (before_dot-digits w h.1))

after_dot-digits : (w : Text) → All IsDigit w → after_dot w ≡ []
unfolding after_dot
after_dot-digits [] h = refl
after_dot-digits (c ∷ w) h =
    let n : (c == b'.') ≡ false = ground (arith, h.0) in rw n (after_dot-digits w h.1)

all-of_All : (s : Text) → All IsDigit s → all is_digit s ≡ true
all-of_All [] h = refl
all-of_All (c ∷ s) h = rw (h.0, all-of_All s h.1) refl

digit-not_blank : (c : ℕ) (s : Text) → IsDigit c → is_blank (c ∷ s) ≡ false
unfolding is_blank
digit-not_blank c [] h = ground (arith, h)
digit-not_blank c (d ∷ s) h = refl

-- What a text must be for its amount to be read.
record Reads (whole fraction t : Text) : Type 0 where
  kept : All IsKept t
  not_blank : is_blank t ≡ false
  before : before_dot t ≡ whole
  after : after_dot t ≡ fraction

IsKept-of_digits : (s : Text) → All IsDigit s → All IsKept s
IsKept-of_digits s = All-weaken digit-IsKept s

digits-not_blank : (w s : Text) → All IsDigit w → w ≢ [] → is_blank (w ++ s) ≡ false
digits-not_blank [] s h n = absurd (n refl)
digits-not_blank (c ∷ w) s h n = digit-not_blank c (w ++ s) h.0

dot-IsKept : IsKept b'.'
dot-IsKept = (IsInk-of_range b'.' (omega arith) (omega arith), refl)

whole-Reads : (w : Text) → All IsDigit w → w ≢ [] → Reads w [] w
whole-Reads w h n = record {
  kept = IsKept-of_digits w h;
  not_blank = rw (← append-nil w) (digits-not_blank w [] h n);
  before = before_dot-digits w h;
  after = after_dot-digits w h;
}

joined-Reads : (w f : Text) → All IsDigit w → All IsDigit f → w ≢ [] → Reads w f (joined w f)
joined-Reads w f h k n = record {
  kept = All-append IsKept w (b'.' ∷ f) (IsKept-of_digits w h) (dot-IsKept, IsKept-of_digits f k);
  not_blank = digits-not_blank w (b'.' ∷ f) h n;
  before = before_dot-joined w f h;
  after = after_dot-joined w f h;
}

ink : (t : Text) → All IsKept t → All IsInk t
ink t h = All-weaken (λ c k. k.0) t h

parse_amount-Reads :
    (w f t : Text) (asset : Asset) (n : ℕ)
    → Reads w f t
    → All IsDigit w
    → All IsDigit f
    → length f ≤ decimals asset
    → number_of w * atoms_per_unit asset + number_of (pad_end (decimals asset) b'0' f) ≡ n
    → n ≢ 0
    → parse_amount t asset ≡ ok n
unfolding parse_amount
parse_amount-Reads w f t asset n r hw hf short e nz =
    let kept : All IsInk t = ink t r.kept in
    let same : clean (trim t) ≡ t = rw (trim_of_ink t kept) (clean_of_kept t r.kept) in
    let fits : ltb (decimals asset) (length f) ≡ false = ground (arith, short) in
    let some_amount : (n == 0) ≡ false = ground (arith, nz) in
    rw
      (same, r.not_blank, r.before, r.after, all-of_All w hw, all-of_All f hf, fits, e, some_amount)

module _ (asset : Asset) (atoms : ℕ) where
  abbrev places_text : Text
  places_text = pad_start (decimals asset) b'0' (to_string 10 (atoms % atoms_per_unit asset))

  length-places_text : length places_text ≡ decimals asset
  length-places_text = by_asset asset
    where
      by_asset :
          (asset : Asset)
          → length (pad_start (decimals asset) b'0' (to_string 10 (atoms % atoms_per_unit asset)))
            ≡ decimals asset
      by_asset btc = length-pad_start_decimal (atoms % 100000000) 7 (omega arith)
      by_asset xmr = length-pad_start_decimal (atoms % 1000000000000) 11 (omega arith)

  places_text-digits : All IsDigit places_text
  places_text-digits =
      All-pad_start IsDigit (decimals asset) b'0' (to_string 10 (atoms % atoms_per_unit asset)) refl
        (decimal-IsDigit (atoms % atoms_per_unit asset))

  parts_sum :
      number_of (to_string 10 (atoms / atoms_per_unit asset)) * atoms_per_unit asset
        + number_of (pad_end (decimals asset) b'0' (strip_zeros places_text))
      ≡ atoms
  parts_sum =
      let fraction : number_of (pad_end (decimals asset) b'0' (strip_zeros places_text))
          ≡ atoms % atoms_per_unit asset =
        ap (λ (k : ℕ). number_of (pad_end k b'0' (strip_zeros places_text)))
          (sym length-places_text)
        ∙ ap number_of (pad_end-strip_zeros places_text)
        ∙ number_of-pad_start (decimals asset) (to_string 10 (atoms % atoms_per_unit asset))
        ∙ number_of-to_string (atoms % atoms_per_unit asset) in
      let whole = number_of-to_string (atoms / atoms_per_unit asset) in
      rw (fraction, whole) (by_asset asset)
    where
      by_asset :
          (asset : Asset)
          → atoms / atoms_per_unit asset * atoms_per_unit asset + atoms % atoms_per_unit asset
            ≡ atoms
      by_asset btc = omega arith
      by_asset xmr = omega arith

  -- The text that `formatAmount` writes for an amount above zero, `parseAmount` reads as the amount.
  pub parse_amount-format_amount :
      atoms ≢ 0 → parse_amount (format_amount atoms asset) asset ≡ ok atoms
  unfolding format_amount
  parse_amount-format_amount nz =
      let w = to_string 10 (atoms / atoms_per_unit asset) in
      let hw = decimal-IsDigit (atoms / atoms_per_unit asset) in
      let n = to_string-ne-nil 10 (atoms / atoms_per_unit asset) in
      let hf = strip_zeros-All places_text places_text-digits in
      let short : length (strip_zeros places_text) ≤ decimals asset =
        omega (arith, length-strip_zeros places_text, length-places_text) in
      elim (List-cases (strip_zeros places_text)) [
        | inl e ↦
            let sum : number_of (to_string 10 (atoms / atoms_per_unit asset)) * atoms_per_unit asset
                  + number_of (pad_end (decimals asset) b'0' [])
                ≡ atoms =
              rw e at parts_sum in
            rw e (
              parse_amount-Reads w [] w asset atoms (whole-Reads w hw n) hw tt (omega arith) sum nz)
        | inr (d, t, e) ↦
            let sum : number_of (to_string 10 (atoms / atoms_per_unit asset)) * atoms_per_unit asset
                  + number_of (pad_end (decimals asset) b'0' (d ∷ t))
                ≡ atoms =
              rw e at parts_sum in
            let hf' : All IsDigit (d ∷ t) = rw e at hf in
            let short' : length (d ∷ t) ≤ decimals asset = rw e at short in
            let more : (suc (length t) == 0) ≡ false = ground arith in
            rw (e, more)
              (parse_amount-Reads w (d ∷ t) (joined w (d ∷ t)) asset atoms
                (joined-Reads w (d ∷ t) hw hf' n) hw hf' short' sum nz)
      ]
