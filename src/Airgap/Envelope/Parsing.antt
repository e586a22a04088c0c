-- ===== src/Airgap/Envelope/Parsing.antt =====
-- src/airgap/envelope.ts, parsePart, on the headers of encodeParts and on any text.
use labyrinth_vault.Prelude.{
  ℕ, ◌≤◌, ◌++◌, ◌≡◌, ◌≢◌, refl, arith, Bool, true, false, [], ◌∷◌, ◌==◌, none, some, ==_refl, ◌>>=◌,
  >>=-eq-some, Text, codes, trim, is_digit, is_upper, length, All, All-append, All-weaken,
  All-of_all, IsInk, trim_of_ink, IsInk-of_range,
}
use labyrinth_vault.Prelude.Numerals.{to_string}
use labyrinth_vault.Prelude.Numerals.ReadBack.{number_of-to_string, All-to_string, to_string-ne-nil}
use labyrinth_vault.Airgap.Base32.Alphabet.{is_b32}
use labyrinth_vault.Airgap.Crc.Change.{is_hex}
use labyrinth_vault.Airgap.Envelope.{
  PayloadKind, account, psbt, xmrunsigned, xmrsigned, xmroutputs, xmrkeyimages, xmrfile, txsigned,
  kind_name, kind_of, Part, frame_text, strip, span, field, is_plus, is_eight, Match, match_frame,
  check_match, parse_part, wire_version, max_parts,
}

kind_of-kind_name : (k : PayloadKind) → kind_of (kind_name k) ≡ some k
unfolding kind_of
kind_of-kind_name account = refl
kind_of-kind_name psbt = refl
kind_of-kind_name xmrunsigned = refl
kind_of-kind_name xmrsigned = refl
kind_of-kind_name xmroutputs = refl
kind_of-kind_name xmrkeyimages = refl
kind_of-kind_name xmrfile = refl
kind_of-kind_name txsigned = refl

kind_name_class : (k : PayloadKind) → All (λ c. is_upper c ≡ true) (kind_name k)
kind_name_class account = All-of_all is_upper (kind_name account) refl
kind_name_class k = All-of_all is_upper (kind_name k) refl

strip-append : (p s : Text) → strip p (p ++ s) ≡ some s
unfolding strip
strip-append [] s = refl
strip-append (c ∷ p) s = rw (==_refl c) (strip-append p s)

module _ (p : ℕ → Bool) where
  span-All : (xs : Text) → All (λ c. p c ≡ true) xs → span p xs ≡ (xs, [])
  unfolding span
  span-All [] h = refl
  span-All (x ∷ xs) h = rw (span-All xs h.1, h.0)

  span-append :
      (xs : Text) (c : ℕ) (s : Text)
      → All (λ c. p c ≡ true) xs
      → p c ≡ false
      → span p (xs ++ c ∷ s) ≡ (xs, c ∷ s)
  unfolding span
  span-append [] c s h k = rw k
  span-append (x ∷ xs) c s h k = rw (span-append xs c s h.1 k, h.0)

  field-append :
      (ok : ℕ → Bool) (xs s : Text)
      → All (λ c. p c ≡ true) xs
      → p b':' ≡ false
      → ok (length xs) ≡ true
      → field p ok (xs ++ b':' ∷ s) ≡ some (xs, s)
  unfolding field strip
  field-append ok xs s h k l = rw (span-append xs b':' s h k, l)

digit_class : (n : ℕ) → All (λ c. is_digit c ≡ true) (to_string 10 n)
digit_class n = All-to_string 10 (omega arith) (λ c. is_digit c ≡ true) (λ d h. ground arith) n

is_plus-length : (s : Text) → s ≢ [] → is_plus (length s) ≡ true
unfolding is_plus
is_plus-length [] h = absurd (h refl)
is_plus-length (c ∷ s) h = ground arith

is_plus-to_string : (n : ℕ) → is_plus (length (to_string 10 n)) ≡ true
is_plus-to_string n = is_plus-length (to_string 10 n) (to_string-ne-nil 10 n)

is_plus-kind_name : (k : PayloadKind) → is_plus (length (kind_name k)) ≡ true
unfolding is_plus
is_plus-kind_name account = refl
is_plus-kind_name k = refl

-- What `encodeParts` puts into a frame's fields.
pub record IsFrame (index total : ℕ) (digest body : Text) : Type 0 where
  pub positive : 1 ≤ index
  pub ordered : index ≤ total
  pub bounded : total ≤ max_parts
  pub digest_size : length digest ≡ 8
  pub digest_class : All (λ c. is_hex c ≡ true) digest
  pub body_class : All (λ c. is_b32 c ≡ true) body

IsInk-of_digit : (c : ℕ) → is_digit c ≡ true → IsInk c
IsInk-of_digit c h = IsInk-of_range c (ground arith) (ground arith)

IsInk-of_upper : (c : ℕ) → is_upper c ≡ true → IsInk c
IsInk-of_upper c h = IsInk-of_range c (ground arith) (ground arith)

IsInk-of_hex : (c : ℕ) → is_hex c ≡ true → IsInk c
IsInk-of_hex c h = IsInk-of_range c (ground arith) (ground arith)

IsInk-of_b32 : (c : ℕ) → is_b32 c ≡ true → IsInk c
IsInk-of_b32 c h = IsInk-of_range c (ground arith) (ground arith)

colon-IsInk : IsInk b':'
colon-IsInk = IsInk-of_range b':' (omega arith) (omega arith)

joined : (xs ys : Text) → All IsInk xs → All IsInk ys → All IsInk (xs ++ b':' ∷ ys)
joined xs ys h k = All-append IsInk xs (b':' ∷ ys) h (colon-IsInk, k)

number-IsInk : (n : ℕ) → All IsInk (to_string 10 n)
number-IsInk n = All-weaken IsInk-of_digit (to_string 10 n) (digit_class n)

frame-IsInk :
    (k : PayloadKind) (i t : ℕ) (d b : Text) → IsFrame i t d b → All IsInk (frame_text k i t d b)
unfolding frame_text
frame-IsInk k i t d b f =
    All-append IsInk (codes "LV") _ (IsInk-of_upper b'L' refl, (IsInk-of_upper b'V' refl, tt))
      (joined (to_string 10 1) _ (number-IsInk 1) (
        joined (kind_name k) _ (All-weaken IsInk-of_upper (kind_name k) (kind_name_class k)) (
          joined (to_string 10 i) _ (number-IsInk i) (
            joined (to_string 10 t) _ (number-IsInk t) (
              joined d b (All-weaken IsInk-of_hex d f.digest_class)
                (All-weaken IsInk-of_b32 b f.body_class))))))

-- The parser reads back every field of a frame.
pub parse_part-frame_text :
    (k : PayloadKind) (i t : ℕ) (d b : Text)
    → IsFrame i t d b
    → parse_part (frame_text k i t d b)
      ≡ some
          (record { version = wire_version; kind = k; index = i; total = t; digest = d; body = b })
unfolding parse_part frame_text
parse_part-frame_text k i t d b f =
    rw
      (
        trim_of_ink _ (frame-IsInk k i t d b f),
        field-append is_digit is_plus (to_string 10 1) _ (digit_class 1) refl (is_plus-to_string 1),
        field-append is_upper is_plus (kind_name k) _ (kind_name_class k) refl
            (is_plus-kind_name k),
        field-append is_digit is_plus (to_string 10 i) _ (digit_class i) refl (is_plus-to_string i),
        field-append is_digit is_plus (to_string 10 t) _ (digit_class t) refl (is_plus-to_string t),
        field-append is_hex is_eight d b f.digest_class refl (unfold is_eight in ground arith),
        span-All is_b32 b f.body_class,
        number_of-to_string 1,
        number_of-to_string i,
        number_of-to_string t,
        kind_of-kind_name k,
      )
      (ground arith)

-- What a reader may rely on in a part.
pub record IsPart (p : Part) : Type 0 where
  pub version : p.version ≡ wire_version
  pub positive : 1 ≤ p.index
  pub ordered : p.index ≤ p.total
  pub bounded : p.total ≤ max_parts

check_match-IsPart : (m : Match) (p : Part) → check_match m ≡ some p → IsPart p
unfolding check_match
check_match-IsPart m p e = ground arith

-- Every part that the parser lets through has version 1, and its numbers are in range.
pub parse_part-IsPart : (text : Text) (p : Part) → parse_part text ≡ some p → IsPart p
unfolding parse_part
parse_part-IsPart text p e =
    let (m, matched, checked) = >>=-eq-some (match_frame (trim text)) check_match e in
    check_match-IsPart m p checked

-- What is read as a part begins with the wire's letters, a version and a colon.
pub parse_part_prefix :
    (text : Text) (p : Part)
    → parse_part text ≡ some p
    → (x : Text × Text) × ((strip (codes "LV") (trim text) >>= field is_digit is_plus) ≡ some x)
unfolding parse_part match_frame
parse_part_prefix text p e =
    let (m, f, g) = >>=-eq-some (match_frame (trim text)) check_match e in
    let (head, h, f1) = >>=-eq-some (strip (codes "LV") (trim text)) _ f in
    let (x, i, f2) = >>=-eq-some (field is_digit is_plus head) _ f1 in (x, rw h i)

pub strip_other : (p c : ℕ) (ps s : Text) → (p == c) ≡ false → strip (p ∷ ps) (c ∷ s) ≡ none
unfolding strip
strip_other p c ps s e = rw e refl
