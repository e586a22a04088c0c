-- ===== src/Airgap/Ur/ReadBack.antt =====
-- src/airgap/ur.ts: the text of a frame, and its parser.
use labyrinth_vault.Prelude.{
  ℕ, ◌+◌, ◌*◌, ◌^◌, ◌<◌, ◌≤◌, ◌≡◌, ◌≢◌, refl, sym, ◌∙◌, ap, arith, ◌++◌, append_assoc, ◌&&◌, ◌||◌,
  true, false, Bool, List, [], ◌∷◌, some, ltb, leb, ◌==◌, length, All, All-append, All-of_all,
  All-weaken, IsByte, Text, codes, split_on, is_digit, is_lower, all, Bool-cases, List-cases,
  ==_refl, inl, inr,
}
use labyrinth_vault.Prelude.Numerals.{to_string}
use labyrinth_vault.Prelude.Numerals.ReadBack.{number_of-to_string, to_string-ne-nil, All-to_string}
use labyrinth_vault.Airgap.Cbor.{cbor_encode}
use labyrinth_vault.Airgap.Bytewords.{minimal, bytewords_encode}
use labyrinth_vault.Airgap.Bytewords.RoundTrip.{
  bytewords_encode-minimal, bytewords_decode-bytewords_encode,
}
use labyrinth_vault.Airgap.Bytewords.Lower.{IsPlain, clean_plain}
use labyrinth_vault.Airgap.Ur.{
  whole, frame, parse_ur, parse_components, parse_frame, parse_whole, parse_seq, is_number,
  read_header, check_header, after_prefix, is_ur_type, is_type_char, max_fragments,
  max_message_bytes, whole_text, frame_text, frame_value,
}
use labyrinth_vault.Airgap.Ur.Parsing.{IsFrame}
use labyrinth_vault.Airgap.Ur.Frames.{IsWritten, frame_value-IsWritten}

abbrev IsNot : ℕ → ℕ → Type 0
IsNot sep c = (c == sep) ≡ false

split_on-ne-nil : (sep : ℕ) (s : Text) → split_on sep s ≢ []
unfolding split_on
split_on-ne-nil sep [] = λ e. cc
split_on-ne-nil sep (c ∷ s) = elim (List-cases (split_on sep s)) [
  | inl e ↦ absurd (split_on-ne-nil sep s e)
  | inr (w, ws, e) ↦ elim (Bool-cases (c == sep)) [
    | inl q ↦ rw (e, q) (λ x. cc)
    | inr q ↦ rw (e, q) (λ x. cc)
  ]
]

split_on_step :
    (sep : ℕ) (w rest : Text)
    → All (IsNot sep) w
    → split_on sep (w ++ sep ∷ rest) ≡ w ∷ split_on sep rest
unfolding split_on
split_on_step sep [] rest h = elim (List-cases (split_on sep rest)) [
  | inl e ↦ absurd (split_on-ne-nil sep rest e)
  | inr (w, ws, e) ↦ rw (e, ==_refl sep) refl
]
split_on_step sep (c ∷ w) rest h = rw (split_on_step sep w rest h.1, h.0) refl

split_on_last : (sep : ℕ) (w : Text) → All (IsNot sep) w → split_on sep w ≡ w ∷ []
unfolding split_on
split_on_last sep [] h = refl
split_on_last sep (c ∷ w) h = rw (split_on_last sep w h.1, h.0) refl

-- A character of a type, of a number, and of a body.
type_char-IsPlain : (c : ℕ) → is_type_char c ≡ true → IsPlain c × IsNot b'/' c
type_char-IsPlain c h = ground arith

digit-IsPlain : (c : ℕ) → is_digit c ≡ true → IsPlain c × IsNot b'/' c × IsNot b'-' c
digit-IsPlain c h = ground arith

lower-IsPlain : (c : ℕ) → is_lower c ≡ true → IsPlain c × IsNot b'/' c
lower-IsPlain c h = ground arith

digits-of_number : (n : ℕ) → All (λ c. is_digit c ≡ true) (to_string 10 n)
digits-of_number n = All-to_string 10 (omega arith) (λ c. is_digit c ≡ true) (λ d h. ground arith) n

slash : IsPlain b'/'
slash = ground arith

-- A component without a slash, in plain characters.
abbrev IsComponent : Text → Type 0
IsComponent w = All IsPlain w × All (IsNot b'/') w

component :
    (P : ℕ → Type 0) (w : Text)
    → ((c : ℕ) → P c → IsPlain c × IsNot b'/' c)
    → All P w
    → IsComponent w
component P w f h = (All-weaken (λ c p. (f c p).0) w h, All-weaken (λ c p. (f c p).1) w h)

type-IsComponent : (type : Text) → is_ur_type type ≡ true → IsComponent type
unfolding is_ur_type
type-IsComponent type h =
    component (λ c. is_type_char c ≡ true) type type_char-IsPlain
      (All-of_all is_type_char type (ground arith))

body-IsComponent : (body : List ℕ) → All IsByte body → IsComponent (bytewords_encode body minimal)
body-IsComponent body h =
    component (λ c. is_lower c ≡ true) _ lower-IsPlain
      (All-of_all is_lower _ (bytewords_encode-minimal body h).0)

-- The two numbers of a frame, with the dash between them.
seq_text : ℕ → ℕ → Text
seq_text n l = to_string 10 n ++ b'-' ∷ to_string 10 l

seq-IsComponent : (n l : ℕ) → IsComponent (seq_text n l)
unfolding seq_text
seq-IsComponent n l =
    component (λ c. (is_digit c || c == b'-') ≡ true) _ (λ c h. ground arith)
      (All-append _ (to_string 10 n) _
        (All-weaken (λ c h. ground arith) (to_string 10 n) (digits-of_number n))
        (refl, All-weaken (λ c h. ground arith) (to_string 10 l) (digits-of_number l)))

all-of_All : (p : ℕ → Bool) (w : Text) → All (λ c. p c ≡ true) w → all p w ≡ true
all-of_All p [] h = refl
all-of_All p (c ∷ w) h = rw (h.0) (all-of_All p w h.1)

is_number-to_string : (n : ℕ) → is_number (to_string 10 n) ≡ true
unfolding is_number
is_number-to_string n =
    rw (long (to_string 10 n) (to_string-ne-nil 10 n))
      (all-of_All is_digit (to_string 10 n) (digits-of_number n))
  where
    long : (w : Text) → w ≢ [] → ltb 0 (length w) ≡ true
    long [] h = absurd (h refl)
    long (c ∷ w) h = ground arith

digits-IsNot : (n : ℕ) → All (IsNot b'-') (to_string 10 n)
digits-IsNot n = All-weaken (λ c h. (digit-IsPlain c h).2) (to_string 10 n) (digits-of_number n)

parse_seq-seq_text : (n l : ℕ) → parse_seq (split_on b'-' (seq_text n l)) ≡ some (n, l)
unfolding seq_text parse_seq
parse_seq-seq_text n l =
    rw
      (
        split_on_step b'-' (to_string 10 n) (to_string 10 l) (digits-IsNot n),
        split_on_last b'-' (to_string 10 l) (digits-IsNot l),
        is_number-to_string n,
        is_number-to_string l,
        number_of-to_string n,
        number_of-to_string l,
      )
      refl

ur-IsPlain : All IsPlain (codes "ur:")
ur-IsPlain = ground arith

-- A text of components, cleaned and split.
parse_two :
    (a b : Text)
    → IsComponent a
    → IsComponent b
    → parse_ur (codes "ur:" ++ (a ++ b'/' ∷ b)) ≡ parse_components (a ∷ b ∷ [])
unfolding parse_ur after_prefix
parse_two a b p q =
    rw
      (
        clean_plain (codes "ur:" ++ (a ++ b'/' ∷ b)) (
            All-append IsPlain (codes "ur:") _ ur-IsPlain
              (All-append IsPlain a _ p.0 (slash, q.0))),
        split_on_step b'/' a b p.1,
        split_on_last b'/' b q.1,
      )
      refl

parse_three :
    (a b c : Text)
    → IsComponent a
    → IsComponent b
    → IsComponent c
    → parse_ur (codes "ur:" ++ (a ++ b'/' ∷ (b ++ b'/' ∷ c))) ≡ parse_components (a ∷ b ∷ c ∷ [])
unfolding parse_ur after_prefix
parse_three a b c p q r =
    rw
      (
        clean_plain (codes "ur:" ++ (a ++ b'/' ∷ (b ++ b'/' ∷ c))) (
            All-append IsPlain (codes "ur:") _ ur-IsPlain
              (All-append IsPlain a _ p.0 (slash, All-append IsPlain b _ q.0 (slash, r.0)))),
        split_on_step b'/' a (b ++ b'/' ∷ c) p.1,
        split_on_step b'/' b c q.1,
        split_on_last b'/' c r.1,
      )
      refl

short_body :
    (body : List ℕ)
    → All IsByte body
    → length body + 4 ≤ max_message_bytes
    → leb (length (bytewords_encode body minimal)) (max_message_bytes * 2) ≡ true
short_body body h l = ground (arith, (bytewords_encode-minimal body h).1)

-- A message in one frame is read back, if its body is not above the bound on a text.
pub parse_ur-whole_text :
    (type : Text) (message : List ℕ)
    → is_ur_type type ≡ true
    → All IsByte message
    → length message + 4 ≤ max_message_bytes
    → parse_ur (whole_text type message) ≡ some (whole type message)
unfolding whole_text parse_components parse_whole
parse_ur-whole_text type message t h l =
    parse_two type _ (type-IsComponent type t) (body-IsComponent message h)
    ∙ rw (t, short_body message h l, bytewords_decode-bytewords_encode message h) refl

check_header_lem :
    (type : Text) (num n l k : ℕ) (f : List ℕ)
    → IsFrame type num n l k f
    → check_header type num n num n l k f ≡ some (frame type num n l k f)
unfolding check_header
check_header_lem type num n l k f h =
    ground (arith, h.some_bytes, h.some_message, h.short_message, h.enough)

read_header_lem :
    (type : Text) (num n l k : ℕ) (f : List ℕ)
    → IsFrame type num n l k f
    → read_header type num n (frame_value num n l k f) ≡ some (frame type num n l k f)
unfolding read_header frame_value
read_header_lem type num n l k f h = check_header_lem type num n l k f h

in_bounds :
    (type : Text) (num n l k : ℕ) (f : List ℕ)
    → IsFrame type num n l k f
    → (leb 1 num && leb 1 n && leb n max_fragments) ≡ true
in_bounds type num n l k f h = ground (arith, h.numbered, h.some_fragments, h.few_fragments)

-- The text of a frame whose body has been written.
pub parse_ur-IsWritten :
    (type : Text) (num n l k : ℕ) (f : List ℕ) (w : IsWritten num n l k f)
    → IsFrame type num n l k f
    → length f + 34 ≤ max_message_bytes
    → parse_ur (frame_text type num n w.body) ≡ some (frame type num n l k f)
unfolding frame_text parse_components parse_frame seq_text
parse_ur-IsWritten type num n l k f w h s =
    ap (λ t. parse_ur (codes "ur:" ++ (type ++ b'/' ∷ t)))
      (sym (
        append_assoc (to_string 10 num) (b'-' ∷ to_string 10 n)
          (b'/' ∷ bytewords_encode w.body minimal)))
    ∙ parse_three type (seq_text num n) _ (type-IsComponent type h.typed) (seq-IsComponent num n)
        (body-IsComponent w.body w.in_bytes)
    ∙ rw
        (
          h.typed,
          parse_seq-seq_text num n,
          in_bounds type num n l k f h,
          short_body w.body w.in_bytes (omega (arith, w.short, s)),
          bytewords_decode-bytewords_encode w.body w.in_bytes,
          w.read_back,
        )
        (read_header_lem type num n l k f h)

-- A frame of an animation, of bytes, whose header is in the parser's bounds, whose number and checksum
-- have 32 bits, and whose fragment is 34 bytes short of the message bound: its body is written, and
-- the text with that body is read back as that frame.
pub parse_ur-frame_text :
    (type : Text) (num n l k : ℕ) (f : List ℕ)
    → IsFrame type num n l k f
    → num < 2 ^ 32
    → k < 2 ^ 32
    → All IsByte f
    → length f + 34 ≤ max_message_bytes
    → (body : List ℕ) × (cbor_encode (frame_value num n l k f) ≡ some body)
      × (parse_ur (frame_text type num n body) ≡ some (frame type num n l k f))
parse_ur-frame_text type num n l k f h a c b s =
    let few = h.few_fragments in
    let short = h.short_message in
    let w =
      frame_value-IsWritten num n l k f (a, omega (arith, few), omega (arith, short), c)
        (omega (arith, s)) b in
    (w.body, w.written, parse_ur-IsWritten type num n l k f w h s)
