-- ===== src/Airgap/Ur/Parsing.antt =====
-- What a frame that was read is known to satisfy.
use labyrinth_vault.Prelude.{
  ℕ, ◌*◌, ◌≤◌, ◌<◌, ◌≡◌, refl, arith, Bool, true, false, List, [], ◌∷◌, Option, some, leb, ◌>>=◌,
  ◌>>◌, guard, Text, split_on, trim, length, >>=-eq-some,
}
use labyrinth_vault.Airgap.Bytewords.{to_lower, bytewords_decode, minimal}
use labyrinth_vault.Airgap.Bytewords.Lower.{IsUrPrefix, to_lower-IsUrPrefix}
use labyrinth_vault.Airgap.Cbor.{CborValue, number, bytes, array, end, item, cbor_decode}
use labyrinth_vault.Airgap.Ur.{
  UrPart, whole, frame, parse_ur, parse_components, parse_frame, parse_whole, parse_seq,
  read_header, check_header, after_prefix, is_ur_type, max_fragments, max_message_bytes,
}

-- The bounds of a frame's header.
pub record IsFrame (type : Text) (seq_num seq_length message_length checksum : ℕ)
    (fragment : List ℕ) : Type 0 where
  pub typed : is_ur_type type ≡ true
  pub numbered : 1 ≤ seq_num
  pub some_fragments : 1 ≤ seq_length
  pub few_fragments : seq_length ≤ max_fragments
  pub some_message : 0 < message_length
  pub short_message : message_length ≤ max_message_bytes
  pub some_bytes : 0 < length fragment
  pub enough : message_length ≤ length fragment * seq_length

abbrev pub IsPart : UrPart → Type 0
IsPart (whole type cbor) = is_ur_type type ≡ true
IsPart (frame type num len message_length checksum fragment) =
    IsFrame type num len message_length checksum fragment

check_header-IsPart :
    (type : Text) (num len num' len' message_length checksum : ℕ) (f : List ℕ) (p : UrPart)
    → is_ur_type type ≡ true
    → (1 ≤ num) × (1 ≤ len) × (len ≤ max_fragments)
    → check_header type num len num' len' message_length checksum f ≡ some p
    → IsPart p
unfolding check_header
check_header-IsPart type num len num' len' message_length checksum f p t h e =
    let q : (p ≡ frame type num len message_length checksum f)
        × (0 < length f)
        × (0 < message_length)
        × (message_length ≤ max_message_bytes)
        × (message_length ≤ length f * len) =
      ground arith in
    rw (q.0) (record {
      typed = t;
      numbered = h.0;
      some_fragments = h.1;
      few_fragments = h.2;
      some_message = q.2;
      short_message = q.3;
      some_bytes = q.1;
      enough = q.4;
    })

read_header-IsPart :
    (type : Text) (num len : ℕ) (v : CborValue) (p : UrPart)
    → is_ur_type type ≡ true
    → (1 ≤ num) × (1 ≤ len) × (len ≤ max_fragments)
    → read_header type num len v ≡ some p
    → IsPart p
unfolding read_header
read_header-IsPart type num len
      (array (
        item (number a) (item (number b) (item (number c) (item (number d) (item (bytes f) end))))))
      p t h e =
    check_header-IsPart type num len a b c d f p t h e
read_header-IsPart type num len v p t h e = cc

pub guarded :
    {A : Type 0} (b : Bool) (m : Option A) {p : A}
    → (guard b >> m) ≡ some p
    → (b ≡ true) × (m ≡ some p)
guarded true m e = (refl, e)
guarded false m e = cc

parse_frame-IsPart :
    (type seq message : Text) (p : UrPart) → parse_frame type seq message ≡ some p → IsPart p
unfolding parse_frame
parse_frame-IsPart type seq message p e =
    let (t, e1) = guarded (is_ur_type type) _ e in
    let ((num, len), s, e2) = >>=-eq-some (parse_seq (split_on b'-' seq)) _ e1 in
    let (k, e3) = guarded _ _ e2 in
    let (l, e4) = guarded _ _ e3 in
    let (body, d, e5) = >>=-eq-some (bytewords_decode message minimal) _ e4 in
    let (v, c, e6) = >>=-eq-some (cbor_decode body) _ e5 in
    read_header-IsPart type num len v p t (ground arith) e6

parse_whole-IsPart :
    (type message : Text) (p : UrPart) → parse_whole type message ≡ some p → IsPart p
unfolding parse_whole
parse_whole-IsPart type message p e =
    let (t, e1) = guarded (is_ur_type type) _ e in
    let (l, e2) =
      guarded (leb (length message) (max_message_bytes * 2))
        (bytewords_decode message minimal >>= λ cbor. some (whole type cbor)) e1 in
    let (cbor, d, e3) =
      >>=-eq-some (bytewords_decode message minimal) (λ cbor. some (whole type cbor)) e2 in
    let q : p ≡ whole type cbor = ground arith in rw q t

parse_components-IsPart :
    (parts : List Text) (p : UrPart) → parse_components parts ≡ some p → IsPart p
unfolding parse_components
parse_components-IsPart [] p e = cc
parse_components-IsPart (t ∷ []) p e = cc
parse_components-IsPart (t ∷ m ∷ []) p e = parse_whole-IsPart t m p e
parse_components-IsPart (t ∷ s ∷ m ∷ []) p e = parse_frame-IsPart t s m p e
parse_components-IsPart (t ∷ s ∷ m ∷ x ∷ xs) p e = cc

-- Whatever is read has a type in the registry's letters, and a frame is read only if its numbers are
-- in their bounds and its fragments are long enough for the message.
pub parse_ur-IsPart : (text : Text) (p : UrPart) → parse_ur text ≡ some p → IsPart p
unfolding parse_ur
parse_ur-IsPart text p e =
    let (rest, a, e1) = >>=-eq-some (after_prefix (to_lower (trim text))) _ e in
    parse_components-IsPart (split_on b'/' rest) p e1

after_prefix_form : (t rest : Text) → after_prefix t ≡ some rest → t ≡ b'u' ∷ b'r' ∷ b':' ∷ rest
unfolding after_prefix
after_prefix_form [] rest e = cc
after_prefix_form (a ∷ []) rest e = cc
after_prefix_form (a ∷ b ∷ []) rest e = cc
after_prefix_form (a ∷ b ∷ c ∷ s) rest e = ground arith

-- What is read as a UR begins with its prefix, in small letters or capitals.
pub parse_ur-IsUrPrefix :
    (text : Text) (p : UrPart) → parse_ur text ≡ some p → IsUrPrefix (trim text)
unfolding parse_ur
parse_ur-IsUrPrefix text p e =
    let (rest, a, e1) = >>=-eq-some (after_prefix (to_lower (trim text))) _ e in
    to_lower-IsUrPrefix (trim text) rest (after_prefix_form (to_lower (trim text)) rest a)
