-- ===== src/Airgap/Envelope.antt =====
-- src/airgap/envelope.ts: payload kinds, frames, their parser, and the collector of frames.
-- A `Map` from part numbers to bodies is an association list, in the order of first insertion.
pub mod Parsing
pub mod Slices
pub mod Parts
pub mod Safety
pub mod Delivery
pub mod Transmission
pub mod Reachable
use labyrinth_vault.Prelude.{
  ℕ, zero, suc, ◌+◌, ◌-◌, ◌*◌, ◌/◌, ◌++◌, ◌&&◌, Bool, true, false, List, [], ◌∷◌, Option, none,
  some, not, ltb, leb, ◌==◌, if◌then◌else◌, ◌>>=◌, ◌>>◌, guard, Text, codes, text_eq, trim,
  is_digit, is_upper, length, take, drop, max,
}
use labyrinth_vault.Prelude.Numerals.{to_string, number_of}
use labyrinth_vault.Airgap.Base32.{base32_encode, base32_decode}
use labyrinth_vault.Airgap.Base32.Alphabet.{is_b32}
use labyrinth_vault.Airgap.Crc.{digest_of}
use labyrinth_vault.Airgap.Crc.Change.{is_hex}

pub data PayloadKind : Type 0 where
  account psbt xmrunsigned xmrsigned xmroutputs xmrkeyimages xmrfile txsigned : PayloadKind

abbrev pub wire_version : ℕ
wire_version = 1

abbrev pub default_part_bytes : ℕ
default_part_bytes = 400

abbrev pub max_parts : ℕ
max_parts = 2048

abbrev pub kind_name : PayloadKind → Text
kind_name account = codes "ACCOUNT"
kind_name psbt = codes "PSBT"
kind_name xmrunsigned = codes "XMRUNSIGNED"
kind_name xmrsigned = codes "XMRSIGNED"
kind_name xmroutputs = codes "XMROUTPUTS"
kind_name xmrkeyimages = codes "XMRKEYIMAGES"
kind_name xmrfile = codes "XMRFILE"
kind_name txsigned = codes "TXSIGNED"

-- KINDS
abbrev pub kinds : List PayloadKind
kinds =
    account ∷ psbt ∷ xmrunsigned ∷ xmrsigned ∷ xmroutputs ∷ xmrkeyimages ∷ xmrfile ∷ txsigned ∷ []

find_kind : Text → List PayloadKind → Option PayloadKind
find_kind name [] = none
find_kind name (k ∷ ks) = if text_eq (kind_name k) name then some k else find_kind name ks

-- `KINDS.includes(kind)`, with the kind that has the name.
pub kind_of : Text → Option PayloadKind
unfolding find_kind
kind_of name = find_kind name kinds

abbrev pub kind_eq : PayloadKind → PayloadKind → Bool
kind_eq a b = text_eq (kind_name a) (kind_name b)

pub record Part : Type 0 where
  pub version : ℕ
  pub kind : PayloadKind
  pub index : ℕ
  pub total : ℕ
  pub digest : Text
  pub body : Text

-- A frame's text, with the header's fields between colons.
pub frame_text : PayloadKind → ℕ → ℕ → Text → Text → Text
frame_text kind index total digest body =
    codes "LV"
    ++ (to_string 10 wire_version
        ++ b':'
          ∷ (kind_name kind
              ++ b':'
                ∷ (to_string 10 index
                    ++ b':' ∷ (to_string 10 total ++ b':' ∷ (digest ++ b':' ∷ body)))))

-- The `i`-th slice of `size` bytes.
pub slice_at : ℕ → List ℕ → ℕ → List ℕ
slice_at size payload i = take size (drop (i * size) payload)

-- `Math.max(1, Math.ceil(length / size))`
pub part_count : ℕ → ℕ → ℕ
part_count size len = max 1 ((len + size - 1) / size)

-- The loop of `encodeParts`: `n` frames from number `i` on.
frames_from : PayloadKind → List ℕ → ℕ → ℕ → ℕ → ℕ → List Text
frames_from kind payload size total zero i = []
frames_from kind payload size total (suc n) i =
    frame_text kind (i + 1) total (digest_of payload) (base32_encode (slice_at size payload i))
    ∷ frames_from kind payload size total n (i + 1)

-- `none` is the exception for a payload that needs too many parts. The part size is an integer.
unfoldable pub encode_parts : PayloadKind → List ℕ → ℕ → Option (List Text)
unfolding frames_from frame_text slice_at part_count
encode_parts kind payload part_bytes =
    let size = max 1 part_bytes in
    let total = part_count size (length payload) in
    if ltb max_parts total then none else some (frames_from kind payload size total total 0)

-- The pieces of the regular expression: a literal, a run of characters of a class, and a colon.
-- No class has the colon, so the longest run is the only one that can match.
pub strip : Text → Text → Option Text
strip [] s = some s
strip (p ∷ ps) [] = none
strip (p ∷ ps) (c ∷ s) = if p == c then strip ps s else none

span : (ℕ → Bool) → Text → Text × Text
span p [] = ([], [])
span p (c ∷ s) = let (run, rest) = span p s in if p c then (c ∷ run, rest) else ([], c ∷ s)

-- A run that `ok` accepts, and the colon behind it.
pub field : (ℕ → Bool) → (ℕ → Bool) → Text → Option (Text × Text)
field p ok s =
    let (run, rest) = span p s in
    (guard (ok (length run)) >> (strip (b':' ∷ []) rest >>= λ after. some (run, after)))

pub is_plus : ℕ → Bool
is_plus n = ltb 0 n

is_eight : ℕ → Bool
is_eight n = n == 8

-- The groups of the regular expression.
pub record Match : Type 0 where
  pub version : Text
  pub kind : Text
  pub index : Text
  pub total : Text
  pub digest : Text
  pub body : Text

-- `/^LV(\d+):([A-Z]+):(\d+):(\d+):([0-9a-f]{8}):([A-Z2-7]*)$/.exec(raw)`
pub match_frame : Text → Option Match
unfolding strip span field is_plus is_eight
match_frame raw = do
  head ← strip (codes "LV") raw
  (version, s1) ← field is_digit is_plus head
  (name, s2) ← field is_upper is_plus s1
  (index, s3) ← field is_digit is_plus s2
  (total, s4) ← field is_digit is_plus s3
  (digest, s5) ← field is_hex is_eight s4
  let (body, rest) = span is_b32 s5
  guard (length rest == 0)
  some (record {
    version = version;
    kind = name;
    index = index;
    total = total;
    digest = digest;
    body = body;
  })

-- The checks behind the match. A number too large for a double to hold exactly is above the bounds
-- here and as a double.
check_match : Match → Option Part
check_match m = do
  let index = number_of m.index
  let total = number_of m.total
  guard (number_of m.version == wire_version)
  kind ← kind_of m.kind
  guard (leb 1 index && leb 1 total && leb index total)
  guard (not (ltb max_parts total))
  some (record {
    version = number_of m.version;
    kind = kind;
    index = index;
    total = total;
    digest = m.digest;
    body = m.body;
  })

unfoldable pub parse_part : Text → Option Part
unfolding match_frame check_match kind_of
parse_part text = do m ← match_frame (trim text); check_match m

-- Why a frame was not accepted, one for each text of the source.
pub data Problem : Type 0 where
  not_labyrinth other_set unclean damaged not_whole : Problem

pub record Progress : Type 0 where
  pub kind : PayloadKind
  pub have : ℕ
  pub total : ℕ
  pub payload : Option (List ℕ)
  pub problem : Option Problem

pub record Collector : Type 0 where
  pub kind : Option PayloadKind
  pub digest : Option Text
  pub total : ℕ
  pub parts : List (ℕ × Text)

-- A new collector, and what `reset` leaves.
abbrev pub fresh : Collector
fresh = record { kind = none; digest = none; total = 0; parts = [] }

-- `parts.get(i)` and `parts.set(i, body)`
unfoldable pub get_part : ℕ → List (ℕ × Text) → Option Text
get_part i [] = none
get_part i ((j, b) ∷ m) = if i == j then some b else get_part i m

unfoldable pub set_part : ℕ → Text → List (ℕ × Text) → List (ℕ × Text)
set_part i b [] = (i, b) ∷ []
set_part i b ((j, c) ∷ m) = if i == j then (i, b) ∷ m else (j, c) ∷ set_part i b m

abbrev or_else {ℓ} : {A : Type ℓ} → Option A → A → A
or_else none d = d
or_else (some a) d = a

abbrev status : Collector → Option Problem → Progress
status c problem = record {
  kind = or_else c.kind psbt;
  have = length c.parts;
  total = c.total;
  payload = none;
  problem = problem;
}

-- The loop over the parts: the bodies from number `i` on, decoded and joined.
pub assemble : ℕ → ℕ → List (ℕ × Text) → Option (List ℕ)
assemble zero i parts = some []
assemble (suc n) i parts = do
  chunk ← base32_decode (or_else (get_part i parts) [])
  more ← assemble n (i + 1) parts
  some (chunk ++ more)

-- `this.digest !== null && (part.digest !== this.digest || part.kind !== this.kind)`
is_other : Collector → Part → Bool
is_other c part = elim (c.digest) [
  | none ↦ false
  | some d ↦
      not (text_eq part.digest d && (elim (c.kind) [ none ↦ false | some k ↦ kind_eq part.kind k ]))
]

-- The collector that takes the part: emptied for another payload, and begun if it is empty.
begin : Part → Collector → Collector
begin part c = elim (c.digest) [
  | none ↦ record c { kind = some part.kind; digest = some part.digest; total = part.total }
  | some d ↦ c
]

pub admit : Collector → Part → Collector
admit c part = begin part (if is_other c part then fresh else c)

-- Every part is in: join them, and compare the digest.
finish : Collector → Part → Collector × Progress
finish c part = elim (assemble c.total 1 c.parts) [
  | none ↦ (c, status c (some damaged))
  | some payload ↦
      if text_eq (digest_of payload) (or_else c.digest [])
      then (
        c,
        record {
          kind = part.kind;
          have = c.total;
          total = c.total;
          payload = some payload;
          problem = none;
        },
      )
      else (
        fresh,
        record { kind = part.kind; have = 0; total = 0; payload = none; problem = some not_whole },
      )
]

-- The part goes into a collector that is for its payload.
pub accept : Collector → Part → Collector × Progress
accept c part =
    if not (part.total == c.total)
    then (c, status c (some other_set))
    else elim (base32_decode part.body) [
      | none ↦ (c, status c (some unclean))
      | some _ ↦
          let c' = record c { parts = set_part part.index part.body c.parts } in
          if ltb (length c'.parts) c'.total then (c', status c' none) else finish c' part
    ]

unfoldable pub offer : Collector → Text → Collector × Progress
unfolding accept finish admit begin is_other assemble get_part set_part parse_part base32_decode
offer c text = elim (parse_part text) [
  | none ↦ (c, status c (some not_labyrinth))
  | some part ↦ accept (admit c part) part
]
