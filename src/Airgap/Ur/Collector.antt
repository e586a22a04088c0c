-- ===== src/Airgap/Ur/Collector.antt =====
-- ur.ts, the collector: frames go through a queue, and a fragment that becomes known is taken out of
-- the mixtures that have it. `none` is an exception, or a loop that has not ended on its fuel.
pub mod Simple
pub mod Mixtures
pub mod Singles
pub mod Rounds
pub mod Waiting
pub mod Joined
pub mod Ending
use labyrinth_vault.Prelude.{
  ℕ, zero, suc, ◌+◌, ◌*◌, ◌++◌, ◌&&◌, not, Bool, true, false, List, [], ◌∷◌, Option, none, some,
  ltb, ◌==◌, if◌then◌else◌, ◌>>=◌, Text, text_eq, length, take,
}
use labyrinth_vault.Airgap.Crc.{crc32}
use labyrinth_vault.Airgap.Ur.{UrPart, whole, frame, parse_ur}
use labyrinth_vault.Airgap.Ur.Pieces.{Piece, reduce, is_known}

pub data UrProblem : Type 0 where
  not_ur not_whole : UrProblem

pub record UrProgress : Type 0 where
  pub type : Text
  pub have : ℕ
  pub total : ℕ
  pub cbor : Option (List ℕ)
  pub problem : Option UrProblem

pub record UrCollector : Type 0 where
  pub type : Option Text
  pub seq_length : ℕ
  pub message_length : ℕ
  pub checksum : ℕ
  pub fragment_length : ℕ
  pub simple : List (ℕ × List ℕ)
  pub mixed : List Piece
  pub queue : List Piece
  pub done : Option (List ℕ)

-- A new collector, and what `reset` leaves.
abbrev pub empty : UrCollector
empty = record {
  type = none;
  seq_length = 0;
  message_length = 0;
  checksum = 0;
  fragment_length = 0;
  simple = [];
  mixed = [];
  queue = [];
  done = none;
}

abbrev type_or_blank : Option Text → Text
type_or_blank none = []
type_or_blank (some t) = t

abbrev pub status : UrCollector → UrProgress
status c = record {
  type = type_or_blank c.type;
  have = length c.simple;
  total = c.seq_length;
  cbor = c.done;
  problem = none;
}

-- `simple.get(i)`; `set` is called for a new index only, which goes behind the others.
unfoldable pub get_simple : ℕ → List (ℕ × List ℕ) → Option (List ℕ)
get_simple i [] = none
get_simple i ((j, f) ∷ m) = if i == j then some f else get_simple i m

-- The loop that joins the fragments from number `i` on; one that is missing is an exception.
pub join_from : ℕ → ℕ → List (ℕ × List ℕ) → Option (List ℕ)
join_from zero i simple = some []
join_from (suc n) i simple = do
  f ← get_simple i simple
  more ← join_from n (i + 1) simple
  some (f ++ more)

-- `reduceMixedBy`, over the pieces that are still mixed: what remains, and the queue behind it.
pub reduce_all : Piece → List Piece → List Piece → List Piece × List Piece
reduce_all piece [] queue = ([], queue)
reduce_all piece (other ∷ mixed) queue =
    let reduced = reduce other piece in
    let alone = reduce_all piece mixed (queue ++ reduced ∷ []) in
    let (remaining, last) = reduce_all piece mixed queue in
    if length reduced.indexes == 1
    then alone
    else if ltb 1 (length reduced.indexes)
    then (reduced ∷ remaining, last)
    else (remaining, last)

pub reduce_mixed_by : Piece → UrCollector → UrCollector
reduce_mixed_by piece c =
    let (mixed, queue) = reduce_all piece c.mixed c.queue in
    record c { mixed = mixed; queue = queue }

-- Every fragment is in.
pub hand_over : List ℕ → UrCollector → UrCollector
hand_over trimmed c = if crc32 trimmed == c.checksum then record c { done = some trimmed } else c

pub complete : UrCollector → Option UrCollector
complete c = join_from c.seq_length 0 c.simple >>= λ message.
    some (hand_over (take c.message_length message) c)

pub take_simple : ℕ → List ℕ → UrCollector → Option UrCollector
take_simple i fragment c = elim (get_simple i c.simple) [
  | some _ ↦ some c
  | none ↦
      let c' = record c { simple = c.simple ++ (i, fragment) ∷ [] } in
      if length c'.simple == c'.seq_length
      then complete c'
      else some (reduce_mixed_by (record { indexes = i ∷ []; fragment = fragment }) c')
]

-- The two loops of `takeMixed`.
pub reduce_by_simple : Piece → List (ℕ × List ℕ) → Piece
reduce_by_simple p [] = p
reduce_by_simple p ((i, f) ∷ m) =
    reduce_by_simple (reduce p (record { indexes = i ∷ []; fragment = f })) m

pub reduce_by_mixed : Piece → List Piece → Piece
reduce_by_mixed p [] = p
reduce_by_mixed p (other ∷ m) = reduce_by_mixed (reduce p other) m

-- What becomes of a mixture once it is reduced.
pub place : Piece → UrCollector → UrCollector
place reduced c =
    if length reduced.indexes == 0
    then c
    else if length reduced.indexes == 1
    then record c { queue = c.queue ++ reduced ∷ [] }
    else (let c' = reduce_mixed_by reduced c in record c' { mixed = c'.mixed ++ reduced ∷ [] })

pub take_mixed : Piece → UrCollector → UrCollector
take_mixed piece c =
    if is_known c.mixed piece.indexes
    then c
    else place (reduce_by_mixed (reduce_by_simple piece c.simple) c.mixed) c

-- The rest of `step`, for the piece that it takes off the queue.
pub handle : Piece → UrCollector → Option UrCollector
handle piece c = elim piece.indexes [
  | [] ↦ some c
  | i ∷ [] ↦ take_simple i piece.fragment c
  | _ ∷ _ ∷ _ ↦ some (take_mixed piece c)
]

-- `while (!this.done && this.queue.length > 0) this.step()`
pub drain : ℕ → UrCollector → Option UrCollector
drain zero c = elim (c.done) [
  | some _ ↦ some c
  | none ↦ elim (c.queue) [ [] ↦ some c | _ ∷ _ ↦ none ]
]
drain (suc left) c = elim (c.done) [
  | some _ ↦ some c
  | none ↦ elim (c.queue) [
    | [] ↦ some c
    | piece ∷ queue ↦ handle piece (record c { queue = queue }) >>= drain left
  ]
]

-- `this.type !== null && (…)`
is_other : UrCollector → Text → ℕ → ℕ → ℕ → List ℕ → Bool
is_other c type seq_length message_length checksum fragment = elim (c.type) [
  | none ↦ false
  | some t ↦ not (
      text_eq type t
      && seq_length == c.seq_length
      && message_length == c.message_length
      && checksum == c.checksum
      && length fragment == c.fragment_length)
]

-- The collector that takes a frame: emptied for another message, and begun if it is empty.
begin : UrCollector → Text → ℕ → ℕ → ℕ → List ℕ → UrCollector
begin c type seq_length message_length checksum fragment = elim (c.type) [
  | none ↦ record c {
    type = some type;
    seq_length = seq_length;
    message_length = message_length;
    checksum = checksum;
    fragment_length = length fragment;
  }
  | some _ ↦ c
]

pub admit : UrCollector → Text → ℕ → ℕ → ℕ → List ℕ → UrCollector
admit c type seq_length message_length checksum fragment =
    begin (if is_other c type seq_length message_length checksum fragment then empty else c) type
      seq_length message_length checksum fragment

-- The rounds that the queue may take: a piece on it counts 1, or 3 if it is mixed, and a piece among
-- the mixed counts 2.
pub rounds_left : List Piece → List Piece → ℕ
rounds_left [] [] = 0
rounds_left [] (m ∷ mixed) = 2 + rounds_left [] mixed
rounds_left (p ∷ queue) mixed = (if length p.indexes == 1 then 1 else 3) + rounds_left queue mixed

-- The queue is empty. If every fragment is in and there is no message, start again.
pub conclude : Text → UrCollector → UrCollector × UrProgress
conclude type c = elim (c.done) [
  | some _ ↦ (c, status c)
  | none ↦
      if length c.simple == c.seq_length
      then (
        empty,
        record { type = type; have = 0; total = 0; cbor = none; problem = some not_whole },
      )
      else (c, status c)
]

pub push : List ℕ → List ℕ → UrCollector → UrCollector
push indexes fragment c = record c {
  queue = c.queue ++ (record { indexes = indexes; fragment = fragment }) ∷ [];
}

module _ (choose : ℕ → ℕ → ℕ → List ℕ) where
  -- A frame whose collector is ready for it.
  pub take_frame : Text → ℕ → ℕ → ℕ → List ℕ → UrCollector → Option (UrCollector × UrProgress)
  take_frame type seq_num seq_length checksum fragment c = elim (c.done) [
    | some _ ↦ some (c, status c)
    | none ↦
        let c' = push (choose seq_num seq_length checksum) fragment c in
        (drain (rounds_left c'.queue c'.mixed) c' >>= λ last. some (conclude type last))
  ]

  unfoldable pub offer_part : UrCollector → UrPart → Option (UrCollector × UrProgress)
  unfolding take_frame push conclude drain handle take_simple take_mixed place complete hand_over
      reduce_mixed_by reduce_all reduce_by_simple reduce_by_mixed rounds_left join_from admit begin
      is_other
  offer_part c (whole type cbor) = some (
    record empty { type = some type; seq_length = 1; done = some cbor },
    record { type = type; have = 1; total = 1; cbor = some cbor; problem = none },
  )
  offer_part c (frame type seq_num seq_length message_length checksum fragment) =
      take_frame type seq_num seq_length checksum fragment
        (admit c type seq_length message_length checksum fragment)

  unfoldable pub offer : UrCollector → Text → Option (UrCollector × UrProgress)
  unfolding offer_part
  offer c text = elim (parse_ur text) [
    | none ↦ some (c, record (status c) { problem = some not_ur })
    | some part ↦ offer_part c part
  ]
