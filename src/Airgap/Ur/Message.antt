-- ===== src/Airgap/Ur/Message.antt =====
-- src/airgap/ur.ts, the encoder: what it holds of a message, and the mixtures of its frames.
use labyrinth_vault.Prelude.{
  ℕ, zero, suc, ◌-◌, ◌≤◌, ◌<◌, ◌≡◌, refl, sym, ◌∙◌, ap, arith, true, false, List, [], ◌∷◌, some,
  ◌==◌, ==_iff, length, take, take-append, drop, All, All-append, All-take, All-drop, IsByte, Text,
  Bool-cases, inl, inr,
}
use labyrinth_vault.Prelude.Xor.{bit_xor-lt}
use labyrinth_vault.Airgap.Crc.{crc32}
use labyrinth_vault.Airgap.Fountain.{zeros, xor_into}
use labyrinth_vault.Airgap.Fountain.Laws.{
  xor_into_comm, xor_into_assoc, xor_into_swap, xor_into-zeros, length-xor_into,
}
use labyrinth_vault.Airgap.Ur.{
  UrEncoder, new_encoder, is_ur_type, partition, fragments_from, or_blank, padded,
  nominal_fragment_length, mix_from, blank,
}
use labyrinth_vault.Airgap.Ur.Fragments.{
  IsLong, concat, fragment_at, get_elem?-fragment_at, length-fragment_at, partition-pos,
  partition-nominal_fragment_length,
}
use labyrinth_vault.Airgap.Ur.Parsing.{guarded}
use labyrinth_vault.Airgap.Ur.Pieces.{includes}
use labyrinth_vault.Airgap.Ur.Pieces.Range.{IsBelow}
use labyrinth_vault.Airgap.Ur.Pieces.Mix.{mix, IsSized, length-mix, mix_in, mix_out}

-- No index twice.
abbrev pub IsDistinct : List ℕ → Type 0
IsDistinct [] = Unit
IsDistinct (i ∷ is) = (includes is i ≡ false) × IsDistinct is

-- What the choice of fragments promises for a frame's number.
pub record IsChooser (choose : ℕ → ℕ → ℕ → List ℕ) : Type 0 where
  pub below :
      (seq_num n checksum : ℕ) → 1 ≤ seq_num → 1 ≤ n → All (IsBelow n) (choose seq_num n checksum)
  pub distinct :
      (seq_num n checksum : ℕ) → 1 ≤ seq_num → 1 ≤ n → IsDistinct (choose seq_num n checksum)
  pub plain :
      (seq_num n checksum : ℕ)
      → 1 ≤ seq_num
      → seq_num ≤ n
      → choose seq_num n checksum ≡ (seq_num - 1) ∷ []

-- The encoder of a message: fragments of `size` bytes, of which the message is the front.
pub record IsEncoder (size : ℕ) (message : List ℕ) (e : UrEncoder) : Type 0 where
  pub typed : is_ur_type e.type ≡ true
  pub long : All (IsLong size) e.fragments
  pub in_bytes : All (All IsByte) e.fragments
  pub counted : e.seq_length ≡ length e.fragments
  pub some_fragments : 1 ≤ e.seq_length
  pub measured : e.message_length ≡ length message
  pub summed : e.checksum ≡ crc32 message
  pub joined : take e.message_length (concat e.fragments) ≡ message

zeros-IsByte : (n : ℕ) → All IsByte (zeros n)
unfolding zeros
zeros-IsByte zero = tt
zeros-IsByte (suc n) = (omega arith, zeros-IsByte n)

padded-IsByte : (n : ℕ) (b : List ℕ) → All IsByte b → All IsByte (padded n b)
unfolding padded
padded-IsByte n b h = All-append IsByte b _ h (zeros-IsByte (n - length b))

fragments_from-IsByte :
    (fuel : ℕ) (message : List ℕ) (n : ℕ)
    → All IsByte message
    → All (All IsByte) (fragments_from fuel message n)
unfolding fragments_from
fragments_from-IsByte zero message n h = tt
fragments_from-IsByte (suc fuel) [] n h = tt
fragments_from-IsByte (suc fuel) (b ∷ message) n h = (
  padded-IsByte n _ (All-take IsByte n (b ∷ message) h),
  fragments_from-IsByte fuel (drop n (b ∷ message)) n (All-drop IsByte n (b ∷ message) h),
)

partition-IsByte :
    (message : List ℕ) (n : ℕ) → All IsByte message → All (All IsByte) (partition message n)
unfolding partition
partition-IsByte message n h =
    go (fragments_from (length message) message n)
      (fragments_from-IsByte (length message) message n h)
  where
    go : (fs : List (List ℕ)) → All (All IsByte) fs → All (All IsByte) (or_blank fs n)
    go [] h = (zeros-IsByte n, tt)
    go (f ∷ fs) h = h

-- What the constructor makes.
pub new_encoder-IsEncoder :
    (type : Text) (message : List ℕ) (limit : ℕ) (e : UrEncoder)
    → All IsByte message
    → 10 ≤ limit
    → new_encoder type message limit ≡ some e
    → (size : ℕ) × (size ≤ limit) × IsEncoder size message e
unfolding new_encoder
new_encoder-IsEncoder type message limit e h k q =
    let size = nominal_fragment_length (length message) limit in
    let (long, high, zero_count, few, join) = partition-nominal_fragment_length message limit k in
    let made : UrEncoder = record {
      type = type;
      seq_length = length (partition message size);
      fragments = partition message size;
      message_length = length message;
      checksum = crc32 message;
      seq_num = 0;
    } in
    let (t, r) = guarded (is_ur_type type) (some made) q in
    let same : e ≡ made = ground arith in
    (
      size,
      high,
      rw same (record {
        typed = t;
        long = long;
        in_bytes = partition-IsByte message size h;
        counted = refl;
        some_fragments = partition-pos message size;
        measured = refl;
        summed = refl;
        joined = rw join (take-append message (zeros zero_count));
      }),
    )

module _ (size : ℕ) (message : List ℕ) (e : UrEncoder) (v : IsEncoder size message e) where
  -- The mixture at some indexes.
  abbrev pub mixture : List ℕ → List ℕ
  mixture indexes = mix (fragment_at e.fragments) size indexes e.seq_length

  pub fragments-IsSized : IsSized (fragment_at e.fragments) size e.seq_length
  fragments-IsSized i h = length-fragment_at e.fragments size i v.long (omega (arith, h, v.counted))

  pub length-mixture : (indexes : List ℕ) → length (mixture indexes) ≡ size
  length-mixture indexes =
      length-mix (fragment_at e.fragments) size indexes e.seq_length fragments-IsSized

-- One more fragment in a mixture.
module _ (f : ℕ → List ℕ) (size : ℕ) where
  mix_other : (i : ℕ) (is : List ℕ) (n : ℕ) → n ≤ i → mix f size (i ∷ is) n ≡ mix f size is n
  unfolding mix includes
  mix_other i is zero h = refl
  mix_other i is (suc n) h = ground (arith, mix_other i is n (omega arith))

  mix_cons :
      (i : ℕ) (is : List ℕ) (n : ℕ)
      → includes is i ≡ false
      → i < n
      → mix f size (i ∷ is) n ≡ xor_into (mix f size is n) (f i)
  unfolding includes
  mix_cons i is zero h k = absurd (omega arith)
  mix_cons i is (suc n) h k = elim (Bool-cases (i == n)) [
    | inl e ↦
        let same = (==_iff i n).0 e in
        mix_in f size (i ∷ is) n (rw e refl)
        ∙ ap (λ t. xor_into t (f n)) (mix_other i is n (omega (arith, same)))
        ∙ ap (xor_into (mix f size is n)) (ap f (sym same))
        ∙ ap (λ t. xor_into t (f i)) (sym (mix_out f size is n (rw (← same) h)))
    | inr e ↦ elim (Bool-cases (includes is n)) [
      | inl q ↦
          mix_in f size (i ∷ is) n (rw (e, q) refl)
          ∙ ap (λ t. xor_into t (f n)) (mix_cons i is n h (ground arith))
          ∙ xor_into_swap (mix f size is n) (f n) (f i)
          ∙ ap (λ t. xor_into t (f i)) (sym (mix_in f size is n q))
      | inr q ↦
          mix_out f size (i ∷ is) n (rw (e, q) refl)
          ∙ mix_cons i is n h (ground arith)
          ∙ ap (λ t. xor_into t (f i)) (sym (mix_out f size is n q))
    ]
  ]

  mix_none : (n : ℕ) → mix f size [] n ≡ zeros size
  unfolding mix includes
  mix_none zero = refl
  mix_none (suc n) = mix_none n

xor_into-sized : (x : List ℕ) (n : ℕ) → length x ≡ n → xor_into x (zeros n) ≡ x
xor_into-sized x n e = rw (← e) (xor_into-zeros x)

pub zeros-xor_into : (x : List ℕ) (n : ℕ) → length x ≡ n → xor_into (zeros n) x ≡ x
zeros-xor_into x n e = xor_into_comm (zeros n) x ∙ xor_into-sized x n e

xor_into-IsByte : (xs ys : List ℕ) → All IsByte xs → All IsByte ys → All IsByte (xor_into xs ys)
unfolding xor_into
xor_into-IsByte [] [] h k = tt
xor_into-IsByte [] (y ∷ ys) h k = (bit_xor-lt 8 0 y (omega arith) k.0, xor_into-IsByte [] ys tt k.1)
xor_into-IsByte (x ∷ xs) [] h k = (bit_xor-lt 8 x 0 h.0 (omega arith), xor_into-IsByte xs [] h.1 tt)
xor_into-IsByte (x ∷ xs) (y ∷ ys) h k = (bit_xor-lt 8 x y h.0 k.0, xor_into-IsByte xs ys h.1 k.1)

fragment_at-IsByte :
    (fs : List (List ℕ)) (i : ℕ) → All (All IsByte) fs → All IsByte (fragment_at fs i)
unfolding fragment_at
fragment_at-IsByte [] i h = tt
fragment_at-IsByte (f ∷ fs) zero h = h.0
fragment_at-IsByte (f ∷ fs) (suc i) h = fragment_at-IsByte fs i h.1

pub mix-IsByte :
    (fs : List (List ℕ)) (size : ℕ) (is : List ℕ) (n : ℕ)
    → All (All IsByte) fs
    → All IsByte (mix (fragment_at fs) size is n)
unfolding mix
mix-IsByte fs size is zero h = zeros-IsByte size
mix-IsByte fs size is (suc n) h = elim (Bool-cases (includes is n)) [
  | inl e ↦ rw e (xor_into-IsByte _ _ (mix-IsByte fs size is n h) (fragment_at-IsByte fs n h))
  | inr e ↦ rw e (mix-IsByte fs size is n h)
]

-- The encoder's loop, over distinct indexes in range.
pub mix_from_lem :
    (fs : List (List ℕ)) (size : ℕ) (is acc : List ℕ)
    → All (IsBelow (length fs)) is
    → IsDistinct is
    → length acc ≡ size
    → IsSized (fragment_at fs) size (length fs)
    → mix_from fs acc is ≡ some (xor_into acc (mix (fragment_at fs) size is (length fs)))
unfolding mix_from
mix_from_lem fs size [] acc b d l s = ap some (
    sym
      (ap (xor_into acc) (mix_none (fragment_at fs) size (length fs)) ∙ xor_into-sized acc size l))
mix_from_lem fs size (i ∷ is) acc b d l s =
    let f = fragment_at fs i in
    let m = mix (fragment_at fs) size is (length fs) in
    rw (get_elem?-fragment_at fs i b.0) (
      mix_from_lem fs size is (xor_into acc f) b.1 d.1
        (length-xor_into acc f (l ∙ sym (s i b.0)) ∙ l) s)
    ∙ ap some (
        xor_into_assoc acc f m
        ∙ ap (xor_into acc) (xor_into_comm f m)
        ∙ sym (ap (xor_into acc) (mix_cons (fragment_at fs) size i is (length fs) d.0 b.0)))

pub blank-zeros :
    (fs : List (List ℕ)) (size : ℕ) → All (IsLong size) fs → 0 < length fs → blank fs ≡ zeros size
unfolding blank
blank-zeros [] size h k = absurd (omega arith)
blank-zeros (f ∷ fs) size h k = ap zeros h.0
