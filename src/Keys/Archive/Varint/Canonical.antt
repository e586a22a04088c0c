-- ===== src/Keys/Archive/Varint/Canonical.antt =====
-- src/keys/binaryarchive.ts, readVarintU64: the bytes that it accepts.
use labyrinth_vault.Prelude.{
  ℕ, zero, suc, ◌+◌, ◌-◌, ◌*◌, ◌/◌, ◌%◌, ◌^◌, ◌≤◌, ◌<◌, ◌≡◌, ◌≢◌, refl, sym, ap, ◌∙◌, arith, ◌++◌,
  List, [], ◌∷◌, ◌⊎◌, inl, inr, IsByte, leb, length, All, Bool-cases,
}
use labyrinth_vault.Keys.Archive.{
  Archive, ok, err, too_long, trailing_zero, fits_u64, varint_loop, read_varint_u64,
}
use labyrinth_vault.Keys.Archive.Varint.{top_bit, round_more, round_last, group_bound, split_group}
use labyrinth_vault.Keys.Varint.{varint_bytes}
use labyrinth_vault.Keys.Varint.Step.{varint_bytes_step}

round_too_long :
    (start g at value shift : ℕ) (rest : List ℕ)
    → g < 128
    → 63 ≤ shift
    → varint_loop start ((g + 128) ∷ rest) at value shift ≡ err too_long start
unfolding varint_loop
round_too_long start g at value shift rest hg hs = ground (arith, top_bit (g + 128))

round_zero :
    (start at value shift : ℕ) (rest : List ℕ)
    → shift ≢ 0
    → varint_loop start (0 ∷ rest) at value shift ≡ err trailing_zero at
unfolding varint_loop
round_zero start at value shift rest h = ground arith

-- What a loop that ends has read, from bit `shift` on.
record IsVarint (bytes : List ℕ) (at value shift n v : ℕ) (s : Archive) : Type 0 where
  value_of : v ≡ value + n * 2 ^ shift
  read_from : bytes ≡ varint_bytes n ++ s.rest
  positive : (shift ≡ 0) ⊎ (1 ≤ n)
  in_range : v < 2 ^ 64
  moved : s.at ≡ at + length (varint_bytes n)

fits-ok :
    (start value at v : ℕ) (rest : List ℕ) (s : Archive)
    → fits_u64 start value rest at ≡ ok v s
    → (v ≡ value) × (s.rest ≡ rest) × (s.at ≡ at) × (v < 2 ^ 64)
unfolding fits_u64
fits-ok start value at v rest s e = ground arith

last-IsVarint :
    (start b at value shift v : ℕ) (rest : List ℕ) (s : Archive)
    → b < 128
    → value < 2 ^ shift
    → varint_loop start (b ∷ rest) at value shift ≡ ok v s
    → IsVarint (b ∷ rest) at value shift b v s
last-IsVarint start b at value shift v rest s hb hv e = elim (zero_or b shift) [
  | inl (z, nz) ↦ let f = round_zero start at value shift rest nz in cc
  | inr p ↦
      let (ev, er, ea, lt) =
        fits-ok start (value + b * 2 ^ shift) (at + 1) v rest s
          (sym (round_last start b at value shift rest hb hv p) ∙ e) in
      let w : varint_bytes b ≡ b ∷ [] = varint_bytes_step b ∙ ground arith in
      record {
        value_of = ev;
        read_from = rw (w, er) refl;
        positive = p;
        in_range = lt;
        moved = rw w ea;
      }
]
  where
    zero_or : (b shift : ℕ) → ((b ≡ 0) × (shift ≢ 0)) ⊎ ((shift ≡ 0) ⊎ (1 ≤ b))
    zero_or zero zero = inr (inl refl)
    zero_or zero (suc k) = inl (refl, λ e. cc)
    zero_or (suc b) k = inr (inr (omega arith))

more-IsVarint :
    (byte g at value shift n v : ℕ) (rest : List ℕ) (s : Archive)
    → byte ≡ g + 128
    → g < 128
    → IsVarint rest (at + 1) (value + g * 2 ^ shift) (shift + 7) n v s
    → IsVarint (byte ∷ rest) at value shift (g + 128 * n) v s
more-IsVarint byte g at value shift n v rest s hb hg r =
    let pos : 1 ≤ n = elim r.positive [ inl e ↦ absurd (omega arith) | inr p ↦ p ] in
    let low : (g + 128 * n) % 128 ≡ g = omega arith in
    let high : (g + 128 * n) / 128 ≡ n = omega arith in
    let w : varint_bytes (g + 128 * n) ≡ (g + 128) ∷ varint_bytes n =
      varint_bytes_step (g + 128 * n) ∙ ground (arith, pos, low, high) in
    record {
      value_of = r.value_of ∙ sum low high;
      read_from = rw (w, hb) (ap (λ (t : List ℕ). (g + 128) ∷ t) r.read_from);
      positive = inr (omega arith);
      in_range = r.in_range;
      moved = rw w (omega (arith, r.moved));
    }
  where
    sum :
        (g + 128 * n) % 128 ≡ g
        → (g + 128 * n) / 128 ≡ n
        → value + g * 2 ^ shift + n * 2 ^ (shift + 7) ≡ value + (g + 128 * n) * 2 ^ shift
    sum low high = rw (split_group (g + 128 * n) shift, low, high) (omega arith)

varint_loop-IsVarint :
    (bytes : List ℕ) (start at value shift v : ℕ) (s : Archive)
    → All IsByte bytes
    → value < 2 ^ shift
    → varint_loop start bytes at value shift ≡ ok v s
    → (n : ℕ) × IsVarint bytes at value shift n v s
varint_loop-IsVarint [] start at value shift v s h hv e = absurd_read e
  where
    absurd_read :
        varint_loop start [] at value shift ≡ ok v s → (n : ℕ) × IsVarint [] at value shift n v s
    absurd_read e = unfold varint_loop in cc
varint_loop-IsVarint (byte ∷ rest) start at value shift v s h hv e =
    elim (Bool-cases (leb 128 byte)) [
      | inr last ↦ (byte, last-IsVarint start byte at value shift v rest s (ground arith) hv e)
      | inl more ↦
          let split : byte ≡ byte - 128 + 128 = ground arith in
          let e' : varint_loop start ((byte - 128 + 128) ∷ rest) at value shift ≡ ok v s =
            rw (← split) e in
          let g : byte - 128 < 128 = omega (arith, h.0) in
          elim (Bool-cases (leb 63 shift)) [
            | inl long ↦
                let t = round_too_long start (byte - 128) at value shift rest g (ground arith) in cc
            | inr short ↦
                let (n, r) =
                  varint_loop-IsVarint rest start (at + 1) (value + (byte - 128) * 2 ^ shift)
                    (shift + 7) v s h.1 (group_bound (byte - 128) value shift g hv)
                    (sym (round_more start (byte - 128) at value shift rest g hv (ground arith))
                      ∙ e') in
                (
                  byte - 128 + 128 * n,
                  more-IsVarint byte (byte - 128) at value shift n v rest s split g r,
                )
          ]
    ]

-- A number that `readVarintU64` reads from bytes is below 2^64, and what the cursor has passed is
-- what `varintBytes` writes for it: no other bytes stand for the number.
pub read_varint_u64-canonical :
    (bytes : List ℕ) (at n : ℕ) (s : Archive)
    → All IsByte bytes
    → read_varint_u64 (record { rest = bytes; at = at }) ≡ ok n s
    → (n < 2 ^ 64) × (bytes ≡ varint_bytes n ++ s.rest) × (s.at ≡ at + length (varint_bytes n))
unfolding read_varint_u64
read_varint_u64-canonical bytes at n s h e =
    let (m, r) = varint_loop-IsVarint bytes at at 0 0 n s h (omega arith) e in
    let same : m ≡ n = omega (arith, r.value_of) in
    rw (← same) (omega (arith, r.in_range, r.value_of), r.read_from, r.moved)
