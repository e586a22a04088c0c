-- ===== src/Airgap/Cbor/Sizes.antt =====
-- src/airgap/cbor.ts: the length of a head.
use labyrinth_vault.Prelude.{
  ℕ, ◌^◌, ◌≤◌, ◌<◌, arith, ltb, length, All, IsByte, Bool-cases, inl, inr,
}
use labyrinth_vault.Airgap.Cbor.{head}
use labyrinth_vault.Airgap.Cbor.Heads.{head_small, head_one, head_two, head_four}

pub head-bounds :
    (major n : ℕ) → major < 8 → n < 2 ^ 32 → All IsByte (head major n) × (length (head major n) ≤ 5)
head-bounds major n h k = elim (Bool-cases (ltb n 24)) [
  | inl e ↦
      let small : n < 24 = ground arith in
      rw (head_small major n small) ((omega (arith, small), tt), omega arith)
  | inr e ↦ elim (Bool-cases (ltb n 256)) [
    | inl f ↦
        rw (head_one major n (ground arith) (ground arith))
          ((omega arith, (ground arith, tt)), omega arith)
    | inr f ↦ elim (Bool-cases (ltb n 65536)) [
      | inl g ↦
          let small : n < 65536 = ground arith in
          rw (head_two major n (ground arith) small)
            ((omega arith, (omega (arith, small), (omega arith, tt))), omega arith)
      | inr g ↦ rw (head_four major n (ground arith) k) (
        (omega arith, (omega (arith, k), (omega arith, (omega arith, (omega arith, tt))))),
        omega arith,
      )
    ]
  ]
]

pub head-pos : (major n : ℕ) → 0 < length (head major n)
unfolding head
head-pos major n = ground arith
