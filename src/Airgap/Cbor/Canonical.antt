-- ===== src/Airgap/Cbor/Canonical.antt =====
-- src/airgap/cbor.ts: the bytes that the strict reader accepts.
use labyrinth_vault.Prelude.{
  ℕ, zero, suc, ◌^◌, ◌≤◌, ◌<◌, ◌≡◌, refl, sym, ap, ◌∙◌, ◌++◌, append_assoc, append-nil, true, List,
  [], ◌∷◌, Option, some, ◌==◌, ==_iff, ◌>>=◌, ◌>>◌, guard, length, length-take, take, drop,
  take-append-drop, arith, inl, inr, All, All-drop, IsByte, Bool-cases, >>=-eq-some,
}
use mathlib.Core.Path.{subst}
use labyrinth_vault.Airgap.Cbor.{
  CborValue, CborList, number, bytes, array, end, item, count, head, write, write_all, cbor_encode,
  read_head, read_items, read_body, read, cbor_decode,
}
use labyrinth_vault.Airgap.Cbor.Heads.{head_canonical}

-- A reader of items that takes off exactly what the writer makes of the value, and leaves bytes.
Faithful : (List ℕ → Option (CborValue × List ℕ)) → Type 0
Faithful reader =
    (bs : List ℕ) (v : CborValue) (rest : List ℕ)
    → All IsByte bs
    → reader bs ≡ some (v, rest)
    → (w : List ℕ) × (write v ≡ some w) × (bs ≡ w ++ rest) × All IsByte rest

items-Faithful :
    (reader : List ℕ → Option (CborValue × List ℕ))
    → Faithful reader
    → (n : ℕ) (bs : List ℕ) (vs : CborList) (rest : List ℕ) → All IsByte bs
    → read_items reader n bs ≡ some (vs, rest)
    → (w : List ℕ) × (write_all vs ≡ some w) × (bs ≡ w ++ rest) × (count vs ≡ n) × All IsByte rest
unfolding read_items write count Faithful
items-Faithful reader F zero bs vs rest h e =
    let q : (vs ≡ end) × (bs ≡ rest) = ground arith in
    rw q.0 ([], refl, q.1, refl, subst (All IsByte) q.1 h)
items-Faithful reader F (suc n) bs vs rest h e =
    let ((v, after), e1, e2) =
      >>=-eq-some (reader bs) (λ r. read_items reader n r.1 >>= λ s. some (item r.0 s.0, s.1)) e in
    let ((us, last), e3, e4) =
      >>=-eq-some (read_items reader n after) (λ s. some (item v s.0, s.1)) e2 in
    let q : (vs ≡ item v us) × (last ≡ rest) = ground arith in
    let (w, w1, w2, w3) = F bs v after h e1 in
    let (x, x1, x2, x3, x4) = items-Faithful reader F n after us last w3 e3 in
    rw q.0 (
      w ++ x,
      rw (w1, x1) refl,
      w2 ∙ (ap (λ t. w ++ t) (x2 ∙ ap (λ t. x ++ t) q.1) ∙ sym (append_assoc w x rest)),
      ap suc x3,
      subst (All IsByte) q.1 x4,
    )

written_bytes :
    (n : ℕ) (bs : List ℕ) → n ≤ length bs → write (bytes (take n bs)) ≡ some (head 2 n ++ take n bs)
unfolding write
written_bytes n bs h =
    let q : length (take n bs) ≡ n = omega (arith, length-take n bs, h) in rw q refl

written_array :
    (vs : CborList) (w : List ℕ)
    → write_all vs ≡ some w
    → write (array vs) ≡ some (head 4 (count vs) ++ w)
unfolding write
written_array vs w e = rw e refl

-- The conclusion of a faithful reader, for the head of a body and the body.
Comes : ℕ → ℕ → List ℕ → CborValue → List ℕ → Type 0
Comes m n bs v rest =
    (w : List ℕ) × (write v ≡ some w) × (head m n ++ bs ≡ w ++ rest) × All IsByte rest

Comes-number :
    (n : ℕ) (bs rest : List ℕ) (v : CborValue)
    → n < 2 ^ 32
    → All IsByte bs
    → v ≡ number n
    → bs ≡ rest
    → Comes 0 n bs v rest
unfolding Comes write
Comes-number n bs rest v l h e f = rw (e, sym f) (head 0 n, ground arith, refl, h)

Comes-bytes :
    (n : ℕ) (bs rest : List ℕ) (v : CborValue)
    → n ≤ length bs
    → All IsByte bs
    → v ≡ bytes (take n bs)
    → rest ≡ drop n bs
    → Comes 2 n bs v rest
unfolding Comes
Comes-bytes n bs rest v l h e f =
    rw (e, f)
      (
        head 2 n ++ take n bs,
        written_bytes n bs l,
        ap (λ t. head 2 n ++ t) (sym (take-append-drop n bs))
            ∙ sym (append_assoc (head 2 n) (take n bs) (drop n bs)),
        All-drop IsByte n bs h,
      )

Comes-array :
    (reader : List ℕ → Option (CborValue × List ℕ))
    → Faithful reader
    → (n : ℕ) (bs rest : List ℕ) (v : CborValue) (vs : CborList) → All IsByte bs
    → read_items reader n bs ≡ some (vs, rest)
    → v ≡ array vs
    → Comes 4 n bs v rest
unfolding Comes
Comes-array reader F n bs rest v vs h e f =
    let (w, a, b, c, d) = items-Faithful reader F n bs vs rest h e in
    rw f (
      head 4 n ++ w,
      subst (λ m. write (array vs) ≡ some (head 4 m ++ w)) c (written_array vs w a),
      ap (λ t. head 4 n ++ t) b ∙ sym (append_assoc (head 4 n) w rest),
      d,
    )

body-Faithful :
    (reader : List ℕ → Option (CborValue × List ℕ))
    → Faithful reader
    → (m n : ℕ) (bs : List ℕ) (v : CborValue) (rest : List ℕ) → n < 2 ^ 32
    → All IsByte bs
    → read_body reader m n bs ≡ some (v, rest)
    → Comes m n bs v rest
unfolding read_body
body-Faithful reader F m n bs v rest l h e = elim (Bool-cases (m == 0)) [
  | inl z ↦
      let q : (v ≡ number n) × (bs ≡ rest) = ground arith in
      rw ((==_iff m 0).0 z) (Comes-number n bs rest v l h q.0 q.1)
  | inr z ↦ elim (Bool-cases (m == 2)) [
    | inl t ↦
        let q : (n ≤ length bs) × (v ≡ bytes (take n bs)) × (rest ≡ drop n bs) = ground arith in
        rw ((==_iff m 2).0 t) (Comes-bytes n bs rest v q.0 h q.1 q.2)
    | inr t ↦ elim (Bool-cases (m == 4)) [
      | inl f ↦
          let g : ◌>>=◌ {B = CborValue × List ℕ} (read_items reader n bs)
                (λ r. some (array r.0, r.1))
              ≡ some (v, rest) =
            ground arith in
          let ((vs, after), e1, e2) =
            >>=-eq-some (read_items reader n bs) (λ r. some (array r.0, r.1)) g in
          let q : (v ≡ array vs) × (after ≡ rest) = ground arith in
          rw ((==_iff m 4).0 f) (
            Comes-array reader F n bs rest v vs h
              (subst (λ t. read_items reader n bs ≡ some (vs, t)) q.1 e1) q.0)
      | inr f ↦ absurd (ground arith)
    ]
  ]
]

read-Faithful : (k : ℕ) → Faithful (read k)
unfolding Faithful read Comes
read-Faithful zero bs v rest h e = cc
read-Faithful (suc k) bs v rest h e =
    let ((m, (n, after)), e1, e2) =
      >>=-eq-some (read_head bs) (λ r. read_body (read k) r.0 r.1.0 r.1.1) e in
    let (c, l, b) = head_canonical bs (m, (n, after)) h e1 in
    let (w, a, q, r) = body-Faithful (read k) (read-Faithful k) m n after v rest l b e2 in
    (w, a, c ∙ q, r)

none_left : (b : List ℕ) → (length b == 0) ≡ true → b ≡ []
none_left [] h = refl
none_left (x ∷ b) h = absurd (ground arith)

-- Only one text of bytes is read as a value, the one that is written for it.
pub cbor_encode-cbor_decode :
    (b : List ℕ) (v : CborValue) → All IsByte b → cbor_decode b ≡ some v → cbor_encode v ≡ some b
unfolding cbor_decode cbor_encode Faithful
cbor_encode-cbor_decode b v h e =
    let ((u, rest), e1, e2) = >>=-eq-some (read 5 b) (λ r. guard (length r.1 == 0) >> some r.0) e in
    let (w, a, q, r) = read-Faithful 5 b u rest h e1 in
    let z : ((length rest == 0) ≡ true) × (u ≡ v) = ground arith in
    let whole : b ≡ w = q ∙ (ap (λ t. w ++ t) (none_left rest z.0) ∙ append-nil w) in
    subst (λ t. write t ≡ some b) z.1 (a ∙ ap some (sym whole))
