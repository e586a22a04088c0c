-- ===== src/Wallet/Monero/Node/Indices.antt =====
-- wallet/src/net/monerod.ts, outs: the indices of its answer.
use labyrinth_vault.Prelude.{
  all, ℕ, suc, ◌≡◌, refl, sym, ap, ◌∙◌, arith, false, ◌&&◌, List, [], ◌∷◌, Option, some, ◌==◌,
  length, map, inl, inr, Bool-cases, Option-cases,
}
use labyrinth_vault.Wallet.Monero.Unsigned.{ChainOutput}
use labyrinth_vault.Wallet.Monero.Node.{OutEntry, Node, is_hex64, line_up, is_safe, outs}

abbrev indices_of : List ChainOutput → List ℕ
indices_of ms = map (λ m. m.global_index) ms

some_indices :
    {ms ns : List ChainOutput}
    → ◌≡◌ {A = Option (List ChainOutput)} (some ms) (some ns)
    → indices_of ms ≡ indices_of ns
some_indices {ms} {ns} e = let same : ms ≡ ns = cc in ap indices_of same

line_up-indices :
    (is : List ℕ) (es : List OutEntry) (ms : List ChainOutput)
    → line_up is es ≡ some ms
    → map (λ m. m.global_index) ms ≡ is
unfolding line_up
line_up-indices [] [] ms e = let same : [] ≡ ms = ground arith in rw (← same) refl
line_up-indices [] (x ∷ es) ms e = cc
line_up-indices (i ∷ is) [] ms e = cc
line_up-indices (i ∷ is) (x ∷ es) ms e = elim (Bool-cases (is_hex64 x.key && is_hex64 x.mask)) [
  | inr bad ↦ let q = rw bad at e in cc
  | inl good ↦ elim (Option-cases (line_up is es)) [
    | inl stop ↦ let q = rw (good, stop) at e in cc
    | inr (rest, more) ↦
        let q = rw (good, more) at e in
        let r = line_up-indices is es rest more in
        let same : indices_of ms ≡ i ∷ indices_of rest = sym (some_indices q) in
        same ∙ ap (λ (t : List ℕ). i ∷ t) r
  ]
]

-- The members that come back are those that were asked for, in their order.
pub outs-indices :
    (node : Node) (is : List ℕ) (ms : List ChainOutput)
    → outs node is ≡ some ms
    → map (λ m. m.global_index) ms ≡ is
unfolding outs
outs-indices node [] ms e = let same : [] ≡ ms = cc in rw (← same) refl
outs-indices node (i ∷ is) ms e =
    let none_left : (suc (length is) == 0) ≡ false = ground arith in
    elim (Bool-cases (all is_safe (i ∷ is))) [
      | inr unsafe ↦ let q = rw (none_left, unsafe) at e in cc
      | inl safe ↦ elim (Option-cases (node.get_outs (i ∷ is))) [
        | inl stop ↦ let q = rw (none_left, safe, stop) at e in cc
        | inr (es, more) ↦
            let q = rw (none_left, safe, more) at e in line_up-indices (i ∷ is) es ms q
      ]
    ]
