-- ===== src/Airgap/Base43/Refusal.antt =====
-- src/airgap/base43.ts, base43Decode: the texts that it refuses.
use labyrinth_vault.Prelude.{
  ℕ, ◌+◌, ◌*◌, ◌≡◌, refl, sym, ◌∙◌, arith, true, Bool, List, [], ◌∷◌, Option, none, some, ◌==◌,
  ◌>>=◌, Text, drop, all, Bool-cases, Option-cases, inl, inr,
}
use labyrinth_vault.Airgap.Envelope.Parts.{is_some}
use labyrinth_vault.Airgap.Ur.Pieces.{includes}
use labyrinth_vault.Airgap.Base43.{
  alphabet, leading, index_of, digit_of, read_number, base43_decode,
}

-- A character of the alphabet.
abbrev pub is_known : ℕ → Bool
is_known c = includes alphabet c

index_of-includes : (c i : ℕ) (xs : Text) → is_some (index_of c xs i) ≡ includes xs c
unfolding index_of includes
index_of-includes c i [] = refl
index_of-includes c i (x ∷ xs) = ground (arith, index_of-includes c (i + 1) xs)

read_number-is_known : (num : ℕ) (s : Text) → is_some (read_number num s) ≡ all is_known s
unfolding read_number digit_of
read_number-is_known num [] = refl
read_number-is_known num (c ∷ s) = elim (Option-cases (index_of c alphabet 0)) [
  | inl e ↦ rw (e, sym (index_of-includes c 0 alphabet), e) refl
  | inr (d, e) ↦
      rw (e, sym (index_of-includes c 0 alphabet), e) (read_number-is_known (num * 43 + d) s)
]

zero_known : is_known b'0' ≡ true
unfolding includes
zero_known = refl

drop-is_known : (s : Text) → all is_known (drop (leading b'0' s) s) ≡ all is_known s
unfolding leading
drop-is_known [] = refl
drop-is_known (c ∷ s) = elim (Bool-cases (c == b'0')) [
  | inr e ↦ rw e refl
  | inl e ↦
      let zero_here : c ≡ b'0' = ground arith in rw (e, zero_here, zero_known) (drop-is_known s)
]

is_some-map : (m : Option ℕ) (f : ℕ → List ℕ) → is_some (m >>= λ n. some (f n)) ≡ is_some m
is_some-map none f = refl
is_some-map (some n) f = refl

-- A text gives bytes exactly if each of its characters is in the alphabet; otherwise it gives none.
pub base43_decode-is_known : (text : Text) → is_some (base43_decode text) ≡ all is_known text
unfolding base43_decode
base43_decode-is_known text =
    is_some-map (read_number 0 (drop (leading b'0' text) text)) _
    ∙ read_number-is_known 0 (drop (leading b'0' text) text)
    ∙ drop-is_known text
