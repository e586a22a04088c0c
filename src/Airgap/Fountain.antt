-- ===== src/Airgap/Fountain.antt =====
-- src/airgap/fountain.ts: how fragments are mixed.
pub mod Laws
pub mod Choice
use labyrinth_vault.Prelude.{ℕ, zero, suc, List, [], ◌∷◌, bit_xor}

-- `new Uint8Array(n)`
unfoldable pub zeros : ℕ → List ℕ
zeros zero = []
zeros (suc n) = 0 ∷ zeros n

-- `xorInto`: the exclusive or of two fragments, where a missing byte counts as 0.
unfoldable pub xor_into : List ℕ → List ℕ → List ℕ
xor_into [] [] = []
xor_into [] (y ∷ ys) = bit_xor 0 y ∷ xor_into [] ys
xor_into (x ∷ xs) [] = bit_xor x 0 ∷ xor_into xs []
xor_into (x ∷ xs) (y ∷ ys) = bit_xor x y ∷ xor_into xs ys
