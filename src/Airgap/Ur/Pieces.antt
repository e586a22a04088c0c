-- ===== src/Airgap/Ur/Pieces.antt =====
-- ur.ts, the pieces of a collector: fragments, mixed or not, and the subtraction of one from another.
pub mod Range
pub mod Mix
use labyrinth_vault.Prelude.{
  ℕ, ◌&&◌, ◌||◌, not, Bool, true, false, List, [], ◌∷◌, ◌==◌, leb, if◌then◌else◌, length, all, Text,
  text_eq,
}
use labyrinth_vault.Prelude.Numerals.{to_string}
use labyrinth_vault.Airgap.Bytewords.{join}
use labyrinth_vault.Airgap.Fountain.{xor_into}

pub record Piece : Type 0 where
  pub indexes : List ℕ
  pub fragment : List ℕ

-- `list.includes(value)`
unfoldable pub includes : List ℕ → ℕ → Bool
includes [] v = false
includes (x ∷ xs) v = x == v || includes xs v

pub is_subset : List ℕ → List ℕ → Bool
is_subset outer inner = all (includes outer) inner

-- `outer.filter((index) => !inner.includes(index))`
pub without : List ℕ → List ℕ → List ℕ
without [] inner = []
without (x ∷ outer) inner =
    let rest = without outer inner in if includes inner x then rest else x ∷ rest

unfoldable pub reduce : Piece → Piece → Piece
unfolding is_subset without
reduce a b =
    if length b.indexes == 0 || not (is_subset a.indexes b.indexes)
    then a
    else if length a.indexes == length b.indexes
    then record { indexes = []; fragment = [] }
    else record { indexes = without a.indexes b.indexes; fragment = xor_into a.fragment b.fragment }

-- `sort((a, b) => a - b)`
insert_sorted : ℕ → List ℕ → List ℕ
insert_sorted x [] = x ∷ []
insert_sorted x (y ∷ ys) = let rest = insert_sorted x ys in if leb x y then x ∷ y ∷ ys else y ∷ rest

sort_numbers : List ℕ → List ℕ
unfolding insert_sorted
sort_numbers [] = []
sort_numbers (x ∷ xs) = insert_sorted x (sort_numbers xs)

-- `indexes.slice().sort((a, b) => a - b).join(',')`
key_of : List ℕ → Text
unfolding sort_numbers
key_of indexes = join b',' (to_string 10) (sort_numbers indexes)

-- `mixed.some((other) => … === key)`
unfoldable pub is_known : List Piece → List ℕ → Bool
unfolding key_of sort_numbers insert_sorted join
is_known [] indexes = false
is_known (p ∷ ps) indexes = text_eq (key_of p.indexes) (key_of indexes) || is_known ps indexes
