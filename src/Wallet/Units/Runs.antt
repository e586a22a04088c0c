-- ===== src/Wallet/Units/Runs.antt =====
-- Concrete runs of the amounts' and addresses' text, and its theorems at concrete inputs.
use labyrinth_vault.Prelude.{◌≡◌, ◌≤◌, refl, arith, codes, trim, [], ◌∷◌, length, max, All}
use labyrinth_vault.Prelude.Numerals.{number_of, to_string, pad_start, pad_end}
use labyrinth_vault.Wallet.Model.{btc, xmr}
use labyrinth_vault.Wallet.Units.{format_amount, in_groups, chunk_address}
use labyrinth_vault.Wallet.Units.Groups.{join, chunk_address-join}
use labyrinth_vault.Wallet.Units.Parsing.{
  ok, enter_an_amount, numbers_only, too_many_places, parse_amount,
}
use labyrinth_vault.Wallet.Units.Parsing.RoundTrip.{parse_amount-format_amount}

typed : parse_amount (codes " 1,250.5 ") btc ≡ ok 125050000000
unfolding parse_amount trim number_of pad_end
typed = refl

leading_dot : parse_amount (codes ".000000000001") xmr ≡ ok 1
unfolding parse_amount trim number_of pad_end
leading_dot = refl

two_dots : parse_amount (codes "1.2.3") btc ≡ numbers_only
unfolding parse_amount trim
two_dots = refl

too_fine : parse_amount (codes "0.000000001") btc ≡ too_many_places 8
unfolding parse_amount trim
too_fine = refl

nothing : parse_amount (codes "0.00") btc ≡ enter_an_amount
unfolding parse_amount trim number_of pad_end
nothing = refl

parse_amount-format_amount_example : parse_amount (format_amount 48273100 btc) btc ≡ ok 48273100
parse_amount-format_amount_example = parse_amount-format_amount btc 48273100 (omega arith)

amounts :
    (format_amount 48273100 btc ≡ codes "0.482731") × (format_amount 3000000000000 xmr ≡ codes "3")
unfolding format_amount to_string pad_start
amounts = (refl, refl)

grouped : in_groups (codes "bc1qxyz") 4 ≡ codes "bc1q" ∷ codes "xyz" ∷ []
unfolding in_groups
grouped = refl

chunk_address-join_example :
    (join (chunk_address (codes " bc1qxyz") 4) ≡ trim (codes " bc1qxyz"))
    × All (λ g. (1 ≤ length g) × (length g ≤ max 1 4)) (chunk_address (codes " bc1qxyz") 4)
chunk_address-join_example = chunk_address-join (codes " bc1qxyz") 4
