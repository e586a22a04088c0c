-- ===== src/Wallet/Units/Groups.antt =====
-- wallet/src/core/units.ts and coinpick.ts: groups of characters, and the rounding of a price.
use labyrinth_vault.Prelude.{
  ℕ, zero, suc, ◌+◌, ◌-◌, ◌*◌, ◌/◌, ◌%◌, ◌≤◌, ◌<◌, ◌≡◌, refl, ◌++◌, arith, List, [], ◌∷◌, Text,
  trim, length, length-take, drop, take-append-drop, All, max, leb, if◌then◌else◌,
}
use labyrinth_vault.Wallet.Model.{Asset, btc, xmr}
use labyrinth_vault.Wallet.Units.{atoms_per_unit, fiat_cents, groups_from, chunk_address}

pub join : List Text → Text
join [] = []
join (g ∷ gs) = g ++ join gs

drop-length : (n : ℕ) (s : Text) → length (drop n s) ≡ length s - n
drop-length zero s = omega arith
drop-length (suc n) [] = omega arith
drop-length (suc n) (c ∷ s) = omega (arith, drop-length n s)

groups-join :
    (fuel size : ℕ) (s : Text)
    → 1 ≤ size
    → length s ≤ fuel
    → (join (groups_from fuel size s) ≡ s)
      × All (λ g. (1 ≤ length g) × (length g ≤ size)) (groups_from fuel size s)
unfolding groups_from join
groups-join zero size [] h l = (refl, tt)
groups-join zero size (c ∷ s) h l = absurd (omega (arith, l))
groups-join (suc fuel) size [] h l = (refl, tt)
groups-join (suc fuel) size (c ∷ s) h l =
    let r =
      groups-join fuel size (drop size (c ∷ s)) h (omega (arith, drop-length size (c ∷ s), l, h)) in
    (
      rw r.0 (take-append-drop size (c ∷ s)),
      ((omega (arith, length-take size (c ∷ s), h), omega (arith, length-take size (c ∷ s))), r.1),
    )

-- The groups of an address, joined, are the address without the space around it: no character is
-- added, lost or moved. No group is empty, and none is longer than the size, or than one if the
-- size is zero.
pub chunk_address-join :
    (address : Text) (size : ℕ)
    → (join (chunk_address address size) ≡ trim address)
      × All (λ g. (1 ≤ length g) × (length g ≤ max 1 size)) (chunk_address address size)
unfolding chunk_address
chunk_address-join address size =
    groups-join (length (trim address)) (max 1 size) (trim address) (omega arith) (omega arith)

-- The value in cents is the nearest to the exact one, and of two that are as near the larger.
pub fiat_cents-nearest :
    (atoms : ℕ) (asset : Asset) (price : ℕ)
    → (2 * (fiat_cents atoms asset price * atoms_per_unit asset)
        ≤ 2 * (atoms * price) + atoms_per_unit asset)
      × (2 * (atoms * price)
          < 2 * (fiat_cents atoms asset price * atoms_per_unit asset) + atoms_per_unit asset)
unfolding fiat_cents
fiat_cents-nearest atoms btc price = nearest_btc (atoms * price)
  where
    nearest_btc :
        (v : ℕ)
        → (2
              * ((if leb 100000000 (v % 100000000 * 2) then v / 100000000 + 1 else v / 100000000)
                  * 100000000)
            ≤ 2 * v + 100000000)
          × (2 * v
              < 2
                  * ((if leb 100000000 (v % 100000000 * 2)
                        then v / 100000000 + 1
                        else v / 100000000)
                      * 100000000)
                + 100000000)
    nearest_btc v = ground arith
fiat_cents-nearest atoms xmr price = nearest_xmr (atoms * price)
  where
    nearest_xmr :
        (v : ℕ)
        → (2
              * ((if leb 1000000000000 (v % 1000000000000 * 2)
                    then v / 1000000000000 + 1
                    else v / 1000000000000)
                  * 1000000000000)
            ≤ 2 * v + 1000000000000)
          × (2 * v
              < 2
                  * ((if leb 1000000000000 (v % 1000000000000 * 2)
                        then v / 1000000000000 + 1
                        else v / 1000000000000)
                      * 1000000000000)
                + 1000000000000)
    nearest_xmr v = ground arith
