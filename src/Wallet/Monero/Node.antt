-- ===== src/Wallet/Monero/Node.antt =====
-- wallet/src/net/monerod.ts, outs, and distributionFor of wallet/src/core/moneroplan.ts: what a plan
-- asks a node for. The node's answers are parameters.
pub mod Indices
use labyrinth_vault.Prelude.{
  ℕ, ◌^◌, zero, suc, ◌+◌, ◌-◌, Bool, true, false, not, ◌&&◌, ◌||◌, List, [], ◌∷◌, Option, none,
  some, Text, text_eq, is_digit, is_upper, ltb, leb, ◌==◌, if◌then◌else◌, length, map, all,
  get_elem?,
}
use labyrinth_vault.Wallet.Monero.Decoys.{
  OutputDistribution, Picker, make_picker, spendable_age, RingSelection, ring, select_ring,
  pick_one,
}
use labyrinth_vault.Wallet.Monero.Inputs.{SpendableOutput, SpendProblem, InputPlan, select_inputs}
use labyrinth_vault.Wallet.Monero.Unsigned.{
  ChainOutput, Ring, Destination, UnsignedTxSet, Assembled, ok, no_inputs, no_ring, no_destination,
  misplaced, unbalanced, send_total, assemble_unsigned,
}

-- An entry of a reply to `get_outs`: a height is `none` where the reply has no number, and `unlocked`
-- is true only where the reply says `true`. Heights that are negative or fractional are left out.
pub record OutEntry : Type 0 where
  pub key : Text
  pub mask : Text
  pub unlocked : Bool
  pub height : Option ℕ

-- What is used of `NodeInfo`.
pub record NodeInfo : Type 0 where
  pub height : ℕ
  pub syncing : Bool

-- A node's answers; `none` is a problem with the reply.
pub record Node : Type 0 where
  pub base : Text
  pub info : Option NodeInfo
  pub output_distribution : ℕ → Option OutputDistribution
  pub get_outs : List ℕ → Option (List OutEntry)

-- `/^[0-9a-f]{64}$/i`
pub is_hex64 : Text → Bool
is_hex64 s =
    length s == 64
    && all (λ c. is_digit c || (leb b'a' c && leb c b'f') || (leb b'A' c && leb c b'F')) s

-- `toLowerCase()` of hexadecimal text.
pub lower_hex : Text → Text
lower_hex [] = []
lower_hex (c ∷ s) = (if is_upper c then c + 32 else c) ∷ lower_hex s

-- The loop of `outs`: one entry for each index, in their order.
pub line_up : List ℕ → List OutEntry → Option (List ChainOutput)
unfolding is_hex64 lower_hex
line_up [] [] = some []
line_up [] (e ∷ es) = none
line_up (i ∷ is) [] = none
line_up (i ∷ is) (e ∷ es) =
    let rest = line_up is es in
    if is_hex64 e.key && is_hex64 e.mask
    then elim rest [
      | none ↦ none
      | some ms ↦ some (
          record {
            global_index = i;
            key = lower_hex e.key;
            commitment = lower_hex e.mask;
            unlocked = e.unlocked;
            height = elim (e.height) [ none ↦ 0 | some h ↦ h ];
          }
          ∷ ms)
    ]
    else none

-- `Number.isSafeInteger`
pub is_safe : ℕ → Bool
is_safe i = ltb i (2 ^ 53)

unfoldable pub outs : Node → List ℕ → Option (List ChainOutput)
unfolding line_up is_safe
outs node indices =
    if length indices == 0
    then some []
    else if not (all is_safe indices)
    then none
    else elim (node.get_outs indices) [ none ↦ none | some es ↦ line_up indices es ]

pub record CachedDistribution : Type 0 where
  pub node : Text
  pub to_height : ℕ
  pub value : OutputDistribution

pub is_cached : Node → ℕ → CachedDistribution → Bool
is_cached node to_height c = text_eq c.node node.base && c.to_height == to_height

-- The distribution and the new cache.
unfoldable pub distribution_for :
    Node → ℕ → Option CachedDistribution → Option OutputDistribution × Option CachedDistribution
unfolding is_cached
distribution_for node to_height cache =
    let fetched = node.output_distribution to_height in
    let fresh : Option OutputDistribution × Option CachedDistribution = elim fetched [
      | none ↦ (none, cache)
      | some d ↦ (some d, some (record { node = node.base; to_height = to_height; value = d }))
    ] in
    elim cache [
      | none ↦ fresh
      | some c ↦ if is_cached node to_height c then (some c.value, some c) else fresh
    ]
