-- ===== src/Wallet/Monero/Fees.antt =====
-- wallet/src/core/monerospend.ts, estimateWeight and feeFor: a fee from the shape of a transaction.
use labyrinth_vault.Prelude.{ℕ, zero, suc, ◌+◌, ◌-◌, ◌*◌, ◌/◌, ◌^◌, ltb, if◌then◌else◌}

-- RING_SIZE
abbrev pub ring_size_of_network : ℕ
ring_size_of_network = 16

-- STANDARD_EXTRA_SIZE
abbrev pub standard_extra_size : ℕ
standard_extra_size = 1 + 32 + 1 + 1 + 1 + 8

-- `while ((1 << k) < outputs) k++`, with a bit more for each unit of fuel. `1 << k` is a power of
-- two up to `k = 30`.
pub padding_from : ℕ → ℕ → ℕ → ℕ
padding_from zero k outputs = k
padding_from (suc fuel) k outputs =
    let rest = padding_from fuel (k + 1) outputs in if ltb (2 ^ k) outputs then rest else k

-- The surcharge on a range proof that is padded past its outputs.
pub clawback : ℕ → ℕ
unfolding padding_from
clawback outputs =
    let bp_base = 32 * (6 + 7 * 2) / 2 in
    let lpo = padding_from 28 2 outputs in
    let nlr = 2 * (6 + lpo) in
    let bp_size = 32 * (6 + nlr) in
    if ltb 2 outputs then (bp_base * 2 ^ lpo - bp_size) * 4 / 5 else 0

-- The source's `mixin + 1`, with `mixin = ringSize - 1`, is `ring_size`.
unfoldable pub estimate_weight : ℕ → ℕ → ℕ → ℕ → ℕ
unfolding padding_from clawback
estimate_weight inputs outputs ring_size extra_size =
    let log_padded = padding_from 30 0 outputs in
    1
    + 6
    + inputs * (1 + 6 + ring_size * 2 + 32)
    + outputs * (6 + 32)
    + extra_size
    + 1
    + ((2 * (6 + log_padded) + 6) * 32 + 3)
    + inputs * (32 * ring_size + 64)
    + outputs
    + 32 * inputs
    + 8 * outputs
    + 32 * outputs
    + 4
    + clawback outputs

unfoldable pub fee_for : ℕ → ℕ → ℕ → ℕ → ℕ → ℕ
fee_for inputs outputs per_byte multiplier ring_size =
    estimate_weight inputs outputs ring_size standard_extra_size * per_byte * multiplier
