-- ===== src/Keys/Weight.antt =====
-- src/keys/monerowire.ts, transactionWeight: what the network prices.
use labyrinth_vault.Prelude.{ℕ, zero, suc, ◌+◌, ◌-◌, ◌*◌, ◌/◌, ◌^◌, if◌then◌else◌, ltb, leb}

-- The loop of `transactionWeight`, with a bit more for each unit of fuel. `1 << k` is a power of two
-- up to `k = 30`, which no count of outputs comes near.
pub log_padded_from : ℕ → ℕ → ℕ → ℕ
log_padded_from zero k n_outputs = k
log_padded_from (suc fuel) k n_outputs =
    let rest = log_padded_from fuel (k + 1) n_outputs in if ltb (2 ^ k) n_outputs then rest else k

unfoldable pub transaction_weight : ℕ → ℕ → ℕ
unfolding log_padded_from
transaction_weight size_bytes n_outputs =
    let bp_base = 32 * (6 + 7 * 2) / 2 in
    let log_padded = log_padded_from 28 2 n_outputs in
    let nlr = 2 * (6 + log_padded) in
    let bp_size = 32 * (6 + nlr) in
    let clawback = (bp_base * 2 ^ log_padded - bp_size) * 4 / 5 in
    if leb n_outputs 2 then size_bytes else size_bytes + clawback
