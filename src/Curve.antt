-- ===== src/Curve.antt =====
-- The bonding curve as the live broker reads it (src/autobuy/pump_brocker.rs): the market value of
-- the reserves, the size of a sale, and how a sale is cut into chunks and retried.
pub mod Bounds
pub mod Chunks
pub mod Tests
use automatamain.Base.{
  ℕ, ◌+◌, ◌-◌, ◌*◌, ◌/◌, ◌%◌, ◌^◌, min, max, Bool, false, ◌||◌, List, [], ◌∷◌, ◌++◌, if◌then◌else◌,
  ltb, leb, ◌==◌, replicate,
}

abbrev pub u64_max : ℕ
u64_max = 2 ^ 64 - 1

abbrev pub u128_max : ℕ
u128_max = 2 ^ 128 - 1

abbrev pub u32_max : ℕ
u32_max = 2 ^ 32 - 1

-- `saturating_add` and `saturating_mul` on u128; `saturating_sub` is `-`.
abbrev pub saturating_add : ℕ → ℕ → ℕ
saturating_add a b = min (a + b) u128_max

abbrev pub saturating_mul : ℕ → ℕ → ℕ
saturating_mul a b = min (a * b) u128_max

pub record BondingCurveState : Type 0 where
  pub virtual_token_reserves : ℕ
  pub virtual_sol_reserves : ℕ
  pub real_token_reserves : ℕ
  pub real_sol_reserves : ℕ
  pub creator : ℕ
  pub is_cashback_coin : Bool
  pub curve_complete : Bool

-- The lamports before the conversion to SOL.
unfoldable pub bonding_curve_mcap_raw : BondingCurveState → ℕ
bonding_curve_mcap_raw c =
    if c.virtual_token_reserves == 0
    then 0
    else min
        (saturating_mul c.virtual_sol_reserves 1_000_000_000_000_000 / c.virtual_token_reserves)
        u64_max

unfoldable pub pump_sol_out_for_tokens : ℕ → BondingCurveState → ℕ
pump_sol_out_for_tokens token_amount_raw c =
    let vsr = c.virtual_sol_reserves in
    let vtr = c.virtual_token_reserves in
    let new_vtr = saturating_add vtr token_amount_raw in
    let new_vsr = saturating_mul vsr vtr / new_vtr in
    if token_amount_raw == 0 || vsr == 0 || vtr == 0
    then 0
    else if new_vtr == 0
    then 0
    else min (vsr - new_vsr) u64_max

unfoldable pub pump_max_sellable_tokens_for_sol : ℕ → BondingCurveState → ℕ
pump_max_sellable_tokens_for_sol target_sol_out c =
    let vsr = c.virtual_sol_reserves in
    let vtr = c.virtual_token_reserves in
    let new_vtr = saturating_mul vsr vtr / (vsr - target_sol_out) in
    if target_sol_out == 0 || vsr == 0 || vtr == 0
    then 0
    else if leb vsr target_sol_out
    then u64_max
    else if leb new_vtr vtr
    then 0
    else min (new_vtr - vtr) u64_max

unfoldable pub jupiter_chunk_amounts : ℕ → ℕ → List ℕ
jupiter_chunk_amounts total_raw parts =
    let base = total_raw / parts in
    if total_raw == 0
    then []
    else if leb parts 1 || ltb total_raw (parts * 50_000)
    then total_raw ∷ []
    else replicate (parts - 1) base ++ (total_raw - base * (parts - 1)) ∷ []

contains : List ℕ → ℕ → Bool
contains [] b = false
contains (x ∷ xs) b = x == b || contains xs b

-- One round of the loop over the multipliers 1, 2, 3.
slippage_step : ℕ → List ℕ → ℕ → List ℕ
unfolding contains
slippage_step base_bps steps mul =
    let b = min (min (base_bps * mul) u32_max) 3500 % 2 ^ 16 in
    if contains steps b then steps else steps ++ b ∷ []

unfoldable pub jupiter_slippage_steps : ℕ → List ℕ
unfolding slippage_step
jupiter_slippage_steps base_bps =
    slippage_step base_bps (slippage_step base_bps (slippage_step base_bps [] 1) 2) 3

unfoldable pub sell_raw_delta_slack : ℕ → ℕ
sell_raw_delta_slack sold_raw = if sold_raw == 0 then 0 else min (max (sold_raw / 10_000) 1) 100
