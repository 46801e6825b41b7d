-- ===== src/Curve/Bounds.antt =====
-- The two sale formulas of the curve against one another, and its market value.
use native.Mathlib.Nat.{le-div_iff_mul-le, div-lt_iff_lt-mul, mul_comm, mul-le-mul, mul-div_cancel}
use automatamain.Base.{ℕ, zero, suc, ◌+◌, ◌-◌, ◌*◌, ◌/◌, ◌≤◌, ◌<◌, ◌^◌, ◌≡◌, arith, ◌↔◌}
use automatamain.Curve.{
  BondingCurveState, pump_sol_out_for_tokens, pump_max_sellable_tokens_for_sol, saturating_mul,
}

-- Constant product: v * w over the new token side keeps all but t of v exactly when the new token
-- side is at most v * w over the rest of v.
sold_le : (v w t b : ℕ) → t < v → 0 < b → b ≤ v * w / (v - t) → v - v * w / b ≤ t
sold_le v w t b ht hb h =
    let below : b * (v - t) ≤ v * w = (le-div_iff_mul-le (omega arith)).0 h in
    let turned : (v - t) * b ≤ v * w = rw (mul_comm (v - t) b) below in
    let quotient : v - t ≤ v * w / b = (le-div_iff_mul-le hb).1 turned in omega arith

le_sold : (v w t b : ℕ) → t < v → 0 < b → v - v * w / b ≤ t → b ≤ v * w / (v - t)
le_sold v w t b ht hb h =
    let quotient : v - t ≤ v * w / b = omega arith in
    let below : (v - t) * b ≤ v * w = (le-div_iff_mul-le hb).0 quotient in
    let turned : b * (v - t) ≤ v * w = rw (mul_comm b (v - t)) below in
    (le-div_iff_mul-le (omega arith)).1 turned

fits_u128 : (v w : ℕ) → v < 2 ^ 64 → w < 2 ^ 64 → saturating_mul v w ≡ v * w
fits_u128 v w hv hw =
    let product : v * w ≤ (2 ^ 64 - 1) * (2 ^ 64 - 1) =
      mul-le-mul {n₂ = 2 ^ 64 - 1} {m₂ = 2 ^ 64 - 1} (omega arith) (omega arith) in
    omega arith

-- Any sale takes something.
some_sold : (v w a : ℕ) → 0 < v → 0 < a → v * w / (w + a) < v
some_sold v w a hv ha = (div-lt_iff_lt-mul (omega arith)).1 (grind arith)

-- A sale of `a` tokens yields at most `target` lamports.
abbrev pub YieldsAtMost : ℕ → BondingCurveState → ℕ → Type 0
YieldsAtMost target c a = pump_sol_out_for_tokens a c ≤ target

module _ (c : BondingCurveState) (sol_fits : c.virtual_sol_reserves < 2 ^ 64)
    (token_fits : c.virtual_token_reserves < 2 ^ 64) (sol_pos : 0 < c.virtual_sol_reserves)
    (token_pos : 0 < c.virtual_token_reserves) where
  open c use {virtual_sol_reserves as v, virtual_token_reserves as w}

  -- On a live curve the saturating u128 arithmetic is the exact formula.
  sol_out_exact : (a : ℕ) → a < 2 ^ 64 → pump_sol_out_for_tokens a c ≡ v - v * w / (w + a)
  unfolding pump_sol_out_for_tokens
  sol_out_exact zero ha = ground (arith, mul-div_cancel v token_pos)
  sol_out_exact (suc a) ha = ground (arith, fits_u128 v w sol_fits token_fits)

  -- Both formulas meet: on a curve with positive virtual reserves of 64 bits a sale of `a` tokens,
  -- `a` of 64 bits, yields at most `target` exactly when
  -- `a` is at most the number that `pump_max_sellable_tokens_for_sol` gives for `target`.
  pub yields_iff_le_max_sellable :
      (target a : ℕ)
      → a < 2 ^ 64
      → YieldsAtMost target c a ↔ (a ≤ pump_max_sellable_tokens_for_sol target c)
  unfolding pump_max_sellable_tokens_for_sol
  yields_iff_le_max_sellable target zero ha =
      ground (arith, sol_out_exact 0 ha, mul-div_cancel v token_pos)
  yields_iff_le_max_sellable target (suc a) ha = (
    ground (
      arith,
      sol_out_exact (suc a) ha,
      fits_u128 v w sol_fits token_fits,
      le_sold v w target (w + suc a),
      some_sold v w (suc a),
    ),
    ground (
      arith,
      sol_out_exact (suc a) ha,
      fits_u128 v w sol_fits token_fits,
      sold_le v w target (w + suc a),
    ),
  )
