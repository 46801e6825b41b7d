-- ===== src/Trading/Pool/Values.antt =====
-- The value that a pool reports, against the broker's formula and across the migration.
use automatamain.Base.{◌*◌, ◌/◌, ◌^◌, ◌<◌, ◌≡◌, arith, some, Bool}
use automatamain.Curve.{BondingCurveState, bonding_curve_mcap_raw}
use automatamain.Trading.Types.{native_amount, from_raw_native}
use automatamain.Trading.Pool.{Bonding, market_cap}

-- The state of the curve that the broker would read for a pool.
abbrev pub curve_of : Bonding → Bool → Bool → BondingCurveState
curve_of b cashback complete = record {
  virtual_token_reserves = b.virtual_token_reserves.value;
  virtual_sol_reserves = b.virtual_sol_reserves.value;
  real_token_reserves = b.real_token_reserves.value;
  real_sol_reserves = b.real_sol_reserves.value;
  creator = b.creator;
  is_cashback_coin = cashback;
  curve_complete = complete;
}

-- Where a pool with tokens left and 64-bit SOL reserves is worth less than 2 ^ 64 lamports, the pool
-- and the broker give it the same market value.
pub market_cap-eq-mcap_raw :
    (b : Bonding) (cashback complete : Bool)
    → 0 < b.virtual_token_reserves.value
    → b.virtual_sol_reserves.value < 2 ^ 64
    → b.virtual_sol_reserves.value * 10 ^ 15 / b.virtual_token_reserves.value < 2 ^ 64
    → market_cap b
      ≡ some
          (native_amount (from_raw_native (bonding_curve_mcap_raw (curve_of b cashback complete))))
unfolding market_cap bonding_curve_mcap_raw
market_cap-eq-mcap_raw b cashback complete live fits small = ground (arith, live, fits, small)
