-- ===== src/Curve/Tests.antt =====
-- A curve in the middle of its life, and the theorems on the curve at it.
use automatamain.Base.{◌≤◌, ◌≡◌, ◌↔◌, arith, false, length, All}
use automatamain.Curve.{BondingCurveState, pump_max_sellable_tokens_for_sol, jupiter_chunk_amounts}
use automatamain.Curve.Bounds.{YieldsAtMost, yields_iff_le_max_sellable}
use automatamain.Curve.Chunks.{IsChunk, jupiter_chunk_amounts-IsChunk}

abbrev curve : BondingCurveState
curve = record {
  virtual_token_reserves = 600_000_000_000_000;
  virtual_sol_reserves = 50_000_000_000;
  real_token_reserves = 320_000_000_000_000;
  real_sol_reserves = 20_000_000_000;
  creator = 7;
  is_cashback_coin = false;
  curve_complete = false;
}

yields_iff_le_max_sellable_example :
    YieldsAtMost 1_000_000_000 curve 12_000_000_000_000
    ↔ (12_000_000_000_000 ≤ pump_max_sellable_tokens_for_sol 1_000_000_000 curve)
yields_iff_le_max_sellable_example =
    yields_iff_le_max_sellable curve (omega arith) (omega arith) (omega arith) (omega arith)
      1_000_000_000 12_000_000_000_000 (omega arith)

jupiter_chunk_amounts-IsChunk_example :
    (length (jupiter_chunk_amounts 1_000_003 4) ≡ 4)
    × All (IsChunk 1_000_003 4) (jupiter_chunk_amounts 1_000_003 4)
jupiter_chunk_amounts-IsChunk_example =
    jupiter_chunk_amounts-IsChunk 1_000_003 4 (omega arith) (omega arith)
