-- ===== src/Strategy/Config.antt =====
-- The rules of a strategy stay those that it began with.
use automatamain.Base.{ℕ, ◌≡◌, arith}
use automatamain.Base.Float.{Float}
use automatamain.Strategy.{
  StrategyController, roll_day_if_needed, can_open, note_position_opened, note_position_closed,
}

module _ {F : Type 0} ⦃fl : Float F⦄ where
  pub roll-cfg : (c : StrategyController F) (clock : ℕ) → (roll_day_if_needed c clock).cfg ≡ c.cfg
  unfolding roll_day_if_needed
  roll-cfg c clock = ground arith

  pub can_open-cfg :
      (c : StrategyController F) (clock now open_count : ℕ)
      → (can_open c clock now open_count).0.cfg ≡ c.cfg
  unfolding can_open roll_day_if_needed
  can_open-cfg c clock now open_count = ground arith

  pub note_opened-cfg :
      (c : StrategyController F) (clock : ℕ) → (note_position_opened c clock).cfg ≡ c.cfg
  unfolding note_position_opened roll_day_if_needed
  note_opened-cfg c clock = ground arith

  pub note_closed-cfg :
      (c : StrategyController F) (clock now now_unix : ℕ) (pnl_sol : F)
      → (note_position_closed c clock now now_unix pnl_sol).cfg ≡ c.cfg
  unfolding note_position_closed roll_day_if_needed
  note_closed-cfg c clock now now_unix pnl_sol = ground arith
