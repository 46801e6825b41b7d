-- ===== src/Strategy/Gate.antt =====
-- When the gate opens.
use automatamain.Base.{ℕ, ◌+◌, ◌%◌, ◌^◌, ◌≤◌, ◌<◌, ◌≡◌, ◌≢◌, ◌↔◌, arith, false, refl}
use automatamain.Base.Float.{Float}
use automatamain.Strategy.{
  StrategyController, allow, block_regime, roll_day_if_needed, can_open, note_position_opened,
}

module _ {F : Type 0} ⦃fl : Float F⦄ where
  open fl use {fle}

  -- Nothing stands against a buy: room for a position, trades left today, the day's result strictly
  -- between the loss cap and the profit lock, and no pause.
  pub record IsOpen (c : StrategyController F) (now currently_open : ℕ) : Type 0 where
    pub room : currently_open < c.cfg.max_open_positions
    pub budget : c.daily_trades < c.cfg.max_trades_per_day
    pub above_loss_cap : fle c.daily_pnl_sol c.cfg.max_daily_loss_sol ≡ false
    pub below_profit_lock : fle c.cfg.daily_profit_lock_sol c.daily_pnl_sol ≡ false
    pub not_paused : c.paused_until_unix ≤ now

  can_open-IsOpen :
      (c : StrategyController F) (clock now open_count : ℕ)
      → (can_open c clock now open_count).1 ≡ allow
      → IsOpen (roll_day_if_needed c clock) now open_count
  unfolding can_open
  can_open-IsOpen c clock now open_count h = ground arith

  IsOpen-can_open :
      (c : StrategyController F) (clock now open_count : ℕ)
      → IsOpen (roll_day_if_needed c clock) now open_count
      → (can_open c clock now open_count).1 ≡ allow
  unfolding can_open
  IsOpen-can_open c clock now open_count h = ground arith

  -- A buy is allowed exactly when nothing stands against it once the day has been rolled.
  pub can_open_iff :
      (c : StrategyController F) (clock now open_count : ℕ)
      → ((can_open c clock now open_count).1 ≡ allow)
        ↔ IsOpen (roll_day_if_needed c clock) now open_count
  can_open_iff c clock now open_count =
      (can_open-IsOpen c clock now open_count, IsOpen-can_open c clock now open_count)

  -- The gate never answers with the regime's own reason: a regime pause is reported as a streak.
  can_open-ne-block_regime :
      (c : StrategyController F) (clock now open_count : ℕ)
      → (can_open c clock now open_count).1 ≢ block_regime
  unfolding can_open
  can_open-ne-block_regime c clock now open_count h = ground arith

  -- A gate that allows has rolled the day.
  pub can_open-rolled :
      (c : StrategyController F) (clock now open_count : ℕ)
      → (can_open c clock now open_count).1 ≡ allow
      → (can_open c clock now open_count).0 ≡ roll_day_if_needed c clock
  unfolding can_open
  can_open-rolled c clock now open_count h = ground (arith, h)

  pub opened-count :
      (c : StrategyController F) (clock : ℕ)
      → (note_position_opened c clock).daily_trades
        ≡ ((roll_day_if_needed c clock).daily_trades + 1) % 2 ^ 32
  unfolding note_position_opened
  opened-count c clock = refl
