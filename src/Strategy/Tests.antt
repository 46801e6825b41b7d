-- ===== src/Strategy/Tests.antt =====
-- A configured gate, and the theorems on the gate at it.
use automatamain.Base.{ℕ, ◌+◌, ◌≤◌, ◌≡◌, ◌≢◌, arith, true, false, none, some, List, [], ◌∷◌, refl}
use automatamain.Base.Int.{pos, neg}
use automatamain.Base.Float.{Fixed, fixed_float}
use automatamain.Strategy.{
  StrategyConfig, StrategyController, current_day, allow, can_open, note_position_closed,
}
use automatamain.Strategy.Budget.{try_buys, counted_on, allowed_in, day_budget}
use automatamain.Strategy.Outcomes.{loss_streak_blocks}

abbrev limits : StrategyConfig Fixed
limits = record {
  max_open_positions = 3;
  max_trades_per_day = 2;
  max_daily_loss_sol = some (neg 1_000_000);
  daily_profit_lock_sol = some (pos 5_000_000);
  loss_streak_limit = 2;
  loss_streak_pause_secs = 600;
  market_regime_pause = true;
  market_regime_window = 4;
  market_regime_loss_ratio = some (pos 750_000);
  market_regime_pause_secs = 300;
}

-- After one loss on the first day.
abbrev pub gate : StrategyController Fixed
gate = record {
  cfg = limits;
  day_unix = 86_400;
  daily_trades = 1;
  daily_pnl_sol = some (neg 100_000);
  loss_streak = 1;
  paused_until_unix = 0;
  recent_outcomes = false ∷ [];
  last_block_reason = none;
}

-- Three attempts on one day, of which the budget leaves room for one.
abbrev attempts : List (ℕ × ℕ × ℕ)
attempts = (90_000, 90_001, 1) ∷ (90_100, 90_101, 2) ∷ (90_200, 90_201, 2) ∷ []

day_budget_example :
    (counted_on 86_400 (try_buys gate attempts) ≡ counted_on 86_400 gate + allowed_in gate attempts)
    × (counted_on 86_400 gate + allowed_in gate attempts ≤ gate.cfg.max_trades_per_day)
unfolding current_day
day_budget_example =
    day_budget 86_400 gate attempts (omega arith) (omega arith) (refl, (refl, (refl, tt)))

loss_streak_blocks_example :
    (can_open
      (note_position_closed gate 90_000 90_000 90_001 (some (neg 20_000)))
      90_100
      90_200
      0).1
    ≢ allow
loss_streak_blocks_example =
    loss_streak_blocks gate 90_000 90_000 90_001 (some (neg 20_000)) refl (omega arith)
      (omega arith) (omega arith) 90_100 90_200 0 (omega arith)
