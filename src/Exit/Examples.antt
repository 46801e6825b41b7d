-- ===== src/Exit/Examples.antt =====
-- A concrete configuration, position and history, for the tests of the exit engine.
use automatamain.Base.{ℕ, ◌*◌, true, false, none, some, List, [], ◌∷◌}
use automatamain.Base.Int.{pos, neg}
use automatamain.Base.Float.{Fixed, fixed_float}
use automatamain.Exit.Types.{
  ExitTpProfile, ExitEngineV4Config, SmartBuyConfig, Position, neutral, exploration,
}
use automatamain.Exit.Tick.Observe.{View}
use automatamain.Exit.Messages.{Event, round, market, sale, failed, sold}

-- A whole number, and one below zero, as values of the concrete `f64`.
abbrev pub whole : ℕ → Fixed
whole n = some (pos (n * 1_000_000))

abbrev pub minus : ℕ → Fixed
minus n = some (neg (n * 1_000_000))

abbrev pub levels : ExitTpProfile Fixed
levels = record {
  tp1_pct = whole 20;
  tp1_sell_pct = whole 30;
  tp2_pct = whole 60;
  tp2_sell_pct = whole 25;
  tp3_pct = whole 100;
  tp3_sell_pct = whole 20;
  tp4_pct = whole 200;
  tp4_sell_pct = whole 20;
  tp5_pct = whole 400;
  tp5_sell_pct = whole 20;
  trailing_stop_drawdown_pct = whole 20;
  trailing_activate_profit_pct = whole 80;
  trailing_floor_profit_pct = whole 35;
  smart_stop_activate_profit_pct = whole 50;
  smart_stop_floor_profit_pct = whole 5;
}

abbrev pub engine : ExitEngineV4Config Fixed
engine = record {
  enabled = true;
  live_score_refresh_secs = 2;
  exit_grace_secs = 8;
  exit_grace_secs_tier_a = 0;
  exit_grace_secs_tier_a_plus = 0;
  decay_early_hold_secs = 30;
  decay_early_mcap_profit_min_pct = whole 10;
  decay_early_extra_confirm_ticks = 2;
  a_plus_time_kill_min_secs = 60;
  a_plus_time_kill_mcap_profit_min_pct = whole 5;
  tier_a_time_kill_defer_min_secs = 0;
  tier_a_time_kill_defer_mcap_min_pct = minus 20;
  weak_profile = levels;
  neutral_profile = levels;
  strong_profile = levels;
  runner_profile = levels;
  hold_min_live_score = pos 15;
  hold_min_b2s = whole 2;
  hold_min_smart = 5;
  hold_max_bundle_similar = whole 1;
  hold_momentum_overheated_pct = whole 90;
  phase_momentum_min_score = pos 6;
  phase_expansion_min_score = pos 10;
  phase_distribution_max_score = neg 3;
  strong_time_kill_min_profit_after_tp = whole 5;
  momentum_decay_exit_enabled = true;
  profit_staircase_enabled = true;
  runtime_runner_upgrade_enabled = true;
  runner_upgrade_min_live_score = pos 12;
  re_expansion_enabled = true;
  re_expansion_min_score = pos 10;
  re_expansion_min_profit_pct = whole 30;
  adaptive_moonbag_enabled = true;
  bundle_similar_tolerance = whole 0;
  decay_confirm_ticks = 3;
  flush_drop_pct = whole 12;
  recovery_min_score = pos 3;
}

abbrev pub config : SmartBuyConfig Fixed
config = record {
  tp1_pct = whole 20;
  tp1_sell_pct = whole 30;
  tp2_pct = whole 60;
  tp2_sell_pct = whole 25;
  tp3_pct = whole 100;
  tp3_sell_pct = whole 20;
  tp4_pct = whole 200;
  tp4_sell_pct = whole 20;
  tp5_pct = whole 400;
  tp5_sell_pct = whole 20;
  time_kill_secs = 30;
  time_kill_min_profit_pct = whole 5;
  time_kill_adaptive = true;
  time_kill_weak_secs = 22;
  time_kill_strong_secs = 60;
  time_kill_neutral_secs = 30;
  time_kill_strong_min_buyers = 25;
  time_kill_strong_min_b2s = whole 2;
  time_kill_weak_max_buyers = 8;
  time_kill_weak_max_b2s = whole 1;
  time_kill_vel_strong = whole 1;
  time_kill_vel_flat = whole 1;
  time_kill_early_green_pct = whole 5;
  time_kill_peak_dd_for_weak = whole 1;
  trailing_stop_drawdown_pct = whole 20;
  sl_confirm_ticks = 3;
  sl_grace_secs = 5;
  sl_crash_pnl_pct = minus 30;
  sl_crash_tick_drop_pct = whole 25;
  exit_mcap_median_ticks = 3;
  exit_mcap_band_low_ratio = whole 0;
  exit_mcap_band_high_ratio = whole 3;
  mcap_ceiling_sol = whole 500;
  mcap_ceiling_partial_sell_pct = whole 50;
  exit_v4 = engine;
}

-- Bought at 40 SOL at second 1000, and now at 50 SOL.
abbrev pub opened : Position Fixed
opened = record {
  pool_mcap = whole 50;
  enter_mcap = whole 40;
  highest_mcap = whole 40;
  exit_profit_floor = minus 20;
  tp1_triggered = false;
  tp2_triggered = false;
  tp3_triggered = false;
  tp4_triggered = false;
  tp5_triggered = false;
  mcap_ceiling_triggered = false;
  trailing_active = false;
  is_closing = false;
  pending_partial_sell = false;
  entry_time = 1000;
  learning_snapshot = none;
  tk_entry_buyers = 30;
  tk_entry_smart = 1;
  tk_entry_b2s = whole 3;
  tk_last_secs = 0;
  tk_last_mcap = whole 0;
  tk_prev_secs = 0;
  tk_prev_mcap = whole 0;
  last_time_kill_after_secs = 30;
  exit_profile = neutral;
  hold_mode = false;
  exit_phase = exploration;
  live_score = pos 1;
  live_prev_velocity = whole 0;
  live_buyers_per_sec = whole 0;
  live_prev_buyers_per_sec = whole 0;
  last_live_score_at = 1000;
  live_score_entry_floor = pos 1;
  peak_profit_pct = whole 0;
  live_tape_seen = false;
  exit_mcap_ticks = [];
  sl_below_floor_streak = 0;
  decay_streak = 0;
  flush_active = false;
  flush_low_mcap = whole 0;
  recovery_score = pos 0;
  sl_prev_raw_mcap = none;
  use_jupiter_exit_mcap = false;
  exit_mcap_jupiter = none;
  last_exit_mcap_poll_at = 0;
}

-- A calm round out of the grace, with a loss of 25 per cent.
abbrev pub losing : View Fixed
losing = record {
  current_time = 1010;
  raw_mcap = whole 30;
  current_mcap = whole 30;
  profit = minus 25;
  profit_raw = minus 25;
  sl_profit = minus 25;
  tick_drop = none;
  vel = whole 0;
  held_secs = 10;
  entry_tier = [];
  mcap_pnl_pct = minus 25;
  is_a_plus = false;
  in_grace = false;
}

-- A first level that fails, and then is reached again.
abbrev pub life : List (Event Fixed)
life =
    round config 1010 false
    ∷ sale (whole 30) failed
    ∷ market (whole 52)
    ∷ round config 1011 false
    ∷ sale (whole 30) sold
    ∷ []
