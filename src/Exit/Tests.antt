-- ===== src/Exit/Tests.antt =====
-- The theorems of the exit engine at concrete positions and configurations.
use automatamain.Base.{
  ◌+◌, ◌≤◌, ◌<◌, ◌≡◌, arith, true, false, none, some, List, [], ◌∷◌, refl, length, keep, ◌≢◌,
}
use automatamain.Base.Float.{Fixed, fixed_float, Fixed-IsFloat}
use automatamain.Exit.Types.{SmartBuyConfig, Position, LiveMetrics}
use automatamain.Exit.Tape.{exit_mcap_valid}
use automatamain.Exit.Rules.{sl_crash_triggered, profit_lock_staircase_floor}
use automatamain.Exit.Tick.{tick}
use automatamain.Exit.Tick.Observe.{View, raise_to_staircase}
use automatamain.Exit.Tick.Flags.{WhileOpen, Answers}
use automatamain.Exit.Tick.Order.{tick-Answers}
use automatamain.Exit.Tick.Stops.{stop_loss_rule}
use automatamain.Exit.Tick.Floors.{
  sl_rounds, sl_rounds_confirm, sl_close, staircase_protects, sl_confirm_truncated, Breaks,
}
use automatamain.Exit.Messages.{history}
use automatamain.Exit.History.{count_level, history_sells_level_once}
use automatamain.Exit.Flight.{count_sales, answers, history_one_in_flight}
use automatamain.Exit.Entry.{in_sl_grace_period}
use automatamain.Exit.Examples.{whole, minus, config, opened, losing, life}

history_sells_level_once_example : count_level 1 (history life (some opened)) ≤ 1
history_sells_level_once_example = history_sells_level_once 1 life opened

history_one_in_flight_example : count_sales true (history life (some opened)) ≤ 1 + answers life
history_one_in_flight_example = history_one_in_flight true life opened

tick-Answers_example :
    WhileOpen opened (tick config 1010 false opened)
    × Answers opened (tick config 1010 false opened)
tick-Answers_example = tick-Answers config 1010 false opened

losing-Breaks : Breaks config opened.exit_profit_floor losing
unfolding sl_crash_triggered in_sl_grace_period
losing-Breaks = record { no_crash = refl; out_of_grace = omega arith; below = refl }

sl_rounds_confirm_example : sl_rounds config (losing ∷ losing ∷ losing ∷ []) opened ≡ some sl_close
sl_rounds_confirm_example =
    sl_rounds_confirm config (losing ∷ losing ∷ losing ∷ []) opened (omega arith) (omega arith)
      (losing-Breaks, (losing-Breaks, (losing-Breaks, tt)))

-- A position whose profit has been 120 per cent, and a round at 35 per cent.
abbrev peaked : Position Fixed
peaked = record opened { peak_profit_pct = whole 120 }

abbrev falling : View Fixed
falling = record losing { profit = whole 35; profit_raw = whole 35; sl_profit = whole 35 }

abbrev one_tick : SmartBuyConfig Fixed
one_tick = record config { sl_confirm_ticks = 1 }

staircase_protects_example :
    (stop_loss_rule one_tick falling (raise_to_staircase one_tick peaked)).1 ≡ some sl_close
unfolding sl_crash_triggered in_sl_grace_period profit_lock_staircase_floor
staircase_protects_example =
    staircase_protects Fixed-IsFloat one_tick falling peaked (whole 40) refl refl (omega arith) refl
      refl (omega arith) refl refl

abbrev many_ticks : SmartBuyConfig Fixed
many_ticks = record config { sl_confirm_ticks = 256 }

sl_confirm_truncated_example : (stop_loss_rule many_ticks falling opened).1 ≡ some sl_close
unfolding sl_crash_triggered in_sl_grace_period
sl_confirm_truncated_example =
    sl_confirm_truncated many_ticks falling opened 0 (omega arith) (omega arith) refl

abbrev crashing : View Fixed
crashing = record losing { held_secs = 1; sl_profit = minus 40; profit_raw = minus 40 }

crash_closes : (stop_loss_rule config crashing opened).1 ≢ none
unfolding stop_loss_rule sl_crash_triggered in_sl_grace_period
crash_closes h = ground arith

abbrev good_metrics : LiveMetrics Fixed
good_metrics = record {
  buyers_per_sec = whole 5;
  smart_wallet_count = 4;
  buy_sell_ratio = whole 3;
  holder_growth_rate = whole 2;
  volume_delta = whole 1;
  liquidity_delta = whole 0;
  sell_pressure_score = whole 2;
  smart_wallet_exits = 1;
  momentum_decay = false;
  volume_decay = false;
  bundle_detected = true;
  momentum_overheated = false;
}

abbrev ticks : List Fixed
ticks = whole 48 ∷ whole 0 ∷ whole 52 ∷ []

some_valid : 0 < length (keep exit_mcap_valid ticks)
unfolding exit_mcap_valid
some_valid = omega arith
