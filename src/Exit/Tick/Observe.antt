-- ===== src/Exit/Tick/Observe.antt =====
-- What a round observes before its rules: the tape, the profit, the live score, the staircase and
-- the window of the time kill.
use automatamain.Base.{ℕ, ◌-◌, max, Bool, ◌&&◌, ◌||◌, not, Option, none, some, if◌then◌else◌, leb}
use automatamain.Base.Int.{max_ℤ}
use automatamain.Base.Float.{Float, flt, int}
use automatamain.Base.Text.{Text, text}
use automatamain.Exit.Types.{Position, SmartBuyConfig, ExitTpProfile, profile_params}
use automatamain.Exit.Entry.{
  entry_tier_is_a_plus, in_exit_grace_period_tier, tier_a_time_kill_defer_floor_secs,
}
use automatamain.Exit.Metrics.{live_metrics_lite, calculate_live_score, from_snap}
use automatamain.Exit.Rules.{
  sl_trigger_pnl_pct, transition_position_phase, maybe_upgrade_runner, profit_lock_staircase_floor,
  apply_phase_to_tp, adaptive_trailing,
}
use automatamain.Exit.Tape.{
  exit_raw_mcap, push_exit_mcap_tick, filtered_market_cap, time_kill_note_mcap_sample, pnl_filtered,
  pnl_at_mcap, sl_raw_tick_drop_pct, time_kill_mcap_velocity_pct_per_sec,
}
use automatamain.Exit.Window.{time_kill_window_profile}

-- The local variables of a round.
pub record View (F : Type 0) : Type 0 where
  pub current_time : ℕ
  pub raw_mcap : F
  pub current_mcap : F
  pub profit : F
  pub profit_raw : F
  pub sl_profit : F
  pub tick_drop : Option F
  pub vel : F
  pub held_secs : ℕ
  pub entry_tier : Text
  pub mcap_pnl_pct : F
  pub is_a_plus : Bool
  pub in_grace : Bool

at_least : Option ℕ → ℕ → ℕ
at_least none n = n
at_least (some floor) n = max n floor

module _ {F : Type 0} ⦃fl : Float F⦄ where
  open fl use {fle}

  -- The background poll of the market value; `has_rpc` says that there is a client for it.
  unfoldable pub poll : ℕ → Bool → Position F → Position F
  poll current_time has_rpc p =
      if (p.use_jupiter_exit_mcap || p.mcap_ceiling_triggered || fle (int 150) p.pool_mcap)
        && leb 3 (current_time - p.last_exit_mcap_poll_at)
        && has_rpc
      then record p { last_exit_mcap_poll_at = current_time }
      else p

  -- The position with the tick, the high and the second's sample noted.
  note_tape : SmartBuyConfig F → ℕ → Position F → Position F
  note_tape cfg current_time p₀ =
      let raw_mcap = exit_raw_mcap p₀ in
      let p₁ = push_exit_mcap_tick p₀ raw_mcap cfg.exit_mcap_median_ticks in
      let current_mcap =
        filtered_market_cap p₁ cfg.exit_mcap_band_low_ratio cfg.exit_mcap_band_high_ratio in
      let p₂ =
        if flt p₁.highest_mcap current_mcap
        then record p₁ { highest_mcap = current_mcap }
        else p₁ in
      time_kill_note_mcap_sample p₂ current_time current_mcap

  abbrev drop_from : Option F → F → Option F
  drop_from none raw = none
  drop_from (some prev) raw = sl_raw_tick_drop_pct prev raw

  -- What the rules read, of the position before its peak is raised.
  view : SmartBuyConfig F → ℕ → Position F → View F
  view cfg current_time p =
      let lo = cfg.exit_mcap_band_low_ratio in
      let hi = cfg.exit_mcap_band_high_ratio in
      let raw_mcap = exit_raw_mcap p in
      let profit = pnl_filtered p lo hi in
      let profit_raw = pnl_at_mcap p raw_mcap in
      let entry_tier = from_snap p.learning_snapshot (λ s. s.tier) (text "") in
      let held_secs = current_time - p.entry_time in
      record {
        current_time = current_time;
        raw_mcap = raw_mcap;
        current_mcap = filtered_market_cap p lo hi;
        profit = profit;
        profit_raw = profit_raw;
        sl_profit = sl_trigger_pnl_pct profit profit_raw;
        tick_drop = drop_from p.sl_prev_raw_mcap raw_mcap;
        vel = time_kill_mcap_velocity_pct_per_sec p p.enter_mcap;
        held_secs = held_secs;
        entry_tier = entry_tier;
        mcap_pnl_pct = pnl_at_mcap p (exit_raw_mcap p);
        is_a_plus = entry_tier_is_a_plus entry_tier;
        in_grace =
            cfg.exit_v4.enabled && in_exit_grace_period_tier held_secs entry_tier cfg.exit_v4;
      }

  unfoldable pub observe : SmartBuyConfig F → ℕ → Position F → Position F × View F
  unfolding note_tape view
  observe cfg current_time p₀ =
      let p = note_tape cfg current_time p₀ in
      let v = view cfg current_time p in
      (
        record p {
          sl_prev_raw_mcap = some v.raw_mcap;
          peak_profit_pct = if flt p.peak_profit_pct v.profit then v.profit else p.peak_profit_pct;
        },
        v,
      )

  unfoldable pub refresh_live_score : SmartBuyConfig F → View F → Position F → Position F
  refresh_live_score cfg v p =
      let c = cfg.exit_v4 in
      let metrics = live_metrics_lite p v.vel v.profit p.learning_snapshot c in
      let score = max_ℤ (calculate_live_score metrics) p.live_score_entry_floor in
      let upgraded = maybe_upgrade_runner c p.exit_profile metrics score p.hold_mode in
      if c.enabled
        && not v.in_grace
        && leb c.live_score_refresh_secs (v.current_time - p.last_live_score_at)
        && not p.live_tape_seen
      then record p {
        live_score = score;
        live_prev_velocity = v.vel;
        last_live_score_at = v.current_time;
        exit_phase = transition_position_phase p.exit_phase score metrics.momentum_decay v.profit c;
        exit_profile = upgraded.0;
        hold_mode = upgraded.1;
      }
      else p

  unfoldable pub raise_floor : Option F → Position F → Position F
  raise_floor none p = p
  raise_floor (some floor) p =
      if flt p.exit_profit_floor floor then record p { exit_profit_floor = floor } else p

  unfoldable pub raise_to_staircase : SmartBuyConfig F → Position F → Position F
  unfolding raise_floor
  raise_to_staircase cfg p =
      if cfg.exit_v4.enabled && cfg.exit_v4.profit_staircase_enabled
      then raise_floor (profit_lock_staircase_floor p.peak_profit_pct) p
      else p

  -- The seconds after which a position without enough profit is closed.
  unfoldable pub kill_after_secs : SmartBuyConfig F → View F → Position F → ℕ
  unfolding at_least
  kill_after_secs cfg v p =
      let c = cfg.exit_v4 in
      let base = (time_kill_window_profile cfg p v.profit v.current_mcap v.held_secs).0 in
      let longer =
        if c.enabled && v.is_a_plus then max base c.a_plus_time_kill_min_secs else base in
      if c.enabled
      then at_least
          (tier_a_time_kill_defer_floor_secs c v.entry_tier p.learning_snapshot v.mcap_pnl_pct)
          longer
      else longer

  unfoldable pub note_window : SmartBuyConfig F → View F → Position F → Position F
  note_window cfg v p = record p { last_time_kill_after_secs = kill_after_secs cfg v p }

  unfoldable pub tp_profile : SmartBuyConfig F → Position F → ExitTpProfile F
  tp_profile cfg p =
      if cfg.exit_v4.enabled
      then apply_phase_to_tp (profile_params cfg.exit_v4 p.exit_profile) p.exit_phase
      else record {
        tp1_pct = cfg.tp1_pct;
        tp1_sell_pct = cfg.tp1_sell_pct;
        tp2_pct = cfg.tp2_pct;
        tp2_sell_pct = cfg.tp2_sell_pct;
        tp3_pct = cfg.tp3_pct;
        tp3_sell_pct = cfg.tp3_sell_pct;
        tp4_pct = cfg.tp4_pct;
        tp4_sell_pct = cfg.tp4_sell_pct;
        tp5_pct = cfg.tp5_pct;
        tp5_sell_pct = cfg.tp5_sell_pct;
        trailing_stop_drawdown_pct = cfg.trailing_stop_drawdown_pct;
        trailing_activate_profit_pct = int 80;
        trailing_floor_profit_pct = int 35;
        smart_stop_activate_profit_pct = int 50;
        smart_stop_floor_profit_pct = int 5;
      }

  unfoldable pub trailing_drawdown_pct : SmartBuyConfig F → View F → Position F → F
  trailing_drawdown_pct cfg v p =
      if cfg.exit_v4.enabled
      then adaptive_trailing p.exit_profile p.live_score v.profit
      else (tp_profile cfg p).trailing_stop_drawdown_pct
