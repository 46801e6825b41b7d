-- ===== src/Exit/Tick/Stops.antt =====
-- The rules that close a position: momentum decay, time kill and stop loss.
use automatamain.Base.{
  ℕ, ◌+◌, ◌%◌, ◌^◌, max, min, Bool, true, false, ◌&&◌, ◌||◌, not, Option, none, some, if◌then◌else◌,
  ltb, leb,
}
use automatamain.Base.Int.{leb_ℤ}
use automatamain.Base.Float.{Float, flt, int, milli}
use automatamain.Exit.Types.{
  Position, SmartBuyConfig, Action, CloseReason, ExitProfile, strong, runner,
}
use automatamain.Exit.Entry.{in_sl_grace_period}
use automatamain.Exit.Metrics.{
  live_metrics_lite, momentum_decay_detected, recovery_score, from_snap,
}
use automatamain.Exit.Rules.{is_distribution, sl_crash_triggered}
use automatamain.Exit.Tick.Rule.{Rule}
use automatamain.Exit.Tick.Observe.{View}

-- Counters of ticks are u8 and saturate.
abbrev pub saturating_add_u8 : ℕ → ℕ → ℕ
saturating_add_u8 a b = min (a + b) 255

abbrev is_strong : ExitProfile → Bool
is_strong strong = true
is_strong runner = true
is_strong _ = false

module _ {F : Type 0} ⦃fl : Float F⦄ where
  open fl use {fle, fmul, fsub, fdiv}

  abbrev pub full_close : CloseReason → Bool → Position F → Position F × Option (Action F)
  full_close reason urgent p = (
    record p { is_closing = true },
    some (record { percent = int 100; reason = reason; urgent = urgent }),
  )

  -- The flush: opened by a drawdown from the high, closed when the high is reclaimed.
  unfoldable pub track_flush : SmartBuyConfig F → View F → Rule F
  track_flush cfg v p =
      let drawdown =
        if flt (int 0) p.highest_mcap
        then fmul (fdiv (fsub p.highest_mcap v.current_mcap) p.highest_mcap) (int 100)
        else int 0 in
      (
        if fle cfg.exit_v4.flush_drop_pct drawdown
            then if not p.flush_active
              then record p { flush_active = true; flush_low_mcap = v.current_mcap }
              else if flt v.current_mcap p.flush_low_mcap
              then record p { flush_low_mcap = v.current_mcap }
              else p
            else if fle (fmul p.highest_mcap (milli 990)) v.current_mcap
            then record p { flush_active = false }
            else p,
        none,
      )

  unfoldable pub is_early_green : SmartBuyConfig F → View F → Bool
  is_early_green cfg v =
      ltb v.held_secs cfg.exit_v4.decay_early_hold_secs
      && fle cfg.exit_v4.decay_early_mcap_profit_min_pct v.mcap_pnl_pct

  -- Whether this tick counts towards a decay exit.
  unfoldable pub decays_now : SmartBuyConfig F → View F → Position F → Bool
  decays_now cfg v p =
      let sell_pressure = from_snap p.learning_snapshot (λ s. s.sell_pressure_score) (int 0) in
      let velocity_decay =
        momentum_decay_detected p.live_buyers_per_sec p.live_prev_buyers_per_sec sell_pressure
          v.vel in
      let distribution_decay =
        is_distribution p.exit_phase
        && leb_ℤ p.live_score cfg.exit_v4.phase_distribution_max_score in
      if is_early_green cfg v && distribution_decay && not velocity_decay
      then false
      else velocity_decay || distribution_decay

  unfoldable pub decay_confirm_needed : SmartBuyConfig F → View F → ℕ
  decay_confirm_needed cfg v =
      let c = cfg.exit_v4 in
      max
        (if is_early_green cfg v
          then saturating_add_u8 c.decay_confirm_ticks c.decay_early_extra_confirm_ticks
          else c.decay_confirm_ticks)
        1

  -- The streak after this tick, with the recovery score that may reset it.
  unfoldable pub count_decay : SmartBuyConfig F → View F → Position F → Position F
  count_decay cfg v p₀ =
      let p = (track_flush cfg v p₀).0 in
      let metrics = live_metrics_lite p v.vel v.profit p.learning_snapshot cfg.exit_v4 in
      let score = recovery_score metrics v.current_mcap p.flush_low_mcap p.highest_mcap in
      let healthy_recovery = p.flush_active && leb_ℤ cfg.exit_v4.recovery_min_score score in
      record p {
        recovery_score = score;
        decay_streak =
            if decays_now cfg v p₀ && not healthy_recovery
            then saturating_add_u8 p.decay_streak 1
            else 0;
      }

  unfoldable pub momentum_decay_rule : SmartBuyConfig F → View F → Rule F
  momentum_decay_rule cfg v p =
      let q = count_decay cfg v p in
      if cfg.exit_v4.enabled
        && cfg.exit_v4.momentum_decay_exit_enabled
        && not v.in_grace
        && p.live_tape_seen
      then if leb (decay_confirm_needed cfg v) q.decay_streak
        then full_close CloseReason.momentum_decay false q
        else (q, none)
      else (p, none)

  unfoldable pub skips_time_kill : SmartBuyConfig F → View F → Position F → Bool
  skips_time_kill cfg v p =
      (cfg.exit_v4.enabled
        && is_strong p.exit_profile
        && (p.tp1_triggered || p.tp2_triggered)
        && fle cfg.exit_v4.strong_time_kill_min_profit_after_tp v.profit)
      || (cfg.exit_v4.enabled
          && v.is_a_plus
          && (ltb v.held_secs cfg.exit_v4.a_plus_time_kill_min_secs
              || fle cfg.exit_v4.a_plus_time_kill_mcap_profit_min_pct v.mcap_pnl_pct))

  unfoldable pub time_kill_rule : SmartBuyConfig F → View F → Rule F
  time_kill_rule cfg v p =
      if not (skips_time_kill cfg v p)
        && leb ((p.entry_time + p.last_time_kill_after_secs) % 2 ^ 64) v.current_time
        && flt v.profit cfg.time_kill_min_profit_pct
      then full_close CloseReason.time_kill false p
      else (p, none)

  -- The streak of ticks at or below the floor.
  unfoldable pub sl_streak : SmartBuyConfig F → View F → Position F → ℕ
  sl_streak cfg v p =
      if in_sl_grace_period v.held_secs cfg.sl_grace_secs
      then 0
      else if fle v.sl_profit p.exit_profit_floor
      then saturating_add_u8 p.sl_below_floor_streak 1
      else 0

  -- The confirmation is a u32 that is cast to u8.
  unfoldable pub stop_loss_rule : SmartBuyConfig F → View F → Rule F
  stop_loss_rule cfg v p =
      let in_sl_grace = in_sl_grace_period v.held_secs cfg.sl_grace_secs in
      let sl_confirm = max cfg.sl_confirm_ticks 1 in
      let q = record p { sl_below_floor_streak = sl_streak cfg v p } in
      if sl_crash_triggered v.sl_profit v.profit_raw v.tick_drop cfg.sl_crash_pnl_pct
        cfg.sl_crash_tick_drop_pct in_sl_grace
      then full_close CloseReason.sl_crash true p
      else if not in_sl_grace && leb (sl_confirm % 2 ^ 8) q.sl_below_floor_streak
      then full_close CloseReason.sl false q
      else (q, none)
