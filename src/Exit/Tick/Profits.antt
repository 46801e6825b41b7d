-- ===== src/Exit/Tick/Profits.antt =====
-- The rules that take profit: the ceiling of the bonding curve, trailing, and the levels.
use automatamain.Base.{ℕ, true, false, ◌&&◌, not, Option, none, some, if◌then◌else◌}
use automatamain.Base.Float.{Float, flt, fmax, clamp, int}
use automatamain.Exit.Types.{
  Position, SmartBuyConfig, Action, CloseReason, take_profit, ExitTpProfile,
}
use automatamain.Exit.Rules.{adaptive_moonbag_sell_pct}
use automatamain.Exit.Tick.Rule.{Rule, or_next}
use automatamain.Exit.Tick.Observe.{View, trailing_drawdown_pct}
use automatamain.Exit.Tick.Stops.{full_close}

module _ {F : Type 0} ⦃fl : Float F⦄ where
  open fl use {fle, fmul, fsub, fdiv}

  unfoldable pub ceiling_rule : SmartBuyConfig F → ExitTpProfile F → View F → Rule F
  ceiling_rule cfg tp v p =
      if flt (int 0) cfg.mcap_ceiling_sol
        && fle cfg.mcap_ceiling_sol v.current_mcap
        && not p.mcap_ceiling_triggered
        && not p.pending_partial_sell
      then (
        record p {
          mcap_ceiling_triggered = true;
          use_jupiter_exit_mcap = true;
          trailing_active = true;
          exit_profit_floor =
              if p.trailing_active
              then p.exit_profit_floor
              else fmax p.exit_profit_floor tp.trailing_floor_profit_pct;
          pending_partial_sell = true;
        },
        some (record {
          percent = clamp cfg.mcap_ceiling_partial_sell_pct (int 1) (int 99);
          reason = CloseReason.mcap_ceiling;
          urgent = false;
        }),
      )
      else (p, none)

  unfoldable pub trailing_rule : SmartBuyConfig F → View F → Rule F
  trailing_rule cfg v p =
      let keep_fraction = fsub (int 1) (fdiv (trailing_drawdown_pct cfg v p) (int 100)) in
      if p.trailing_active && fle v.current_mcap (fmul p.highest_mcap keep_fraction)
      then full_close CloseReason.trailing_exit false p
      else (p, none)

  -- The protection of a profit, which queues no sale.
  unfoldable pub upgrade_protection : ExitTpProfile F → View F → Rule F
  upgrade_protection tp v p = (
    if fle tp.trailing_activate_profit_pct v.profit
        then if not p.trailing_active
          then record p { trailing_active = true; exit_profit_floor = tp.trailing_floor_profit_pct }
          else p
        else if fle tp.smart_stop_activate_profit_pct v.profit
            && flt p.exit_profit_floor tp.smart_stop_floor_profit_pct
        then record p { exit_profit_floor = tp.smart_stop_floor_profit_pct }
        else p,
    none,
  )

  unfoldable pub moonbag_sell : SmartBuyConfig F → Position F → F → F
  moonbag_sell cfg p base =
      if cfg.exit_v4.enabled && cfg.exit_v4.adaptive_moonbag_enabled
      then adaptive_moonbag_sell_pct base p.live_score p.exit_phase
      else base

  abbrev partial : ℕ → F → Option (Action F)
  partial n percent = some (record { percent = percent; reason = take_profit n; urgent = false })

  -- The levels, each of which sells once.
  unfoldable pub tp1_rule : ExitTpProfile F → View F → Rule F
  tp1_rule tp v p =
      if fle tp.tp1_pct v.profit && not p.tp1_triggered
      then (
        record p { tp1_triggered = true; pending_partial_sell = true },
        partial 1 tp.tp1_sell_pct,
      )
      else (p, none)

  unfoldable pub tp2_rule : ExitTpProfile F → View F → Rule F
  tp2_rule tp v p =
      if fle tp.tp2_pct v.profit && not p.tp2_triggered
      then (
        record p { tp2_triggered = true; pending_partial_sell = true },
        partial 2 tp.tp2_sell_pct,
      )
      else (p, none)

  unfoldable pub tp3_rule : SmartBuyConfig F → ExitTpProfile F → View F → Rule F
  tp3_rule cfg tp v p =
      if fle tp.tp3_pct v.profit && not p.tp3_triggered
      then (
        record p { tp3_triggered = true; pending_partial_sell = true },
        partial 3 (moonbag_sell cfg p tp.tp3_sell_pct),
      )
      else (p, none)

  unfoldable pub tp4_rule : SmartBuyConfig F → ExitTpProfile F → View F → Rule F
  tp4_rule cfg tp v p =
      if fle tp.tp4_pct v.profit && not p.tp4_triggered
      then (
        record p { tp4_triggered = true; pending_partial_sell = true },
        partial 4 (moonbag_sell cfg p tp.tp4_sell_pct),
      )
      else (p, none)

  unfoldable pub tp5_rule : SmartBuyConfig F → ExitTpProfile F → View F → Rule F
  tp5_rule cfg tp v p =
      if fle tp.tp5_pct v.profit && not p.tp5_triggered
      then (
        record p { tp5_triggered = true; pending_partial_sell = true },
        partial 5 (moonbag_sell cfg p tp.tp5_sell_pct),
      )
      else (p, none)

  -- The levels in their order, while no partial sale is in flight.
  unfoldable pub take_profit_rule : SmartBuyConfig F → ExitTpProfile F → View F → Rule F
  take_profit_rule cfg tp v p =
      if p.pending_partial_sell
      then (p, none)
      else or_next
          (or_next (or_next (or_next (tp1_rule tp v p) (tp2_rule tp v)) (tp3_rule cfg tp v))
            (tp4_rule cfg tp v))
          (tp5_rule cfg tp v)
