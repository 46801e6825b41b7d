-- ===== src/Exit/Rules.antt =====
-- Trailing, the profit staircase, phases, profiles and the time-kill window.
use automatamain.Base.{
  ℕ, ◌+◌, max, Bool, true, false, ◌&&◌, ◌||◌, not, Option, none, some, if◌then◌else◌, ltb, leb,
  ◌==◌,
}
use automatamain.Base.Int.{ℤ, pos, quot, max_ℤ, leb_ℤ}
use automatamain.Base.Float.{Float, flt, fmax, fmin, int, milli}
use automatamain.Base.Text.{Text, text, to_ascii_lowercase, contains, text_eq}
use automatamain.Exit.Types.{
  ExitProfile, weak, neutral, strong, runner, PositionPhase, exploration, momentum, expansion,
  distribution, ExitTpProfile, ExitEngineV4Config, LiveMetrics, LearningTradeSnapshot, Position,
  TkEntryThresholds,
}
use automatamain.Exit.Metrics.{
  should_enable_hold_mode, live_metrics_lite, calculate_live_score, from_snap,
}

unfoldable pub is_distribution : PositionPhase → Bool
is_distribution distribution = true
is_distribution _ = false

-- `matches!(phase, Expansion | Momentum)`.
is_climbing : PositionPhase → Bool
is_climbing expansion = true
is_climbing momentum = true
is_climbing _ = false

-- `matches!(profile, Strong | Neutral)`.
unfoldable pub may_become_runner : ExitProfile → Bool
may_become_runner strong = true
may_become_runner neutral = true
may_become_runner _ = false

-- The profiles of an A+ entry, and of an A entry.
a_plus_bias : ExitProfile → ExitProfile
a_plus_bias weak = strong
a_plus_bias _ = runner

a_bias : ExitProfile → ExitProfile
a_bias weak = strong
a_bias neutral = strong
a_bias p = p

unfoldable pub ml_profile_bias : Text → ExitProfile → ExitProfile
unfolding a_plus_bias a_bias
ml_profile_bias tier base =
    let t = to_ascii_lowercase tier in
    if contains t (text "aplus") || contains t (text "a+")
    then a_plus_bias base
    else if text_eq t (text "a")
    then a_bias base
    else base

-- One vote for each sign of a strong, or of a weak, entry.
abbrev pub vote : Bool → ℕ
vote b = if b then 1 else 0

module _ {F : Type 0} ⦃fl : Float F⦄ where
  open fl use {fle, fmul}

  unfoldable pub sl_trigger_pnl_pct : F → F → F
  sl_trigger_pnl_pct filtered_pnl_pct raw_pnl_pct = fmin filtered_pnl_pct raw_pnl_pct

  drop_at_least : Option F → F → Bool
  drop_at_least none bound = false
  drop_at_least (some d) bound = fle bound d

  unfoldable pub sl_crash_triggered : F → F → Option F → F → F → Bool → Bool
  unfolding drop_at_least
  sl_crash_triggered trigger_pnl raw_pnl tick_drop crash_pnl crash_tick_drop in_sl_grace =
      if fle trigger_pnl crash_pnl
      then true
      else if in_sl_grace
      then false
      else drop_at_least tick_drop crash_tick_drop && flt raw_pnl (int 0)

  unfoldable pub profile_floor : ExitProfile → F
  profile_floor weak = int 14
  profile_floor neutral = int 18
  profile_floor strong = int 22
  profile_floor runner = int 38

  unfoldable pub adaptive_trailing : ExitProfile → ℤ → F → F
  unfolding profile_floor
  adaptive_trailing profile live_score profit_pct =
      let doc =
        if leb_ℤ (pos 15) live_score
        then int 40
        else if leb_ℤ (pos 11) live_score
        then int 24
        else if flt (int 50) profit_pct
        then int 18
        else int 14 in
      fmin (fmax doc (profile_floor profile)) (int 45)

  unfoldable pub profit_lock_staircase_floor : F → Option F
  profit_lock_staircase_floor peak_profit_pct =
      if fle (int 400) peak_profit_pct
      then some (int 180)
      else if fle (int 200) peak_profit_pct
      then some (int 90)
      else if fle (int 100) peak_profit_pct
      then some (int 40)
      else if fle (int 50) peak_profit_pct
      then some (int 15)
      else none

  unfoldable pub transition_position_phase :
      PositionPhase → ℤ → Bool → F → ExitEngineV4Config F → PositionPhase
  transition_position_phase current live_score momentum_decay profit_pct c =
      if c.re_expansion_enabled
        && is_distribution current
        && leb_ℤ c.re_expansion_min_score live_score
        && fle c.re_expansion_min_profit_pct profit_pct
      then expansion
      else if momentum_decay || leb_ℤ live_score c.phase_distribution_max_score
      then distribution
      else if leb_ℤ c.phase_expansion_min_score live_score
      then expansion
      else if leb_ℤ c.phase_momentum_min_score live_score
      then momentum
      else exploration

  unfoldable pub apply_phase_to_tp : ExitTpProfile F → PositionPhase → ExitTpProfile F
  apply_phase_to_tp base exploration = base
  apply_phase_to_tp base momentum = record base {
    trailing_activate_profit_pct = fmul base.trailing_activate_profit_pct (milli 1050);
  }
  apply_phase_to_tp base expansion = record base {
    trailing_stop_drawdown_pct = fmin (fmul base.trailing_stop_drawdown_pct (milli 1120)) (int 45);
    tp3_sell_pct = fmul base.tp3_sell_pct (milli 850);
    tp4_sell_pct = fmul base.tp4_sell_pct (milli 850);
    tp5_sell_pct = fmul base.tp5_sell_pct (milli 850);
  }
  apply_phase_to_tp base distribution = record base {
    tp1_sell_pct = fmin (fmul base.tp1_sell_pct (milli 1200)) (int 55);
    tp2_sell_pct = fmin (fmul base.tp2_sell_pct (milli 1150)) (int 50);
    trailing_activate_profit_pct = fmul base.trailing_activate_profit_pct (milli 850);
  }

  unfoldable pub adaptive_moonbag_sell_pct : F → ℤ → PositionPhase → F
  unfolding is_climbing
  adaptive_moonbag_sell_pct base_sell live_score phase =
      if not (is_climbing phase)
      then base_sell
      else if leb_ℤ (pos 12) live_score
      then fmul base_sell (milli 500)
      else if leb_ℤ (pos 9) live_score
      then fmul base_sell (milli 750)
      else base_sell

  unfoldable pub maybe_upgrade_runner :
      ExitEngineV4Config F → ExitProfile → LiveMetrics F → ℤ → Bool → ExitProfile × Bool
  maybe_upgrade_runner c current metrics live_score hold_already =
      if not c.runtime_runner_upgrade_enabled || hold_already
      then (current, hold_already)
      else if leb_ℤ c.runner_upgrade_min_live_score live_score
          && should_enable_hold_mode c metrics live_score
          && may_become_runner current
      then (runner, true)
      else (current, hold_already)

  unfoldable pub resolve_entry_profile :
      TkEntryThresholds F
      → ExitEngineV4Config F
      → Position F
      → Option (LearningTradeSnapshot F)
      → ExitProfile × Bool
  resolve_entry_profile tk v4 p snap =
      let entry_score = from_snap snap (λ s. s.score_total) (pos 0) in
      let b2s = fmax p.tk_entry_b2s (from_snap snap (λ s. s.buy_to_sell_ratio) (int 0)) in
      let smart = max p.tk_entry_smart (from_snap snap (λ s. s.smart_wallet_count) 0) in
      let strong_votes =
        vote (leb 1 smart)
        + vote (leb tk.strong_min_buyers p.tk_entry_buyers)
        + vote (fle tk.strong_min_b2s b2s) in
      let weak_votes =
        vote (p.tk_entry_smart == 0)
        + vote (ltb 0 p.tk_entry_buyers && ltb p.tk_entry_buyers tk.weak_max_buyers)
        + vote (flt (int 0) b2s && flt b2s tk.weak_max_b2s) in
      let base =
        if leb 2 strong_votes && leb weak_votes 1
        then strong
        else if leb 2 weak_votes && leb strong_votes 1
        then weak
        else neutral in
      let metrics = live_metrics_lite p (int 0) (int 0) snap v4 in
      let live_score = max_ℤ (calculate_live_score metrics) (quot entry_score 2) in
      let hold = should_enable_hold_mode v4 metrics live_score in
      let biased = ml_profile_bias (from_snap snap (λ s. s.tier) (text "")) base in
      (if hold && may_become_runner biased then runner else biased, hold)
