-- ===== src/Exit/Types.antt =====
-- The data of the exit engine: profiles, phases, configuration and live metrics.
use automatamain.Base.{ℕ, Bool, Option, List}
use automatamain.Base.Int.{ℤ}
use automatamain.Base.Text.{Text}

pub record TkEntryThresholds (F : Type 0) : Type 0 where
  pub strong_min_buyers : ℕ
  pub strong_min_b2s : F
  pub weak_max_buyers : ℕ
  pub weak_max_b2s : F

pub data ExitProfile : Type 0 where
  weak neutral strong runner : ExitProfile

pub data PositionPhase : Type 0 where
  exploration momentum expansion distribution : PositionPhase

pub record ExitTpProfile (F : Type 0) : Type 0 where
  pub tp1_pct : F
  pub tp1_sell_pct : F
  pub tp2_pct : F
  pub tp2_sell_pct : F
  pub tp3_pct : F
  pub tp3_sell_pct : F
  pub tp4_pct : F
  pub tp4_sell_pct : F
  pub tp5_pct : F
  pub tp5_sell_pct : F
  pub trailing_stop_drawdown_pct : F
  pub trailing_activate_profit_pct : F
  pub trailing_floor_profit_pct : F
  pub smart_stop_activate_profit_pct : F
  pub smart_stop_floor_profit_pct : F

pub record ExitEngineV4Config (F : Type 0) : Type 0 where
  pub enabled : Bool
  pub live_score_refresh_secs : ℕ
  pub exit_grace_secs : ℕ
  pub exit_grace_secs_tier_a : ℕ
  pub exit_grace_secs_tier_a_plus : ℕ
  pub decay_early_hold_secs : ℕ
  pub decay_early_mcap_profit_min_pct : F
  pub decay_early_extra_confirm_ticks : ℕ
  pub a_plus_time_kill_min_secs : ℕ
  pub a_plus_time_kill_mcap_profit_min_pct : F
  pub tier_a_time_kill_defer_min_secs : ℕ
  pub tier_a_time_kill_defer_mcap_min_pct : F
  pub weak_profile : ExitTpProfile F
  pub neutral_profile : ExitTpProfile F
  pub strong_profile : ExitTpProfile F
  pub runner_profile : ExitTpProfile F
  pub hold_min_live_score : ℤ
  pub hold_min_b2s : F
  pub hold_min_smart : ℕ
  pub hold_max_bundle_similar : F
  pub hold_momentum_overheated_pct : F
  pub phase_momentum_min_score : ℤ
  pub phase_expansion_min_score : ℤ
  pub phase_distribution_max_score : ℤ
  pub strong_time_kill_min_profit_after_tp : F
  pub momentum_decay_exit_enabled : Bool
  pub profit_staircase_enabled : Bool
  pub runtime_runner_upgrade_enabled : Bool
  pub runner_upgrade_min_live_score : ℤ
  pub re_expansion_enabled : Bool
  pub re_expansion_min_score : ℤ
  pub re_expansion_min_profit_pct : F
  pub adaptive_moonbag_enabled : Bool
  pub bundle_similar_tolerance : F
  pub decay_confirm_ticks : ℕ
  pub flush_drop_pct : F
  pub recovery_min_score : ℤ

unfoldable pub profile_params : {F : Type 0} → ExitEngineV4Config F → ExitProfile → ExitTpProfile F
profile_params c weak = c.weak_profile
profile_params c neutral = c.neutral_profile
profile_params c strong = c.strong_profile
profile_params c runner = c.runner_profile

pub record LiveMetrics (F : Type 0) : Type 0 where
  pub buyers_per_sec : F
  pub smart_wallet_count : ℕ
  pub buy_sell_ratio : F
  pub holder_growth_rate : F
  pub volume_delta : F
  pub liquidity_delta : F
  pub sell_pressure_score : F
  pub smart_wallet_exits : ℕ
  pub momentum_decay : Bool
  pub volume_decay : Bool
  pub bundle_detected : Bool
  pub momentum_overheated : Bool

-- The fields of the live snapshot that the engine reads.
pub record LivePositionSnapshot (F : Type 0) : Type 0 where
  pub buyers_per_sec : F
  pub holder_growth_rate : F
  pub volume_delta : F
  pub liquidity_delta : F
  pub smart_wallet_count : ℕ
  pub smart_wallet_exits : ℕ
  pub buy_sell_ratio : F
  pub sell_pressure_score : F
  pub bundle_similar : F
  pub bundle_identical : F
  pub mcap_sol : F

-- The fields of the scoring-time snapshot that the engine and the manager read.
pub record LearningTradeSnapshot (F : Type 0) : Type 0 where
  pub entry_mcap_sol : F
  pub buyer_count : ℕ
  pub smart_wallet_count : ℕ
  pub velocity_pct : F
  pub bundle_similar : F
  pub bundle_identical : F
  pub buy_to_sell_ratio : F
  pub score_total : ℤ
  pub tier : Text
  pub sell_pressure_score : F
  pub smart_wallet_early_exits : ℕ
  pub has_momentum_good : Bool

-- The position as the engine sees it. `pool_mcap` is the market value of its pool, in SOL, and
-- `enter_mcap` the one it was entered at; `live_tape_seen` says that a live tape point is there.
pub record Position (F : Type 0) : Type 0 where
  pub pool_mcap : F
  pub enter_mcap : F
  pub highest_mcap : F
  pub exit_profit_floor : F
  pub tp1_triggered : Bool
  pub tp2_triggered : Bool
  pub tp3_triggered : Bool
  pub tp4_triggered : Bool
  pub tp5_triggered : Bool
  pub mcap_ceiling_triggered : Bool
  pub trailing_active : Bool
  pub is_closing : Bool
  pub pending_partial_sell : Bool
  pub entry_time : ℕ
  pub learning_snapshot : Option (LearningTradeSnapshot F)
  pub tk_entry_buyers : ℕ
  pub tk_entry_smart : ℕ
  pub tk_entry_b2s : F
  pub tk_last_secs : ℕ
  pub tk_last_mcap : F
  pub tk_prev_secs : ℕ
  pub tk_prev_mcap : F
  pub last_time_kill_after_secs : ℕ
  pub exit_profile : ExitProfile
  pub hold_mode : Bool
  pub exit_phase : PositionPhase
  pub live_score : ℤ
  pub live_prev_velocity : F
  pub live_buyers_per_sec : F
  pub live_prev_buyers_per_sec : F
  pub last_live_score_at : ℕ
  pub live_score_entry_floor : ℤ
  pub peak_profit_pct : F
  pub live_tape_seen : Bool
  pub exit_mcap_ticks : List F
  pub sl_below_floor_streak : ℕ
  pub decay_streak : ℕ
  pub flush_active : Bool
  pub flush_low_mcap : F
  pub recovery_score : ℤ
  pub sl_prev_raw_mcap : Option F
  pub use_jupiter_exit_mcap : Bool
  pub exit_mcap_jupiter : Option F
  pub last_exit_mcap_poll_at : ℕ

-- The fields of `SmartBuyConfig` that a tick reads.
pub record SmartBuyConfig (F : Type 0) : Type 0 where
  pub tp1_pct : F
  pub tp1_sell_pct : F
  pub tp2_pct : F
  pub tp2_sell_pct : F
  pub tp3_pct : F
  pub tp3_sell_pct : F
  pub tp4_pct : F
  pub tp4_sell_pct : F
  pub tp5_pct : F
  pub tp5_sell_pct : F
  pub time_kill_secs : ℕ
  pub time_kill_min_profit_pct : F
  pub time_kill_adaptive : Bool
  pub time_kill_weak_secs : ℕ
  pub time_kill_strong_secs : ℕ
  pub time_kill_neutral_secs : ℕ
  pub time_kill_strong_min_buyers : ℕ
  pub time_kill_strong_min_b2s : F
  pub time_kill_weak_max_buyers : ℕ
  pub time_kill_weak_max_b2s : F
  pub time_kill_vel_strong : F
  pub time_kill_vel_flat : F
  pub time_kill_early_green_pct : F
  pub time_kill_peak_dd_for_weak : F
  pub trailing_stop_drawdown_pct : F
  pub sl_confirm_ticks : ℕ
  pub sl_grace_secs : ℕ
  pub sl_crash_pnl_pct : F
  pub sl_crash_tick_drop_pct : F
  pub exit_mcap_median_ticks : ℕ
  pub exit_mcap_band_low_ratio : F
  pub exit_mcap_band_high_ratio : F
  pub mcap_ceiling_sol : F
  pub mcap_ceiling_partial_sell_pct : F
  pub exit_v4 : ExitEngineV4Config F

-- Why a sale is queued: the text of the reason without its figures.
pub data CloseReason : Type 0 where
  momentum_decay : CloseReason
  time_kill : CloseReason
  sl_crash : CloseReason
  sl : CloseReason
  mcap_ceiling : CloseReason
  trailing_exit : CloseReason
  take_profit : ℕ → CloseReason

-- A queued sale: the per cent to sell, why, and whether it skips the delay.
pub record Action (F : Type 0) : Type 0 where
  pub percent : F
  pub reason : CloseReason
  pub urgent : Bool
