-- ===== src/Exit/Metrics.antt =====
-- Live metrics, the live score and the recovery score.
use automatamain.Base.{Bool, ◌&&◌, ◌||◌, not, Option, none, some, if◌then◌else◌, leb}
use automatamain.Base.Int.{ℤ, pos, neg, ◌+ℤ◌, leb_ℤ}
use automatamain.Base.Float.{Float, flt, fmax, int, milli}
use automatamain.Exit.Types.{
  ExitEngineV4Config, LiveMetrics, LivePositionSnapshot, LearningTradeSnapshot, Position,
}

-- `if cond { score += points }`.
abbrev pub points : Bool → ℤ → ℤ
points b n = if b then n else pos 0

module _ {F : Type 0} ⦃fl : Float F⦄ where
  open fl use {fle, fadd, fmul, of_ℕ}

  unfoldable pub calculate_live_score : LiveMetrics F → ℤ
  unfolding ◌+ℤ◌
  calculate_live_score m =
      points (flt (int 4) m.buyers_per_sec) (pos 2)
      +ℤ (if leb 5 m.smart_wallet_count then pos 3 else points (leb 3 m.smart_wallet_count) (pos 2))
      +ℤ (if flt (int 2) m.buy_sell_ratio
          then pos 2
          else points (flt (milli 1500) m.buy_sell_ratio) (pos 1))
      +ℤ points (flt (milli 1500) m.holder_growth_rate) (pos 2)
      +ℤ points (flt (int 0) m.volume_delta) (pos 1)
      +ℤ points (flt (int 0) m.liquidity_delta) (pos 1)
      +ℤ points (flt (milli 1200) m.sell_pressure_score) (neg 2)
      +ℤ (if leb 2 m.smart_wallet_exits then neg 3 else points (leb 1 m.smart_wallet_exits) (neg 1))
      +ℤ points m.momentum_decay (neg 4)
      +ℤ points m.volume_decay (neg 2)
      +ℤ points m.bundle_detected (neg 3)

  unfoldable pub momentum_decay_detected : F → F → F → F → Bool
  momentum_decay_detected vel_now vel_prev sell_pressure volume_delta =
      (flt (milli 10) vel_prev && flt vel_now (fmul vel_prev (milli 700)))
      && flt (milli 1200) sell_pressure
      && flt volume_delta (int 0)

  unfoldable pub live_metrics_from_snapshot :
      LivePositionSnapshot F → F → F → F → F → F → ExitEngineV4Config F → LiveMetrics F
  live_metrics_from_snapshot s buyers_per_sec_prev vel_now vel_prev entry_velocity_pct profit_pct
        c =
      record {
        buyers_per_sec = s.buyers_per_sec;
        smart_wallet_count = s.smart_wallet_count;
        buy_sell_ratio = s.buy_sell_ratio;
        holder_growth_rate = s.holder_growth_rate;
        volume_delta = s.volume_delta;
        liquidity_delta = s.liquidity_delta;
        sell_pressure_score = s.sell_pressure_score;
        smart_wallet_exits = s.smart_wallet_exits;
        momentum_decay =
            momentum_decay_detected s.buyers_per_sec buyers_per_sec_prev s.sell_pressure_score
              s.volume_delta
            || (flt (milli 10) vel_prev
                && flt vel_now (fmul vel_prev (milli 700))
                && flt (milli 1200) s.sell_pressure_score
                && flt s.volume_delta (int 0));
        volume_decay = flt s.volume_delta (int 0) && flt vel_now (fmul vel_prev (milli 850));
        bundle_detected =
            flt c.hold_max_bundle_similar s.bundle_similar || flt (milli 200) s.bundle_identical;
        momentum_overheated =
            fle c.hold_momentum_overheated_pct entry_velocity_pct || fle (int 120) profit_pct;
      }

  -- `snap.map(f).unwrap_or(d)`.
  abbrev pub from_snap {ℓ} :
      {A : Type ℓ} → Option (LearningTradeSnapshot F) → (LearningTradeSnapshot F → A) → A → A
  from_snap none f d = d
  from_snap (some s) f d = f s

  unfoldable pub live_metrics_lite :
      Position F → F → F → Option (LearningTradeSnapshot F) → ExitEngineV4Config F → LiveMetrics F
  live_metrics_lite p vel_pct_per_sec profit_pct snap c =
      let sell_pressure = from_snap snap (λ s. s.sell_pressure_score) (int 0) in
      let entry_vel = from_snap snap (λ s. s.velocity_pct) (int 0) in
      let bundle_similar = from_snap snap (λ s. s.bundle_similar) (int 0) in
      let bundle_identical = from_snap snap (λ s. s.bundle_identical) (int 0) in
      record {
        buyers_per_sec =
            fadd (fmax (fmul vel_pct_per_sec (int 12)) (int 0))
              (if leb 35 p.tk_entry_buyers then milli 2500 else int 0);
        smart_wallet_count = p.tk_entry_smart;
        buy_sell_ratio =
            if flt (int 0) p.tk_entry_b2s
            then p.tk_entry_b2s
            else from_snap snap (λ s. s.buy_to_sell_ratio) (int 1);
        holder_growth_rate = fmul (fmax vel_pct_per_sec (int 0)) (int 20);
        volume_delta = vel_pct_per_sec;
        liquidity_delta = vel_pct_per_sec;
        sell_pressure_score = sell_pressure;
        smart_wallet_exits = from_snap snap (λ s. s.smart_wallet_early_exits) 0;
        momentum_decay =
            momentum_decay_detected vel_pct_per_sec p.live_prev_velocity sell_pressure
              vel_pct_per_sec;
        volume_decay = flt vel_pct_per_sec (int 0);
        bundle_detected =
            flt c.hold_max_bundle_similar bundle_similar || flt (milli 250) bundle_identical;
        momentum_overheated =
            fle c.hold_momentum_overheated_pct entry_vel || fle (int 120) profit_pct;
      }

  unfoldable pub recovery_score : LiveMetrics F → F → F → F → ℤ
  unfolding ◌+ℤ◌
  recovery_score m current_mcap flush_low_mcap local_high_mcap =
      (if flt (int 2) m.buyers_per_sec
        then pos 2
        else points (fle m.buyers_per_sec (milli 500)) (neg 2))
      +ℤ (if flt (int 0) m.volume_delta then pos 2 else neg 1)
      +ℤ points (flt (milli 1500) m.buy_sell_ratio) (pos 1)
      +ℤ points (flt (milli 1200) m.sell_pressure_score) (neg 2)
      +ℤ points (leb 1 m.smart_wallet_exits) (neg 1)
      +ℤ (if flt (int 0) flush_low_mcap
          then if flt (fmul flush_low_mcap (milli 1050)) current_mcap
            then pos 2
            else points (flt current_mcap flush_low_mcap) (neg 2)
          else pos 0)
      +ℤ points (flt (int 0) local_high_mcap && fle (fmul local_high_mcap (milli 900)) current_mcap)
          (pos 2)
      +ℤ points m.momentum_decay (neg 2)

  unfoldable pub should_enable_hold_mode : ExitEngineV4Config F → LiveMetrics F → ℤ → Bool
  should_enable_hold_mode c m live_score =
      leb_ℤ c.hold_min_live_score live_score
      && leb c.hold_min_smart m.smart_wallet_count
      && flt c.hold_min_b2s m.buy_sell_ratio
      && not m.bundle_detected
      && not m.momentum_overheated
