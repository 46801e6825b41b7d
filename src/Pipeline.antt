-- ===== src/Pipeline.antt =====
-- From the score of a token to the order to buy it (src/pipeline/score_buy.rs): the gates in the order
-- in which the code asks them. What the code reads from the feed meanwhile, the windows of the
-- polls, is an argument; log lines, metrics and latencies are left out.
pub mod Confirm
pub mod Safety
pub mod Minimum
pub mod Tests
use automatamain.Base.{
  ℕ, ◌+◌, Bool, true, false, ◌&&◌, ◌||◌, not, Option, none, some, List, if◌then◌else◌, ltb, leb,
  ◌==◌,
}
use automatamain.Base.Int.{ℤ}
use automatamain.Base.Float.{Float, int, fmax, fmin}
use automatamain.Score.Types.{
  Tier, a_plus, a, b, skip, TokenFeatures, FeatureThresholds, ScoringConfig,
}
use automatamain.Score.AntiRug.{SkipReason, entry_skip_reason}
use automatamain.Score.TierB.{
  FreshBReason, fresh_b_gate_fail_reason, has_momentum_good, momentum_peak_pct, tier_b_dev_eligible,
}
use automatamain.Score.Engine.{ScoreBreakdown, score}
use automatamain.Score.Gates.{
  GateReason, WeakASyntheticPumpConfig, WeakATierGateConfig, MomentumGoodStrongABypassConfig, is_a,
  is_a_plus, strong_a_momentum_bypass_ok, weak_a_hard_skip_reason,
  weak_a_synthetic_pump_skip_reason, aplus_rug_gate_skip_reason, tier_a_low_velocity_skip_reason,
}
use automatamain.Pipeline.Confirm.{ConfirmConfig, Observed, ConfirmSkip, confirm_skip_reason}

pub data MinBuyTier : Type 0 where
  min_a min_a_plus : MinBuyTier

abbrev is_min_a_plus : MinBuyTier → Bool
is_min_a_plus min_a = false
is_min_a_plus min_a_plus = true

abbrev is_b : Tier → Bool
is_b b = true
is_b _ = false

abbrev is_skip : Tier → Bool
is_skip skip = true
is_skip _ = false

-- The fields of the configuration that the pipeline reads. `live` is the mode of execution.
pub record PipelineConfig (F : Type 0) : Type 0 where
  pub live : Bool
  pub scoring : ScoringConfig F
  pub require_momentum_good : Bool
  pub momentum_good_smart_bypass : ℕ
  pub momentum_good_aplus_smart_bypass : ℕ
  pub momentum_good_strong_a : MomentumGoodStrongABypassConfig F
  pub minimum_tier_for_buy : MinBuyTier
  pub spam_dev_require_a_plus : Bool
  pub weak_a_gate : WeakATierGateConfig F
  pub synthetic_pump : WeakASyntheticPumpConfig F
  pub confirm : ConfirmConfig F

-- The stages that end without an order, with the reason where there is one.
pub data Skip : Type 0 where
  fresh_b_gate : FreshBReason → Skip
  tier_skip live_gate_momentum live_gate_tier spam_dev_weak size_zero : Skip
  anti_rug : SkipReason → Skip
  weak_a_gate weak_a_synthetic aplus_rug_gate velocity_gate : GateReason → Skip
  unconfirmed : ConfirmSkip → Skip

-- `InitiateBuy`, or the stage that ended the token.
pub data BuyOutcome (F : Type 0) : Type 0 where
  skipped : Skip → BuyOutcome F
  initiate_buy : (amount_sol : F) (buy_tier : Tier) → BuyOutcome F

abbrev pub or_gate : {R : Type 0} → Option R → (R → Skip) → Option Skip → Option Skip
or_gate none stage later = later
or_gate (some r) stage later = some (stage r)

abbrev pub or_stage : Bool → Skip → Option Skip → Option Skip
or_stage true stage later = some stage
or_stage false stage later = later

module _ {F : Type 0} ⦃fl : Float F⦄ where
  open fl use {fle}

  -- What ends a token of tier Skip.
  unfoldable pub tier_skip_stage : PipelineConfig F → TokenFeatures F → ScoreBreakdown F → Skip
  tier_skip_stage cfg f s =
      if tier_b_dev_eligible f cfg.scoring.tier_b
      then elim (fresh_b_gate_fail_reason cfg.scoring.tier_b f s.items) [
        | some reason ↦ fresh_b_gate reason
        | none ↦ tier_skip
      ]
      else tier_skip

  unfoldable pub momentum_good_satisfied :
      PipelineConfig F → TokenFeatures F → ScoreBreakdown F → ℕ → Bool
  momentum_good_satisfied cfg f s smart_count =
      let smart_bypass = cfg.momentum_good_smart_bypass in
      let aplus_bypass = cfg.momentum_good_aplus_smart_bypass in
      has_momentum_good s.items
      || (ltb 0 smart_bypass && leb smart_bypass smart_count)
      || (ltb 0 aplus_bypass && is_a_plus s.tier && leb aplus_bypass smart_count)
      || strong_a_momentum_bypass_ok cfg.momentum_good_strong_a s.tier s.total f s.items
      || s.a_momentum_override
      || s.a_plus_momentum_override
      || (is_b s.tier && s.fresh_b_hot_override)

  -- The gates on the strength of the tier.
  unfoldable pub tier_gates :
      PipelineConfig F → TokenFeatures F → ScoreBreakdown F → ℕ → Option Skip
  tier_gates cfg f s smart_count =
      let velocity_pct =
        momentum_peak_pct f.initial_mcap_sol (fmax f.peak_mcap_sol f.current_mcap_sol) in
      or_gate (weak_a_hard_skip_reason cfg.weak_a_gate s.tier s.total smart_count f s.items)
        weak_a_gate
        (or_gate (weak_a_synthetic_pump_skip_reason cfg.synthetic_pump s.tier smart_count f s.items)
          weak_a_synthetic
          (or_gate (aplus_rug_gate_skip_reason s.tier smart_count f.buy_to_sell_ratio)
            aplus_rug_gate
            (or_gate (tier_a_low_velocity_skip_reason s.tier velocity_pct) velocity_gate none)))

  -- The gates that only a live bot asks, in their order.
  unfoldable pub live_gates :
      PipelineConfig F → TokenFeatures F → ScoreBreakdown F → ℕ → Bool → Option Skip
  live_gates cfg f s smart_count is_spam_dev =
      or_stage (cfg.require_momentum_good && not (momentum_good_satisfied cfg f s smart_count))
        live_gate_momentum
        (or_gate (entry_skip_reason f cfg.scoring.anti_rug) anti_rug (
          or_stage
            (is_min_a_plus cfg.minimum_tier_for_buy && not (is_a_plus s.tier) && not (is_b s.tier))
            live_gate_tier
            (or_stage (is_spam_dev && cfg.spam_dev_require_a_plus && not (is_a_plus s.tier))
              spam_dev_weak (tier_gates cfg f s smart_count))))

  -- `recommended_size_sol.min(operator_cap).max(0.0)`.
  unfoldable pub buy_amount : ScoreBreakdown F → F → F
  buy_amount s operator_cap = fmax (fmin s.recommended_size_sol operator_cap) (int 0)

  -- The decision on features that are scored: `epsilon` is f64::EPSILON.
  unfoldable pub decide_buy :
      PipelineConfig F
      → TokenFeatures F
      → ScoreBreakdown F
      → (smart_count : ℕ) → (is_spam_dev : Bool) → (operator_cap epsilon : F)
      → (confirm recheck : Observed F) → BuyOutcome F
  decide_buy cfg f s smart_count is_spam_dev operator_cap epsilon confirm recheck =
      let gates = live_gates cfg f s smart_count is_spam_dev in
      let amount_sol = buy_amount s operator_cap in
      if is_skip s.tier
      then skipped (tier_skip_stage cfg f s)
      else elim (if cfg.live then gates else none) [
        | some stage ↦ skipped stage
        | none ↦
            if fle amount_sol epsilon
            then skipped size_zero
            else elim (confirm_skip_reason cfg.confirm cfg.live f s smart_count confirm recheck) [
              | some reason ↦ skipped (unconfirmed reason)
              | none ↦ initiate_buy amount_sol s.tier
            ]
      ]

  -- The stages from the features on. `merged` are the thresholds with the learned overrides.
  unfoldable pub run_scoring_and_buy :
      PipelineConfig F
      → (merged : FeatureThresholds F) → TokenFeatures F
      → (smart_count : ℕ) → (is_spam_dev : Bool) → (operator_cap epsilon : F)
      → (confirm recheck : Observed F) → BuyOutcome F
  run_scoring_and_buy cfg merged f smart_count is_spam_dev operator_cap epsilon confirm recheck =
      let token_features = record f { is_spam_dev = is_spam_dev } in
      let thresholds = if cfg.scoring.legacy_scoring then cfg.scoring.thresholds else merged in
      decide_buy cfg token_features (score cfg.scoring token_features thresholds) smart_count
        is_spam_dev operator_cap epsilon confirm recheck
