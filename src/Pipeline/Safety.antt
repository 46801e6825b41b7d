-- ===== src/Pipeline/Safety.antt =====
-- What holds of every order to buy.
use automatamain.Base.{
  ℕ, ◌≤◌, ◌≡◌, ◌⊎◌, inl, inr, refl, arith, Bool, true, false, none, some, if◌then◌else◌,
}
use automatamain.Base.Int.{◌≤ℤ◌}
use automatamain.Base.Float.{Float, IsFloat, int, flt, fmax}
use automatamain.Score.Types.{Tier, a_plus, TokenFeatures, FeatureThresholds}
use automatamain.Score.AntiRug.{entry_skip_reason}
use automatamain.Score.TierB.{momentum_peak_pct, tier_b_dev_eligible}
use automatamain.Score.Engine.{ScoreBreakdown, score}
use automatamain.Score.Engine.Verdict.{a_plus_iff}
use automatamain.Score.Gates.{
  is_a, is_a_plus, aplus_rug_gate_skip_reason, tier_a_low_velocity_skip_reason,
  weak_a_hard_skip_reason, weak_a_synthetic_pump_skip_reason,
}
use automatamain.Pipeline.Confirm.{
  Observed, confirm_skip_reason, continuation_gate, needs_peak_defer, look, second_chance,
}
use automatamain.Score.Continuation.{ContinuationAplusPeakGuardConfig, aplus_peak_no_smart_guard}
use automatamain.Pipeline.{
  PipelineConfig, initiate_buy, is_min_a_plus, is_b, is_skip, live_gates, tier_gates,
  momentum_good_satisfied, buy_amount, decide_buy, run_scoring_and_buy,
}

pub smart_of :
    {tier : Tier}
    → {smart_count : ℕ} → tier ≡ a_plus
    → (is_a_plus tier ≡ false) ⊎ (1 ≤ smart_count)
    → 1 ≤ smart_count
smart_of same (inl not_a_plus) = ground (arith, same, not_a_plus)
smart_of same (inr smart) = smart

module _ {F : Type 0} ⦃fl : Float F⦄ where
  open fl use {fle}

  -- What an order says of the token and of its score.
  pub record IsOrder (cfg : PipelineConfig F) (f : TokenFeatures F) (s : ScoreBreakdown F)
      (smart_count : ℕ) (is_spam_dev : Bool) (operator_cap epsilon amount : F)
      (confirm recheck : Observed F) (tier : Tier) : Type 0 where
    pub scored : is_skip s.tier ≡ false
    pub same_tier : s.tier ≡ tier
    pub sized : amount ≡ buy_amount s operator_cap
    pub not_dust : fle amount epsilon ≡ false
    pub gated : (cfg.live ≡ false) ⊎ (live_gates cfg f s smart_count is_spam_dev ≡ none)
    pub confirmed : confirm_skip_reason cfg.confirm cfg.live f s smart_count confirm recheck ≡ none

  decide_buy-IsOrder :
      (cfg : PipelineConfig F) (f : TokenFeatures F) (s : ScoreBreakdown F) (smart_count : ℕ)
      (is_spam_dev : Bool) (operator_cap epsilon amount : F) (confirm recheck : Observed F)
      (tier : Tier)
      → decide_buy cfg f s smart_count is_spam_dev operator_cap epsilon confirm recheck
        ≡ initiate_buy amount tier
      → IsOrder cfg f s smart_count is_spam_dev operator_cap epsilon amount confirm recheck tier
  unfolding decide_buy
  decide_buy-IsOrder cfg f s smart_count is_spam_dev operator_cap epsilon amount confirm recheck
        tier h =
      ground (arith, h)

  -- Live gates that find nothing.
  pub record IsCleared (cfg : PipelineConfig F) (f : TokenFeatures F) (s : ScoreBreakdown F)
      (smart_count : ℕ) (is_spam_dev : Bool) : Type 0 where
    pub momentum :
        (cfg.require_momentum_good ≡ false) ⊎ (momentum_good_satisfied cfg f s smart_count ≡ true)
    pub no_rug : entry_skip_reason f cfg.scoring.anti_rug ≡ none
    pub tier_allowed :
        (is_min_a_plus cfg.minimum_tier_for_buy ≡ false)
        ⊎ ((is_a_plus s.tier ≡ true) ⊎ (is_b s.tier ≡ true))
    pub no_spam :
        (is_spam_dev ≡ false) ⊎ ((cfg.spam_dev_require_a_plus ≡ false) ⊎ (is_a_plus s.tier ≡ true))
    pub no_weak_a :
        weak_a_hard_skip_reason cfg.weak_a_gate s.tier s.total smart_count f s.items ≡ none
    pub no_synthetic_pump :
        weak_a_synthetic_pump_skip_reason cfg.synthetic_pump s.tier smart_count f s.items ≡ none
    pub smart_a_plus : (is_a_plus s.tier ≡ false) ⊎ (1 ≤ smart_count)
    pub fast_a :
        (is_a s.tier ≡ false)
        ⊎ (flt
              (momentum_peak_pct f.initial_mcap_sol (fmax f.peak_mcap_sol f.current_mcap_sol))
              (int 3)
            ≡ false)

  live_gates-IsCleared :
      (cfg : PipelineConfig F) (f : TokenFeatures F) (s : ScoreBreakdown F) (smart_count : ℕ)
      (is_spam_dev : Bool)
      → live_gates cfg f s smart_count is_spam_dev ≡ none
      → IsCleared cfg f s smart_count is_spam_dev
  unfolding live_gates tier_gates aplus_rug_gate_skip_reason tier_a_low_velocity_skip_reason
  live_gates-IsCleared cfg f s smart_count is_spam_dev h = ground (arith, h)

  no_guard :
      (cfg : ContinuationAplusPeakGuardConfig F) (top : Bool) (smart_count : ℕ) (current peak : F)
      → (top ≡ false) ⊎ (1 ≤ smart_count)
      → aplus_peak_no_smart_guard cfg top smart_count current peak ≡ false
  unfolding aplus_peak_no_smart_guard
  no_guard cfg top smart_count current peak h = ground (arith, h)

  -- Where every live gate passes, the guard of an A+ at its peak without smart money defers no token,
  -- whatever it is configured to and whatever the poll shows: the confirmation is the plain poll with
  -- its second look.
  pub peak_guard_idle :
      (cfg : PipelineConfig F) (f : TokenFeatures F) (s : ScoreBreakdown F) (smart_count : ℕ)
      (is_spam_dev : Bool) (confirm recheck : Observed F)
      → live_gates cfg f s smart_count is_spam_dev ≡ none
      → continuation_gate cfg.confirm f s smart_count confirm recheck
        ≡ elim (look cfg.confirm f s smart_count confirm) [
          | none ↦ none
          | some reason ↦ second_chance cfg.confirm f s smart_count confirm recheck reason
        ]
  unfolding continuation_gate needs_peak_defer
  peak_guard_idle cfg f s smart_count is_spam_dev confirm recheck h =
      simp
        (no_guard cfg.confirm.aplus_peak_guard (is_a_plus s.tier) smart_count f.current_mcap_sol
          f.peak_mcap_sol (live_gates-IsCleared cfg f s smart_count is_spam_dev h).smart_a_plus)
        refl

  -- The features and the score that a run decides on.
  abbrev pub seen_features : TokenFeatures F → Bool → TokenFeatures F
  seen_features f is_spam_dev = record f { is_spam_dev = is_spam_dev }

  abbrev pub seen_score :
      PipelineConfig F → FeatureThresholds F → TokenFeatures F → Bool → ScoreBreakdown F
  seen_score cfg merged f is_spam_dev =
      score cfg.scoring (seen_features f is_spam_dev)
        (if cfg.scoring.legacy_scoring then cfg.scoring.thresholds else merged)

  amount_le_cap :
      IsFloat F
      → (s : ScoreBreakdown F) (cap : F) → fle (int 0) cap ≡ true
      → fle (buy_amount s cap) cap ≡ true
  unfolding buy_amount
  amount_le_cap law s cap h =
      let number = law.fle_refl (int 0) cap h in
      let total = law.fle_total cap s.recommended_size_sol number.1 in
      ground (arith, h, number, total)

  module _ (cfg : PipelineConfig F) (merged : FeatureThresholds F) (f : TokenFeatures F)
      (smart_count : ℕ) (is_spam_dev : Bool) (operator_cap epsilon amount : F)
      (confirm recheck : Observed F) (tier : Tier)
      (ordered : run_scoring_and_buy cfg merged f smart_count is_spam_dev operator_cap epsilon
          confirm recheck
        ≡ initiate_buy amount tier) where
    order :
        IsOrder cfg
          (seen_features f is_spam_dev)
          (seen_score cfg merged f is_spam_dev)
          smart_count
          is_spam_dev
          operator_cap
          epsilon
          amount
          confirm
          recheck
          tier
    unfolding run_scoring_and_buy
    order =
        decide_buy-IsOrder cfg (seen_features f is_spam_dev) (seen_score cfg merged f is_spam_dev)
          smart_count is_spam_dev operator_cap epsilon amount confirm recheck tier ordered

    -- What the gates say of a live order.
    pub live_order-IsCleared :
        cfg.live ≡ true
        → let g = seen_features f is_spam_dev in
          let s = seen_score cfg merged f is_spam_dev in
          (is_skip s.tier ≡ false)
          × (s.tier ≡ tier)
          × IsCleared cfg g s smart_count is_spam_dev
          × (confirm_skip_reason cfg.confirm true g s smart_count confirm recheck ≡ none)
    live_order-IsCleared live =
        let g = seen_features f is_spam_dev in
        let s = seen_score cfg merged f is_spam_dev in
        (
          order.scored,
          order.same_tier,
          live_gates-IsCleared cfg g s smart_count is_spam_dev (ground (arith, order.gated, live)),
          rw live at order.confirmed,
        )

    -- The amount of an order, live or not, is at most the operator's cap, if the cap is a number and
    -- not negative; and it is more than f64::EPSILON, or compares with it as no number does.
    pub order_within_cap :
        IsFloat F
        → fle (int 0) operator_cap ≡ true
        → (fle amount operator_cap ≡ true) × (fle amount epsilon ≡ false)
    order_within_cap law cap_number = (
      rw order.sized
          (amount_le_cap law (seen_score cfg merged f is_spam_dev) operator_cap cap_number),
      order.not_dust,
    )

  -- A live order of tier A+ is for a token outside the fresh lane, whose score reaches the A+ threshold,
  -- and among whose early buyers there is a smart wallet.
  pub live_a_plus_order :
      (cfg : PipelineConfig F) (merged : FeatureThresholds F) (f : TokenFeatures F)
      (smart_count : ℕ) (is_spam_dev : Bool) (operator_cap epsilon amount : F)
      (confirm recheck : Observed F)
      → run_scoring_and_buy cfg merged f smart_count is_spam_dev operator_cap epsilon confirm
          recheck
        ≡ initiate_buy amount a_plus
      → cfg.live ≡ true
      → (1 ≤ smart_count)
        × (tier_b_dev_eligible (seen_features f is_spam_dev) cfg.scoring.tier_b ≡ false)
        × (cfg.scoring.a_plus_threshold ≤ℤ (seen_score cfg merged f is_spam_dev).total)
  live_a_plus_order cfg merged f smart_count is_spam_dev operator_cap epsilon amount confirm recheck
        ordered live =
      let cleared =
        live_order-IsCleared cfg merged f smart_count is_spam_dev operator_cap epsilon amount
          confirm recheck a_plus ordered live in
      let scored =
        a_plus_iff cfg.scoring (seen_features f is_spam_dev)
          (if cfg.scoring.legacy_scoring then cfg.scoring.thresholds else merged) in
      let reached = scored.0 cleared.1 in
      (smart_of cleared.1 cleared.2.smart_a_plus, reached.0, reached.1)
