-- ===== src/Score/Engine/Verdict.antt =====
-- Which tier a score gives.
use automatamain.Base.{◌≡◌, ◌↔◌, ◌⊎◌, arith, true, false}
use automatamain.Base.Int.{◌≤ℤ◌}
use automatamain.Base.Float.{Float}
use automatamain.Score.Types.{a_plus, a, b, TokenFeatures, FeatureThresholds, ScoringConfig}
use automatamain.Score.AntiRug.{cap_tier_for_low_mcap}
use automatamain.Score.TierB.{
  tier_b_dev_eligible, tier_b_entry_ok, fresh_b_hot_override_ok, is_momentum_only_tier_b_fail,
  aa_momentum_override_for_tier, is_momentum_only_aa_overheated, has_momentum_good,
}
use automatamain.Score.Engine.{Board, ScoreBreakdown, score, finish_breakdown}
use automatamain.Score.Engine.Cases.{score_finish}

module _ {F : Type 0} ⦃fl : Float F⦄ where
  abbrev pub IsBForLane : ScoringConfig F → TokenFeatures F → ScoreBreakdown F → Type 0
  IsBForLane cfg f s = (s.tier ≡ b) ↔ (
      (tier_b_dev_eligible f cfg.tier_b ≡ true)
      × ((tier_b_entry_ok cfg.tier_b f s.items ≡ true)
          ⊎ (fresh_b_hot_override_ok cfg.tier_b f s.items ≡ true)))

  finish-IsBForLane :
      (cfg : ScoringConfig F) (f : TokenFeatures F) (board : Board)
      → IsBForLane cfg f (finish_breakdown cfg f board)
  unfolding finish_breakdown cap_tier_for_low_mcap
  finish-IsBForLane cfg f (total, items) = (ground arith, ground arith)

  -- Tier B is given exactly to a token of the lane that passes its gates or the hot override.
  pub b_iff_lane :
      (cfg : ScoringConfig F) (f : TokenFeatures F) (t : FeatureThresholds F)
      → IsBForLane cfg f (score cfg f t)
  b_iff_lane cfg f t = score_finish cfg f t (IsBForLane cfg f) (finish-IsBForLane cfg f)

  abbrev pub IsAPlusForScore : ScoringConfig F → TokenFeatures F → ScoreBreakdown F → Type 0
  IsAPlusForScore cfg f s = (s.tier ≡ a_plus) ↔ (
      (tier_b_dev_eligible f cfg.tier_b ≡ false)
      × (cfg.a_plus_threshold ≤ℤ s.total)
      × (cap_tier_for_low_mcap f cfg.anti_rug a_plus ≡ a_plus))

  finish-IsAPlusForScore :
      (cfg : ScoringConfig F) (f : TokenFeatures F) (board : Board)
      → IsAPlusForScore cfg f (finish_breakdown cfg f board)
  unfolding finish_breakdown cap_tier_for_low_mcap
  finish-IsAPlusForScore cfg f (total, items) = (ground arith, ground arith)

  -- Tier A+ is given exactly to a token outside the lane whose score reaches the A+ threshold, and
  -- which the cap for thin launches does not lower.
  pub a_plus_iff :
      (cfg : ScoringConfig F) (f : TokenFeatures F) (t : FeatureThresholds F)
      → IsAPlusForScore cfg f (score cfg f t)
  a_plus_iff cfg f t = score_finish cfg f t (IsAPlusForScore cfg f) (finish-IsAPlusForScore cfg f)

  abbrev pub HasOneOverride : ScoringConfig F → TokenFeatures F → ScoreBreakdown F → Type 0
  HasOneOverride cfg f s =
      ((s.a_momentum_override ≡ false) ⊎ ((s.tier ≡ a) × (has_momentum_good s.items ≡ false)))
      × ((s.a_plus_momentum_override ≡ false)
          ⊎ ((s.tier ≡ a_plus) × (has_momentum_good s.items ≡ false)))
      × ((s.fresh_b_hot_override ≡ false)
          ⊎ ((s.tier ≡ b)
              × (has_momentum_good s.items ≡ false)
              × (s.a_momentum_override ≡ false)
              × (s.a_plus_momentum_override ≡ false)))

  finish-HasOneOverride :
      (cfg : ScoringConfig F) (f : TokenFeatures F) (board : Board)
      → HasOneOverride cfg f (finish_breakdown cfg f board)
  unfolding finish_breakdown cap_tier_for_low_mcap aa_momentum_override_for_tier
      is_momentum_only_aa_overheated fresh_b_hot_override_ok is_momentum_only_tier_b_fail
  finish-HasOneOverride cfg f (total, items) = (ground arith, ground arith, ground arith)

  -- The override of tier A or A+ is recorded only in that tier and without an item for good momentum;
  -- the hot override only in tier B, without that item, and never beside another override.
  pub overrides_exclusive :
      (cfg : ScoringConfig F) (f : TokenFeatures F) (t : FeatureThresholds F)
      → HasOneOverride cfg f (score cfg f t)
  overrides_exclusive cfg f t =
      score_finish cfg f t (HasOneOverride cfg f) (finish-HasOneOverride cfg f)
