-- ===== src/Score/SecondLook.antt =====
-- Which failed polls may be looked at again (src/scoring/features.rs).
pub mod Laws
use automatamain.Base.{ℕ, Bool, true, false, ◌&&◌, ◌||◌, not, List, if◌then◌else◌}
use automatamain.Base.Int.{ℤ, leb_ℤ}
use automatamain.Base.Float.{Float}
use automatamain.Score.Types.{Tier, TokenFeatures, Item}
use automatamain.Score.Gates.{WeakATierGateConfig, weak_a_profile_match, is_a}
use automatamain.Score.Continuation.{
  ContReason, cont_b2s_worsening, cont_sell_absorption, cont_no_uptick,
}

-- The fields that the decision reads.
pub record ContinuationSecondLookConfig : Type 0 where
  pub enabled : Bool
  pub min_score : ℤ

-- The reasons that a strong token may be looked at again for.
unfoldable pub is_second_look_reason : Bool → ContReason → Bool
is_second_look_reason is_a_plus cont_b2s_worsening = true
is_second_look_reason is_a_plus cont_sell_absorption = true
is_second_look_reason is_a_plus cont_no_uptick = is_a_plus
is_second_look_reason is_a_plus _ = false

unfoldable pub continuation_second_look_eligible :
    ContinuationSecondLookConfig → Bool → ℤ → ContReason → Bool
continuation_second_look_eligible cfg is_a_plus score reason =
    if not cfg.enabled || not (is_a_plus || leb_ℤ cfg.min_score score)
    then false
    else is_second_look_reason is_a_plus reason

module _ {F : Type 0} ⦃fl : Float F⦄ where
  unfoldable pub continuation_second_look_eligible_for_buy :
      ContinuationSecondLookConfig
      → WeakATierGateConfig F
      → Tier
      → Bool
      → ℤ
      → ℕ
      → TokenFeatures F
      → List (Item × ℤ)
      → ContReason
      → Bool
  continuation_second_look_eligible_for_buy cfg weak tier is_a_plus score smart f items reason =
      if continuation_second_look_eligible cfg is_a_plus score reason
      then true
      else if not cfg.enabled || not weak.enabled || not (is_a tier)
      then false
      else if not (weak_a_profile_match weak tier score smart f.dev_category items)
      then false
      else leb_ℤ score weak.continuation_second_look_max_score
