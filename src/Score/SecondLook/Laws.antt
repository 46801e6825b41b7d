-- ===== src/Score/SecondLook/Laws.antt =====
-- Who gets a second look.
use automatamain.Base.{ℕ, ◌≡◌, ◌↔◌, ◌⊎◌, arith, Bool, true, List}
use automatamain.Base.Int.{ℤ, ◌≤ℤ◌}
use automatamain.Base.Float.{Float}
use automatamain.Score.Types.{Tier, TokenFeatures, Item}
use automatamain.Score.Gates.{WeakATierGateConfig, weak_a_profile_match}
use automatamain.Score.Continuation.{ContReason}
use automatamain.Score.SecondLook.{
  ContinuationSecondLookConfig, continuation_second_look_eligible,
  continuation_second_look_eligible_for_buy, is_second_look_reason,
}

module _ {F : Type 0} ⦃fl : Float F⦄ where
  -- A failed poll is looked at again exactly when second looks are on, and the token is strong and
  -- failed for a reason that may pass, or it has the profile of a weak A with a low enough score,
  -- whatever the reason.
  pub eligible_for_buy_iff :
      (cfg : ContinuationSecondLookConfig) (weak : WeakATierGateConfig F) (tier : Tier)
      (is_a_plus : Bool) (score : ℤ) (smart : ℕ) (f : TokenFeatures F) (items : List (Item × ℤ))
      (reason : ContReason)
      → (continuation_second_look_eligible_for_buy cfg weak tier is_a_plus score smart f items
            reason
          ≡ true)
        ↔ ((cfg.enabled ≡ true)
            × ((((is_a_plus ≡ true) ⊎ (cfg.min_score ≤ℤ score))
                  × (is_second_look_reason is_a_plus reason ≡ true))
                ⊎ ((weak_a_profile_match weak tier score smart f.dev_category items ≡ true)
                    × (score ≤ℤ weak.continuation_second_look_max_score))))
  unfolding continuation_second_look_eligible_for_buy continuation_second_look_eligible
      weak_a_profile_match
  eligible_for_buy_iff cfg weak tier is_a_plus score smart f items reason =
      (ground arith, ground arith)
