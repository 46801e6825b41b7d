-- ===== src/Score/Gates/Laws.antt =====
-- What the gates of tiers A and A+ amount to.
use automatamain.Base.{ℕ, ◌≡◌, ◌≢◌, ◌↔◌, ◌⊎◌, arith, true, none, some, List}
use automatamain.Base.Int.{ℤ, ltb_ℤ}
use automatamain.Base.Float.{Float}
use automatamain.Score.Types.{Tier, a_plus, TokenFeatures, Item}
use automatamain.Score.Gates.{
  aplus_rug_gate_skip_reason, aplus_no_smart_required, weak_a_hard_skip_reason,
  weak_a_profile_match, WeakATierGateConfig, strong_a_momentum_bypass_ok,
  MomentumGoodStrongABypassConfig,
}

module _ {F : Type 0} ⦃fl : Float F⦄ where
  open fl use {fle}

  -- The A+ gate blocks exactly an A+ token without a smart wallet, with the first of its two reasons:
  -- the ratio of buys to sells plays no part.
  pub aplus_rug_gate_iff :
      (tier : Tier) (smart : ℕ) (ratio : F)
      → ((aplus_rug_gate_skip_reason tier smart ratio ≢ none) ↔ ((tier ≡ a_plus) × (smart ≡ 0)))
        × ((aplus_rug_gate_skip_reason tier smart ratio ≡ none)
            ⊎ (aplus_rug_gate_skip_reason tier smart ratio ≡ some aplus_no_smart_required))
  unfolding aplus_rug_gate_skip_reason
  aplus_rug_gate_iff tier smart ratio = ((ground arith, ground arith), ground arith)

  -- The bypass of the momentum gate and the hard skip of weak entries exclude one another once the
  -- bypass asks for a score above those of the weak profile.
  bypass_excludes_weak :
      (strong : MomentumGoodStrongABypassConfig F) (weak : WeakATierGateConfig F) (tier : Tier)
      (score : ℤ) (smart : ℕ) (f : TokenFeatures F) (items : List (Item × ℤ))
      → ltb_ℤ weak.max_score strong.min_score ≡ true
      → strong_a_momentum_bypass_ok strong tier score f items ≡ true
      → weak_a_hard_skip_reason weak tier score smart f items ≡ none
  unfolding strong_a_momentum_bypass_ok weak_a_hard_skip_reason weak_a_profile_match
  bypass_excludes_weak strong weak tier score smart f items h k = ground arith
