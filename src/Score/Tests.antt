-- ===== src/Score/Tests.antt =====
-- The theorems on the score at a concrete token, configuration and tape.
use automatamain.Base.{ℕ, ◌≡◌, true, some, List, [], ◌∷◌, refl}
use automatamain.Base.Int.{ℤ, pos, neg, wrap}
use automatamain.Base.Float.{Fixed, fixed_float, flt}
use automatamain.Score.Types.{a, Item, volume_ok, momentum_overheated, score_items_has, buyer_count}
use automatamain.Score.TierB.{
  fresh_b_hot_override_ok, is_momentum_only_tier_b_fail, tier_b_dev_eligible, tier_b_base_gates_ok,
  tier_b_velocity_ok, has_momentum_good, fresh_b_velocity_pct, momentum_peak_pct,
}
use automatamain.Score.Engine.{score}
use automatamain.Score.Engine.Tally.{score_total, points_sum, HavePoints}
use automatamain.Score.Gates.{
  WeakATierGateConfig, MomentumGoodStrongABypassConfig, strong_a_momentum_bypass_ok, has_red_flag,
}
use automatamain.Score.Continuation.{EarlyTapePoint, last}
use automatamain.Score.SecondLook.{ContinuationSecondLookConfig}
use automatamain.Score.Examples.{whole, token, limits, lane, scoring}

score_total_example :
    ((score scoring token limits).total ≡ wrap 32 (points_sum (score scoring token limits).items))
    × HavePoints (score scoring token limits).items
score_total_example = score_total scoring token limits

-- The items of a token that is overheated.
abbrev hot : List (Item × ℤ)
hot = (momentum_overheated, neg 3) ∷ (volume_ok, pos 1) ∷ []

hot_passes : fresh_b_hot_override_ok lane token hot ≡ true
unfolding fresh_b_hot_override_ok is_momentum_only_tier_b_fail tier_b_dev_eligible
    tier_b_base_gates_ok tier_b_velocity_ok has_momentum_good fresh_b_velocity_pct momentum_peak_pct
    buyer_count score_items_has
hot_passes = refl

abbrev no_smart : ℕ
no_smart = 0

abbrev pub bypass : MomentumGoodStrongABypassConfig Fixed
bypass = record {
  enabled = true;
  min_score = pos 8;
  min_buyers = 15;
  min_buy_volume_sol = whole 20;
  min_buy_to_sell_ratio = whole 2;
  require_absorb_strong = true;
  min_absorb_quality = some (pos 800_000);
  require_buyer_velocity_persistent = true;
  min_buyer_velocity_persistence = some (pos 600_000);
}

abbrev pub weak_gate : WeakATierGateConfig Fixed
weak_gate = record {
  enabled = true;
  max_score = pos 7;
  max_smart_wallets = 0;
  min_buy_volume_sol = whole 5;
  block_repeat_dump_slices_ge = 1;
  block_dev_neutral = true;
  block_dev_history_weak = true;
  continuation_second_look_max_score = pos 7;
}

abbrev plain : List (Item × ℤ)
plain = (volume_ok, pos 1) ∷ []

bypass_passes : strong_a_momentum_bypass_ok bypass a (pos 9) token plain ≡ true
unfolding strong_a_momentum_bypass_ok has_red_flag score_items_has buyer_count
bypass_passes = refl

abbrev pub point : ℕ → ℕ → EarlyTapePoint Fixed
point buyers mcap = record {
  buyer_count = buyers;
  buy_volume_sol = whole 5;
  cum_sell_raw = 0;
  mcap_sol = whole mcap;
}

risen : flt (whole 48) (last (point 8 48) (point 8 47 ∷ point 8 49 ∷ [])).mcap_sol ≡ true
unfolding last
risen = refl

abbrev pub second_look : ContinuationSecondLookConfig
second_look = record { enabled = true; min_score = pos 8 }
