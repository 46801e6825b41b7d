-- ===== src/Pipeline/Tests.antt =====
-- An order of a live bot, with the gates and the polls on.
use automatamain.Base.{ℕ, ◌≤◌, ◌≡◌, true, false, none, some, [], ◌∷◌, refl}
use automatamain.Base.Int.{pos, ◌≤ℤ◌}
use automatamain.Base.Float.{Fixed, fixed_float, Fixed-IsFloat}
use automatamain.Score.Types.{TokenFeatures, a_plus, buyer_count, score_items_has, dev_a_plus}
use automatamain.Score.TierB.{
  tier_b_dev_eligible, momentum_peak_pct, is_momentum_only_aa_overheated,
}
use automatamain.Score.Examples.{whole, token, limits, scoring}
use automatamain.Score.Tests.{bypass, weak_gate, point, second_look}
use automatamain.Pipeline.Confirm.{
  Observed, confirm_skip_reason, continuation_gate, second_chance, look, needs_peak_defer,
  parabolic_gate,
}
use automatamain.Pipeline.{
  PipelineConfig, min_a_plus, initiate_buy, run_scoring_and_buy, decide_buy, buy_amount, live_gates,
  tier_gates, momentum_good_satisfied,
}
use automatamain.Pipeline.Safety.{
  seen_features, seen_score, order_within_cap, live_a_plus_order, peak_guard_idle,
}
use automatamain.Score.Engine.{
  score, score_v2, finish_breakdown, board_v2, apply_early_tape_scores, add_either, add_if, add,
  add_bundle_v2, add_volume, add_momentum_v2, scoring_momentum_pct, add_people, add_ranker,
  add_smart, size_for,
}
use automatamain.Score.AntiRug.{cap_tier_for_low_mcap, entry_skip_reason, rewards_buy_to_sell_ratio}
use automatamain.Score.Continuation.{
  aplus_peak_no_smart_guard, check_sells, count_upticks, evaluate_continuation, last,
  parabolic_peak_suspect,
}
use automatamain.Score.Gates.{
  aplus_rug_gate_skip_reason, tier_a_low_velocity_skip_reason, weak_a_hard_skip_reason,
  weak_a_profile_match, weak_a_synthetic_pump_skip_reason,
}

abbrev config : PipelineConfig Fixed
config = record {
  live = true;
  scoring = scoring;
  require_momentum_good = true;
  momentum_good_smart_bypass = 2;
  momentum_good_aplus_smart_bypass = 1;
  momentum_good_strong_a = bypass;
  minimum_tier_for_buy = min_a_plus;
  spam_dev_require_a_plus = true;
  weak_a_gate = weak_gate;
  synthetic_pump = record {
    enabled = true;
    buy_to_sell_ratio_gt = whole 10;
    sell_volume_window_sol_lt = whole 1;
  };
  confirm = record {
    continuation_enabled = true;
    confirm_window_ms = 400;
    continuation = record {
      min_upticks = 1;
      min_new_unique_buyers = 1;
      min_buys_per_sec = whole 1;
      max_sell_absorption_ratio = whole 2;
      max_b2s_drop_ratio = whole 1;
    };
    second_look = second_look;
    aplus_peak_guard = record {
      enabled = true;
      min_mcap_sol = whole 200;
      near_peak_ratio = whole 1;
      recheck_min_vs_peak_ratio = some (pos 850_000);
      strong_upticks = 2;
      strong_new_buyers = 2;
    };
    weak_a_gate = weak_gate;
    anti_parabolic = record { enabled = true; weak_score_max = pos 7; near_peak_ratio = whole 1 };
    strong_upticks = 2;
    strong_new_buyers = 2;
  };
}

abbrev window : Observed Fixed
window = record {
  points = record (point 28 60) { buy_volume_sol = whole 2 } ∷ point 30 62 ∷ point 34 66 ∷ [];
  current_mcap_sol = whole 66;
}

abbrev two : ℕ
two = 2

abbrev dust : Fixed
dust = some (pos 0)

abbrev cap : Fixed
cap = whole 1

-- A token whose developer has a record.
abbrev known : TokenFeatures Fixed
known = record token {
  dev_has_history = true;
  dev_total_coins = 9;
  dev_pnl_avg = whole 40;
  dev_category = dev_a_plus;
}

buys :
    run_scoring_and_buy config limits known two false cap dust window window
    ≡ initiate_buy cap a_plus
unfolding run_scoring_and_buy decide_buy score score_v2 finish_breakdown tier_b_dev_eligible
    cap_tier_for_low_mcap board_v2 apply_early_tape_scores add_either add_if add add_bundle_v2
    add_volume add_momentum_v2 scoring_momentum_pct momentum_peak_pct add_people confirm_skip_reason
    continuation_gate look needs_peak_defer parabolic_gate buy_amount live_gates tier_gates
    momentum_good_satisfied entry_skip_reason rewards_buy_to_sell_ratio aplus_peak_no_smart_guard
    check_sells count_upticks evaluate_continuation last parabolic_peak_suspect add_ranker add_smart
    size_for aplus_rug_gate_skip_reason tier_a_low_velocity_skip_reason weak_a_hard_skip_reason
    weak_a_profile_match weak_a_synthetic_pump_skip_reason is_momentum_only_aa_overheated
    buyer_count score_items_has
buys = refl

order_within_cap_example : (fixed_float.fle cap cap ≡ true) × (fixed_float.fle cap dust ≡ false)
order_within_cap_example =
    order_within_cap config limits known two false cap dust cap window window a_plus buys
      Fixed-IsFloat refl

live_a_plus_order_example :
    (1 ≤ two)
    × (tier_b_dev_eligible (seen_features known false) config.scoring.tier_b ≡ false)
    × (config.scoring.a_plus_threshold ≤ℤ (seen_score config limits known false).total)
live_a_plus_order_example =
    live_a_plus_order config limits known two false cap dust cap window window buys refl

gates_pass :
    live_gates config (seen_features known false) (seen_score config limits known false) two false
    ≡ none
unfolding live_gates tier_gates tier_b_dev_eligible score score_v2 finish_breakdown
    cap_tier_for_low_mcap board_v2 apply_early_tape_scores add_either add_if add add_bundle_v2
    add_volume add_momentum_v2 scoring_momentum_pct momentum_peak_pct add_people
    momentum_good_satisfied entry_skip_reason rewards_buy_to_sell_ratio add_ranker add_smart
    size_for aplus_rug_gate_skip_reason tier_a_low_velocity_skip_reason weak_a_hard_skip_reason
    weak_a_profile_match weak_a_synthetic_pump_skip_reason is_momentum_only_aa_overheated
    buyer_count score_items_has
gates_pass = refl

peak_guard_idle_example :
    continuation_gate config.confirm
      (seen_features known false)
      (seen_score config limits known false)
      two
      window
      window
    ≡ elim (look config.confirm
        (seen_features known false)
        (seen_score config limits known false)
        two
        window) [
          | none ↦ none
          | some reason ↦
              second_chance config.confirm
                (seen_features known false)
                (seen_score config limits known false)
                two
                window
                window
                reason
        ]
peak_guard_idle_example =
    peak_guard_idle config (seen_features known false) (seen_score config limits known false) two
      false window window gates_pass
