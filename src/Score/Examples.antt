-- ===== src/Score/Examples.antt =====
-- A token and a configuration, for the tests of the score.
use automatamain.Base.{ℕ, ◌*◌, true, false, some, [], ◌∷◌}
use automatamain.Base.Int.{pos, neg}
use automatamain.Base.Float.{Fixed, fixed_float}
use automatamain.Score.Types.{
  TokenFeatures, FeatureThresholds, ScoringWeights, ScoringConfig, AntiRugConfig, TierBGateConfig,
  fresh,
}

abbrev pub whole : ℕ → Fixed
whole n = some (pos (n * 1_000_000))

-- A new developer's token that has doubled.
abbrev pub token : TokenFeatures Fixed
token = record {
  dev_has_history = false;
  dev_total_coins = 0;
  dev_pnl_avg = whole 0;
  dev_category = fresh;
  is_spam_dev = false;
  current_mcap_sol = whole 60;
  initial_mcap_sol = whole 30;
  peak_mcap_sol = whole 66;
  regular_buyer_count = 20;
  sniper_count = 8;
  buy_volume_sol = whole 40;
  buy_to_sell_ratio = whole 3;
  identical_size_ratio = whole 0;
  similar_size_ratio = whole 0;
  smart_wallet_count = 2;
  buyer_velocity_new_per_slice = 5 ∷ 6 ∷ [];
  buyer_velocity_persistence = some (pos 700_000);
  sell_pressure_score = some (pos 100_000);
  absorb_quality_score = some (pos 900_000);
  sell_volume_window_sol = whole 5;
  repeat_dump_slices = 0;
  smart_wallet_early_exits = 1;
}

abbrev pub limits : FeatureThresholds Fixed
limits = record {
  dev_strong_min_coins = 5;
  dev_strong_min_pnl_pct = whole 20;
  buyers_high = 10;
  buyers_mid = 6;
  buyers_low = 4;
  buy_to_sell_high = whole 2;
  momentum_good_low_pct = whole 12;
  momentum_good_high_pct = whole 30;
  momentum_overheated_pct = whole 55;
  volume_ok_sol = whole 10;
  bundle_similar_ratio = whole 1;
  bundle_identical_ratio = whole 1;
  smart_wallet_3plus_min = 3;
  smart_wallet_1plus_min = 1;
}

abbrev pub weights : ScoringWeights
weights = record {
  dev_history_strong = pos 2;
  dev_history_weak = pos 2;
  dev_ranker_a_plus = pos 3;
  dev_ranker_a = pos 1;
  dev_ranker_bad = neg 3;
  smart_wallets_3plus = pos 4;
  smart_wallets_1plus = pos 1;
  buyers_10plus = pos 2;
  buyers_6plus = pos 1;
  buyers_below_3 = neg 2;
  buy_to_sell_ratio_high = pos 1;
  momentum_good = pos 2;
  momentum_overheated = neg 3;
  volume_ok = pos 1;
  bundle_similar = neg 4;
  bundle_identical = neg 5;
  buyer_velocity_persistent = pos 2;
  buyer_velocity_fading = neg 2;
  sell_pressure_high = neg 2;
  absorb_strong = pos 1;
  smart_early_exit_dump = neg 3;
  repeat_dump_penalty = neg 1;
}

abbrev pub anti_rug : AntiRugConfig Fixed
anti_rug = record {
  enabled = true;
  entry_gate_enabled = true;
  min_sell_volume_window_sol = whole 1;
  min_fee_flow_ratio = whole 0;
  min_sell_pressure_score = whole 0;
  min_buy_volume_for_gates_sol = whole 10;
  absorb_strong_min_sell_vol_sol = whole 1;
  buy_to_sell_max_without_min_sell_vol = whole 8;
  buy_to_sell_min_sell_vol_sol = whole 1;
  buyer_velocity_min_slices = 2;
  low_mcap_peak_sol = whole 60;
  low_mcap_min_buy_volume_sol = whole 25;
}

abbrev pub lane : TierBGateConfig Fixed
lane = record {
  enabled = true;
  min_smart_wallets = 1;
  min_buyers = 10;
  min_buy_volume_sol = whole 10;
  min_velocity_pct = whole 10;
  hot_fresh_override = record {
    enabled = true;
    min_buyers = 25;
    min_buy_volume_sol = whole 25;
    min_velocity_pct = whole 100;
  };
}

abbrev pub scoring : ScoringConfig Fixed
scoring = record {
  legacy_scoring = false;
  weights = weights;
  thresholds = limits;
  anti_rug = anti_rug;
  tier_b = lane;
  aa_momentum_override = true;
  a_plus_threshold = pos 9;
  a_threshold = pos 6;
  size = record { a_plus_sol = whole 2; a_sol = whole 1; b_sol = whole 1 };
  spam_dev_penalty = neg 4;
}
