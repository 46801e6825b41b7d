-- ===== src/Score/Types.antt =====
-- The data of the score: features, thresholds, weights, gates, and the board of points.
use automatamain.Base.{ℕ, ◌+◌, ◌%◌, ◌^◌, Bool, false, ◌||◌, List, [], ◌∷◌, ◌==◌}
use automatamain.Base.Int.{ℤ}

pub data Tier : Type 0 where
  a_plus a b skip : Tier

pub data DevCategory : Type 0 where
  dev_a_plus dev_a neutral bad stale fresh : DevCategory

-- The fields of `TokenFeatures` that the score and its gates read.
pub record TokenFeatures (F : Type 0) : Type 0 where
  pub dev_has_history : Bool
  pub dev_total_coins : ℕ
  pub dev_pnl_avg : F
  pub dev_category : DevCategory
  pub is_spam_dev : Bool
  pub current_mcap_sol : F
  pub initial_mcap_sol : F
  pub peak_mcap_sol : F
  pub regular_buyer_count : ℕ
  pub sniper_count : ℕ
  pub buy_volume_sol : F
  pub buy_to_sell_ratio : F
  pub identical_size_ratio : F
  pub similar_size_ratio : F
  pub smart_wallet_count : ℕ
  pub buyer_velocity_new_per_slice : List ℕ
  pub buyer_velocity_persistence : F
  pub sell_pressure_score : F
  pub absorb_quality_score : F
  pub sell_volume_window_sol : F
  pub repeat_dump_slices : ℕ
  pub smart_wallet_early_exits : ℕ

pub record FeatureThresholds (F : Type 0) : Type 0 where
  pub dev_strong_min_coins : ℕ
  pub dev_strong_min_pnl_pct : F
  pub buyers_high : ℕ
  pub buyers_mid : ℕ
  pub buyers_low : ℕ
  pub buy_to_sell_high : F
  pub momentum_good_low_pct : F
  pub momentum_good_high_pct : F
  pub momentum_overheated_pct : F
  pub volume_ok_sol : F
  pub bundle_similar_ratio : F
  pub bundle_identical_ratio : F
  pub smart_wallet_3plus_min : ℕ
  pub smart_wallet_1plus_min : ℕ

pub record ScoringWeights : Type 0 where
  pub dev_history_strong : ℤ
  pub dev_history_weak : ℤ
  pub dev_ranker_a_plus : ℤ
  pub dev_ranker_a : ℤ
  pub dev_ranker_bad : ℤ
  pub smart_wallets_3plus : ℤ
  pub smart_wallets_1plus : ℤ
  pub buyers_10plus : ℤ
  pub buyers_6plus : ℤ
  pub buyers_below_3 : ℤ
  pub buy_to_sell_ratio_high : ℤ
  pub momentum_good : ℤ
  pub momentum_overheated : ℤ
  pub volume_ok : ℤ
  pub bundle_similar : ℤ
  pub bundle_identical : ℤ
  pub buyer_velocity_persistent : ℤ
  pub buyer_velocity_fading : ℤ
  pub sell_pressure_high : ℤ
  pub absorb_strong : ℤ
  pub smart_early_exit_dump : ℤ
  pub repeat_dump_penalty : ℤ

pub record AntiRugConfig (F : Type 0) : Type 0 where
  pub enabled : Bool
  pub entry_gate_enabled : Bool
  pub min_sell_volume_window_sol : F
  pub min_fee_flow_ratio : F
  pub min_sell_pressure_score : F
  pub min_buy_volume_for_gates_sol : F
  pub absorb_strong_min_sell_vol_sol : F
  pub buy_to_sell_max_without_min_sell_vol : F
  pub buy_to_sell_min_sell_vol_sol : F
  pub buyer_velocity_min_slices : ℕ
  pub low_mcap_peak_sol : F
  pub low_mcap_min_buy_volume_sol : F

pub record HotFreshOverrideConfig (F : Type 0) : Type 0 where
  pub enabled : Bool
  pub min_buyers : ℕ
  pub min_buy_volume_sol : F
  pub min_velocity_pct : F

pub record TierBGateConfig (F : Type 0) : Type 0 where
  pub enabled : Bool
  pub min_smart_wallets : ℕ
  pub min_buyers : ℕ
  pub min_buy_volume_sol : F
  pub min_velocity_pct : F
  pub hot_fresh_override : HotFreshOverrideConfig F

pub record TierSize (F : Type 0) : Type 0 where
  pub a_plus_sol : F
  pub a_sol : F
  pub b_sol : F

-- The fields of `ScoringConfig` that the engine reads; `aa_momentum_override` is whether it is on.
pub record ScoringConfig (F : Type 0) : Type 0 where
  pub legacy_scoring : Bool
  pub weights : ScoringWeights
  pub thresholds : FeatureThresholds F
  pub anti_rug : AntiRugConfig F
  pub tier_b : TierBGateConfig F
  pub aa_momentum_override : Bool
  pub a_plus_threshold : ℤ
  pub a_threshold : ℤ
  pub size : TierSize F
  pub spam_dev_penalty : ℤ

-- The names of the items, in the order of the engine.
pub data Item : Type 0 where
  spam_dev_penalty dev_history_strong dev_history_weak dev_ranker_a_plus dev_ranker_a : Item
  dev_ranker_bad smart_wallets_3plus smart_wallets_1plus buyers_10plus buyers_6plus : Item
  buyers_below_3 buy_to_sell_ratio_high momentum_overheated momentum_good volume_ok : Item
  bundle_identical bundle_similar buyer_velocity_persistent buyer_velocity_fading : Item
  sell_pressure_high absorb_strong smart_early_exit_dump repeat_dump_cluster : Item

abbrev pub number : Item → ℕ
number spam_dev_penalty = 0
number dev_history_strong = 1
number dev_history_weak = 2
number dev_ranker_a_plus = 3
number dev_ranker_a = 4
number dev_ranker_bad = 5
number smart_wallets_3plus = 6
number smart_wallets_1plus = 7
number buyers_10plus = 8
number buyers_6plus = 9
number buyers_below_3 = 10
number buy_to_sell_ratio_high = 11
number momentum_overheated = 12
number momentum_good = 13
number volume_ok = 14
number bundle_identical = 15
number bundle_similar = 16
number buyer_velocity_persistent = 17
number buyer_velocity_fading = 18
number sell_pressure_high = 19
number absorb_strong = 20
number smart_early_exit_dump = 21
number repeat_dump_cluster = 22

-- `items.iter().any(|(n, _)| *n == name)`.
unfoldable pub score_items_has : Item → List (Item × ℤ) → Bool
score_items_has name [] = false
score_items_has name ((n, points) ∷ items) = number n == number name || score_items_has name items

unfoldable pub buyer_count : {F : Type 0} → TokenFeatures F → ℕ
buyer_count f = (f.regular_buyer_count + f.sniper_count) % 2 ^ 64
