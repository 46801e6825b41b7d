-- ===== src/Score/Engine.antt =====
-- The engine of src/scoring/score_engine.rs: the points, item by item, and the tier.
pub mod Cases
pub mod Tally
pub mod Verdict
use automatamain.Base.{
  ℕ, ◌+◌, ◌%◌, ◌^◌, ◌*◌, ◌-◌, suc, min, max, Bool, true, false, ◌&&◌, ◌||◌, not, List, [], ◌∷◌,
  ◌++◌, if◌then◌else◌, ltb, leb, ◌==◌, length,
}
use automatamain.Base.Int.{
  ℤ, pos, negsuc, pos_part, neg_part, neg, sub_ℕ, ◌+ℤ◌, leb_ℤ, max_ℤ, quot, wrap,
}
use automatamain.Base.Float.{Float, flt, fmax, int, milli}
use automatamain.Score.Types.{
  Tier, a_plus, a, b, skip, DevCategory, dev_a_plus, dev_a, bad, TokenFeatures, FeatureThresholds,
  ScoringWeights, ScoringConfig, AntiRugConfig, Item, spam_dev_penalty, dev_history_strong,
  dev_history_weak, dev_ranker_a_plus, dev_ranker_a, dev_ranker_bad, smart_wallets_3plus,
  smart_wallets_1plus, buyers_10plus, buyers_6plus, buyers_below_3, buy_to_sell_ratio_high,
  momentum_overheated, momentum_good, volume_ok, bundle_identical, bundle_similar,
  buyer_velocity_persistent, buyer_velocity_fading, sell_pressure_high, absorb_strong,
  smart_early_exit_dump, repeat_dump_cluster, buyer_count,
}
use automatamain.Score.AntiRug.{cap_tier_for_low_mcap, rewards_buy_to_sell_ratio}
use automatamain.Score.TierB.{
  momentum_peak_pct, tier_b_entry_ok, fresh_b_hot_override_ok, tier_b_dev_eligible,
  aa_momentum_override_for_tier,
}

-- The total and the items so far.
abbrev pub Board : Type 0
Board = ℤ × List (Item × ℤ)

-- The closure `add`: an item of no points is not listed.
unfoldable pub add : Item → ℤ → Board → Board
unfolding ◌+ℤ◌
add name points (total, items) =
    if pos_part points + neg_part points == 0
    then (total, items)
    else (wrap 32 (total +ℤ points), items ++ ((name, points) ∷ []))

-- `saturating_mul` of an i32 by a small positive number.
abbrev pub saturating_mul_i32 : ℤ → ℕ → ℤ
saturating_mul_i32 (pos n) k = pos (min (n * k) (2 ^ 31 - 1))
saturating_mul_i32 (negsuc n) k = neg (min (suc n * k) (2 ^ 31))

unfoldable pub add_if : Bool → Item → ℤ → Board → Board
add_if c name points board = if c then add name points board else board

-- One item, or else another one.
unfoldable pub add_either : Bool → Item → ℤ → Bool → Item → ℤ → Board → Board
add_either c name points d other penalty board =
    if c then add name points board else add_if d other penalty board

unfoldable pub add_ranker : ScoringWeights → DevCategory → Board → Board
add_ranker w dev_a_plus board = add dev_ranker_a_plus w.dev_ranker_a_plus board
add_ranker w dev_a board = add dev_ranker_a w.dev_ranker_a board
add_ranker w bad board = add dev_ranker_bad w.dev_ranker_bad board
add_ranker w _ board = board

abbrev pub is_a : Tier → Bool
is_a a = true
is_a _ = false

abbrev pub is_a_plus : Tier → Bool
is_a_plus a_plus = true
is_a_plus _ = false

pub record ScoreBreakdown (F : Type 0) : Type 0 where
  pub total : ℤ
  pub items : List (Item × ℤ)
  pub tier : Tier
  pub recommended_size_sol : F
  pub fresh_b_hot_override : Bool
  pub a_momentum_override : Bool
  pub a_plus_momentum_override : Bool

module _ {F : Type 0} ⦃fl : Float F⦄ where
  open fl use {fle}

  unfoldable pub scoring_momentum_pct : TokenFeatures F → F
  scoring_momentum_pct f =
      momentum_peak_pct f.initial_mcap_sol (fmax f.peak_mcap_sol f.current_mcap_sol)

  -- The developer and the smart wallets: the same in both engines.
  unfoldable pub add_smart : ScoringConfig F → FeatureThresholds F → TokenFeatures F → Board → Board
  add_smart cfg t f board₀ =
      let w = cfg.weights in
      let board₁ = add_if f.is_spam_dev spam_dev_penalty cfg.spam_dev_penalty board₀ in
      let strong =
        leb t.dev_strong_min_coins f.dev_total_coins
        && fle t.dev_strong_min_pnl_pct f.dev_pnl_avg in
      let board₂ =
        if not f.dev_has_history
        then board₁
        else add_either strong dev_history_strong w.dev_history_strong true dev_history_weak
            w.dev_history_weak board₁ in
      let board₃ = add_ranker w f.dev_category board₂ in
      add_either (leb t.smart_wallet_3plus_min f.smart_wallet_count) smart_wallets_3plus
        w.smart_wallets_3plus (leb t.smart_wallet_1plus_min f.smart_wallet_count)
        smart_wallets_1plus w.smart_wallets_1plus board₃

  -- The buyers and their pressure after them: the same in both engines.
  unfoldable pub add_people :
      ScoringConfig F → FeatureThresholds F → TokenFeatures F → Board → Board
  add_people cfg t f board₀ =
      let w = cfg.weights in
      let board₄ = add_smart cfg t f board₀ in
      let buyers = buyer_count f in
      let board₅ =
        if leb t.buyers_high buyers
        then add buyers_10plus w.buyers_10plus board₄
        else add_either (leb t.buyers_mid buyers) buyers_6plus w.buyers_6plus
            (ltb buyers t.buyers_low) buyers_below_3 w.buyers_below_3 board₄ in
      add_if (rewards_buy_to_sell_ratio f cfg.anti_rug t.buy_to_sell_high) buy_to_sell_ratio_high
        w.buy_to_sell_ratio_high board₅

  abbrev in_good_band : FeatureThresholds F → F → Bool
  in_good_band t momentum_pct =
      fle t.momentum_good_low_pct momentum_pct && fle momentum_pct t.momentum_good_high_pct

  unfoldable pub add_momentum_legacy :
      ScoringConfig F → FeatureThresholds F → TokenFeatures F → Board → Board
  add_momentum_legacy cfg t f board =
      let momentum_pct = scoring_momentum_pct f in
      add_either (fle t.momentum_overheated_pct momentum_pct) momentum_overheated
        cfg.weights.momentum_overheated (in_good_band t momentum_pct) momentum_good
        cfg.weights.momentum_good board

  unfoldable pub add_momentum_v2 :
      ScoringConfig F → FeatureThresholds F → TokenFeatures F → Board → Board
  add_momentum_v2 cfg t f board =
      let momentum_pct = scoring_momentum_pct f in
      add_either (in_good_band t momentum_pct) momentum_good cfg.weights.momentum_good
        (flt t.momentum_good_high_pct momentum_pct
          || (flt t.momentum_good_high_pct t.momentum_overheated_pct
              && fle t.momentum_overheated_pct momentum_pct))
        momentum_overheated cfg.weights.momentum_overheated board

  unfoldable pub add_volume :
      ScoringConfig F → FeatureThresholds F → TokenFeatures F → Board → Board
  add_volume cfg t f board =
      add_if (fle t.volume_ok_sol f.buy_volume_sol) volume_ok cfg.weights.volume_ok board

  unfoldable pub add_bundle_legacy :
      ScoringConfig F → FeatureThresholds F → TokenFeatures F → Board → Board
  add_bundle_legacy cfg t f board =
      add_either (fle t.bundle_identical_ratio f.identical_size_ratio) bundle_identical
        cfg.weights.bundle_identical (fle t.bundle_similar_ratio f.similar_size_ratio)
        bundle_similar cfg.weights.bundle_similar board

  unfoldable pub add_bundle_v2 :
      ScoringConfig F → FeatureThresholds F → TokenFeatures F → Board → Board
  add_bundle_v2 cfg t f board =
      add_if (fle t.bundle_similar_ratio f.similar_size_ratio) bundle_similar
        cfg.weights.bundle_similar board

  unfoldable pub apply_early_tape_scores : ScoringConfig F → TokenFeatures F → Board → Board
  apply_early_tape_scores cfg f board₀ =
      let w = cfg.weights in
      let ar = cfg.anti_rug in
      let min_slices = if ar.enabled then max ar.buyer_velocity_min_slices 2 else 1 in
      let slices = length f.buyer_velocity_new_per_slice in
      let board₁ =
        add_either (fle (milli 620) f.buyer_velocity_persistence && leb min_slices slices)
          buyer_velocity_persistent w.buyer_velocity_persistent
          (fle f.buyer_velocity_persistence (milli 280) && leb 2 slices) buyer_velocity_fading
          w.buyer_velocity_fading board₀ in
      let board₂ =
        add_if (fle (milli 580) f.sell_pressure_score) sell_pressure_high w.sell_pressure_high
          board₁ in
      let absorb_min_sell = if ar.enabled then ar.absorb_strong_min_sell_vol_sol else milli 50 in
      let board₃ =
        add_if
          (fle (milli 580) f.absorb_quality_score && fle absorb_min_sell f.sell_volume_window_sol)
          absorb_strong w.absorb_strong board₂ in
      let board₄ =
        add_either (leb 2 f.smart_wallet_early_exits) smart_early_exit_dump w.smart_early_exit_dump
          (f.smart_wallet_early_exits == 1) smart_early_exit_dump
          (max_ℤ (quot w.smart_early_exit_dump 2) (neg 2)) board₃ in
      add_either (leb 2 f.repeat_dump_slices) repeat_dump_cluster
        (saturating_mul_i32 w.repeat_dump_penalty 3) (leb 1 f.repeat_dump_slices)
        repeat_dump_cluster (saturating_mul_i32 w.repeat_dump_penalty 2) board₄

  unfoldable pub size_for : ScoringConfig F → Tier → F
  size_for cfg a_plus = cfg.size.a_plus_sol
  size_for cfg a = cfg.size.a_sol
  size_for cfg b = cfg.size.b_sol
  size_for cfg skip = int 0

  unfoldable pub finish_breakdown : ScoringConfig F → TokenFeatures F → Board → ScoreBreakdown F
  finish_breakdown cfg f (total, items) =
      let score_tier = cap_tier_for_low_mcap f cfg.anti_rug (
        if leb_ℤ cfg.a_plus_threshold total
        then a_plus
        else if leb_ℤ cfg.a_threshold total
        then a
        else skip) in
      let tier_b_ok = tier_b_entry_ok cfg.tier_b f items in
      let hot_override = not tier_b_ok && fresh_b_hot_override_ok cfg.tier_b f items in
      let tier =
        if tier_b_dev_eligible f cfg.tier_b
        then if tier_b_ok || hot_override then b else skip
        else score_tier in
      record {
        total = total;
        items = items;
        tier = tier;
        recommended_size_sol = size_for cfg tier;
        fresh_b_hot_override = hot_override;
        a_momentum_override =
            is_a tier && aa_momentum_override_for_tier cfg.aa_momentum_override tier items;
        a_plus_momentum_override =
            is_a_plus tier && aa_momentum_override_for_tier cfg.aa_momentum_override tier items;
      }

  unfoldable pub board_legacy : ScoringConfig F → TokenFeatures F → Board
  board_legacy cfg f =
      let t = cfg.thresholds in
      apply_early_tape_scores cfg f (
        add_bundle_legacy cfg t f
          (add_volume cfg t f (add_momentum_legacy cfg t f (add_people cfg t f (pos 0, [])))))

  unfoldable pub board_v2 : ScoringConfig F → TokenFeatures F → FeatureThresholds F → Board
  board_v2 cfg f t = apply_early_tape_scores cfg f (
      add_bundle_v2 cfg t f
        (add_volume cfg t f (add_momentum_v2 cfg t f (add_people cfg t f (pos 0, [])))))

  unfoldable pub score_legacy : ScoringConfig F → TokenFeatures F → ScoreBreakdown F
  score_legacy cfg f = finish_breakdown cfg f (board_legacy cfg f)

  unfoldable pub score_v2 :
      ScoringConfig F → TokenFeatures F → FeatureThresholds F → ScoreBreakdown F
  score_v2 cfg f t = finish_breakdown cfg f (board_v2 cfg f t)

  unfoldable pub score : ScoringConfig F → TokenFeatures F → FeatureThresholds F → ScoreBreakdown F
  score cfg f thresholds =
      if cfg.legacy_scoring then score_legacy cfg f else score_v2 cfg f thresholds
