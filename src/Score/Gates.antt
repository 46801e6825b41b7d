-- ===== src/Score/Gates.antt =====
-- The gates of tiers A and A+ before a buy (src/scoring/features.rs).
pub mod Laws
use automatamain.Base.{
  ℕ, Bool, true, false, ◌&&◌, ◌||◌, not, Option, none, some, List, if◌then◌else◌, ltb, leb, ◌==◌,
}
use automatamain.Base.Int.{ℤ, leb_ℤ, ltb_ℤ}
use automatamain.Base.Float.{Float, flt, int}
use automatamain.Score.Types.{
  Tier, a_plus, a, DevCategory, neutral, stale, TokenFeatures, Item, dev_history_weak,
  score_items_has, buyer_velocity_fading, momentum_overheated, repeat_dump_cluster,
  sell_pressure_high, bundle_identical, bundle_similar, absorb_strong, buyer_velocity_persistent,
  buyer_count,
}

pub data GateReason : Type 0 where
  low_velocity_a_setup aplus_no_smart_required aplus_no_smart_fake_b2s : GateReason
  weak_a_synthetic_pump weak_a_dump_in_tape weak_a_low_volume : GateReason

pub record WeakASyntheticPumpConfig (F : Type 0) : Type 0 where
  pub enabled : Bool
  pub buy_to_sell_ratio_gt : F
  pub sell_volume_window_sol_lt : F

pub record WeakATierGateConfig (F : Type 0) : Type 0 where
  pub enabled : Bool
  pub max_score : ℤ
  pub max_smart_wallets : ℕ
  pub min_buy_volume_sol : F
  pub block_repeat_dump_slices_ge : ℕ
  pub block_dev_neutral : Bool
  pub block_dev_history_weak : Bool
  pub continuation_second_look_max_score : ℤ

pub record MomentumGoodStrongABypassConfig (F : Type 0) : Type 0 where
  pub enabled : Bool
  pub min_score : ℤ
  pub min_buyers : ℕ
  pub min_buy_volume_sol : F
  pub min_buy_to_sell_ratio : F
  pub require_absorb_strong : Bool
  pub min_absorb_quality : F
  pub require_buyer_velocity_persistent : Bool
  pub min_buyer_velocity_persistence : F

abbrev pub is_a : Tier → Bool
is_a a = true
is_a _ = false

abbrev pub is_a_plus : Tier → Bool
is_a_plus a_plus = true
is_a_plus _ = false

-- `matches!(dev_category, Neutral | Stale)`.
abbrev pub is_neutral : DevCategory → Bool
is_neutral neutral = true
is_neutral stale = true
is_neutral _ = false

unfoldable pub has_red_flag : List (Item × ℤ) → Bool
has_red_flag items =
    score_items_has buyer_velocity_fading items
    || score_items_has momentum_overheated items
    || score_items_has repeat_dump_cluster items
    || score_items_has sell_pressure_high items
    || score_items_has bundle_identical items
    || score_items_has bundle_similar items

module _ {F : Type 0} ⦃fl : Float F⦄ where
  open fl use {fle}

  unfoldable pub weak_a_profile_match :
      WeakATierGateConfig F → Tier → ℤ → ℕ → DevCategory → List (Item × ℤ) → Bool
  weak_a_profile_match cfg tier score smart_wallet_count dev_category items =
      if not cfg.enabled || not (is_a tier)
      then false
      else if ltb_ℤ cfg.max_score score || ltb cfg.max_smart_wallets smart_wallet_count
      then false
      else (cfg.block_dev_neutral && is_neutral dev_category)
        || (cfg.block_dev_history_weak && score_items_has dev_history_weak items)

  unfoldable pub tier_a_low_velocity_skip_reason : Tier → F → Option GateReason
  tier_a_low_velocity_skip_reason tier velocity_pct =
      if is_a tier && flt velocity_pct (int 3) then some low_velocity_a_setup else none

  unfoldable pub aplus_rug_gate_skip_reason : Tier → ℕ → F → Option GateReason
  aplus_rug_gate_skip_reason tier smart_wallet_count buy_to_sell_ratio =
      if not (is_a_plus tier)
      then none
      else if ltb smart_wallet_count 1
      then some aplus_no_smart_required
      else if smart_wallet_count == 0 && flt (int 10) buy_to_sell_ratio
      then some aplus_no_smart_fake_b2s
      else none

  unfoldable pub weak_a_synthetic_pump_skip_reason :
      WeakASyntheticPumpConfig F → Tier → ℕ → TokenFeatures F → List (Item × ℤ) → Option GateReason
  weak_a_synthetic_pump_skip_reason cfg tier smart_wallet_count f items =
      if not cfg.enabled || not (is_a tier)
      then none
      else if not (smart_wallet_count == 0)
      then none
      else if not (score_items_has dev_history_weak items)
      then none
      else if fle f.buy_to_sell_ratio cfg.buy_to_sell_ratio_gt
      then none
      else if fle cfg.sell_volume_window_sol_lt f.sell_volume_window_sol
      then none
      else some weak_a_synthetic_pump

  unfoldable pub weak_a_hard_skip_reason :
      WeakATierGateConfig F → Tier → ℤ → ℕ → TokenFeatures F → List (Item × ℤ) → Option GateReason
  weak_a_hard_skip_reason cfg tier score smart_wallet_count f items =
      if not (weak_a_profile_match cfg tier score smart_wallet_count f.dev_category items)
      then none
      else if leb cfg.block_repeat_dump_slices_ge f.repeat_dump_slices
      then some weak_a_dump_in_tape
      else if flt f.buy_volume_sol cfg.min_buy_volume_sol
      then some weak_a_low_volume
      else none

  unfoldable pub strong_a_momentum_bypass_ok :
      MomentumGoodStrongABypassConfig F → Tier → ℤ → TokenFeatures F → List (Item × ℤ) → Bool
  strong_a_momentum_bypass_ok cfg tier score f items =
      let absorb_ok =
        not cfg.require_absorb_strong
        || score_items_has absorb_strong items
        || fle cfg.min_absorb_quality f.absorb_quality_score in
      let velocity_ok =
        not cfg.require_buyer_velocity_persistent
        || score_items_has buyer_velocity_persistent items
        || fle cfg.min_buyer_velocity_persistence f.buyer_velocity_persistence in
      if not cfg.enabled || not (is_a tier) || ltb_ℤ score cfg.min_score
      then false
      else if has_red_flag items
      then false
      else if ltb (buyer_count f) cfg.min_buyers
      then false
      else if flt f.buy_volume_sol cfg.min_buy_volume_sol
      then false
      else if flt f.buy_to_sell_ratio cfg.min_buy_to_sell_ratio
      then false
      else absorb_ok && velocity_ok
