-- ===== src/Score/AntiRug.antt =====
-- The anti-rug gate and its caps (src/scoring/anti_rug.rs).
use automatamain.Base.{Bool, true, ◌&&◌, ◌||◌, not, Option, none, some, if◌then◌else◌}
use automatamain.Base.Float.{Float, flt}
use automatamain.Score.Types.{Tier, a_plus, a, AntiRugConfig, TokenFeatures}

pub data SkipReason : Type 0 where
  low_sell_side_volume low_fee_flow_ratio low_sell_pressure fake_buy_to_sell_ratio : SkipReason

module _ {F : Type 0} ⦃fl : Float F⦄ where
  open fl use {fle, fdiv}

  unfoldable pub entry_skip_reason : TokenFeatures F → AntiRugConfig F → Option SkipReason
  entry_skip_reason f cfg =
      let sell_vol = f.sell_volume_window_sol in
      let fee_flow = fdiv sell_vol f.buy_volume_sol in
      if not cfg.entry_gate_enabled || flt f.buy_volume_sol cfg.min_buy_volume_for_gates_sol
      then none
      else if flt sell_vol cfg.min_sell_volume_window_sol
      then some low_sell_side_volume
      else if flt fee_flow cfg.min_fee_flow_ratio
      then some low_fee_flow_ratio
      else if flt f.sell_pressure_score cfg.min_sell_pressure_score
      then some low_sell_pressure
      else if fle cfg.buy_to_sell_max_without_min_sell_vol f.buy_to_sell_ratio
          && flt sell_vol cfg.buy_to_sell_min_sell_vol_sol
      then some fake_buy_to_sell_ratio
      else none

  unfoldable pub cap_tier_for_low_mcap : TokenFeatures F → AntiRugConfig F → Tier → Tier
  cap_tier_for_low_mcap f cfg a_plus =
      if cfg.enabled
        && flt f.peak_mcap_sol cfg.low_mcap_peak_sol
        && flt f.buy_volume_sol cfg.low_mcap_min_buy_volume_sol
      then a
      else a_plus
  cap_tier_for_low_mcap f cfg tier = tier

  unfoldable pub rewards_buy_to_sell_ratio : TokenFeatures F → AntiRugConfig F → F → Bool
  rewards_buy_to_sell_ratio f cfg ratio_high =
      not (flt f.buy_to_sell_ratio ratio_high)
      && (if not cfg.enabled
          then true
          else fle cfg.buy_to_sell_min_sell_vol_sol f.sell_volume_window_sol
            || flt f.buy_to_sell_ratio cfg.buy_to_sell_max_without_min_sell_vol)
