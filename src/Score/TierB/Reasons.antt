-- ===== src/Score/TierB/Reasons.antt =====
-- The reasons of the lane against its gates.
use automatamain.Base.{◌≡◌, ◌↔◌, arith, true, false, none, List}
use automatamain.Base.Int.{ℤ}
use automatamain.Base.Float.{Float, IsFloat}
use automatamain.Score.Types.{TokenFeatures, TierBGateConfig, Item}
use automatamain.Score.TierB.{
  fresh_b_gate_fail_reason, tier_b_entry_ok, tier_b_base_gates_ok, fresh_b_hot_override_ok,
  is_momentum_only_tier_b_fail,
}

module _ {F : Type 0} ⦃fl : Float F⦄ where
  open fl use {fle}

  -- The two ways into the lane exclude one another.
  hot_override_excludes_entry :
      (cfg : TierBGateConfig F) (f : TokenFeatures F) (items : List (Item × ℤ))
      → fresh_b_hot_override_ok cfg f items ≡ true
      → tier_b_entry_ok cfg f items ≡ false
  unfolding fresh_b_hot_override_ok is_momentum_only_tier_b_fail tier_b_entry_ok
  hot_override_excludes_entry cfg f items h = ground arith

  -- Where the bought volume and its minimum are numbers, the lane has no reason to refuse a token
  -- exactly when its gates pass.
  pub no_reason_iff_entry :
      (laws : IsFloat F) (cfg : TierBGateConfig F) (f : TokenFeatures F) (items : List (Item × ℤ))
      → fle f.buy_volume_sol f.buy_volume_sol ≡ true
      → fle cfg.min_buy_volume_sol cfg.min_buy_volume_sol ≡ true
      → (fresh_b_gate_fail_reason cfg f items ≡ none) ↔ (tier_b_entry_ok cfg f items ≡ true)
  unfolding fresh_b_gate_fail_reason tier_b_entry_ok tier_b_base_gates_ok
  no_reason_iff_entry laws cfg f items hv hm =
      let total = laws.fle_total f.buy_volume_sol cfg.min_buy_volume_sol hv hm in
      (ground arith, ground arith)
