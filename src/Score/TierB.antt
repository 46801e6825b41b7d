-- ===== src/Score/TierB.antt =====
-- The lane of fresh developers (the tier-B gates of src/scoring/features.rs).
pub mod Reasons
use automatamain.Base.{
  ℕ, Bool, true, false, ◌&&◌, ◌||◌, not, Option, none, some, List, if◌then◌else◌, ltb, leb,
}
use automatamain.Base.Int.{ℤ}
use automatamain.Base.Float.{Float, flt, fmax, int}
use automatamain.Score.Types.{
  Tier, a_plus, a, DevCategory, fresh, TokenFeatures, TierBGateConfig, Item, momentum_good,
  momentum_overheated, score_items_has, buyer_count,
}

pub data FreshBReason : Type 0 where
  fresh_b_disabled fresh_b_no_smart fresh_b_low_buyers fresh_b_low_volume : FreshBReason
  fresh_b_no_momentum fresh_b_low_velocity : FreshBReason

abbrev pub is_fresh : DevCategory → Bool
is_fresh fresh = true
is_fresh _ = false

unfoldable pub has_momentum_good : List (Item × ℤ) → Bool
has_momentum_good items = score_items_has momentum_good items

unfoldable pub has_momentum_overheated : List (Item × ℤ) → Bool
has_momentum_overheated items = score_items_has momentum_overheated items

unfoldable pub is_momentum_only_aa_overheated : List (Item × ℤ) → Bool
unfolding has_momentum_good has_momentum_overheated
is_momentum_only_aa_overheated items =
    has_momentum_overheated items && not (has_momentum_good items)

-- `enabled` is the only field of its configuration.
unfoldable pub aa_momentum_override_for_tier : Bool → Tier → List (Item × ℤ) → Bool
aa_momentum_override_for_tier enabled a items = enabled && is_momentum_only_aa_overheated items
aa_momentum_override_for_tier enabled a_plus items = enabled && is_momentum_only_aa_overheated items
aa_momentum_override_for_tier enabled _ items = false

-- The poll of the lane: its figures, and whether it passes.
pub record TierBGatePoll (F : Type 0) : Type 0 where
  pub entry_ok : Bool
  pub hot_override : Bool
  pub momentum_only_fail : Bool
  pub velocity_pct : F
  pub buyers : ℕ
  pub buy_volume_sol : F
  pub momentum_overheated : Bool

module _ {F : Type 0} ⦃fl : Float F⦄ where
  open fl use {fle, fsub, fmul, fdiv}

  unfoldable pub momentum_peak_pct : F → F → F
  momentum_peak_pct initial_mcap_sol peak_mcap_sol =
      if flt (int 0) initial_mcap_sol
      then fmul (fsub (fdiv peak_mcap_sol initial_mcap_sol) (int 1)) (int 100)
      else int 0

  unfoldable pub fresh_b_velocity_pct : TokenFeatures F → F
  fresh_b_velocity_pct f =
      momentum_peak_pct f.initial_mcap_sol (fmax f.peak_mcap_sol f.current_mcap_sol)

  unfoldable pub tier_b_dev_eligible : TokenFeatures F → TierBGateConfig F → Bool
  tier_b_dev_eligible f cfg =
      if not cfg.enabled || f.is_spam_dev then false else is_fresh f.dev_category

  unfoldable pub tier_b_base_gates_ok : TierBGateConfig F → TokenFeatures F → Bool
  tier_b_base_gates_ok cfg f =
      cfg.enabled
      && leb cfg.min_smart_wallets f.smart_wallet_count
      && leb cfg.min_buyers (buyer_count f)
      && fle cfg.min_buy_volume_sol f.buy_volume_sol

  unfoldable pub tier_b_velocity_ok : TierBGateConfig F → TokenFeatures F → Bool
  tier_b_velocity_ok cfg f = fle cfg.min_velocity_pct (fresh_b_velocity_pct f)

  unfoldable pub is_momentum_only_tier_b_fail :
      TierBGateConfig F → TokenFeatures F → List (Item × ℤ) → Bool
  is_momentum_only_tier_b_fail cfg f items =
      tier_b_dev_eligible f cfg
      && tier_b_base_gates_ok cfg f
      && tier_b_velocity_ok cfg f
      && not (has_momentum_good items)

  unfoldable pub fresh_b_hot_override_ok :
      TierBGateConfig F → TokenFeatures F → List (Item × ℤ) → Bool
  fresh_b_hot_override_ok cfg f items =
      let ho = cfg.hot_fresh_override in
      (ho.enabled && is_momentum_only_tier_b_fail cfg f items)
      && leb ho.min_buyers (buyer_count f)
      && fle ho.min_buy_volume_sol f.buy_volume_sol
      && fle ho.min_velocity_pct (fresh_b_velocity_pct f)

  unfoldable pub tier_b_entry_ok : TierBGateConfig F → TokenFeatures F → List (Item × ℤ) → Bool
  tier_b_entry_ok cfg f items =
      tier_b_base_gates_ok cfg f && has_momentum_good items && tier_b_velocity_ok cfg f

  unfoldable pub fresh_b_gate_fail_reason :
      TierBGateConfig F → TokenFeatures F → List (Item × ℤ) → Option FreshBReason
  fresh_b_gate_fail_reason cfg f items =
      if not cfg.enabled
      then some fresh_b_disabled
      else if not (tier_b_base_gates_ok cfg f)
      then if ltb f.smart_wallet_count cfg.min_smart_wallets
        then some fresh_b_no_smart
        else if ltb (buyer_count f) cfg.min_buyers
        then some fresh_b_low_buyers
        else if flt f.buy_volume_sol cfg.min_buy_volume_sol
        then some fresh_b_low_volume
        else none
      else if not (has_momentum_good items)
      then some fresh_b_no_momentum
      else if not (tier_b_velocity_ok cfg f)
      then some fresh_b_low_velocity
      else none

  unfoldable pub evaluate_tier_b_poll :
      TierBGateConfig F → TokenFeatures F → List (Item × ℤ) → TierBGatePoll F
  evaluate_tier_b_poll cfg f items =
      let entry_ok = tier_b_entry_ok cfg f items in
      record {
        entry_ok = entry_ok;
        hot_override = not entry_ok && fresh_b_hot_override_ok cfg f items;
        momentum_only_fail = is_momentum_only_tier_b_fail cfg f items;
        velocity_pct = fresh_b_velocity_pct f;
        buyers = buyer_count f;
        buy_volume_sol = f.buy_volume_sol;
        momentum_overheated = has_momentum_overheated items;
      }

  unfoldable pub tier_b_poll_passes : TierBGatePoll F → Bool
  tier_b_poll_passes poll = poll.entry_ok || poll.hot_override
