-- ===== src/Exit/Entry.antt =====
-- What the entry tier means for an exit: the grace periods and the deferred time kill.
use automatamain.Base.{ℕ, Bool, false, ◌||◌, not, Option, none, some, if◌then◌else◌, ltb, ◌==◌}
use automatamain.Base.Int.{ℤ, pos, quot, max_ℤ}
use automatamain.Base.Float.{Float}
use automatamain.Base.Text.{
  Text, text, to_ascii_lowercase, contains, starts_with, ends_with, text_eq,
}
use automatamain.Exit.Types.{ExitEngineV4Config, LearningTradeSnapshot}

unfoldable pub entry_tier_is_a_plus : Text → Bool
entry_tier_is_a_plus tier =
    let t = to_ascii_lowercase tier in contains t (text "aplus") || contains t (text "a+")

unfoldable pub entry_tier_is_a : Text → Bool
entry_tier_is_a tier =
    let t = to_ascii_lowercase tier in
    if entry_tier_is_a_plus tier
    then false
    else text_eq t (text "a") || starts_with t (text "a ") || ends_with t (text "::a")

unfoldable pub in_sl_grace_period : ℕ → ℕ → Bool
in_sl_grace_period held_secs sl_grace_secs = ltb held_secs sl_grace_secs

module _ {F : Type 0} where
  unfoldable pub entry_live_score_floor : Option (LearningTradeSnapshot F) → ℤ
  entry_live_score_floor none = pos 1
  entry_live_score_floor (some s) = max_ℤ (quot s.score_total 2) (pos 1)

  unfoldable pub exit_grace_secs_for_tier : Text → ExitEngineV4Config F → ℕ
  exit_grace_secs_for_tier tier c =
      if entry_tier_is_a_plus tier
      then if ltb 0 c.exit_grace_secs_tier_a_plus
        then c.exit_grace_secs_tier_a_plus
        else c.exit_grace_secs
      else if entry_tier_is_a tier
      then if ltb 0 c.exit_grace_secs_tier_a then c.exit_grace_secs_tier_a else c.exit_grace_secs
      else c.exit_grace_secs

  unfoldable pub in_exit_grace_period : ℕ → ExitEngineV4Config F → Bool
  in_exit_grace_period held_secs c = ltb held_secs c.exit_grace_secs

  unfoldable pub in_exit_grace_period_tier : ℕ → Text → ExitEngineV4Config F → Bool
  in_exit_grace_period_tier held_secs tier c = ltb held_secs (exit_grace_secs_for_tier tier c)

module _ {F : Type 0} ⦃fl : Float F⦄ where
  open fl use {fle}

  -- The part after `snap?`.
  defer_with_snapshot : ExitEngineV4Config F → F → Option (LearningTradeSnapshot F) → Option ℕ
  defer_with_snapshot c mcap_pnl_pct none = none
  defer_with_snapshot c mcap_pnl_pct (some s) =
      if not s.has_momentum_good
      then none
      else if fle mcap_pnl_pct c.tier_a_time_kill_defer_mcap_min_pct
      then none
      else some c.tier_a_time_kill_defer_min_secs

  unfoldable pub tier_a_time_kill_defer_floor_secs :
      ExitEngineV4Config F → Text → Option (LearningTradeSnapshot F) → F → Option ℕ
  unfolding defer_with_snapshot
  tier_a_time_kill_defer_floor_secs c entry_tier snap mcap_pnl_pct =
      if c.tier_a_time_kill_defer_min_secs == 0
        || entry_tier_is_a_plus entry_tier
        || not (entry_tier_is_a entry_tier)
      then none
      else defer_with_snapshot c mcap_pnl_pct snap
