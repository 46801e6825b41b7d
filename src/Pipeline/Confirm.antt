-- ===== src/Pipeline/Confirm.antt =====
-- The confirmation poll before the order: the continuation of the demand, the guard of a peak without
-- smart money, and the gate against parabolic peaks (src/pipeline/score_buy.rs).
use automatamain.Base.{
  ℕ, ◌+◌, Bool, true, false, ◌&&◌, ◌||◌, not, Option, none, some, List, if◌then◌else◌, leb,
}
use automatamain.Base.Float.{Float}
use automatamain.Score.Types.{TokenFeatures}
use automatamain.Score.Engine.{ScoreBreakdown}
use automatamain.Score.Gates.{WeakATierGateConfig, is_a_plus}
use automatamain.Score.Continuation.{
  EarlyTapePoint, ContinuationConfig, AntiParabolicConfig, ContinuationAplusPeakGuardConfig,
  ContReason, continuation_strength, evaluate_continuation, evaluate_continuation_second_look,
  aplus_peak_no_smart_guard, aplus_peak_recheck_mcap_acceptable, continuation_confirm_strong,
  parabolic_peak_suspect,
}
use automatamain.Score.SecondLook.{
  ContinuationSecondLookConfig, continuation_second_look_eligible_for_buy,
}

-- What an observed window of the tape gives.
pub record Observed (F : Type 0) : Type 0 where
  pub points : List (EarlyTapePoint F)
  pub current_mcap_sol : F

pub record ConfirmConfig (F : Type 0) : Type 0 where
  pub continuation_enabled : Bool
  pub confirm_window_ms : ℕ
  pub continuation : ContinuationConfig F
  pub second_look : ContinuationSecondLookConfig
  pub aplus_peak_guard : ContinuationAplusPeakGuardConfig F
  pub weak_a_gate : WeakATierGateConfig F
  pub anti_parabolic : AntiParabolicConfig F
  pub strong_upticks : ℕ
  pub strong_new_buyers : ℕ

pub data ConfirmSkip : Type 0 where
  continuation : ContReason → ConfirmSkip
  aplus_peak_recheck_mcap_drop weak_peak_no_demand : ConfirmSkip

abbrev pub is_none : {R : Type 0} → Option R → Bool
is_none none = true
is_none (some r) = false

abbrev pub as_continuation : Option ContReason → Option ConfirmSkip
as_continuation none = none
as_continuation (some r) = some (continuation r)

module _ {F : Type 0} ⦃fl : Float F⦄ (cfg : ConfirmConfig F) (f : TokenFeatures F)
    (s : ScoreBreakdown F) (smart_count : ℕ) where
  abbrev baseline_buyers : ℕ
  baseline_buyers = f.regular_buyer_count + f.sniper_count

  unfoldable pub eligible : ContReason → Bool
  eligible reason =
      continuation_second_look_eligible_for_buy cfg.second_look cfg.weak_a_gate s.tier
        (is_a_plus s.tier) s.total smart_count f s.items reason

  unfoldable pub look : Observed F → Option ContReason
  look seen =
      evaluate_continuation cfg.continuation f.buy_to_sell_ratio baseline_buyers seen.points
        cfg.confirm_window_ms (is_a_plus s.tier)

  -- The recheck of a deferred A+ at its peak must not have lost too much value.
  unfoldable pub peak_recheck : Observed F → Option ConfirmSkip
  peak_recheck recheck =
      if aplus_peak_recheck_mcap_acceptable cfg.aplus_peak_guard f.peak_mcap_sol f.current_mcap_sol
        recheck.current_mcap_sol
      then none
      else some aplus_peak_recheck_mcap_drop

  unfoldable pub second_look_from : F → Observed F → Option ContReason
  second_look_from reference recheck =
      evaluate_continuation_second_look reference baseline_buyers recheck.points

  -- The branch of an A+ at its peak without smart money.
  unfoldable pub deferred_peak : Observed F → Option ConfirmSkip
  deferred_peak recheck = elim (look recheck) [
    | none ↦ peak_recheck recheck
    | some reason ↦
        if eligible reason
        then elim (second_look_from recheck.current_mcap_sol recheck) [
          | none ↦ peak_recheck recheck
          | some again ↦ some (continuation again)
        ]
        else some (continuation reason)
  ]

  -- The branch of any other token.
  unfoldable pub second_chance : Observed F → Observed F → ContReason → Option ConfirmSkip
  second_chance confirm recheck reason =
      if eligible reason
      then as_continuation (second_look_from confirm.current_mcap_sol recheck)
      else some (continuation reason)

  unfoldable pub needs_peak_defer : Observed F → Bool
  needs_peak_defer confirm =
      aplus_peak_no_smart_guard cfg.aplus_peak_guard (is_a_plus s.tier) smart_count
        f.current_mcap_sol f.peak_mcap_sol
      && (not (is_none (look confirm))
          || not (continuation_confirm_strong cfg.aplus_peak_guard confirm.points baseline_buyers))

  unfoldable pub continuation_gate : Observed F → Observed F → Option ConfirmSkip
  continuation_gate confirm recheck =
      if needs_peak_defer confirm
      then deferred_peak recheck
      else elim (look confirm) [ none ↦ none | some reason ↦ second_chance confirm recheck reason ]

  unfoldable pub parabolic_gate : Observed F → Option ConfirmSkip
  parabolic_gate confirm =
      let (upticks, new_buyers) = continuation_strength confirm.points baseline_buyers in
      let strong = leb cfg.strong_upticks upticks && leb cfg.strong_new_buyers new_buyers in
      if parabolic_peak_suspect cfg.anti_parabolic (is_a_plus s.tier) s.total smart_count
          f.current_mcap_sol f.peak_mcap_sol
        && not strong
      then some weak_peak_no_demand
      else none

module _ {F : Type 0} ⦃fl : Float F⦄ where
  -- Both gates, which only a live bot asks. `recheck` is the window that is observed if the token is
  -- looked at again.
  unfoldable pub confirm_skip_reason :
      ConfirmConfig F
      → (live : Bool) → TokenFeatures F
      → ScoreBreakdown F
      → (smart_count : ℕ) → (confirm recheck : Observed F) → Option ConfirmSkip
  confirm_skip_reason cfg live f s smart_count confirm recheck =
      let demand = continuation_gate cfg f s smart_count confirm recheck in
      let peak = parabolic_gate cfg f s smart_count confirm in
      elim (if live && cfg.continuation_enabled then demand else none) [
        | some reason ↦ some reason
        | none ↦ if live && cfg.anti_parabolic.enabled then peak else none
      ]
