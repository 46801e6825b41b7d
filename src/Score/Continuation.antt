-- ===== src/Score/Continuation.antt =====
-- The continuation poll before a buy (src/scoring/features.rs).
pub mod Laws
use automatamain.Base.{
  ℕ, ◌+◌, ◌-◌, max, Bool, true, false, ◌&&◌, ◌||◌, not, Option, none, some, List, [], ◌∷◌,
  if◌then◌else◌, ltb, leb, ◌==◌, length,
}
use automatamain.Base.Int.{ℤ, leb_ℤ, ltb_ℤ}
use automatamain.Base.Float.{Float, flt, fmax, int}

pub record EarlyTapePoint (F : Type 0) : Type 0 where
  pub buyer_count : ℕ
  pub buy_volume_sol : F
  pub cum_sell_raw : ℕ
  pub mcap_sol : F

pub record ContinuationConfig (F : Type 0) : Type 0 where
  pub min_upticks : ℕ
  pub min_new_unique_buyers : ℕ
  pub min_buys_per_sec : F
  pub max_sell_absorption_ratio : F
  pub max_b2s_drop_ratio : F

pub record AntiParabolicConfig (F : Type 0) : Type 0 where
  pub enabled : Bool
  pub weak_score_max : ℤ
  pub near_peak_ratio : F

pub record ContinuationAplusPeakGuardConfig (F : Type 0) : Type 0 where
  pub enabled : Bool
  pub min_mcap_sol : F
  pub near_peak_ratio : F
  pub recheck_min_vs_peak_ratio : F
  pub strong_upticks : ℕ
  pub strong_new_buyers : ℕ

pub data ContReason : Type 0 where
  cont_no_data cont_no_uptick cont_no_new_buyers cont_low_buys_per_sec : ContReason
  cont_sell_absorption cont_b2s_worsening cont_second_look_no_data : ContReason
  cont_second_look_mcap_fall cont_second_look_no_recovery : ContReason

module _ {F : Type 0} ⦃fl : Float F⦄ where
  open fl use {fle, fsub, fmul, fdiv, of_ℕ}

  -- The slices where the market value rose: `windows(2)`.
  unfoldable pub count_upticks : EarlyTapePoint F → List (EarlyTapePoint F) → ℕ
  count_upticks p [] = 0
  count_upticks p (q ∷ rest) =
      let later = count_upticks q rest in if flt p.mcap_sol q.mcap_sol then 1 + later else later

  unfoldable pub last : EarlyTapePoint F → List (EarlyTapePoint F) → EarlyTapePoint F
  last p [] = p
  last p (q ∷ rest) = last q rest

  unfoldable pub continuation_strength : List (EarlyTapePoint F) → ℕ → ℕ × ℕ
  continuation_strength [] baseline = (0, 0)
  continuation_strength (p ∷ []) baseline = (0, 0)
  continuation_strength (p ∷ q ∷ rest) baseline =
      (count_upticks p (q ∷ rest), (last p (q ∷ rest)).buyer_count - baseline)

  -- `None` is `Ok(())`, and a reason is `Err(reason)`. `lamports_to_sol` divides by 10^9.
  abbrev lamports_to_sol : ℕ → F
  lamports_to_sol n = fdiv (of_ℕ n) (int 1_000_000_000)

  -- The checks on the buys and the sells of the window.
  unfoldable pub check_sells :
      ContinuationConfig F → F → Bool → EarlyTapePoint F → EarlyTapePoint F → Option ContReason
  check_sells cfg baseline_b2s is_a_plus first final =
      let buy_delta = fmax (fsub final.buy_volume_sol first.buy_volume_sol) (int 0) in
      let sell_delta_sol = lamports_to_sol (final.cum_sell_raw - first.cum_sell_raw) in
      let confirm_b2s =
        if flt (int 0) sell_delta_sol
        then fdiv buy_delta sell_delta_sol
        else if flt (int 0) buy_delta
        then baseline_b2s
        else int 0 in
      let mcap_rising = flt first.mcap_sol final.mcap_sol in
      if flt (int 0) buy_delta && flt cfg.max_sell_absorption_ratio (fdiv sell_delta_sol buy_delta)
      then some cont_sell_absorption
      else if flt (int 0) baseline_b2s
          && flt confirm_b2s (fmul baseline_b2s cfg.max_b2s_drop_ratio)
          && not (is_a_plus && mcap_rising)
      then some cont_b2s_worsening
      else none

  unfoldable pub evaluate_continuation :
      ContinuationConfig F → F → ℕ → List (EarlyTapePoint F) → ℕ → Bool → Option ContReason
  evaluate_continuation cfg baseline_b2s baseline [] window_ms is_a_plus = some cont_no_data
  evaluate_continuation cfg baseline_b2s baseline (p ∷ []) window_ms is_a_plus = some cont_no_data
  evaluate_continuation cfg baseline_b2s baseline (first ∷ q ∷ rest) window_ms is_a_plus =
      let final = last first (q ∷ rest) in
      let new_buyers = final.buyer_count - baseline in
      let secs = fdiv (of_ℕ (max window_ms 1)) (int 1000) in
      if ltb (count_upticks first (q ∷ rest)) cfg.min_upticks
        && not (fle first.mcap_sol final.mcap_sol)
      then some cont_no_uptick
      else if ltb new_buyers cfg.min_new_unique_buyers
      then some cont_no_new_buyers
      else if flt (int 0) cfg.min_buys_per_sec
          && flt (fdiv (of_ℕ new_buyers) secs) cfg.min_buys_per_sec
      then some cont_low_buys_per_sec
      else check_sells cfg baseline_b2s is_a_plus first final

  unfoldable pub evaluate_continuation_second_look :
      F → ℕ → List (EarlyTapePoint F) → Option ContReason
  evaluate_continuation_second_look ref_mcap_sol baseline [] = some cont_second_look_no_data
  evaluate_continuation_second_look ref_mcap_sol baseline (p ∷ []) = some cont_second_look_no_data
  evaluate_continuation_second_look ref_mcap_sol baseline (first ∷ q ∷ rest) =
      let final = last first (q ∷ rest) in
      let (upticks, new_buyers) = continuation_strength (first ∷ q ∷ rest) baseline in
      if flt final.mcap_sol ref_mcap_sol
        && flt final.mcap_sol first.mcap_sol
        && upticks == 0
        && new_buyers == 0
      then some cont_second_look_mcap_fall
      else if flt ref_mcap_sol final.mcap_sol || leb 1 upticks || leb 1 new_buyers
      then none
      else some cont_second_look_no_recovery

  unfoldable pub aplus_peak_no_smart_guard :
      ContinuationAplusPeakGuardConfig F → Bool → ℕ → F → F → Bool
  aplus_peak_no_smart_guard cfg is_a_plus smart_count current_mcap peak_mcap =
      if not cfg.enabled || not is_a_plus || ltb 0 smart_count
      then false
      else if flt peak_mcap cfg.min_mcap_sol || flt current_mcap cfg.min_mcap_sol
      then false
      else flt (int 0) peak_mcap && fle (fmul peak_mcap cfg.near_peak_ratio) current_mcap

  unfoldable pub aplus_peak_recheck_mcap_acceptable :
      ContinuationAplusPeakGuardConfig F → F → F → F → Bool
  aplus_peak_recheck_mcap_acceptable cfg score_peak_mcap score_current_mcap recheck_mcap =
      let anchor = fmax score_peak_mcap score_current_mcap in
      if not cfg.enabled || fle recheck_mcap (int 0)
      then flt (int 0) recheck_mcap
      else if fle anchor (int 0)
      then true
      else fle (fmul anchor cfg.recheck_min_vs_peak_ratio) recheck_mcap

  unfoldable pub continuation_confirm_strong :
      ContinuationAplusPeakGuardConfig F → List (EarlyTapePoint F) → ℕ → Bool
  continuation_confirm_strong cfg [] baseline = false
  continuation_confirm_strong cfg (p ∷ []) baseline = false
  continuation_confirm_strong cfg (first ∷ q ∷ rest) baseline =
      let (upticks, new_buyers) = continuation_strength (first ∷ q ∷ rest) baseline in
      if flt (last first (q ∷ rest)).mcap_sol first.mcap_sol
      then false
      else leb cfg.strong_upticks upticks && leb cfg.strong_new_buyers new_buyers

  unfoldable pub parabolic_peak_suspect : AntiParabolicConfig F → Bool → ℤ → ℕ → F → F → Bool
  parabolic_peak_suspect cfg is_a_plus score smart_count current_mcap peak_mcap =
      if not cfg.enabled
      then false
      else if is_a_plus || ltb 0 smart_count || ltb_ℤ cfg.weak_score_max score
      then false
      else if fle peak_mcap (int 0)
      then false
      else fle (fmul peak_mcap cfg.near_peak_ratio) current_mcap
