-- ===== src/Reputation/Quarantine.antt =====
-- The quarantine of mints whose market value did not match the SOL that came back
-- (src/autobuy/curve_quarantine.rs).
pub mod Expiry
use automatamain.Base.{
  ℕ, Bool, true, false, not, ◌&&◌, Option, none, some, List, [], ◌∷◌, ltb, if◌then◌else◌, keep,
}
use automatamain.Base.Float.{Float, flt}
use automatamain.Base.Assoc.{get?, insert}
use automatamain.Base.Text.{Text, text, starts_with}

-- `expires_at` of the cache.
abbrev pub CurveQuarantineCache : Type 0
CurveQuarantineCache = List (ℕ × ℕ)

abbrev pub expires_after : ℕ → Option ℕ → Bool
expires_after now none = false
expires_after now (some exp) = ltb now exp

unfoldable pub is_active : CurveQuarantineCache → ℕ → ℕ → Bool
is_active cache mint now_secs = expires_after now_secs (get? mint cache)

unfoldable pub quarantine : CurveQuarantineCache → ℕ → ℕ → CurveQuarantineCache
quarantine cache mint expires_at = insert mint expires_at cache

-- `retain`.
unfoldable pub prune : CurveQuarantineCache → ℕ → CurveQuarantineCache
prune cache now_secs = keep (λ e. ltb now_secs e.1) cache

pub record CurveQuarantineConfig (F : Type 0) : Type 0 where
  pub enabled : Bool
  pub cooldown_secs : ℕ
  pub min_mcap_sol_divergence_pct : F
  pub max_pnl_sol_pct : F
  pub sl_crash_false_positive_min_filt_pnl : F
  pub sl_crash_false_positive_max_raw_pnl : F

module _ {F : Type 0} ⦃fl : Float F⦄ where
  open fl use {fle, fsub}

  unfoldable pub mcap_sol_pnl_divergence_pct : F → F → F
  mcap_sol_pnl_divergence_pct filt_pnl_pct pnl_sol_pct = fsub filt_pnl_pct pnl_sol_pct

  unfoldable pub should_quarantine_mint : Text → F → F → F → CurveQuarantineConfig F → Bool
  should_quarantine_mint close_reason pnl_sol_pct filt_pnl_pct raw_pnl_pct cfg =
      let divergence = mcap_sol_pnl_divergence_pct filt_pnl_pct pnl_sol_pct in
      if not cfg.enabled
      then false
      else if flt cfg.max_pnl_sol_pct pnl_sol_pct
      then false
      else if fle cfg.min_mcap_sol_divergence_pct divergence
      then true
      else if starts_with close_reason (text "SL CRASH")
          && fle cfg.sl_crash_false_positive_min_filt_pnl filt_pnl_pct
          && fle raw_pnl_pct cfg.sl_crash_false_positive_max_raw_pnl
      then true
      else false
