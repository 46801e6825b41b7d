-- ===== src/Reputation/Blacklist/Labels.antt =====
-- The reason that is stored for a developer, read back by the filter of new tokens.
use automatamain.Base.{◌≡◌, ◌≢◌, refl, arith, true, false, ◌||◌, Option}
use automatamain.Base.Int.{ℤ, pos, negsuc}
use automatamain.Base.Float.{Float}
use automatamain.Base.Text.{Text, text, starts_with}
use automatamain.Reputation.Blacklist.{
  permanent_rug, timed, rug_tag, trim_start, trim_end, strip_prefix, previous_on,
  format_filter_skip, format_skip_detail, cliff_reason_tag, permanent_rug_label,
  build_blacklist_reason, permanent_prefix, is_permanent_expires,
}

is_permanent_expires-pos : (e : ℤ) → e ≢ pos 0 → is_permanent_expires e ≡ false
is_permanent_expires-pos (pos n) h = ground (arith, h)
is_permanent_expires-pos (negsuc n) h = refl

module _ {F : Type 0} ⦃fl : Float F⦄ (parse_f64 : Text → Option F) (format_whole : F → Text) where
  rug_tag-permanent :
      (close_reason : Text) (pnl_pct_sol : F)
      → rug_tag
          (build_blacklist_reason parse_f64 format_whole permanent_rug close_reason pnl_pct_sol)
        ≡ permanent_rug_label parse_f64 format_whole close_reason
  unfolding rug_tag strip_prefix trim_start trim_end build_blacklist_reason permanent_rug_label
  rug_tag-permanent close_reason pnl_pct_sol = ground arith

  ban_is_permanent :
      (close_reason : Text) (pnl_pct_sol : F) (expires_at : ℤ)
      → (is_permanent_expires expires_at
          || starts_with
              (build_blacklist_reason parse_f64 format_whole permanent_rug close_reason pnl_pct_sol)
              permanent_prefix)
        ≡ true
  unfolding build_blacklist_reason starts_with
  ban_is_permanent close_reason pnl_pct_sol expires_at = ground arith

  timed_is_no_ban :
      (close_reason : Text) (pnl_pct_sol : F)
      → starts_with
          (build_blacklist_reason parse_f64 format_whole timed close_reason pnl_pct_sol)
          permanent_prefix
        ≡ false
  unfolding build_blacklist_reason cliff_reason_tag starts_with
  timed_is_no_ban close_reason pnl_pct_sol = ground arith

  -- The row of a permanent ban is reported as permanent whenever it expires, with the label of its
  -- rug just as it was written; and the row of a timed ban, if it expires, is reported as timed, with
  -- the whole of the stored reason.
  pub skip_of_reason :
      (close_reason mint : Text) (pnl_pct_sol : F) (expires_at timed_expires_at : ℤ)
      → timed_expires_at ≢ pos 0
      → let reason = build_blacklist_reason parse_f64 format_whole in
        (format_filter_skip (reason permanent_rug close_reason pnl_pct_sol) mint expires_at ≡ (
          text "dev_blacklist_permanent",
          previous_on (permanent_rug_label parse_f64 format_whole close_reason) mint,
        ))
        × (format_filter_skip (reason timed close_reason pnl_pct_sol) mint timed_expires_at
            ≡ (text "dev_blacklist", previous_on (reason timed close_reason pnl_pct_sol) mint))
  unfolding format_filter_skip format_skip_detail
  skip_of_reason close_reason mint pnl_pct_sol expires_at timed_expires_at h = (
    rw
        (
          ban_is_permanent close_reason pnl_pct_sol expires_at,
          rug_tag-permanent close_reason pnl_pct_sol,
        )
        refl,
    rw (is_permanent_expires-pos timed_expires_at h, timed_is_no_ban close_reason pnl_pct_sol) refl,
  )
