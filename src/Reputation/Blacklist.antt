-- ===== src/Reputation/Blacklist.antt =====
-- Developers who are not bought from again after a bad exit (src/autobuy/dev_blacklist.rs). Texts are
-- ASCII. `str::parse` for a float and its format without decimals are parameters.
pub mod Labels
use automatamain.Base.{
  ℕ, zero, suc, Bool, true, false, not, ◌&&◌, ◌||◌, Option, none, some, List, [], ◌∷◌, ◌++◌,
  if◌then◌else◌, leb, ltb, ◌==◌, length,
}
use automatamain.Base.Int.{ℤ, pos, negsuc}
use automatamain.Base.Float.{Float, int, flt}
use automatamain.Base.Partial.{◌>>=◌}
use automatamain.Base.Text.{Text, text, starts_with}

pub data DevBlacklistTier : Type 0 where
  permanent_rug timed : DevBlacklistTier

pub record DevBlacklistConfig (F : Type 0) : Type 0 where
  pub enabled : Bool
  pub cooldown_secs : ℤ
  pub min_pnl_pct_for_sl : F
  pub min_tick_drop_pct : F
  pub permanent_min_tick_drop_pct : F
  pub permanent_min_mcap_drop_pct : F

-- `char::is_whitespace`, on ASCII.
abbrev pub is_whitespace : ℕ → Bool
is_whitespace c = leb 9 c && leb c 13 || c == 32

abbrev is_empty : Text → Bool
is_empty [] = true
is_empty (c ∷ s) = false

unfoldable pub trim_start : Text → Text
trim_start [] = []
trim_start (c ∷ s) = let rest = trim_start s in if is_whitespace c then rest else c ∷ s

unfoldable pub trim_end : Text → Text
trim_end [] = []
trim_end (c ∷ s) =
    let rest = trim_end s in if is_empty rest && is_whitespace c then [] else c ∷ rest

abbrev pub trim : Text → Text
trim s = trim_end (trim_start s)

-- The text after a prefix, and after the first place where a text occurs.
unfoldable pub strip_prefix : Text → Text → Option Text
strip_prefix s [] = some s
strip_prefix [] (b ∷ t) = none
strip_prefix (a ∷ s) (b ∷ t) = let rest = strip_prefix s t in if a == b then rest else none

unfoldable pub after_first : Text → Text → Option Text
after_first [] t = strip_prefix [] t
after_first (a ∷ s) t =
    let later = after_first s t in
    elim (strip_prefix (a ∷ s) t) [ some rest ↦ some rest | none ↦ later ]

unfoldable pub up_to_end : Text → Text
up_to_end [] = []
up_to_end (c ∷ s) =
    let rest = up_to_end s in if is_whitespace c || c == b'|' || c == b'%' then [] else c ∷ rest

abbrev take_6 : ℕ → Text → Text
take_6 zero s = []
take_6 (suc n) [] = []
take_6 (suc n) (c ∷ s) = c ∷ take_6 n s

unfoldable pub short_mint_prefix : Text → Text
short_mint_prefix mint = if ltb 6 (length mint) then take_6 6 mint else mint

abbrev pub is_permanent_expires : ℤ → Bool
is_permanent_expires (pos zero) = true
is_permanent_expires _ = false

abbrev pub permanent_prefix : Text
permanent_prefix = text "dev_blacklist_permanent:"

abbrev pub previous_on : Text → Text → Text
previous_on what mint = text "previous " ++ what ++ text " on " ++ short_mint_prefix mint

unfoldable pub format_skip_detail : Text → Text → Text
format_skip_detail active_reason trigger_mint = previous_on active_reason trigger_mint

unfoldable pub rug_tag : Text → Text
rug_tag active_reason = elim (strip_prefix active_reason permanent_prefix) [
  | some rest ↦ trim rest
  | none ↦ text "rug"
]

unfoldable pub format_filter_skip : Text → Text → ℤ → Text × Text
format_filter_skip active_reason trigger_mint expires_at =
    if is_permanent_expires expires_at || starts_with active_reason permanent_prefix
    then (text "dev_blacklist_permanent", previous_on (rug_tag active_reason) trigger_mint)
    else (text "dev_blacklist", format_skip_detail active_reason trigger_mint)

unfoldable pub cliff_reason_tag : Text → Text
cliff_reason_tag close_reason =
    if starts_with close_reason (text "SL CRASH")
    then text "SL CRASH"
    else if starts_with close_reason (text "SL ")
    then text "SL"
    else text "cliff exit"

module _ {F : Type 0} ⦃fl : Float F⦄ (parse_f64 : Text → Option F) (format_whole : F → Text) where
  open fl use {fle, fsub, fmul, fdiv}

  unfoldable pub parse_f64_after : Text → Text → Option F
  parse_f64_after close_reason needle =
      after_first close_reason needle >>= λ rest. parse_f64 (trim (up_to_end rest))

  unfoldable pub parse_tick_drop_pct : Text → Option F
  parse_tick_drop_pct close_reason = parse_f64_after close_reason (text "tick_drop=")

  unfoldable pub parse_mcap_drop_pct : Text → Option F
  parse_mcap_drop_pct close_reason = parse_f64_after close_reason (text "filt_mcap=") >>= λ filt.
      parse_f64_after close_reason (text "raw_mcap=") >>= λ raw.
      if flt (int 0) filt && flt raw filt
      then some (fmul (fdiv (fsub filt raw) filt) (int 100))
      else none

  abbrev pub at_least : F → Option F → Bool
  at_least bound none = false
  at_least bound (some d) = fle bound d

  unfoldable pub is_permanent_rug_exit : Text → DevBlacklistConfig F → Bool
  is_permanent_rug_exit close_reason cfg =
      if starts_with close_reason (text "SL CRASH")
      then true
      else if at_least cfg.permanent_min_tick_drop_pct (parse_tick_drop_pct close_reason)
      then true
      else if at_least cfg.permanent_min_mcap_drop_pct (parse_mcap_drop_pct close_reason)
      then true
      else false

  unfoldable pub is_timed_sl_blacklist : Text → F → DevBlacklistConfig F → Bool
  is_timed_sl_blacklist close_reason pnl_pct_sol cfg =
      if is_permanent_rug_exit close_reason cfg
      then false
      else if not (starts_with close_reason (text "SL "))
      then false
      else if fle pnl_pct_sol cfg.min_pnl_pct_for_sl
      then true
      else at_least cfg.min_tick_drop_pct (parse_tick_drop_pct close_reason)

  unfoldable pub classify_dev_blacklist : Text → F → DevBlacklistConfig F → Option DevBlacklistTier
  classify_dev_blacklist close_reason pnl_pct_sol cfg =
      if not cfg.enabled
      then none
      else if is_permanent_rug_exit close_reason cfg
      then some permanent_rug
      else if is_timed_sl_blacklist close_reason pnl_pct_sol cfg
      then some timed
      else none

  unfoldable pub permanent_rug_label : Text → Text
  permanent_rug_label close_reason =
      if starts_with close_reason (text "SL CRASH")
      then text "SL CRASH rug"
      else if at_least (int 55) (parse_tick_drop_pct close_reason)
      then text "instant dump rug"
      else text "mcap collapse rug"

  -- The float is rounded by `format_whole`.
  unfoldable pub build_blacklist_reason : DevBlacklistTier → Text → F → Text
  build_blacklist_reason permanent_rug close_reason pnl_pct_sol =
      text "dev_blacklist_permanent: " ++ permanent_rug_label close_reason
  build_blacklist_reason timed close_reason pnl_pct_sol =
      cliff_reason_tag close_reason ++ text " " ++ format_whole pnl_pct_sol ++ text "%"
