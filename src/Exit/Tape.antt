-- ===== src/Exit/Tape.antt =====
-- The tape of raw market values: which ticks count, and the value that an exit goes by.
pub mod Valid
use automatamain.Base.{
  ℕ, ◌-◌, ◌/◌, max, Bool, true, false, ◌&&◌, ◌||◌, not, Option, none, some, List, [], ◌∷◌, ◌++◌,
  if◌then◌else◌, ◌==◌, length, drop, keep, get_elem?,
}
use automatamain.Base.Float.{Float, flt, fmax, int}
use automatamain.Exit.Types.{Position}

module _ {F : Type 0} ⦃fl : Float F⦄ where
  open fl use {fle, fadd, fsub, fmul, fdiv, is_finite, of_ℕ}

  unfoldable pub exit_mcap_valid : F → Bool
  exit_mcap_valid mcap = is_finite mcap && flt (int 0) mcap && fle mcap (int 200_000)

  -- `sort_by(partial_cmp)`: the stable insertion sort.
  insert_sorted : F → List F → List F
  insert_sorted x [] = x ∷ []
  insert_sorted x (y ∷ ys) = if flt y x then y ∷ insert_sorted x ys else x ∷ y ∷ ys

  sort : List F → List F
  unfolding insert_sorted
  sort [] = []
  sort (x ∷ xs) = insert_sorted x (sort xs)

  unfoldable pub exit_mcap_median : List F → Option F
  unfolding sort
  exit_mcap_median mcaps = let v = keep exit_mcap_valid mcaps in get_elem? (sort v) (length v / 2)

  unfoldable pub exit_mcap_matches_band : F → Option F → F → F → Bool
  exit_mcap_matches_band mcap none band_low band_high = exit_mcap_valid mcap
  exit_mcap_matches_band mcap (some med) band_low band_high =
      if not (exit_mcap_valid mcap)
      then false
      else if fle med (int 0)
      then true
      else fle (fmul med band_low) mcap && fle mcap (fmul med band_high)

  -- The last sample that is valid.
  last_valid : List F → Option F
  last_valid [] = none
  last_valid (x ∷ xs) = elim (last_valid xs) [
    | some y ↦ some y
    | none ↦ if exit_mcap_valid x then some x else none
  ]

  -- The first of three values that is there, or the last resort.
  first_of_three : Option F → Option F → Option F → F → F
  first_of_three (some m) b c d = m
  first_of_three none (some m) c d = m
  first_of_three none none (some m) d = m
  first_of_three none none none d = d

  unfoldable pub filtered_exit_mcap : List F → F → F → F → F
  unfolding last_valid first_of_three
  filtered_exit_mcap samples enter_mcap band_low band_high =
      let median = exit_mcap_median samples in
      let in_band = keep (λ m. exit_mcap_matches_band m median band_low band_high) samples in
      first_of_three (exit_mcap_median in_band) median (last_valid samples)
        (fmax enter_mcap (int 0))

  unfoldable pub sl_raw_tick_drop_pct : F → F → Option F
  sl_raw_tick_drop_pct prev raw =
      if not (exit_mcap_valid prev) || not (exit_mcap_valid raw) || fle prev (int 0)
      then none
      else some (fmul (fdiv (fsub prev raw) prev) (int 100))

  -- `self.exit_mcap_jupiter.filter(|m| *m > 0.0)`.
  positive_or : Option F → F → F
  positive_or none d = d
  positive_or (some j) d = if flt (int 0) j then j else d

  unfoldable pub exit_raw_mcap : Position F → F
  unfolding positive_or
  exit_raw_mcap p =
      if p.use_jupiter_exit_mcap then positive_or p.exit_mcap_jupiter p.pool_mcap else p.pool_mcap

  unfoldable pub push_exit_mcap_tick : Position F → F → ℕ → Position F
  push_exit_mcap_tick p raw_mcap max_ticks =
      let pushed = p.exit_mcap_ticks ++ (raw_mcap ∷ []) in
      if exit_mcap_valid raw_mcap
      then record p { exit_mcap_ticks = drop (length pushed - max_ticks) pushed }
      else p

  unfoldable pub pnl_at_mcap : Position F → F → F
  pnl_at_mcap p mcap =
      if fle p.enter_mcap (int 0) && fle (int 0) p.enter_mcap
      then int 0
      else fmul (fsub (fdiv mcap p.enter_mcap) (int 1)) (int 100)

  unfoldable pub filtered_market_cap : Position F → F → F → F
  filtered_market_cap p band_low band_high =
      filtered_exit_mcap p.exit_mcap_ticks p.enter_mcap band_low band_high

  unfoldable pub pnl_filtered : Position F → F → F → F
  pnl_filtered p band_low band_high =
      pnl_at_mcap p (filtered_exit_mcap p.exit_mcap_ticks p.enter_mcap band_low band_high)

  unfoldable pub time_kill_note_mcap_sample : Position F → ℕ → F → Position F
  time_kill_note_mcap_sample p wall_secs mcap =
      if p.tk_last_secs == 0
      then record p {
        tk_last_secs = wall_secs;
        tk_last_mcap = mcap;
        tk_prev_secs = wall_secs;
        tk_prev_mcap = mcap;
      }
      else if wall_secs == p.tk_last_secs
      then record p { tk_last_mcap = mcap }
      else record p {
        tk_prev_secs = p.tk_last_secs;
        tk_prev_mcap = p.tk_last_mcap;
        tk_last_secs = wall_secs;
        tk_last_mcap = mcap;
      }

  unfoldable pub time_kill_mcap_velocity_pct_per_sec : Position F → F → F
  time_kill_mcap_velocity_pct_per_sec p enter_mcap =
      let dt = of_ℕ (max (p.tk_last_secs - p.tk_prev_secs) 1) in
      let dm = fsub p.tk_last_mcap p.tk_prev_mcap in
      if fle enter_mcap (int 0) then int 0 else fdiv (fmul (fdiv dm enter_mcap) (int 100)) dt
