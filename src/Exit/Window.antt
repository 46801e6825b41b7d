-- ===== src/Exit/Window.antt =====
-- The adaptive window of the time kill (`time_kill_window_profile` of src/autobuy/manager.rs).
use automatamain.Base.{ℕ, ◌+◌, max, min, not, ◌&&◌, if◌then◌else◌, ltb, leb, ◌==◌}
use automatamain.Base.Float.{Float, flt, int}
use automatamain.Exit.Types.{SmartBuyConfig, Position}
use automatamain.Exit.Rules.{vote}
use automatamain.Exit.Tape.{time_kill_mcap_velocity_pct_per_sec}

pub data TkTier : Type 0 where
  fixed_window strong_window weak_window neutral_window : TkTier

-- `clamp` on u64.
abbrev pub clamp_ℕ : ℕ → ℕ → ℕ → ℕ
clamp_ℕ n lo hi = max lo (min n hi)

module _ {F : Type 0} ⦃fl : Float F⦄ where
  open fl use {fle, fsub, fdiv}

  abbrev fabs : F → F
  fabs x = if flt x (int 0) then fsub (int 0) x else x

  pub strong_signs : SmartBuyConfig F → Position F → F → ℕ → ℕ
  strong_signs cfg p profit held_secs =
      let vel = time_kill_mcap_velocity_pct_per_sec p p.enter_mcap in
      vote (leb 1 p.tk_entry_smart)
      + vote (leb cfg.time_kill_strong_min_buyers p.tk_entry_buyers)
      + vote (fle cfg.time_kill_strong_min_b2s p.tk_entry_b2s)
      + vote (leb 6 held_secs && fle cfg.time_kill_vel_strong vel)
      + vote (fle cfg.time_kill_early_green_pct profit)

  pub weak_signs : SmartBuyConfig F → Position F → F → F → ℕ → ℕ
  weak_signs cfg p profit current_mcap held_secs =
      let vel = time_kill_mcap_velocity_pct_per_sec p p.enter_mcap in
      let peak_dd =
        if flt (int 0) p.highest_mcap
        then fdiv (fsub p.highest_mcap current_mcap) p.highest_mcap
        else int 0 in
      vote (p.tk_entry_smart == 0)
      + vote (ltb 0 p.tk_entry_buyers && ltb p.tk_entry_buyers cfg.time_kill_weak_max_buyers)
      + vote (flt (int 0) p.tk_entry_b2s && flt p.tk_entry_b2s cfg.time_kill_weak_max_b2s)
      + vote (leb 8 held_secs && fle (fabs vel) cfg.time_kill_vel_flat)
      + vote (fle cfg.time_kill_peak_dd_for_weak peak_dd && flt profit cfg.time_kill_min_profit_pct)

  unfoldable pub time_kill_window_profile : SmartBuyConfig F → Position F → F → F → ℕ → ℕ × TkTier
  time_kill_window_profile cfg p profit current_mcap held_secs =
      let strong = strong_signs cfg p profit held_secs in
      let weak = weak_signs cfg p profit current_mcap held_secs in
      if not cfg.time_kill_adaptive
      then (cfg.time_kill_secs, fixed_window)
      else if leb 4 strong && leb weak 1
      then (clamp_ℕ cfg.time_kill_strong_secs 45 80, strong_window)
      else if leb 3 weak && leb strong 1
      then (clamp_ℕ cfg.time_kill_weak_secs 18 28, weak_window)
      else (clamp_ℕ cfg.time_kill_neutral_secs 20 45, neutral_window)
