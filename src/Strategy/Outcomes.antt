-- ===== src/Strategy/Outcomes.antt =====
-- What a closed position does to the gate.
use automatamain.Base.{
  ℕ, ◌+◌, ◌-◌, ◌^◌, ◌≤◌, ◌<◌, ◌≡◌, ◌≢◌, arith, Bool, false, [], ◌∷◌, ◌++◌, refl, ap, length,
  length-drop,
}
use automatamain.Base.Float.{Float, int, flt}
use automatamain.Strategy.{
  StrategyConfig, StrategyController, allow, roll_day_if_needed, can_open, note_position_closed,
  note_streak, note_outcome, note_regime,
}

module _ {F : Type 0} ⦃fl : Float F⦄ where
  note_regime_keeps :
      (c : StrategyController F) (now : ℕ)
      → (c.paused_until_unix ≤ (note_regime c now).paused_until_unix)
        × ((note_regime c now).recent_outcomes ≡ c.recent_outcomes)
        × ((note_regime c now).cfg ≡ c.cfg)
        × ((note_regime c now).loss_streak ≡ c.loss_streak)
  unfolding note_regime
  note_regime_keeps c now = ground arith

  roll_day_keeps :
      (c : StrategyController F) (clock : ℕ)
      → let r = roll_day_if_needed c clock in
        (r.paused_until_unix ≡ c.paused_until_unix)
        × (r.recent_outcomes ≡ c.recent_outcomes)
        × (r.cfg ≡ c.cfg)
        × (r.loss_streak ≡ c.loss_streak)
  unfolding roll_day_if_needed
  roll_day_keeps c clock = ground arith

  note_streak_keeps :
      (c : StrategyController F) (now : ℕ) (win : Bool)
      → ((note_streak c now win).recent_outcomes ≡ c.recent_outcomes)
        × ((note_streak c now win).cfg ≡ c.cfg)
  unfolding note_streak
  note_streak_keeps c now win = ground arith

  note_outcome_window :
      (c : StrategyController F) (win : Bool)
      → length (note_outcome c win).recent_outcomes ≤ c.cfg.market_regime_window
  unfolding note_outcome
  note_outcome_window c win = omega (
    arith,
    length-drop (length (c.recent_outcomes ++ win ∷ []) - c.cfg.market_regime_window)
        (c.recent_outcomes ++ win ∷ []),
  )

  note_outcome_keeps :
      (c : StrategyController F) (win : Bool)
      → ((note_outcome c win).cfg ≡ c.cfg)
        × ((note_outcome c win).paused_until_unix ≡ c.paused_until_unix)
        × ((note_outcome c win).loss_streak ≡ c.loss_streak)
  unfolding note_outcome
  note_outcome_keeps c win = (refl, refl, refl)

  -- After a close the rolling window holds at most as many outcomes as configured.
  note_position_closed_window :
      (c : StrategyController F) (t₀ t₁ t₂ : ℕ) (pnl : F)
      → length (note_position_closed c t₀ t₁ t₂ pnl).recent_outcomes ≤ c.cfg.market_regime_window
  unfolding note_position_closed
  note_position_closed_window c t₀ t₁ t₂ pnl =
      let r = roll_day_if_needed c t₀ in
      let win = flt (int 0) pnl in
      let b = record r { daily_pnl_sol = fl.fadd r.daily_pnl_sol pnl } in
      let s = note_streak b t₁ win in
      let window = λ (g : StrategyConfig F). g.market_regime_window in
      omega (
        arith,
        note_outcome_window s win,
        ap length (note_regime_keeps (note_outcome s win) t₂).1,
        ap window (note_streak_keeps b t₁ win).1,
        ap window (roll_day_keeps c t₀).2,
      )

  -- The state of a close before its outcome is recorded: after the streak.
  note_streak_pauses :
      (c : StrategyController F) (now : ℕ)
      → now + c.cfg.loss_streak_pause_secs < 2 ^ 64
      → c.loss_streak + 1 < 2 ^ 32
      → c.cfg.loss_streak_limit ≤ c.loss_streak + 1
      → (note_streak c now false).paused_until_unix ≡ now + c.cfg.loss_streak_pause_secs
  unfolding note_streak
  note_streak_pauses c now fits small long = ground arith

  paused-can_open :
      (c : StrategyController F) (clock now open_count : ℕ)
      → now < c.paused_until_unix
      → (can_open c clock now open_count).1 ≢ allow
  unfolding can_open
  paused-can_open c clock now open_count h e = ground (arith, roll_day_keeps c clock)

  -- When a loss makes the streak reach its limit, and neither the streak nor the time overflows, no
  -- buy is allowed, on any day and whatever the regime, before the pause of the streak is over.
  pub loss_streak_blocks :
      (c : StrategyController F) (t₀ t₁ t₂ : ℕ) (pnl : F)
      → flt (int 0) pnl ≡ false
      → t₁ + c.cfg.loss_streak_pause_secs < 2 ^ 64
      → c.loss_streak + 1 < 2 ^ 32
      → c.cfg.loss_streak_limit ≤ c.loss_streak + 1
      → (clock now open_count : ℕ) → now < t₁ + c.cfg.loss_streak_pause_secs
      → (can_open (note_position_closed c t₀ t₁ t₂ pnl) clock now open_count).1 ≢ allow
  unfolding note_position_closed
  loss_streak_blocks c t₀ t₁ t₂ pnl loss fits small long clock now open_count h =
      let r = roll_day_if_needed c t₀ in
      let win = flt (int 0) pnl in
      let b = record r { daily_pnl_sol = fl.fadd r.daily_pnl_sol pnl } in
      let s = note_streak b t₁ win in
      let kept = roll_day_keeps c t₀ in
      let secs = ap (λ (g : StrategyConfig F). g.loss_streak_pause_secs) kept.2 in
      let limit = ap (λ (g : StrategyConfig F). g.loss_streak_limit) kept.2 in
      let pauses = note_streak_pauses b t₁ (omega arith) (omega arith) (omega arith) in
      paused-can_open _ clock now open_count (
        omega (
          arith,
          (note_regime_keeps (note_outcome s win) t₂).0,
          ap (λ (w : Bool). (note_streak b t₁ w).paused_until_unix) loss,
          (note_outcome_keeps s win).1,
        ))
