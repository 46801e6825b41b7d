-- ===== src/Strategy/Budget.antt =====
-- How many trades the gate lets through on one day.
use automatamain.Base.{
  ℕ, ◌+◌, ◌^◌, ◌≤◌, ◌<◌, ◌≡◌, arith, List, [], ◌∷◌, All, if◌then◌else◌, ◌==◌, ap, refl,
}
use automatamain.Base.Float.{Float}
use automatamain.Strategy.{
  StrategyConfig, StrategyController, BuyDecision, allow, current_day, can_open, roll_day_if_needed,
  note_position_opened,
}
use automatamain.Strategy.Gate.{can_open_iff}

abbrev granted : BuyDecision → ℕ
granted allow = 1
granted _ = 0

abbrev pub OnDay : ℕ → ℕ × ℕ × ℕ → Type 0
OnDay day attempt = current_day attempt.0 ≡ day

module _ {F : Type 0} ⦃fl : Float F⦄ where
  open fl use {fle}

  -- What follows a decision: an allowed position is opened.
  settle : BuyDecision → StrategyController F → ℕ → StrategyController F
  settle allow c clock = note_position_opened c clock
  settle _ c clock = c

  -- A buy attempt: the gate is asked, and a position that it allows is opened.
  pub try_buy : StrategyController F → ℕ → ℕ → ℕ → StrategyController F
  unfolding settle
  try_buy c clock now open_count =
      let (c', decision) = can_open c clock now open_count in settle decision c' clock

  pub try_buys : StrategyController F → List (ℕ × ℕ × ℕ) → StrategyController F
  try_buys c [] = c
  try_buys c ((clock, now, open_count) ∷ attempts) =
      try_buys (try_buy c clock now open_count) attempts

  -- The budget is kept: no more trades are counted than a day allows.
  abbrev pub KeepsBudget : StrategyController F → Type 0
  KeepsBudget c = c.daily_trades ≤ c.cfg.max_trades_per_day

  roll-KeepsBudget :
      (c : StrategyController F) (clock : ℕ)
      → KeepsBudget c
      → KeepsBudget (roll_day_if_needed c clock)
  unfolding roll_day_if_needed
  roll-KeepsBudget c clock h = ground arith

  can_open_keeps :
      (c : StrategyController F) (clock now open_count : ℕ)
      → let (c', decision) = can_open c clock now open_count in
        let r = roll_day_if_needed c clock in
        (c'.daily_trades ≡ r.daily_trades) × (c'.cfg ≡ r.cfg) × (c'.day_unix ≡ r.day_unix)
  unfolding can_open
  can_open_keeps c clock now open_count = ground arith

  opened-KeepsBudget :
      (c : StrategyController F) (clock : ℕ)
      → KeepsBudget c
      → c.daily_trades < c.cfg.max_trades_per_day
      → KeepsBudget (note_position_opened c clock)
  unfolding note_position_opened roll_day_if_needed
  opened-KeepsBudget c clock h room = ground arith

  settle-KeepsBudget :
      (d : BuyDecision) (c : StrategyController F) (clock : ℕ)
      → KeepsBudget c
      → (d ≡ allow → c.daily_trades < c.cfg.max_trades_per_day)
      → KeepsBudget (settle d c clock)
  unfolding settle
  settle-KeepsBudget allow c clock h room = opened-KeepsBudget c clock h (room refl)
  settle-KeepsBudget _ c clock h room = h

  try_buy-KeepsBudget :
      (c : StrategyController F) (clock now open_count : ℕ)
      → KeepsBudget c
      → KeepsBudget (try_buy c clock now open_count)
  unfolding try_buy
  try_buy-KeepsBudget c clock now open_count h =
      let kept = can_open_keeps c clock now open_count in
      settle-KeepsBudget (can_open c clock now open_count).1 (can_open c clock now open_count).0
        clock
        (omega (
          arith,
          roll-KeepsBudget c clock h,
          ap (λ (g : StrategyConfig F). g.max_trades_per_day) kept.1,
        ))
        (λ e. omega (
          arith,
          ((can_open_iff c clock now open_count).0 e).budget,
          ap (λ (g : StrategyConfig F). g.max_trades_per_day) kept.1,
        ))

  -- How many of some buy attempts the gate allows.
  abbrev pub allowed_in : StrategyController F → List (ℕ × ℕ × ℕ) → ℕ
  allowed_in c [] = 0
  allowed_in c ((clock, now, open_count) ∷ attempts) =
      granted (can_open c clock now open_count).1
      + allowed_in (try_buy c clock now open_count) attempts

  -- The trades that the controller counts for a day.
  abbrev pub counted_on : ℕ → StrategyController F → ℕ
  counted_on day c = if c.day_unix == day then c.daily_trades else 0

  try_buy-counted :
      (day : ℕ) (c : StrategyController F) (clock now open_count : ℕ)
      → c.cfg.max_trades_per_day < 2 ^ 32
      → current_day clock ≡ day
      → counted_on day (try_buy c clock now open_count)
        ≡ counted_on day c + granted (can_open c clock now open_count).1
  unfolding try_buy settle can_open roll_day_if_needed note_position_opened
  try_buy-counted day c clock now open_count u32 same = ground (arith, u32, same)

  try_buy-max :
      (c : StrategyController F) (clock now open_count : ℕ)
      → (try_buy c clock now open_count).cfg.max_trades_per_day ≡ c.cfg.max_trades_per_day
  unfolding try_buy settle can_open roll_day_if_needed note_position_opened
  try_buy-max c clock now open_count = ground arith

  -- Over any buy attempts on one day, the controller counts for the day exactly the trades that it
  -- counted before and those that the gate allows, and they are within the budget of the day; where the
  -- budget is of 32 bits, and the count is within it at the start.
  pub day_budget :
      (day : ℕ) (c : StrategyController F) (attempts : List (ℕ × ℕ × ℕ))
      → c.cfg.max_trades_per_day < 2 ^ 32
      → KeepsBudget c
      → All (OnDay day) attempts
      → (counted_on day (try_buys c attempts) ≡ counted_on day c + allowed_in c attempts)
        × (counted_on day c + allowed_in c attempts ≤ c.cfg.max_trades_per_day)
  unfolding try_buys
  day_budget day c [] u32 h same = ground (arith, h)
  day_budget day c ((clock, now, open_count) ∷ attempts) u32 h (same, later) =
      let rest =
        day_budget day (try_buy c clock now open_count) attempts
          (rw (try_buy-max c clock now open_count) u32)
          (try_buy-KeepsBudget c clock now open_count h) later in
      let counted = try_buy-counted day c clock now open_count u32 same in
      (
        omega (arith, rest.0, counted),
        omega (arith, rest.1, counted, try_buy-max c clock now open_count),
      )
