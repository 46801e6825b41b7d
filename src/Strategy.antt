-- ===== src/Strategy.antt =====
-- The risk gate of src/scoring/strategy_controller.rs. `F` is f64. The clock is an argument: a call
-- that reads it more than once takes each reading, in the order of the code. Counters are u32 and
-- u64 with the wrap-around of a release build.
pub mod Gate
pub mod Config
pub mod Budget
pub mod Outcomes
pub mod Tests
use automatamain.Base.{
  ℕ, suc, ◌+◌, ◌-◌, ◌*◌, ◌%◌, ◌^◌, max, Bool, true, false, not, ◌&&◌, Option, none, some, List, [],
  ◌∷◌, ◌++◌, if◌then◌else◌, ltb, leb, ◌==◌, length, drop, keep,
}
use automatamain.Base.Float.{Float, flt, int}

pub record StrategyConfig (F : Type 0) : Type 0 where
  pub max_open_positions : ℕ
  pub max_trades_per_day : ℕ
  pub max_daily_loss_sol : F
  pub daily_profit_lock_sol : F
  pub loss_streak_limit : ℕ
  pub loss_streak_pause_secs : ℕ
  pub market_regime_pause : Bool
  pub market_regime_window : ℕ
  pub market_regime_loss_ratio : F
  pub market_regime_pause_secs : ℕ

pub data BuyDecision : Type 0 where
  allow : BuyDecision
  block_max_open : BuyDecision
  block_daily_trades : BuyDecision
  block_daily_loss : BuyDecision
  block_profit_lock : BuyDecision
  block_loss_streak : BuyDecision
  block_regime : BuyDecision

-- The texts of `last_block_reason`.
pub data BlockReason : Type 0 where
  max_open : BlockReason
  daily_trades_used : BlockReason
  daily_loss : BlockReason
  profit_lock : BlockReason
  paused : BlockReason

pub record StrategyController (F : Type 0) : Type 0 where
  pub cfg : StrategyConfig F
  pub day_unix : ℕ
  pub daily_trades : ℕ
  pub daily_pnl_sol : F
  pub loss_streak : ℕ
  pub paused_until_unix : ℕ
  -- Oldest first; `true` is a win.
  pub recent_outcomes : List Bool
  pub last_block_reason : Option BlockReason

unfoldable pub current_day : ℕ → ℕ
current_day secs = secs - secs % 86_400

abbrev losses_in : List Bool → ℕ
losses_in outcomes = length (keep not outcomes)

module _ {F : Type 0} ⦃fl : Float F⦄ where
  open fl use {fle, fadd, fdiv, of_ℕ}

  pub new : StrategyConfig F → ℕ → StrategyController F
  unfolding current_day
  new cfg now = record {
    cfg = cfg;
    day_unix = current_day now;
    daily_trades = 0;
    daily_pnl_sol = int 0;
    loss_streak = 0;
    paused_until_unix = 0;
    recent_outcomes = [];
    last_block_reason = none;
  }

  pub roll_day_if_needed : StrategyController F → ℕ → StrategyController F
  unfolding current_day
  roll_day_if_needed c clock =
      if current_day clock == c.day_unix
      then c
      else record c { day_unix = current_day clock; daily_trades = 0; daily_pnl_sol = int 0 }

  abbrev blocked :
      StrategyController F → BlockReason → BuyDecision → StrategyController F × BuyDecision
  blocked c reason decision = (record c { last_block_reason = some reason }, decision)

  -- The clock is read for the day and then for the pause.
  pub can_open : StrategyController F → ℕ → ℕ → ℕ → StrategyController F × BuyDecision
  can_open c₀ clock now currently_open =
      let c = roll_day_if_needed c₀ clock in
      if leb c.cfg.max_open_positions currently_open
      then blocked c max_open block_max_open
      else if leb c.cfg.max_trades_per_day c.daily_trades
      then blocked c daily_trades_used block_daily_trades
      else if fle c.daily_pnl_sol c.cfg.max_daily_loss_sol
      then blocked c daily_loss block_daily_loss
      else if fle c.cfg.daily_profit_lock_sol c.daily_pnl_sol
      then blocked c profit_lock block_profit_lock
      else if ltb now c.paused_until_unix
      then blocked c paused block_loss_streak
      else (c, allow)

  pub note_position_opened : StrategyController F → ℕ → StrategyController F
  note_position_opened c₀ clock =
      let c = roll_day_if_needed c₀ clock in
      record c { daily_trades = (c.daily_trades + 1) % 2 ^ 32 }

  -- The streak, and the pause that a long one starts.
  note_streak : StrategyController F → ℕ → Bool → StrategyController F
  note_streak c now true = record c { loss_streak = 0 }
  note_streak c now false =
      let streak = (c.loss_streak + 1) % 2 ^ 32 in
      if leb c.cfg.loss_streak_limit streak
      then record c {
        loss_streak = streak;
        paused_until_unix = (now + c.cfg.loss_streak_pause_secs) % 2 ^ 64;
      }
      else record c { loss_streak = streak }

  -- `push_back`, then `pop_front` until the window fits.
  note_outcome : StrategyController F → Bool → StrategyController F
  note_outcome c win =
      let pushed = c.recent_outcomes ++ (win ∷ []) in
      record c { recent_outcomes = drop (length pushed - c.cfg.market_regime_window) pushed }

  note_regime : StrategyController F → ℕ → StrategyController F
  note_regime c now =
      let count = length c.recent_outcomes in
      let ratio = fdiv (of_ℕ (losses_in c.recent_outcomes)) (of_ℕ count) in
      let until = (now + c.cfg.market_regime_pause_secs) % 2 ^ 64 in
      if c.cfg.market_regime_pause && leb (max c.cfg.market_regime_window 1) count
      then if fle c.cfg.market_regime_loss_ratio ratio && ltb c.paused_until_unix until
        then record c { paused_until_unix = until }
        else c
      else c

  -- The clock is read for the day, for the streak's pause and for the regime's.
  pub note_position_closed : StrategyController F → ℕ → ℕ → ℕ → F → StrategyController F
  unfolding note_streak note_outcome note_regime
  note_position_closed c₀ clock now now' pnl_sol =
      let c = roll_day_if_needed c₀ clock in
      let win = flt (int 0) pnl_sol in
      let booked = record c { daily_pnl_sol = fadd c.daily_pnl_sol pnl_sol } in
      note_regime (note_outcome (note_streak booked now win) win) now'
