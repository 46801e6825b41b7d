-- ===== src/Exit/Tick.antt =====
-- One round of `process_positions` in src/autobuy/manager.rs: for each position what is observed,
-- and the rules in the order in which they are asked. A rule that queues a sale ends the round.
pub mod Rule
pub mod Observe
pub mod Stops
pub mod Profits
pub mod Flags
pub mod Order
pub mod Floors
use automatamain.Base.{ℕ, Bool, Option, none, some, List, [], ◌∷◌, if◌then◌else◌}
use automatamain.Base.Float.{Float}
use automatamain.Exit.Types.{Position, SmartBuyConfig, Action}
use Rule.{or_next}
use Observe.{View, poll, observe, refresh_live_score, raise_to_staircase, note_window, tp_profile}
use Stops.{momentum_decay_rule, time_kill_rule, stop_loss_rule}
use Profits.{ceiling_rule, trailing_rule, upgrade_protection, take_profit_rule}

module _ {F : Type 0} ⦃fl : Float F⦄ where
  -- The position before its rules are asked, and what they read.
  unfoldable pub prepare : SmartBuyConfig F → ℕ → Bool → Position F → Position F × View F
  prepare cfg current_time has_rpc p =
      let (q, v) = observe cfg current_time (poll current_time has_rpc p) in
      (note_window cfg v (raise_to_staircase cfg (refresh_live_score cfg v q)), v)

  unfoldable pub ask_rules : SmartBuyConfig F → View F → Position F → Position F × Option (Action F)
  ask_rules cfg v p =
      let tp = tp_profile cfg p in
      or_next
        (or_next
          (or_next
            (or_next
              (or_next (or_next (momentum_decay_rule cfg v p) (time_kill_rule cfg v))
                (stop_loss_rule cfg v))
              (ceiling_rule cfg tp v))
            (trailing_rule cfg v))
          (upgrade_protection tp v))
        (take_profit_rule cfg tp v)

  unfoldable pub tick : SmartBuyConfig F → ℕ → Bool → Position F → Position F × Option (Action F)
  tick cfg current_time has_rpc p =
      if p.is_closing
      then (p, none)
      else let (q, v) = prepare cfg current_time has_rpc p in ask_rules cfg v q

  abbrev queued : {K : Type 0} → K → Option (Action F) → List (K × Action F) → List (K × Action F)
  queued k none rest = rest
  queued k (some a) rest = (k, a) ∷ rest

  -- Every position, keyed; the sales are queued after the loop, in its order.
  unfoldable pub process_positions :
      {K : Type 0}
      → SmartBuyConfig F
      → ℕ
      → Bool
      → List (K × Position F)
      → List (K × Position F) × List (K × Action F)
  process_positions cfg current_time has_rpc [] = ([], [])
  process_positions cfg current_time has_rpc ((k, p) ∷ rest) =
      let (q, action) = tick cfg current_time has_rpc p in
      let (positions, actions) = process_positions cfg current_time has_rpc rest in
      ((k, q) ∷ positions, queued k action actions)
