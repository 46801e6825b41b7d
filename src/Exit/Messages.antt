-- ===== src/Exit/Messages.antt =====
-- The messages of src/autobuy/manager.rs that change an open position between the rounds: a new
-- pool, an exit value from Jupiter, a live snapshot, and the result of a sale.
use automatamain.Base.{
  ℕ, ◌-◌, Bool, true, false, Option, none, some, List, [], ◌∷◌, if◌then◌else◌, not,
}
use automatamain.Base.Int.{max_ℤ}
use automatamain.Base.Float.{Float, flt, int}
use automatamain.Base.Text.{text}
use automatamain.Exit.Types.{Position, SmartBuyConfig, LivePositionSnapshot, Action}
use automatamain.Exit.Entry.{in_exit_grace_period_tier}
use automatamain.Exit.Metrics.{live_metrics_from_snapshot, calculate_live_score, from_snap}
use automatamain.Exit.Rules.{transition_position_phase, maybe_upgrade_runner}
use automatamain.Exit.Tape.{pnl_at_mcap, exit_raw_mcap, time_kill_mcap_velocity_pct_per_sec}
use automatamain.Exit.Tick.{tick}

-- What the broker answers to a sale.
pub data SellResult : Type 0 where
  sold : SellResult
  requires_manual_sell : SellResult
  failed : SellResult

module _ {F : Type 0} ⦃fl : Float F⦄ where
  open fl use {fle}

  unfoldable pub apply_exit_mcap_refresh : F → Bool → Position F → Position F
  apply_exit_mcap_refresh mcap use_jupiter p =
      if use_jupiter
      then record p { use_jupiter_exit_mcap = true; exit_mcap_jupiter = some mcap }
      else p

  -- The clock is read for the age and then for the refresh.
  unfoldable pub apply_live_snapshot :
      SmartBuyConfig F → ℕ → ℕ → LivePositionSnapshot F → Position F → Position F
  apply_live_snapshot cfg clock now live p =
      let v4 = cfg.exit_v4 in
      let held = clock - p.entry_time in
      let vel = time_kill_mcap_velocity_pct_per_sec p p.enter_mcap in
      let profit = pnl_at_mcap p (exit_raw_mcap p) in
      let entry_vel = from_snap p.learning_snapshot (λ s. s.velocity_pct) (int 0) in
      let metrics =
        live_metrics_from_snapshot live p.live_prev_buyers_per_sec vel p.live_prev_velocity
          entry_vel profit v4 in
      let score = max_ℤ (calculate_live_score metrics) p.live_score_entry_floor in
      let entry_tier = from_snap p.learning_snapshot (λ s. s.tier) (text "") in
      let upgraded = maybe_upgrade_runner v4 p.exit_profile metrics score p.hold_mode in
      let q = record p {
        live_tape_seen = true;
        live_prev_buyers_per_sec = p.live_buyers_per_sec;
        live_buyers_per_sec = live.buyers_per_sec;
        live_prev_velocity = vel;
        live_score = score;
        last_live_score_at = now;
        exit_profile = upgraded.0;
        hold_mode = upgraded.1;
      } in
      if not (in_exit_grace_period_tier held entry_tier v4)
      then record q {
        exit_phase = transition_position_phase p.exit_phase score metrics.momentum_decay profit v4;
      }
      else q

  -- The answer to a sale of a position that is there, without its holdings and accounts, which a
  -- position has no field for here. A confirmed sale of 100 per cent takes it out of the map.
  unfoldable pub execute_sell : F → SellResult → Position F → Option (Position F)
  execute_sell percent sold p =
      if flt percent (int 100) then some (record p { pending_partial_sell = false }) else none
  execute_sell percent requires_manual_sell p =
      some (record p { is_closing = false; pending_partial_sell = false })
  execute_sell percent failed p =
      if fle (int 100) percent
      then some (record p { is_closing = false; pending_partial_sell = false })
      else some (record p { pending_partial_sell = false })

-- A queued sale in front of those that follow.
abbrev pub queued : {A : Type 0} → Option A → List A → List A
queued none rest = rest
queued (some a) rest = a ∷ rest

-- One thing that happens to a position; `market` is a new pool, with its market value. A history may
-- have them in any order, answers that come late, or twice, included.
pub data Event (F : Type 0) : Type 0 where
  round : SmartBuyConfig F → ℕ → Bool → Event F
  market : F → Event F
  jupiter : F → Bool → Event F
  live_tape : SmartBuyConfig F → ℕ → ℕ → LivePositionSnapshot F → Event F
  sale : F → SellResult → Event F

module _ {F : Type 0} ⦃fl : Float F⦄ where
  -- The position after an event, if it is still there, and the sale that the event queues.
  unfoldable pub step : Event F → Position F → Option (Position F) × Option (Action F)
  step (round cfg now has_rpc) p = let (q, action) = tick cfg now has_rpc p in (some q, action)
  step (market mcap) p = (some (record p { pool_mcap = mcap }), none)
  step (jupiter mcap use_jupiter) p = (some (apply_exit_mcap_refresh mcap use_jupiter p), none)
  step (live_tape cfg clock now live) p = (some (apply_live_snapshot cfg clock now live p), none)
  step (sale percent result) p = (execute_sell percent result p, none)

  -- The sales that a history of events queues, in their order.
  unfoldable pub history : List (Event F) → Option (Position F) → List (Action F)
  history [] o = []
  history (e ∷ es) none = []
  history (e ∷ es) (some p) = let (o, action) = step e p in queued action (history es o)
