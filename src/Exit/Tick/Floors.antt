-- ===== src/Exit/Tick/Floors.antt =====
-- The stop loss: when it closes, how many ticks confirm it, and the floor under a profit.
use automatamain.Base.{
  ℕ, suc, ◌+◌, ◌*◌, ◌≤◌, ◌<◌, ◌≡◌, ◌≢◌, arith, max, Bool, true, false, Option, none, some, List, [],
  ◌∷◌, All, length, if◌then◌else◌, leb, refl, le-or-lt, inl, inr,
}
use automatamain.Base.Float.{Float, IsFloat, int}
use automatamain.Exit.Types.{Position, SmartBuyConfig, Action, sl}
use automatamain.Exit.Entry.{in_sl_grace_period}
use automatamain.Exit.Rules.{sl_crash_triggered, profit_lock_staircase_floor}
use automatamain.Exit.Tick.Observe.{View, raise_to_staircase, raise_floor}
use automatamain.Exit.Tick.Stops.{stop_loss_rule, sl_streak, saturating_add_u8}

abbrev first_of : {A : Type 0} → Option A → Option A → Option A
first_of none later = later
first_of (some a) later = some a

module _ {F : Type 0} ⦃fl : Float F⦄ where
  open fl use {fle}

  -- The crash test of a round.
  abbrev pub crashes : SmartBuyConfig F → View F → Bool
  crashes cfg v =
      sl_crash_triggered v.sl_profit v.profit_raw v.tick_drop cfg.sl_crash_pnl_pct
        cfg.sl_crash_tick_drop_pct (in_sl_grace_period v.held_secs cfg.sl_grace_secs)

  -- The floor is broken in a round that counts: no crash, out of the grace, at or below the floor.
  pub record Breaks (cfg : SmartBuyConfig F) (floor : F) (v : View F) : Type 0 where
    pub no_crash : crashes cfg v ≡ false
    pub out_of_grace : cfg.sl_grace_secs ≤ v.held_secs
    pub below : fle v.sl_profit floor ≡ true

  -- The stop-loss rule in one round after another, until it queues a sale.
  pub sl_rounds : SmartBuyConfig F → List (View F) → Position F → Option (Action F)
  sl_rounds cfg [] p = none
  sl_rounds cfg (v ∷ vs) p =
      let (q, action) = stop_loss_rule cfg v p in first_of action (sl_rounds cfg vs q)

  abbrev pub sl_close : Action F
  sl_close = record { percent = int 100; reason = sl; urgent = false }

  Breaks-counts :
      (cfg : SmartBuyConfig F) (v : View F) (p : Position F)
      → Breaks cfg p.exit_profit_floor v
      → sl_streak cfg v p ≡ saturating_add_u8 p.sl_below_floor_streak 1
  unfolding sl_streak in_sl_grace_period
  Breaks-counts cfg v p h = ground (arith, h.out_of_grace, h.below)

  -- A round that counts either closes or adds to the streak.
  rule_counts :
      (cfg : SmartBuyConfig F) (v : View F) (p : Position F)
      → Breaks cfg p.exit_profit_floor v
      → cfg.sl_confirm_ticks < 256
      → p.sl_below_floor_streak < max cfg.sl_confirm_ticks 1
      → let (q, action) = stop_loss_rule cfg v p in
        (q.exit_profit_floor ≡ p.exit_profit_floor)
        × (max cfg.sl_confirm_ticks 1 ≤ suc p.sl_below_floor_streak → action ≡ some sl_close)
        × (suc p.sl_below_floor_streak < max cfg.sl_confirm_ticks 1
            → (action ≡ none) × (q.sl_below_floor_streak ≡ suc p.sl_below_floor_streak))
  unfolding stop_loss_rule in_sl_grace_period
  rule_counts cfg v p h small early =
      ground (arith, Breaks-counts cfg v p h, h.out_of_grace, h.no_crash)

  -- With a confirmation of up to 255 ticks that the streak has not reached, rounds without a crash, at
  -- least sl_grace_secs after the entry and at or below the floor, one after another, make the stop
  -- loss close the position exactly when they are as many, with the streak before them, as the
  -- confirmation asks. The grace of exit_v4, exit_grace_secs, does not delay it.
  pub sl_rounds_confirm :
      (cfg : SmartBuyConfig F) (vs : List (View F)) (p : Position F)
      → cfg.sl_confirm_ticks < 256
      → p.sl_below_floor_streak < max cfg.sl_confirm_ticks 1
      → All (Breaks cfg p.exit_profit_floor) vs
      → sl_rounds cfg vs p ≡ (
          if leb (max cfg.sl_confirm_ticks 1) (p.sl_below_floor_streak + length vs)
          then some sl_close
          else none)
  unfolding sl_rounds
  sl_rounds_confirm cfg [] p small early breaks = ground arith
  sl_rounds_confirm cfg (v ∷ vs) p small early (b, bs) =
      let q = (stop_loss_rule cfg v p).0 in
      let counts = rule_counts cfg v p b small early in
      elim (le-or-lt (max cfg.sl_confirm_ticks 1) (suc p.sl_below_floor_streak)) [
        | inl late ↦ rw (counts.1 late) (ground arith)
        | inr soon ↦
            let waits = counts.2 soon in
            let later =
              sl_rounds_confirm cfg vs q small (omega (arith, waits.1)) (rw counts.0 bs) in
            rw waits.0 (rw later (rw waits.1 (ground arith)))
      ]

  -- A confirmation of a positive multiple of 256 ticks is none: the first calm round out of the
  -- grace closes the position, wherever its profit is.
  pub sl_confirm_truncated :
      (cfg : SmartBuyConfig F) (v : View F) (p : Position F) (k : ℕ)
      → cfg.sl_confirm_ticks ≡ 256 * suc k
      → cfg.sl_grace_secs ≤ v.held_secs
      → crashes cfg v ≡ false
      → (stop_loss_rule cfg v p).1 ≡ some sl_close
  unfolding stop_loss_rule in_sl_grace_period
  sl_confirm_truncated cfg v p k e out calm = ground arith

  -- In the grace the stop loss closes a position only at the crash level.
  grace_only_crash :
      (cfg : SmartBuyConfig F) (v : View F) (p : Position F)
      → v.held_secs < cfg.sl_grace_secs
      → (stop_loss_rule cfg v p).1 ≢ none
      → fle v.sl_profit cfg.sl_crash_pnl_pct ≡ true
  unfolding stop_loss_rule sl_crash_triggered in_sl_grace_period
  grace_only_crash cfg v p early h = ground arith

  closes_at_once :
      (cfg : SmartBuyConfig F) (v : View F) (q : Position F)
      → cfg.sl_confirm_ticks ≤ 1
      → Breaks cfg q.exit_profit_floor v
      → (stop_loss_rule cfg v q).1 ≡ some sl_close
  unfolding stop_loss_rule in_sl_grace_period
  closes_at_once cfg v q one h = ground (arith, Breaks-counts cfg v q h, h.out_of_grace, h.no_crash)

  module _ (laws : IsFloat F) where
    open laws use {fle_refl, fle_trans, fle_total}

    raised :
        (floor : F) (p : Position F)
        → fle floor floor ≡ true
        → fle p.exit_profit_floor p.exit_profit_floor ≡ true
        → fle floor (raise_floor (some floor) p).exit_profit_floor ≡ true
    unfolding raise_floor
    raised floor p hf hp = ground (arith, fle_total floor p.exit_profit_floor)

    staircase_floor :
        (cfg : SmartBuyConfig F) (p : Position F) (floor : F)
        → cfg.exit_v4.enabled ≡ true
        → cfg.exit_v4.profit_staircase_enabled ≡ true
        → profit_lock_staircase_floor p.peak_profit_pct ≡ some floor
        → raise_to_staircase cfg p ≡ raise_floor (some floor) p
    unfolding raise_to_staircase
    staircase_floor cfg p floor on stairs step = rw on (rw stairs (rw step refl))

    -- The staircase protects a profit: with the staircase on and a confirmation of at most one tick,
    -- the stop loss closes a position whose peak has reached a step, and whose floor is a number, in
    -- a round without a crash, at least sl_grace_secs after the entry, as soon as the profit is at most
    -- the floor of the step. The grace of exit_v4, exit_grace_secs, does not delay it.
    pub staircase_protects :
        (cfg : SmartBuyConfig F) (v : View F) (p : Position F) (floor : F)
        → cfg.exit_v4.enabled ≡ true
        → cfg.exit_v4.profit_staircase_enabled ≡ true
        → cfg.sl_confirm_ticks ≤ 1
        → fle p.exit_profit_floor p.exit_profit_floor ≡ true
        → profit_lock_staircase_floor p.peak_profit_pct ≡ some floor
        → cfg.sl_grace_secs ≤ v.held_secs
        → crashes cfg v ≡ false
        → fle v.sl_profit floor ≡ true
        → (stop_loss_rule cfg v (raise_to_staircase cfg p)).1 ≡ some sl_close
    staircase_protects cfg v p floor on stairs one known step out calm low =
        let same = staircase_floor cfg p floor on stairs step in
        let above = raised floor p (fle_refl v.sl_profit floor low).1 known in
        let q = raise_floor (some floor) p in
        rw same (
          closes_at_once cfg v q one (record {
            no_crash = calm;
            out_of_grace = out;
            below = fle_trans v.sl_profit floor q.exit_profit_floor low above;
          }))
