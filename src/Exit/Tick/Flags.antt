-- ===== src/Exit/Tick/Flags.antt =====
-- The flags of a position that its sales go by, what a rule may do to them, and that preparing a
-- round leaves them alone.
use automatamain.Base.{
  ℕ, ◌≡◌, ◌⊎◌, arith, Bool, true, false, Option, none, some, refl, ◌&&◌, ◌==◌, if◌then◌else◌, refl,
}
use automatamain.Base.Float.{Float, int, flt}
use automatamain.Exit.Types.{
  Position, SmartBuyConfig, Action, CloseReason, mcap_ceiling, take_profit,
}
use automatamain.Exit.Rules.{profit_lock_staircase_floor}
use automatamain.Exit.Tape.{
  exit_raw_mcap, filtered_market_cap, push_exit_mcap_tick, time_kill_note_mcap_sample,
}
use automatamain.Exit.Tick.Rule.{Rule, or_next}
use automatamain.Exit.Tick.Observe.{
  View, poll, observe, refresh_live_score, raise_floor, raise_to_staircase, note_window,
}
use automatamain.Exit.Tick.{prepare}

-- The level n has been sold.
unfoldable pub level : {F : Type 0} → ℕ → Position F → Bool
level n p =
    if n == 1
    then p.tp1_triggered
    else if n == 2
    then p.tp2_triggered
    else if n == 3
    then p.tp3_triggered
    else if n == 4
    then p.tp4_triggered
    else n == 5 && p.tp5_triggered

-- A flag that has not been taken back.
abbrev pub Held : Bool → Bool → Type 0
Held b c = (b ≡ false) ⊎ (c ≡ true)

module _ {F : Type 0} ⦃fl : Float F⦄ where
  -- What no round takes back.
  abbrev pub Keeps : Position F → Position F → Type 0
  Keeps p q =
      Held p.tp1_triggered q.tp1_triggered
      × Held p.tp2_triggered q.tp2_triggered
      × Held p.tp3_triggered q.tp3_triggered
      × Held p.tp4_triggered q.tp4_triggered
      × Held p.tp5_triggered q.tp5_triggered
      × Held p.mcap_ceiling_triggered q.mcap_ceiling_triggered

  -- The flags of the sales are the same.
  abbrev pub SameFlags : Position F → Position F → Type 0
  SameFlags p q =
      (q.tp1_triggered ≡ p.tp1_triggered)
      × (q.tp2_triggered ≡ p.tp2_triggered)
      × (q.tp3_triggered ≡ p.tp3_triggered)
      × (q.tp4_triggered ≡ p.tp4_triggered)
      × (q.tp5_triggered ≡ p.tp5_triggered)
      × (q.mcap_ceiling_triggered ≡ p.mcap_ceiling_triggered)
      × (q.is_closing ≡ p.is_closing)
      × (q.pending_partial_sell ≡ p.pending_partial_sell)

  -- The marks after a sale of level n, or of none of them.
  abbrev pub MarksLevel : ℕ → Position F → Position F → Type 0
  MarksLevel n p q =
      (q.tp1_triggered ≡ (if n == 1 then true else p.tp1_triggered))
      × (q.tp2_triggered ≡ (if n == 2 then true else p.tp2_triggered))
      × (q.tp3_triggered ≡ (if n == 3 then true else p.tp3_triggered))
      × (q.tp4_triggered ≡ (if n == 4 then true else p.tp4_triggered))
      × (q.tp5_triggered ≡ (if n == 5 then true else p.tp5_triggered))

  -- A sale of everything, after which the position is closing, with the marks that it had.
  abbrev pub Closes : Position F → Position F → Action F → Type 0
  Closes p q a =
      (a.percent ≡ int 100)
      × MarksLevel 0 p q
      × (q.mcap_ceiling_triggered ≡ p.mcap_ceiling_triggered)
      × (q.is_closing ≡ true)
      × (q.pending_partial_sell ≡ p.pending_partial_sell)

  -- A sale of a part, which starts with none in flight and leaves the position open.
  abbrev pub SellsPart : Position F → Position F → Type 0
  SellsPart p q =
      (q.is_closing ≡ p.is_closing)
      × (p.pending_partial_sell ≡ false)
      × (q.pending_partial_sell ≡ true)

  unfoldable pub SaleFor : CloseReason → Position F → Position F → Action F → Type 0
  SaleFor (take_profit n) p q a =
      SellsPart p q
      × (level n p ≡ false)
      × (level n q ≡ true)
      × MarksLevel n p q
      × (q.mcap_ceiling_triggered ≡ p.mcap_ceiling_triggered)
  SaleFor mcap_ceiling p q a =
      SellsPart p q
      × (p.mcap_ceiling_triggered ≡ false)
      × (q.mcap_ceiling_triggered ≡ true)
      × MarksLevel 0 p q
  SaleFor _ p q a = Closes p q a

  -- What a rule may answer for a position.
  unfoldable pub Answers : Position F → Position F × Option (Action F) → Type 0
  unfolding SaleFor
  Answers p (q, none) = SameFlags p q
  Answers p (q, some a) = Keeps p q × SaleFor a.reason p q a

  -- A position that is closing is left alone.
  abbrev pub WhileOpen : Position F → Position F × Option (Action F) → Type 0
  WhileOpen p r = (p.is_closing ≡ false) ⊎ (r ≡ (p, none))

  pub same_level : (n : ℕ) (p q : Position F) → SameFlags p q → level n q ≡ level n p
  unfolding level
  same_level n p q h = ground arith

  SaleFor-later :
      (r : CloseReason) (p q q' : Position F) (a : Action F)
      → SameFlags p q
      → SaleFor r q q' a
      → SaleFor r p q' a
  unfolding SaleFor
  SaleFor-later (take_profit n) p q q' a same h = ground (arith, same_level n p q same)
  SaleFor-later r p q q' a same h = ground arith

  pub Answers-later :
      (p q : Position F) (r : Position F × Option (Action F))
      → SameFlags p q
      → Answers q r
      → Answers p r
  unfolding Answers
  Answers-later p q (q', none) same h = ground arith
  Answers-later p q (q', some a) same h = (ground arith, SaleFor-later a.reason p q q' a same h.1)

  pub or_next-Answers :
      (p : Position F) (r : Position F × Option (Action F)) (s : Rule F)
      → Answers p r
      → ((q : Position F) → SameFlags p q → Answers q (s q))
      → Answers p (or_next r s)
  unfolding Answers
  or_next-Answers p (q, none) s h later = Answers-later p q (s q) h (later q h)
  or_next-Answers p (q, some a) s h later = h

  pub SameFlags-trans : (p q r : Position F) → SameFlags p q → SameFlags q r → SameFlags p r
  SameFlags-trans p q r h k = ground arith

  pub same_pending :
      (p q : Position F)
      → p.pending_partial_sell ≡ false
      → SameFlags p q
      → q.pending_partial_sell ≡ false
  same_pending p q h same = ground arith

  pub unless_pending :
      (b : Bool) (p : Position F) (r : Position F × Option (Action F))
      → (b ≡ false → Answers p r)
      → Answers p (if b then (p, none) else r)
  unfolding Answers
  unless_pending true p r h = ground arith
  unless_pending false p r h = h refl

  sample-SameFlags :
      (p : Position F) (t : ℕ) (mcap : F) → SameFlags p (time_kill_note_mcap_sample p t mcap)
  unfolding time_kill_note_mcap_sample
  sample-SameFlags p t mcap = ground arith

  pub push-SameFlags :
      (p : Position F) (mcap : F) (n : ℕ) → SameFlags p (push_exit_mcap_tick p mcap n)
  unfolding push_exit_mcap_tick
  push-SameFlags p mcap n = ground arith

  high-SameFlags :
      (b : Bool) (p : Position F) (mcap : F)
      → SameFlags p (if b then record p { highest_mcap = mcap } else p)
  high-SameFlags b p mcap = ground arith

  observe-SameFlags :
      (cfg : SmartBuyConfig F) (t : ℕ) (p : Position F) → SameFlags p (observe cfg t p).0
  unfolding observe
  observe-SameFlags cfg t p =
      let p₁ = push_exit_mcap_tick p (exit_raw_mcap p) cfg.exit_mcap_median_ticks in
      let mcap =
        filtered_market_cap p₁ cfg.exit_mcap_band_low_ratio cfg.exit_mcap_band_high_ratio in
      let p₂ = if flt p₁.highest_mcap mcap then record p₁ { highest_mcap = mcap } else p₁ in
      let p₃ = time_kill_note_mcap_sample p₂ t mcap in
      let high = high-SameFlags (flt p₁.highest_mcap mcap) p₁ mcap in
      let pushed = push-SameFlags p (exit_raw_mcap p) cfg.exit_mcap_median_ticks in
      SameFlags-trans p p₁ p₃ pushed (SameFlags-trans p₁ p₂ p₃ high (sample-SameFlags p₂ t mcap))

  refresh-SameFlags :
      (cfg : SmartBuyConfig F) (v : View F) (p : Position F)
      → SameFlags p (refresh_live_score cfg v p)
  unfolding refresh_live_score
  refresh-SameFlags cfg v p = ground arith

  raise_floor-SameFlags : (o : Option F) (p : Position F) → SameFlags p (raise_floor o p)
  unfolding raise_floor
  raise_floor-SameFlags none p = ground arith
  raise_floor-SameFlags (some x) p = ground arith

  staircase-SameFlags :
      (cfg : SmartBuyConfig F) (p : Position F) → SameFlags p (raise_to_staircase cfg p)
  unfolding raise_to_staircase
  staircase-SameFlags cfg p =
      ground (arith, raise_floor-SameFlags (profit_lock_staircase_floor p.peak_profit_pct) p)

  poll-SameFlags : (t : ℕ) (rpc : Bool) (p : Position F) → SameFlags p (poll t rpc p)
  unfolding poll
  poll-SameFlags t rpc p = ground arith

  pub prepare-SameFlags :
      (cfg : SmartBuyConfig F) (t : ℕ) (rpc : Bool) (p : Position F)
      → SameFlags p (prepare cfg t rpc p).0
  unfolding prepare note_window
  prepare-SameFlags cfg t rpc p =
      let p₁ = poll t rpc p in
      let (p₂, v) = observe cfg t p₁ in
      let p₃ = refresh_live_score cfg v p₂ in
      let p₄ = raise_to_staircase cfg p₃ in
      SameFlags-trans p p₁ p₄ (poll-SameFlags t rpc p) (
        SameFlags-trans p₁ p₂ p₄ (observe-SameFlags cfg t p₁)
          (SameFlags-trans p₂ p₃ p₄ (refresh-SameFlags cfg v p₂) (staircase-SameFlags cfg p₃)))
