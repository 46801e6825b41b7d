-- ===== src/Exit/History.antt =====
-- What the events of a position's life do to its sales, over any history.
use automatamain.Base.{
  ℕ, ◌+◌, ◌≤◌, ◌≡◌, arith, Bool, true, false, Option, none, some, List, [], ◌∷◌, if◌then◌else◌,
  ◌==◌, ap,
}
use automatamain.Base.Float.{Float}
use automatamain.Exit.Types.{
  Position, Action, CloseReason, SmartBuyConfig, LivePositionSnapshot, take_profit,
}
use automatamain.Exit.Tick.{tick}
use automatamain.Exit.Tick.Flags.{level, SameFlags, same_level, Answers, SaleFor, Keeps}
use automatamain.Exit.Tick.Order.{tick-Answers}
use automatamain.Exit.Messages.{
  Event, round, market, jupiter, live_tape, sale, step, history, queued, SellResult, sold,
  requires_manual_sell, failed, apply_exit_mcap_refresh, apply_live_snapshot, execute_sell,
}

is_level : ℕ → CloseReason → Bool
is_level n (take_profit m) = m == n
is_level n _ = false

module _ {F : Type 0} ⦃fl : Float F⦄ where
  -- How often a list of sales sells the level n.
  pub count_level : ℕ → List (Action F) → ℕ
  count_level n [] = 0
  count_level n (a ∷ rest) =
      if is_level n a.reason then 1 + count_level n rest else count_level n rest

  -- The level n can still be sold.
  abbrev left : ℕ → Option (Position F) → ℕ
  left n none = 0
  left n (some p) = if level n p then 0 else 1

  Keeps-level : (n : ℕ) (p q : Position F) → Keeps p q → level n p ≡ true → level n q ≡ true
  unfolding level
  Keeps-level n p q keeps h = ground arith

  SaleFor-left :
      (n : ℕ) (r : CloseReason) (p q : Position F) (a : Action F)
      → (level n p ≡ true → level n q ≡ true)
      → SaleFor r p q a
      → (if is_level n r then 1 else 0) + left n (some q) ≤ left n (some p)
  unfolding SaleFor is_level
  SaleFor-left n (take_profit m) p q a keeps h =
      ground (arith, ap (λ k. level k p), ap (λ k. level k q))
  SaleFor-left n r p q a keeps h = ground arith

  same_left : (n : ℕ) (p q : Position F) → SameFlags p q → left n (some q) ≡ left n (some p)
  same_left n p q same = ap {B = ℕ} (λ b. if b then 0 else 1) (same_level n p q same)

  Answers-left :
      (n : ℕ) (p : Position F) (r : Position F × Option (Action F))
      → Answers p r
      → count_level n (queued r.1 []) + left n (some r.0) ≤ left n (some p)
  unfolding Answers count_level
  Answers-left n p (q, none) h = omega (arith, same_left n p q h)
  Answers-left n p (q, some a) h = SaleFor-left n a.reason p q a (Keeps-level n p q h.0) h.1

  execute_sell-left :
      (n : ℕ) (percent : F) (r : SellResult) (p : Position F)
      → left n (execute_sell percent r p) ≤ left n (some p)
  unfolding execute_sell level
  execute_sell-left n percent sold p = ground arith
  execute_sell-left n percent requires_manual_sell p = omega arith
  execute_sell-left n percent failed p = ground arith

  refresh_level :
      (n : ℕ) (mcap : F) (use_jupiter : Bool) (p : Position F)
      → level n (apply_exit_mcap_refresh mcap use_jupiter p) ≡ level n p
  unfolding apply_exit_mcap_refresh level
  refresh_level n mcap use_jupiter p = ground arith

  live_level :
      (n : ℕ) (cfg : SmartBuyConfig F) (clock now : ℕ) (live : LivePositionSnapshot F)
      (p : Position F)
      → level n (apply_live_snapshot cfg clock now live p) ≡ level n p
  unfolding apply_live_snapshot level
  live_level n cfg clock now live p = ground arith

  step-left :
      (n : ℕ) (e : Event F) (p : Position F)
      → count_level n (queued (step e p).1 []) + left n (step e p).0 ≤ left n (some p)
  unfolding step count_level level
  step-left n (round cfg now has_rpc) p =
      Answers-left n p (tick cfg now has_rpc p) (tick-Answers cfg now has_rpc p).1
  step-left n (market mcap) p = omega arith
  step-left n (jupiter mcap use_jupiter) p =
      omega (arith, ap {B = ℕ} (λ b. if b then 0 else 1) (refresh_level n mcap use_jupiter p))
  step-left n (live_tape cfg clock now live) p =
      omega (arith, ap {B = ℕ} (λ b. if b then 0 else 1) (live_level n cfg clock now live p))
  step-left n (sale percent result) p = omega (arith, execute_sell-left n percent result p)

  count_queued :
      (n : ℕ) (o : Option (Action F)) (rest : List (Action F))
      → count_level n (queued o rest) ≡ count_level n (queued o []) + count_level n rest
  unfolding count_level
  count_queued n none rest = omega arith
  count_queued n (some a) rest = ground arith

  history-left :
      (n : ℕ) (es : List (Event F)) (o : Option (Position F))
      → count_level n (history es o) ≤ left n o
  unfolding history count_level
  history-left n [] o = omega arith
  history-left n (e ∷ es) none = omega arith
  history-left n (e ∷ es) (some p) =
      let (o, action) = step e p in
      omega (arith, count_queued n action (history es o), history-left n es o, step-left n e p)

  -- Over any history of rounds, market updates, snapshots and results of sales, whether they fail or
  -- not, each profit level of a position is sold at most once.
  pub history_sells_level_once :
      (n : ℕ) (es : List (Event F)) (p : Position F) → count_level n (history es (some p)) ≤ 1
  history_sells_level_once n es p = ground (arith, history-left n es (some p))
