-- ===== src/Exit/Flight.antt =====
-- Sales in flight: how many a position can have queued without an answer.
use automatamain.Base.{
  ℕ, ◌+◌, ◌≤◌, ◌≡◌, arith, Bool, true, false, not, Option, none, some, List, [], ◌∷◌, if◌then◌else◌,
  refl, Bool-cases, inl, inr,
}
use automatamain.Base.Float.{Float}
use automatamain.Exit.Types.{
  Position, Action, CloseReason, take_profit, mcap_ceiling, SmartBuyConfig, LivePositionSnapshot,
}
use automatamain.Exit.Tick.{tick}
use automatamain.Exit.Tick.Flags.{SameFlags, Answers, SaleFor}
use automatamain.Exit.Tick.Order.{tick-Answers}
use automatamain.Exit.Messages.{
  Event, round, market, jupiter, live_tape, sale, step, history, queued, apply_exit_mcap_refresh,
  apply_live_snapshot, execute_sell,
}

sells_part : CloseReason → Bool
sells_part (take_profit n) = true
sells_part mcap_ceiling = true
sells_part _ = false

same_kind : Bool → Bool → Bool
same_kind true b = b
same_kind false b = not b

module _ {F : Type 0} ⦃fl : Float F⦄ where
  -- How many of the sales are of a part (`part`), or of everything.
  pub count_sales : Bool → List (Action F) → ℕ
  count_sales part [] = 0
  count_sales part (a ∷ rest) =
      if same_kind part (sells_part a.reason)
      then 1 + count_sales part rest
      else count_sales part rest

  -- How many answers of the broker a history has.
  pub answers : List (Event F) → ℕ
  answers [] = 0
  answers (sale percent r ∷ es) = 1 + answers es
  answers (_ ∷ es) = answers es

  -- The flag that says that a sale of the kind is in flight.
  abbrev in_flight : Bool → Position F → Bool
  in_flight part p = if part then p.pending_partial_sell else p.is_closing

  abbrev room : Bool → Option (Position F) → ℕ
  room part none = 0
  room part (some p) = if in_flight part p then 0 else 1

  SaleFor-room :
      (part : Bool) (r : CloseReason) (p q : Position F) (a : Action F)
      → p.is_closing ≡ false
      → SaleFor r p q a
      → (if same_kind part (sells_part r) then 1 else 0) + room part (some q) ≤ room part (some p)
  unfolding SaleFor sells_part same_kind
  SaleFor-room true (take_profit n) p q a o h = ground arith
  SaleFor-room true mcap_ceiling p q a o h = ground arith
  SaleFor-room true r p q a o h = ground arith
  SaleFor-room false (take_profit n) p q a o h = ground arith
  SaleFor-room false mcap_ceiling p q a o h = ground arith
  SaleFor-room false r p q a o h = ground arith

  same_in_flight :
      (part : Bool) (p q : Position F) → SameFlags p q → room part (some q) ≡ room part (some p)
  same_in_flight part p q same = ground arith

  Answers-room :
      (part : Bool) (p : Position F) (r : Position F × Option (Action F))
      → p.is_closing ≡ false
      → Answers p r
      → count_sales part (queued r.1 []) + room part (some r.0) ≤ room part (some p)
  unfolding Answers count_sales
  Answers-room part p (q, none) o h = omega (arith, same_in_flight part p q h)
  Answers-room part p (q, some a) o h = SaleFor-room part a.reason p q a o h.1

  closing_tick :
      (cfg : SmartBuyConfig F) (now : ℕ) (has_rpc : Bool) (p : Position F)
      → p.is_closing ≡ true
      → tick cfg now has_rpc p ≡ (p, none)
  unfolding tick
  closing_tick cfg now has_rpc p h = rw h refl

  round-room :
      (part : Bool) (cfg : SmartBuyConfig F) (now : ℕ) (has_rpc : Bool) (p : Position F)
      → let (q, action) = tick cfg now has_rpc p in
        count_sales part (queued action []) + room part (some q) ≤ room part (some p)
  unfolding count_sales
  round-room part cfg now has_rpc p = elim (Bool-cases p.is_closing) [
    | inl h ↦ rw (closing_tick cfg now has_rpc p h) (omega arith)
    | inr h ↦ Answers-room part p (tick cfg now has_rpc p) h (tick-Answers cfg now has_rpc p).1
  ]

  refresh-room :
      (part : Bool) (mcap : F) (use_jupiter : Bool) (p : Position F)
      → room part (some (apply_exit_mcap_refresh mcap use_jupiter p)) ≡ room part (some p)
  unfolding apply_exit_mcap_refresh
  refresh-room part mcap use_jupiter p = ground arith

  live-room :
      (part : Bool) (cfg : SmartBuyConfig F) (clock now : ℕ) (live : LivePositionSnapshot F)
      (p : Position F)
      → room part (some (apply_live_snapshot cfg clock now live p)) ≡ room part (some p)
  unfolding apply_live_snapshot
  live-room part cfg clock now live p = ground arith

  room_le_one : (part : Bool) (o : Option (Position F)) → room part o ≤ 1
  room_le_one part none = omega arith
  room_le_one part (some p) = ground arith

  count_queued :
      (part : Bool) (o : Option (Action F)) (rest : List (Action F))
      → count_sales part (queued o rest) ≡ count_sales part (queued o []) + count_sales part rest
  unfolding count_sales
  count_queued part none rest = omega arith
  count_queued part (some a) rest = ground arith

  history-room :
      (part : Bool) (es : List (Event F)) (o : Option (Position F))
      → count_sales part (history es o) ≤ room part o + answers es
  unfolding history count_sales answers step
  history-room part [] o = omega arith
  history-room part (e ∷ es) none = omega arith
  history-room part (round cfg now has_rpc ∷ es) (some p) =
      let (q, action) = tick cfg now has_rpc p in
      omega (
        arith,
        count_queued part action (history es (some q)),
        history-room part es (some q),
        round-room part cfg now has_rpc p,
      )
  history-room part (market mcap ∷ es) (some p) =
      history-room part es (some (record p { pool_mcap = mcap }))
  history-room part (jupiter mcap use_jupiter ∷ es) (some p) =
      let q = apply_exit_mcap_refresh mcap use_jupiter p in
      omega (arith, history-room part es (some q), refresh-room part mcap use_jupiter p)
  history-room part (live_tape cfg clock now live ∷ es) (some p) =
      let q = apply_live_snapshot cfg clock now live p in
      omega (arith, history-room part es (some q), live-room part cfg clock now live p)
  history-room part (sale percent r ∷ es) (some p) =
      let o = execute_sell percent r p in omega (arith, history-room part es o, room_le_one part o)

  -- A position has at most one partial sale and at most one full close in flight: over any history
  -- of a position, the sales of either kind that are queued are at most one more than the answers of
  -- the broker.
  pub history_one_in_flight :
      (part : Bool) (es : List (Event F)) (p : Position F)
      → count_sales part (history es (some p)) ≤ 1 + answers es
  history_one_in_flight part es p =
      omega (arith, history-room part es (some p), room_le_one part (some p))
