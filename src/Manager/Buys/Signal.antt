-- ===== src/Manager/Buys/Signal.antt =====
-- What stands against a signal, and what it starts.
use automatamain.Base.{
  ℕ, ◌+◌, ◌%◌, ◌^◌, ◌≡◌, ◌⊎◌, inl, inr, refl, arith, true, false, Option, none, some, ◌++◌, ◌∙◌, ap,
  Bool-cases, if◌then◌else◌, ◌==◌, Option-cases,
}
use automatamain.Base.Float.{Float}
use automatamain.Base.Set.{any, member, distinct}
use automatamain.Base.Assoc.{get?, get?-insert}
use automatamain.Strategy.{roll_day_if_needed}
use automatamain.Strategy.Gate.{IsOpen, can_open_iff, can_open-rolled, opened-count}
use automatamain.Reputation.Quarantine.{is_active, prune}
use automatamain.Manager.{
  ManagerConfig, Manager, BuySignal, Clock, mints_of, find_position, any_position_for_mint,
  unique_open_mints,
}
use automatamain.Manager.Buys.{Fanout, initiate_buy}
use automatamain.Manager.Buys.Gate.{IsFree, with_fanout, buyers_of, started_iff}
use automatamain.Manager.Buys.Payers.{
  payers, buyers-payers, no_payer, some_payer, none_held, none_found,
}

module _ {F : Type 0} ⦃fl : Float F⦄ where
  -- Nothing stands against a signal.
  pub record IsClear (cfg : ManagerConfig F) (clock : Clock) (signal : BuySignal F) (m : Manager F)
      : Type 0 where
    pub not_paused : m.paused ≡ false
    pub not_held : (w : ℕ) → find_position signal.mint w m.positions ≡ none
    pub not_pending : member signal.mint m.pending_mints ≡ false
    pub not_closed : member signal.mint m.closed_mints ≡ false
    pub not_quarantined :
        (cfg.curve_quarantine.enabled ≡ false)
        ⊎ (is_active (prune m.curve_quarantine clock.wall_secs) signal.mint clock.wall_secs ≡ false)
    pub gate :
        IsOpen
          (roll_day_if_needed m.strategy clock.first)
          clock.second
          (distinct (mints_of m.positions ++ m.pending_mints))
    pub payer : any (λ w. w.enabled) m.wallets.ordered ≡ true

  -- What follows a signal that nothing stands against.
  pub record Starts (clock : Clock) (signal : BuySignal F) (m n : Manager F)
      (fanout : Option (Fanout F)) : Type 0 where
    pub started : fanout ≡ some (record { signal = signal; left = payers signal m.wallets.ordered })
    pub pending :
        (a : ℕ)
        → member a n.pending_mints ≡ (if a == signal.mint then true else member a m.pending_mints)
    pub pools :
        (a : ℕ)
        → get? a n.pool_cache
          ≡ (if a == signal.mint then some signal.pool_mcap else get? a m.pool_cache)
    pub counted :
        n.strategy.daily_trades
        ≡ ((roll_day_if_needed (roll_day_if_needed m.strategy clock.first) clock.third).daily_trades
            + 1)
          % 2 ^ 32
    pub same_positions : n.positions ≡ m.positions
    pub same_closed : n.closed_mints ≡ m.closed_mints
    pub same_wallets : n.wallets ≡ m.wallets
    pub same_buys : n.pending_wallet_buys ≡ m.pending_wallet_buys

  clear-IsFree :
      (cfg : ManagerConfig F) (clock : Clock) (signal : BuySignal F) (m : Manager F)
      → IsClear cfg clock signal m
      → IsFree cfg clock signal m
  unfolding any_position_for_mint unique_open_mints
  clear-IsFree cfg clock signal m v = record {
    not_paused = v.not_paused;
    not_open = none_found signal.mint m.positions v.not_held;
    not_pending = v.not_pending;
    not_closed = v.not_closed;
    not_quarantined = v.not_quarantined;
    gate_open = (can_open_iff m.strategy clock.first clock.second _).1 v.gate;
    with_wallet =
        rw (buyers-payers signal m.wallets.ordered) (some_payer signal m.wallets.ordered v.payer);
  }

  free-IsClear :
      (cfg : ManagerConfig F) (clock : Clock) (signal : BuySignal F) (m : Manager F)
      → IsFree cfg clock signal m
      → IsClear cfg clock signal m
  unfolding any_position_for_mint unique_open_mints
  free-IsClear cfg clock signal m v = record {
    not_paused = v.not_paused;
    not_held = λ w. none_held signal.mint w m.positions v.not_open;
    not_pending = v.not_pending;
    not_closed = v.not_closed;
    not_quarantined = v.not_quarantined;
    gate = (can_open_iff m.strategy clock.first clock.second _).0 v.gate_open;
    payer = elim (Bool-cases (any (λ w. w.enabled) m.wallets.ordered)) [
      | inl there ↦ there
      | inr nobody ↦ absurd (
          v.with_wallet
            (buyers-payers signal m.wallets.ordered ∙ no_payer signal m.wallets.ordered nobody))
    ];
  }

  -- A signal that is turned down.
  pub record Refuses (m n : Manager F) (fanout : Option (Fanout F)) : Type 0 where
    pub nothing : fanout ≡ none
    pub same_positions : n.positions ≡ m.positions
    pub same_closed : n.closed_mints ≡ m.closed_mints
    pub same_wallets : n.wallets ≡ m.wallets
    pub same_buys : n.pending_wallet_buys ≡ m.pending_wallet_buys

  with_fanout-Starts :
      (cfg : ManagerConfig F) (clock : Clock) (signal : BuySignal F) (m : Manager F)
      → IsFree cfg clock signal m
      → Starts clock signal m
          (with_fanout clock signal m)
          (some (record { signal = signal; left = buyers_of signal m }))
  with_fanout-Starts cfg clock signal m free =
      let count = unique_open_mints m in
      record {
        started =
            ap (λ l. some (record { signal = signal; left = l }))
              (buyers-payers signal m.wallets.ordered);
        pending = λ a. ground arith;
        pools = λ a. ground (arith, get?-insert signal.mint a signal.pool_mcap m.pool_cache);
        counted =
            rw (can_open-rolled m.strategy clock.first clock.second count free.gate_open)
              (opened-count (roll_day_if_needed m.strategy clock.first) clock.third);
        same_positions = refl;
        same_closed = refl;
        same_wallets = refl;
        same_buys = refl;
      }

  refused-Refuses :
      (cfg : ManagerConfig F) (clock : Clock) (signal : BuySignal F) (m : Manager F)
      → (initiate_buy cfg clock signal m).1 ≡ none
      → Refuses m (initiate_buy cfg clock signal m).0 (initiate_buy cfg clock signal m).1
  unfolding initiate_buy
  refused-Refuses cfg clock signal m h = record {
    nothing = h;
    same_positions = ground arith;
    same_closed = ground arith;
    same_wallets = ground arith;
    same_buys = ground arith;
  }

  -- A signal starts a fan-out exactly where the manager is not paused, no wallet has a position of
  -- the mint, the mint is neither pending nor closed nor in quarantine, there is room next to the
  -- mints that are open or pending, the day has trades left and a result between its limits, there
  -- is no pause, and a wallet is enabled. The fan-out then has the enabled wallets in their order,
  -- each with the size of the tier that is set for it, else its own size, else that of the signal;
  -- the mint and no other is newly pending, its pool is kept, one trade is counted, and positions,
  -- closed mints, wallets and buys stay as they were. A signal that is turned down changes no
  -- position, closed mint, wallet or buy.
  pub initiate_iff :
      (cfg : ManagerConfig F) (clock : Clock) (signal : BuySignal F) (m : Manager F)
      → (IsClear cfg clock signal m
          × Starts clock signal m
              (initiate_buy cfg clock signal m).0
              (initiate_buy cfg clock signal m).1)
        ⊎ ((¬ (IsClear cfg clock signal m))
            × Refuses m (initiate_buy cfg clock signal m).0 (initiate_buy cfg clock signal m).1)
  initiate_iff cfg clock signal m =
      let iff = started_iff cfg clock signal m in
      elim (Option-cases (initiate_buy cfg clock signal m).1) [
        | inl turned_down ↦ inr (
          λ clear. iff.0.1 (clear-IsFree cfg clock signal m clear) turned_down,
          refused-Refuses cfg clock signal m turned_down,
        )
        | inr (f, fanned_out) ↦
            let free : IsFree cfg clock signal m = iff.0.0 (rw fanned_out (λ e. cc)) in
            inl (
              free-IsClear cfg clock signal m free,
              rw (iff.1 free) (with_fanout-Starts cfg clock signal m free),
            )
      ]
