-- ===== src/Manager/Buys/Gate.antt =====
-- When a signal starts a fan-out, in terms of the parts of the message.
use automatamain.Base.{ℕ, ◌≡◌, ◌≢◌, ◌↔◌, ◌⊎◌, arith, true, false, none, some, List, [], ◌∷◌}
use automatamain.Base.Float.{Float}
use automatamain.Base.Set.{member}
use automatamain.Base.Assoc.{insert}
use automatamain.Wallets.{enabled_wallets}
use automatamain.Strategy.{BuyDecision, allow, can_open, note_position_opened}
use automatamain.Reputation.Quarantine.{is_active, prune}
use automatamain.Manager.{
  ManagerConfig, Manager, BuySignal, Clock, any_position_for_mint, unique_open_mints,
}
use automatamain.Manager.Buys.{is_allow, buyers, initiate_buy}

is_allow_iff : (d : BuyDecision) → is_allow d ≡ true → d ≡ allow
is_allow_iff d h = ground (arith, h)

allow_is : (d : BuyDecision) → d ≡ allow → is_allow d ≡ true
allow_is d h = ground (arith, h)

module _ {F : Type 0} ⦃fl : Float F⦄ where
  -- The wallets that a signal is fanned out to.
  abbrev pub buyers_of : BuySignal F → Manager F → List (ℕ × F)
  buyers_of signal m = buyers signal (enabled_wallets m.wallets)

  -- Nothing stands against a signal.
  pub record IsFree (cfg : ManagerConfig F) (clock : Clock) (signal : BuySignal F) (m : Manager F)
      : Type 0 where
    pub not_paused : m.paused ≡ false
    pub not_open : any_position_for_mint m signal.mint ≡ false
    pub not_pending : member signal.mint m.pending_mints ≡ false
    pub not_closed : member signal.mint m.closed_mints ≡ false
    pub not_quarantined :
        (cfg.curve_quarantine.enabled ≡ false)
        ⊎ (is_active (prune m.curve_quarantine clock.wall_secs) signal.mint clock.wall_secs ≡ false)
    pub gate_open : (can_open m.strategy clock.first clock.second (unique_open_mints m)).1 ≡ allow
    pub with_wallet : buyers_of signal m ≢ []

  initiate_buy-IsFree :
      (cfg : ManagerConfig F) (clock : Clock) (signal : BuySignal F) (m : Manager F)
      → (initiate_buy cfg clock signal m).1 ≢ none
      → IsFree cfg clock signal m
  unfolding initiate_buy unique_open_mints any_position_for_mint
  initiate_buy-IsFree cfg clock signal m h = ground (arith, h)

  IsFree-initiate_buy :
      (cfg : ManagerConfig F) (clock : Clock) (signal : BuySignal F) (m : Manager F)
      → IsFree cfg clock signal m
      → (initiate_buy cfg clock signal m).1
        ≡ some (record { signal = signal; left = buyers_of signal m })
  unfolding initiate_buy unique_open_mints any_position_for_mint
  IsFree-initiate_buy cfg clock signal m v = ground (arith, v)

  -- The state with a fan-out: the mint is pending, the pool is kept, and the strategy counts the buy.
  abbrev pub with_fanout : Clock → BuySignal F → Manager F → Manager F
  with_fanout clock signal m = record m {
    pending_mints = signal.mint ∷ m.pending_mints;
    curve_quarantine = prune m.curve_quarantine clock.wall_secs;
    pool_cache = insert signal.mint signal.pool_mcap m.pool_cache;
    strategy =
        note_position_opened (can_open m.strategy clock.first clock.second (unique_open_mints m)).0
          clock.third;
  }

  IsFree-state :
      (cfg : ManagerConfig F) (clock : Clock) (signal : BuySignal F) (m : Manager F)
      → IsFree cfg clock signal m
      → (initiate_buy cfg clock signal m).0 ≡ with_fanout clock signal m
  unfolding initiate_buy unique_open_mints any_position_for_mint
  IsFree-state cfg clock signal m v = ground (arith, v)

  pub started_iff :
      (cfg : ManagerConfig F) (clock : Clock) (signal : BuySignal F) (m : Manager F)
      → (((initiate_buy cfg clock signal m).1 ≢ none) ↔ IsFree cfg clock signal m)
        × (IsFree cfg clock signal m
            → initiate_buy cfg clock signal m ≡ (
              with_fanout clock signal m,
              some (record { signal = signal; left = buyers_of signal m }),
            ))
  started_iff cfg clock signal m = (
    (
      initiate_buy-IsFree cfg clock signal m,
      λ v. rw (IsFree-initiate_buy cfg clock signal m v) (λ e. cc),
    ),
    λ v. λ i. (IsFree-state cfg clock signal m v i, IsFree-initiate_buy cfg clock signal m v i),
  )
