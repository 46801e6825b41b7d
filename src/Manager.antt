-- ===== src/Manager.antt =====
-- The task that keeps the open positions of all wallets (PositionManagerActor in
-- src/autobuy/manager.rs): its state, and the messages that change it outside the rounds. Mints,
-- wallets and addresses are numbers, and a pool is its market value. `native x` is what the amount
-- Amount::from_float_native(x) reads back as a float.
pub mod Buys
pub mod Sells
pub mod System
pub mod Tests
use automatamain.Base.{
  ℕ, Bool, true, false, not, ◌&&◌, ◌||◌, Option, none, some, List, [], ◌∷◌, ◌++◌, map,
  if◌then◌else◌, ◌==◌,
}
use automatamain.Base.Set.{any, without, member, distinct}
use automatamain.Base.Assoc.{get?, insert}
use automatamain.Score.Types.{Tier}
use automatamain.Exit.Types.{Position, SmartBuyConfig, LearningTradeSnapshot}
use automatamain.Wallets.{WalletRegistry}
use automatamain.Strategy.{StrategyController}
use automatamain.Reputation.Quarantine.{CurveQuarantineCache, CurveQuarantineConfig}

-- The configuration that the manager reads, the fields of `SmartBuyConfig` that no round reads
-- included.
pub record ManagerConfig (F : Type 0) : Type 0 where
  pub smart : SmartBuyConfig F
  pub exit_profit_floor : F
  pub fill_mcap_abort_enabled : Bool
  pub fill_mcap_abort_max_ratio : F
  pub fill_mcap_abort_min_ratio : F
  pub honest_entry_baseline : Bool
  pub honest_entry_baseline_min_ratio : F
  pub curve_quarantine : CurveQuarantineConfig F

-- A position under its key, with its accounts; `rules` is what the rounds read and write.
pub record OpenPosition (F : Type 0) : Type 0 where
  pub mint : ℕ
  pub wallet_id : ℕ
  pub rules : Position F
  pub initial_holdings : F
  pub holdings : F
  pub total_returned : F
  pub spent_sol : F
  pub dev_address : Option ℕ
  pub early_buyers : List ℕ

pub record Manager (F : Type 0) : Type 0 where
  pub wallets : WalletRegistry F
  pub positions : List (OpenPosition F)
  pub pending_mints : List ℕ
  pub pending_wallet_buys : List (ℕ × ℕ)
  pub closed_mints : List ℕ
  pub pool_cache : List (ℕ × F)
  pub paused : Bool
  pub curve_quarantine : CurveQuarantineCache
  pub strategy : StrategyController F

-- What `InitiateBuy` carries.
pub record BuySignal (F : Type 0) : Type 0 where
  pub mint : ℕ
  pub pool_mcap : F
  pub amount_sol : F
  pub buy_tier : Tier
  pub dev_address : Option ℕ
  pub early_buyers : List ℕ
  pub learning_snapshot : Option (LearningTradeSnapshot F)

-- The answers of the clock in one message, in the order in which the code asks.
pub record Clock : Type 0 where
  pub wall_secs : ℕ
  pub first : ℕ
  pub second : ℕ
  pub third : ℕ

abbrev pub same_key : ℕ → ℕ → ℕ × ℕ → Bool
same_key mint wallet_id (m, w) = (m == mint) && (w == wallet_id)

-- `HashSet::insert` on the mints.
abbrev pub add_mint : ℕ → List ℕ → List ℕ
add_mint mint mints = if member mint mints then mints else mint ∷ mints

-- `wallet_id.is_none_or(|w| w == key.wallet_id)`.
abbrev pub is_none_or : Option ℕ → ℕ → Bool
is_none_or none w = true
is_none_or (some v) w = v == w

module _ {F : Type 0} where
  abbrev pub has_key : ℕ → ℕ → OpenPosition F → Bool
  has_key mint wallet_id p = same_key mint wallet_id (p.mint, p.wallet_id)

  abbrev pub of_mint : ℕ → OpenPosition F → Bool
  of_mint mint p = p.mint == mint

  -- `positions.get`.
  abbrev pub find_position : ℕ → ℕ → List (OpenPosition F) → Option (OpenPosition F)
  find_position mint wallet_id [] = none
  find_position mint wallet_id (p ∷ ps) =
      let rest = find_position mint wallet_id ps in
      if has_key mint wallet_id p then some p else rest

  -- `positions.remove` and `positions.insert`.
  abbrev pub remove_position : ℕ → ℕ → List (OpenPosition F) → List (OpenPosition F)
  remove_position mint wallet_id ps = without (has_key mint wallet_id) ps

  abbrev pub insert_position : OpenPosition F → List (OpenPosition F) → List (OpenPosition F)
  insert_position p ps = p ∷ remove_position p.mint p.wallet_id ps

  unfoldable pub any_position_for_mint : Manager F → ℕ → Bool
  any_position_for_mint m mint = any (of_mint mint) m.positions

  abbrev pub mints_of : List (OpenPosition F) → List ℕ
  mints_of ps = map (λ p. p.mint) ps

  unfoldable pub unique_open_mints : Manager F → ℕ
  unique_open_mints m = distinct (mints_of m.positions ++ m.pending_mints)

  -- `pool_cache.remove`.
  abbrev pub forget_pool : ℕ → List (ℕ × F) → List (ℕ × F)
  forget_pool mint pools = without (λ e. e.0 == mint) pools

  unfoldable pub maybe_finalize_closed_mint : ℕ → Manager F → Manager F
  maybe_finalize_closed_mint mint m = if any (of_mint mint) m.positions then m else record m {
    closed_mints = add_mint mint m.closed_mints;
    pool_cache = forget_pool mint m.pool_cache;
  }

  abbrev pub set_pool : ℕ → F → OpenPosition F → OpenPosition F
  set_pool mint mcap p =
      if p.mint == mint then record p { rules = record p.rules { pool_mcap = mcap } } else p

  unfoldable pub update_pool : ℕ → F → Manager F → Manager F
  update_pool mint mcap m = record m {
    pool_cache = insert mint mcap m.pool_cache;
    positions = map (set_pool mint mcap) m.positions;
  }

  unfoldable pub set_paused : Bool → Manager F → Manager F
  set_paused paused m = record m { paused = paused }

  unfoldable pub clear_pending_mint : ℕ → Manager F → Manager F
  clear_pending_mint mint m = record m { pending_mints = without (λ x. x == mint) m.pending_mints }

  -- The brokers forget the positions too.
  unfoldable pub abandon_position : ℕ → Option ℕ → Manager F → Manager F
  abandon_position mint wallet_id m = maybe_finalize_closed_mint mint (record m {
    positions = without (λ p. of_mint mint p && is_none_or wallet_id p.wallet_id) m.positions;
  })
