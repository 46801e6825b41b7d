-- ===== src/Manager/Buys.antt =====
-- From a signal to the buys of its wallets: the fan-out and the start of one wallet's buy (InitiateBuy
-- and ExecuteBuy in src/autobuy/manager.rs), with what a buy is and how it may end.
pub mod Gate
pub mod Payers
pub mod Signal
pub mod Opening
pub mod Result
pub mod Opened
pub mod Fill
use automatamain.Base.{
  ℕ, Bool, true, false, not, ◌&&◌, ◌||◌, Option, none, some, List, [], ◌∷◌, map, if◌then◌else◌,
  ◌==◌,
}
use automatamain.Base.Float.{Float}
use automatamain.Base.Set.{any, without, member}
use automatamain.Base.Assoc.{get?, insert}
use automatamain.Wallets.{WalletHandle, find_wallet, enabled_wallets, amount_for_signal}
use automatamain.Strategy.{BuyDecision, allow, can_open, note_position_opened}
use automatamain.Reputation.Quarantine.{is_active, prune}
use automatamain.Manager.{
  ManagerConfig, Manager, BuySignal, Clock, same_key, find_position, add_mint,
  any_position_for_mint, unique_open_mints,
}

-- The task of one signal: the wallets that are still to buy, with their amounts.
pub record Fanout (F : Type 0) : Type 0 where
  pub signal : BuySignal F
  pub left : List (ℕ × F)

-- A buy that a broker works on.
pub record Buy (F : Type 0) : Type 0 where
  pub signal : BuySignal F
  pub wallet_id : ℕ
  pub amount_sol : F
  pub latest_pool : F

pub record BuyReceipt (F : Type 0) : Type 0 where
  pub tokens_received : F
  pub entry_mcap_fill_sol : Option F

-- How a buy ends: the errors as `apply_buy_result` tells them apart.
pub data BuyResult (F : Type 0) : Type 0 where
  bought : BuyReceipt F → BuyResult F
  mint_unavailable post_grad_no_route buy_failed : BuyResult F

pub record FillMcapSpike (F : Type 0) : Type 0 where
  pub score_mcap_sol : F
  pub fill_mcap_sol : F
  pub ratio : F
  pub max_ratio : F
  pub min_ratio : F
  pub adverse : Bool

abbrev pub is_allow : BuyDecision → Bool
is_allow allow = true
is_allow _ = false

abbrev pub is_there : {A : Type 0} → Option A → Bool
is_there none = false
is_there (some x) = true

module _ {F : Type 0} where
  -- `HashSet::insert` and `remove` on the wallets' buys.
  abbrev pub mark_buy : ℕ → ℕ → Manager F → Manager F
  mark_buy mint wallet_id m =
      if any (same_key mint wallet_id) m.pending_wallet_buys
      then m
      else record m { pending_wallet_buys = (mint, wallet_id) ∷ m.pending_wallet_buys }

  abbrev pub unmark_buy : ℕ → ℕ → Manager F → Manager F
  unmark_buy mint wallet_id m = record m {
    pending_wallet_buys = without (same_key mint wallet_id) m.pending_wallet_buys;
  }

  abbrev start_buy : BuySignal F → ℕ → F → Manager F → Option F → Manager F × Option (Buy F)
  start_buy signal wallet_id amount_sol m none = (unmark_buy signal.mint wallet_id m, none)
  start_buy signal wallet_id amount_sol m (some pool) = (
    m,
    some (record {
      signal = signal;
      wallet_id = wallet_id;
      amount_sol = amount_sol;
      latest_pool = pool;
    }),
  )

  -- `ExecuteBuy`.
  unfoldable pub execute_buy : BuySignal F → ℕ → F → Manager F → Manager F × Option (Buy F)
  execute_buy signal wallet_id amount_sol m₀ =
      let m = mark_buy signal.mint wallet_id m₀ in
      let dropped : Manager F × Option (Buy F) = (unmark_buy signal.mint wallet_id m, none) in
      if m.paused
      then dropped
      else if not (is_there (find_wallet wallet_id m.wallets.ordered))
      then dropped
      else if is_there (find_position signal.mint wallet_id m.positions)
      then dropped
      else start_buy signal wallet_id amount_sol m (get? signal.mint m.pool_cache)

module _ {F : Type 0} ⦃fl : Float F⦄ where
  open fl use {fle, fsub, fmul, fdiv}

  -- The wallets that buy, in their order.
  abbrev pub buyers : BuySignal F → List (WalletHandle F) → List (ℕ × F)
  buyers signal ws = map (λ w. (w.id, amount_for_signal w signal.amount_sol signal.buy_tier)) ws

  -- What follows an answer of the gate that allows the buy.
  abbrev pub fan_out :
      Clock → BuySignal F → Manager F → List (ℕ × F) → Manager F × Option (Fanout F)
  fan_out clock signal m [] =
      let marked = add_mint signal.mint m.pending_mints in
      (
        record m {
          pending_mints = without (λ x. x == signal.mint) marked;
          pool_cache = insert signal.mint signal.pool_mcap m.pool_cache;
        },
        none,
      )
  fan_out clock signal m (w ∷ ws) = (
    record m {
      pending_mints = add_mint signal.mint m.pending_mints;
      pool_cache = insert signal.mint signal.pool_mcap m.pool_cache;
      strategy = note_position_opened m.strategy clock.third;
    },
    some (record { signal = signal; left = w ∷ ws }),
  )

  -- `InitiateBuy`, with the task that it starts.
  unfoldable pub initiate_buy :
      ManagerConfig F → Clock → BuySignal F → Manager F → Manager F × Option (Fanout F)
  initiate_buy cfg clock signal m =
      let pruned = record m { curve_quarantine = prune m.curve_quarantine clock.wall_secs } in
      let answer = can_open pruned.strategy clock.first clock.second (unique_open_mints pruned) in
      let asked = record pruned { strategy = answer.0 } in
      if m.paused
      then (m, none)
      else if any_position_for_mint m signal.mint
          || member signal.mint m.pending_mints
          || member signal.mint m.closed_mints
      then (m, none)
      else if cfg.curve_quarantine.enabled
          && is_active pruned.curve_quarantine signal.mint clock.wall_secs
      then (pruned, none)
      else if is_allow answer.1
      then fan_out clock signal asked (buyers signal (enabled_wallets asked.wallets))
      else (asked, none)
