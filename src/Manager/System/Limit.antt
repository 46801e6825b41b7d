-- ===== src/Manager/System/Limit.antt =====
-- No message changes the rules of the strategy.
use automatamain.Base.{ℕ, ◌≡◌, inl, inr, refl, arith, Option, none, some, Option-cases}
use automatamain.Base.Float.{Float}
use automatamain.Base.Text.{Text}
use automatamain.Reputation.Blacklist.{DevBlacklistTier}
use automatamain.Strategy.{can_open}
use automatamain.Strategy.Config.{can_open-cfg, note_opened-cfg, note_closed-cfg}
use automatamain.Exit.Messages.{sold, execute_sell}
use automatamain.Wallets.{find_wallet}
use automatamain.Manager.{
  ManagerConfig, Manager, OpenPosition, BuySignal, Clock, unique_open_mints, any_position_for_mint,
  abandon_position, find_position, maybe_finalize_closed_mint,
}
use automatamain.Manager.Buys.{Buy, BuyResult, initiate_buy, execute_buy}
use automatamain.Manager.Buys.Result.{
  apply_buy_result, abort_buy_after_fill_mcap_spike, note_balance,
}
use automatamain.Manager.Sells.{
  Sale, SaleAnswer, execute_sale, settle_sale, close_position, paid, refused, realized_pnl_sol,
  put_back, returned_more, after_sale,
}

module _ {F : Type 0} where
  -- The strategy's limit of open positions.
  abbrev pub limit : Manager F → ℕ
  limit m = m.strategy.cfg.max_open_positions

  finalize-limit : (mint : ℕ) (m : Manager F) → limit (maybe_finalize_closed_mint mint m) ≡ limit m
  unfolding maybe_finalize_closed_mint
  finalize-limit mint m = ground arith

  pub abandon-limit :
      (mint : ℕ) (wallet_id : Option ℕ) (m : Manager F)
      → limit (abandon_position mint wallet_id m) ≡ limit m
  unfolding abandon_position maybe_finalize_closed_mint
  abandon-limit mint wallet_id m = ground arith

  pub execute-limit :
      (signal : BuySignal F) (wallet_id : ℕ) (amount_sol : F) (m : Manager F)
      → limit (execute_buy signal wallet_id amount_sol m).0 ≡ limit m
  unfolding execute_buy
  execute-limit signal wallet_id amount_sol m = ground arith

module _ {F : Type 0} ⦃fl : Float F⦄ where
  open fl use {fle, fsub}

  pub initiate-limit :
      (cfg : ManagerConfig F) (clock : Clock) (signal : BuySignal F) (m : Manager F)
      → limit (initiate_buy cfg clock signal m).0 ≡ limit m
  unfolding initiate_buy unique_open_mints any_position_for_mint
  initiate-limit cfg clock signal m =
      let asked = can_open m.strategy clock.first clock.second (unique_open_mints m) in
      ground (
        arith,
        can_open-cfg m.strategy clock.first clock.second (unique_open_mints m),
        note_opened-cfg asked.0 clock.third,
      )

  pub result-limit :
      (native : F → F) (cfg : ManagerConfig F) (clock : Clock) (buy : Buy F) (result : BuyResult F)
      (got balance : Option F) (m : Manager F)
      → limit (apply_buy_result native cfg clock buy result got balance m) ≡ limit m
  unfolding apply_buy_result abort_buy_after_fill_mcap_spike
  result-limit native cfg clock buy result none balance m = ground arith
  result-limit native cfg clock buy result (some received) balance m = ground (
    arith,
    note_closed-cfg m.strategy clock.first clock.second clock.third (fsub received buy.amount_sol),
  )

  close-limit :
      (cfg : ManagerConfig F) (clock : Clock) (sale : Sale F) (p : OpenPosition F) (m : Manager F)
      → limit (close_position cfg clock sale p m) ≡ limit m
  unfolding close_position maybe_finalize_closed_mint
  close-limit cfg clock sale p m =
      ground (
        arith,
        note_closed-cfg m.strategy clock.first clock.second clock.third (realized_pnl_sol p),
      )

  settle-limit :
      (native : F → F) (cfg : ManagerConfig F) (blacklist : Text → F → Option DevBlacklistTier)
      (clock : Clock) (sale : Sale F) (answer : SaleAnswer F) (balance : Option F)
      (p : OpenPosition F) (m : Manager F)
      → limit (settle_sale native cfg blacklist clock sale answer balance p m).0 ≡ limit m
  unfolding settle_sale
  settle-limit native cfg blacklist clock sale (refused manual) balance p m = ground arith
  settle-limit native cfg blacklist clock sale (paid value) balance p m =
      let q = returned_more p value in
      let rest =
        note_balance sale.wallet_id balance (
          put_back (after_sale native sale.percent q) (execute_sell sale.percent sold q.rules) m) in
      ground (arith, close-limit cfg clock sale q rest)

  pub sale-limit :
      (native : F → F) (cfg : ManagerConfig F) (blacklist : Text → F → Option DevBlacklistTier)
      (clock : Clock) (sale : Sale F) (answer : SaleAnswer F) (balance : Option F) (m : Manager F)
      → limit (execute_sale native cfg blacklist clock sale answer balance m).0 ≡ limit m
  unfolding execute_sale
  sale-limit native cfg blacklist clock sale answer balance m =
      elim (Option-cases (find_wallet sale.wallet_id m.wallets.ordered)) [
        | inl unknown ↦ rw (execute_sale, unknown) refl
        | inr (w, known) ↦
            elim (Option-cases (find_position sale.mint sale.wallet_id m.positions)) [
              | inl missing ↦ rw (execute_sale, known, missing) refl
              | inr (p, found) ↦
                  rw (execute_sale, known, found)
                    (settle-limit native cfg blacklist clock sale answer balance p _)
            ]
      ]
