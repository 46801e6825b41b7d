-- ===== src/Manager/Buys/Result.antt =====
-- The result of a buy (apply_buy_result in src/autobuy/manager.rs).
use automatamain.Base.{ℕ, Option, none, some, if◌then◌else◌}
use automatamain.Base.Float.{Float}
use automatamain.Wallets.{find_wallet, set_balance_sol}
use automatamain.Strategy.{note_position_closed}
use automatamain.Manager.{
  ManagerConfig, Manager, Clock, insert_position, add_mint, any_position_for_mint,
}
use automatamain.Manager.Buys.{
  Buy, BuyReceipt, BuyResult, is_there, unmark_buy, bought, mint_unavailable, post_grad_no_route,
  buy_failed,
}
use automatamain.Manager.Buys.Opening.{detect_fill_mcap_spike, open_position}

module _ {F : Type 0} ⦃fl : Float F⦄ where
  open fl use {fle, fsub, fmul, fdiv}

  abbrev pub note_balance : ℕ → Option F → Manager F → Manager F
  note_balance wallet_id none m = m
  note_balance wallet_id (some bal) m = record m {
    wallets = set_balance_sol wallet_id bal m.wallets;
  }

  -- The emergency sale after a fill away from the score: whether the position stays shut. `sold` is
  -- the SOL that the sale gives back, if the broker sells.
  unfoldable pub abort_buy_after_fill_mcap_spike :
      Clock → Buy F → (sold : Option F) → (balance : Option F) → Manager F → Option (Manager F)
  abort_buy_after_fill_mcap_spike clock buy sold balance m =
      if is_there (find_wallet buy.wallet_id m.wallets.ordered)
      then elim sold [
        | none ↦ none
        | some received ↦ some (
            note_balance buy.wallet_id balance (record m {
              strategy =
                  note_position_closed m.strategy clock.first clock.second clock.third
                    (fsub received buy.amount_sol);
            }))
      ]
      else none

  abbrev pub insert_opened :
      (F → F) → ManagerConfig F → Clock → Buy F → BuyReceipt F → Option F → Manager F → Manager F
  insert_opened native cfg clock buy receipt balance m =
      note_balance buy.wallet_id balance (record m {
        positions =
            insert_position (open_position native cfg clock.wall_secs buy receipt) m.positions;
      })

  -- A mint that cannot be bought is closed, unless a wallet holds it.
  abbrev pub give_up : ℕ → Manager F → Manager F
  give_up mint m =
      if any_position_for_mint m mint
      then m
      else record m { closed_mints = add_mint mint m.closed_mints }

  -- `balance` is the broker's balance after the buy, or after the sale that takes it back.
  unfoldable pub apply_buy_result :
      (F → F)
      → ManagerConfig F
      → Clock
      → Buy F
      → BuyResult F
      → (sold balance : Option F) → Manager F
      → Manager F
  apply_buy_result native cfg clock buy mint_unavailable sold balance m =
      give_up buy.signal.mint (unmark_buy buy.signal.mint buy.wallet_id m)
  apply_buy_result native cfg clock buy post_grad_no_route sold balance m =
      give_up buy.signal.mint (unmark_buy buy.signal.mint buy.wallet_id m)
  apply_buy_result native cfg clock buy buy_failed sold balance m =
      unmark_buy buy.signal.mint buy.wallet_id m
  apply_buy_result native cfg clock buy (bought receipt) sold balance m₀ =
      let m = unmark_buy buy.signal.mint buy.wallet_id m₀ in
      elim (detect_fill_mcap_spike cfg buy.signal.learning_snapshot receipt) [
        | none ↦ insert_opened native cfg clock buy receipt balance m
        | some spike ↦ elim (abort_buy_after_fill_mcap_spike clock buy sold balance m) [
          | some aborted ↦ aborted
          | none ↦ insert_opened native cfg clock buy receipt balance m
        ]
      ]
