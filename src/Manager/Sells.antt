-- ===== src/Manager/Sells.antt =====
-- One sale of a wallet's position, and the end of a position (ExecuteSell in
-- src/autobuy/manager.rs). `blacklist` is classify_dev_blacklist with its configuration.
pub mod Accounts
use automatamain.Base.{
  ℕ, ◌+◌, ◌%◌, ◌^◌, Bool, true, false, Option, none, some, List, [], ◌∷◌, if◌then◌else◌,
}
use automatamain.Base.Float.{Float, flt, int}
use automatamain.Base.Text.{Text}
use automatamain.Exit.Messages.{SellResult, sold, requires_manual_sell, failed, execute_sell}
use automatamain.Exit.Types.{Position}
use automatamain.Exit.Tape.{pnl_at_mcap, pnl_filtered, exit_raw_mcap}
use automatamain.Wallets.{find_wallet}
use automatamain.Strategy.{note_position_closed}
use automatamain.Reputation.DevRanker.{TokenOutcome, classify}
use automatamain.Reputation.Quarantine.{quarantine, should_quarantine_mint}
use automatamain.Reputation.Blacklist.{DevBlacklistTier}
use automatamain.Manager.{
  ManagerConfig, OpenPosition, Manager, Clock, find_position, remove_position, insert_position,
  maybe_finalize_closed_mint,
}
use automatamain.Manager.Buys.Result.{note_balance}

-- What `ExecuteSell` carries.
pub record Sale (F : Type 0) : Type 0 where
  pub mint : ℕ
  pub wallet_id : ℕ
  pub percent : F
  pub reason : Text

-- What the broker answers: the SOL that came back, or an error.
pub data SaleAnswer (F : Type 0) : Type 0 where
  paid : F → SaleAnswer F
  refused : (requires_manual : Bool) → SaleAnswer F

abbrev pub error_kind : Bool → SellResult
error_kind true = requires_manual_sell
error_kind false = failed

-- What other tasks are told when a position ends.
pub record Closing (F : Type 0) : Type 0 where
  pub pnl_sol : F
  pub pnl_pct_sol : F
  pub dev_outcome : Option (ℕ × TokenOutcome)
  pub buyers : List ℕ
  pub blacklisted : Option DevBlacklistTier

abbrev ban_of : Option ℕ → Option DevBlacklistTier → Option DevBlacklistTier
ban_of none tier = none
ban_of (some dev) tier = tier

module _ {F : Type 0} ⦃fl : Float F⦄ where
  open fl use {fle, fadd, fsub, fmul, fdiv}

  abbrev pub percent_gain : F → F → F
  percent_gain returned spent = fmul (fsub (fdiv returned spent) (int 1)) (int 100)

  -- The result of a position in SOL, and in per cent of what was spent. Where nothing is known to be
  -- spent the second is measured by the tokens.
  unfoldable pub realized_pnl_sol : OpenPosition F → F
  realized_pnl_sol p = if flt (int 0) p.spent_sol then fsub p.total_returned p.spent_sol else int 0

  unfoldable pub realized_pnl_pct : OpenPosition F → F
  realized_pnl_pct p =
      if flt (int 0) p.spent_sol
      then percent_gain p.total_returned p.spent_sol
      else percent_gain p.total_returned p.initial_holdings

  unfoldable pub sell_qty : OpenPosition F → F → F
  sell_qty p percent = fmul p.holdings (fdiv percent (int 100))

  abbrev outcome_of : Option ℕ → F → Option (ℕ × TokenOutcome)
  outcome_of none pnl_pct = none
  outcome_of (some dev) pnl_pct = some (dev, classify pnl_pct)

  unfoldable pub closing_of :
      (Text → F → Option DevBlacklistTier) → Sale F → OpenPosition F → Closing F
  closing_of blacklist sale p =
      let pnl_pct = realized_pnl_pct p in
      record {
        pnl_sol = realized_pnl_sol p;
        pnl_pct_sol = pnl_pct;
        dev_outcome = outcome_of p.dev_address pnl_pct;
        buyers = p.early_buyers;
        blacklisted = ban_of p.dev_address (blacklist sale.reason pnl_pct);
      }

  -- The books of the manager at the end of a position; `p` has all that it returned.
  unfoldable pub close_position :
      ManagerConfig F → Clock → Sale F → OpenPosition F → Manager F → Manager F
  close_position cfg clock sale p m₀ =
      let m = maybe_finalize_closed_mint sale.mint m₀ in
      let noted = record m {
        strategy =
            note_position_closed m.strategy clock.first clock.second clock.third
              (realized_pnl_sol p);
      } in
      let filtered =
        pnl_filtered p.rules cfg.smart.exit_mcap_band_low_ratio
          cfg.smart.exit_mcap_band_high_ratio in
      let raw = pnl_at_mcap p.rules (exit_raw_mcap p.rules) in
      let expires = (clock.wall_secs + cfg.curve_quarantine.cooldown_secs) % 2 ^ 64 in
      if should_quarantine_mint sale.reason (realized_pnl_pct p) filtered raw cfg.curve_quarantine
      then record noted { curve_quarantine = quarantine noted.curve_quarantine sale.mint expires }
      else noted

  abbrev pub put_back : OpenPosition F → Option (Position F) → Manager F → Manager F
  put_back p none m = m
  put_back p (some rules) m = record m {
    positions = insert_position (record p { rules = rules }) m.positions;
  }

  abbrev pub returned_more : OpenPosition F → F → OpenPosition F
  returned_more p value = record p { total_returned = fadd p.total_returned value }

  -- What is left after a confirmed sale of a part.
  abbrev pub after_sale : (F → F) → F → OpenPosition F → OpenPosition F
  after_sale native percent p = record p {
    holdings = native (fsub p.holdings (sell_qty p percent));
  }

  -- The sale of a position that is out of the map for the time of the sale.
  unfoldable pub settle_sale :
      (F → F)
      → ManagerConfig F
      → (Text → F → Option DevBlacklistTier)
      → Clock
      → Sale F
      → SaleAnswer F
      → (balance : Option F) → OpenPosition F
      → Manager F
      → Manager F × Option (Closing F)
  settle_sale native cfg blacklist clock sale (refused manual) balance p m =
      (put_back p (execute_sell sale.percent (error_kind manual) p.rules) m, none)
  settle_sale native cfg blacklist clock sale (paid value) balance p₀ m =
      let p = returned_more p₀ value in
      let rest =
        put_back (after_sale native sale.percent p) (execute_sell sale.percent sold p.rules) m in
      let noted = note_balance sale.wallet_id balance rest in
      if fle (int 100) sale.percent
      then (close_position cfg clock sale p noted, some (closing_of blacklist sale p))
      else (noted, none)

  unfoldable pub execute_sale :
      (F → F)
      → ManagerConfig F
      → (Text → F → Option DevBlacklistTier)
      → Clock
      → Sale F
      → SaleAnswer F
      → (balance : Option F) → Manager F
      → Manager F × Option (Closing F)
  execute_sale native cfg blacklist clock sale answer balance m =
      elim (find_wallet sale.wallet_id m.wallets.ordered) [
        | none ↦ (m, none)
        | some wallet ↦ elim (find_position sale.mint sale.wallet_id m.positions) [
          | none ↦ (m, none)
          | some p ↦
              settle_sale native cfg blacklist clock sale answer balance p
                (record m { positions = remove_position sale.mint sale.wallet_id m.positions })
        ]
      ]
