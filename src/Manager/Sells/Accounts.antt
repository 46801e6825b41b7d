-- ===== src/Manager/Sells/Accounts.antt =====
-- What a sale does to the accounts of a position.
use automatamain.Base.{
  ℕ, ◌≡◌, ◌≢◌, inl, inr, refl, arith, Bool, true, false, Option, none, some, List, if◌then◌else◌,
  Option-cases, Bool-cases, ◌||◌,
}
use automatamain.Base.Float.{Float, int}
use automatamain.Base.Set.{any, member}
use automatamain.Base.Text.{Text}
use automatamain.Exit.Messages.{execute_sell}
use automatamain.Strategy.{note_position_closed}
use automatamain.Reputation.Blacklist.{DevBlacklistTier}
use automatamain.Wallets.{find_wallet}
use automatamain.Manager.{
  ManagerConfig, Manager, OpenPosition, Clock, of_mint, find_position, remove_position,
  insert_position, maybe_finalize_closed_mint,
}
use automatamain.Manager.Buys.Result.{note_balance}
use automatamain.Manager.Sells.{
  Sale, SaleAnswer, paid, refused, Closing, execute_sale, settle_sale, close_position,
  returned_more, sell_qty, realized_pnl_sol, closing_of,
}

module _ {F : Type 0} ⦃fl : Float F⦄ where
  balance_same :
      (wallet_id : ℕ) (balance : Option F) (m : Manager F)
      → ((note_balance wallet_id balance m).positions ≡ m.positions)
        × ((note_balance wallet_id balance m).strategy ≡ m.strategy)
        × ((note_balance wallet_id balance m).closed_mints ≡ m.closed_mints)
  balance_same wallet_id none m = (refl, refl, refl)
  balance_same wallet_id (some bal) m = (refl, refl, refl)

module _ {F : Type 0} ⦃fl : Float F⦄ (native : F → F) (cfg : ManagerConfig F)
    (blacklist : Text → F → Option DevBlacklistTier) (clock : Clock) (sale : Sale F)
    (balance : Option F) (m : Manager F) (p : OpenPosition F)
    (found : find_position sale.mint sale.wallet_id m.positions ≡ some p)
    (known : find_wallet sale.wallet_id m.wallets.ordered ≢ none) where
  open fl use {fle, fadd, fsub}

  abbrev pub answered : SaleAnswer F → Manager F × Option (Closing F)
  answered answer = execute_sale native cfg blacklist clock sale answer balance m

  -- The positions without the one that is sold.
  abbrev pub others : List (OpenPosition F)
  others = remove_position sale.mint sale.wallet_id m.positions

  open_sale :
      (answer : SaleAnswer F)
      → answered answer
        ≡ settle_sale native cfg blacklist clock sale answer balance p
            (record m { positions = others })
  unfolding execute_sale
  open_sale answer = elim (Option-cases (find_wallet sale.wallet_id m.wallets.ordered)) [
    | inl unknown ↦ absurd (known unknown)
    | inr (w, there) ↦ rw (execute_sale, there, found) refl
  ]

  -- A confirmed sale of 100 per cent or more: the position is gone, other tasks are told, the strategy
  -- books its result, and the mint is closed unless another wallet holds it.
  abbrev pub FullSale : F → Type 0
  FullSale value =
      ((answered (paid value)).0.positions ≡ others)
      × ((answered (paid value)).1 ≡ some (closing_of blacklist sale (returned_more p value)))
      × ((answered (paid value)).0.strategy
          ≡ note_position_closed m.strategy clock.first clock.second clock.third
              (realized_pnl_sol (returned_more p value)))
      × (member sale.mint (answered (paid value)).0.closed_mints
          ≡ (if any (of_mint sale.mint) others then member sale.mint m.closed_mints else true))

  abbrev pub Unbooked : SaleAnswer F → Type 0
  Unbooked answer =
      ((answered answer).1 ≡ none)
      × ((answered answer).0.strategy ≡ m.strategy)
      × ((answered answer).0.closed_mints ≡ m.closed_mints)

  -- A confirmed sale of a part: the position has the rest and what came back, and no partial sale is
  -- pending; nothing is booked.
  abbrev pub PartSale : F → Type 0
  PartSale value =
      ((answered (paid value)).0.positions
        ≡ insert_position
            (record p {
              rules = record p.rules { pending_partial_sell = false };
              holdings = native (fsub p.holdings (sell_qty p sale.percent));
              total_returned = fadd p.total_returned value;
            })
            others)
      × Unbooked (paid value)

  -- A refused sale: the position has what it had, no partial sale is pending, and it is no longer
  -- closing, unless the sale was of a part and a retry can still succeed.
  abbrev pub RefusedSale : Bool → Type 0
  RefusedSale manual =
      ((answered (refused manual)).0.positions
        ≡ insert_position
            (record p {
              rules = record p.rules {
                pending_partial_sell = false;
                is_closing =
                    if manual || fle (int 100) sale.percent then false else p.rules.is_closing;
              };
            })
            others)
      × Unbooked (refused manual)

  -- A percentage that is no number: the position is gone, and nothing is booked.
  abbrev pub LostSale : F → Type 0
  LostSale value = ((answered (paid value)).0.positions ≡ others) × Unbooked (paid value)

  abbrev pub SaleOutcome : SaleAnswer F → Type 0
  SaleOutcome (refused manual) = RefusedSale manual
  SaleOutcome (paid value) =
      if fle (int 100) sale.percent
      then FullSale value
      else if fle sale.percent (int 100)
      then PartSale value
      else LostSale value

  full_sale : (value : F) → fle (int 100) sale.percent ≡ true → FullSale value
  unfolding settle_sale close_position maybe_finalize_closed_mint execute_sell
  full_sale value full = rw (open_sale (paid value)) (ground (arith, full))

  part_sale :
      (value : F)
      → fle (int 100) sale.percent ≡ false
      → fle sale.percent (int 100) ≡ true
      → PartSale value
  unfolding settle_sale execute_sell sell_qty
  part_sale value not_full part =
      rw (open_sale (paid value), settle_sale, execute_sell, not_full, part)
        (let same = balance_same sale.wallet_id balance _ in (same.0, (refl, same.1, same.2)))

  lost_sale :
      (value : F)
      → fle (int 100) sale.percent ≡ false
      → fle sale.percent (int 100) ≡ false
      → LostSale value
  unfolding settle_sale execute_sell
  lost_sale value not_full not_part =
      rw (open_sale (paid value)) (ground (arith, not_full, not_part))

  refused_sale : (manual : Bool) → RefusedSale manual
  unfolding settle_sale execute_sell
  refused_sale manual = rw (open_sale (refused manual)) (ground arith)

  -- The sale of a position that a known wallet holds, on every answer. Confirmed and of all: the
  -- position is gone, other tasks are told, the strategy books its result, and the mint is closed
  -- unless another wallet holds it. Confirmed and of a part: the position has the rest and what came
  -- back. Of a percentage that is no number: it is gone and nothing is booked. Refused: it has what it
  -- had, no partial sale is pending, and it is no longer closing, unless the sale was of a part and a
  -- retry can still succeed.
  pub sale_outcome : (answer : SaleAnswer F) → SaleOutcome answer
  sale_outcome (refused manual) = refused_sale manual
  sale_outcome (paid value) = elim (Bool-cases (fle (int 100) sale.percent)) [
    | inl full ↦ rw full (full_sale value full)
    | inr not_full ↦ elim (Bool-cases (fle sale.percent (int 100))) [
      | inl part ↦ rw (not_full, part) (part_sale value not_full part)
      | inr not_part ↦ rw (not_full, not_part) (lost_sale value not_full not_part)
    ]
  ]
