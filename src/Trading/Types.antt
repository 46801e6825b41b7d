-- ===== src/Trading/Types.antt =====
-- Amounts with their decimals (src/helper.rs), offers (src/trading/offer.rs) and the actions that
-- the feed delivers (src/generalize/general_commands.rs). An address is a number; a sum or a product
-- of u64 wraps, as in a release build.
use automatamain.Base.{
  ℕ, ◌+◌, ◌-◌, ◌*◌, ◌/◌, ◌%◌, ◌^◌, Bool, true, false, not, Option, some, if◌then◌else◌, ltb, ◌==◌,
}
use automatamain.Base.Partial.{◌>>◌, assert}

pub record Amount : Type 0 where
  pub value : ℕ
  pub decimals : ℕ

abbrev pub from_raw : ℕ → ℕ → Amount
from_raw v d = record { value = v; decimals = d }

abbrev pub from_raw_native : ℕ → Amount
from_raw_native v = from_raw v 9

-- The power of ten of a width, as `pow` wraps it.
abbrev pub pow10 : ℕ → ℕ → ℕ
pow10 w d = 10 ^ d % 2 ^ w

unfoldable pub to_scale : Amount → ℕ → Option Amount
to_scale a new_decimals =
    let up = pow10 64 (new_decimals - a.decimals) in
    let down = pow10 64 (a.decimals - new_decimals) in
    if ltb a.decimals new_decimals
    then some (from_raw (a.value * up % 2 ^ 64) new_decimals)
    else do assert (not (down == 0)); some (from_raw (a.value / down) new_decimals)

unfoldable pub add_amounts : Amount → Amount → Option Amount
add_amounts a b = do
  assert (a.decimals == b.decimals)
  some (from_raw ((a.value + b.value) % 2 ^ 64) a.decimals)

unfoldable pub sub_amounts : Amount → Amount → Option Amount
sub_amounts a b = do
  assert (a.decimals == b.decimals)
  some (from_raw ((a.value + 2 ^ 64 - b.value) % 2 ^ 64) a.decimals)

pub data Offer : Type 0 where
  buy : (buy_for : ℕ) (received : Amount) → Offer
  sell : (sell_amount : Amount) (received : ℕ) → Offer

pub data Currency : Type 0 where
  native_amount dollar_amount : Amount → Currency

abbrev pub currency_raw : Currency → ℕ
currency_raw (native_amount a) = a.value
currency_raw (dollar_amount a) = a.value

pub record GeneralBuy : Type 0 where
  pub mint : ℕ
  pub user : ℕ
  pub bought : Amount
  pub spent : Currency

pub record GeneralSell : Type 0 where
  pub mint : ℕ
  pub user : ℕ
  pub sold : Amount
  pub received : Currency

pub data TradeAction : Type 0 where
  trade_buy : GeneralBuy → TradeAction
  trade_sell : GeneralSell → TradeAction

unfoldable pub trader : TradeAction → ℕ
trader (trade_buy b) = b.user
trader (trade_sell s) = s.user

unfoldable pub is_buy : TradeAction → Bool
is_buy (trade_buy b) = true
is_buy (trade_sell s) = false

-- `From<TradeAction> for Offer`.
unfoldable pub to_offer : TradeAction → Offer
to_offer (trade_buy b) = buy (currency_raw b.spent) b.bought
to_offer (trade_sell s) = sell s.sold (currency_raw s.received)
