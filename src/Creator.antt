-- ===== src/Creator.antt =====
-- The filter on the record of a token's creator (src/autobuy/filters/creator.rs). A reason is a
-- constructor where the code has its text.
pub mod Reasons
pub mod Tests
use automatamain.Base.{
  ℕ, ◌≡◌, Bool, true, false, ◌&&◌, ◌||◌, not, Option, none, some, List, [], ◌∷◌, if◌then◌else◌, ltb,
}
use automatamain.Base.Float.{Float, flt}
use automatamain.Trading.Types.{Amount, Currency, native_amount, dollar_amount, pow10}

-- The thresholds, without the list and the limit for spam developers.
pub record CreatorStatisticsFilter (F : Type 0) : Type 0 where
  pub min_total_coins : Option ℕ
  pub max_total_coins : Option ℕ
  pub min_median_market_cap : Option F
  pub min_trader_pnl_average : Option F
  pub min_total_holders_average : Option F
  pub min_average_volume : Option F
  pub min_median_total_trades : Option F
  pub min_average_unique_buy_to_sell_ratio : Option F
  pub min_average_buy_trader_size : Option F

pub record CreatorStatistics (F : Type 0) : Type 0 where
  pub median_market_cap : Currency
  pub trader_pnl_average : F
  pub total_holders_average : ℕ
  pub average_volume : F
  pub median_total_trades : ℕ
  pub average_unique_buy_to_sell_ratio : F
  pub average_buy_trader_size : Currency
  pub total_coins : ℕ

pub data RejectReason : Type 0 where
  few_coins many_coins low_market_cap low_trader_pnl few_holders low_volume few_trades :
      RejectReason
  low_buy_to_sell small_buys : RejectReason

abbrev pub amount : Currency → Amount
amount (native_amount a) = a
amount (dollar_amount a) = a

-- `Some(min)` and the figure is below it.
abbrev pub too_few : Option ℕ → ℕ → Bool
too_few none n = false
too_few (some min) n = ltb n min

abbrev pub too_many : Option ℕ → ℕ → Bool
too_many none n = false
too_many (some max) n = ltb max n

abbrev pub push_if : Bool → RejectReason → List RejectReason → List RejectReason
push_if true reason later = reason ∷ later
push_if false reason later = later

abbrev is_early : RejectReason → Bool
is_early low_market_cap = true
is_early low_trader_pnl = true
is_early few_holders = true
is_early low_volume = true
is_early few_trades = true
is_early _ = false

abbrev pub is_empty : List RejectReason → Bool
is_empty [] = true
is_empty (reason ∷ rest) = false

unfoldable all_early : List RejectReason → Bool
all_early [] = true
all_early (reason ∷ rest) = is_early reason && all_early rest

unfoldable is_early_stats_only_reject : List RejectReason → Bool
is_early_stats_only_reject reasons = if is_empty reasons then false else all_early reasons

module _ {F : Type 0} ⦃fl : Float F⦄ where
  open fl use {fdiv, of_ℕ}

  abbrev pub too_low : Option F → F → Bool
  too_low none x = false
  too_low (some min) x = flt x min

  abbrev pub to_float : Amount → F
  to_float a = fdiv (of_ℕ a.value) (of_ℕ (pow10 64 a.decimals))

  unfoldable reject_reasons : CreatorStatisticsFilter F → CreatorStatistics F → List RejectReason
  reject_reasons cfg s = push_if (too_few cfg.min_total_coins s.total_coins) few_coins (
      push_if (too_many cfg.max_total_coins s.total_coins) many_coins (
        push_if (too_low cfg.min_median_market_cap (to_float (amount s.median_market_cap)))
          low_market_cap
          (push_if (too_low cfg.min_trader_pnl_average s.trader_pnl_average) low_trader_pnl (
            push_if (too_low cfg.min_total_holders_average (of_ℕ s.total_holders_average))
              few_holders
              (push_if (too_low cfg.min_average_volume s.average_volume) low_volume (
                push_if (too_low cfg.min_median_total_trades (of_ℕ s.median_total_trades))
                  few_trades
                  (push_if
                    (too_low cfg.min_average_unique_buy_to_sell_ratio
                      s.average_unique_buy_to_sell_ratio)
                    low_buy_to_sell
                    (push_if
                      (too_low cfg.min_average_buy_trader_size
                        (to_float (amount s.average_buy_trader_size)))
                      small_buys []))))))))

  unfoldable filter : CreatorStatisticsFilter F → CreatorStatistics F → Bool
  filter cfg s = is_empty (reject_reasons cfg s)
