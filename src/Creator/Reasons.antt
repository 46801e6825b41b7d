-- ===== src/Creator/Reasons.antt =====
-- When a creator is rejected for early figures only.
use automatamain.Base.{◌≡◌, ◌↔◌, arith, Bool, true, false, ◌||◌, List, []}
use automatamain.Base.Float.{Float}
use automatamain.Creator.{
  CreatorStatisticsFilter, CreatorStatistics, RejectReason, few_coins, many_coins, low_market_cap,
  low_trader_pnl, few_holders, low_volume, few_trades, low_buy_to_sell, small_buys, push_if,
  too_few, too_many, too_low, to_float, amount, reject_reasons, filter, is_early_stats_only_reject,
  all_early, is_empty,
}

-- The verdict on the nine tests, in their order.
early_of :
    (a b c d e f g h i : Bool)
    → (is_early_stats_only_reject (
          push_if a few_coins (
            push_if b many_coins (
              push_if c low_market_cap (
                push_if d low_trader_pnl (
                  push_if e few_holders (
                    push_if f low_volume (
                      push_if g few_trades
                        (push_if h low_buy_to_sell (push_if i small_buys [])))))))))
        ≡ true)
      ↔ ((a || b || h || i ≡ false) × (c || d || e || f || g ≡ true))
unfolding is_early_stats_only_reject all_early
early_of a b c d e f g h i = (ground arith, ground arith)

empty_not_early :
    (reasons : List RejectReason)
    → is_early_stats_only_reject reasons ≡ true
    → is_empty reasons ≡ false
unfolding is_early_stats_only_reject
empty_not_early reasons h = ground (arith, h)

module _ {F : Type 0} ⦃fl : Float F⦄ where
  open fl use {of_ℕ}

  abbrev pub fails_structure : CreatorStatisticsFilter F → CreatorStatistics F → Bool
  fails_structure cfg s =
      too_few cfg.min_total_coins s.total_coins
      || too_many cfg.max_total_coins s.total_coins
      || too_low cfg.min_average_unique_buy_to_sell_ratio s.average_unique_buy_to_sell_ratio
      || too_low cfg.min_average_buy_trader_size (to_float (amount s.average_buy_trader_size))

  abbrev pub fails_early : CreatorStatisticsFilter F → CreatorStatistics F → Bool
  fails_early cfg s =
      too_low cfg.min_median_market_cap (to_float (amount s.median_market_cap))
      || too_low cfg.min_trader_pnl_average s.trader_pnl_average
      || too_low cfg.min_total_holders_average (of_ℕ s.total_holders_average)
      || too_low cfg.min_average_volume s.average_volume
      || too_low cfg.min_median_total_trades (of_ℕ s.median_total_trades)

  -- A creator is rejected for early figures only, exactly when neither the number of the coins, nor the
  -- ratio of buys to sells, nor the size of the buys fails its threshold, and one of the other five
  -- figures does; and then the filter rejects it.
  pub early_only_iff :
      (cfg : CreatorStatisticsFilter F) (s : CreatorStatistics F)
      → ((is_early_stats_only_reject (reject_reasons cfg s) ≡ true)
          ↔ ((fails_structure cfg s ≡ false) × (fails_early cfg s ≡ true)))
        × (is_early_stats_only_reject (reject_reasons cfg s) ≡ true → filter cfg s ≡ false)
  unfolding reject_reasons filter
  early_only_iff cfg s = (early_of _ _ _ _ _ _ _ _ _, empty_not_early (reject_reasons cfg s))
