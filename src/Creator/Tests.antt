-- ===== src/Creator/Tests.antt =====
-- The filter at a creator of one coin whose holders are few.
use automatamain.Base.{none, some}
use automatamain.Base.Float.{Fixed, fixed_float}
use automatamain.Trading.Types.{from_raw, native_amount}
use automatamain.Score.Examples.{whole}
use automatamain.Creator.{CreatorStatisticsFilter, CreatorStatistics}

abbrev limits : CreatorStatisticsFilter Fixed
limits = record {
  min_total_coins = some 1;
  max_total_coins = none;
  min_median_market_cap = some (whole 90);
  min_trader_pnl_average = some (whole 4);
  min_total_holders_average = some (whole 50);
  min_average_volume = none;
  min_median_total_trades = some (whole 50);
  min_average_unique_buy_to_sell_ratio = some (whole 1);
  min_average_buy_trader_size = none;
}

abbrev young : CreatorStatistics Fixed
young = record {
  median_market_cap = native_amount (from_raw 100_000_000_000 9);
  trader_pnl_average = whole 10;
  total_holders_average = 5;
  average_volume = whole 2;
  median_total_trades = 3;
  average_unique_buy_to_sell_ratio = whole 1;
  average_buy_trader_size = native_amount (from_raw 1_000_000_000 9);
  total_coins = 1;
}
