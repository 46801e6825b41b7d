-- ===== src/Trading/Pool.antt =====
-- The pools of a launch (src/launchpads/pump/pool.rs): the bonding curve as trade events report it,
-- and the pool after the migration. The addresses that the chain derives from a mint are parameters.
-- `none` is a division by zero.
pub mod Values
use automatamain.Base.{ℕ, ◌*◌, ◌/◌, ◌%◌, ◌^◌, not, Option, some, List, [], ◌∷◌, ◌==◌}
use automatamain.Base.Partial.{◌>>◌, assert}
use automatamain.Trading.Types.{Amount, Currency, native_amount, from_raw, from_raw_native}

abbrev precision : ℕ
precision = 6

pub record Bonding : Type 0 where
  pub virtual_sol_reserves : Amount
  pub virtual_token_reserves : Amount
  pub real_sol_reserves : Amount
  pub real_token_reserves : Amount
  pub mint : ℕ
  pub pool : ℕ
  pub creator : ℕ

pub record Migrated : Type 0 where
  pub sol_reserves : Amount
  pub token_reserves : Amount
  pub mint : ℕ
  pub pool : ℕ
  pub creator : ℕ

-- The reserves that a trade event carries.
pub record TradeEvent : Type 0 where
  pub virtual_sol_reserves : ℕ
  pub virtual_token_reserves : ℕ
  pub real_sol_reserves : ℕ
  pub real_token_reserves : ℕ

pub data PumpEvent : Type 0 where
  create_event : PumpEvent
  trade_event : TradeEvent → PumpEvent

unfoldable pub new_pool : (bounding_curve : ℕ → ℕ) (mint creator : ℕ) → Bonding
new_pool bounding_curve mint creator = record {
  virtual_sol_reserves = from_raw_native 30_000_000_000;
  virtual_token_reserves = from_raw 1_073_000_000_000_000 precision;
  real_sol_reserves = from_raw_native 0;
  real_token_reserves = from_raw 793_100_000_000_000 precision;
  mint = mint;
  pool = bounding_curve mint;
  creator = creator;
}

unfoldable pub update_pool : Bonding → PumpEvent → Bonding
update_pool b create_event = b
update_pool b (trade_event e) = record b {
  real_sol_reserves = from_raw_native e.real_sol_reserves;
  real_token_reserves = from_raw e.real_token_reserves precision;
  virtual_sol_reserves = from_raw_native e.virtual_sol_reserves;
  virtual_token_reserves = from_raw e.virtual_token_reserves precision;
}

unfoldable pub migrate : (pool_pda : ℕ → ℕ) → Bonding → Migrated
migrate pool_pda b = record {
  sol_reserves = b.real_sol_reserves;
  token_reserves = b.real_token_reserves;
  mint = b.mint;
  pool = pool_pda b.mint;
  creator = b.creator;
}

-- A quotient of u128 that is cast to u64.
abbrev pub quotient_u64 : ℕ → ℕ → Option Currency
quotient_u64 n d = do assert (not (d == 0)); some (native_amount (from_raw_native (n / d % 2 ^ 64)))

unfoldable pub price : Bonding → Option Currency
price b = quotient_u64 (b.virtual_sol_reserves.value * 1_000_000_000) b.virtual_token_reserves.value

unfoldable pub market_cap : Bonding → Option Currency
market_cap b =
    quotient_u64 (b.virtual_sol_reserves.value * 1_000_000_000_000_000)
      b.virtual_token_reserves.value

-- The price of u64 arithmetic alone.
unfoldable pub migrated_price : Migrated → Option Currency
migrated_price m = do
  assert (not (m.token_reserves.value == 0))
  some (native_amount (from_raw_native (m.sol_reserves.value / m.token_reserves.value / 1000)))

unfoldable pub migrated_market_cap : Migrated → Option Currency
migrated_market_cap m = quotient_u64 (m.sol_reserves.value * 1_000_000_000) m.token_reserves.value
