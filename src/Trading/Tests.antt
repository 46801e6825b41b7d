-- ===== src/Trading/Tests.antt =====
-- A history of two wallets and a fresh pool, and the theorems on trading at them.
use automatamain.Base.{
  ℕ, ◌+◌, ◌-◌, ◌*◌, ◌≤◌, ◌<◌, ◌≡◌, ◌↔◌, ◌^◌, refl, arith, none, some, List, [], ◌∷◌,
}
use automatamain.Base.Int.{pos, ◌+ℤ◌, ◌-ℤ◌}
use automatamain.Base.Partial.{◌>>=◌}
use automatamain.Trading.Types.{Amount, buy, sell, from_raw, sub_amounts}
use automatamain.Trading.Trader.{Trader, creator, sniper, empty, apply}
use automatamain.Trading.Trader.Costs.{sale_raises_holdings_iff, buy_sell_pnl}
use automatamain.Trading.Swarm.{Swarm, Update, new_swarm, find_trader, updates}
use automatamain.Trading.Swarm.Ledger.{account, own}
use automatamain.Trading.Swarm.Members.{IsDistinct}
use automatamain.Trading.Swarm.Refinement.{swarm_refines}
use automatamain.Trading.Swarm.Holdings.{holdings, swarm_holdings}
use automatamain.Trading.Pool.{Bonding, new_pool}

abbrev supply : Amount
supply = from_raw 1_000_000_000_000_000 6

-- A sniper buys before and after the creator, and sells a part.
abbrev history : List Update
history =
    record { address = 7; offer = buy 2_000 (from_raw 500 6); trader_type = sniper }
    ∷ record { address = 1; offer = buy 9_000 (from_raw 900 6); trader_type = creator }
    ∷ record { address = 7; offer = buy 1_000 (from_raw 100 6); trader_type = creator }
    ∷ record { address = 7; offer = sell (from_raw 300 6) 4_000; trader_type = sniper }
    ∷ []

swarm_refines_example :
    (s : Swarm) × (updates (new_swarm supply 6 9) history ≡ some s)
    × IsDistinct s.traders
    × ((a : ℕ) → account 6 9 none (own a history) ≡ some (find_trader a s.traders))
swarm_refines_example =
    swarm_refines supply 6 9 history (omega arith) (refl, (refl, (refl, (refl, tt))))

swarm_holdings_example :
    (s : Swarm) × (updates (new_swarm supply 6 9) history ≡ some s)
    × (holdings (find_trader 7 s.traders) + 300 ≡ 600)
swarm_holdings_example =
    swarm_holdings supply 6 9 history 7 (omega arith) (refl, (refl, (refl, (refl, tt))))
      (omega arith, (omega arith, (omega arith, tt))) (omega arith)

-- A wallet that got its tokens by a transfer sells them.
abbrev oversold : Trader
oversold = record {
  current_holdings = from_raw (2 ^ 64 - 40) 6;
  avg_cost_basis = 0;
  total_spent = from_raw 0 9;
  realized_pnl = pos 70;
  sell_proceeds_raw = 70;
  sell_event_count = 1;
  trader_type = sniper;
}

oversells : apply (empty sniper 6 9) (sell (from_raw 40 6) 70) ≡ some oversold
unfolding apply empty sub_amounts ◌+ℤ◌ ◌-ℤ◌
oversells = refl

sale_raises_holdings_iff_example : (0 < 2 ^ 64 - 40) ↔ (0 < 40)
unfolding empty
sale_raises_holdings_iff_example =
    sale_raises_holdings_iff (empty sniper 6 9) oversold (from_raw 40 6) 70 oversells (omega arith)
      (omega arith)

buy_sell_pnl_example :
    (t : Trader) × (c : ℕ) × ((apply (empty sniper 6 9) (buy 1_000 (from_raw 333 6)) >>= λ b.
    apply b (sell (from_raw 333 6) 1_500))
      ≡ some t)
    × (t.current_holdings.value ≡ 0)
    × (t.realized_pnl ≡ pos 1_500 -ℤ pos c)
    × (c ≤ 1_000)
    × (1_000 * 10 ^ 12 < (c + 1) * 10 ^ 12 + 333)
buy_sell_pnl_example =
    buy_sell_pnl sniper 1_000 333 1_500 (omega arith) (omega arith) (omega arith) (omega arith)

abbrev fresh_pool : Bonding
unfolding new_pool
fresh_pool = new_pool (λ m. m + 1) 5 6
