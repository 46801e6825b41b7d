-- ===== src/Manager/Tests.antt =====
-- A manager with one wallet that holds one mint.
use automatamain.Base.{
  ◌≢◌, ◌⊎◌, inr, true, false, Option, none, some, [], ◌∷◌, refl, arith, if◌then◌else◌,
}
use automatamain.Base.Int.{pos}
use automatamain.Base.Float.{Fixed, fixed_float}
use automatamain.Base.Text.{Text, text}
use automatamain.Base.Assoc.{get?}
use automatamain.Score.Types.{a_plus}
use automatamain.Exit.Examples.{config, opened, whole, minus}
use automatamain.Strategy.Tests.{gate}
use automatamain.Reputation.Blacklist.{DevBlacklistTier, timed}
use automatamain.Wallets.{WalletRegistry, find_wallet}
use automatamain.Manager.{ManagerConfig, Manager, OpenPosition, BuySignal, Clock, unique_open_mints}
use automatamain.Manager.Buys.{Buy, BuyReceipt, bought, initiate_buy, execute_buy}
use automatamain.Manager.Buys.Result.{apply_buy_result}
use automatamain.Manager.Buys.Signal.{IsClear, Starts, Refuses, initiate_iff}
use automatamain.Manager.Buys.Fill.{Outcome, buy-Outcome}
use automatamain.Manager.Sells.{Sale, paid}
use automatamain.Manager.Sells.Accounts.{SaleOutcome, sale_outcome}
use automatamain.Manager.System.{System, started, Reach, here, next, signalled, fanned, completed}
use automatamain.Manager.System.Marks.{IsMarked, Reach-IsMarked}
use automatamain.Manager.System.Closed.{IsDone, Reach-IsDone}
use automatamain.Manager.System.Room.{HasRoom, Reach-HasRoom}

abbrev pub manager_config : ManagerConfig Fixed
manager_config = record {
  smart = config;
  exit_profit_floor = minus 16;
  fill_mcap_abort_enabled = true;
  fill_mcap_abort_max_ratio = whole 2;
  fill_mcap_abort_min_ratio = some (pos 500_000);
  honest_entry_baseline = true;
  honest_entry_baseline_min_ratio = some (pos 800_000);
  curve_quarantine = record {
    enabled = true;
    cooldown_secs = 600;
    min_mcap_sol_divergence_pct = whole 20;
    max_pnl_sol_pct = minus 5;
    sl_crash_false_positive_min_filt_pnl = minus 10;
    sl_crash_false_positive_max_raw_pnl = minus 30;
  };
}

abbrev wallets : WalletRegistry Fixed
wallets = record {
  ordered =
      record {
        id = 1;
        enabled = true;
        size_sol = none;
        tier_size = none;
        wallet_address = 77;
        balance = whole 5;
      }
      ∷ [];
  by_pubkey = (77, 1) ∷ [];
}

abbrev position : OpenPosition Fixed
position = record {
  mint = 7;
  wallet_id = 1;
  rules = opened;
  initial_holdings = whole 100;
  holdings = whole 100;
  total_returned = whole 0;
  spent_sol = whole 1;
  dev_address = some 3;
  early_buyers = 4 ∷ [];
}

abbrev pub manager : Manager Fixed
manager = record {
  wallets = wallets;
  positions = position ∷ [];
  pending_mints = [];
  pending_wallet_buys = [];
  closed_mints = 9 ∷ [];
  pool_cache = (7, whole 40) ∷ [];
  paused = false;
  curve_quarantine = [];
  strategy = gate;
}

abbrev pub signal : BuySignal Fixed
signal = record {
  mint = 8;
  pool_mcap = whole 40;
  amount_sol = whole 1;
  buy_tier = a_plus;
  dev_address = none;
  early_buyers = [];
  learning_snapshot = none;
}

abbrev pub clock : Clock
clock = record { wall_secs = 90_000; first = 90_000; second = 90_000; third = 90_001 }

abbrev native : Fixed → Fixed
native x = x

abbrev blacklist : Text → Fixed → Option DevBlacklistTier
blacklist reason pnl = if fixed_float.fle pnl (minus 20) then some timed else none

initiate_iff_example :
    (IsClear manager_config clock signal manager
      × Starts clock signal manager
          (initiate_buy manager_config clock signal manager).0
          (initiate_buy manager_config clock signal manager).1)
    ⊎ ((¬ (IsClear manager_config clock signal manager))
        × Refuses manager
            (initiate_buy manager_config clock signal manager).0
            (initiate_buy manager_config clock signal manager).1)
initiate_iff_example = initiate_iff manager_config clock signal manager

abbrev idle : System Fixed
idle = record { manager = manager; fanouts = []; buys = [] }

abbrev after_signal : System Fixed
after_signal = record idle {
  manager = (initiate_buy manager_config clock signal manager).0;
  fanouts = started (initiate_buy manager_config clock signal manager).1 [];
}

run : Reach native manager_config blacklist idle after_signal
run = next here (signalled idle clock signal)

idle-IsMarked : IsMarked idle
idle-IsMarked = record { fans = λ a. refl; marked = λ a w h. h }

Reach-IsMarked_example : IsMarked after_signal
Reach-IsMarked_example = Reach-IsMarked run idle-IsMarked

idle-IsDone : IsDone 9 idle
idle-IsDone = record {
  shut = record { closed = inr refl; no_position = refl };
  no_fanout = refl;
  no_buy = refl;
}

Reach-IsDone_example : IsDone 9 after_signal
Reach-IsDone_example = Reach-IsDone 9 run idle-IsDone

abbrev one_buy : Buy Fixed
one_buy = record { signal = signal; wallet_id = 1; amount_sol = whole 1; latest_pool = whole 40 }

abbrev receipt : BuyReceipt Fixed
receipt = record { tokens_received = whole 100; entry_mcap_fill_sol = some (whole 41) }

buy-Outcome_example :
    Outcome native manager_config clock one_buy none (some (whole 4)) manager (bought receipt)
buy-Outcome_example =
    buy-Outcome native manager_config clock one_buy none (some (whole 4)) manager (bought receipt)

abbrev sale : Sale Fixed
sale = record { mint = 7; wallet_id = 1; percent = whole 100; reason = text "TIME KILL" }

there : find_wallet 1 wallets.ordered ≢ none
there e = absurd (ground (arith, e))

sale_outcome_example :
    SaleOutcome native manager_config blacklist clock sale
      (some (whole 6))
      manager
      position
      refl
      there
      (paid (whole 2))
sale_outcome_example =
    sale_outcome native manager_config blacklist clock sale (some (whole 6)) manager position refl
      there (paid (whole 2))

-- A fan-out that has one wallet left.
abbrev waiting : System Fixed
waiting = record {
  manager = record manager { pending_mints = 8 ∷ []; pool_cache = (8, whole 40) ∷ [] };
  fanouts = record { signal = signal; left = (1, whole 1) ∷ [] } ∷ [];
  buys = [];
}

abbrev after_fanout : System Fixed
after_fanout = record {
  manager = (execute_buy signal 1 (whole 1) waiting.manager).0;
  fanouts = record { signal = signal; left = [] } ∷ [];
  buys = started (execute_buy signal 1 (whole 1) waiting.manager).1 [];
}

abbrev after_buy : System Fixed
after_buy = record after_fanout {
  manager =
      apply_buy_result native manager_config clock one_buy (bought receipt) none (some (whole 4))
        after_fanout.manager;
  buys = [];
}

-- The buy of the last wallet, and its receipt.
buy_run : Reach native manager_config blacklist waiting after_buy
unfolding execute_buy get?
buy_run =
    next (next here (fanned waiting [] [] signal 1 (whole 1) [] refl))
      (completed after_fanout [] [] one_buy clock (bought receipt) none (some (whole 4)) refl)

waiting-HasRoom : HasRoom 3 waiting
unfolding unique_open_mints
waiting-HasRoom = record { rules = refl; within = omega arith }

Reach-HasRoom_example : HasRoom 3 after_buy
unfolding buy_run execute_buy get?
Reach-HasRoom_example = Reach-HasRoom buy_run refl waiting-HasRoom
