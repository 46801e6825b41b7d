-- ===== src/Manager/System.antt =====
-- The manager among the tasks that it starts: the fan-outs of its signals, and the buys that brokers
-- work on, with an arbitrary order of what they send.
pub mod SameMarks
pub mod Marks
pub mod Shut
pub mod Closed
pub mod Limit
pub mod Occupied
pub mod Room
use automatamain.Base.{ℕ, Bool, ◌≡◌, Option, none, some, List, [], ◌∷◌, ◌++◌, map}
use automatamain.Base.Float.{Float}
use automatamain.Exit.Types.{Position}
use automatamain.Reputation.Blacklist.{DevBlacklistTier}
use automatamain.Base.Text.{Text}
use automatamain.Manager.{
  ManagerConfig, OpenPosition, Manager, BuySignal, Clock, update_pool, set_paused,
  clear_pending_mint, abandon_position,
}
use automatamain.Manager.Buys.{Fanout, Buy, BuyResult, initiate_buy, execute_buy}
use automatamain.Manager.Buys.Result.{apply_buy_result}
use automatamain.Manager.Sells.{Sale, SaleAnswer, execute_sale}

pub record System (F : Type 0) : Type 0 where
  pub manager : Manager F
  pub fanouts : List (Fanout F)
  pub buys : List (Buy F)

-- A started task among the others.
abbrev pub started : {A : Type 0} → Option A → List A → List A
started none tasks = tasks
started (some task) tasks = task ∷ tasks

module _ {F : Type 0} where
  abbrev pub change_rules : (OpenPosition F → Position F) → OpenPosition F → OpenPosition F
  change_rules f p = record p { rules = f p }

  -- The rounds of the exit rules, refreshed values and live snapshots.
  abbrev pub run_rules : (OpenPosition F → Position F) → Manager F → Manager F
  run_rules f m = record m { positions = map (change_rules f) m.positions }

module _ {F : Type 0} ⦃fl : Float F⦄ (native : F → F) (cfg : ManagerConfig F)
    (blacklist : Text → F → Option DevBlacklistTier) where
  pub data Step : System F → System F → Type 0 where
    signalled :
        (s : System F) (clock : Clock) (signal : BuySignal F)
        → Step s (record s {
          manager = (initiate_buy cfg clock signal s.manager).0;
          fanouts = started (initiate_buy cfg clock signal s.manager).1 s.fanouts;
        })
    -- A fan-out has the next wallet buy.
    fanned :
        (s : System F) (xs ys : List (Fanout F)) (signal : BuySignal F) (wallet_id : ℕ)
        (amount_sol : F) (left : List (ℕ × F))
        → s.fanouts ≡ xs ++ record { signal = signal; left = (wallet_id, amount_sol) ∷ left } ∷ ys
        → Step s (record {
          manager = (execute_buy signal wallet_id amount_sol s.manager).0;
          fanouts = xs ++ record { signal = signal; left = left } ∷ ys;
          buys = started (execute_buy signal wallet_id amount_sol s.manager).1 s.buys;
        })
    -- A fan-out ends.
    cleared :
        (s : System F) (xs ys : List (Fanout F)) (signal : BuySignal F)
        → s.fanouts ≡ xs ++ record { signal = signal; left = [] } ∷ ys
        → Step s
            (record s { manager = clear_pending_mint signal.mint s.manager; fanouts = xs ++ ys })
    completed :
        (s : System F) (xs ys : List (Buy F)) (buy : Buy F) (clock : Clock) (result : BuyResult F)
        (sold balance : Option F)
        → s.buys ≡ xs ++ buy ∷ ys
        → Step s (record s {
          manager = apply_buy_result native cfg clock buy result sold balance s.manager;
          buys = xs ++ ys;
        })
    sold_one :
        (s : System F) (clock : Clock) (sale : Sale F) (answer : SaleAnswer F) (balance : Option F)
        → Step s (record s {
          manager = (execute_sale native cfg blacklist clock sale answer balance s.manager).0;
        })
    abandoned :
        (s : System F) (mint : ℕ) (wallet_id : Option ℕ)
        → Step s (record s { manager = abandon_position mint wallet_id s.manager })
    paused_or_not :
        (s : System F) (paused : Bool) → Step s (record s { manager = set_paused paused s.manager })
    pool_moved :
        (s : System F) (mint : ℕ) (mcap : F)
        → Step s (record s { manager = update_pool mint mcap s.manager })
    ruled :
        (s : System F) (f : OpenPosition F → Position F)
        → Step s (record s { manager = run_rules f s.manager })

  pub data Reach (s : System F) : System F → Type 0 where
    here : Reach s s
    next : {t u : System F} → Reach s t → Step t u → Reach s u
