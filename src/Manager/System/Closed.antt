-- ===== src/Manager/System/Closed.antt =====
-- A closed mint is not bought again.
use automatamain.Base.{
  ℕ, ◌≡◌, inl, inr, ap, ◌∙◌, arith, true, false, Option, List, [], ◌∷◌, ◌==◌, Option-cases,
}
use automatamain.Base.Float.{Float}
use automatamain.Base.Set.{any-middle}
use automatamain.Base.Text.{Text}
use automatamain.Reputation.Blacklist.{DevBlacklistTier}
use automatamain.Manager.{
  ManagerConfig, Manager, BuySignal, Clock, update_pool, set_paused, clear_pending_mint,
}
use automatamain.Manager.Buys.{Fanout, initiate_buy}
use automatamain.Manager.Buys.Gate.{IsFree, started_iff}
use automatamain.Manager.System.{
  System, started, Step, signalled, fanned, cleared, completed, sold_one, abandoned, paused_or_not,
  pool_moved, ruled, Reach, here, next,
}
use automatamain.Manager.System.Shut.{
  fans, buying, IsShut, pool-IsShut, rules-IsShut, execute-buying, abandon-IsShut, execute-IsShut,
  refused-IsShut, result-IsShut, sale-IsShut,
}

module _ {F : Type 0} where
  -- No task of the mint runs either.
  pub record IsDone (a : ℕ) (s : System F) : Type 0 where
    pub shut : IsShut true a s.manager
    pub no_fanout : fans a s.fanouts ≡ false
    pub no_buy : buying a s.buys ≡ false

module _ {F : Type 0} ⦃fl : Float F⦄ where
  signalled-fans :
      (a : ℕ) (cfg : ManagerConfig F) (clock : Clock) (signal : BuySignal F) (m : Manager F)
      (fs : List (Fanout F))
      → IsShut true a m
      → fans a fs ≡ false
      → fans a (started (initiate_buy cfg clock signal m).1 fs) ≡ false
  signalled-fans a cfg clock signal m fs v h =
      elim (Option-cases (initiate_buy cfg clock signal m).1) [
        | inl nothing ↦ ground (arith, h, nothing)
        | inr (f, fanned_out) ↦
            let iff = started_iff cfg clock signal m in
            let free : IsFree cfg clock signal m = iff.0.0 (rw fanned_out (λ e. cc)) in
            rw (iff.1 free) (ground (arith, h, v.closed, free.not_closed))
      ]

module _ {F : Type 0} ⦃fl : Float F⦄ {native : F → F} {cfg : ManagerConfig F}
    {blacklist : Text → F → Option DevBlacklistTier} where
  Step-IsDone : {s t : System F} (a : ℕ) → Step native cfg blacklist s t → IsDone a s → IsDone a t
  unfolding clear_pending_mint set_paused update_pool
  Step-IsDone a (signalled s clock signal) v = record {
    shut = refused-IsShut a cfg clock signal s.manager v.shut;
    no_fanout = signalled-fans a cfg clock signal s.manager s.fanouts v.shut v.no_fanout;
    no_buy = v.no_buy;
  }
  Step-IsDone a (fanned s xs ys signal wallet_id amount_sol left h) v =
      let split =
        any-middle (λ f. f.signal.mint == a) xs
          (record { signal = signal; left = (wallet_id, amount_sol) ∷ left }) ys in
      let split' =
        any-middle (λ f. f.signal.mint == a) xs (record { signal = signal; left = left }) ys in
      let before = ap (λ l. fans a l) h in
      record {
        shut = execute-IsShut a signal wallet_id amount_sol s.manager v.shut;
        no_fanout = ground (arith, v.no_fanout, before, split, split');
        no_buy =
            execute-buying a signal wallet_id amount_sol s.manager s.buys v.no_buy
              (ground (arith, v.no_fanout, before, split));
      }
  Step-IsDone a (cleared s xs ys signal h) v = record {
    shut = record { closed = v.shut.closed; no_position = v.shut.no_position };
    no_fanout = ground (
      arith,
      v.no_fanout,
      ap (λ l. fans a l) h,
      any-middle (λ f. f.signal.mint == a) xs (record { signal = signal; left = [] }) ys,
    );
    no_buy = v.no_buy;
  }
  Step-IsDone a (completed s xs ys buy clock result got balance h) v =
      let split = any-middle (λ b. b.signal.mint == a) xs buy ys in
      let before = ap (λ l. buying a l) h in
      record {
        shut =
            result-IsShut a native cfg clock buy result got balance s.manager
              (ground (arith, v.no_buy, before, split)) v.shut;
        no_fanout = v.no_fanout;
        no_buy = ground (arith, v.no_buy, before, split);
      }
  Step-IsDone a (sold_one s clock sale answer balance) v = record {
    shut = sale-IsShut a native cfg blacklist clock sale answer balance s.manager v.shut;
    no_fanout = v.no_fanout;
    no_buy = v.no_buy;
  }
  Step-IsDone a (abandoned s mint wallet_id) v = record {
    shut = abandon-IsShut a mint wallet_id s.manager v.shut;
    no_fanout = v.no_fanout;
    no_buy = v.no_buy;
  }
  Step-IsDone a (paused_or_not s paused) v = record {
    shut = record { closed = v.shut.closed; no_position = v.shut.no_position };
    no_fanout = v.no_fanout;
    no_buy = v.no_buy;
  }
  Step-IsDone a (pool_moved s mint mcap) v = record {
    shut = record {
      closed = v.shut.closed;
      no_position = pool-IsShut a mint mcap s.manager.positions ∙ v.shut.no_position;
    };
    no_fanout = v.no_fanout;
    no_buy = v.no_buy;
  }
  Step-IsDone a (ruled s f) v = record {
    shut = record {
      closed = v.shut.closed;
      no_position = rules-IsShut a f s.manager.positions ∙ v.shut.no_position;
    };
    no_fanout = v.no_fanout;
    no_buy = v.no_buy;
  }

  -- A closed mint that no wallet holds, no fan-out has and no broker buys stays so for ever: under any
  -- order of signals, results, sales and other messages no task of it starts and no position opens.
  pub Reach-IsDone :
      {s t : System F} (a : ℕ) → Reach native cfg blacklist s t → IsDone a s → IsDone a t
  Reach-IsDone a here v = v
  Reach-IsDone a (next r st) v = Step-IsDone a st (Reach-IsDone a r v)
