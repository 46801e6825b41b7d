-- ===== src/Manager/System/Shut.antt =====
-- What leaves a mint without a position, and closed.
use automatamain.Base.{
  ℕ, ◌≡◌, ◌⊎◌, inl, inr, refl, arith, Bool, true, false, Option, none, some, List, [], ◌∷◌, map,
  ◌==◌, Option-cases, Bool-cases,
}
use automatamain.Base.Float.{Float, int}
use automatamain.Base.Set.{any, without, member, any-without_le}
use automatamain.Base.Text.{Text}
use automatamain.Reputation.Blacklist.{DevBlacklistTier}
use automatamain.Exit.Types.{Position}
use automatamain.Exit.Messages.{sold, execute_sell}
use automatamain.Wallets.{find_wallet}
use automatamain.Manager.{
  ManagerConfig, Manager, OpenPosition, BuySignal, Clock, of_mint, has_key, find_position, set_pool,
  abandon_position, maybe_finalize_closed_mint,
}
use automatamain.Manager.Buys.{Fanout, Buy, BuyResult, initiate_buy, execute_buy}
use automatamain.Manager.Buys.Opening.{open_position}
use automatamain.Manager.Buys.Result.{
  apply_buy_result, abort_buy_after_fill_mcap_spike, note_balance,
}
use automatamain.Manager.Sells.{
  Sale, SaleAnswer, paid, refused, execute_sale, settle_sale, close_position, put_back,
  returned_more, after_sale, error_kind,
}
use automatamain.Manager.System.{started, change_rules}

module _ {F : Type 0} where
  abbrev pub fans : ℕ → List (Fanout F) → Bool
  fans a fs = any (λ f. f.signal.mint == a) fs

  abbrev pub buying : ℕ → List (Buy F) → Bool
  buying a bs = any (λ b. b.signal.mint == a) bs

  -- No wallet holds the mint, and, if that is asked for, it is closed in the manager.
  pub record IsShut (c : Bool) (a : ℕ) (m : Manager F) : Type 0 where
    pub closed : (c ≡ false) ⊎ (member a m.closed_mints ≡ true)
    pub no_position : any (of_mint a) m.positions ≡ false

  pub keep-IsShut :
      (a : ℕ) (p : OpenPosition F → Bool) (ps : List (OpenPosition F))
      → any (of_mint a) ps ≡ false
      → any (of_mint a) (without p ps) ≡ false
  keep-IsShut a p ps h = ground (arith, h, any-without_le p (of_mint a) ps)

  pub pool-IsShut :
      (a mint : ℕ) (mcap : F) (ps : List (OpenPosition F))
      → any (of_mint a) (map (set_pool mint mcap) ps) ≡ any (of_mint a) ps
  pool-IsShut a mint mcap [] = refl
  pool-IsShut a mint mcap (p ∷ ps) = ground (arith, pool-IsShut a mint mcap ps)

  pub rules-IsShut :
      (a : ℕ) (f : OpenPosition F → Position F) (ps : List (OpenPosition F))
      → any (of_mint a) (map (change_rules f) ps) ≡ any (of_mint a) ps
  rules-IsShut a f [] = refl
  rules-IsShut a f (p ∷ ps) = ground (arith, rules-IsShut a f ps)

  -- The buy that starts is of the signal's mint.
  pub execute-buying :
      (a : ℕ) (signal : BuySignal F) (wallet_id : ℕ) (amount_sol : F) (m : Manager F)
      (buys : List (Buy F))
      → buying a buys ≡ false
      → (signal.mint == a) ≡ false
      → buying a (started (execute_buy signal wallet_id amount_sol m).1 buys) ≡ false
  unfolding execute_buy
  execute-buying a signal wallet_id amount_sol m buys h other = ground (arith, h, other)

  pub found-mint :
      (a mint wallet_id : ℕ) (ps : List (OpenPosition F)) (p : OpenPosition F)
      → find_position mint wallet_id ps ≡ some p
      → any (of_mint a) ps ≡ false
      → (p.mint == a) ≡ false
  found-mint a mint wallet_id [] p e h = absurd (ground (arith, e))
  found-mint a mint wallet_id (q ∷ ps) p e h =
      ground (arith, e, h, found-mint a mint wallet_id ps p)

module _ {F : Type 0} {c : Bool} where
  pub finalize-IsShut :
      (a mint : ℕ) (m : Manager F) → IsShut c a m → IsShut c a (maybe_finalize_closed_mint mint m)
  unfolding maybe_finalize_closed_mint
  finalize-IsShut a mint m v = ground (arith, v)

  pub abandon-IsShut :
      (a mint : ℕ) (wallet_id : Option ℕ) (m : Manager F)
      → IsShut c a m
      → IsShut c a (abandon_position mint wallet_id m)
  unfolding abandon_position
  abandon-IsShut a mint wallet_id m v =
      finalize-IsShut a mint _
        (record { closed = v.closed; no_position = keep-IsShut a _ m.positions v.no_position })

  pub execute-IsShut :
      (a : ℕ) (signal : BuySignal F) (wallet_id : ℕ) (amount_sol : F) (m : Manager F)
      → IsShut c a m
      → IsShut c a (execute_buy signal wallet_id amount_sol m).0
  unfolding execute_buy
  execute-IsShut a signal wallet_id amount_sol m v = ground (arith, v)

module _ {F : Type 0} ⦃fl : Float F⦄ {c : Bool} where
  open fl use {fle}

  pub refused-IsShut :
      (a : ℕ) (cfg : ManagerConfig F) (clock : Clock) (signal : BuySignal F) (m : Manager F)
      → IsShut c a m
      → IsShut c a (initiate_buy cfg clock signal m).0
  unfolding initiate_buy
  refused-IsShut a cfg clock signal m v = ground (arith, v)

  pub result-IsShut :
      (a : ℕ) (native : F → F) (cfg : ManagerConfig F) (clock : Clock) (buy : Buy F)
      (result : BuyResult F) (got balance : Option F) (m : Manager F)
      → (buy.signal.mint == a) ≡ false
      → IsShut c a m
      → IsShut c a (apply_buy_result native cfg clock buy result got balance m)
  unfolding apply_buy_result abort_buy_after_fill_mcap_spike open_position
  result-IsShut a native cfg clock buy result got balance m other v =
      ground (arith, v, other, keep-IsShut a (has_key buy.signal.mint buy.wallet_id) m.positions)

  pub put_back-IsShut :
      (a : ℕ) (p : OpenPosition F) (o : Option (Position F)) (m : Manager F)
      → (p.mint == a) ≡ false
      → IsShut c a m
      → IsShut c a (put_back p o m)
  put_back-IsShut a p none m other v = v
  put_back-IsShut a p (some rules) m other v = record {
    closed = v.closed;
    no_position =
        ground (arith, other, keep-IsShut a (has_key p.mint p.wallet_id) m.positions v.no_position);
  }

  pub balance-IsShut :
      (a wallet_id : ℕ) (balance : Option F) (m : Manager F)
      → IsShut c a m
      → IsShut c a (note_balance wallet_id balance m)
  balance-IsShut a wallet_id none m v = v
  balance-IsShut a wallet_id (some bal) m v = record {
    closed = v.closed;
    no_position = v.no_position;
  }

  pub close-IsShut :
      (a : ℕ) (cfg : ManagerConfig F) (clock : Clock) (sale : Sale F) (p : OpenPosition F)
      (m : Manager F)
      → IsShut c a m
      → IsShut c a (close_position cfg clock sale p m)
  unfolding close_position
  close-IsShut a cfg clock sale p m v = ground (arith, finalize-IsShut a sale.mint m v)

  pub settle-IsShut :
      (a : ℕ) (native : F → F) (cfg : ManagerConfig F)
      (blacklist : Text → F → Option DevBlacklistTier) (clock : Clock) (sale : Sale F)
      (answer : SaleAnswer F) (balance : Option F) (p : OpenPosition F) (m : Manager F)
      → (p.mint == a) ≡ false
      → IsShut c a m
      → IsShut c a (settle_sale native cfg blacklist clock sale answer balance p m).0
  unfolding settle_sale
  settle-IsShut a native cfg blacklist clock sale (refused manual) balance p m other v =
      put_back-IsShut a p (execute_sell sale.percent (error_kind manual) p.rules) m other v
  settle-IsShut a native cfg blacklist clock sale (paid value) balance p m other v =
      let q = returned_more p value in
      let noted = balance-IsShut a sale.wallet_id balance _ (
        put_back-IsShut a (after_sale native sale.percent q)
          (execute_sell sale.percent sold q.rules) m other v) in
      elim (Bool-cases (fle (int 100) sale.percent)) [
        | inl full ↦ rw full (close-IsShut a cfg clock sale q _ noted)
        | inr part ↦ rw part noted
      ]

  pub sale-IsShut :
      (a : ℕ) (native : F → F) (cfg : ManagerConfig F)
      (blacklist : Text → F → Option DevBlacklistTier) (clock : Clock) (sale : Sale F)
      (answer : SaleAnswer F) (balance : Option F) (m : Manager F)
      → IsShut c a m
      → IsShut c a (execute_sale native cfg blacklist clock sale answer balance m).0
  unfolding execute_sale
  sale-IsShut a native cfg blacklist clock sale answer balance m v =
      elim (Option-cases (find_wallet sale.wallet_id m.wallets.ordered)) [
        | inl unknown ↦ rw (execute_sale, unknown) v
        | inr (w, known) ↦
            elim (Option-cases (find_position sale.mint sale.wallet_id m.positions)) [
              | inl missing ↦ rw (execute_sale, known, missing) v
              | inr (p, found) ↦
                  rw (execute_sale, known, found)
                    (settle-IsShut a native cfg blacklist clock sale answer balance p _
                      (found-mint a sale.mint sale.wallet_id m.positions p found v.no_position)
                      (record {
                        closed = v.closed;
                        no_position =
                            keep-IsShut a (has_key sale.mint sale.wallet_id) m.positions
                              v.no_position;
                      }))
            ]
      ]
