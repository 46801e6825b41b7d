-- ===== src/Manager/System/Room.antt =====
-- The strategy's limit of open positions, for the mints that are open or pending.
use automatamain.Base.{ℕ, ◌≤◌, ◌≡◌, inl, refl, arith, Bool, true, false, Option, map, if◌then◌else◌}
use automatamain.Base.Float.{Float}
use automatamain.Base.Text.{Text}
use automatamain.Base.Set.{member-without}
use automatamain.Reputation.Blacklist.{DevBlacklistTier}
use automatamain.Manager.{
  ManagerConfig, unique_open_mints, abandon_position, update_pool, set_paused, clear_pending_mint,
}
use automatamain.Manager.Buys.{execute_buy}
use automatamain.Manager.Sells.{execute_sale}
use automatamain.Manager.System.{
  System, Reach, here, next, Step, signalled, fanned, cleared, completed, sold_one, abandoned,
  paused_or_not, pool_moved, ruled, change_rules,
}
use automatamain.Manager.System.SameMarks.{sale-SameMarks, abandon-SameMarks, execute-mints}
use automatamain.Manager.System.Shut.{
  sale-IsShut, abandon-IsShut, execute-IsShut, pool-IsShut, rules-IsShut,
}
use automatamain.Manager.System.Limit.{
  limit, initiate-limit, abandon-limit, execute-limit, result-limit, sale-limit,
}
use automatamain.Manager.System.Occupied.{occupied, keeps_occupied, signalled-limit, timely-limit}

module _ {F : Type 0} where
  -- The mints that are pending or open are within the strategy's limit.
  pub record HasRoom (max_open : ℕ) (s : System F) : Type 0 where
    pub rules : limit s.manager ≡ max_open
    pub within : unique_open_mints s.manager ≤ max_open

module _ {F : Type 0} ⦃fl : Float F⦄ {native : F → F} {cfg : ManagerConfig F}
    {blacklist : Text → F → Option DevBlacklistTier} where
  -- The result of a buy finds its mint pending, or open in some wallet.
  abbrev pub is_timely : {s t : System F} → Step native cfg blacklist s t → Bool
  is_timely (completed s xs ys buy clock result got balance h) = occupied buy.signal.mint s.manager
  is_timely _ = true

  abbrev pub all_timely : {s t : System F} → Reach native cfg blacklist s t → Bool
  all_timely here = true
  all_timely (next r st) = let earlier = all_timely r in if is_timely st then earlier else false

  Step-HasRoom :
      {max_open : ℕ} {s t : System F} (st : Step native cfg blacklist s t)
      → is_timely st ≡ true
      → HasRoom max_open s
      → HasRoom max_open t
  unfolding clear_pending_mint set_paused update_pool unique_open_mints
  Step-HasRoom (signalled s clock signal) timely v = record {
    rules = ground (arith, v.rules, initiate-limit cfg clock signal s.manager);
    within = ground (arith, v, signalled-limit cfg clock signal s);
  }
  Step-HasRoom (fanned s xs ys signal wallet_id amount_sol left h) timely v =
      let n = (execute_buy signal wallet_id amount_sol s.manager).0 in
      let fewer =
        keeps_occupied s n (λ a. execute-IsShut a signal wallet_id amount_sol s.manager)
          (λ a e. rw (execute-mints signal wallet_id amount_sol s.manager) at e) in
      record {
        rules = ground (arith, v.rules, execute-limit signal wallet_id amount_sol s.manager);
        within = ground (arith, v, fewer);
      }
  Step-HasRoom (cleared s xs ys signal h) timely v =
      let n = clear_pending_mint signal.mint s.manager in
      let fewer =
        keeps_occupied s n (λ a w. record { closed = inl refl; no_position = w.no_position })
          (λ a e. ground (arith, e, member-without signal.mint a s.manager.pending_mints)) in
      record { rules = v.rules; within = ground (arith, v, fewer) }
  Step-HasRoom (completed s xs ys buy clock result got balance h) timely v = record {
    rules = ground (arith, v.rules, result-limit native cfg clock buy result got balance s.manager);
    within =
        ground (arith, v, timely-limit native cfg clock buy result got balance s.manager timely);
  }
  Step-HasRoom (sold_one s clock sale answer balance) timely v =
      let n = (execute_sale native cfg blacklist clock sale answer balance s.manager).0 in
      let same = sale-SameMarks native cfg blacklist clock sale answer balance s.manager in
      let fewer =
        keeps_occupied s n
          (λ a. sale-IsShut a native cfg blacklist clock sale answer balance s.manager)
          (λ a e. rw same.mints at e) in
      record {
        rules =
            ground
              (arith, v.rules, sale-limit native cfg blacklist clock sale answer balance s.manager);
        within = ground (arith, v, fewer);
      }
  Step-HasRoom (abandoned s mint wallet_id) timely v =
      let n = abandon_position mint wallet_id s.manager in
      let same = abandon-SameMarks mint wallet_id s.manager in
      let fewer =
        keeps_occupied s n (λ a. abandon-IsShut a mint wallet_id s.manager)
          (λ a e. rw same.mints at e) in
      record {
        rules = ground (arith, v.rules, abandon-limit mint wallet_id s.manager);
        within = ground (arith, v, fewer);
      }
  Step-HasRoom (paused_or_not s paused) timely v = record { rules = v.rules; within = v.within }
  Step-HasRoom (pool_moved s mint mcap) timely v =
      let n = update_pool mint mcap s.manager in
      let fewer =
        keeps_occupied s n
          (λ a w. record {
            closed = inl refl;
            no_position =
                ground (arith, w.no_position, pool-IsShut a mint mcap s.manager.positions);
          })
          (λ a e. e) in
      record { rules = v.rules; within = ground (arith, v, fewer) }
  Step-HasRoom (ruled s f) timely v =
      let n = record s.manager { positions = map (change_rules f) s.manager.positions } in
      let fewer =
        keeps_occupied s n
          (λ a w. record {
            closed = inl refl;
            no_position = ground (arith, w.no_position, rules-IsShut a f s.manager.positions);
          })
          (λ a e. e) in
      record { rules = v.rules; within = ground (arith, v, fewer) }

  -- Under any order of signals, buys, results, sales and other messages, the mints that are pending or
  -- open in some wallet are at most `max_open_positions`, if they are so at the start and every result
  -- of a buy finds its mint pending or open.
  pub Reach-HasRoom :
      {max_open : ℕ} {s t : System F} (r : Reach native cfg blacklist s t)
      → all_timely r ≡ true
      → HasRoom max_open s
      → HasRoom max_open t
  Reach-HasRoom here timely v = v
  Reach-HasRoom (next r st) timely v =
      Step-HasRoom st (ground (arith, timely)) (Reach-HasRoom r (ground (arith, timely)) v)
