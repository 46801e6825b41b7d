-- ===== src/Manager/System/Marks.antt =====
-- The marks of the manager and the tasks that they stand for.
use automatamain.Base.{
  ℕ, ◌≡◌, inl, inr, ap, arith, Option, List, [], ◌∷◌, if◌then◌else◌, Option-cases,
}
use automatamain.Base.Float.{Float}
use automatamain.Base.Set.{any, member, any-middle, member-without}
use automatamain.Base.Text.{Text}
use automatamain.Reputation.Blacklist.{DevBlacklistTier}
use automatamain.Manager.{
  ManagerConfig, Manager, BuySignal, Clock, update_pool, set_paused, clear_pending_mint,
  abandon_position,
}
use automatamain.Manager.Buys.{Fanout, Buy, initiate_buy}
use automatamain.Manager.Buys.Gate.{IsFree, started_iff}
use automatamain.Manager.Sells.{execute_sale}
use automatamain.Manager.System.{
  System, started, Step, signalled, fanned, cleared, completed, sold_one, abandoned, paused_or_not,
  pool_moved, ruled, Reach, here, next,
}
use automatamain.Manager.System.SameMarks.{
  fans_of, is_buy, Marked, SameMarks, fans-middle, abandon-SameMarks, execute-mints, refused-mints,
  initiate-buys, result-mints, result-buys, sale-SameMarks, execute-Marked, unmarked,
}

module _ {F : Type 0} where
  -- A mint is pending exactly while one fan-out of it runs, and every marked buy runs.
  pub record IsMarked (s : System F) : Type 0 where
    pub fans : (a : ℕ) → fans_of a s.fanouts ≡ (if member a s.manager.pending_mints then 1 else 0)
    pub marked : Marked s.manager s.buys

  SameMarks-Marked :
      (m n : Manager F) (buys : List (Buy F)) → SameMarks m n → Marked m buys → Marked n buys
  SameMarks-Marked m n buys same v a w h = v a w (rw same.buys at h)

  SameMarks-fans :
      (m n : Manager F) (fs : List (Fanout F)) (a : ℕ)
      → SameMarks m n
      → fans_of a fs ≡ (if member a m.pending_mints then 1 else 0)
      → fans_of a fs ≡ (if member a n.pending_mints then 1 else 0)
  SameMarks-fans m n fs a same h = rw same.mints h

  SameMarks-IsMarked :
      (s : System F) (n : Manager F)
      → SameMarks s.manager n
      → IsMarked s
      → IsMarked (record s { manager = n })
  SameMarks-IsMarked s n same v = record {
    fans = λ a. SameMarks-fans s.manager n s.fanouts a same (v.fans a);
    marked = SameMarks-Marked s.manager n s.buys same v.marked;
  }

module _ {F : Type 0} ⦃fl : Float F⦄ where
  signalled-fans :
      (cfg : ManagerConfig F) (clock : Clock) (signal : BuySignal F) (m : Manager F)
      (fs : List (Fanout F)) (a : ℕ)
      → fans_of a fs ≡ (if member a m.pending_mints then 1 else 0)
      → fans_of a (started (initiate_buy cfg clock signal m).1 fs)
        ≡ (if member a (initiate_buy cfg clock signal m).0.pending_mints then 1 else 0)
  signalled-fans cfg clock signal m fs a h =
      elim (Option-cases (initiate_buy cfg clock signal m).1) [
        | inl refused ↦ ground (arith, h, refused, refused-mints cfg clock signal m a refused)
        | inr (f, fanned_out) ↦
            let iff = started_iff cfg clock signal m in
            let free : IsFree cfg clock signal m = iff.0.0 (rw fanned_out (λ e. cc)) in
            rw (iff.1 free) (ground (arith, h, free.not_pending))
      ]

module _ {F : Type 0} ⦃fl : Float F⦄ {native : F → F} {cfg : ManagerConfig F}
    {blacklist : Text → F → Option DevBlacklistTier} where
  Step-IsMarked : {s t : System F} → Step native cfg blacklist s t → IsMarked s → IsMarked t
  unfolding clear_pending_mint set_paused update_pool
  Step-IsMarked (signalled s clock signal) v = record {
    fans = λ a. signalled-fans cfg clock signal s.manager s.fanouts a (v.fans a);
    marked = λ a w h. v.marked a w (rw (initiate-buys cfg clock signal s.manager) at h);
  }
  Step-IsMarked (fanned s xs ys signal wallet_id amount_sol left h) v = record {
    fans = λ a. rw (execute-mints signal wallet_id amount_sol s.manager) (
        ground (
          arith,
          v.fans a,
          ap (λ l. fans_of a l) h,
          fans-middle a xs ys (record { signal = signal; left = (wallet_id, amount_sol) ∷ left }),
          fans-middle a xs ys (record { signal = signal; left = left }),
        ));
    marked = execute-Marked signal wallet_id amount_sol s.manager s.buys v.marked;
  }
  Step-IsMarked (cleared s xs ys signal h) v = record {
    fans = λ a. ground (
      arith,
      v.fans a,
      ap (λ l. fans_of a l) h,
      fans-middle a xs ys (record { signal = signal; left = [] }),
      member-without signal.mint a s.manager.pending_mints,
    );
    marked = v.marked;
  }
  Step-IsMarked (completed s xs ys buy clock result sold balance h) v = record {
    fans = λ a. rw (result-mints native cfg clock buy result sold balance s.manager) (v.fans a);
    marked = λ a w e. ground (
      arith,
      v.marked a w,
      rw (result-buys native cfg clock buy result sold balance s.manager) at e,
      unmarked a w buy.signal.mint buy.wallet_id s.manager.pending_wallet_buys,
      ap (λ l. any (is_buy a w) l) h,
      any-middle (is_buy a w) xs buy ys,
    );
  }
  Step-IsMarked (sold_one s clock sale answer balance) v =
      SameMarks-IsMarked s (execute_sale native cfg blacklist clock sale answer balance s.manager).0
        (sale-SameMarks native cfg blacklist clock sale answer balance s.manager) v
  Step-IsMarked (abandoned s mint wallet_id) v =
      SameMarks-IsMarked s (abandon_position mint wallet_id s.manager)
        (abandon-SameMarks mint wallet_id s.manager) v
  Step-IsMarked (paused_or_not s paused) v = record { fans = v.fans; marked = v.marked }
  Step-IsMarked (pool_moved s mint mcap) v = record { fans = v.fans; marked = v.marked }
  Step-IsMarked (ruled s f) v = record { fans = v.fans; marked = v.marked }

  -- From any state where it holds, such as one without tasks and marks, and under any order of signals,
  -- buys, results, sales and other messages: a mint is pending exactly while a fan-out of it runs, and
  -- no mint has two; and a wallet's buy that is marked as pending runs.
  pub Reach-IsMarked : {s t : System F} → Reach native cfg blacklist s t → IsMarked s → IsMarked t
  Reach-IsMarked here v = v
  Reach-IsMarked (next r st) v = Step-IsMarked st (Reach-IsMarked r v)
