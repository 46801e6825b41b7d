-- ===== src/Manager/System/SameMarks.antt =====
-- What a message leaves of the marks of the manager.
use automatamain.Base.{
  ℕ, ◌+◌, ◌≡◌, arith, Bool, true, false, Option, none, List, [], ◌∷◌, ◌++◌, if◌then◌else◌, ◌==◌,
  keep, length, length-keep-append,
}
use automatamain.Base.Float.{Float}
use automatamain.Base.Set.{any, without, member, any-without_le, member-without}
use automatamain.Base.Text.{Text}
use automatamain.Reputation.Blacklist.{DevBlacklistTier}
use automatamain.Manager.{
  ManagerConfig, Manager, BuySignal, Clock, same_key, abandon_position, maybe_finalize_closed_mint,
}
use automatamain.Manager.Buys.{Fanout, Buy, BuyResult, initiate_buy, execute_buy}
use automatamain.Manager.Buys.Result.{apply_buy_result, abort_buy_after_fill_mcap_spike}
use automatamain.Manager.Sells.{Sale, SaleAnswer, execute_sale, settle_sale, close_position}
use automatamain.Manager.System.{started}

-- What is left after a mark is removed has another key, and was marked.
pub unmarked :
    (a w mint wallet_id : ℕ) (keys : List (ℕ × ℕ))
    → any (same_key a w) (without (same_key mint wallet_id) keys) ≡ true
    → (any (same_key a w) keys ≡ true) × (same_key a w (mint, wallet_id) ≡ false)
unmarked a w mint wallet_id [] h = absurd (ground (arith, h))
unmarked a w mint wallet_id (k ∷ keys) h = ground (arith, h, unmarked a w mint wallet_id keys)

unmark-le :
    (a w mint wallet_id : ℕ) (keys : List (ℕ × ℕ))
    → any (same_key a w) (without (same_key mint wallet_id) ((mint, wallet_id) ∷ keys)) ≡ true
    → any (same_key a w) keys ≡ true
unmark-le a w mint wallet_id keys h =
    ground (arith, h, any-without_le (same_key mint wallet_id) (same_key a w) keys)

module _ {F : Type 0} where
  -- How many fan-outs a mint has.
  abbrev pub fans_of : ℕ → List (Fanout F) → ℕ
  fans_of mint fs = length (keep (λ f. f.signal.mint == mint) fs)

  pub fans-middle :
      (mint : ℕ) (xs ys : List (Fanout F)) (f : Fanout F)
      → fans_of mint (xs ++ f ∷ ys)
        ≡ (if f.signal.mint == mint then 1 else 0) + fans_of mint (xs ++ ys)
  fans-middle mint xs ys f = ground (
    arith,
    length-keep-append (λ g. g.signal.mint == mint) xs (f ∷ ys),
    length-keep-append (λ g. g.signal.mint == mint) xs ys,
  )

  abbrev pub is_buy : ℕ → ℕ → Buy F → Bool
  is_buy mint wallet_id b = same_key mint wallet_id (b.signal.mint, b.wallet_id)

  -- What a message leaves of the marks.
  pub record SameMarks (m n : Manager F) : Type 0 where
    pub mints : n.pending_mints ≡ m.pending_mints
    pub buys : n.pending_wallet_buys ≡ m.pending_wallet_buys

  pub finalize-SameMarks :
      (mint : ℕ) (m : Manager F) → SameMarks m (maybe_finalize_closed_mint mint m)
  unfolding maybe_finalize_closed_mint
  finalize-SameMarks mint m = ground arith

  pub abandon-SameMarks :
      (mint : ℕ) (wallet_id : Option ℕ) (m : Manager F)
      → SameMarks m (abandon_position mint wallet_id m)
  unfolding abandon_position maybe_finalize_closed_mint
  abandon-SameMarks mint wallet_id m = ground arith

  -- A buy leaves the pending mints, and marks no buy that does not run.
  pub execute-mints :
      (signal : BuySignal F) (wallet_id : ℕ) (amount_sol : F) (m : Manager F)
      → (execute_buy signal wallet_id amount_sol m).0.pending_mints ≡ m.pending_mints
  unfolding execute_buy
  execute-mints signal wallet_id amount_sol m = ground arith

module _ {F : Type 0} ⦃fl : Float F⦄ where
  pub refused-mints :
      (cfg : ManagerConfig F) (clock : Clock) (signal : BuySignal F) (m : Manager F) (a : ℕ)
      → (initiate_buy cfg clock signal m).1 ≡ none
      → member a (initiate_buy cfg clock signal m).0.pending_mints ≡ member a m.pending_mints
  unfolding initiate_buy
  refused-mints cfg clock signal m a h =
      ground (arith, h, member-without signal.mint a (signal.mint ∷ m.pending_mints))

  pub initiate-buys :
      (cfg : ManagerConfig F) (clock : Clock) (signal : BuySignal F) (m : Manager F)
      → (initiate_buy cfg clock signal m).0.pending_wallet_buys ≡ m.pending_wallet_buys
  unfolding initiate_buy
  initiate-buys cfg clock signal m = ground arith

  pub result-mints :
      (native : F → F) (cfg : ManagerConfig F) (clock : Clock) (buy : Buy F) (result : BuyResult F)
      (sold balance : Option F) (m : Manager F)
      → (apply_buy_result native cfg clock buy result sold balance m).pending_mints
        ≡ m.pending_mints
  unfolding apply_buy_result abort_buy_after_fill_mcap_spike
  result-mints native cfg clock buy result sold balance m = ground arith

  pub result-buys :
      (native : F → F) (cfg : ManagerConfig F) (clock : Clock) (buy : Buy F) (result : BuyResult F)
      (sold balance : Option F) (m : Manager F)
      → (apply_buy_result native cfg clock buy result sold balance m).pending_wallet_buys
        ≡ without (same_key buy.signal.mint buy.wallet_id) m.pending_wallet_buys
  unfolding apply_buy_result abort_buy_after_fill_mcap_spike
  result-buys native cfg clock buy result sold balance m = ground arith

  pub sale-SameMarks :
      (native : F → F) (cfg : ManagerConfig F) (blacklist : Text → F → Option DevBlacklistTier)
      (clock : Clock) (sale : Sale F) (answer : SaleAnswer F) (balance : Option F) (m : Manager F)
      → SameMarks m (execute_sale native cfg blacklist clock sale answer balance m).0
  unfolding execute_sale settle_sale close_position maybe_finalize_closed_mint
  sale-SameMarks native cfg blacklist clock sale answer balance m = ground arith

module _ {F : Type 0} where
  -- Every marked buy runs.
  abbrev pub Marked : Manager F → List (Buy F) → Type 0
  Marked m buys =
      (a w : ℕ) → any (same_key a w) m.pending_wallet_buys ≡ true → any (is_buy a w) buys ≡ true

  pub execute-Marked :
      (signal : BuySignal F) (wallet_id : ℕ) (amount_sol : F) (m : Manager F) (buys : List (Buy F))
      → Marked m buys
      → Marked
          (execute_buy signal wallet_id amount_sol m).0
          (started (execute_buy signal wallet_id amount_sol m).1 buys)
  unfolding execute_buy
  execute-Marked signal wallet_id amount_sol m buys v a w h = ground (
    arith,
    h,
    v a w,
    unmark-le a w signal.mint wallet_id m.pending_wallet_buys,
    any-without_le (same_key signal.mint wallet_id) (same_key a w) m.pending_wallet_buys,
  )
