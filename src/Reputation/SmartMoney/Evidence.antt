-- ===== src/Reputation/SmartMoney/Evidence.antt =====
-- What a smart wallet has shown, and the two questions about smart wallets.
use automatamain.Base.{
  ℕ, ◌+◌, ◌%◌, ◌^◌, ◌≤◌, ◌≡◌, ap, arith, true, Option, none, some, List, [], ◌∷◌, keep, length, All,
  ◌==◌, Bool-cases, inl, inr,
}
use automatamain.Base.Float.{Float}
use automatamain.Base.Assoc.{get?, or_default, fold_entry, get?-feed}
use automatamain.Reputation.SmartMoney.{
  WalletRecord, TradeOutcome, default_wallet, note_wallet, is_smart, known_smart, filter_smart,
  count_smart, note_trades, update_outcomes,
}

module _ {F : Type 0} ⦃fl : Float F⦄ where
  -- How often a wallet is listed among the early buyers of trades.
  abbrev pub appearances : ℕ → List (TradeOutcome F) → ℕ
  appearances w [] = 0
  appearances w (t ∷ ts) = length (keep (λ v. v == w) t.wallets) + appearances w ts

  abbrev trades_of : Option (WalletRecord F) → ℕ
  trades_of none = 0
  trades_of (some r) = r.trades

  fold-trades_le :
      (pnl : F) (now : ℕ) (ws : List ℕ) (o : Option (WalletRecord F))
      → trades_of (fold_entry default_wallet (λ w. w) (λ w. note_wallet pnl now) ws o)
        ≤ trades_of o + length ws
  unfolding fold_entry note_wallet
  fold-trades_le pnl now [] o = omega arith
  fold-trades_le pnl now (w ∷ ws) o =
      ground (
        arith,
        fold-trades_le pnl now ws (some (note_wallet pnl now (or_default default_wallet o))),
      )

  note_trades-le :
      (w : ℕ) (ts : List (TradeOutcome F)) (table : List (ℕ × WalletRecord F))
      → trades_of (get? w (note_trades ts table)) ≤ trades_of (get? w table) + appearances w ts
  unfolding note_trades
  note_trades-le w [] table = omega arith
  note_trades-le w (t ∷ ts) table =
      let entry : get? w (update_outcomes t table)
          ≡ fold_entry default_wallet (λ v. v) (λ v. note_wallet t.pnl_pct t.now)
              (keep (λ v. v == w) t.wallets) (get? w table) =
        get?-feed default_wallet (λ v. v) (λ v. note_wallet t.pnl_pct t.now) w t.wallets table in
      omega (
        arith,
        note_trades-le w ts (update_outcomes t table),
        ap trades_of entry,
        fold-trades_le t.pnl_pct t.now (keep (λ v. v == w) t.wallets) (get? w table),
      )

  smart_trades :
      (o : Option (WalletRecord F)) (now ttl_secs : ℕ)
      → known_smart o now ttl_secs ≡ true
      → 4 ≤ trades_of o
  unfolding is_smart
  smart_trades none now ttl_secs h = cc
  smart_trades (some r) now ttl_secs h = ground (arith, h)

  All-keep :
      (table : List (ℕ × WalletRecord F)) (P : ℕ → Type 0) (wallets : List ℕ) (now ttl_secs : ℕ)
      → ((w : ℕ) → known_smart (get? w table) now ttl_secs ≡ true → P w)
      → All P (filter_smart table wallets now ttl_secs)
  unfolding filter_smart
  All-keep table P [] now ttl_secs h = tt
  All-keep table P (w ∷ wallets) now ttl_secs h =
      let rest = All-keep table P wallets now ttl_secs h in
      elim (Bool-cases (known_smart (get? w table) now ttl_secs)) [
        | inl smart ↦ rw smart (h w smart, rest)
        | inr not_smart ↦ rw not_smart rest
      ]

  count_smart-length :
      (table : List (ℕ × WalletRecord F)) (wallets : List ℕ) (now ttl_secs count : ℕ)
      → count_smart table wallets now ttl_secs (count % 2 ^ 32)
        ≡ (count + length (filter_smart table wallets now ttl_secs)) % 2 ^ 32
  unfolding count_smart filter_smart
  count_smart-length table [] now ttl_secs count = omega arith
  count_smart-length table (w ∷ wallets) now ttl_secs count = ground (
    arith,
    count_smart-length table wallets now ttl_secs count,
    count_smart-length table wallets now ttl_secs (count + 1),
  )

  -- After any trades from an empty table, whatever the clock says and whatever wallets are asked for:
  -- a wallet that is given as smart was listed at least four times among the early buyers of those
  -- trades; and the count of the smart wallets is the length of their list, modulo 2 ^ 32.
  pub smart_wallets_evidence :
      (ts : List (TradeOutcome F)) (wallets : List ℕ) (now ttl_secs : ℕ)
      → let table = note_trades ts [] in
        All (λ w. 4 ≤ appearances w ts) (filter_smart table wallets now ttl_secs)
        × (count_smart table wallets now ttl_secs 0
            ≡ length (filter_smart table wallets now ttl_secs) % 2 ^ 32)
  unfolding get?
  smart_wallets_evidence ts wallets now ttl_secs = (
    All-keep (note_trades ts []) (λ w. 4 ≤ appearances w ts) wallets now ttl_secs
        (λ w smart. omega (
          arith,
          note_trades-le w ts [],
          smart_trades (get? w (note_trades ts [])) now ttl_secs smart,
        )),
    omega (arith, count_smart-length (note_trades ts []) wallets now ttl_secs 0),
  )
