-- ===== src/Reputation/SmartMoney.antt =====
-- Wallets that buy early into trades (src/scoring/smart_money.rs). A wallet is a number, and the
-- reading of the clock is an argument. Counters are u64, the count of a question u32.
pub mod Evidence
use automatamain.Base.{
  ℕ, ◌+◌, ◌-◌, ◌%◌, ◌^◌, Bool, true, false, ◌&&◌, Option, none, some, List, [], ◌∷◌, ltb, ◌==◌,
  if◌then◌else◌, length, keep,
}
use automatamain.Base.Int.{pos}
use automatamain.Base.Float.{Float, int, milli, flt}
use automatamain.Base.Assoc.{get?, feed}

pub record WalletRecord (F : Type 0) : Type 0 where
  pub trades : ℕ
  pub wins : ℕ
  pub losses : ℕ
  pub pnl_pct_sum : F
  pub last_seen_unix : ℕ

pub record SmartMoneySnapshot : Type 0 where
  pub total_wallets : ℕ
  pub smart_wallets : ℕ

-- `Msg::UpdateOutcomes`, with the time at which it is taken.
pub record TradeOutcome (F : Type 0) : Type 0 where
  pub wallets : List ℕ
  pub pnl_pct : F
  pub now : ℕ

module _ {F : Type 0} ⦃fl : Float F⦄ where
  open fl use {fle, fadd, fdiv, of_ℕ}

  unfoldable pub winrate : WalletRecord F → F
  winrate r = if r.trades == 0 then int 0 else fdiv (of_ℕ r.wins) (of_ℕ r.trades)

  unfoldable pub avg_pnl_pct : WalletRecord F → F
  avg_pnl_pct r = if r.trades == 0 then int 0 else fdiv r.pnl_pct_sum (of_ℕ r.trades)

  abbrev pub default_wallet : WalletRecord F
  default_wallet = record {
    trades = 0;
    wins = 0;
    losses = 0;
    pnl_pct_sum = int 0;
    last_seen_unix = 0;
  }

  unfoldable pub note_wallet : F → ℕ → WalletRecord F → WalletRecord F
  note_wallet pnl_pct now r =
      let counted = record r {
        trades = (r.trades + 1) % 2 ^ 64;
        pnl_pct_sum = fadd r.pnl_pct_sum pnl_pct;
        last_seen_unix = now;
      } in
      if flt (int 0) pnl_pct
      then record counted { wins = (r.wins + 1) % 2 ^ 64 }
      else record counted { losses = (r.losses + 1) % 2 ^ 64 }

  -- The loop over the wallets of one trade.
  abbrev pub update_outcomes :
      TradeOutcome F → List (ℕ × WalletRecord F) → List (ℕ × WalletRecord F)
  update_outcomes t table =
      feed default_wallet (λ w. w) (λ w. note_wallet t.pnl_pct t.now) t.wallets table

  unfoldable pub is_smart : WalletRecord F → ℕ → ℕ → Bool
  is_smart r now ttl_secs =
      if ltb 0 ttl_secs && ltb ttl_secs (now - r.last_seen_unix)
      then false
      else if ltb r.trades 4
      then false
      else fle (milli 600) (winrate r) && fle (int 5) (avg_pnl_pct r)

  abbrev pub known_smart : Option (WalletRecord F) → ℕ → ℕ → Bool
  known_smart none now ttl_secs = false
  known_smart (some r) now ttl_secs = is_smart r now ttl_secs

  -- `Msg::FilterSmart`.
  unfoldable pub filter_smart : List (ℕ × WalletRecord F) → List ℕ → ℕ → ℕ → List ℕ
  filter_smart table wallets now ttl_secs =
      keep (λ w. known_smart (get? w table) now ttl_secs) wallets

  -- `Msg::CountSmart`.
  unfoldable pub count_smart : List (ℕ × WalletRecord F) → List ℕ → ℕ → ℕ → ℕ → ℕ
  count_smart table [] now ttl_secs count = count
  count_smart table (w ∷ wallets) now ttl_secs count =
      let next = if known_smart (get? w table) now ttl_secs then (count + 1) % 2 ^ 32 else count in
      count_smart table wallets now ttl_secs next

  -- `Msg::Snapshot`.
  unfoldable pub smart_snapshot : List (ℕ × WalletRecord F) → ℕ → ℕ → SmartMoneySnapshot
  smart_snapshot table now ttl_secs = record {
    total_wallets = length table;
    smart_wallets = length (keep (λ e. is_smart e.1 now ttl_secs) table);
  }

  -- The task's table under the trades that it is told of.
  unfoldable pub note_trades :
      List (TradeOutcome F) → List (ℕ × WalletRecord F) → List (ℕ × WalletRecord F)
  note_trades [] table = table
  note_trades (t ∷ ts) table = note_trades ts (update_outcomes t table)
