-- ===== src/Latency.antt =====
-- The times of a buy on its way, as src/telemetry/buy_latency.rs keeps them for each mint. A reading
-- of the clock is an argument, in nanoseconds. What the code logs is returned.
pub mod Reports
pub mod Tests
use automatamain.Base.{
  ℕ, ◌-◌, ◌/◌, Bool, true, false, not, ◌&&◌, Option, none, some, List, [], ◌∷◌, map, if◌then◌else◌,
  ◌==◌,
}
use automatamain.Base.Assoc.{get?, insert, upsert, or_default}
use automatamain.Base.Set.{without}

pub record WalletTiming : Type 0 where
  pub sent : Option ℕ
  pub confirmed : Option ℕ

pub record Trace : Type 0 where
  pub created : ℕ
  pub score_done : Option ℕ
  pub gate : Option ℕ
  pub wallets : List (ℕ × WalletTiming)

abbrev pub Registry : Type 0
Registry = List (ℕ × Trace)

pub record WalletReport : Type 0 where
  pub wallet_id : ℕ
  pub gate_to_sent_ms : ℕ
  pub sent_ms : ℕ
  pub confirmed_ms : ℕ
  pub sent_to_confirmed_ms : ℕ

-- The record of `[LATENCY] buy path`; its wallets are not sorted.
pub record Report : Type 0 where
  pub mint : ℕ
  pub created_to_score_ms : ℕ
  pub created_to_gate_ms : ℕ
  pub score_to_gate_ms : ℕ
  pub wallets : List WalletReport

abbrev pub untimed : WalletTiming
untimed = record { sent = none; confirmed = none }

-- `HashMap::get_mut` and a change of the trace.
abbrev pub change_found : ℕ → (Trace → Trace) → Registry → Option Trace → Registry
change_found mint f g none = g
change_found mint f g (some t) = insert mint (f t) g

abbrev pub change_trace : ℕ → (Trace → Trace) → Registry → Registry
change_trace mint f g = change_found mint f g (get? mint g)

abbrev pub is_set : Option ℕ → Bool
is_set none = false
is_set (some x) = true

unfoldable pub on_created : ℕ → ℕ → Registry → Registry
on_created now mint g = elim (get? mint g) [
  | some t ↦ g
  | none ↦ insert mint (record { created = now; score_done = none; gate = none; wallets = [] }) g
]

unfoldable pub on_score_done : ℕ → ℕ → Registry → Registry
on_score_done now mint g = change_trace mint (λ t. record t { score_done = some now }) g

unfoldable pub on_gate : ℕ → ℕ → Registry → Registry
on_gate now mint g = change_trace mint (λ t. record t { gate = some now }) g

abbrev pub note_sent : ℕ → ℕ → Trace → Trace
note_sent now wallet_id t = record t {
  wallets = upsert untimed wallet_id (λ w. record w { sent = some now }) t.wallets;
}

unfoldable pub on_sent : ℕ → ℕ → ℕ → Registry → Registry
on_sent now mint wallet_id g = change_trace mint (note_sent now wallet_id) g

abbrev pub note_done : ℕ → ℕ → Trace → Trace
note_done now wallet_id t = record t {
  wallets = upsert untimed wallet_id (λ w. record w { confirmed = some now }) t.wallets;
}

abbrev pub is_timed : WalletTiming → Bool
is_timed w = is_set w.sent && is_set w.confirmed

abbrev pub all_timed : List (ℕ × WalletTiming) → Bool
all_timed [] = true
all_timed ((wallet_id, w) ∷ rest) = let others = all_timed rest in is_timed w && others

abbrev pub is_empty : List (ℕ × WalletTiming) → Bool
is_empty [] = true
is_empty (w ∷ rest) = false

-- `duration_since` is 0 for a later time.
abbrev pub ms : ℕ → ℕ → ℕ
ms from to = (to - from) / 1_000_000

abbrev pub ms_or_zero : Option ℕ → Option ℕ → ℕ
ms_or_zero (some from) (some to) = ms from to
ms_or_zero _ _ = 0

abbrev pub report_wallet : Trace → ℕ × WalletTiming → WalletReport
report_wallet t (wallet_id, w) = record {
  wallet_id = wallet_id;
  gate_to_sent_ms = ms_or_zero t.gate w.sent;
  sent_ms = ms_or_zero (some t.created) w.sent;
  confirmed_ms = ms_or_zero (some t.created) w.confirmed;
  sent_to_confirmed_ms = ms_or_zero w.sent w.confirmed;
}

abbrev pub log_of : ℕ → Trace → Report
log_of mint t = record {
  mint = mint;
  created_to_score_ms = ms_or_zero (some t.created) t.score_done;
  created_to_gate_ms = ms_or_zero (some t.created) t.gate;
  score_to_gate_ms = ms_or_zero t.score_done t.gate;
  wallets = map (report_wallet t) t.wallets;
}

abbrev pub forget : ℕ → Registry → Registry
forget mint g = without (λ e. e.0 == mint) g

-- A trace whose wallets are all done is logged and removed.
abbrev pub settle : ℕ → Trace → Registry → Registry × Option Report
settle mint t g =
    if not (is_empty t.wallets) && all_timed t.wallets
    then (forget mint (insert mint t g), some (log_of mint t))
    else (insert mint t g, none)

-- `on_confirmed` and `on_buy_failed`.
unfoldable pub mark_wallet_done : ℕ → ℕ → ℕ → Registry → Registry × Option Report
mark_wallet_done now mint wallet_id g = elim (get? mint g) [
  | none ↦ (g, none)
  | some t ↦ settle mint (note_done now wallet_id t) g
]
