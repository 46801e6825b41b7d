-- ===== src/Reputation/Tests.antt =====
-- Concrete histories, and the theorems on what the bot remembers at them.
use automatamain.Base.{
  ◌+◌, ◌≤◌, ◌≡◌, ◌%◌, ◌^◌, arith, Option, none, some, List, [], ◌∷◌, length, All,
}
use automatamain.Base.Int.{pos, negsuc}
use automatamain.Base.Float.{Fixed, fixed_float}
use automatamain.Base.Text.{Text, text}
use automatamain.Reputation.DevRanker.{
  OutcomeNote, strong_success, neutral_outcome, rug, default_record, note_outcomes, category,
}
use automatamain.Reputation.DevRanker.Counts.{Counts, own, category-Counts}
use automatamain.Reputation.SmartMoney.{TradeOutcome, note_trades, filter_smart, count_smart}
use automatamain.Reputation.SmartMoney.Evidence.{appearances, smart_wallets_evidence}
use automatamain.Reputation.Quarantine.{is_active, expires_after}
use automatamain.Reputation.Quarantine.Expiry.{
  QuarantineOp, insert_op, prune_op, run_ops, last_expiry, is_active-last_expiry,
}
use automatamain.Reputation.Blacklist.{
  permanent_rug, timed, previous_on, format_filter_skip, permanent_rug_label,
  build_blacklist_reason,
}
use automatamain.Reputation.Blacklist.Labels.{skip_of_reason}

abbrev outcomes : List OutcomeNote
outcomes =
    record { dev = 4; outcome = strong_success; now = 10 }
    ∷ record { dev = 5; outcome = rug; now = 11 }
    ∷ record { dev = 4; outcome = neutral_outcome; now = 12 }
    ∷ record { dev = 4; outcome = rug; now = 13 }
    ∷ []

category-Counts_example :
    let r = (category {F = Fixed} (note_outcomes outcomes []) 4 20 3_600).1 in
    Counts default_record r (own 4 outcomes)
    × (r.total_tokens ≡ r.strong_successes + r.successes + r.neutrals + r.rugs)
category-Counts_example = category-Counts outcomes 4 20 3_600 (omega arith)

abbrev trades : List (TradeOutcome Fixed)
trades =
    record { wallets = 8 ∷ 9 ∷ []; pnl_pct = some (pos 20_000_000); now = 100 }
    ∷ record { wallets = 8 ∷ []; pnl_pct = some (pos 30_000_000); now = 200 }
    ∷ record { wallets = 8 ∷ 9 ∷ []; pnl_pct = some (pos 8_000_000); now = 300 }
    ∷ record { wallets = 8 ∷ []; pnl_pct = some (negsuc 4_000_000); now = 400 }
    ∷ []

smart_wallets_evidence_example :
    All (λ w. 4 ≤ appearances w trades) (filter_smart (note_trades trades []) (8 ∷ 9 ∷ []) 500 0)
    × (count_smart (note_trades trades []) (8 ∷ 9 ∷ []) 500 0 0
        ≡ length (filter_smart (note_trades trades []) (8 ∷ 9 ∷ []) 500 0) % 2 ^ 32)
smart_wallets_evidence_example = smart_wallets_evidence trades (8 ∷ 9 ∷ []) 500 0

abbrev quarantines : List QuarantineOp
quarantines = insert_op 3 50 ∷ insert_op 4 90 ∷ prune_op 60 ∷ insert_op 3 120 ∷ prune_op 70 ∷ []

is_active-last_expiry_example :
    is_active (run_ops [] quarantines) 3 80 ≡ expires_after 80 (last_expiry 3 none quarantines)
is_active-last_expiry_example =
    is_active-last_expiry quarantines 3 80 (omega arith, (omega arith, tt))

-- A parser that knows one number, and a format.
abbrev parse_72 : Text → Option Fixed
parse_72 s = some (some (pos 72_400_000))

abbrev whole : Fixed → Text
whole x = text "-76"

abbrev crash : Text
crash = text "SL CRASH trigger_pnl=-75.6% | instant tick_drop=72.4%"

skip_of_reason_example :
    (format_filter_skip
        (build_blacklist_reason parse_72 whole permanent_rug crash (some (pos 0)))
        (text "7XptJKHs")
        (pos 0)
      ≡ (
        text "dev_blacklist_permanent",
        previous_on (permanent_rug_label parse_72 whole crash) (text "7XptJKHs"),
      ))
    × (format_filter_skip
          (build_blacklist_reason parse_72 whole timed crash (some (pos 0)))
          (text "7XptJKHs")
          (pos 9)
        ≡ (
          text "dev_blacklist",
          previous_on
              (build_blacklist_reason parse_72 whole timed crash (some (pos 0)))
              (text "7XptJKHs"),
        ))
skip_of_reason_example =
    skip_of_reason parse_72 whole crash (text "7XptJKHs") (some (pos 0)) (pos 0) (pos 9)
      (λ e. absurd (ground (arith, e)))
