-- ===== src/Latency/Tests.antt =====
-- One wallet of two.
use automatamain.Base.{◌≡◌, refl, none, some, List, [], ◌∷◌, ℕ}
use automatamain.Base.Assoc.{get?}
use automatamain.Latency.{Trace, Registry, on_sent, mark_wallet_done, log_of}
use automatamain.Latency.Reports.{Event, sent, done, reports_of, later_wallets_lost}

abbrev fresh : Trace
fresh = record { created = 5; score_done = some 7_000_000; gate = none; wallets = [] }

abbrev registry : Registry
registry = (8, fresh) ∷ []

abbrev second_wallet : List (ℕ × Event)
second_wallet = (30, sent 8 2) ∷ (40, done 8 2) ∷ []

later_wallets_lost_example :
    ((mark_wallet_done 20 8 1 (on_sent 10 8 1 registry)).1
      ≡ some (
          log_of 8
            (record fresh { wallets = (1, record { sent = some 10; confirmed = some 20 }) ∷ [] })))
    × (reports_of 8 second_wallet (mark_wallet_done 20 8 1 (on_sent 10 8 1 registry)).0 ≡ 0)
unfolding get?
later_wallets_lost_example =
    later_wallets_lost 10 20 8 1 second_wallet registry fresh refl refl refl
