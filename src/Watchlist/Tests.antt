-- ===== src/Watchlist/Tests.antt =====
-- A watchlist for one token, and the theorems on the watchlist at it.
use automatamain.Base.{
  ℕ, zero, suc, ◌≡◌, ◌≤◌, refl, arith, true, false, Option, none, some, [], ◌∷◌,
}
use automatamain.Base.Int.{pos}
use automatamain.Base.Float.{Fixed, fixed_float}
use automatamain.Score.TierB.{TierBGatePoll, tier_b_poll_passes}
use automatamain.Watchlist.{FreshWatchlistConfig, Watch, try_add, note_running, watch, watch_token}
use automatamain.Watchlist.System.{System, idle, Reach, admit, start, here, next}
use automatamain.Watchlist.Invariant.{IsValid, Reach-IsValid}
use automatamain.Watchlist.Cap.{
  SerialReach, serial_here, serial_next, KeepsCap, SerialReach-KeepsCap, cap_overrun, PairedReach,
}
use automatamain.Watchlist.Polls.{IsVerdict, watch_token_ends}

abbrev one_at_a_time : FreshWatchlistConfig
one_at_a_time = record {
  enabled = true;
  poll_interval_ms = 5_000;
  max_wait_ms = 12_000;
  max_concurrent = 1;
}

abbrev admitted_9 : System
admitted_9 = record {
  list = record { active = 9 ∷ []; running = 0 };
  admitting = 9 ∷ [];
  watching = [];
  stopping = 0;
}

abbrev polled_9 : System
polled_9 = record {
  list = record { active = 9 ∷ []; running = 1 };
  admitting = [];
  watching = 9 ∷ [];
  stopping = 0;
}

polled : Reach one_at_a_time idle polled_9
unfolding try_add note_running
polled = next (next here (admit idle 9 admitted_9.list refl)) (start admitted_9 [] [] 9 refl)

Reach-IsValid_example : IsValid polled_9
Reach-IsValid_example = Reach-IsValid polled

serially : SerialReach one_at_a_time idle polled_9
unfolding try_add note_running
serially =
    serial_next (serial_next serial_here (admit idle 9 admitted_9.list refl) refl)
      (start admitted_9 [] [] 9 refl) tt

SerialReach-KeepsCap_example : KeepsCap one_at_a_time polled_9
SerialReach-KeepsCap_example = SerialReach-KeepsCap (omega arith) serially

cap_overrun_example : (s : System) × PairedReach one_at_a_time idle s × (s.list.running ≡ 2)
cap_overrun_example = cap_overrun one_at_a_time refl (omega arith) (omega arith)

abbrev hot_poll : TierBGatePoll Fixed
hot_poll = record {
  entry_ok = false;
  hot_override = true;
  momentum_only_fail = true;
  velocity_pct = some (pos 50_000_000);
  buyers = 12;
  buy_volume_sol = some (pos 9_000_000);
  momentum_overheated = true;
}

-- The bucket is gone in the first round, and the token is hot in the second.
abbrev answers : ℕ → Option (TierBGatePoll Fixed)
answers zero = none
answers (suc i) = some hot_poll

hot_in_two :
    watch_token one_at_a_time (λ i. 100) answers 4
    ≡ some (record {
      passed = true;
      passed_hot_override = true;
      last_momentum_only_poll = some hot_poll;
      rounds = 2;
    })
unfolding watch_token watch tier_b_poll_passes
hot_in_two = refl

watch_token_ends_example :
    (w : Watch Fixed) × (watch_token one_at_a_time (λ i. 100) answers 4 ≡ some w)
    × (w.rounds ≤ 3)
    × IsVerdict answers w
watch_token_ends_example = watch_token_ends one_at_a_time (λ i. 100) answers 3 (omega arith)
