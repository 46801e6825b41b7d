-- ===== src/Learning/Tests.antt =====
-- Two losing and winning batches next to the thresholds of the examples.
use automatamain.Base.{◌≡◌, refl, arith, true, none, some, [], ◌∷◌, ◌++◌, min, max, ◌+◌, ◌-◌}
use automatamain.Base.Int.{pos}
use automatamain.Base.Float.{Fixed, fixed_float, Fixed-IsFloat}
use automatamain.Exit.Examples.{whole}
use automatamain.Score.Examples.{limits}
use automatamain.Learning.{
  FeatureThresholdPatch, TradeBatchStats, LearningConfig, Engine, Answers, merge_thresholds,
  learning_rounds,
}
use automatamain.Learning.Bounds.{IsOrdered, IsSafe, learned-IsSafe}
use automatamain.Learning.Rounds.{apply_all, IsLosing, IsWinning, buyers_windup}

abbrev losing : TradeBatchStats Fixed
losing = record {
  n = 10;
  wins = 2;
  win_smart = whole 3;
  loss_smart = whole 1;
  win_buyers = whole 4;
  loss_buyers = whole 8;
}

abbrev winning : TradeBatchStats Fixed
winning = record losing { wins = 9 }

abbrev unchanged : FeatureThresholdPatch Fixed
unchanged = record {
  buyers_low = none;
  volume_ok_sol_mult = none;
  smart_wallet_3plus_min = none;
  smart_wallet_1plus_min = none;
}

abbrev engine : Engine Fixed
engine = record {
  overrides = record { patch = unchanged; last_optimized_unix = 0; last_sample_size = 0 };
  last_trade_count_at_optimize = 0;
}

abbrev config : LearningConfig
config = record { analyze_every_trades = 5; min_trades_for_update = pos 5 }

abbrev answers : Answers Fixed
answers = record { count = some 10; stats = some losing; saved = true; now_unix = 90_000 }

limits-IsOrdered : IsOrdered limits
limits-IsOrdered = record {
  some_buyers = omega arith;
  buyers = omega arith;
  u64 = omega arith;
  some_smart = omega arith;
  smart = omega arith;
}

learned-IsSafe_example :
    IsSafe limits (
      merge_thresholds limits (learning_rounds config limits (answers ∷ []) engine).overrides.patch)
learned-IsSafe_example =
    learned-IsSafe ⦃law = Fixed-IsFloat⦄ config limits (answers ∷ []) engine limits-IsOrdered
      (λ m e. absurd (ground (arith, e)))

losing-IsLosing : IsLosing losing
losing-IsLosing = record { enough = omega arith; low = refl }

winning-IsWinning : IsWinning winning
winning-IsWinning = record { enough = omega arith; high = refl }

buyers_windup_example :
    (merge_thresholds limits
      (apply_all limits ((losing ∷ losing ∷ losing ∷ []) ++ winning ∷ []) unchanged)).buyers_low
    ≡ min (limits.buyers_low + 2) (max (limits.buyers_mid - 1) 1)
buyers_windup_example =
    buyers_windup ⦃law = Fixed-IsFloat⦄ limits (losing ∷ losing ∷ losing ∷ []) (winning ∷ [])
      unchanged (losing-IsLosing, (losing-IsLosing, (losing-IsLosing, tt))) (winning-IsWinning, tt)
      refl (omega arith) (omega arith)

-- A patch may take the lower bucket of smart wallets to none.
no_smart_wallet :
    (merge_thresholds limits (record unchanged {
      smart_wallet_3plus_min = some 3;
      smart_wallet_1plus_min = some 0;
    })).smart_wallet_1plus_min
    ≡ 0
unfolding merge_thresholds
no_smart_wallet = refl
