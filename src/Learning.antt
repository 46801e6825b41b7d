-- ===== src/Learning.antt =====
-- The learned overrides of src/learning/: the thresholds that a patch gives (merge.rs) and the rounds
-- of the engine that writes the patch (engine.rs). What the database and the file system answer is an
-- argument; the counts of its trades are not negative.
pub mod Bounds
pub mod Rounds
pub mod Tests
use automatamain.Base.{
  ℕ, ◌+◌, ◌-◌, ◌%◌, ◌^◌, min, max, Bool, true, false, ◌&&◌, Option, none, some, List, [], ◌∷◌,
  if◌then◌else◌, ltb,
}
use automatamain.Base.Int.{ℤ, pos, ◌-ℤ◌, ltb_ℤ, wrap}
use automatamain.Base.Float.{Float, flt, fmax, fmin, clamp, int, milli}
use automatamain.Score.Types.{FeatureThresholds}

pub record FeatureThresholdPatch (F : Type 0) : Type 0 where
  pub buyers_low : Option ℕ
  pub volume_ok_sol_mult : Option F
  pub smart_wallet_3plus_min : Option ℕ
  pub smart_wallet_1plus_min : Option ℕ

pub record LearningOverridesFile (F : Type 0) : Type 0 where
  pub patch : FeatureThresholdPatch F
  pub last_optimized_unix : ℕ
  pub last_sample_size : ℕ

-- The fields of the batch that the engine reads.
pub record TradeBatchStats (F : Type 0) : Type 0 where
  pub n : ℕ
  pub wins : ℕ
  pub win_smart : F
  pub loss_smart : F
  pub win_buyers : F
  pub loss_buyers : F

pub record LearningConfig : Type 0 where
  pub analyze_every_trades : ℕ
  pub min_trades_for_update : ℤ

-- What the engine keeps between its rounds, and what it publishes.
pub record Engine (F : Type 0) : Type 0 where
  pub overrides : LearningOverridesFile F
  pub last_trade_count_at_optimize : ℕ

-- What one round is answered: the count, the statistics, whether the file is saved, and the time.
pub record Answers (F : Type 0) : Type 0 where
  pub count : Option ℕ
  pub stats : Option (TradeBatchStats F)
  pub saved : Bool
  pub now_unix : ℕ

abbrev pub unwrap_or : {A : Type 0} → Option A → A → A
unwrap_or none x = x
unwrap_or (some y) x = y

-- `saturating_add` on u64.
abbrev pub saturating_add : ℕ → ℕ → ℕ
saturating_add a b = min (a + b) (2 ^ 64 - 1)

-- `Ord::clamp`.
abbrev pub clamp_ℕ : ℕ → ℕ → ℕ → ℕ
clamp_ℕ x lo hi = if ltb x lo then lo else if ltb hi x then hi else x

module _ {F : Type 0} where
  abbrev pub merge_buyers :
      FeatureThresholds F → Option ℕ → FeatureThresholds F → FeatureThresholds F
  merge_buyers base none t = t
  merge_buyers base (some v) t =
      let lo = max (base.buyers_low - 2) 1 in
      let hi = min (saturating_add base.buyers_low 2) (max (base.buyers_mid - 1) 1) in
      record t { buyers_low = min (max v lo) hi }

  abbrev pub merge_smart :
      FeatureThresholds F → Option ℕ → Option ℕ → FeatureThresholds F → FeatureThresholds F
  merge_smart base (some v) low_min t =
      let high = clamp_ℕ v 2 8 in
      record t {
        smart_wallet_3plus_min = high;
        smart_wallet_1plus_min =
            min (unwrap_or low_min base.smart_wallet_1plus_min) (max (high - 1) 1);
      }
  merge_smart base none (some low) t = record t {
    smart_wallet_1plus_min = clamp_ℕ low 1 (max (base.smart_wallet_3plus_min - 1) 1);
  }
  merge_smart base none none t = t

module _ {F : Type 0} ⦃fl : Float F⦄ where
  open fl use {fle, fadd, fmul, fdiv, of_ℕ}

  abbrev pub merge_volume :
      FeatureThresholds F → Option F → FeatureThresholds F → FeatureThresholds F
  merge_volume base none t = t
  merge_volume base (some m) t = record t {
    volume_ok_sol = fmax (fmul base.volume_ok_sol (clamp m (milli 850) (milli 1150))) (int 1);
  }

  unfoldable pub merge_thresholds :
      FeatureThresholds F → FeatureThresholdPatch F → FeatureThresholds F
  merge_thresholds base patch =
      merge_smart base patch.smart_wallet_3plus_min patch.smart_wallet_1plus_min
        (merge_volume base patch.volume_ok_sol_mult (merge_buyers base patch.buyers_low base))

  abbrev pub winrate_of : TradeBatchStats F → F
  winrate_of stats = fdiv (of_ℕ stats.wins) (of_ℕ stats.n)

  abbrev pub adjust_buyers :
      FeatureThresholds F → TradeBatchStats F → FeatureThresholdPatch F → FeatureThresholdPatch F
  adjust_buyers base stats patch =
      let current = unwrap_or patch.buyers_low base.buyers_low in
      if flt (winrate_of stats) (milli 480)
      then record patch { buyers_low = some (saturating_add current 1) }
      else if flt (milli 620) (winrate_of stats)
      then record patch { buyers_low = some (max (current - 1) 1) }
      else patch

  abbrev pub adjust_smart :
      FeatureThresholds F → TradeBatchStats F → FeatureThresholdPatch F → FeatureThresholdPatch F
  adjust_smart base stats patch =
      let current = unwrap_or patch.smart_wallet_3plus_min base.smart_wallet_3plus_min in
      if flt (winrate_of stats) (milli 520)
        && flt (fadd stats.loss_smart (milli 750)) stats.win_smart
      then record patch { smart_wallet_3plus_min = some (min ((current + 1) % 2 ^ 32) 8) }
      else patch

  abbrev pub adjust_volume : TradeBatchStats F → FeatureThresholdPatch F → FeatureThresholdPatch F
  adjust_volume stats patch =
      if flt (int 0) stats.loss_buyers
        && flt (int 0) stats.win_buyers
        && flt (fadd stats.win_buyers (milli 1500)) stats.loss_buyers
      then record patch {
        volume_ok_sol_mult =
            some
              (fmin (fmul (unwrap_or patch.volume_ok_sol_mult (int 1)) (milli 1050)) (milli 1150));
      }
      else patch

  unfoldable pub apply_heuristics :
      FeatureThresholds F → TradeBatchStats F → FeatureThresholdPatch F → FeatureThresholdPatch F
  apply_heuristics base stats patch =
      if ltb stats.n 2
      then patch
      else adjust_volume stats (adjust_smart base stats (adjust_buyers base stats patch))

  -- The file after the heuristics, if it is saved.
  abbrev pub optimize :
      LearningConfig → FeatureThresholds F → ℕ → TradeBatchStats F → Bool → ℕ → Engine F → Engine F
  optimize cfg base count stats saved now e =
      if ltb_ℤ (pos stats.n) cfg.min_trades_for_update
      then record e { last_trade_count_at_optimize = count }
      else if saved
      then record {
        overrides = record {
          patch = apply_heuristics base stats e.overrides.patch;
          last_optimized_unix = now;
          last_sample_size = stats.n;
        };
        last_trade_count_at_optimize = count;
      }
      else e

  -- One turn of the loop of `spawn_learning_engine`.
  unfoldable pub learning_round :
      LearningConfig → FeatureThresholds F → Answers F → Engine F → Engine F
  learning_round cfg base answers e = elim answers.count [
    | none ↦ e
    | some count ↦
        if ltb_ℤ (pos count -ℤ pos e.last_trade_count_at_optimize)
          (wrap 64 (pos cfg.analyze_every_trades))
        then e
        else elim answers.stats [
          | none ↦ e
          | some stats ↦ optimize cfg base count stats answers.saved answers.now_unix e
        ]
  ]

  abbrev pub learning_rounds :
      LearningConfig → FeatureThresholds F → List (Answers F) → Engine F → Engine F
  learning_rounds cfg base [] e = e
  learning_rounds cfg base (answers ∷ rest) e =
      learning_rounds cfg base rest (learning_round cfg base answers e)
