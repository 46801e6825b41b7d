-- ===== src/Learning/Bounds.antt =====
-- The thresholds that a patch may give.
use automatamain.Base.{
  ◌+◌, ◌^◌, ◌≤◌, ◌<◌, ◌≡◌, ◌⊎◌, inl, inr, arith, true, some, List, [], ◌∷◌, Option-cases,
}
use automatamain.Base.Int.{pos}
use automatamain.Base.Float.{Float, IsFloat, fmax, clamp, int, milli}
use automatamain.Score.Types.{FeatureThresholds}
use automatamain.Learning.{
  FeatureThresholdPatch, TradeBatchStats, unwrap_or, LearningConfig, Engine, Answers,
  merge_thresholds, apply_heuristics, learning_round, learning_rounds,
}

module _ {F : Type 0} where
  -- The thresholds of the operator, in the order that their comments ask for.
  pub record IsOrdered (base : FeatureThresholds F) : Type 0 where
    pub some_buyers : 1 ≤ base.buyers_low
    pub buyers : base.buyers_low < base.buyers_mid
    pub u64 : base.buyers_mid < 2 ^ 64
    pub some_smart : 1 ≤ base.smart_wallet_1plus_min
    pub smart : base.smart_wallet_1plus_min < base.smart_wallet_3plus_min

module _ {F : Type 0} ⦃fl : Float F⦄ where
  open fl use {fle, fmul}

  -- A multiplier of the volume that the merge may take.
  pub record IsMult (base t : FeatureThresholds F) (m : F) : Type 0 where
    pub low : fle (milli 850) m ≡ true
    pub high : fle m (milli 1150) ≡ true
    pub volume : t.volume_ok_sol ≡ fmax (fmul base.volume_ok_sol m) (int 1)

  -- The merged thresholds next to those of the operator.
  pub record IsSafe (base t : FeatureThresholds F) : Type 0 where
    pub some_buyers : 1 ≤ t.buyers_low
    pub buyers : t.buyers_low < base.buyers_mid
    pub not_far_below : base.buyers_low ≤ t.buyers_low + 2
    pub not_far_above : t.buyers_low ≤ base.buyers_low + 2
    pub smart : t.smart_wallet_1plus_min < t.smart_wallet_3plus_min
    pub smart_range :
        (t.smart_wallet_3plus_min ≡ base.smart_wallet_3plus_min)
        ⊎ ((2 ≤ t.smart_wallet_3plus_min) × (t.smart_wallet_3plus_min ≤ 8))
    pub volume : (t.volume_ok_sol ≡ base.volume_ok_sol) ⊎ ((m : F) × IsMult base t m)
    pub others : t ≡ record base {
      buyers_low = t.buyers_low;
      volume_ok_sol = t.volume_ok_sol;
      smart_wallet_3plus_min = t.smart_wallet_3plus_min;
      smart_wallet_1plus_min = t.smart_wallet_1plus_min;
    }

  -- The multiplier of a patch is a number.
  abbrev pub IsNumber : FeatureThresholdPatch F → Type 0
  IsNumber patch = (m : F) → patch.volume_ok_sol_mult ≡ some m → fle m m ≡ true

module _ {F : Type 0} ⦃fl : Float F⦄ ⦃law : IsFloat F⦄ where
  open fl use {fle, fmul}

  clamp_range :
      (m : F)
      → fle m m ≡ true
      → (fle (milli 850) (clamp m (milli 850) (milli 1150)) ≡ true)
        × (fle (clamp m (milli 850) (milli 1150)) (milli 1150) ≡ true)
  clamp_range m number = ground (
    arith,
    number,
    law.lit_le (pos 850_000) (pos 850_000) (omega arith),
    law.lit_le (pos 850_000) (pos 1_150_000) (omega arith),
    law.lit_le (pos 1_150_000) (pos 1_150_000) (omega arith),
    law.fle_total m (milli 850),
    law.fle_total m (milli 1150),
  )

  merge_thresholds-IsSafe :
      (base : FeatureThresholds F) (patch : FeatureThresholdPatch F)
      → IsOrdered base
      → IsNumber patch
      → IsSafe base (merge_thresholds base patch)
  unfolding merge_thresholds
  merge_thresholds-IsSafe base patch v number = record {
    some_buyers = ground (arith, v);
    buyers = ground (arith, v);
    not_far_below = ground (arith, v);
    not_far_above = ground (arith, v);
    smart = ground (arith, v);
    smart_range = ground arith;
    volume = elim (Option-cases patch.volume_ok_sol_mult) [
      | inl none_set ↦ inl (ground (arith, none_set))
      | inr (m, is_set) ↦
          let range = clamp_range m (number m is_set) in
          inr (
            clamp m (milli 850) (milli 1150),
            record { low = range.0; high = range.1; volume = ground (arith, is_set) },
          )
    ];
    others = ground arith;
  }

  heuristics-IsNumber :
      (base : FeatureThresholds F) (stats : TradeBatchStats F) (patch : FeatureThresholdPatch F)
      → IsNumber patch
      → IsNumber (apply_heuristics base stats patch)
  unfolding apply_heuristics
  heuristics-IsNumber base stats patch number m e =
      let raised = fmul (unwrap_or patch.volume_ok_sol_mult (int 1)) (milli 1050) in
      ground (
        arith,
        e,
        number m,
        law.lit_le (pos 1_150_000) (pos 1_150_000) (omega arith),
        law.fle_refl raised (milli 1150),
        law.fle_refl (milli 1150) raised,
      )

  round-IsNumber :
      (cfg : LearningConfig) (base : FeatureThresholds F) (answers : Answers F) (e : Engine F)
      → IsNumber e.overrides.patch
      → IsNumber (learning_round cfg base answers e).overrides.patch
  unfolding learning_round
  round-IsNumber cfg base answers e number = elim (Option-cases answers.stats) [
    | inl none_read ↦ ground (arith, none_read, number)
    | inr (stats, read) ↦
        ground (arith, read, number, heuristics-IsNumber base stats e.overrides.patch number)
  ]

  rounds-IsNumber :
      (cfg : LearningConfig) (base : FeatureThresholds F) (rounds : List (Answers F)) (e : Engine F)
      → IsNumber e.overrides.patch
      → IsNumber (learning_rounds cfg base rounds e).overrides.patch
  rounds-IsNumber cfg base [] e number = number
  rounds-IsNumber cfg base (answers ∷ rest) e number =
      rounds-IsNumber cfg base rest (learning_round cfg base answers e)
        (round-IsNumber cfg base answers e number)

  -- Over any rounds of the optimizer, whatever the database and the disk answer, from a file whose
  -- multiplier is a number if it has one, the merged thresholds stay next to ordered thresholds of the
  -- operator: the least buyers are between one and the middle count, within two of the operator's; the
  -- smart buckets are in order, and the upper one is the operator's or between 2 and 8; the volume is
  -- the operator's, or that times a multiplier between 0.85 and 1.15 and at least 1; all else is the
  -- operator's.
  pub learned-IsSafe :
      (cfg : LearningConfig) (base : FeatureThresholds F) (rounds : List (Answers F)) (e : Engine F)
      → IsOrdered base
      → IsNumber e.overrides.patch
      → IsSafe base (merge_thresholds base (learning_rounds cfg base rounds e).overrides.patch)
  learned-IsSafe cfg base rounds e v number =
      merge_thresholds-IsSafe base (learning_rounds cfg base rounds e).overrides.patch v
        (rounds-IsNumber cfg base rounds e number)
