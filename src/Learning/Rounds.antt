-- ===== src/Learning/Rounds.antt =====
-- What the least number of buyers does over many batches.
use automatamain.Base.{
  ℕ, ◌+◌, ◌-◌, ◌^◌, ◌≤◌, ◌<◌, min, max, ◌≡◌, refl, arith, true, none, List, [], ◌∷◌, ◌++◌, length,
  All,
}
use automatamain.Base.Int.{pos}
use automatamain.Base.Float.{Float, IsFloat, flt, milli}
use automatamain.Score.Types.{FeatureThresholds}
use automatamain.Learning.{
  FeatureThresholdPatch, TradeBatchStats, unwrap_or, saturating_add, winrate_of, merge_thresholds,
  apply_heuristics,
}

module _ {F : Type 0} ⦃fl : Float F⦄ where
  open fl use {fle}

  -- The patch after one batch after another.
  abbrev pub apply_all :
      FeatureThresholds F
      → List (TradeBatchStats F)
      → FeatureThresholdPatch F
      → FeatureThresholdPatch F
  apply_all base [] patch = patch
  apply_all base (stats ∷ rest) patch = apply_all base rest (apply_heuristics base stats patch)

  pub record IsLosing (stats : TradeBatchStats F) : Type 0 where
    pub enough : 2 ≤ stats.n
    pub low : flt (winrate_of stats) (milli 480) ≡ true

  pub record IsWinning (stats : TradeBatchStats F) : Type 0 where
    pub enough : 2 ≤ stats.n
    pub high : flt (milli 620) (winrate_of stats) ≡ true

  abbrev target : FeatureThresholds F → FeatureThresholdPatch F → ℕ
  target base patch = unwrap_or patch.buyers_low base.buyers_low

  losing-target :
      (base : FeatureThresholds F) (stats : TradeBatchStats F) (patch : FeatureThresholdPatch F)
      → IsLosing stats
      → target base (apply_heuristics base stats patch) ≡ saturating_add (target base patch) 1
  unfolding apply_heuristics
  losing-target base stats patch v = ground (arith, v)

  losing_targets :
      (base : FeatureThresholds F) (batches : List (TradeBatchStats F))
      (patch : FeatureThresholdPatch F)
      → All IsLosing batches
      → target base patch + length batches < 2 ^ 64
      → target base (apply_all base batches patch) ≡ target base patch + length batches
  losing_targets base [] patch v h = omega arith
  losing_targets base (stats ∷ rest) patch (v, vs) h =
      let next = apply_heuristics base stats patch in
      ground (arith, h, losing-target base stats patch v, losing_targets base rest next vs)

  apply-append :
      (base : FeatureThresholds F) (xs ys : List (TradeBatchStats F))
      (patch : FeatureThresholdPatch F)
      → apply_all base (xs ++ ys) patch ≡ apply_all base ys (apply_all base xs patch)
  apply-append base [] ys patch = refl
  apply-append base (x ∷ xs) ys patch = apply-append base xs ys (apply_heuristics base x patch)

  -- A target over the clamp is cut to it.
  merge-target :
      (base : FeatureThresholds F) (patch : FeatureThresholdPatch F)
      → base.buyers_low + 2 ≤ target base patch
      → target base patch < 2 ^ 64
      → (merge_thresholds base patch).buyers_low
        ≡ min (base.buyers_low + 2) (max (base.buyers_mid - 1) 1)
  unfolding merge_thresholds
  merge-target base patch far u64 = ground (arith, far, u64)

module _ {F : Type 0} ⦃fl : Float F⦄ ⦃law : IsFloat F⦄ where
  open fl use {fle}

  winning-target :
      (base : FeatureThresholds F) (stats : TradeBatchStats F) (patch : FeatureThresholdPatch F)
      → IsWinning stats
      → target base (apply_heuristics base stats patch) ≡ max (target base patch - 1) 1
  unfolding apply_heuristics
  winning-target base stats patch v = ground (
    arith,
    v,
    law.fle_trans (milli 620) (winrate_of stats) (milli 480),
    law.lit_gt (pos 620_000) (pos 480_000) refl (omega arith) (omega arith),
  )

  winning_targets :
      (base : FeatureThresholds F) (batches : List (TradeBatchStats F))
      (patch : FeatureThresholdPatch F)
      → All IsWinning batches
      → length batches < target base patch
      → target base (apply_all base batches patch) ≡ target base patch - length batches
  winning_targets base [] patch v h = omega arith
  winning_targets base (stats ∷ rest) patch (v, vs) h =
      let next = apply_heuristics base stats patch in
      ground (arith, h, winning-target base stats patch v, winning_targets base rest next vs)

  -- After batches with a winrate below 0.48, from a patch that leaves the least number of buyers, as
  -- many batches with a winrate over 0.62, less two, change nothing: the merged number stays at the top
  -- of its range, two over the operator's or one below the middle count.
  pub buyers_windup :
      (base : FeatureThresholds F) (losing winning : List (TradeBatchStats F))
      (patch : FeatureThresholdPatch F)
      → All IsLosing losing
      → All IsWinning winning
      → patch.buyers_low ≡ none
      → base.buyers_low + length losing < 2 ^ 64
      → length winning + 2 ≤ length losing
      → (merge_thresholds base (apply_all base (losing ++ winning) patch)).buyers_low
        ≡ min (base.buyers_low + 2) (max (base.buyers_mid - 1) 1)
  buyers_windup base losing winning patch l w fresh u64 fewer =
      let mid = apply_all base losing patch in
      let up = losing_targets base losing patch l (ground (arith, fresh, u64)) in
      let down = winning_targets base winning mid w (ground (arith, up, fresh, fewer)) in
      rw (apply-append base losing winning patch) (
        merge-target base (apply_all base winning mid) (ground (arith, up, down, fresh, fewer))
          (ground (arith, up, down, fresh, fewer, u64)))
