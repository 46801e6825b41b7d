-- ===== src/Score/Engine/Cases.antt =====
-- Both engines end in `finish_breakdown`: what holds of that holds of the score.
use automatamain.Base.{Bool, true, false, if◌then◌else◌}
use automatamain.Base.Float.{Float}
use automatamain.Score.Types.{TokenFeatures, FeatureThresholds, ScoringConfig}
use automatamain.Score.Engine.{
  Board, ScoreBreakdown, score, score_legacy, score_v2, finish_breakdown, board_legacy, board_v2,
}

module _ {F : Type 0} ⦃fl : Float F⦄ where
  either_breakdown :
      (Q : ScoreBreakdown F → Type 0) (c : Bool) (x y : ScoreBreakdown F)
      → Q x
      → Q y
      → Q (if c then x else y)
  either_breakdown Q true x y h k = h
  either_breakdown Q false x y h k = k

  pub score_cases :
      (cfg : ScoringConfig F) (f : TokenFeatures F) (t : FeatureThresholds F)
      (Q : ScoreBreakdown F → Type 0)
      → Q (finish_breakdown cfg f (board_legacy cfg f))
      → Q (finish_breakdown cfg f (board_v2 cfg f t))
      → Q (score cfg f t)
  unfolding score score_legacy score_v2
  score_cases cfg f t Q h k =
      either_breakdown Q cfg.legacy_scoring (score_legacy cfg f) (score_v2 cfg f t) h k

  pub score_finish :
      (cfg : ScoringConfig F) (f : TokenFeatures F) (t : FeatureThresholds F)
      (Q : ScoreBreakdown F → Type 0)
      → ((board : Board) → Q (finish_breakdown cfg f board))
      → Q (score cfg f t)
  score_finish cfg f t Q h = score_cases cfg f t Q (h (board_legacy cfg f)) (h (board_v2 cfg f t))
