-- ===== src/Exit/Bounds.antt =====
-- Bounds of what the exit engine computes: the window, the live score, the trail.
use automatamain.Base.{
  ℕ, ◌+◌, ◌*◌, ◌≤◌, ◌≡◌, ◌⊎◌, ◌↔◌, arith, Bool, true, false, ◌&&◌, if◌then◌else◌, max,
}
use automatamain.Base.Int.{ℤ, pos, neg, ◌+ℤ◌, ◌≤ℤ◌, leb_ℤ, pos_part, neg_part}
use automatamain.Base.Float.{Float, IsFloat, flt, fmin, fmax, int}
use automatamain.Exit.Types.{
  Position, SmartBuyConfig, LiveMetrics, ExitProfile, weak, neutral, strong, runner, PositionPhase,
  ExitEngineV4Config, distribution,
}
use automatamain.Exit.Metrics.{calculate_live_score, points}
use automatamain.Exit.Rules.{
  adaptive_trailing, profile_floor, transition_position_phase, is_distribution,
}
use automatamain.Exit.Window.{
  time_kill_window_profile, TkTier, fixed_window, strong_window, weak_window, neutral_window,
}

-- The range of seconds of each tier.
pub TierRange : TkTier → ℕ → ℕ → Type 0
TierRange strong_window fixed n = (45 ≤ n) × (n ≤ 80)
TierRange weak_window fixed n = (18 ≤ n) × (n ≤ 28)
TierRange neutral_window fixed n = (20 ≤ n) × (n ≤ 45)
TierRange fixed_window fixed n = n ≡ fixed

-- From -lo to hi.
abbrev pub IsWithin : ℕ → ℕ → ℤ → Type 0
IsWithin lo hi z = (neg_part z ≤ lo) × (pos_part z ≤ hi)

add-IsWithin :
    {a b c d : ℕ} (x y : ℤ) → IsWithin a b x → IsWithin c d y → IsWithin (a + c) (b + d) (x +ℤ y)
unfolding ◌+ℤ◌
add-IsWithin x y h k = ground arith

bonus : (n : ℕ) (b : Bool) → IsWithin 0 n (points b (pos n))
bonus n b = ground arith

bonuses : (n k : ℕ) (b c : Bool) → IsWithin 0 (max n k) (if b then pos n else points c (pos k))
bonuses n k b c = ground arith

malus : (n : ℕ) (b : Bool) → IsWithin n 0 (points b (neg n))
malus n b = ground arith

maluses : (n k : ℕ) (b c : Bool) → IsWithin (max n k) 0 (if b then neg n else points c (neg k))
maluses n k b c = ground arith

pub profile_min : ExitProfile → ℕ
profile_min weak = 14
profile_min neutral = 18
profile_min strong = 22
profile_min runner = 38

module _ {F : Type 0} ⦃fl : Float F⦄ where
  open fl use {fle}

  -- The window of the time kill is within the range of its tier, whatever is configured, and it is
  -- the configured one where it does not adapt.
  pub window_within_range :
      (cfg : SmartBuyConfig F) (p : Position F) (profit mcap : F) (held : ℕ)
      → let (secs, tier) = time_kill_window_profile cfg p profit mcap held in
        TierRange tier cfg.time_kill_secs secs
  unfolding time_kill_window_profile TierRange
  window_within_range cfg p profit mcap held = ground arith

  -- The live score is from -14 to 11.
  score_bounds : (m : LiveMetrics F) → IsWithin 14 11 (calculate_live_score m)
  unfolding calculate_live_score
  score_bounds m =
      add-IsWithin _ _
        (add-IsWithin _ _
          (add-IsWithin _ _
            (add-IsWithin _ _
              (add-IsWithin _ _
                (add-IsWithin _ _
                  (add-IsWithin _ _
                    (add-IsWithin _ _
                      (add-IsWithin _ _ (add-IsWithin _ _ (bonus 2 _) (bonuses 3 2 _ _))
                        (bonuses 2 1 _ _))
                      (bonus 2 _))
                    (bonus 1 _))
                  (bonus 1 _))
                (malus 2 _))
              (maluses 3 1 _ _))
            (malus 4 _))
          (malus 2 _))
        (malus 3 _)

  -- Leaving a distribution for an expansion is a re-expansion, which has its own score and profit;
  -- otherwise the phase is a distribution exactly when the momentum decays or the score is low.
  pub distribution_iff :
      (phase : PositionPhase) (score : ℤ) (decay : Bool) (profit : F) (c : ExitEngineV4Config F)
      → (c.re_expansion_enabled
          && is_distribution phase
          && leb_ℤ c.re_expansion_min_score score
          && fle c.re_expansion_min_profit_pct profit)
        ≡ false
      → (transition_position_phase phase score decay profit c ≡ distribution)
        ↔ ((decay ≡ true) ⊎ (score ≤ℤ c.phase_distribution_max_score))
  unfolding transition_position_phase is_distribution
  distribution_iff phase score decay profit c h = (ground arith, ground arith)

  module _ (laws : IsFloat F) where
    open laws use {fle_refl, fle_trans, fle_total, lit_le, lit_gt}

    max_min_within :
        (d lo top cap : F)
        → fle d top ≡ true
        → fle lo top ≡ true
        → fle top cap ≡ true
        → (fle lo (fmin (fmax d lo) cap) ≡ true) × (fle (fmin (fmax d lo) cap) top ≡ true)
    max_min_within d lo top cap dt lt tc = ground (
      arith,
      fle_refl d top dt,
      fle_refl lo top lt,
      fle_refl top cap tc,
      fle_total d lo,
      fle_trans lo top cap lt tc,
      fle_trans d top cap dt tc,
    )

    lit_up_to : (n m : ℕ) → n ≤ m → fle (int n) (int m) ≡ true
    lit_up_to n m h = lit_le (pos (n * 1_000_000)) (pos (m * 1_000_000)) (omega arith)

    doc_within :
        (a b c : Bool)
        → fle (if a then int 40 else if b then int 24 else if c then int 18 else int 14) (int 40)
          ≡ true
    doc_within a b c = ground (
      arith,
      lit_up_to 40 40 (omega arith),
      lit_up_to 24 40 (omega arith),
      lit_up_to 18 40 (omega arith),
      lit_up_to 14 40 (omega arith),
    )

    trail :
        (n : ℕ) (score : ℤ) (profit : F)
        → n ≤ 40
        → let doc : F =
            if leb_ℤ (pos 15) score
            then int 40
            else if leb_ℤ (pos 11) score
            then int 24
            else if flt (int 50) profit
            then int 18
            else int 14 in
          let t = fmin (fmax doc (int n)) (int 45) in
          (fle (int n) t ≡ true) × (fle t (int 40) ≡ true)
    trail n score profit h =
        max_min_within _ (int n) (int 40) (int 45) (doc_within _ _ _) (lit_up_to n 40 h)
          (lit_up_to 40 45 (omega arith))

    -- Whatever the score and the profit, the trail is at most 40 per cent, and at least 38 for a
    -- runner, 22 for a strong position, 18 for a neutral and 14 for a weak one.
    pub trailing_range :
        (profile : ExitProfile) (score : ℤ) (profit : F)
        → let t = adaptive_trailing profile score profit in
          (fle (int (profile_min profile)) t ≡ true) × (fle t (int 40) ≡ true)
    unfolding adaptive_trailing profile_min profile_floor
    trailing_range weak score profit = trail 14 score profit (omega arith)
    trailing_range neutral score profit = trail 18 score profit (omega arith)
    trailing_range strong score profit = trail 22 score profit (omega arith)
    trailing_range runner score profit = trail 38 score profit (omega arith)
