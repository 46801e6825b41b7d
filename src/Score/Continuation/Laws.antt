-- ===== src/Score/Continuation/Laws.antt =====
-- What the continuation polls promise.
use automatamain.Base.{ℕ, All, inl, inr, ◌≡◌, ◌↔◌, ◌⊎◌, ◌≤◌, ◌<◌, arith, true, none, List, [], ◌∷◌}
use automatamain.Base.Float.{Float, IsFloat, flt}
use automatamain.Score.Continuation.{
  EarlyTapePoint, count_upticks, last, continuation_strength, evaluate_continuation_second_look,
}

module _ {F : Type 0} ⦃fl : Float F⦄ where
  open fl use {fle}

  -- The second look passes exactly where something recovers: the market value stands above its
  -- reference, or it rose in a slice, or a buyer is new.
  pub second_look_iff :
      (ref : F) (baseline : ℕ) (p q : EarlyTapePoint F) (rest : List (EarlyTapePoint F))
      → (evaluate_continuation_second_look ref baseline (p ∷ q ∷ rest) ≡ none) ↔ (
          (flt ref (last p (q ∷ rest)).mcap_sol ≡ true)
          ⊎ (1 ≤ count_upticks p (q ∷ rest))
          ⊎ (baseline < (last p (q ∷ rest)).buyer_count))
  unfolding evaluate_continuation_second_look continuation_strength
  second_look_iff ref baseline p q rest = (ground arith, ground arith)

  module _ (laws : IsFloat F) where
    open laws use {fle_refl, fle_trans, fle_total}

    -- Market values that are numbers.
    abbrev pub AreNumbers : List (EarlyTapePoint F) → Type 0
    AreNumbers ps = All (λ q. fle q.mcap_sol q.mcap_sol ≡ true) ps

    no_uptick_step :
        (p q : EarlyTapePoint F) (rest : List (EarlyTapePoint F))
        → fle p.mcap_sol p.mcap_sol ≡ true
        → fle q.mcap_sol q.mcap_sol ≡ true
        → count_upticks p (q ∷ rest) ≡ 0
        → (fle q.mcap_sol p.mcap_sol ≡ true) × (count_upticks q rest ≡ 0)
    unfolding count_upticks
    no_uptick_step p q rest hp hq e = ground (arith, fle_total p.mcap_sol q.mcap_sol hp hq)

    -- A tape of numbers with no rising slice does not close above its start.
    no_uptick_no_rise :
        (p : EarlyTapePoint F) (rest : List (EarlyTapePoint F))
        → AreNumbers (p ∷ rest)
        → count_upticks p rest ≡ 0
        → fle (last p rest).mcap_sol p.mcap_sol ≡ true
    unfolding last
    no_uptick_no_rise p [] (h, hs) e = h
    no_uptick_no_rise p (q ∷ rest) (h, (hq, hs)) e =
        let (down, flat) = no_uptick_step p q rest h hq e in
        fle_trans (last q rest).mcap_sol q.mcap_sol p.mcap_sol
          (no_uptick_no_rise q rest (hq, hs) flat) down

    -- The second look at a tape of numbers passes as soon as the market value has risen over the
    -- window, whatever its reference and its buyers.
    rise_passes_second_look :
        (ref : F) (baseline : ℕ) (p q : EarlyTapePoint F) (rest : List (EarlyTapePoint F))
        → AreNumbers (p ∷ q ∷ rest)
        → flt p.mcap_sol (last p (q ∷ rest)).mcap_sol ≡ true
        → evaluate_continuation_second_look ref baseline (p ∷ q ∷ rest) ≡ none
    rise_passes_second_look ref baseline p q rest numbers rise =
        let some_uptick : 1 ≤ count_upticks p (q ∷ rest) =
          ground (arith, no_uptick_no_rise p (q ∷ rest) numbers) in
        (second_look_iff ref baseline p q rest).1 (inr (inl some_uptick))
