-- ===== src/Score/Engine/Tally.antt =====
-- The total against the items, and which items exclude one another.
use automatamain.Base.{
  ℕ, ◌+◌, ◌-◌, ◌*◌, ◌%◌, ◌^◌, ◌<◌, ◌≡◌, arith, Bool, true, false, List, [], ◌∷◌, ◌++◌,
  if◌then◌else◌, All, ◌≢◌, Bool-cases, refl, ap, ◌∙◌, sym, inl, inr, ◌==◌, ltb,
}
use automatamain.Base.Int.{
  ℤ, pos, neg, pos_part, neg_part, ◌+ℤ◌, wrap, +ℤ_parts, eq_of_parts, int_laws,
}
use automatamain.Base.Float.{Float}
use automatamain.Score.Types.{
  Item, TokenFeatures, FeatureThresholds, ScoringConfig, ScoringWeights, DevCategory, dev_a_plus,
  dev_a, bad,
}
use automatamain.Score.Engine.{
  Board, add, add_if, add_either, add_ranker, add_smart, add_people, add_momentum_legacy,
  add_momentum_v2, add_volume, add_bundle_legacy, add_bundle_v2, apply_early_tape_scores,
  board_legacy, board_v2, score, finish_breakdown,
}
use automatamain.Score.Engine.Cases.{score_cases}

-- The exact sum of the points.
pub points_sum : List (Item × ℤ) → ℤ
unfolding ◌+ℤ◌
points_sum [] = pos 0
points_sum ((n, points) ∷ items) = points +ℤ points_sum items

-- The value before the sign is read.
residue : ℤ → ℕ
residue z = (pos_part z % 2 ^ 32 + 2 ^ 32 - neg_part z % 2 ^ 32) % 2 ^ 32

signed_residue : ℕ → ℤ
signed_residue m = if ltb (2 * m) (2 ^ 32) then pos m else neg (2 ^ 32 - m)

residue-add : (a b : ℤ) → residue (a +ℤ b) ≡ (residue a + residue b) % 2 ^ 32
unfolding residue
residue-add a b = omega (arith, +ℤ_parts a b)

residue-signed : (m : ℕ) → m < 2 ^ 32 → residue (signed_residue m) ≡ m
unfolding residue signed_residue
residue-signed m h = ground arith

wrap-residue : (a : ℤ) → wrap 32 a ≡ signed_residue (residue a)
unfolding residue signed_residue
wrap-residue a = refl

residue-wrap : (a : ℤ) → residue (wrap 32 a) ≡ residue a
unfolding residue
residue-wrap a = ap residue (wrap-residue a) ∙ residue-signed (residue a) (omega arith)

+ℤ_assoc : (a b c : ℤ) → a +ℤ (b +ℤ c) ≡ a +ℤ b +ℤ c
+ℤ_assoc a b c =
    eq_of_parts _ _
      (omega (arith, +ℤ_parts a (b +ℤ c), +ℤ_parts b c, +ℤ_parts a b, +ℤ_parts (a +ℤ b) c))

wrap-add : (a b : ℤ) → wrap 32 (wrap 32 a +ℤ b) ≡ wrap 32 (a +ℤ b)
wrap-add a b =
    let same : residue (wrap 32 a +ℤ b) ≡ residue (a +ℤ b) =
      omega (arith, residue-add (wrap 32 a) b, residue-add a b, residue-wrap a) in
    wrap-residue (wrap 32 a +ℤ b) ∙ ap signed_residue same ∙ sym (wrap-residue (a +ℤ b))

points_sum-snoc :
    (items : List (Item × ℤ)) (n : Item) (p : ℤ)
    → points_sum (items ++ (n, p) ∷ []) ≡ points_sum items +ℤ p
unfolding points_sum
points_sum-snoc [] n p = grind (arith, int_laws)
points_sum-snoc ((m, q) ∷ items) n p =
    let later = points_sum-snoc items n p in
    ap (λ s. q +ℤ s) later ∙ +ℤ_assoc q (points_sum items) p

-- The total is the sum of the points of the items, in 32 bits.
abbrev IsTallied : Board → Type 0
IsTallied (total, items) = total ≡ wrap 32 (points_sum items)

board_if : (P : Board → Type 0) (c : Bool) (x y : Board) → P x → P y → P (if c then x else y)
board_if P true x y h k = h
board_if P false x y h k = k

add-IsTallied : (n : Item) (p : ℤ) (board : Board) → IsTallied board → IsTallied (add n p board)
unfolding add
add-IsTallied n p (total, items) h =
    let exact : wrap 32 (total +ℤ p) ≡ wrap 32 (points_sum (items ++ (n, p) ∷ [])) =
      ap (λ z. wrap 32 (z +ℤ p)) h
      ∙ wrap-add (points_sum items) p
      ∙ ap (wrap 32) (sym (points_sum-snoc items n p)) in
    board_if IsTallied _ (total, items) (wrap 32 (total +ℤ p), items ++ (n, p) ∷ []) h exact

-- What every `add` keeps, the engines keep.
module _ (P : Board → Type 0)
    (keeps : (n : Item) (p : ℤ) (board : Board) → P board → P (add n p board)) where
  keeps_if : (c : Bool) (n : Item) (p : ℤ) (board : Board) → P board → P (add_if c n p board)
  unfolding add_if
  keeps_if true n p board h = keeps n p board h
  keeps_if false n p board h = h

  -- One of two items, the second under a test of its own.
  keeps_either :
      (c d : Bool) (n m : Item) (p q : ℤ) (board : Board)
      → P board
      → P (add_either c n p d m q board)
  unfolding add_either
  keeps_either true d n m p q board h = keeps n p board h
  keeps_either false d n m p q board h = keeps_if d m q board h

  keeps_ranker :
      (w : ScoringWeights) (c : DevCategory) (board : Board) → P board → P (add_ranker w c board)
  unfolding add_ranker
  keeps_ranker w dev_a_plus board h = keeps _ _ board h
  keeps_ranker w dev_a board h = keeps _ _ board h
  keeps_ranker w bad board h = keeps _ _ board h
  keeps_ranker w _ board h = h

  module _ {F : Type 0} ⦃fl : Float F⦄ (cfg : ScoringConfig F) (f : TokenFeatures F) where
    -- The developer and the smart wallets.
    keeps_smart : (t : FeatureThresholds F) (board : Board) → P board → P (add_smart cfg t f board)
    unfolding add_smart
    keeps_smart t board h = keeps_either _ _ _ _ _ _ _ (
        keeps_ranker _ _ _
          (board_if P _ _ _ (keeps_if _ _ _ _ h) (keeps_either _ _ _ _ _ _ _ (keeps_if _ _ _ _ h))))

    keeps_people :
        (t : FeatureThresholds F) (board : Board) → P board → P (add_people cfg t f board)
    unfolding add_people
    keeps_people t board h = keeps_if _ _ _ _ (
        board_if P _ _ _ (keeps _ _ _ (keeps_smart t board h))
          (keeps_either _ _ _ _ _ _ _ (keeps_smart t board h)))

    keeps_tape : (board : Board) → P board → P (apply_early_tape_scores cfg f board)
    unfolding apply_early_tape_scores
    keeps_tape board h = keeps_either _ _ _ _ _ _ _ (
        keeps_either _ _ _ _ _ _ _
          (keeps_if _ _ _ _ (keeps_if _ _ _ _ (keeps_either _ _ _ _ _ _ _ h))))

    keeps_legacy : P (pos 0, []) → P (board_legacy cfg f)
    unfolding board_legacy add_momentum_legacy add_volume add_bundle_legacy
    keeps_legacy h = keeps_tape _ (
        keeps_either _ _ _ _ _ _ _
          (keeps_if _ _ _ _ (keeps_either _ _ _ _ _ _ _ (keeps_people cfg.thresholds _ h))))

    keeps_v2 : (t : FeatureThresholds F) → P (pos 0, []) → P (board_v2 cfg f t)
    unfolding board_v2 add_momentum_v2 add_volume add_bundle_v2
    keeps_v2 t h =
        keeps_tape _
          (keeps_if _ _ _ _ (keeps_if _ _ _ _ (keeps_either _ _ _ _ _ _ _ (keeps_people t _ h))))

-- No item is listed without points.
abbrev pub HavePoints : List (Item × ℤ) → Type 0
HavePoints items = All (λ i. pos_part i.1 + neg_part i.1 ≢ 0) items

All-snoc :
    (items : List (Item × ℤ)) (i : Item × ℤ)
    → HavePoints items
    → pos_part i.1 + neg_part i.1 ≢ 0
    → HavePoints (items ++ i ∷ [])
All-snoc [] i h k = (k, tt)
All-snoc (j ∷ items) i (h, hs) k = (h, All-snoc items i hs k)

add-HavePoints :
    (n : Item) (p : ℤ) (board : Board) → HavePoints board.1 → HavePoints (add n p board).1
unfolding add
add-HavePoints n p (total, items) h = elim (Bool-cases (pos_part p + neg_part p == 0)) [
  | inl e ↦ rw e h
  | inr e ↦ rw e (All-snoc items (n, p) h (ground arith))
]

module _ {F : Type 0} ⦃fl : Float F⦄ where
  keeps_score :
      (P : Board → Type 0)
      → ((n : Item) (p : ℤ) (board : Board) → P board → P (add n p board))
      → P (pos 0, [])
      → (cfg : ScoringConfig F) (f : TokenFeatures F) (t : FeatureThresholds F)
      → P ((score cfg f t).total, (score cfg f t).items)
  unfolding finish_breakdown
  keeps_score P keeps h cfg f t =
      score_cases cfg f t (λ s. P (s.total, s.items)) (keeps_legacy P keeps cfg f h)
        (keeps_v2 P keeps cfg f t h)

  -- In either engine the total is the sum, in 32 bits, of the points of the listed items, and no
  -- item is listed with no points.
  pub score_total :
      (cfg : ScoringConfig F) (f : TokenFeatures F) (t : FeatureThresholds F)
      → ((score cfg f t).total ≡ wrap 32 (points_sum (score cfg f t).items))
        × HavePoints (score cfg f t).items
  unfolding points_sum
  score_total cfg f t = (
    keeps_score IsTallied add-IsTallied refl cfg f t,
    keeps_score (λ board. HavePoints board.1) add-HavePoints tt cfg f t,
  )
