-- ===== src/Base/Assoc.antt =====
-- Maps as association lists with a number for the key, and the tables that a task keeps in them: one
-- entry for each key, changed by the updates of that key.
use Prim.Native.Nat.{ℕ}
use mathlib.Core.Path.{◌≡◌, refl}
use mathlib.Core.Option.{Option, none, some}
use mathlib.Core.List.{List, [], ◌∷◌}
use native.Mathlib.Omega.{arith}
use automatamain.Base.Tests.{◌==◌, if◌then◌else◌}
use automatamain.Base.Lists.{keep}

module _ {ℓ} {A : Type ℓ} where
  unfoldable pub get? : ℕ → List (ℕ × A) → Option A
  get? k [] = none
  get? k ((j, v) ∷ m) = let rest = get? k m in if j == k then some v else rest

  -- `insert`: an entry is overwritten in place, or added.
  unfoldable pub insert : ℕ → A → List (ℕ × A) → List (ℕ × A)
  insert k w [] = (k, w) ∷ []
  insert k w ((j, v) ∷ m) = let rest = insert k w m in if j == k then (j, w) ∷ m else (j, v) ∷ rest

  pub get?-insert :
      (k i : ℕ) (w : A) (m : List (ℕ × A))
      → get? i (insert k w m) ≡ (if k == i then some w else get? i m)
  unfolding get? insert
  get?-insert k i w [] = refl
  get?-insert k i w ((j, v) ∷ m) = ground (arith, get?-insert k i w m)

  abbrev pub or_default : A → Option A → A
  or_default d none = d
  or_default d (some a) = a

  -- `entry(k).or_default()`, changed by a function.
  unfoldable pub upsert : A → ℕ → (A → A) → List (ℕ × A) → List (ℕ × A)
  upsert d k f m = insert k (f (or_default d (get? k m))) m

module _ {ℓ κ} {A : Type ℓ} {U : Type κ} (d : A) (key : U → ℕ) (step : U → A → A) where
  -- A table under a sequence of updates, each of one entry.
  unfoldable pub feed : List U → List (ℕ × A) → List (ℕ × A)
  feed [] m = m
  feed (u ∷ us) m = feed us (upsert d (key u) (step u) m)

  -- One entry under the updates of its own key.
  unfoldable pub fold_entry : List U → Option A → Option A
  fold_entry [] o = o
  fold_entry (u ∷ us) o = fold_entry us (some (step u (or_default d o)))

  pub get?-feed :
      (k : ℕ) (us : List U) (m : List (ℕ × A))
      → get? k (feed us m) ≡ fold_entry (keep (λ u. key u == k) us) (get? k m)
  unfolding feed fold_entry upsert
  get?-feed k [] m = refl
  get?-feed k (u ∷ us) m = ground (
    arith,
    get?-feed k us (upsert d (key u) (step u) m),
    get?-insert (key u) k (step u (or_default d (get? (key u) m))) m,
  )
