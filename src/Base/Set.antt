-- ===== src/Base/Set.antt =====
-- Sets kept as lists: tests for an element, removal, and how many different numbers there are.
use Prim.Native.Nat.{ℕ, ◌+◌, ◌≤◌}
use mathlib.Core.Path.{◌≡◌, refl}
use mathlib.Core.Bool.{Bool, true, false, not}
use mathlib.Core.List.{List, [], ◌∷◌, ◌++◌}
use mathlib.Core.Logic.{inl, inr}
use native.Mathlib.Omega.{arith}
use automatamain.Base.Tests.{◌==◌, if◌then◌else◌, Bool-cases}
use automatamain.Base.Lists.{keep}

module _ {ℓ} {A : Type ℓ} where
  abbrev pub any : (A → Bool) → List A → Bool
  any p [] = false
  any p (x ∷ xs) = let rest = any p xs in if p x then true else rest

  -- `retain` of the others.
  abbrev pub without : (A → Bool) → List A → List A
  without p xs = keep (λ x. not (p x)) xs

  pub any-without_self : (p : A → Bool) (xs : List A) → any p (without p xs) ≡ false
  any-without_self p [] = refl
  any-without_self p (x ∷ xs) = ground (arith, any-without_self p xs)

  -- What is removed is none of what is asked for.
  pub any-without_other :
      (p q : A → Bool) (xs : List A)
      → ((x : A) → q x ≡ true → p x ≡ false)
      → any q (without p xs) ≡ any q xs
  any-without_other p q [] h = refl
  any-without_other p q (x ∷ xs) h = ground (arith, any-without_other p q xs h, h x)

  pub any-without_le :
      (p q : A → Bool) (xs : List A) → any q (without p xs) ≡ true → any q xs ≡ true
  any-without_le p q [] h = h
  any-without_le p q (x ∷ xs) h = ground (arith, h, any-without_le p q xs)

  pub any-append :
      (p : A → Bool) (xs ys : List A) → any p (xs ++ ys) ≡ (if any p xs then true else any p ys)
  any-append p [] ys = refl
  any-append p (x ∷ xs) ys = ground (arith, any-append p xs ys)

  pub any-middle :
      (p : A → Bool) (xs : List A) (y : A) (ys : List A)
      → any p (xs ++ y ∷ ys) ≡ (if p y then true else any p (xs ++ ys))
  any-middle p [] y ys = refl
  any-middle p (x ∷ xs) y ys = ground (arith, any-middle p xs y ys)

abbrev pub member : ℕ → List ℕ → Bool
member a xs = any (λ x. x == a) xs

-- The size of the set that a list stands for.
abbrev pub distinct : List ℕ → ℕ
distinct [] = 0
distinct (x ∷ xs) = let n = distinct xs in if member x xs then n else 1 + n

pub member-without :
    (a b : ℕ) (xs : List ℕ)
    → member b (without (λ x. x == a) xs) ≡ (if a == b then false else member b xs)
member-without a b [] = ground arith
member-without a b (x ∷ xs) = ground (arith, member-without a b xs)

distinct-without :
    (a : ℕ) (xs : List ℕ)
    → distinct (without (λ x. x == a) xs) + (if member a xs then 1 else 0) ≡ distinct xs
distinct-without a [] = refl
distinct-without a (x ∷ xs) = ground (arith, distinct-without a xs, member-without a x xs)

-- A set within another is no larger.
pub distinct_mono :
    (xs ys : List ℕ)
    → ((a : ℕ) → member a xs ≡ true → member a ys ≡ true)
    → distinct xs ≤ distinct ys
distinct_mono [] ys h = omega arith
distinct_mono (x ∷ xs) ys h = elim (Bool-cases (member x xs)) [
  | inl again ↦ ground (arith, again, distinct_mono xs ys (λ a e. h a (ground (arith, e))))
  | inr fresh ↦
      let rest = without (λ y. y == x) ys in
      let smaller =
        distinct_mono xs rest
          (λ a e. ground (arith, e, fresh, h a (ground (arith, e)), member-without x a ys)) in
      ground (arith, fresh, smaller, distinct-without x ys, h x (ground arith))
]
