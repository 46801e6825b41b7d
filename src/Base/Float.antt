-- ===== src/Base/Float.antt =====
-- What the code does with an `f64`. The type and its arithmetic are a parameter of the model: a
-- record of operations, taken as an instance, and a record of the facts of IEEE 754 that a theorem
-- needs. `lit n` is the `f64` nearest to n millionths, which writes every literal of the source.
use Prim.Native.Nat.{ℕ, suc, ◌+◌, ◌*◌, ◌/◌, ◌^◌}
use mathlib.Core.Path.{◌≡◌}
use mathlib.Core.Bool.{Bool, true, false, not, ◌&&◌}
use mathlib.Core.Logic.{◌⊎◌}
use mathlib.Core.Option.{Option, none, some}
use native.Mathlib.Omega.{arith}
use automatamain.Base.Tests.{if◌then◌else◌, ◌==◌}
use automatamain.Base.Int.{ℤ, pos, negsuc, pos_part, neg_part, sub_ℕ, ◌≤ℤ◌, leb_ℤ, neg}

pub record Float (F : Type 0) : Type 0 where
  pub lit : ℤ → F
  pub fadd : F → F → F
  pub fsub : F → F → F
  pub fmul : F → F → F
  pub fdiv : F → F → F
  pub fle : F → F → Bool
  pub is_finite : F → Bool
  -- `n as f64` of an unsigned integer.
  pub of_ℕ : ℕ → F

module _ {F : Type 0} ⦃fl : Float F⦄ where
  open fl use {fle, lit}

  -- `x < y`: it holds of no NaN.
  abbrev pub flt : F → F → Bool
  flt x y = fle x y && not (fle y x)

  -- `x == y`.
  abbrev pub feq : F → F → Bool
  feq x y = fle x y && fle y x

  -- `f64::max` and `f64::min`: where one argument is NaN they return the other.
  abbrev pub fmax : F → F → F
  fmax x y = if fle x x then if flt x y then y else x else y

  abbrev pub fmin : F → F → F
  fmin x y = if fle x x then if flt y x then y else x else y

  -- `f64::clamp` with a range that is not empty.
  abbrev pub clamp : F → F → F → F
  clamp x lo hi = if flt x lo then lo else if flt hi x then hi else x

  -- A literal that is a whole number.
  abbrev pub int : ℕ → F
  int n = lit (pos (n * 1_000_000))

  -- A literal in thousandths.
  abbrev pub milli : ℕ → F
  milli n = lit (pos (n * 1000))

  abbrev pub neg_int : ℕ → F
  neg_int n = lit (neg (n * 1_000_000))

-- The order of IEEE 754 away from NaN, which is the value that is not `<=` itself; and literals
-- are rounded monotonically, and apart while they are small.
pub record IsFloat (F : Type 0) ⦃fl : Float F⦄ : Type 0 where
  pub fle_refl : (x y : F) → fl.fle x y ≡ true → (fl.fle x x ≡ true) × (fl.fle y y ≡ true)
  pub fle_trans : (x y z : F) → fl.fle x y ≡ true → fl.fle y z ≡ true → fl.fle x z ≡ true
  pub fle_total :
      (x y : F) → fl.fle x x ≡ true → fl.fle y y ≡ true → (fl.fle x y ≡ true) ⊎ (fl.fle y x ≡ true)
  pub lit_le : (a b : ℤ) → a ≤ℤ b → fl.fle (fl.lit a) (fl.lit b) ≡ true
  pub lit_gt :
      (a b : ℤ)
      → leb_ℤ a b ≡ false
      → a ≤ℤ pos (10 ^ 15)
      → neg (10 ^ 15) ≤ℤ b
      → fl.fle (fl.lit a) (fl.lit b) ≡ false

-- The laws can be met: whole millionths, with `none` for NaN and for what has no value.
abbrev pub Fixed : Type 0
Fixed = Option ℤ

abbrev on_both : (ℤ → ℤ → Fixed) → Fixed → Fixed → Fixed
on_both f (some a) (some b) = f a b
on_both f _ _ = none

abbrev fixed_le : Fixed → Fixed → Bool
fixed_le (some a) (some b) = leb_ℤ a b
fixed_le _ _ = false

-- The product and the quotient by magnitude, with the sign of the two parts.
abbrev signed : (ℕ → ℕ → ℕ) → ℤ → ℤ → ℤ
signed f (pos a) (pos b) = pos (f a b)
signed f (pos a) (negsuc b) = neg (f a (suc b))
signed f (negsuc a) (pos b) = neg (f (suc a) b)
signed f (negsuc a) (negsuc b) = pos (f (suc a) (suc b))

abbrev fixed_div : ℤ → ℤ → Fixed
fixed_div a b =
    if pos_part b + neg_part b == 0 then none else some (signed (λ x y. x * 1_000_000 / y) a b)

abbrev is_some : Fixed → Bool
is_some (some a) = true
is_some none = false

instance abbrev pub fixed_float : Float Fixed
fixed_float = record {
  lit = some;
  fadd = on_both (λ a b. some (sub_ℕ (pos_part a + pos_part b) (neg_part a + neg_part b)));
  fsub = on_both (λ a b. some (sub_ℕ (pos_part a + neg_part b) (neg_part a + pos_part b)));
  fmul = on_both (λ a b. some (signed (λ x y. x * y / 1_000_000) a b));
  fdiv = on_both fixed_div;
  fle = fixed_le;
  is_finite = is_some;
  of_ℕ = λ n. some (pos (n * 1_000_000));
}

fixed_le_refl : (x y : Fixed) → fixed_le x y ≡ true → (fixed_le x x ≡ true) × (fixed_le y y ≡ true)
fixed_le_refl (some a) (some b) h = ground arith
fixed_le_refl x y h = ground arith

fixed_le_trans : (x y z : Fixed) → fixed_le x y ≡ true → fixed_le y z ≡ true → fixed_le x z ≡ true
fixed_le_trans (some a) (some b) (some c) p q = ground arith
fixed_le_trans x y z p q = ground arith

fixed_le_total :
    (x y : Fixed)
    → fixed_le x x ≡ true
    → fixed_le y y ≡ true
    → (fixed_le x y ≡ true) ⊎ (fixed_le y x ≡ true)
fixed_le_total (some a) (some b) p q = ground arith
fixed_le_total x y p q = ground arith

pub Fixed-IsFloat : IsFloat Fixed
Fixed-IsFloat = record {
  fle_refl = fixed_le_refl;
  fle_trans = fixed_le_trans;
  fle_total = fixed_le_total;
  lit_le = λ a b h. ground arith;
  lit_gt = λ a b h p q. h;
}
