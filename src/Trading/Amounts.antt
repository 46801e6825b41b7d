-- ===== src/Trading/Amounts.antt =====
-- Amounts that change their decimals.
use native.Mathlib.Nat.{mul-div_cancel, mod-eq_of_lt, one-le-pow, pow-le-pow_right}
use automatamain.Base.{ℕ, ◌-◌, ◌*◌, ◌/◌, ◌%◌, ◌^◌, ◌≤◌, ◌<◌, ◌≡◌, arith, some, inl, inr, le-or-lt}
use automatamain.Base.Partial.{◌>>=◌}
use automatamain.Trading.Types.{Amount, to_scale, pow10}

pow10-eq-pow : (d : ℕ) → d ≤ 19 → pow10 64 d ≡ 10 ^ d
pow10-eq-pow d h =
    let top : 10 ^ d ≤ 10 ^ 19 = pow-le-pow_right {n = 10} (omega arith) h in
    mod-eq_of_lt (omega arith)

-- An amount brought to more decimals, at most 19 more and where its value still fits 64 bits, and
-- back to its own is itself.
pub to_scale-to_scale :
    (a : Amount) (n : ℕ)
    → a.decimals ≤ n
    → n - a.decimals ≤ 19
    → a.value * 10 ^ (n - a.decimals) < 2 ^ 64
    → (to_scale a n >>= λ b. to_scale b a.decimals) ≡ some a
unfolding to_scale
to_scale-to_scale a n more few fits =
    let power = pow10-eq-pow (n - a.decimals) few in
    let positive : 0 < 10 ^ (n - a.decimals) = one-le-pow (n - a.decimals) 10 (omega arith) in
    let exact : a.value * pow10 64 (n - a.decimals) % 2 ^ 64 / pow10 64 (n - a.decimals) ≡ a.value =
      rw (power, mod-eq_of_lt fits, mul-div_cancel a.value positive) in
    elim (le-or-lt n a.decimals) [
      | inl same ↦ ground (arith, more, same)
      | inr below ↦ ground (arith, below, exact, power, positive)
    ]
