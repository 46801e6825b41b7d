-- ===== src/Curve/Chunks.antt =====
-- Chunks of a sale, the slippage of its retries, and the slack when its effect is polled.
use native.Mathlib.Nat.{mul_comm, div-mul-le_self, le-div_iff_mul-le, lt-div-mul-add}
use automatamain.Base.{
  ℕ, zero, suc, ◌+◌, ◌-◌, ◌*◌, ◌/◌, ◌≤◌, ◌<◌, ◌^◌, ◌≡◌, arith, List, [], ◌∷◌, ◌++◌, length, sum,
  sum-append, sum-replicate, length-append, replicate, All, min, max,
}
use automatamain.Curve.{jupiter_chunk_amounts, jupiter_slippage_steps, sell_raw_delta_slack}

base_times : (t p : ℕ) → t / p * (p - 1) ≤ t
base_times t zero = omega arith
base_times t (suc p) = grind (arith, div-mul-le_self t (suc p))

length-replicate : (n k : ℕ) → length (replicate n k) ≡ n
length-replicate zero k = omega arith
length-replicate (suc n) k = omega (arith, length-replicate n k)

-- The chunks of a sale add up to the sale, whatever the number of parts.
pub sum-jupiter_chunk_amounts : (total parts : ℕ) → sum (jupiter_chunk_amounts total parts) ≡ total
unfolding jupiter_chunk_amounts
sum-jupiter_chunk_amounts total parts = ground (
  arith,
  sum-append (replicate (parts - 1) (total / parts)) ((total - total / parts * (parts - 1)) ∷ []),
  sum-replicate (parts - 1) (total / parts),
  base_times total parts,
  mul_comm (parts - 1) (total / parts),
)

-- An even chunk, or the last one with the remainder.
abbrev pub IsChunk : ℕ → ℕ → ℕ → Type 0
IsChunk total parts c = (50_000 ≤ c) × (total / parts ≤ c) × (c < total / parts + parts)

All-replicate :
    (total parts k : ℕ)
    → IsChunk total parts (total / parts)
    → (r : ℕ) → IsChunk total parts r
    → All (IsChunk total parts) (replicate k (total / parts) ++ r ∷ [])
All-replicate total parts zero h r hr = (hr, tt)
All-replicate total parts (suc k) h r hr = (h, All-replicate total parts k h r hr)

whole-IsChunk : (t p : ℕ) → 2 ≤ p → p * 50_000 ≤ t → IsChunk t p (t / p)
whole-IsChunk t p hp ht =
    let fits : 50_000 ≤ t / p = (le-div_iff_mul-le (omega arith)).1 (rw (mul_comm 50_000 p) ht) in
    omega arith

last-IsChunk : (t p : ℕ) → 2 ≤ p → p * 50_000 ≤ t → IsChunk t p (t - t / p * (p - 1))
last-IsChunk t zero hp ht = omega arith
last-IsChunk t (suc p) hp ht =
    let whole = whole-IsChunk t (suc p) hp ht in
    let below = div-mul-le_self t (suc p) in
    let above = lt-div-mul-add {a = t} {b = suc p} (omega arith) in grind arith

-- A sale of two or more parts, of at least 50 000 raw tokens a part, is cut into exactly that many
-- chunks, each of at least 50 000 raw tokens, which differ by less than the number of parts.
pub jupiter_chunk_amounts-IsChunk :
    (total parts : ℕ)
    → 2 ≤ parts
    → parts * 50_000 ≤ total
    → (length (jupiter_chunk_amounts total parts) ≡ parts)
      × All (IsChunk total parts) (jupiter_chunk_amounts total parts)
unfolding jupiter_chunk_amounts
jupiter_chunk_amounts-IsChunk total parts hp ht = ground (
  arith,
  length-append (replicate (parts - 1) (total / parts))
      ((total - total / parts * (parts - 1)) ∷ []),
  length-replicate (parts - 1) (total / parts),
  All-replicate total parts (parts - 1) (whole-IsChunk total parts hp ht)
      (total - total / parts * (parts - 1)) (last-IsChunk total parts hp ht),
)

-- Strictly rising values of at most 35 per cent.
abbrev pub IsRising : ℕ → List ℕ → Type 0
IsRising x [] = Unit
IsRising x (y ∷ ys) = (x < y) × (y ≤ 3500) × IsRising y ys

-- The first value is the base, capped, and the others rise.
abbrev pub IsSlippage : ℕ → List ℕ → Type 0
IsSlippage base [] = ⊥
IsSlippage base (x ∷ xs) = (x ≡ min base 3500) × IsRising x xs

-- From a 16-bit base the slippage of the retries starts at the base, capped at 3500 basis points, and rises strictly,
-- up to the cap.
jupiter_slippage_steps-IsSlippage :
    (base_bps : ℕ) → base_bps < 2 ^ 16 → IsSlippage base_bps (jupiter_slippage_steps base_bps)
unfolding jupiter_slippage_steps
jupiter_slippage_steps-IsSlippage base_bps h = ground arith

-- The slack of a sale of some tokens is positive, at most 100 raw tokens, and at most a
-- ten-thousandth of the sale or one.
sell_raw_delta_slack_bounds :
    (sold : ℕ)
    → 0 < sold
    → (1 ≤ sell_raw_delta_slack sold)
      × (sell_raw_delta_slack sold ≤ 100)
      × (sell_raw_delta_slack sold * 10_000 ≤ max sold 10_000)
unfolding sell_raw_delta_slack
sell_raw_delta_slack_bounds sold h = ground arith
