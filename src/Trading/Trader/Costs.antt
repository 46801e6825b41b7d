-- ===== src/Trading/Trader/Costs.antt =====
-- What trades do to one account: its holdings and its realised profit.
use native.Mathlib.Nat.{le-div_iff_mul-le, div-lt_iff_lt-mul, mod-eq_of_lt}
use automatamain.Base.{ℕ, ◌+◌, ◌*◌, ◌/◌, ◌%◌, ◌^◌, ◌≤◌, ◌<◌, ◌≡◌, ◌↔◌, refl, arith, some}
use automatamain.Base.Int.{ℤ, pos, negsuc, ◌+ℤ◌, ◌-ℤ◌, wrap}
use automatamain.Base.Partial.{◌>>=◌}
use automatamain.Trading.Types.{Amount, buy, sell, from_raw, add_amounts, sub_amounts}
use automatamain.Trading.Trader.{Trader, TraderType, empty, apply}

-- A sale in 64-bit amounts leaves the account with more tokens than before exactly when it sells
-- more than the account holds.
pub sale_raises_holdings_iff :
    (t t' : Trader) (sold : Amount) (received : ℕ)
    → apply t (sell sold received) ≡ some t'
    → t.current_holdings.value < 2 ^ 64
    → sold.value < 2 ^ 64
    → (t.current_holdings.value < t'.current_holdings.value)
      ↔ (t.current_holdings.value < sold.value)
unfolding apply sub_amounts
sale_raises_holdings_iff t t' sold received h fits fits_sold =
    (ground (arith, h, fits, fits_sold), ground (arith, h, fits, fits_sold))

wrap-pos : (n : ℕ) → n < 2 ^ 63 → wrap 64 (pos n) ≡ pos n
wrap-pos n h = ground (arith, h)

wrap-sub : (a b : ℕ) → a < 2 ^ 63 → b < 2 ^ 63 → wrap 64 (pos a -ℤ pos b) ≡ pos a -ℤ pos b
unfolding ◌-ℤ◌
wrap-sub a b ha hb = ground (arith, ha, hb)

zero_add : (z : ℤ) → pos 0 +ℤ z ≡ z
unfolding ◌+ℤ◌
zero_add (pos n) = ground arith
zero_add (negsuc n) = ground arith

gain :
    (r c : ℕ)
    → r < 2 ^ 63
    → c < 2 ^ 63
    → wrap 64 (pos 0 +ℤ wrap 64 (wrap 64 (pos r) -ℤ wrap 64 (pos c))) ≡ pos r -ℤ pos c
gain r c hr hc = rw (
  wrap-pos r hr,
  wrap-pos c hc,
  wrap-sub r c hr hc,
  zero_add (pos r -ℤ pos c),
  wrap-sub r c hr hc,
)

-- What `held` tokens cost on average, and what selling all of them takes from that.
abbrev average : ℕ → ℕ → ℕ
average spent held = spent * 1_000_000 * 1_000_000 / held

abbrev cost : ℕ → ℕ → ℕ
cost spent held = average spent held * held / 1_000_000 / 1_000_000

average-mul-le : (spent held : ℕ) → 0 < held → average spent held * held ≤ spent * 10 ^ 12
average-mul-le spent held h =
    let quotient : average spent held * held ≤ spent * 1_000_000 * 1_000_000 =
      (le-div_iff_mul-le h).0 (omega arith) in
    omega (arith, quotient)

lt-average-mul : (spent held : ℕ) → 0 < held → spent * 10 ^ 12 < average spent held * held + held
lt-average-mul spent held h =
    let quotient : spent * 1_000_000 * 1_000_000 < (average spent held + 1) * held =
      (div-lt_iff_lt-mul h).0 (omega arith) in
    grind (arith, quotient)

bought : TraderType → ℕ → ℕ → Trader
unfolding empty
bought type spent held = record (empty type 6 9) {
  current_holdings = from_raw held 6;
  avg_cost_basis = average spent held;
  total_spent = from_raw spent 9;
}

apply-buy :
    (type : TraderType) (spent held : ℕ)
    → 0 < held
    → held < 2 ^ 64
    → spent < 2 ^ 63
    → apply (empty type 6 9) (buy spent (from_raw held 6)) ≡ some (bought type spent held)
unfolding apply empty add_amounts bought
apply-buy type spent held pos_held fits_held fits = ground (arith, pos_held, fits_held, fits)

apply-sell_all :
    (type : TraderType) (spent held received : ℕ)
    → 0 < held
    → held < 2 ^ 64
    → spent < 2 ^ 63
    → received < 2 ^ 63
    → (t : Trader) × (apply (bought type spent held) (sell (from_raw held 6) received) ≡ some t)
      × (t.current_holdings.value ≡ 0)
      × (t.realized_pnl ≡ pos received -ℤ pos (cost spent held))
unfolding apply empty sub_amounts bought
apply-sell_all type spent held received pos_held fits_held fits fits_received =
    let exact : average spent held * held % 2 ^ 128 ≡ average spent held * held =
      mod-eq_of_lt (omega (arith, average-mul-le spent held pos_held)) in
    let small : cost spent held < 2 ^ 63 = omega (arith, average-mul-le spent held pos_held) in
    (_, refl, omega arith, rw exact (gain received (cost spent held) fits_received small))

-- A trader that buys tokens of 6 decimals once, for less than 2 ^ 63 lamports, and sells them all,
-- also for less than 2 ^ 63, ends with none and with what it received less a cost as its result. The
-- cost is at most what it spent; and it is less than that by no more than one lamport and one more
-- for every 10 ^ 12 raw tokens.
pub buy_sell_pnl :
    (type : TraderType) (spent held received : ℕ)
    → 0 < held
    → held < 2 ^ 64
    → spent < 2 ^ 63
    → received < 2 ^ 63
    → (t : Trader) × (c : ℕ) × ((apply (empty type 6 9) (buy spent (from_raw held 6)) >>= λ b.
          apply b (sell (from_raw held 6) received))
        ≡ some t)
      × (t.current_holdings.value ≡ 0)
      × (t.realized_pnl ≡ pos received -ℤ pos c)
      × (c ≤ spent)
      × (spent * 10 ^ 12 < (c + 1) * 10 ^ 12 + held)
buy_sell_pnl type spent held received pos_held fits_held fits fits_received =
    let sold = apply-sell_all type spent held received pos_held fits_held fits fits_received in
    (
      sold.0,
      cost spent held,
      rw (apply-buy type spent held pos_held fits_held fits) sold.1,
      sold.2,
      sold.3,
      omega (arith, average-mul-le spent held pos_held),
      omega (arith, lt-average-mul spent held pos_held),
    )
