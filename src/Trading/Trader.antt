-- ===== src/Trading/Trader.antt =====
-- The account of one trader of a token (src/trading/trader.rs). `none` is a panic: amounts of
-- different decimals, or a division by a power of ten that wrapped to 0.
pub mod Costs
use automatamain.Base.{
  ℕ, suc, ◌+◌, ◌-◌, ◌*◌, ◌/◌, ◌%◌, ◌^◌, min, Bool, true, false, not, Option, some, if◌then◌else◌,
  ◌==◌,
}
use automatamain.Base.Int.{ℤ, pos, negsuc, ◌+ℤ◌, ◌-ℤ◌, wrap}
use automatamain.Base.Float.{Float, int}
use automatamain.Base.Partial.{◌>>=◌, ◌>>◌, assert}
use automatamain.Trading.Types.{Amount, Offer, buy, sell, from_raw, add_amounts, sub_amounts, pow10}

pub data TraderType : Type 0 where
  creator sniper regular : TraderType

abbrev pub same_type : TraderType → TraderType → Bool
same_type creator creator = true
same_type sniper sniper = true
same_type regular regular = true
same_type _ _ = false

pub record Trader : Type 0 where
  pub current_holdings : Amount
  pub avg_cost_basis : ℕ
  pub total_spent : Amount
  pub realized_pnl : ℤ
  pub sell_proceeds_raw : ℕ
  pub sell_event_count : ℕ
  pub trader_type : TraderType

unfoldable pub empty : TraderType → ℕ → ℕ → Trader
empty type decimals paired_decimals = record {
  current_holdings = from_raw 0 decimals;
  avg_cost_basis = 0;
  total_spent = from_raw 0 paired_decimals;
  realized_pnl = pos 0;
  sell_proceeds_raw = 0;
  sell_event_count = 0;
  trader_type = type;
}

-- The average cost after a purchase: u128 arithmetic that wraps.
abbrev pub new_cost_basis : Trader → ℕ → ℕ → ℕ → ℕ
new_cost_basis t scale buy_for holdings =
    (t.avg_cost_basis * t.current_holdings.value + buy_for * scale * scale) % 2 ^ 128 / holdings

-- What the sold tokens cost, as an i64.
abbrev pub cost_of_sold : Trader → ℕ → ℕ → ℤ
cost_of_sold t scale sold = wrap 64 (pos (t.avg_cost_basis * sold % 2 ^ 128 / scale / scale))

unfoldable pub apply : Trader → Offer → Option Trader
apply t (buy buy_for received) =
    let scale = pow10 128 t.current_holdings.decimals in
    add_amounts t.current_holdings received >>= λ new_holdings.
    if new_holdings.value == 0
    then some t
    else (add_amounts t.total_spent (from_raw buy_for t.total_spent.decimals) >>= λ spent.
        some (record t {
          avg_cost_basis = new_cost_basis t scale buy_for new_holdings.value;
          current_holdings = new_holdings;
          total_spent = spent;
        }))
apply t (sell sell_amount received) =
    let scale = pow10 128 t.current_holdings.decimals in
    let gain = wrap 64 (wrap 64 (pos received) -ℤ cost_of_sold t scale sell_amount.value) in
    do
      assert (not (scale == 0))
      holdings ← sub_amounts t.current_holdings sell_amount
      some (record t {
        realized_pnl = wrap 64 (t.realized_pnl +ℤ gain);
        current_holdings = holdings;
        sell_proceeds_raw = min (t.sell_proceeds_raw + received) (2 ^ 64 - 1);
        sell_event_count = min (t.sell_event_count + 1) (2 ^ 32 - 1);
      })

module _ {F : Type 0} ⦃fl : Float F⦄ where
  open fl use {fmul, fdiv, fsub, of_ℕ}

  -- `n as f64` of an i64.
  abbrev pub of_ℤ : ℤ → F
  of_ℤ (pos n) = of_ℕ n
  of_ℤ (negsuc n) = fsub (int 0) (of_ℕ (suc n))

  unfoldable pub pnl_percent : Trader → F
  pnl_percent t =
      if t.total_spent.value == 0
      then int 0
      else fmul (fdiv (of_ℤ t.realized_pnl) (of_ℕ t.total_spent.value)) (int 100)
