-- ===== src/Trading/Swarm/Holdings.antt =====
-- The tokens of each account: what its offers bought, less what they sold.
use automatamain.Base.{
  ℕ, ◌+◌, ◌-◌, ◌^◌, ◌≤◌, ◌<◌, ◌≡◌, arith, Option, none, some, List, [], ◌∷◌, All,
}
use automatamain.Base.Partial.{>>=-eq-some}
use automatamain.Trading.Types.{Amount, Offer, buy, sell, add_amounts, sub_amounts}
use automatamain.Trading.Trader.{Trader, empty, apply}
use automatamain.Trading.Swarm.{Swarm, Update, new_swarm, find_trader, updates}
use automatamain.Trading.Swarm.Ledger.{trade, account, own}
use automatamain.Trading.Swarm.Members.{TradesIn}
use automatamain.Trading.Swarm.Refinement.{swarm_refines}

-- The raw tokens that an offer brings in, and those that it gives away.
abbrev pub gets : Offer → ℕ
gets (buy buy_for received) = received.value
gets (sell sell_amount received) = 0

abbrev pub gives : Offer → ℕ
gives (buy buy_for received) = 0
gives (sell sell_amount received) = sell_amount.value

abbrev pub all_gets : List Update → ℕ
all_gets [] = 0
all_gets (u ∷ us) = gets u.offer + all_gets us

abbrev pub all_gives : List Update → ℕ
all_gives [] = 0
all_gives (u ∷ us) = gives u.offer + all_gives us

-- From `held` tokens, no offer gives away more than there is.
abbrev pub IsCovered : ℕ → List Update → Type 0
IsCovered held [] = Unit
IsCovered held (u ∷ us) =
    (gives u.offer ≤ held) × IsCovered (held + gets u.offer - gives u.offer) us

abbrev pub holdings : Option Trader → ℕ
holdings none = 0
holdings (some t) = t.current_holdings.value

apply-holdings :
    (t : Trader) (o : Offer) {t' : Trader}
    → apply t o ≡ some t'
    → gives o ≤ t.current_holdings.value
    → t.current_holdings.value + gets o < 2 ^ 64
    → t'.current_holdings.value ≡ t.current_holdings.value + gets o - gives o
unfolding apply add_amounts sub_amounts
apply-holdings t (buy buy_for received) h covered fits = ground (arith, h, covered, fits)
apply-holdings t (sell sell_amount received) h covered fits = ground (arith, h, covered, fits)

trade-holdings :
    (d q : ℕ) (held : Option Trader) (u : Update) {t : Trader}
    → trade d q held u ≡ some t
    → gives u.offer ≤ holdings held
    → holdings held + gets u.offer < 2 ^ 64
    → t.current_holdings.value ≡ holdings held + gets u.offer - gives u.offer
unfolding trade empty
trade-holdings d q none u h covered fits =
    apply-holdings (empty u.trader_type d q) u.offer h covered fits
trade-holdings d q (some t) u h covered fits = apply-holdings t u.offer h covered fits

account-holdings :
    (d q : ℕ) (us : List Update) (held : Option Trader) {after : Option Trader}
    → account d q held us ≡ some after
    → IsCovered (holdings held) us
    → holdings held + all_gets us < 2 ^ 64
    → holdings after + all_gives us ≡ holdings held + all_gets us
unfolding account
account-holdings d q [] held h covered fits = ground (arith, h)
account-holdings d q (u ∷ us) held {after} h covered fits =
    let ran = >>=-eq-some (trade d q held u) (λ t. account d q (some t) us) {b = after} h in
    let first = trade-holdings d q held u ran.1 covered.0 (omega arith) in
    let rest =
      account-holdings d q us (some ran.0) ran.2 (rw first covered.1) (omega (arith, first)) in
    omega (arith, rest, first)

-- Over any updates of a new swarm in the token's decimals, at most 38, the swarm does not panic; and
-- an address that never sells more than it holds, and that buys fewer than 2 ^ 64 raw tokens in all,
-- ends with what its own offers bought less what they sold.
pub swarm_holdings :
    (supply : Amount) (d q : ℕ) (us : List Update) (a : ℕ)
    → d ≤ 38
    → All (λ u. TradesIn d u) us
    → IsCovered 0 (own a us)
    → all_gets (own a us) < 2 ^ 64
    → (s : Swarm) × (updates (new_swarm supply d q) us ≡ some s)
      × (holdings (find_trader a s.traders) + all_gives (own a us) ≡ all_gets (own a us))
swarm_holdings supply d q us a small matched covered fits =
    let ran = swarm_refines supply d q us small matched in
    let kept = account-holdings d q (own a us) none (ran.3 a) covered (omega (arith, fits)) in
    (ran.0, ran.1, omega (arith, kept))
