-- ===== src/Trading/Swarm/Members.antt =====
-- Which updates return, and what they keep.
use native.Mathlib.Nat.{pow-le-pow_right, one-le-pow, mod-eq_of_lt}
use automatamain.Base.{
  ℕ, sym, ◌^◌, ◌≤◌, ◌<◌, ◌≡◌, ◌≢◌, refl, arith, none, some, List, [], ◌∷◌, ◌++◌, All, inl, inr,
  Option-cases,
}
use automatamain.Trading.Types.{Amount, Offer, buy, sell, pow10, add_amounts, sub_amounts}
use automatamain.Trading.Trader.{Trader, empty, apply}
use automatamain.Trading.Swarm.{
  Account, Swarm, Update, new_swarm, find_trader, set_trader, update_swarm,
}
use automatamain.Trading.Swarm.Ledger.{update-cases}

pow10-pos : (d : ℕ) → d ≤ 38 → 0 < pow10 128 d
pow10-pos d h =
    let top : 10 ^ d ≤ 10 ^ 38 = pow-le-pow_right {n = 10} (omega arith) h in
    let fits : 10 ^ d < 2 ^ 128 = omega arith in
    omega (arith, one-le-pow d 10 (omega arith), mod-eq_of_lt fits)

-- The amount of tokens that an offer moves.
abbrev pub tokens : Offer → Amount
tokens (buy buy_for received) = received
tokens (sell sell_amount received) = sell_amount

abbrev pub TradesIn : ℕ → Update → Type 0
TradesIn d u = (tokens u.offer).decimals ≡ d

abbrev pub HoldsIn : ℕ → Trader → Type 0
HoldsIn d t = t.current_holdings.decimals ≡ d

apply-returns :
    (d : ℕ) (t : Trader) (o : Offer)
    → d ≤ 38
    → HoldsIn d t
    → (tokens o).decimals ≡ d
    → apply t o ≢ none
unfolding apply add_amounts sub_amounts
apply-returns d t (buy buy_for received) small h e r = ground (arith, h, e, r)
apply-returns d t (sell sell_amount received) small h e r =
    ground (arith, h, e, r, pow10-pos d small)

apply-HoldsIn :
    (d : ℕ) (t : Trader) (o : Offer) {t' : Trader}
    → apply t o ≡ some t'
    → HoldsIn d t
    → HoldsIn d t'
unfolding apply add_amounts sub_amounts
apply-HoldsIn d t (buy buy_for received) e h = ground (arith, e, h)
apply-HoldsIn d t (sell sell_amount received) e h = ground (arith, e, h)

abbrev pub AllHold : ℕ → List Account → Type 0
AllHold d xs = All (λ x. HoldsIn d x.1) xs

find-HoldsIn :
    (d a : ℕ) (xs : List Account) {t : Trader}
    → AllHold d xs
    → find_trader a xs ≡ some t
    → HoldsIn d t
unfolding find_trader
find-HoldsIn d a [] h e = cc
find-HoldsIn d a (x ∷ xs) {t} h e = ground (arith, h, e, find-HoldsIn d a xs {t = t})

set-AllHold :
    (d a : ℕ) (t : Trader) (xs : List Account)
    → HoldsIn d t
    → AllHold d xs
    → AllHold d (set_trader a t xs)
unfolding set_trader
set-AllHold d a t [] ht h = tt
set-AllHold d a t (x ∷ xs) ht h = ground (arith, ht, h, set-AllHold d a t xs)

-- The addresses of a list differ.
abbrev pub NotIn : ℕ → List Account → Type 0
NotIn a xs = All (λ x. x.0 ≢ a) xs

abbrev pub IsDistinct : List Account → Type 0
IsDistinct [] = Unit
IsDistinct (x ∷ xs) = NotIn x.0 xs × IsDistinct xs

find-NotIn : (a : ℕ) (xs : List Account) → find_trader a xs ≡ none → NotIn a xs
unfolding find_trader
find-NotIn a [] e = tt
find-NotIn a (x ∷ xs) e = ground (arith, e, find-NotIn a xs)

set-NotIn : (a b : ℕ) (t : Trader) (xs : List Account) → NotIn b xs → NotIn b (set_trader a t xs)
unfolding set_trader
set-NotIn a b t [] h = tt
set-NotIn a b t (x ∷ xs) h = ground (arith, h, set-NotIn a b t xs)

set-IsDistinct :
    (a : ℕ) (t : Trader) (xs : List Account) → IsDistinct xs → IsDistinct (set_trader a t xs)
unfolding set_trader
set-IsDistinct a t [] h = tt
set-IsDistinct a t (x ∷ xs) h = ground (arith, h, set-IsDistinct a t xs, set-NotIn a x.0 t xs)

push-All {κ} :
    (P : Account → Type κ) (x : Account) (xs : List Account) → P x → All P xs → All P (xs ++ x ∷ [])
push-All P x [] hx h = (hx, tt)
push-All P x (y ∷ ys) hx h = (h.0, push-All P x ys hx h.1)

push-IsDistinct :
    (x : Account) (xs : List Account) → NotIn x.0 xs → IsDistinct xs → IsDistinct (xs ++ x ∷ [])
push-IsDistinct x [] new h = (tt, tt)
push-IsDistinct x (y ∷ ys) new h =
    (push-All (λ z. z.0 ≢ y.0) x ys (λ e. new.0 (sym e)) h.0, push-IsDistinct x ys new.1 h.1)

-- What every update keeps: distinct addresses, and holdings with the token's decimals.
pub record IsValid (s : Swarm) : Type 0 where
  pub distinct : IsDistinct s.traders
  pub held : AllHold s.decimals s.traders

pub new_swarm-IsValid : (supply : Amount) (d q : ℕ) → IsValid (new_swarm supply d q)
unfolding new_swarm
new_swarm-IsValid supply d q = record { distinct = tt; held = tt }

pub update-IsValid :
    (s : Swarm) (u : Update) {s' : Swarm}
    → update_swarm s u.address u.offer u.trader_type ≡ some s'
    → IsValid s
    → IsValid s'
unfolding empty
update-IsValid s u h v = elim (update-cases s u h) [
  | inl known ↦
      let held = find-HoldsIn s.decimals u.address s.traders v.held known.2 in
      let changed : IsValid (record s { traders = set_trader u.address known.1 s.traders }) =
        record {
          distinct = set-IsDistinct u.address known.1 s.traders v.distinct;
          held =
              set-AllHold s.decimals u.address known.1 s.traders
                (apply-HoldsIn s.decimals known.0 u.offer known.3 held) v.held;
        } in
      rw (← known.4) changed
  | inr fresh ↦
      let account : Account = (u.address, fresh.0) in
      let changed : IsValid (record s { traders = s.traders ++ account ∷ [] }) = record {
        distinct =
            push-IsDistinct account s.traders (find-NotIn u.address s.traders fresh.1) v.distinct;
        held =
            push-All (λ x. HoldsIn s.decimals x.1) account s.traders
              (apply-HoldsIn s.decimals (empty u.trader_type s.decimals s.decimals_quote) u.offer
                fresh.2 refl)
              v.held;
      } in
      rw (← fresh.3) changed
]

-- An update in the token's decimals does not panic.
pub update-returns :
    (s : Swarm) (u : Update)
    → s.decimals ≤ 38
    → IsValid s
    → TradesIn s.decimals u
    → update_swarm s u.address u.offer u.trader_type ≢ none
unfolding update_swarm empty
update-returns s u small v e r = elim (Option-cases (find_trader u.address s.traders)) [
  | inl fresh ↦ ground (
    arith,
    r,
    fresh,
    apply-returns s.decimals (empty u.trader_type s.decimals s.decimals_quote) u.offer small refl e,
  )
  | inr known ↦ ground (
    arith,
    r,
    known,
    apply-returns s.decimals known.0 u.offer small
        (find-HoldsIn s.decimals u.address s.traders v.held known.1) e,
  )
]
