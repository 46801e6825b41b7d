-- ===== src/Trading/Swarm/Ledger.antt =====
-- The swarm against its specification: each address has an account of its own, which only its own
-- offers change.
use automatamain.Base.{
  ℕ, ◌≡◌, refl, arith, Option, none, some, List, [], ◌∷◌, ◌++◌, ◌==◌, inl, inr, ◌⊎◌, if◌then◌else◌,
  keep, Option-cases,
}
use automatamain.Base.Partial.{◌>>=◌, >>=-eq-some}
use automatamain.Trading.Trader.{Trader, empty, apply}
use automatamain.Trading.Swarm.{
  Account, Swarm, Update, find_trader, set_trader, update_swarm, updates,
}

find-push :
    (a b : ℕ) (t : Trader) (xs : List Account)
    → find_trader a (xs ++ (b, t) ∷ [])
      ≡ elim (find_trader a xs) [ some u ↦ some u | none ↦ if b == a then some t else none ]
unfolding find_trader
find-push a b t [] = refl
find-push a b t ((c, u) ∷ xs) = ground (arith, find-push a b t xs)

find-set :
    (a b : ℕ) (t u : Trader) (xs : List Account)
    → find_trader b xs ≡ some u
    → find_trader a (set_trader b t xs) ≡ (if b == a then some t else find_trader a xs)
unfolding find_trader set_trader
find-set a b t u [] h = cc
find-set a b t u ((c, v) ∷ xs) h = ground (arith, find-set a b t u xs)

-- One trader's account under an offer of its own: the first one opens it.
unfoldable pub trade : ℕ → ℕ → Option Trader → Update → Option Trader
trade d q none u = apply (empty u.trader_type d q) u.offer
trade d q (some t) u = apply t u.offer

-- One trader's account under all its offers.
unfoldable pub account : ℕ → ℕ → Option Trader → List Update → Option (Option Trader)
account d q held [] = some held
account d q held (u ∷ us) = trade d q held u >>= λ t. account d q (some t) us

abbrev pub own : ℕ → List Update → List Update
own a us = keep (λ u. u.address == a) us

-- A returning update changes the account of its address, or opens one.
pub update-cases :
    (s : Swarm) (u : Update) {s' : Swarm}
    → update_swarm s u.address u.offer u.trader_type ≡ some s'
    → ((t t' : Trader) × (find_trader u.address s.traders ≡ some t)
        × (apply t u.offer ≡ some t')
        × (record s { traders = set_trader u.address t' s.traders } ≡ s'))
      ⊎ ((t' : Trader) × (find_trader u.address s.traders ≡ none)
          × (apply (empty u.trader_type s.decimals s.decimals_quote) u.offer ≡ some t')
          × (record s { traders = s.traders ++ (u.address, t') ∷ [] } ≡ s'))
unfolding update_swarm
update-cases s u {s'} h = elim (Option-cases (find_trader u.address s.traders)) [
  | inl fresh ↦
      let ran =
        >>=-eq-some (apply (empty u.trader_type s.decimals s.decimals_quote) u.offer)
          (λ t. some (record s { traders = s.traders ++ (u.address, t) ∷ [] })) {b = s'}
          (ground (arith, h, fresh)) in
      inr (ran.0, fresh, ran.1, ground (arith, ran))
  | inr known ↦
      let ran =
        >>=-eq-some (apply known.0 u.offer)
          (λ t. some (record s { traders = set_trader u.address t s.traders })) {b = s'}
          (ground (arith, h, known)) in
      inl (known.0, ran.0, known.1, ran.1, ground (arith, ran))
]

-- What a returning update does to the account of every address.
pub update-find :
    (s : Swarm) (u : Update) (a : ℕ) {s' : Swarm}
    → update_swarm s u.address u.offer u.trader_type ≡ some s'
    → (t : Trader) × (trade s.decimals s.decimals_quote (find_trader u.address s.traders) u
        ≡ some t)
      × (find_trader a s'.traders ≡ (if u.address == a then some t else find_trader a s.traders))
      × (s'.decimals ≡ s.decimals)
      × (s'.decimals_quote ≡ s.decimals_quote)
unfolding trade
update-find s u a h = elim (update-cases s u h) [
  | inl known ↦ (
    known.1,
    ground (arith, known),
    ground (arith, known, find-set a u.address known.1 known.0 s.traders known.2),
    ground (arith, known),
    ground (arith, known),
  )
  | inr fresh ↦ (
    fresh.0,
    ground (arith, fresh),
    ground (arith, fresh, find-push a u.address fresh.0 s.traders),
    ground (arith, fresh),
    ground (arith, fresh),
  )
]

-- After any updates that return, every address has the account that its own offers, in their order,
-- make of the one it had.
pub updates-account :
    (us : List Update) (s : Swarm) (a : ℕ) {s' : Swarm}
    → updates s us ≡ some s'
    → account s.decimals s.decimals_quote (find_trader a s.traders) (own a us)
      ≡ some (find_trader a s'.traders)
unfolding updates account
updates-account [] s a h = ground (arith, h)
updates-account (u ∷ us) s a {s'} h =
    let ran =
      >>=-eq-some (update_swarm s u.address u.offer u.trader_type) (λ m. updates m us) {b = s'} h in
    let first = update-find s u a ran.1 in
    let rest = updates-account us ran.0 a ran.2 in ground (arith, first, rest)
