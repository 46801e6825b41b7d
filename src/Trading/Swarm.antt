-- ===== src/Trading/Swarm.antt =====
-- All traders of one token (src/trading/swarm.rs): the list of accounts, and the messages that the
-- actor answers. An actor whose update panics is gone, so a run of updates is `none` from there.
pub mod Ledger
pub mod Members
pub mod Refinement
pub mod Holdings
use automatamain.Base.{
  ℕ, Bool, Option, none, some, List, [], ◌∷◌, ◌++◌, map, if◌then◌else◌, ◌==◌, length, keep,
}
use automatamain.Base.Float.{Float, int}
use automatamain.Base.Partial.{◌>>=◌}
use automatamain.Trading.Types.{Amount, Offer, from_raw}
use automatamain.Trading.Trader.{Trader, TraderType, same_type, empty, apply, pnl_percent}

abbrev pub Account : Type 0
Account = ℕ × Trader

pub record Swarm : Type 0 where
  pub traders : List Account
  pub max_token_supply : Amount
  pub decimals : ℕ
  pub decimals_quote : ℕ

unfoldable pub new_swarm : Amount → ℕ → ℕ → Swarm
new_swarm max_supply decimals decimals_quote = record {
  traders = [];
  max_token_supply = max_supply;
  decimals = decimals;
  decimals_quote = decimals_quote;
}

-- `iter().find` by address.
unfoldable pub find_trader : ℕ → List Account → Option Trader
find_trader address [] = none
find_trader address ((a, t) ∷ rest) =
    let found = find_trader address rest in if a == address then some t else found

-- What `iter_mut().find` reaches is changed in place.
unfoldable pub set_trader : ℕ → Trader → List Account → List Account
set_trader address new [] = []
set_trader address new ((a, t) ∷ rest) =
    let changed = set_trader address new rest in
    if a == address then (a, new) ∷ rest else (a, t) ∷ changed

unfoldable pub update_swarm : Swarm → ℕ → Offer → TraderType → Option Swarm
update_swarm s address offer type = elim (find_trader address s.traders) [
  | some t ↦ apply t offer >>= λ t'. some (record s { traders = set_trader address t' s.traders })
  | none ↦ apply (empty type s.decimals s.decimals_quote) offer >>= λ t'.
      some (record s { traders = s.traders ++ (address, t') ∷ [] })
]

-- `SwarmMessage::UpdateTrader`.
pub record Update : Type 0 where
  pub address : ℕ
  pub offer : Offer
  pub trader_type : TraderType

-- The actor's loop over the updates that it receives.
unfoldable pub updates : Swarm → List Update → Option Swarm
updates s [] = some s
updates s (u ∷ us) = update_swarm s u.address u.offer u.trader_type >>= λ s'. updates s' us

-- The questions to the actor. `GetTrader` and `GetTraderPnl` of an unknown address answer nothing.
unfoldable pub traders_count : Swarm → ℕ
traders_count s = length s.traders

unfoldable pub traders_by_type : Swarm → TraderType → List Account
traders_by_type s type = keep (λ x. same_type (x.1).trader_type type) s.traders

unfoldable pub trader_total_spent : Swarm → ℕ → Amount
trader_total_spent s address = elim (find_trader address s.traders) [
  | some t ↦ t.total_spent
  | none ↦ from_raw 0 s.decimals_quote
]

module _ {F : Type 0} ⦃fl : Float F⦄ where
  open fl use {fadd, fdiv, of_ℕ}

  -- `iter().sum()`, from the left.
  unfoldable pub sum_pnl : F → List Account → F
  sum_pnl total [] = total
  sum_pnl total (x ∷ rest) = sum_pnl (fadd total (pnl_percent x.1)) rest

  unfoldable pub average_pln : Swarm → TraderType → F
  average_pln s type =
      let filtered = traders_by_type s type in
      if length filtered == 0
      then int 0
      else fdiv (sum_pnl (int 0) filtered) (of_ℕ (length filtered))

  unfoldable pub trader_pnl : Swarm → ℕ → Option F
  trader_pnl s address = elim (find_trader address s.traders) [
    | some t ↦ some (pnl_percent t)
    | none ↦ none
  ]
