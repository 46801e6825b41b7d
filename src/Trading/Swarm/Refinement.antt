-- ===== src/Trading/Swarm/Refinement.antt =====
-- The swarm refines its specification: a map from addresses to accounts.
use automatamain.Base.{
  ℕ, ◌≤◌, ◌≡◌, refl, arith, none, some, List, [], ◌∷◌, All, inl, inr, Option-cases,
}
use automatamain.Trading.Types.{Amount}
use automatamain.Trading.Swarm.{Swarm, Update, new_swarm, find_trader, update_swarm, updates}
use automatamain.Trading.Swarm.Ledger.{account, own, update-find, updates-account}
use automatamain.Trading.Swarm.Members.{
  TradesIn, IsDistinct, IsValid, new_swarm-IsValid, update-IsValid, update-returns,
}

updates_total :
    (us : List Update) (s : Swarm)
    → s.decimals ≤ 38
    → IsValid s
    → All (λ u. TradesIn s.decimals u) us
    → (s' : Swarm) × (updates s us ≡ some s') × IsValid s'
unfolding updates
updates_total [] s small v e = (s, refl, v)
updates_total (u ∷ us) s small v e =
    elim (Option-cases (update_swarm s u.address u.offer u.trader_type)) [
      | inl panics ↦ absurd (update-returns s u small v e.0 panics)
      | inr ran ↦
          let kept = update-find s u u.address ran.1 in
          let rest =
            updates_total us ran.0 (ground (arith, small, kept)) (update-IsValid s u ran.1 v)
              (rw kept.3 e.1) in
          (rest.0, ground (arith, ran, rest), rest.2)
    ]

-- Over any updates in the token's decimals, at most 38, a new swarm does not panic; its addresses
-- differ; and every address has the account that its own offers alone, in their order, make from
-- none, with the type of the first.
pub swarm_refines :
    (supply : Amount) (d q : ℕ) (us : List Update)
    → d ≤ 38
    → All (λ u. TradesIn d u) us
    → (s : Swarm) × (updates (new_swarm supply d q) us ≡ some s)
      × IsDistinct s.traders
      × ((a : ℕ) → account d q none (own a us) ≡ some (find_trader a s.traders))
unfolding new_swarm find_trader
swarm_refines supply d q us small e =
    let ran = updates_total us (new_swarm supply d q) small (new_swarm-IsValid supply d q) e in
    (ran.0, ran.1, ran.2.distinct, λ a. updates-account us (new_swarm supply d q) a ran.1)
