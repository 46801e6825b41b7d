-- ===== src/Manager/Buys/Fill.antt =====
-- What the result of a buy does to the positions and to the mint.
use automatamain.Base.{
  ℕ, ◌≡◌, ◌≢◌, ◌⊎◌, inl, inr, refl, arith, true, not, ◌&&◌, Option, none, some, if◌then◌else◌, ◌==◌,
  Option-cases,
}
use automatamain.Base.Float.{Float}
use automatamain.Base.Set.{member}
use automatamain.Strategy.{note_position_closed}
use automatamain.Wallets.{find_wallet}
use automatamain.Manager.{
  ManagerConfig, Manager, OpenPosition, Clock, same_key, mints_of, find_position, insert_position,
  any_position_for_mint,
}
use automatamain.Manager.Buys.{
  Buy, BuyReceipt, BuyResult, bought, mint_unavailable, post_grad_no_route, buy_failed,
}
use automatamain.Manager.Buys.Opening.{detect_fill_mcap_spike, open_position}
use automatamain.Manager.Buys.Result.{abort_buy_after_fill_mcap_spike, apply_buy_result}
use automatamain.Manager.Buys.Opened.{
  held_under, IsFar, IsOpened, IsFar-detect, detect-IsFar, opened-IsOpened, find-without,
  held-without, holds_iff,
}

module _ {F : Type 0} ⦃fl : Float F⦄ (native : F → F) (cfg : ManagerConfig F) (clock : Clock)
    (buy : Buy F) (sold balance : Option F) (m : Manager F) where
  open fl use {fsub}

  abbrev pub after : BuyResult F → Manager F
  after result = apply_buy_result native cfg clock buy result sold balance m

  -- The buy is taken back: the fill is too far from the score, and the emergency sale of a known wallet
  -- goes through.
  abbrev pub TakenBack : BuyReceipt F → Type 0
  TakenBack receipt =
      IsFar cfg buy receipt × (sold ≢ none) × (find_wallet buy.wallet_id m.wallets.ordered ≢ none)

  -- The positions and the closed mints are as before, and the strategy books the loss of the sale.
  abbrev pub Undone : Manager F → Type 0
  Undone n =
      (n.positions ≡ m.positions)
      × (n.closed_mints ≡ m.closed_mints)
      × ((received : F) × (sold ≡ some received)
          × (n.strategy ≡ (
              note_position_closed m.strategy clock.first clock.second clock.third
                (fsub received buy.amount_sol))))

  -- The one position under the key of the buy is a new one, and every other is as before.
  pub record Opened (n : Manager F) (receipt : BuyReceipt F) : Type 0 where
    pub position : OpenPosition F
    pub fresh : IsOpened native buy receipt position
    pub found :
        (a w : ℕ)
        → find_position a w n.positions ≡ (
            if same_key a w (buy.signal.mint, buy.wallet_id)
            then some position
            else find_position a w m.positions)
    pub only : held_under buy.signal.mint buy.wallet_id n.positions ≡ 1
    pub closed : n.closed_mints ≡ m.closed_mints
    pub strategy : n.strategy ≡ m.strategy

  abbrev pub LeftAlone : Manager F → Type 0
  LeftAlone n =
      (n.positions ≡ m.positions) × (n.closed_mints ≡ m.closed_mints) × (n.strategy ≡ m.strategy)

  abbrev Inserted : Manager F → BuyReceipt F → Type 0
  Inserted n receipt =
      (n.positions
        ≡ insert_position (open_position native cfg clock.wall_secs buy receipt) m.positions)
      × (n.closed_mints ≡ m.closed_mints)
      × (n.strategy ≡ m.strategy)

  Inserted-Opened : (n : Manager F) (receipt : BuyReceipt F) → Inserted n receipt → Opened n receipt
  Inserted-Opened n receipt (inserted, closed, strategy) =
      let p = open_position native cfg clock.wall_secs buy receipt in
      let fresh = opened-IsOpened native cfg clock.wall_secs buy receipt in
      record {
        position = p;
        fresh = fresh;
        found = λ a w. rw inserted (
            ground
              (arith, fresh.mint, fresh.wallet, find-without a w p.mint p.wallet_id m.positions));
        only =
            rw inserted (
              ground
                (arith, fresh.mint, fresh.wallet, held-without p.mint p.wallet_id m.positions));
        closed = closed;
        strategy = strategy;
      }

  filled_cases :
      (receipt : BuyReceipt F)
      → (TakenBack receipt × Undone (after (bought receipt)))
        ⊎ ((¬ (TakenBack receipt)) × Opened (after (bought receipt)) receipt)
  unfolding apply_buy_result abort_buy_after_fill_mcap_spike
  filled_cases receipt =
      let opened = Inserted-Opened (after (bought receipt)) receipt in
      elim (Option-cases (detect_fill_mcap_spike cfg buy.signal.learning_snapshot receipt)) [
        | inl calm ↦ inr (λ t. IsFar-detect cfg buy receipt t.0 calm, opened (ground (arith, calm)))
        | inr (spike, seen) ↦ elim (Option-cases sold) [
          | inl unsold ↦ inr (λ t. t.1 unsold, opened (ground (arith, seen, unsold)))
          | inr (received, back) ↦
              elim (Option-cases (find_wallet buy.wallet_id m.wallets.ordered)) [
                | inl unknown ↦ inr (λ t. t.2 unknown, opened (ground (arith, seen, back, unknown)))
                | inr (w, known) ↦ inl (
                  (
                    detect-IsFar cfg buy receipt (λ e. ground (arith, seen, e)),
                    λ e. ground (arith, back, e),
                    λ e. ground (arith, known, e),
                  ),
                  (
                    ground (arith, seen, back, known),
                    ground (arith, seen, back, known),
                    (received, back, ground (arith, seen, back, known)),
                  ),
                )
              ]
        ]
      ]

  -- The mint is closed too, unless a wallet holds it; the positions are as before.
  abbrev pub GivenUp : Manager F → Type 0
  GivenUp n =
      (n.positions ≡ m.positions)
      × (n.strategy ≡ m.strategy)
      × ((a : ℕ)
          → member a n.closed_mints ≡ (
              if a == buy.signal.mint && not (member buy.signal.mint (mints_of m.positions))
              then true
              else member a m.closed_mints))

  abbrev pub Outcome : BuyResult F → Type 0
  Outcome (bought receipt) =
      (TakenBack receipt × Undone (after (bought receipt)))
      ⊎ ((¬ (TakenBack receipt)) × Opened (after (bought receipt)) receipt)
  Outcome buy_failed = LeftAlone (after buy_failed)
  Outcome mint_unavailable = GivenUp (after mint_unavailable)
  Outcome post_grad_no_route = GivenUp (after post_grad_no_route)

  -- A buy that the broker fills leaves exactly one position under the key of the mint and the wallet,
  -- in place of any that was there, and every other key as it was: it has the tokens of the receipt and
  -- the SOL spent, nothing returned, sold or on sale. That is unless the fill is too far from the score
  -- and the emergency sale of a known wallet goes through: then positions and closed mints are as before,
  -- and the strategy books what came back less what was spent. A buy that fails changes neither; one
  -- without a mint or a route closes the mint and no other, unless a wallet holds it.
  pub buy-Outcome : (result : BuyResult F) → Outcome result
  unfolding apply_buy_result any_position_for_mint
  buy-Outcome (bought receipt) = filled_cases receipt
  buy-Outcome buy_failed = (refl, refl, refl)
  buy-Outcome mint_unavailable =
      (ground arith, ground arith, λ a. ground (arith, holds_iff buy.signal.mint m.positions))
  buy-Outcome post_grad_no_route =
      (ground arith, ground arith, λ a. ground (arith, holds_iff buy.signal.mint m.positions))
