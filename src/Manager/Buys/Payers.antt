-- ===== src/Manager/Buys/Payers.antt =====
-- Who pays for a signal, and that nobody holds its mint.
use automatamain.Base.{
  ℕ, ◌≡◌, ◌≢◌, refl, arith, true, false, Option, none, some, List, [], ◌∷◌, keep, if◌then◌else◌,
}
use automatamain.Base.Float.{Float}
use automatamain.Base.Set.{any}
use automatamain.Score.Types.{Tier, a_plus, a, b, skip}
use automatamain.Wallets.{WalletHandle, WalletTierSize, amount_for_signal}
use automatamain.Manager.{OpenPosition, BuySignal, of_mint, find_position}
use automatamain.Manager.Buys.{buyers}

module _ {F : Type 0} where
  -- What a wallet pays: by the size of the tier, its own size, or that of the signal.
  abbrev pub own_amount : Option (WalletTierSize F) → Option F → F → Tier → F
  own_amount (some sizes) size signal_sol a_plus = sizes.a_plus_sol
  own_amount (some sizes) size signal_sol a = sizes.a_sol
  own_amount (some sizes) size signal_sol b = sizes.b_sol
  own_amount (some sizes) size signal_sol skip = signal_sol
  own_amount none (some size) signal_sol tier = size
  own_amount none none signal_sol tier = signal_sol

  -- The enabled wallets, with what each pays.
  abbrev pub payers : BuySignal F → List (WalletHandle F) → List (ℕ × F)
  payers signal [] = []
  payers signal (w ∷ ws) =
      let rest = payers signal ws in
      if w.enabled
      then (w.id, own_amount w.tier_size w.size_sol signal.amount_sol signal.buy_tier) ∷ rest
      else rest

  pub no_payer :
      (signal : BuySignal F) (ws : List (WalletHandle F))
      → any (λ w. w.enabled) ws ≡ false
      → payers signal ws ≡ []
  no_payer signal [] h = refl
  no_payer signal (w ∷ ws) h = ground (arith, h, no_payer signal ws)

  pub some_payer :
      (signal : BuySignal F) (ws : List (WalletHandle F))
      → any (λ w. w.enabled) ws ≡ true
      → payers signal ws ≢ []
  some_payer signal [] h e = absurd (ground (arith, h))
  some_payer signal (w ∷ ws) h e = ground (arith, h, e, some_payer signal ws)

  pub none_held :
      (mint w : ℕ) (ps : List (OpenPosition F))
      → any (of_mint mint) ps ≡ false
      → find_position mint w ps ≡ none
  none_held mint w [] h = refl
  none_held mint w (p ∷ ps) h = ground (arith, h, none_held mint w ps)

  pub none_found :
      (mint : ℕ) (ps : List (OpenPosition F))
      → ((w : ℕ) → find_position mint w ps ≡ none)
      → any (of_mint mint) ps ≡ false
  none_found mint [] h = refl
  none_found mint (p ∷ ps) h =
      ground (arith, h p.wallet_id, none_found mint ps (λ w. ground (arith, h w)))

module _ {F : Type 0} ⦃fl : Float F⦄ where
  pub buyers-payers :
      (signal : BuySignal F) (ws : List (WalletHandle F))
      → buyers signal (keep (λ w. w.enabled) ws) ≡ payers signal ws
  unfolding amount_for_signal
  buyers-payers signal [] = refl
  buyers-payers signal (w ∷ ws) = ground (arith, buyers-payers signal ws)
