-- ===== src/Manager/Buys/Opened.antt =====
-- How a position begins, when a fill is far from the score, and what an insertion finds.
use automatamain.Base.{
  ℕ, ◌≡◌, ◌≢◌, ◌⊎◌, inl, inr, refl, arith, true, false, Option, none, some, List, [], ◌∷◌,
  if◌then◌else◌, keep, length, Option-cases,
}
use automatamain.Base.Float.{Float, flt, fmax, clamp, int, milli}
use automatamain.Base.Set.{any, without, member}
use automatamain.Exit.Types.{Position, LearningTradeSnapshot}
use automatamain.Exit.Tick.Flags.{SameFlags, push-SameFlags}
use automatamain.Manager.{
  ManagerConfig, OpenPosition, same_key, has_key, of_mint, mints_of, find_position,
}
use automatamain.Manager.Buys.{Buy, BuyReceipt}
use automatamain.Manager.Buys.Opening.{
  detect_fill_mcap_spike, spike_of, open_position, new_position, seed_tape, note_entry,
  resolve_entry, entry_baseline_mcap,
}

module _ {F : Type 0} where
  -- How many positions there are under a key.
  abbrev pub held_under : ℕ → ℕ → List (OpenPosition F) → ℕ
  held_under mint wallet_id ps = length (keep (has_key mint wallet_id) ps)

  pub find-without :
      (a w mint wallet_id : ℕ) (ps : List (OpenPosition F))
      → find_position a w (without (has_key mint wallet_id) ps)
        ≡ (if same_key a w (mint, wallet_id) then none else find_position a w ps)
  find-without a w mint wallet_id [] = ground arith
  find-without a w mint wallet_id (p ∷ ps) = ground (arith, find-without a w mint wallet_id ps)

  pub held-without :
      (mint wallet_id : ℕ) (ps : List (OpenPosition F))
      → held_under mint wallet_id (without (has_key mint wallet_id) ps) ≡ 0
  held-without mint wallet_id [] = refl
  held-without mint wallet_id (p ∷ ps) = ground (arith, held-without mint wallet_id ps)

  pub holds_iff :
      (mint : ℕ) (ps : List (OpenPosition F)) → any (of_mint mint) ps ≡ member mint (mints_of ps)
  holds_iff mint [] = refl
  holds_iff mint (p ∷ ps) = ground (arith, holds_iff mint ps)

module _ {F : Type 0} ⦃fl : Float F⦄ where
  open fl use {fle, fsub, fdiv}

  -- The fill is too far from the score: both market values are there, and their ratio is over the
  -- largest one, which is at least 1, or below the least one, which is between 0.1 and 1.
  pub record IsFar (cfg : ManagerConfig F) (buy : Buy F) (receipt : BuyReceipt F) : Type 0 where
    pub snap : LearningTradeSnapshot F
    pub fill : F
    pub enabled : cfg.fill_mcap_abort_enabled ≡ true
    pub scored : buy.signal.learning_snapshot ≡ some snap
    pub score_not_zero : fle snap.entry_mcap_sol (int 0) ≡ false
    pub filled : receipt.entry_mcap_fill_sol ≡ some fill
    pub fill_positive : flt (int 0) fill ≡ true
    pub far :
        (flt (fmax cfg.fill_mcap_abort_max_ratio (int 1)) (fdiv fill snap.entry_mcap_sol) ≡ true)
        ⊎ (flt
              (fdiv fill snap.entry_mcap_sol)
              (clamp cfg.fill_mcap_abort_min_ratio (milli 100) (int 1))
            ≡ true)

  pub IsFar-detect :
      (cfg : ManagerConfig F) (buy : Buy F) (receipt : BuyReceipt F)
      → IsFar cfg buy receipt
      → detect_fill_mcap_spike cfg buy.signal.learning_snapshot receipt ≢ none
  unfolding detect_fill_mcap_spike spike_of
  IsFar-detect cfg buy receipt v calm = ground (arith, v, calm)

  pub detect-IsFar :
      (cfg : ManagerConfig F) (buy : Buy F) (receipt : BuyReceipt F)
      → detect_fill_mcap_spike cfg buy.signal.learning_snapshot receipt ≢ none
      → IsFar cfg buy receipt
  unfolding detect_fill_mcap_spike spike_of
  detect-IsFar cfg buy receipt seen = elim (Option-cases buy.signal.learning_snapshot) [
    | inl unscored ↦ absurd (ground (arith, seen, unscored))
    | inr (snap, scored) ↦ elim (Option-cases receipt.entry_mcap_fill_sol) [
      | inl unfilled ↦ absurd (ground (arith, seen, scored, unfilled))
      | inr (fill, filled) ↦ record {
        snap = snap;
        fill = fill;
        enabled = ground (arith, seen, scored, filled);
        scored = scored;
        score_not_zero = ground (arith, seen, scored, filled);
        filled = filled;
        fill_positive = ground (arith, seen, scored, filled);
        far = ground (arith, seen, scored, filled);
      }
    ]
  ]

  -- The accounts of a new position, and that nothing of it is sold or on sale.
  pub record IsOpened (native : F → F) (buy : Buy F) (receipt : BuyReceipt F) (p : OpenPosition F)
      : Type 0 where
    pub mint : p.mint ≡ buy.signal.mint
    pub wallet : p.wallet_id ≡ buy.wallet_id
    pub initial : p.initial_holdings ≡ native receipt.tokens_received
    pub holdings : p.holdings ≡ native receipt.tokens_received
    pub returned : p.total_returned ≡ int 0
    pub spent : p.spent_sol ≡ buy.amount_sol
    pub dev : p.dev_address ≡ buy.signal.dev_address
    pub early : p.early_buyers ≡ buy.signal.early_buyers
    pub not_closing : p.rules.is_closing ≡ false
    pub none_in_flight : p.rules.pending_partial_sell ≡ false
    pub no_level :
        (p.rules.tp1_triggered ≡ false)
        × (p.rules.tp2_triggered ≡ false)
        × (p.rules.tp3_triggered ≡ false)
        × (p.rules.tp4_triggered ≡ false)
        × (p.rules.tp5_triggered ≡ false)
    pub no_ceiling : p.rules.mcap_ceiling_triggered ≡ false

  seed-SameFlags :
      (cfg : ManagerConfig F) (entry : Option F) (p : Position F)
      → SameFlags p (seed_tape cfg entry p)
  unfolding seed_tape
  seed-SameFlags cfg none p = ground arith
  seed-SameFlags cfg (some mcap) p =
      let emptied = record p { exit_mcap_ticks = [] } in
      ground (arith, push-SameFlags emptied mcap cfg.smart.exit_mcap_median_ticks)

  entry-SameFlags :
      (snap : Option (LearningTradeSnapshot F)) (early_buyers : List ℕ) (p : Position F)
      → SameFlags p (note_entry snap early_buyers p)
  unfolding note_entry
  entry-SameFlags snap early_buyers p = ground arith

  resolve-SameFlags :
      (cfg : ManagerConfig F) (snap : Option (LearningTradeSnapshot F)) (now : ℕ) (p : Position F)
      → SameFlags p (resolve_entry cfg snap now p)
  unfolding resolve_entry
  resolve-SameFlags cfg snap now p = ground arith

  opened-SameFlags :
      (native : F → F) (cfg : ManagerConfig F) (now : ℕ) (buy : Buy F) (receipt : BuyReceipt F)
      → let baseline = entry_baseline_mcap cfg buy.signal.learning_snapshot receipt in
        SameFlags
          (new_position native buy.latest_pool now baseline)
          (open_position native cfg now buy receipt).rules
  unfolding open_position
  opened-SameFlags native cfg now buy receipt =
      let snap = buy.signal.learning_snapshot in
      let baseline = entry_baseline_mcap cfg snap receipt in
      let p₀ = new_position native buy.latest_pool now baseline in
      let p₁ = seed_tape cfg baseline p₀ in
      let p₂ = record p₁ { exit_profit_floor = cfg.exit_profit_floor } in
      let p₃ = note_entry snap buy.signal.early_buyers p₂ in
      let p₄ = resolve_entry cfg snap now p₃ in
      let p₅ = record p₄ { learning_snapshot = snap } in
      ground (
        arith,
        seed-SameFlags cfg baseline p₀,
        entry-SameFlags snap buy.signal.early_buyers p₂,
        resolve-SameFlags cfg snap now p₃,
        push-SameFlags p₅ p₄.enter_mcap cfg.smart.exit_mcap_median_ticks,
      )

  new-flags :
      (native : F → F) (pool : F) (now : ℕ) (baseline : Option F) (q : Position F)
      → SameFlags (new_position native pool now baseline) q
      → (q.is_closing ≡ false)
        × (q.pending_partial_sell ≡ false)
        × ((q.tp1_triggered ≡ false)
            × (q.tp2_triggered ≡ false)
            × (q.tp3_triggered ≡ false)
            × (q.tp4_triggered ≡ false)
            × (q.tp5_triggered ≡ false))
        × (q.mcap_ceiling_triggered ≡ false)
  unfolding new_position
  new-flags native pool now baseline q same = ground (arith, same)

  pub opened-IsOpened :
      (native : F → F) (cfg : ManagerConfig F) (now : ℕ) (buy : Buy F) (receipt : BuyReceipt F)
      → IsOpened native buy receipt (open_position native cfg now buy receipt)
  unfolding open_position
  opened-IsOpened native cfg now buy receipt =
      let baseline = entry_baseline_mcap cfg buy.signal.learning_snapshot receipt in
      let flags =
        new-flags native buy.latest_pool now baseline
          (open_position native cfg now buy receipt).rules
          (opened-SameFlags native cfg now buy receipt) in
      record {
        mint = refl;
        wallet = refl;
        initial = refl;
        holdings = refl;
        returned = refl;
        spent = refl;
        dev = refl;
        early = refl;
        not_closing = flags.0;
        none_in_flight = flags.1;
        no_level = flags.2;
        no_ceiling = flags.3;
      }
