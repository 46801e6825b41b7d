-- ===== src/Manager/Buys/Opening.antt =====
-- The position that a filled buy opens, and how far its fill is from the score.
use automatamain.Base.{
  ℕ, Bool, true, false, not, ◌||◌, Option, none, some, List, [], if◌then◌else◌, length,
}
use automatamain.Base.Int.{pos}
use automatamain.Base.Float.{Float, flt, fmax, fmin, clamp, int, milli, neg_int}
use automatamain.Exit.Types.{
  Position, SmartBuyConfig, LearningTradeSnapshot, TkEntryThresholds, neutral, exploration,
}
use automatamain.Exit.Entry.{entry_live_score_floor}
use automatamain.Exit.Rules.{resolve_entry_profile}
use automatamain.Exit.Tape.{push_exit_mcap_tick}
use automatamain.Manager.{ManagerConfig, OpenPosition}
use automatamain.Manager.Buys.{Buy, BuyReceipt, FillMcapSpike}

module _ {F : Type 0} ⦃fl : Float F⦄ where
  open fl use {fle, fsub, fmul, fdiv}

  abbrev pub positive : Option F → Option F
  positive none = none
  positive (some x) = if flt (int 0) x then some x else none

  -- The part after the two `?`.
  unfoldable pub spike_of : ManagerConfig F → F → F → Option (FillMcapSpike F)
  spike_of cfg score_mcap fill_mcap =
      let ratio = fdiv fill_mcap score_mcap in
      let max_ratio = fmax cfg.fill_mcap_abort_max_ratio (int 1) in
      let min_ratio = clamp cfg.fill_mcap_abort_min_ratio (milli 100) (int 1) in
      let spike : Bool → FillMcapSpike F = λ adverse. record {
        score_mcap_sol = score_mcap;
        fill_mcap_sol = fill_mcap;
        ratio = ratio;
        max_ratio = max_ratio;
        min_ratio = min_ratio;
        adverse = adverse;
      } in
      if flt max_ratio ratio
      then some (spike false)
      else if flt ratio min_ratio
      then some (spike true)
      else none

  unfoldable pub detect_fill_mcap_spike :
      ManagerConfig F → Option (LearningTradeSnapshot F) → BuyReceipt F → Option (FillMcapSpike F)
  detect_fill_mcap_spike cfg none receipt = none
  detect_fill_mcap_spike cfg (some snap) receipt =
      if not cfg.fill_mcap_abort_enabled || fle snap.entry_mcap_sol (int 0)
      then none
      else elim (positive receipt.entry_mcap_fill_sol) [
        | none ↦ none
        | some fill_mcap ↦ spike_of cfg snap.entry_mcap_sol fill_mcap
      ]

  -- The score-time value, where there is one.
  abbrev pub score_mcap : Option (LearningTradeSnapshot F) → Option F
  score_mcap none = none
  score_mcap (some s) = positive (some s.entry_mcap_sol)

  unfoldable pub entry_baseline_mcap :
      ManagerConfig F → Option (LearningTradeSnapshot F) → BuyReceipt F → Option F
  entry_baseline_mcap cfg snap receipt = elim (positive receipt.entry_mcap_fill_sol) [
    | none ↦ none
    | some fill ↦
        if cfg.honest_entry_baseline
        then elim (score_mcap snap) [
          | none ↦ some fill
          | some score ↦
              let floor = fmul fill (clamp cfg.honest_entry_baseline_min_ratio (int 0) (int 1)) in
              some (fmax (fmin fill score) floor)
        ]
        else some fill
  ]

  -- `Position::new`; `native` is the amount of a float.
  unfoldable pub new_position : (F → F) → F → ℕ → Option F → Position F
  new_position native pool_mcap current_time entry_mcap_fill_sol =
      let enter_mcap : F = elim (positive entry_mcap_fill_sol) [
        | some x ↦ native x
        | none ↦ pool_mcap
      ] in
      record {
        pool_mcap = pool_mcap;
        enter_mcap = enter_mcap;
        highest_mcap = enter_mcap;
        exit_profit_floor = neg_int 16;
        tp1_triggered = false;
        tp2_triggered = false;
        tp3_triggered = false;
        tp4_triggered = false;
        tp5_triggered = false;
        mcap_ceiling_triggered = false;
        trailing_active = false;
        is_closing = false;
        pending_partial_sell = false;
        entry_time = current_time;
        learning_snapshot = none;
        tk_entry_buyers = 0;
        tk_entry_smart = 0;
        tk_entry_b2s = int 0;
        tk_last_secs = 0;
        tk_last_mcap = int 0;
        tk_prev_secs = 0;
        tk_prev_mcap = int 0;
        last_time_kill_after_secs = 0;
        exit_profile = neutral;
        hold_mode = false;
        exit_phase = exploration;
        live_score = pos 0;
        live_prev_velocity = int 0;
        live_buyers_per_sec = int 0;
        live_prev_buyers_per_sec = int 0;
        last_live_score_at = 0;
        live_score_entry_floor = pos 1;
        peak_profit_pct = int 0;
        live_tape_seen = false;
        exit_mcap_ticks = [];
        sl_below_floor_streak = 0;
        decay_streak = 0;
        flush_active = false;
        flush_low_mcap = int 0;
        recovery_score = pos 0;
        sl_prev_raw_mcap = none;
        use_jupiter_exit_mcap = false;
        exit_mcap_jupiter = none;
        last_exit_mcap_poll_at = 0;
      }

  abbrev pub thresholds_of : SmartBuyConfig F → TkEntryThresholds F
  thresholds_of cfg = record {
    strong_min_buyers = cfg.time_kill_strong_min_buyers;
    strong_min_b2s = cfg.time_kill_strong_min_b2s;
    weak_max_buyers = cfg.time_kill_weak_max_buyers;
    weak_max_b2s = cfg.time_kill_weak_max_b2s;
  }

  -- The tape of a position whose entry value is known begins with that value.
  unfoldable pub seed_tape : ManagerConfig F → Option F → Position F → Position F
  seed_tape cfg none p = p
  seed_tape cfg (some entry_mcap) p =
      if flt (int 0) entry_mcap
      then record (push_exit_mcap_tick (record p { exit_mcap_ticks = [] }) entry_mcap
          cfg.smart.exit_mcap_median_ticks) { sl_prev_raw_mcap = some entry_mcap }
      else p

  -- What the time kill keeps of the entry.
  unfoldable pub note_entry : Option (LearningTradeSnapshot F) → List ℕ → Position F → Position F
  note_entry none early_buyers p = record p {
    tk_entry_buyers = length early_buyers;
    tk_entry_smart = 0;
    tk_entry_b2s = int 0;
  }
  note_entry (some s) early_buyers p = record p {
    tk_entry_buyers = s.buyer_count;
    tk_entry_smart = s.smart_wallet_count;
    tk_entry_b2s = s.buy_to_sell_ratio;
  }

  unfoldable pub resolve_entry :
      ManagerConfig F → Option (LearningTradeSnapshot F) → ℕ → Position F → Position F
  resolve_entry cfg snap current_time p =
      let resolved = resolve_entry_profile (thresholds_of cfg.smart) cfg.smart.exit_v4 p snap in
      let floor = entry_live_score_floor snap in
      if cfg.smart.exit_v4.enabled
      then record p {
        exit_profile = resolved.0;
        hold_mode = resolved.1;
        exit_phase = exploration;
        live_score_entry_floor = floor;
        live_score = floor;
        last_live_score_at = current_time;
      }
      else p

  -- The position that a receipt opens.
  unfoldable pub open_position :
      (F → F) → ManagerConfig F → (current_time : ℕ) → Buy F → BuyReceipt F → OpenPosition F
  open_position native cfg current_time buy receipt =
      let snap = buy.signal.learning_snapshot in
      let baseline = entry_baseline_mcap cfg snap receipt in
      let fresh =
        seed_tape cfg baseline (new_position native buy.latest_pool current_time baseline) in
      let entered =
        note_entry snap buy.signal.early_buyers
          (record fresh { exit_profit_floor = cfg.exit_profit_floor }) in
      let resolved = resolve_entry cfg snap current_time entered in
      let rules =
        push_exit_mcap_tick (record resolved { learning_snapshot = snap }) resolved.enter_mcap
          cfg.smart.exit_mcap_median_ticks in
      record {
        mint = buy.signal.mint;
        wallet_id = buy.wallet_id;
        rules = rules;
        initial_holdings = native receipt.tokens_received;
        holdings = native receipt.tokens_received;
        total_returned = int 0;
        spent_sol = buy.amount_sol;
        dev_address = buy.signal.dev_address;
        early_buyers = buy.signal.early_buyers;
      }
