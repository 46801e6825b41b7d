-- ===== src/Exit/Tick/Order.antt =====
-- What a round may do to a position: which sales it queues, in which order, and how often.
use automatamain.Base.{ℕ, ◌≡◌, inl, inr, refl, arith, Bool, false, Bool-cases}
use automatamain.Base.Float.{Float}
use automatamain.Exit.Types.{Position, SmartBuyConfig, ExitTpProfile}
use automatamain.Exit.Tick.Rule.{or_next}
use automatamain.Exit.Tick.Observe.{View}
use automatamain.Exit.Tick.Stops.{
  count_decay, track_flush, momentum_decay_rule, time_kill_rule, stop_loss_rule,
}
use automatamain.Exit.Tick.Profits.{
  tp1_rule, tp2_rule, tp3_rule, tp4_rule, tp5_rule, ceiling_rule, trailing_rule, upgrade_protection,
  take_profit_rule,
}
use automatamain.Exit.Tick.Flags.{
  level, WhileOpen, Answers, SaleFor, Answers-later, or_next-Answers, same_pending, unless_pending,
  prepare-SameFlags,
}
use automatamain.Exit.Tick.{prepare, ask_rules, tick}

module _ {F : Type 0} ⦃fl : Float F⦄ where
  momentum_decay-Answers :
      (cfg : SmartBuyConfig F) (v : View F) (p : Position F)
      → Answers p (momentum_decay_rule cfg v p)
  unfolding momentum_decay_rule count_decay track_flush Answers SaleFor level
  momentum_decay-Answers cfg v p = ground arith

  time_kill-Answers :
      (cfg : SmartBuyConfig F) (v : View F) (p : Position F) → Answers p (time_kill_rule cfg v p)
  unfolding time_kill_rule Answers SaleFor level
  time_kill-Answers cfg v p = ground arith

  stop_loss-Answers :
      (cfg : SmartBuyConfig F) (v : View F) (p : Position F) → Answers p (stop_loss_rule cfg v p)
  unfolding stop_loss_rule Answers SaleFor level
  stop_loss-Answers cfg v p = ground arith

  ceiling-Answers :
      (cfg : SmartBuyConfig F) (tp : ExitTpProfile F) (v : View F) (p : Position F)
      → Answers p (ceiling_rule cfg tp v p)
  unfolding ceiling_rule Answers SaleFor level
  ceiling-Answers cfg tp v p = ground arith

  trailing-Answers :
      (cfg : SmartBuyConfig F) (v : View F) (p : Position F) → Answers p (trailing_rule cfg v p)
  unfolding trailing_rule Answers SaleFor level
  trailing-Answers cfg v p = ground arith

  upgrade_protection-Answers :
      (tp : ExitTpProfile F) (v : View F) (p : Position F) → Answers p (upgrade_protection tp v p)
  unfolding upgrade_protection Answers SaleFor level
  upgrade_protection-Answers tp v p = ground arith

  tp1-Answers :
      (tp : ExitTpProfile F) (v : View F) (p : Position F)
      → p.pending_partial_sell ≡ false
      → Answers p (tp1_rule tp v p)
  unfolding tp1_rule Answers SaleFor level
  tp1-Answers tp v p h = ground arith

  tp2-Answers :
      (tp : ExitTpProfile F) (v : View F) (p : Position F)
      → p.pending_partial_sell ≡ false
      → Answers p (tp2_rule tp v p)
  unfolding tp2_rule Answers SaleFor level
  tp2-Answers tp v p h = ground arith

  tp3-Answers :
      (cfg : SmartBuyConfig F) (tp : ExitTpProfile F) (v : View F) (p : Position F)
      → p.pending_partial_sell ≡ false
      → Answers p (tp3_rule cfg tp v p)
  unfolding tp3_rule Answers SaleFor level
  tp3-Answers cfg tp v p h = ground arith

  tp4-Answers :
      (cfg : SmartBuyConfig F) (tp : ExitTpProfile F) (v : View F) (p : Position F)
      → p.pending_partial_sell ≡ false
      → Answers p (tp4_rule cfg tp v p)
  unfolding tp4_rule Answers SaleFor level
  tp4-Answers cfg tp v p h = ground arith

  tp5-Answers :
      (cfg : SmartBuyConfig F) (tp : ExitTpProfile F) (v : View F) (p : Position F)
      → p.pending_partial_sell ≡ false
      → Answers p (tp5_rule cfg tp v p)
  unfolding tp5_rule Answers SaleFor level
  tp5-Answers cfg tp v p h = ground arith

  take_levels :
      (cfg : SmartBuyConfig F) (tp : ExitTpProfile F) (v : View F) (p : Position F)
      → p.pending_partial_sell ≡ false
      → Answers p (
          or_next
            (or_next
              (or_next (or_next (tp1_rule tp v p) (tp2_rule tp v)) (tp3_rule cfg tp v))
              (tp4_rule cfg tp v))
            (tp5_rule cfg tp v))
  take_levels cfg tp v p h =
      or_next-Answers p _ _
        (or_next-Answers p _ _
          (or_next-Answers p _ _
            (or_next-Answers p _ _ (tp1-Answers tp v p h)
              (λ q same. tp2-Answers tp v q (same_pending p q h same)))
            (λ q same. tp3-Answers cfg tp v q (same_pending p q h same)))
          (λ q same. tp4-Answers cfg tp v q (same_pending p q h same)))
        (λ q same. tp5-Answers cfg tp v q (same_pending p q h same))

  take_profit-Answers :
      (cfg : SmartBuyConfig F) (tp : ExitTpProfile F) (v : View F) (p : Position F)
      → Answers p (take_profit_rule cfg tp v p)
  unfolding take_profit_rule
  take_profit-Answers cfg tp v p =
      unless_pending p.pending_partial_sell p _ (take_levels cfg tp v p)

  ask_rules-Answers :
      (cfg : SmartBuyConfig F) (v : View F) (p : Position F) → Answers p (ask_rules cfg v p)
  unfolding ask_rules
  ask_rules-Answers cfg v p =
      or_next-Answers p _ _
        (or_next-Answers p _ _
          (or_next-Answers p _ _
            (or_next-Answers p _ _
              (or_next-Answers p _ _
                (or_next-Answers p _ _ (momentum_decay-Answers cfg v p)
                  (λ q same. time_kill-Answers cfg v q))
                (λ q same. stop_loss-Answers cfg v q))
              (λ q same. ceiling-Answers cfg _ v q))
            (λ q same. trailing-Answers cfg v q))
          (λ q same. upgrade_protection-Answers _ v q))
        (λ q same. take_profit-Answers cfg _ v q)

  asked-Answers :
      (cfg : SmartBuyConfig F) (t : ℕ) (rpc : Bool) (p : Position F) → Answers p (tick cfg t rpc p)
  unfolding tick
  asked-Answers cfg t rpc p =
      let (q, v) = prepare cfg t rpc p in
      unless_pending p.is_closing p (ask_rules cfg v q) (λ h.
        Answers-later p q (ask_rules cfg v q) (prepare-SameFlags cfg t rpc p)
          (ask_rules-Answers cfg v q))

  tick-WhileOpen :
      (cfg : SmartBuyConfig F) (t : ℕ) (rpc : Bool) (p : Position F)
      → WhileOpen p (tick cfg t rpc p)
  unfolding tick
  tick-WhileOpen cfg t rpc p = elim (Bool-cases p.is_closing) [
    | inl closing ↦ inr (rw (tick, closing) refl)
    | inr still_open ↦ inl still_open
  ]

  -- A round leaves a position that is closing just as it is, and queues nothing for it. For any other,
  -- without a sale the marks of the levels and of the ceiling, the closing and the sale in flight stay
  -- as they are; a sale of level n starts with no partial sale in flight and n unmarked, and marks n
  -- and no other; a sale at the ceiling likewise marks the ceiling alone; both leave the position open
  -- and a partial sale in flight. Any other sale is of everything, leaves the position closing, and
  -- changes neither marks nor what is in flight.
  pub tick-Answers :
      (cfg : SmartBuyConfig F) (t : ℕ) (rpc : Bool) (p : Position F)
      → WhileOpen p (tick cfg t rpc p) × Answers p (tick cfg t rpc p)
  tick-Answers cfg t rpc p = (tick-WhileOpen cfg t rpc p, asked-Answers cfg t rpc p)
