-- ===== src/WriteQueue/Saves.antt =====
-- What the database is given in all, once the worker has returned.
use mathlib.Core.List.{append-nil, append_assoc}
use automatamain.Base.{
  ℕ, suc, ◌≡◌, inl, inr, refl, sym, ap, ◌∙◌, arith, true, List, [], ◌∷◌, ◌++◌, map, if◌then◌else◌,
}
use automatamain.Base.Float.{Float}
use automatamain.Base.Text.{Text}
use automatamain.WriteQueue.{
  WriteOp, tape, trade, TapeRow, Save, record_batch, save_trade, mcap_valid, tape_row, tape_rows,
  trade_saves, batch_saves, flush_batch, WriteQueue, QueueEvent, empty_queue, run_queue,
}
use automatamain.WriteQueue.Invariant.{concat, IsValid}
use automatamain.WriteQueue.Conservation.{IsDrained, run_queue_conserves}

abbrev pub row_key : {F : Type 0} → TapeRow F → Text × F × Text
row_key r = (r.coin_address, r.mcap_sol, r.source)

module _ {F E : Type 0} where
  -- The trades that are saved, and the rows, without the time of their batch.
  abbrev pub saved_trades : List (Save F E) → List E
  saved_trades [] = []
  saved_trades (record_batch rows ∷ ss) = saved_trades ss
  saved_trades (save_trade e ∷ ss) = e ∷ saved_trades ss

  abbrev pub saved_rows : List (Save F E) → List (Text × F × Text)
  saved_rows [] = []
  saved_rows (record_batch rows ∷ ss) = map row_key rows ++ saved_rows ss
  saved_rows (save_trade e ∷ ss) = saved_rows ss

  -- The trades among operations.
  abbrev pub trades_of : List (WriteOp F E) → List E
  trades_of [] = []
  trades_of (tape coin mcap_sol source ∷ ops) = trades_of ops
  trades_of (trade e ∷ ops) = e ∷ trades_of ops

  trades_of-append :
      (xs ys : List (WriteOp F E)) → trades_of (xs ++ ys) ≡ trades_of xs ++ trades_of ys
  trades_of-append [] ys = refl
  trades_of-append (tape coin mcap_sol source ∷ xs) ys = trades_of-append xs ys
  trades_of-append (trade e ∷ xs) ys = ap (λ r. e ∷ r) (trades_of-append xs ys)

  saved_trades-append :
      (xs ys : List (Save F E)) → saved_trades (xs ++ ys) ≡ saved_trades xs ++ saved_trades ys
  saved_trades-append [] ys = refl
  saved_trades-append (record_batch rows ∷ xs) ys = saved_trades-append xs ys
  saved_trades-append (save_trade e ∷ xs) ys = ap (λ r. e ∷ r) (saved_trades-append xs ys)

  saved_rows-append :
      (xs ys : List (Save F E)) → saved_rows (xs ++ ys) ≡ saved_rows xs ++ saved_rows ys
  saved_rows-append [] ys = refl
  saved_rows-append (record_batch rows ∷ xs) ys =
      ap (λ r. map row_key rows ++ r) (saved_rows-append xs ys)
      ∙ sym (append_assoc (map row_key rows) (saved_rows xs) (saved_rows ys))
  saved_rows-append (save_trade e ∷ xs) ys = saved_rows-append xs ys

  saved_trades-batch : (rows : List (TapeRow F)) → saved_trades (batch_saves rows) ≡ []
  saved_trades-batch [] = refl
  saved_trades-batch (r ∷ rows) = refl

  saved_trades-trades : (ops : List (WriteOp F E)) → saved_trades (trade_saves ops) ≡ trades_of ops
  unfolding trade_saves
  saved_trades-trades [] = refl
  saved_trades-trades (tape coin mcap_sol source ∷ ops) = saved_trades-trades ops
  saved_trades-trades (trade e ∷ ops) = ap (λ r. e ∷ r) (saved_trades-trades ops)

  saved_rows-trades : (ops : List (WriteOp F E)) → saved_rows (trade_saves ops) ≡ []
  unfolding trade_saves
  saved_rows-trades [] = refl
  saved_rows-trades (tape coin mcap_sol source ∷ ops) = saved_rows-trades ops
  saved_rows-trades (trade e ∷ ops) = saved_rows-trades ops

saved_rows-batch :
    {F : Type 0} (E : Type 0) (rows : List (TapeRow F))
    → saved_rows {F = F} {E = E} (batch_saves rows) ≡ map row_key rows
saved_rows-batch E [] = refl
saved_rows-batch E (r ∷ rows) = append-nil (map row_key (r ∷ rows))

module _ {F E : Type 0} ⦃fl : Float F⦄ where
  -- The rows that operations ask for: those with a valid market value.
  abbrev pub rows_of : List (WriteOp F E) → List (Text × F × Text)
  rows_of [] = []
  rows_of (tape coin mcap_sol source ∷ ops) =
      let rest = rows_of ops in
      if mcap_valid mcap_sol then (coin, mcap_sol, source) ∷ rest else rest
  rows_of (trade e ∷ ops) = rows_of ops

  rows_of-append : (xs ys : List (WriteOp F E)) → rows_of (xs ++ ys) ≡ rows_of xs ++ rows_of ys
  rows_of-append [] ys = refl
  rows_of-append (tape coin mcap_sol source ∷ xs) ys = ground (arith, rows_of-append xs ys)
  rows_of-append (trade e ∷ xs) ys = rows_of-append xs ys

  tape_rows-key :
      (now : ℕ) (ops : List (WriteOp F E)) → map row_key (tape_rows now ops) ≡ rows_of ops
  unfolding tape_rows tape_row
  tape_rows-key now [] = refl
  tape_rows-key now (tape coin mcap_sol source ∷ ops) = ground (arith, tape_rows-key now ops)
  tape_rows-key now (trade e ∷ ops) = tape_rows-key now ops

  -- The writes of all flushes, each with its reading of the clock.
  unfoldable pub all_saves : (ℕ → ℕ) → ℕ → List (List (WriteOp F E)) → List (Save F E)
  all_saves clock i [] = []
  all_saves clock i (b ∷ bs) = flush_batch (clock i) b ++ all_saves clock (suc i) bs

  flush_batch-trades :
      (now : ℕ) (ops : List (WriteOp F E)) → saved_trades (flush_batch now ops) ≡ trades_of ops
  unfolding flush_batch
  flush_batch-trades now ops =
      saved_trades-append (batch_saves (tape_rows now ops)) (trade_saves ops)
      ∙ rw (saved_trades-batch (tape_rows now ops)) (saved_trades-trades ops)

  flush_batch-rows :
      (now : ℕ) (ops : List (WriteOp F E)) → saved_rows (flush_batch now ops) ≡ rows_of ops
  unfolding flush_batch
  flush_batch-rows now ops =
      saved_rows-append (batch_saves (tape_rows now ops)) (trade_saves ops)
      ∙ rw (saved_rows-batch E (tape_rows now ops), saved_rows-trades ops)
          (append-nil (map row_key (tape_rows now ops)) ∙ tape_rows-key now ops)

  all_saves-concat :
      (clock : ℕ → ℕ) (i : ℕ) (bs : List (List (WriteOp F E)))
      → (saved_trades (all_saves clock i bs) ≡ trades_of (concat bs))
        × (saved_rows (all_saves clock i bs) ≡ rows_of (concat bs))
  unfolding all_saves
  all_saves-concat clock i [] = (refl, refl)
  all_saves-concat clock i (b ∷ bs) =
      let rest = all_saves-concat clock (suc i) bs in
      (
        saved_trades-append (flush_batch (clock i) b) (all_saves clock (suc i) bs)
            ∙ rw (flush_batch-trades (clock i) b, rest.0) (sym (trades_of-append b (concat bs))),
        saved_rows-append (flush_batch (clock i) b) (all_saves clock (suc i) bs)
            ∙ rw (flush_batch-rows (clock i) b, rest.1) (sym (rows_of-append b (concat bs))),
      )

  drained_order :
      (q : WriteQueue (WriteOp F E))
      → IsValid q
      → IsDrained q
      → q.finished ≡ true
      → concat q.flushed ≡ q.accepted
  drained_order q v (inl running) over = cc
  drained_order q v (inr empty) over =
      sym (append-nil (concat q.flushed))
      ∙ ap (λ r. concat q.flushed ++ r) (rw (empty.0, empty.1) refl)
      ∙ v.order

  -- Once the worker of a queue that began empty has returned, the database was given exactly the
  -- trades that the channel took, in their order, and exactly the rows of the market values among them
  -- that are valid, in theirs, whatever the clock read.
  pub finished_queue_saves :
      (es : List (QueueEvent (WriteOp F E))) (clock : ℕ → ℕ)
      → (run_queue empty_queue es).finished ≡ true
      → let q = run_queue empty_queue es in
        (saved_trades (all_saves clock 0 q.flushed) ≡ trades_of q.accepted)
        × (saved_rows (all_saves clock 0 q.flushed) ≡ rows_of q.accepted)
  finished_queue_saves es clock over =
      let q = run_queue empty_queue es in
      let sound = run_queue_conserves es in
      let order = drained_order q sound.0 sound.1 over in
      let saved = all_saves-concat clock 0 q.flushed in
      (saved.0 ∙ ap trades_of order, saved.1 ∙ ap rows_of order)
