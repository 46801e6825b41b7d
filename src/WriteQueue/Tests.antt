-- ===== src/WriteQueue/Tests.antt =====
-- A queue that takes two trades and two market values, and the theorems on the queue at it.
use automatamain.Base.{ℕ, ◌≡◌, refl, true, none, some, List, [], ◌∷◌}
use automatamain.Base.Int.{pos}
use automatamain.Base.Float.{Fixed, fixed_float}
use automatamain.Base.Text.{text}
use automatamain.WriteQueue.{
  WriteOp, tape, trade, QueueEvent, send, receive, deadline, senders_gone, empty_queue, try_send,
  flush, take_from, on_event, run_queue,
}
use automatamain.WriteQueue.Invariant.{IsValid}
use automatamain.WriteQueue.Conservation.{IsDrained, run_queue_conserves}
use automatamain.WriteQueue.Saves.{
  saved_trades, saved_rows, trades_of, rows_of, all_saves, finished_queue_saves,
}

abbrev Op : Type 0
Op = WriteOp Fixed ℕ

-- The third operation has no market value.
abbrev events : List (QueueEvent Op)
events =
    send (trade 7)
    ∷ send (tape (text "abc") (some (pos 40_000_000)) (text "ws"))
    ∷ receive
    ∷ deadline
    ∷ send (tape (text "abc") none (text "ws"))
    ∷ receive
    ∷ receive
    ∷ send (trade 8)
    ∷ receive
    ∷ senders_gone
    ∷ []

returned : (run_queue empty_queue events).finished ≡ true
unfolding run_queue on_event try_send take_from flush
returned = refl

run_queue_conserves_example :
    IsValid (run_queue empty_queue events) × IsDrained (run_queue empty_queue events)
run_queue_conserves_example = run_queue_conserves events

finished_queue_saves_example :
    let q = run_queue empty_queue events in
    (saved_trades (all_saves (λ i. 100) 0 q.flushed) ≡ trades_of q.accepted)
    × (saved_rows (all_saves (λ i. 100) 0 q.flushed) ≡ rows_of q.accepted)
finished_queue_saves_example = finished_queue_saves events (λ i. 100) returned
