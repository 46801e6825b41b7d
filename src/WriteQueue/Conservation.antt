-- ===== src/WriteQueue/Conservation.antt =====
-- No write is lost, doubled or reordered between the channel and the flushes.
use automatamain.Base.{
  ◌≡◌, ◌⊎◌, inl, inr, refl, ◌∙◌, arith, true, false, List, [], ◌∷◌, ◌++◌, length, Bool-cases,
}
use automatamain.WriteQueue.{
  WriteQueue, QueueEvent, send, receive, deadline, senders_gone, empty_queue, try_send, flush,
  take_from, on_event, run_queue,
}
use automatamain.WriteQueue.Invariant.{
  zero-or-pos, pos→not_zero, IsValid, try_send-IsValid, flush-IsValid, take_from-IsValid,
  IsValid-IsFull,
}

module _ {O : Type 0} where
  -- A worker that has returned left nothing behind.
  abbrev pub IsDrained : WriteQueue O → Type 0
  IsDrained q = (q.finished ≡ false) ⊎ ((q.buf ≡ []) × (q.pending ≡ []))

  abbrev IsSound : WriteQueue O → Type 0
  IsSound q = IsValid q × IsDrained q

  empty_of_length : (xs : List O) → length xs ≡ 0 → xs ≡ []
  empty_of_length [] h = refl
  empty_of_length (x ∷ xs) h = absurd (omega (arith, h))

  flush_keeps :
      (q : WriteQueue O)
      → ((flush q).finished ≡ q.finished) × ((flush q).pending ≡ q.pending) × ((flush q).buf ≡ [])
  unfolding flush
  flush_keeps q = elim (zero-or-pos (length q.buf)) [
    | inl none ↦ rw none (refl, refl, empty_of_length q.buf none)
    | inr some ↦ rw (pos→not_zero (length q.buf) some) (refl, refl, refl)
  ]

  try_send-finished : (q : WriteQueue O) (op : O) → (try_send q op).finished ≡ q.finished
  unfolding try_send
  try_send-finished q op = ground arith

  take_from-finished : (q : WriteQueue O) (ps : List O) → (take_from q ps).finished ≡ q.finished
  unfolding take_from
  take_from-finished q [] = refl
  take_from-finished q (op ∷ rest) =
      ground (arith, flush_keeps (record q { pending = rest; buf = q.buf ++ op ∷ [] }))

  finish-IsSound :
      (q : WriteQueue O)
      → IsValid q
      → q.pending ≡ []
      → IsSound (record (flush q) { finished = true })
  finish-IsSound q v e =
      let flushed = flush-IsValid q (IsValid-IsFull q v) in
      (
        record {
          order = flushed.order;
          batches = flushed.batches;
          buffer = flushed.buffer;
          capacity = flushed.capacity;
          sent = flushed.sent;
          ops = flushed.ops;
          calls = flushed.calls;
        },
        inr ((flush_keeps q).2, (flush_keeps q).1 ∙ e),
      )

  running_event-IsSound :
      (q : WriteQueue O) (e : QueueEvent O)
      → q.finished ≡ false
      → IsValid q
      → IsSound (on_event q e)
  unfolding on_event
  running_event-IsSound q (send op) r v =
      simp r (try_send-IsValid q op v, inl (try_send-finished q op ∙ r))
  running_event-IsSound q receive r v =
      simp r (take_from-IsValid q q.pending refl v, inl (take_from-finished q q.pending ∙ r))
  running_event-IsSound q deadline r v =
      simp r (flush-IsValid q (IsValid-IsFull q v), inl ((flush_keeps q).0 ∙ r))
  running_event-IsSound q senders_gone r v = elim (zero-or-pos (length q.pending)) [
    | inl none ↦ simp (r, none) (finish-IsSound q v (empty_of_length q.pending none))
    | inr some ↦ simp (r, pos→not_zero (length q.pending) some) (v, inl refl)
  ]

  finished_event : (q : WriteQueue O) (e : QueueEvent O) → q.finished ≡ true → on_event q e ≡ q
  unfolding on_event
  finished_event q (send op) over = simp over refl
  finished_event q receive over = simp over refl
  finished_event q deadline over = simp over refl
  finished_event q senders_gone over = simp over refl

  on_event-IsSound : (q : WriteQueue O) (e : QueueEvent O) → IsSound q → IsSound (on_event q e)
  on_event-IsSound q e v = elim (Bool-cases q.finished) [
    | inl over ↦ rw (finished_event q e over) v
    | inr running ↦ running_event-IsSound q e running v.0
  ]

  run_queue-IsSound :
      (es : List (QueueEvent O)) (q : WriteQueue O) → IsSound q → IsSound (run_queue q es)
  unfolding run_queue
  run_queue-IsSound [] q v = v
  run_queue-IsSound (e ∷ es) q v = run_queue-IsSound es (on_event q e) (on_event-IsSound q e v)

  -- Over any sends, receptions, deadlines and departures of the senders from an empty queue: what
  -- the channel took was flushed, is buffered or is pending, in the order in which it was sent; each
  -- flush takes between 1 and 64 operations; the channel and the buffer keep their bounds; every send
  -- is counted as dropped or was taken, and the counters of the flushes are right, modulo 2 ^ 64; and a
  -- worker that has returned has left nothing in the channel or the buffer.
  pub run_queue_conserves :
      (es : List (QueueEvent O))
      → IsValid (run_queue empty_queue es) × IsDrained (run_queue empty_queue es)
  run_queue_conserves es = run_queue-IsSound es empty_queue (
    record {
      order = refl;
      batches = tt;
      buffer = omega arith;
      capacity = omega arith;
      sent = omega arith;
      ops = omega arith;
      calls = omega arith;
    },
    inl refl,
  )
