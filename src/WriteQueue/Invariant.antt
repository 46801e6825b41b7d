-- ===== src/WriteQueue/Invariant.antt =====
-- What the queue keeps, and that each of its operations keeps it.
use mathlib.Core.List.{append-nil, append_assoc}
use automatamain.Base.{
  ℕ, suc, ◌+◌, ◌%◌, ◌^◌, ◌≤◌, ◌<◌, ◌≡◌, ◌⊎◌, inl, inr, sym, ap, ◌∙◌, arith, false, List, [], ◌∷◌,
  ◌++◌, length, length-append, All, le-or-lt, leb, ◌==◌, le→leb,
}
use automatamain.WriteQueue.{WriteQueue, channel_cap, flush_max_ops, try_send, flush, take_from}

lt→not_leb : (a b : ℕ) → b < a → leb a b ≡ false
lt→not_leb a b h = ground arith

pub zero-or-pos : (n : ℕ) → (n ≡ 0) ⊎ (0 < n)
zero-or-pos n = ground arith

pub pos→not_zero : (n : ℕ) → 0 < n → (n == 0) ≡ false
pos→not_zero n h = ground arith

module _ {O : Type 0} where
  abbrev pub concat : List (List O) → List O
  concat [] = []
  concat (xs ∷ xss) = xs ++ concat xss

  concat-push :
      (xss : List (List O)) (xs ys : List O)
      → concat (xss ++ xs ∷ []) ++ ys ≡ concat xss ++ (xs ++ ys)
  concat-push [] xs ys = ap (λ zs. zs ++ ys) (append-nil xs)
  concat-push (z ∷ zs) xs ys =
      append_assoc z (concat (zs ++ xs ∷ [])) ys
      ∙ ap (λ r. z ++ r) (concat-push zs xs ys)
      ∙ sym (append_assoc z (concat zs) (xs ++ ys))

  -- A flush takes between one operation and as many as the buffer may hold.
  abbrev pub IsBatch : List O → Type 0
  IsBatch xs = (1 ≤ length xs) × (length xs ≤ flush_max_ops)

  All-push :
      (xss : List (List O)) (xs : List O)
      → All IsBatch xss
      → IsBatch xs
      → All IsBatch (xss ++ xs ∷ [])
  All-push [] xs h hx = (hx, tt)
  All-push (z ∷ zs) xs h hx = (h.0, All-push zs xs h.1 hx)

  length-push : (xss : List (List O)) (xs : List O) → length (xss ++ xs ∷ []) ≡ suc (length xss)
  length-push xss xs = omega (arith, length-append xss (xs ∷ []))

  length-concat_push :
      (xss : List (List O)) (xs : List O)
      → length (concat (xss ++ xs ∷ [])) ≡ length (concat xss) + length xs
  length-concat_push [] xs = omega (arith, length-append xs [])
  length-concat_push (z ∷ zs) xs = omega (
    arith,
    length-concat_push zs xs,
    length-append z (concat (zs ++ xs ∷ [])),
    length-append z (concat zs),
  )

  pub record IsValid (q : WriteQueue O) : Type 0 where
    -- What the channel took was flushed, is buffered or is pending, in that order.
    pub order : concat q.flushed ++ (q.buf ++ q.pending) ≡ q.accepted
    pub batches : All IsBatch q.flushed
    pub buffer : length q.buf < flush_max_ops
    pub capacity : length q.pending ≤ channel_cap
    -- The counters, modulo 2 ^ 64.
    pub sent : q.enqueued ≡ (q.dropped + length q.accepted) % 2 ^ 64
    pub ops : q.flushed_ops ≡ length (concat q.flushed) % 2 ^ 64
    pub calls : q.flush_batches ≡ length q.flushed % 2 ^ 64

  pub try_send-IsValid : (q : WriteQueue O) (op : O) → IsValid q → IsValid (try_send q op)
  unfolding try_send
  try_send-IsValid q op v = elim (le-or-lt channel_cap (length q.pending)) [
    | inl full ↦ rw (le→leb channel_cap (length q.pending) full) (record {
      order = v.order;
      batches = v.batches;
      buffer = v.buffer;
      capacity = v.capacity;
      sent = omega (arith, v.sent);
      ops = v.ops;
      calls = v.calls;
    })
    | inr room ↦ rw (lt→not_leb channel_cap (length q.pending) room) (record {
      order =
          ap (λ r. concat q.flushed ++ r) (sym (append_assoc q.buf q.pending (op ∷ [])))
          ∙ sym (append_assoc (concat q.flushed) (q.buf ++ q.pending) (op ∷ []))
          ∙ ap (λ r. r ++ op ∷ []) v.order;
      batches = v.batches;
      buffer = v.buffer;
      capacity = omega (arith, room, length-append q.pending (op ∷ []));
      sent = omega (arith, v.sent, length-append q.accepted (op ∷ []));
      ops = v.ops;
      calls = v.calls;
    })
  ]

  -- The same without the bound on the buffer, which a flush restores.
  pub record IsFull (q : WriteQueue O) : Type 0 where
    order : concat q.flushed ++ (q.buf ++ q.pending) ≡ q.accepted
    batches : All IsBatch q.flushed
    buffer : length q.buf ≤ flush_max_ops
    capacity : length q.pending ≤ channel_cap
    sent : q.enqueued ≡ (q.dropped + length q.accepted) % 2 ^ 64
    ops : q.flushed_ops ≡ length (concat q.flushed) % 2 ^ 64
    calls : q.flush_batches ≡ length q.flushed % 2 ^ 64

  pub flush-IsValid : (q : WriteQueue O) → IsFull q → IsValid (flush q)
  unfolding flush
  flush-IsValid q v = elim (zero-or-pos (length q.buf)) [
    | inl none ↦ rw none (record {
      order = v.order;
      batches = v.batches;
      buffer = omega (arith, none);
      capacity = v.capacity;
      sent = v.sent;
      ops = v.ops;
      calls = v.calls;
    })
    | inr some ↦ rw (pos→not_zero (length q.buf) some) (record {
      order = concat-push q.flushed q.buf q.pending ∙ v.order;
      batches = All-push q.flushed q.buf v.batches (some, v.buffer);
      buffer = omega arith;
      capacity = v.capacity;
      sent = v.sent;
      ops = omega (arith, v.ops, length-concat_push q.flushed q.buf);
      calls = omega (arith, v.calls, length-push q.flushed q.buf);
    })
  ]

  pub take_from-IsValid :
      (q : WriteQueue O) (ps : List O) → q.pending ≡ ps → IsValid q → IsValid (take_from q ps)
  unfolding take_from
  take_from-IsValid q [] e v = v
  take_from-IsValid q (op ∷ rest) e v =
      let held : WriteQueue O = record q { pending = rest; buf = q.buf ++ op ∷ [] } in
      let moved : concat q.flushed ++ ((q.buf ++ op ∷ []) ++ rest) ≡ q.accepted =
        ap (λ r. concat q.flushed ++ r)
          (append_assoc q.buf (op ∷ []) rest ∙ ap (λ ps. q.buf ++ ps) (sym e))
        ∙ v.order in
      let full : IsFull held = record {
        order = moved;
        batches = v.batches;
        buffer = omega (arith, v.buffer, length-append q.buf (op ∷ []));
        capacity = omega (arith, v.capacity, ap length e);
        sent = v.sent;
        ops = v.ops;
        calls = v.calls;
      } in
      elim (le-or-lt flush_max_ops (length (q.buf ++ op ∷ []))) [
        | inl reached ↦
            rw (le→leb flush_max_ops (length (q.buf ++ op ∷ [])) reached) (flush-IsValid held full)
        | inr below ↦ rw (lt→not_leb flush_max_ops (length (q.buf ++ op ∷ [])) below) (record {
          order = moved;
          batches = v.batches;
          buffer = below;
          capacity = full.capacity;
          sent = v.sent;
          ops = v.ops;
          calls = v.calls;
        })
      ]

  pub IsValid-IsFull : (q : WriteQueue O) → IsValid q → IsFull q
  IsValid-IsFull q v = record {
    order = v.order;
    batches = v.batches;
    buffer = omega (arith, v.buffer);
    capacity = v.capacity;
    sent = v.sent;
    ops = v.ops;
    calls = v.calls;
  }
