-- ===== src/WriteQueue.antt =====
-- The batched writes of trades and market values (src/persistence/write_queue.rs), with the row of a
-- market value (src/persistence/coin_mcap_tape.rs): the bounded channel, the buffer of the worker and
-- its flushes. A trade entry is of any type; the database is not modelled, only what it is given.
pub mod Invariant
pub mod Conservation
pub mod Saves
pub mod Tests
use automatamain.Base.{
  ℕ, ◌+◌, ◌%◌, ◌^◌, Bool, true, false, ◌&&◌, Option, none, some, List, [], ◌∷◌, ◌++◌, if◌then◌else◌,
  leb, ◌==◌, length,
}
use automatamain.Base.Float.{Float, int, flt}
use automatamain.Base.Text.{Text}

abbrev pub channel_cap : ℕ
channel_cap = 32_768

abbrev pub flush_max_ops : ℕ
flush_max_ops = 64

pub data WriteOp (F E : Type 0) : Type 0 where
  tape : (coin : Text) (mcap_sol : F) (source : Text) → WriteOp F E
  trade : E → WriteOp F E

pub record TapeRow (F : Type 0) : Type 0 where
  pub coin_address : Text
  pub ts_unix : ℕ
  pub mcap_sol : F
  pub source : Text

-- What the database is given: rows in one statement, or one trade.
pub data Save (F E : Type 0) : Type 0 where
  record_batch : List (TapeRow F) → Save F E
  save_trade : E → Save F E

module _ {F : Type 0} ⦃fl : Float F⦄ where
  open fl use {fle, is_finite}

  unfoldable pub mcap_valid : F → Bool
  mcap_valid mcap = is_finite mcap && flt (int 0) mcap && fle mcap (int 200_000)

  unfoldable pub tape_row : ℕ → Text → F → Text → Option (TapeRow F)
  tape_row now coin mcap_sol source =
      if mcap_valid mcap_sol
      then some
          (record { coin_address = coin; ts_unix = now; mcap_sol = mcap_sol; source = source })
      else none

module _ {F : Type 0} where
  abbrev pub add_row : Option (TapeRow F) → List (TapeRow F) → List (TapeRow F)
  add_row none rows = rows
  add_row (some row) rows = row ∷ rows

module _ {F E : Type 0} where
  -- The rows and the trades of a drained buffer, each in its order; one reading of the clock serves
  -- all rows of a batch.
  unfoldable pub tape_rows : ⦃fl : Float F⦄ → ℕ → List (WriteOp F E) → List (TapeRow F)
  tape_rows now [] = []
  tape_rows now (tape coin mcap_sol source ∷ ops) =
      add_row (tape_row now coin mcap_sol source) (tape_rows now ops)
  tape_rows now (trade e ∷ ops) = tape_rows now ops

  unfoldable pub trade_saves : List (WriteOp F E) → List (Save F E)
  trade_saves [] = []
  trade_saves (tape coin mcap_sol source ∷ ops) = trade_saves ops
  trade_saves (trade e ∷ ops) = save_trade e ∷ trade_saves ops

  abbrev pub batch_saves : List (TapeRow F) → List (Save F E)
  batch_saves [] = []
  batch_saves (r ∷ rows) = record_batch (r ∷ rows) ∷ []

  -- The writes of `flush_batch`; its failures are only logged.
  unfoldable pub flush_batch : ⦃fl : Float F⦄ → ℕ → List (WriteOp F E) → List (Save F E)
  flush_batch now buf = batch_saves (tape_rows now buf) ++ trade_saves buf

-- The queue: the channel with the counters of its senders, and the worker with its buffer, the
-- batches that it has flushed, and its counters. `accepted` is the history of what the channel took.
pub record WriteQueue (O : Type 0) : Type 0 where
  pub pending : List O
  pub enqueued : ℕ
  pub dropped : ℕ
  pub buf : List O
  pub flushed : List (List O)
  pub flushed_ops : ℕ
  pub flush_batches : ℕ
  pub finished : Bool
  pub accepted : List O

pub data QueueEvent (O : Type 0) : Type 0 where
  send : O → QueueEvent O
  receive deadline senders_gone : QueueEvent O

-- `fetch_add(1)` on a u64.
abbrev pub one_more : ℕ → ℕ
one_more n = (n + 1) % 2 ^ 64

module _ {O : Type 0} where
  abbrev pub empty_queue : WriteQueue O
  empty_queue = record {
    pending = [];
    enqueued = 0;
    dropped = 0;
    buf = [];
    flushed = [];
    flushed_ops = 0;
    flush_batches = 0;
    finished = false;
    accepted = [];
  }

  unfoldable pub try_send : WriteQueue O → O → WriteQueue O
  try_send q op =
      let counted = record q { enqueued = one_more q.enqueued } in
      if leb channel_cap (length q.pending)
      then record counted { dropped = one_more q.dropped }
      else record counted { pending = q.pending ++ op ∷ []; accepted = q.accepted ++ op ∷ [] }

  -- A call of `flush_batch`, of a buffer that is not empty.
  unfoldable pub flush : WriteQueue O → WriteQueue O
  flush q = if length q.buf == 0 then q else record q {
    flushed = q.flushed ++ q.buf ∷ [];
    flushed_ops = (q.flushed_ops + length q.buf) % 2 ^ 64;
    flush_batches = one_more q.flush_batches;
    buf = [];
  }

  -- `rx.recv()` gives the oldest operation, which is buffered; without one it waits.
  unfoldable pub take_from : WriteQueue O → List O → WriteQueue O
  take_from q [] = q
  take_from q (op ∷ rest) =
      let held = record q { pending = rest; buf = q.buf ++ op ∷ [] } in
      if leb flush_max_ops (length held.buf) then flush held else held

  abbrev pub take_op : WriteQueue O → WriteQueue O
  take_op q = take_from q q.pending

  -- The worker's select loop, and the senders. Without senders `recv` gives `None` once the channel
  -- is empty; the worker flushes and returns.
  unfoldable pub on_event : WriteQueue O → QueueEvent O → WriteQueue O
  on_event q (send op) = if q.finished then q else try_send q op
  on_event q receive = if q.finished then q else take_op q
  on_event q deadline = if q.finished then q else flush q
  on_event q senders_gone =
      if q.finished
      then q
      else if length q.pending == 0
      then record (flush q) { finished = true }
      else q

  unfoldable pub run_queue : WriteQueue O → List (QueueEvent O) → WriteQueue O
  run_queue q [] = q
  run_queue q (e ∷ es) = run_queue (on_event q e) es
