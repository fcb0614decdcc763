-- ===== src/Metadata/Producer.antt =====
-- metadata/producer.js: the tick that moves the next objects past a batch's cursor into the queue. A
-- tick is one step: ticks do not overlap each other.
use repo_backend_v.Base.{
  ℕ, String, true, false, ◌&&◌, ◌||◌, Option, none, some, List, [], ◌∷◌, ltb, if◌then◌else◌, nat_eq,
  string_eq, filter, take, get_or,
}
use repo_backend_v.Metadata.Model.{Queue, Object}
use repo_backend_v.Metadata.Model.Enqueue.{enqueue_chunk_for_batch}
use repo_backend_v.Metadata.Batches.{
  Batch, get_active_batch, advance_cursor, increment_total, complete_if_empty, refreshable,
}

pub record RefreshConfig : Type 0 where
  pub chunk_size : ℕ
  pub priority : ℕ

abbrev pub chunk_limit : RefreshConfig → ℕ
chunk_limit cfg = if ltb 0 cfg.chunk_size then cfg.chunk_size else 500

-- The objects past a cursor that a refresh can fetch; the table is in the order of its ids.
unfoldable pub past : ℕ → List Object → List Object
past cursor_id objects = filter (λ o. ltb cursor_id o.id && refreshable o) objects

unfoldable pub read_chunk_from_objects : ℕ → ℕ → List Object → List Object
unfolding past
read_chunk_from_objects cursor_id limit objects = take limit (past cursor_id objects)

abbrev pub last_id : ℕ → List Object → ℕ
last_id c [] = c
last_id c (o ∷ os) = last_id o.id os

pub record Refresh : Type 0 where
  pub queue : Queue
  pub batches : List Batch

pub data Produced : Type 0 where
  idle : Produced
  at_end : (batch_uuid : String) → Produced
  chunk : (batch_uuid : String) (enqueued cursor_id : ℕ) → Produced

abbrev pub ended : Batch → List Batch → List Batch
ended b bs = (advance_cursor b.batch_uuid b.cursor_id b.cursor_id true bs).1

-- The chunk read past the cursor: the end of the batch, or rows for its queue.
unfoldable pub ship : RefreshConfig → ℕ → Batch → List Object → Refresh → Produced × Refresh
ship cfg now b [] s = (
  at_end b.batch_uuid,
  record s { batches = (complete_if_empty b.batch_uuid (ended b s.batches)).1 },
)
ship cfg now b (o ∷ os) s =
    let (count, queue) = enqueue_chunk_for_batch b.batch_uuid cfg.priority now (o ∷ os) s.queue in
    let cursor = last_id o.id os in
    let moved = (advance_cursor b.batch_uuid b.cursor_id (some cursor) false s.batches).1 in
    (
      chunk b.batch_uuid count cursor,
      record { queue = queue; batches = increment_total b.batch_uuid count moved },
    )

abbrev pub tick_batch :
    RefreshConfig → ℕ → List Object → Option Batch → Refresh → Produced × Refresh
tick_batch cfg now objects none s = (idle, s)
tick_batch cfg now objects (some b) s =
    if b.cancel_requested || b.enqueue_complete
    then (
      at_end b.batch_uuid,
      record s { batches = if b.enqueue_complete then s.batches else ended b s.batches },
    )
    else ship cfg now b (read_chunk_from_objects (get_or b.cursor_id 0) (chunk_limit cfg) objects) s

unfoldable pub tick : RefreshConfig → ℕ → List Object → Refresh → Produced × Refresh
unfolding read_chunk_from_objects ship
tick cfg now objects s = tick_batch cfg now objects (get_active_batch s.batches) s
