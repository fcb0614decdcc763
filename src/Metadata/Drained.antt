-- ===== src/Metadata/Drained.antt =====
-- A batch whose rows are all processed before the producer notices the end of the objects.
use repo_backend_v.Base.{
  ℕ, ◌+◌, String, Bool, true, false, ◌≡◌, refl, Option, none, some, List, [], ◌∷◌, arith, ltb, ◌==◌,
  nat_eq, string_eq, get_or, eq_iff,
}
use repo_backend_v.Base.Table.{update_where}
use repo_backend_v.Metadata.Model.{Queue, Object}
use repo_backend_v.Metadata.Batches.{
  Batch, running, get_active_batch, create_batch, finished, advance_cursor, complete_if_empty,
  same_cursor,
}
use repo_backend_v.Metadata.Producer.{
  RefreshConfig, Refresh, chunk_limit, read_chunk_from_objects, ship, tick,
}

same_cursor_self : (c : Option ℕ) → same_cursor c c ≡ true
same_cursor_self none = refl
same_cursor_self (some c) = ground arith

module _ (cfg : RefreshConfig) (queue : Queue) (u : String)
    (total succeeded failed_rows dead_lettered : ℕ) (cursor : Option ℕ) where
  -- The only batch of the table, running.
  abbrev pub batch : Bool → Batch
  batch enqueue_complete = record {
    batch_uuid = u;
    status = running;
    total = total;
    succeeded = succeeded;
    failed_rows = failed_rows;
    dead_lettered = dead_lettered;
    cursor_id = cursor;
    enqueue_complete = enqueue_complete;
    cancel_requested = false;
  }

  abbrev pub tables : Bool → Refresh
  tables enqueue_complete = record { queue = queue; batches = batch enqueue_complete ∷ [] }

  ending :
      (now : ℕ)
      → ltb 0 total ≡ true
      → (ship cfg now (batch false) [] (tables false)).1 ≡ tables true
  unfolding ship advance_cursor complete_if_empty update_where
  ending now e =
      let mine : (u == u) ≡ true = (eq_iff u u).1 refl in
      let some_row : (total == 0) ≡ false = ground (arith, e) in
      rw (mine, same_cursor_self cursor, some_row) (rw mine refl)

  -- Where the worker has finished every row of the only batch before the producer finds no object past
  -- its cursor, the producer's tick marks the batch enqueued and leaves it running, though its counters
  -- have reached its total: every later tick leaves the tables as they are, and no new batch can be
  -- created.
  pub tick-drained :
      (now now' : ℕ) (objects objects' : List Object) (minted : String)
      (inherit_cursor_id : Option ℕ)
      → ltb 0 total ≡ true
      → succeeded + failed_rows + dead_lettered ≡ total
      → read_chunk_from_objects (get_or cursor 0) (chunk_limit cfg) objects ≡ []
      → ((tick cfg now objects (tables false)).1 ≡ tables true)
        × (finished (batch true) ≡ true)
        × ((tick cfg now' objects' (tables true)).1 ≡ tables true)
        × (create_batch minted inherit_cursor_id (tables true).batches ≡ none)
  unfolding tick ship get_active_batch create_batch advance_cursor complete_if_empty update_where
  tick-drained now now' objects objects' minted inherit_cursor_id some_rows drained end =
      (rw end (ending now some_rows), ground (arith, drained), refl, refl)
