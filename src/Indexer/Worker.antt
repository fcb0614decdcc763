-- ===== src/Indexer/Worker.antt =====
-- indexer/worker.js: one batch of the index worker, and its tick behind the check of the index.
-- libs/elasticsearch is a parameter: `bulk_write` answers per item, or fails as a whole.
use repo_backend_v.Base.{
  ℕ, ◌+◌, ◌-◌, ◌*◌, ◌^◌, min, String, Bool, true, false, not, ◌&&◌, ◌||◌, Option, none, some, List,
  [], ◌∷◌, map, ltb, if◌then◌else◌, filter,
}
use repo_backend_v.Indexer.Model.{
  Object, is_eligible, claim_dirty, requeue_bulk, mark_indexed_bulk, mark_deindexed_bulk, Failure,
  record_failures,
}

-- The `body` of an index operation is a projection of the row.
pub data Op : Type 0 where
  index : (pid : String) → Op
  delete : (pid : String) → Op

unfoldable pub build_op : Object → Op
build_op row = if is_eligible row then index row.pid else delete row.pid

pub record Item : Type 0 where
  pub ok : Bool
  pub is_index : Bool
  pub pid : String
  pub err : Option String

abbrev pub indexed_pids : List Item → List String
indexed_pids items = map (λ i. i.pid) (filter (λ i. i.ok && i.is_index) items)

abbrev pub deindexed_pids : List Item → List String
deindexed_pids items = map (λ i. i.pid) (filter (λ i. i.ok && not i.is_index) items)

abbrev pub failed_items : List Item → List Failure
failed_items items = map (λ i. record { pid = i.pid; err = i.err }) (filter (λ i. not i.ok) items)

-- The three updates start together; the database runs them one after another.
unfoldable pub apply_result : ℕ → Option (List Item) → List String → List Object → List Object
apply_result max_attempts none pids rows = requeue_bulk pids rows
apply_result max_attempts (some items) pids rows =
    (record_failures max_attempts (failed_items items) (
      mark_deindexed_bulk (deindexed_pids items)
        (mark_indexed_bulk (indexed_pids items) rows))).rows

module _ (bulk_write : List Op → Option (List Item)) where
  unfoldable pub process_batch : ℕ → List Object → List Object → List Object
  unfolding build_op apply_result
  process_batch max_attempts [] rows = rows
  process_batch max_attempts (c ∷ claimed) rows =
      apply_result max_attempts (bulk_write (map build_op (c ∷ claimed)))
        (map (λ r. r.pid) (c ∷ claimed)) rows

  -- A tick behind its check of the index.
  unfoldable pub index_tick : ℕ → ℕ → List Object → List Object
  unfolding process_batch
  index_tick concurrency max_attempts rows =
      let (claimed, rows') = claim_dirty concurrency rows in
      process_batch max_attempts claimed rows'

-- What the worker keeps about the index's existence.
pub record Ensure : Type 0 where
  pub stopping : Bool
  pub ensured : Bool
  pub ensuring : Bool
  pub ensure_fail_count : ℕ
  pub ensure_cooldown_until : ℕ

abbrev pub ensure_backoff_base_ms : ℕ
ensure_backoff_base_ms = 5000

abbrev pub ensure_backoff_max_ms : ℕ
ensure_backoff_max_ms = 60000

unfoldable pub ensure_delay : ℕ → ℕ
ensure_delay fail_count = min (ensure_backoff_base_ms * 2 ^ (fail_count - 1)) ensure_backoff_max_ms

pub data Gate : Type 0 where
  skip : Gate
  probe : Gate
  work : Gate

-- What a tick does at a time: nothing, a probe of the index, or its work.
unfoldable pub gate : Bool → ℕ → Ensure → Gate
gate configured now e =
    if e.stopping || not configured
    then skip
    else if e.ensured
    then work
    else if e.ensuring || ltb now e.ensure_cooldown_until
    then skip
    else probe

-- A probe ends: the index is there, or the next probe waits.
unfoldable pub probed : Bool → ℕ → Ensure → Ensure
unfolding ensure_delay
probed true now e = record e {
  ensured = true;
  ensuring = false;
  ensure_fail_count = 0;
  ensure_cooldown_until = 0;
}
probed false now e = record e {
  ensuring = false;
  ensure_fail_count = e.ensure_fail_count + 1;
  ensure_cooldown_until = now + ensure_delay (e.ensure_fail_count + 1);
}
