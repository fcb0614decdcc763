-- ===== src/Ingester/Queue/Sweep.antt =====
-- ingester/model.js: the sweeps over the whole queue, at the boot of the worker and in tests.

use repo_backend_v.Base.{
  ℕ, ◌+◌, String, Bool, true, not, ◌&&◌, some, List, [], ◌∷◌, map, ◌==◌, nat_eq, string_eq,
  contains, filter,
}
use repo_backend_v.Base.Table.{update_where, delete_where, count_where}
use repo_backend_v.Ingester.Queue.Store.{Row, object, Event, Db, ok, M, continue, transaction}
use repo_backend_v.Ingester.Queue.Update.{Opts, update_queue, to_status}
use repo_backend_v.Ingester.Queue.Select.{by_id}

abbrev pub actively_running_states : List String
actively_running_states =
    "STARTING" ∷ "UPLOADING" ∷ "REPLICATING_PACKAGE" ∷ "CONSTRUCTED_OBJECT_PATHS"
    ∷ "METADATA_RECORD_PARTS_UPDATED" ∷ "CREATING_REPOSITORY_RECORD" ∷ []

abbrev pub is_pending_complete : Row → Bool
is_pending_complete r = r.pipeline_state == "COMPLETE" && not r.is_complete

abbrev pub finalized : ℕ → Row → Row
finalized now r = record r { is_complete = true; updated = now }

unfoldable pub finalize_pending_completes : Db → ℕ × Db
finalize_pending_completes db = (
  count_where is_pending_complete db.rows,
  record db {
    rows =
        update_where is_pending_complete (λ r. record r { is_complete = true; updated = db.now })
          db.rows;
  },
)

abbrev pub is_orphaned : Row → Bool
is_orphaned r = contains actively_running_states r.pipeline_state && not r.is_complete

abbrev pub reset_opts : String → String → Opts
reset_opts actor state = record {
  actor = actor;
  event_type = "orphan_reset";
  payload = some (object (("from", state) ∷ []));
}

-- The loop over the candidates.
unfoldable pub reset_each : String → ℕ → List Row → M ℕ
reset_each actor affected [] db = (ok affected, db)
reset_each actor affected (c ∷ cs) db =
    continue (λ r. reset_each actor (affected + r.affected) cs)
      (update_queue (by_id c.id) (to_status "PENDING") (reset_opts actor c.pipeline_state) db)

unfoldable pub reset_orphaned : String → M ℕ
unfolding reset_each
reset_orphaned actor db = reset_each actor 0 (filter is_orphaned db.rows) db

unfoldable pub purge_batch : String → M (ℕ × ℕ)
unfolding transaction delete_where count_where
purge_batch batch = transaction λ db.
    let in_batch : Row → Bool = λ r. r.batch == batch in
    let ids = map (λ r. r.id) (filter in_batch db.rows) in
    let of_batch : Event → Bool = λ e. contains ids e.queue_id in
    (
      ok (count_where in_batch db.rows, count_where of_batch db.events),
      record db { rows = delete_where in_batch db.rows; events = delete_where of_batch db.events },
    )
