-- ===== src/Ingester/Queue/Reach.antt =====
-- The invariant over every history of the operations of ingester/model.js.
use repo_backend_v.Base.{
  ℕ, String, Bool, ◌≡◌, ◌≢◌, Option, none, List, [], ◌∷◌, nat_eq, string_eq, All,
}
use repo_backend_v.Ingester.Queue.Store.{Row, Db}
use repo_backend_v.Ingester.Queue.Update.{Patch, Opts, update_queue}
use repo_backend_v.Ingester.Queue.Insert.{NewRow, queue_packages, insert_event}
use repo_backend_v.Ingester.Queue.Cancel.{cancel}
use repo_backend_v.Ingester.Queue.Sweep.{finalize_pending_completes, reset_orphaned}
use repo_backend_v.Ingester.Queue.Audit.{IsSound, update_queue-IsSound}
use repo_backend_v.Ingester.Queue.Kept.{
  IsSound-faults, queue_packages-IsSound, insert_event-IsSound, cancel-IsSound, finalize-IsSound,
  reset_each-IsSound, IsPlainRow,
}

-- The calls that the rest of the program makes of the model, and the passing of time.
pub data Op : Type 0 where
  enqueue : (actor : String) (rows : List NewRow) → Op
  update : (where' : Row → Bool) (data' : Patch) (opts : Opts) → Op
  note : (queue_id : ℕ) (to_state : String) (opts : Opts) → Op
  cancel_by : (id : ℕ) (actor reason : String) → Op
  finalize : Op
  reset : (actor : String) → Op
  wait : (now : ℕ) (faults : List (Option String)) → Op

unfoldable pub run_op : Op → Db → Db
run_op (enqueue actor rows) db = (queue_packages actor rows db).1
run_op (update where' data' opts) db = (update_queue where' data' opts db).1
run_op (note id to_state opts) db = (insert_event id to_state opts db).1
run_op (cancel_by id actor reason) db = (cancel id actor reason db).1
run_op finalize db = (finalize_pending_completes db).1
run_op (reset actor) db = (reset_orphaned actor db).1
run_op (wait now faults) db = record db { now = now; faults = faults }

-- New rows and updates name no state but by a status, new rows no empty one, and the type "info" is
-- kept for notes.
abbrev pub IsPlain : Op → Type 0
IsPlain (enqueue actor rows) = All IsPlainRow rows
IsPlain (update where' data' opts) = (data'.pipeline_state ≡ none) × (opts.event_type ≢ "info")
IsPlain (note id to_state opts) = opts.event_type ≡ "info"
IsPlain _ = Unit

pub run_op-IsSound : (op : Op) (db : Db) → IsPlain op → IsSound db → IsSound (run_op op db)
unfolding run_op reset_orphaned
run_op-IsSound (enqueue actor rows) db p s = queue_packages-IsSound actor rows db p s
run_op-IsSound (update where' data' opts) db p s =
    update_queue-IsSound where' data' opts db p.0 p.1 s
run_op-IsSound (note id to_state opts) db p s = insert_event-IsSound id to_state opts db p s
run_op-IsSound (cancel_by id actor reason) db p s = cancel-IsSound id actor reason db s
run_op-IsSound finalize db p s = finalize-IsSound db s
run_op-IsSound (reset actor) db p s = reset_each-IsSound actor 0 _ db s
run_op-IsSound (wait now faults) db p s = IsSound-faults now faults s

unfoldable pub run_ops : List Op → Db → Db
run_ops [] db = db
run_ops (op ∷ ops) db = run_ops ops (run_op op db)

unfoldable pub empty_db : Db
empty_db = record { rows = []; events = []; next_id = 1; now = 0; faults = [] }
