-- ===== src/Ingester/Controller/Tests.antt =====
-- The staff actions on a queue of one row.
use repo_backend_v.Ingester.Queue.Insert.{no_details}
use repo_backend_v.Base.{
  String, false, ◌≡◌, refl, none, some, [], ◌∷◌, arith, string_eq, nat_eq, contains, ◌⊎◌,
}
use repo_backend_v.Ingester.States.{info, available_actions, offers}
use repo_backend_v.Ingester.Queue.Store.{Row, Db, ok, transaction}
use repo_backend_v.Ingester.Queue.Update.{Updated, update_queue, update_queue_txn, write_found}
use repo_backend_v.Ingester.Queue.Select.{get_queue_row}
use repo_backend_v.Ingester.Queue.Cancel.{cancel, cancel_found}
use repo_backend_v.Ingester.Queue.Audit.{IsSound, latest_state, latest_from}
use repo_backend_v.Ingester.Worker.{fresh_worker, cancel_row as abort_row}
use repo_backend_v.Ingester.Controller.{
  act, require_row, reset_row, retry_access_copy, cancel_row, conflict, cancel_live,
}
use repo_backend_v.Ingester.Controller.Cancels.{cancel_row-cancelled, Conflict, CancelledFrom}
use repo_backend_v.Ingester.Controller.Retries.{retry_access_copy-from}

abbrev row_at : String → Row
row_at state = record {
  id = 4;
  batch = "batch-2";
  package_name = "pkg-4";
  status = state;
  pipeline_state = state;
  severity = info;
  suggested_action = none;
  error = none;
  is_complete = false;
  sip_uuid = none;
  details = no_details;
  last_poll_at = none;
  updated = 0;
}

abbrev queue_at : String → Db
queue_at state = record {
  rows = row_at state ∷ [];
  events =
      record {
        queue_id = 4;
        from_state = none;
        to_state = state;
        event_type = "state_change";
        actor = "worker";
        payload = none;
        created_at = 1;
      }
      ∷ [];
  next_id = 5;
  now = 2;
  faults = [];
}

queue_at-IsSound : (state : String) → IsSound (queue_at state)
unfolding latest_state latest_from
queue_at-IsSound state = record {
  synced = (refl, tt);
  ascending = (tt, tt);
  below = (omega arith, tt);
  audited = (refl, tt);
}

-- The worker has ended the upload meanwhile, with success or at its deadline.
abbrev moves_on : Db → Db
moves_on db = queue_at "UPLOAD_COMPLETE"

abbrev ends : Db → Db
ends db = queue_at "UPLOAD_TIMEOUT"

cancel_row-cancelled_example :
    let x =
      cancel_row (some fresh_worker) moves_on "admin" "duplicate" (some 4) (queue_at "UPLOADING") in
    Conflict (row_at "UPLOAD_COMPLETE") (queue_at "UPLOAD_COMPLETE") x
    ⊎ CancelledFrom false (row_at "UPLOAD_COMPLETE") x
unfolding contains fresh_worker abort_row
cancel_row-cancelled_example =
    cancel_row-cancelled (some fresh_worker) moves_on "admin" "duplicate" 4 (queue_at "UPLOADING")
      (row_at "UPLOADING") (row_at "UPLOAD_COMPLETE") (unfold get_queue_row in refl) refl
      (queue_at-IsSound "UPLOAD_COMPLETE") refl (omega arith, tt) (unfold get_queue_row in refl)

-- A row that ended before the second read.
ended_meanwhile :
    (cancel_row (some fresh_worker) ends "admin" "duplicate" (some 4) (queue_at "UPLOADING")).0
    ≡ ok (conflict "UPLOAD_TIMEOUT")
unfolding contains fresh_worker abort_row cancel_row require_row cancel_live get_queue_row cancel
    cancel_found
ended_meanwhile = refl

abbrev one_row : Updated
one_row = record { affected = 1; ids = 4 ∷ [] }

reset_done : (reset_row "admin" (some 4) (queue_at "AS_METADATA_INVALID")).0 ≡ ok one_row
unfolding reset_row require_row act available_actions offers contains get_queue_row update_queue
    update_queue_txn transaction write_found
reset_done = refl

retry_done : (retry_access_copy "admin" (some 4) (queue_at "DURACLOUD_TIMEOUT")).0 ≡ ok one_row
unfolding retry_access_copy require_row act available_actions offers contains get_queue_row
    update_queue update_queue_txn transaction write_found
retry_done = refl

retry_access_copy-from_example : (row_at "DURACLOUD_TIMEOUT").pipeline_state ≡ "DURACLOUD_TIMEOUT"
retry_access_copy-from_example =
    retry_access_copy-from "admin" 4 (queue_at "DURACLOUD_TIMEOUT") (row_at "DURACLOUD_TIMEOUT")
      one_row (unfold get_queue_row in refl) retry_done
