-- ===== src/Ingester/Queue/Insert.antt =====
-- ingester/model.js: `queue_packages` and `insert_event`.

use repo_backend_v.Base.{
  ℕ, suc, String, Bool, false, Option, none, some, List, [], ◌∷◌, ◌++◌, if◌then◌else◌, ◌==◌, nat_eq,
  string_eq, get_or,
}
use repo_backend_v.Ingester.States.{Severity}
use repo_backend_v.Ingester.Queue.Store.{
  Details, Row, object, Event, Db, validation, ok, err, M, throw, transaction,
}
use repo_backend_v.Ingester.Queue.Update.{no_change, enrich_update, write, Opts}

-- The defaults of the columns that the stages write.
abbrev pub no_details : Details
no_details = record {
  metadata_uri = "PENDING";
  metadata = "";
  collection_uuid = "PENDING";
  transfer_uuid = "PENDING";
  transfer_folder = "PENDING";
  dip_path = "PENDING";
  micro_service = "PENDING";
  file_count = 0;
  bytes_uploaded = 0;
  total_bytes = 0;
}

-- What `queue_packages` is given for each row, none for a column that the row does not name; the other
-- columns are the database's defaults.
pub record NewRow : Type 0 where
  pub batch : String
  pub package_name : String
  pub status : Option String
  pub pipeline_state : Option String
  pub severity : Option Severity
  pub suggested_action : Option (Option String)
  pub error : Option (Option String)
  pub is_complete : Bool
  pub sip_uuid : Option String
  pub details : Details

-- `{ status: row.status || 'PENDING', ...row }`: the row's own status, an empty one too, stands in place
-- of the default.
abbrev pub first_status : NewRow → String
first_status r = get_or r.status "PENDING"

-- `data.pipeline_state || 'PENDING'`, of the enriched row.
abbrev pub logged_state : NewRow → String
logged_state r =
    let state = get_or r.pipeline_state (first_status r) in if state == "" then "PENDING" else state

-- The row that the INSERT stores, over the column defaults.

unfoldable pub new_row : ℕ → ℕ → NewRow → Row
unfolding enrich_update write
new_row id now r =
    write
      (enrich_update
        (record no_change {
          status = some (first_status r);
          pipeline_state = r.pipeline_state;
          severity = r.severity;
          suggested_action = r.suggested_action;
          error = r.error;
          is_complete = some r.is_complete;
        })
        now)
      (record {
        id = id;
        batch = r.batch;
        package_name = r.package_name;
        status = "";
        pipeline_state = "";
        severity = Severity.info;
        suggested_action = none;
        error = none;
        is_complete = false;
        sip_uuid = r.sip_uuid;
        details = r.details;
        last_poll_at = none;
        updated = now;
      })

unfoldable pub created_event : String → ℕ → ℕ → NewRow → Event
created_event actor id now r = record {
  queue_id = id;
  from_state = none;
  to_state = logged_state r;
  event_type = "state_change";
  actor = actor;
  payload =
      some
        (object (("note", "row created") ∷ ("batch", r.batch) ∷ ("package", r.package_name) ∷ []));
  created_at = now;
}

-- One round of the loop over the rows.
unfoldable pub insert_row : String → NewRow → Db → Db
unfolding new_row created_event
insert_row actor r db = record db {
  rows = db.rows ++ new_row db.next_id db.now r ∷ [];
  events = db.events ++ created_event actor db.next_id db.now r ∷ [];
  next_id = suc db.next_id;
}

unfoldable pub insert_rows : String → List NewRow → List ℕ → M (List ℕ)
insert_rows actor [] ids db = (ok ids, db)
insert_rows actor (r ∷ rs) ids db =
    insert_rows actor rs (ids ++ db.next_id ∷ []) (insert_row actor r db)

unfoldable pub queue_packages : String → List NewRow → M (List ℕ)
unfolding insert_rows insert_row transaction
queue_packages actor [] = throw (validation "rows must be a non-empty array")
queue_packages actor (r ∷ rs) = transaction (insert_rows actor (r ∷ rs) [])

abbrev pub note_event : ℕ → String → Opts → ℕ → Event
note_event queue_id to_state opts now = record {
  queue_id = queue_id;
  from_state = none;
  to_state = to_state;
  event_type = opts.event_type;
  actor = opts.actor;
  payload = opts.payload;
  created_at = now;
}

-- An informational event. Ids start at 1, so 0 stands for a missing one.
unfoldable pub insert_event : ℕ → String → Opts → M (Unit {0})
insert_event queue_id to_state opts db =
    if queue_id == 0
    then (err (validation "queue_id is required"), db)
    else if to_state == ""
    then (err (validation "to_state is required"), db)
    else (ok tt, record db { events = db.events ++ note_event queue_id to_state opts db.now ∷ [] })
