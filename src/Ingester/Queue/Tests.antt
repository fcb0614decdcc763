-- ===== src/Ingester/Queue/Tests.antt =====
-- The ingest queue on concrete histories: one package that is queued, processed and cancelled.
use repo_backend_v.Ingester.States.{info}
use repo_backend_v.Base.{
  ℕ, String, Bool, true, false, ◌≡◌, refl, ◌⊎◌, Option, none, some, List, [], ◌∷◌, string_eq,
  nat_eq, filter,
}
use repo_backend_v.Ingester.Queue.Store.{Row, Db, Result, err, database, Event}
use repo_backend_v.Ingester.Queue.Update.{
  Patch, to_status, Opts, Updated, update_queue, is_concurrent_modification, write_found,
}
use repo_backend_v.Ingester.Queue.Insert.{NewRow, no_details}
use repo_backend_v.Ingester.Queue.Select.{by_id}
use repo_backend_v.Ingester.Queue.Outcome.{Unchanged, Wrote, update_queue-Outcome}
use repo_backend_v.Ingester.Queue.Retry.{update_queue-faults}
use repo_backend_v.Ingester.Queue.Reach.{Op, enqueue, update, wait}

abbrev first_package : NewRow
first_package = record {
  batch = "batch-1";
  package_name = "pkg-1";
  status = some "PENDING";
  pipeline_state = none;
  severity = none;
  suggested_action = none;
  error = none;
  is_complete = false;
  sip_uuid = none;
  details = no_details;
}

abbrev by_worker : Opts
by_worker = record { actor = "worker"; event_type = "state_change"; payload = none }

abbrev history : List Op
history =
    enqueue "admin" (first_package ∷ first_package ∷ [])
    ∷ update (by_id 1) (to_status "PROCESSING_METADATA") by_worker
    ∷ wait 5 []
    ∷ []

abbrev queued_row : ℕ → String → Row
queued_row n state = record {
  id = n;
  batch = "batch-1";
  package_name = "pkg";
  status = state;
  pipeline_state = state;
  severity = info;
  suggested_action = none;
  error = none;
  is_complete = false;
  sip_uuid = none;
  details = no_details;
  last_poll_at = none;
  updated = 0;
}

abbrev entered : ℕ → String → Event
entered n state = record {
  queue_id = n;
  from_state = none;
  to_state = state;
  event_type = "state_change";
  actor = "worker";
  payload = none;
  created_at = 3;
}

-- Two packages: one in the middle of a stage, one waiting.
abbrev two_packages : Db
two_packages = record {
  rows = queued_row 1 "PROCESSING_METADATA" ∷ queued_row 2 "PENDING" ∷ [];
  events = entered 1 "PROCESSING_METADATA" ∷ entered 2 "PENDING" ∷ [];
  next_id = 3;
  now = 7;
  faults = [];
}

update_queue-Outcome_example :
    Unchanged two_packages
      (update_queue (by_id 1) (to_status "QA_COMPLETE") by_worker two_packages).1
    ⊎ Wrote
        (by_id 1)
        (to_status "QA_COMPLETE")
        by_worker
        two_packages
        (update_queue (by_id 1) (to_status "QA_COMPLETE") by_worker two_packages).1
update_queue-Outcome_example =
    update_queue-Outcome (by_id 1) (to_status "QA_COMPLETE") by_worker two_packages

abbrev conflict : String
conflict = "(conn: 4) Record has changed since last read in table 'tbl_ingest_queue'"

conflict_seen : is_concurrent_modification (database conflict) ≡ true
unfolding is_concurrent_modification
conflict_seen = refl

other_unseen : is_concurrent_modification (database "ECONNRESET") ≡ false
unfolding is_concurrent_modification
other_unseen = refl

update_queue-faults_example :
    let where' : Row → Bool = by_id 1 in
    let data' : Patch = to_status "QA_COMPLETE" in
    let committed : Result Updated × Db =
      write_found (filter where' two_packages.rows) where' data' by_worker two_packages in
    let failed : String → Result Updated × Db = λ m. (err (database m), two_packages) in
    let run : List (Option String) → Result Updated × Db =
      λ faults. update_queue where' data' by_worker (record two_packages { faults = faults }) in
    (run (none ∷ []) ≡ committed)
    × (run (some conflict ∷ none ∷ []) ≡ committed)
    × (run (some conflict ∷ some conflict ∷ []) ≡ failed conflict)
    × (run (some conflict ∷ some "ECONNRESET" ∷ []) ≡ failed "ECONNRESET")
    × (run (some "ECONNRESET" ∷ []) ≡ failed "ECONNRESET")
update_queue-faults_example =
    update_queue-faults (by_id 1) (to_status "QA_COMPLETE") by_worker two_packages [] conflict
      "ECONNRESET" conflict_seen other_unseen
