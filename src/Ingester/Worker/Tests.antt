-- ===== src/Ingester/Worker/Tests.antt =====
-- The worker on concrete queues: two packages and one worker in each of its modes.
use repo_backend_v.Ingester.Queue.Store.{Db}
use repo_backend_v.Base.{
  ◌≤◌, String, true, false, ◌≡◌, ◌≢◌, refl, ◌⊎◌, Option, none, some, List, [], ◌∷◌, nat_eq,
  string_eq, All, length, ◌==◌,
}
use repo_backend_v.Ingester.Queue.Insert.{NewRow, no_details}
use repo_backend_v.Ingester.Queue.Reach.{enqueue, run_op, empty_db}
use repo_backend_v.Ingester.Worker.{
  Config, fresh_worker, Gates, claim_by, Claims, no_claims, claim_round, claim_order, claiming,
  opening, begin_all, observe, tick_begin,
}
use repo_backend_v.Ingester.Worker.States.{is_pipeline, is_stage6}
use repo_backend_v.Ingester.Worker.Admission.{count_in}
use repo_backend_v.Ingester.Worker.Claimed.{claim_by-serial, claim_by-stage6}
use repo_backend_v.Ingester.Worker.Runs.{
  System, Reach, here, next, called, one_package, one_copy, one_transfer, claimed, began, opened,
  dispatched,
}

abbrev nothing_held : List (Option String) → Option (List String)
nothing_held uuids = some []

abbrev serial_mode : Config
serial_mode = record {
  enabled = true;
  concurrency = 4;
  am_parallel = false;
  pipeline_serial = true;
  stage6_serial = true;
}

abbrev interleaved_mode : Config
interleaved_mode = record serial_mode { pipeline_serial = false }

abbrev in_state : String → NewRow
in_state state = record {
  batch = "batch-1";
  package_name = "pkg-1";
  status = some state;
  pipeline_state = none;
  severity = none;
  suggested_action = none;
  error = none;
  is_complete = false;
  sip_uuid = none;
  details = no_details;
}

abbrev start : System
start = record { worker = fresh_worker; db = empty_db; ticking = none }

abbrev two_rows : String → List NewRow
two_rows state = in_state state ∷ in_state state ∷ []

-- Two rows are queued in a state.
abbrev queued : String → System
queued state = record start { db = run_op (enqueue "admin" (two_rows state)) empty_db }

-- A tick of a worker that is idle, over all the states.
abbrev rounds : Config → Gates → Db → List String → Claims → Claims
rounds cfg g db [] c = c
rounds cfg g db (state ∷ order) c =
    rounds cfg g db order (claim_round nothing_held cfg g fresh_worker db state c)

abbrev claiming_at : Gates → Db → List String → Claims → System
claiming_at g db order c = record {
  worker = fresh_worker;
  db = db;
  ticking = some (claiming g order c);
}

looped :
    (cfg : Config) (s : System) (g : Gates) (db : Db) (order : List String) (c : Claims)
    → Reach nothing_held cfg s (claiming_at g db order c)
    → Reach nothing_held cfg s (claiming_at g db [] (rounds cfg g db order c))
looped cfg s g db [] c r = r
looped cfg s g db (state ∷ order) c r =
    looped cfg s g db order (claim_round nothing_held cfg g fresh_worker db state c)
      (next r (claimed (claiming_at g db (state ∷ order) c) g state order c refl))

abbrev gates_of : Config → String → Gates
gates_of cfg state = observe cfg fresh_worker (queued state).db

abbrev claims_of : Config → String → Claims
claims_of cfg state =
    let g = gates_of cfg state in rounds cfg g (queued state).db (claim_order g) no_claims

abbrev after_tick : Config → String → System
after_tick cfg state = record (queued state) {
  worker = begin_all (claims_of cfg state).claimed fresh_worker;
}

reached :
    (cfg : Config) (state : String)
    → cfg.enabled ≡ true
    → (state == "") ≡ false
    → Reach nothing_held cfg start (after_tick cfg state)
unfolding tick_begin fresh_worker
reached cfg state on named =
    let g = gates_of cfg state in
    let opening_at : System = record (queued state) { ticking = some (opening g) } in
    let first =
      next
        (next here
          (called start (enqueue "admin" (two_rows state)) ((refl, named), ((refl, named), tt))))
        (began (queued state) (queued state).db (opening g) refl (rw on refl)) in
    let opened_at = next first (opened opening_at g refl) in
    next (looped cfg start g (queued state).db (claim_order g) no_claims opened_at) (
      dispatched (claiming_at g (queued state).db [] (claims_of cfg state)) g (claims_of cfg state)
        refl)

one_package_example : length (after_tick serial_mode "PENDING").worker.pipeline_dispatched ≤ 1
one_package_example =
    one_package nothing_held serial_mode (after_tick serial_mode "PENDING")
      (reached serial_mode "PENDING" refl refl) refl refl

one_copy_example : length (after_tick serial_mode "AIP_STORE_PENDING").worker.stage6_dispatched ≤ 1
one_copy_example =
    one_copy nothing_held serial_mode (after_tick serial_mode "AIP_STORE_PENDING")
      (reached serial_mode "AIP_STORE_PENDING" refl refl) refl

one_transfer_example :
    length (after_tick interleaved_mode "UPLOAD_COMPLETE").worker.am_dispatched ≤ 1
one_transfer_example =
    one_transfer nothing_held interleaved_mode (after_tick interleaved_mode "UPLOAD_COMPLETE")
      (reached interleaved_mode "UPLOAD_COMPLETE" refl refl) refl refl

abbrev idle : Gates
idle = record {
  serial = true;
  mid_db_count = 0;
  pipeline_in_flight = 0;
  inside_db_count = 0;
  am_in_flight = 0;
  stage6_inside_db = 0;
  stage6_in_flight = 0;
}

claim_by-serial_example :
    let rows = claim_by nothing_held serial_mode idle fresh_worker (queued "PENDING").db in
    (count_in is_pipeline rows ≤ 1)
    × All (λ r. (r.status ≢ "PENDING") ⊎ (idle.mid_db_count ≡ 0)) rows
claim_by-serial_example =
    claim_by-serial nothing_held serial_mode idle fresh_worker (queued "PENDING").db refl

claim_by-stage6_example :
    let rows =
      claim_by nothing_held serial_mode idle fresh_worker (queued "AIP_STORE_PENDING").db in
    (count_in is_stage6 rows ≤ 1)
    × All (λ r. (r.status ≢ "AIP_STORE_PENDING") ⊎ (idle.mid_db_count ≡ 0)) rows
claim_by-stage6_example =
    claim_by-stage6 nothing_held serial_mode idle fresh_worker (queued "AIP_STORE_PENDING").db refl
