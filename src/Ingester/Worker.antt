-- ===== src/Ingester/Worker.antt =====
-- ingester/worker.js: one worker's state, the gates and claims of a tick, and the dispatch of a row.
pub mod States
pub mod Sets
pub mod Admission
pub mod Caps
pub mod Tick
pub mod Gated
pub mod Claimed
pub mod Serial
pub mod Rounds
pub mod Runs
mod Tests
use Prim.Native.String
use repo_backend_v.Base.{
  ℕ, zero, suc, ◌+◌, ◌-◌, String, Bool, true, false, not, ◌&&◌, ◌||◌, Option, none, some, List, [],
  ◌∷◌, ◌++◌, map, ltb, leb, if◌then◌else◌, ◌==◌, nat_eq, string_eq, contains, length, take, filter,
  is_some,
}
use repo_backend_v.Ingester.Queue.Store.{
  Row, Db, Result, ok, err, Error, validation, not_found, forbidden, database, object,
}
use repo_backend_v.Ingester.Queue.Update.{update_queue, to_status, Opts, Updated}
use repo_backend_v.Ingester.Queue.Select.{
  by_id, Filters, no_filters, list_queue, count_rows_in_states,
}
use repo_backend_v.Ingester.Queue.Sweep.{reset_orphaned, finalize_pending_completes}
use repo_backend_v.Ingester.Worker.States.{
  stage_of, ready_states, pipeline_mid_states, serial_claim_order, am_inside_states, is_pipeline,
  is_stage6, is_am_active, is_am_entry, is_am_inside, Stage,
}

-- `ingest_worker` and `aip_store.serial` of the configuration; a flag holds what the code derives
-- from it (`=== true`, `!== false`).
pub record Config : Type 0 where
  pub enabled : Bool
  pub concurrency : ℕ
  pub am_parallel : Bool
  pub pipeline_serial : Bool
  pub stage6_serial : Bool

-- The ids with an abort controller, and those dispatched in an Archivematica, a stage 1-5 and a
-- stage 6 state.
pub record Worker : Type 0 where
  pub stopping : Bool
  pub abort_controllers : List ℕ
  pub am_dispatched : List ℕ
  pub pipeline_dispatched : List ℕ
  pub stage6_dispatched : List ℕ

unfoldable pub fresh_worker : Worker
fresh_worker = record {
  stopping = false;
  abort_controllers = [];
  am_dispatched = [];
  pipeline_dispatched = [];
  stage6_dispatched = [];
}

-- What a tick reads before it claims.
pub record Gates : Type 0 where
  pub serial : Bool
  pub mid_db_count : ℕ
  pub pipeline_in_flight : ℕ
  pub inside_db_count : ℕ
  pub am_in_flight : ℕ
  pub stage6_inside_db : ℕ
  pub stage6_in_flight : ℕ

unfoldable pub observe : Config → Worker → Db → Gates
observe cfg w db =
    let serial = not cfg.am_parallel && cfg.pipeline_serial in
    record {
      serial = serial;
      mid_db_count = if serial then count_rows_in_states pipeline_mid_states db else 0;
      pipeline_in_flight = length w.pipeline_dispatched;
      inside_db_count = if cfg.am_parallel then 0 else count_rows_in_states am_inside_states db;
      am_in_flight = length w.am_dispatched;
      stage6_inside_db =
          if cfg.stage6_serial then count_rows_in_states ("AIP_STORE_IN_PROGRESS" ∷ []) db else 0;
      stage6_in_flight = length w.stage6_dispatched;
    }

pub record Claims : Type 0 where
  pub claimed : List Row
  pub pipeline_admitted : ℕ
  pub am_admitted : ℕ
  pub stage6_admitted : ℕ

abbrev pub no_claims : Claims
no_claims = record { claimed = []; pipeline_admitted = 0; am_admitted = 0; stage6_admitted = 0 }

abbrev pub positive : ℕ → Bool
positive n = ltb 0 n

abbrev pub push : String → Row → Claims → Claims
push state row c = record c {
  claimed = c.claimed ++ row ∷ [];
  am_admitted = if is_am_active state then c.am_admitted + 1 else c.am_admitted;
}

module _ (cfg : Config) (g : Gates) where
  -- The `continue`s above the claim of a state.
  unfoldable pub is_gated : String → Claims → Bool
  is_gated state c =
      if cfg.stage6_serial
        && is_stage6 state
        && (positive (g.stage6_in_flight + c.stage6_admitted)
            || (state == "AIP_STORE_PENDING" && positive g.stage6_inside_db))
      then true
      else if g.serial && is_pipeline state
      then positive (g.pipeline_in_flight + c.pipeline_admitted)
        || (state == "PENDING" && positive g.mid_db_count)
      else if not cfg.am_parallel && not g.serial
      then if is_am_entry state
        then positive g.inside_db_count || (positive g.am_in_flight || positive c.am_admitted)
        else is_am_inside state && positive (g.am_in_flight + c.am_admitted)
      else false

  -- The loop over the rows of one state.
  unfoldable pub admit : List ℕ → String → List Row → Claims → Claims
  admit busy state [] c = c
  admit busy state (row ∷ batch) c =
      let skipped = admit busy state batch c in
      let c' = push state row c in
      let more = admit busy state batch c' in
      if contains busy row.id
      then skipped
      else if cfg.stage6_serial && is_stage6 state
      then record c' { stage6_admitted = c.stage6_admitted + 1 }
      else if g.serial && is_pipeline state
      then record c' { pipeline_admitted = c.pipeline_admitted + 1 }
      else if leb cfg.concurrency (length c'.claimed)
      then c'
      else if not cfg.am_parallel && is_am_active state
      then c'
      else more

abbrev pub stage6_backoff_scan : ℕ
stage6_backoff_scan = 50

abbrev pub open_in : String → Filters
open_in state = record no_filters { status = some state; is_complete = some false }

abbrev pub held : List String → Option String → Bool
held uuids none = false
held uuids (some u) = contains uuids u

-- `new Set(uuids)`, in order of first occurrence; a set of one holds null where a row has no uuid.
unfoldable pub distinct : List (Option String) → List (Option String)
distinct [] = []
distinct (none ∷ us) = none ∷ filter is_some (distinct us)
distinct (some u ∷ us) = some u ∷ filter (λ v. not (held (u ∷ []) v)) (distinct us)

abbrev pub claim_order : Gates → List String
claim_order g = if g.serial then serial_claim_order else ready_states

-- `in_backoff` is aip_store_model.list_uuids_in_backoff, which the worker is given; `none` is its
-- failure.
module _ (in_backoff : List (Option String) → Option (List String)) where
  abbrev runnable : Option (List String) → List Row → List Row
  runnable none candidates = candidates
  runnable (some uuids) candidates = filter (λ r. not (held uuids r.sip_uuid)) candidates

  unfoldable pub claim_stage6_pending : ℕ → Db → List Row
  unfolding distinct
  claim_stage6_pending limit db =
      let candidates = list_queue (open_in "AIP_STORE_PENDING") stage6_backoff_scan db in
      take limit (runnable (in_backoff (distinct (map (λ r. r.sip_uuid) candidates))) candidates)

  unfoldable pub batch_for : String → ℕ → Db → List Row
  unfolding claim_stage6_pending
  batch_for state limit db =
      if state == "AIP_STORE_PENDING"
      then claim_stage6_pending limit db
      else list_queue (open_in state) limit db

  module _ (cfg : Config) (g : Gates) (busy : List ℕ) (db : Db) where
    -- One round of the loop over the states.
    unfoldable pub claim_state : String → Claims → Claims
    unfolding is_gated admit
    claim_state state c =
        if is_gated cfg g state c
        then c
        else admit cfg g busy state (batch_for state (cfg.concurrency - length c.claimed) db) c

    unfoldable pub claim_states : List String → Claims → Claims
    claim_states [] c = c
    claim_states (state ∷ order) c =
        let rest = claim_states order (claim_state state c) in
        if leb cfg.concurrency (length c.claimed) then c else rest

  -- The rows that a tick claims by gates read earlier.
  unfoldable pub claim_by : Config → Gates → Worker → Db → List Row
  unfolding claim_states claim_state
  claim_by cfg g w db =
      (claim_states cfg g w.abort_controllers db (claim_order g) no_claims).claimed

abbrev pub add : ℕ → List ℕ → List ℕ
add id ids = if contains ids id then ids else ids ++ id ∷ []

abbrev pub add_if : Bool → ℕ → List ℕ → List ℕ
add_if true id ids = add id ids
add_if false id ids = ids

unfoldable pub remove : ℕ → List ℕ → List ℕ
remove id ids = filter (λ i. not (i == id)) ids

abbrev pub enter : Option Stage → Row → Worker → Worker
enter none row w = w
enter (some stage) row w = record w {
  abort_controllers = add row.id w.abort_controllers;
  am_dispatched = add_if (is_am_active row.pipeline_state) row.id w.am_dispatched;
  pipeline_dispatched = add_if (is_pipeline row.pipeline_state) row.id w.pipeline_dispatched;
  stage6_dispatched = add_if (is_stage6 row.pipeline_state) row.id w.stage6_dispatched;
}

-- `dispatch_one` up to the call of the stage.
unfoldable pub begin_dispatch : Row → Worker → Worker
begin_dispatch row w = enter (stage_of row.pipeline_state) row w

abbrev pub remove_if : Bool → ℕ → List ℕ → List ℕ
remove_if true id ids = remove id ids
remove_if false id ids = ids

-- Its `finally`.
unfoldable pub end_dispatch : Row → Worker → Worker
unfolding remove
end_dispatch row w = record w {
  abort_controllers = remove row.id w.abort_controllers;
  am_dispatched = remove_if (is_am_active row.pipeline_state) row.id w.am_dispatched;
  pipeline_dispatched = remove_if (is_pipeline row.pipeline_state) row.id w.pipeline_dispatched;
  stage6_dispatched = remove_if (is_stage6 row.pipeline_state) row.id w.stage6_dispatched;
}

abbrev pub halt_opts : Row → String → Opts
halt_opts row message = record {
  actor = "worker";
  event_type = "state_change";
  payload = some (
      object (
        ("stage", row.pipeline_state)
        ∷ ("reason", "unhandled_exception")
        ∷ ("error", message)
        ∷ []));
}

-- Its `catch`: the row halts; a write that fails is logged and dropped.
unfoldable pub halt_row : Row → String → Db → Db
halt_row row message db =
    (update_queue (by_id row.id)
      (record (to_status "INGEST_HALTED") {
        error = some (some (String.◌++◌ "worker error: " message));
      })
      (halt_opts row message) db).1

unfoldable pub begin_all : List Row → Worker → Worker
unfolding begin_dispatch
begin_all [] w = w
begin_all (row ∷ rows) w = begin_all rows (begin_dispatch row w)

-- `tick` waits for the database between its reads, so it is taken in parts, between which the rest of
-- the program runs: the gates, each with its size in memory and what its count of the queue saw; one
-- round of the loop over the states; and the dispatch of what was claimed.
pub data Turn : Type 0 where
  opening : (gates : Gates) → Turn
  claiming : (gates : Gates) (order : List String) (claims : Claims) → Turn

-- The guard and the first gate; none where the tick returns at once.
unfoldable pub tick_begin : Config → Db → Worker → Option Turn
tick_begin cfg counted w =
    if w.stopping || not cfg.enabled then none else some (opening (observe cfg w counted))

unfoldable pub read_am_gate : Config → Db → Worker → Gates → Gates
read_am_gate cfg counted w g = record g {
  inside_db_count = (observe cfg w counted).inside_db_count;
  am_in_flight = length w.am_dispatched;
}

unfoldable pub read_stage6_gate : Config → Db → Worker → Gates → Gates
read_stage6_gate cfg counted w g = record g {
  stage6_inside_db = (observe cfg w counted).stage6_inside_db;
  stage6_in_flight = length w.stage6_dispatched;
}

unfoldable pub claim_round :
    (List (Option String) → Option (List String))
    → Config
    → Gates
    → Worker
    → Db
    → String
    → Claims
    → Claims
unfolding claim_state
claim_round in_backoff cfg g w db state c =
    if leb cfg.concurrency (length c.claimed)
    then c
    else claim_state in_backoff cfg g w.abort_controllers db state c

-- `cancel_row`: whether a controller was signalled.
unfoldable pub cancel_row : ℕ → Worker → Bool
cancel_row id w = contains w.abort_controllers id

-- The sweeps of `start`; an error of the first is logged and the second runs.
unfoldable pub boot : Db → Db
boot db = (finalize_pending_completes (reset_orphaned "worker-boot" db).1).1
