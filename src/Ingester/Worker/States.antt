-- ===== src/Ingester/Worker/States.antt =====
-- The tables of ingester/worker.js: which stage runs a state, and the sets that its gates read.
use repo_backend_v.Base.{
  String, Bool, not, Option, none, some, List, [], ◌∷◌, ◌++◌, if◌then◌else◌, ◌==◌, string_eq,
  contains, filter, map,
}

pub data Stage : Type 0 where
  process_metadata upload transfer ingest repository aip_store : Stage

abbrev pub stage_by_state : List (String × Stage)
stage_by_state =
    ("PENDING", process_metadata)
    ∷ ("PROCESSING_METADATA", process_metadata)
    ∷ ("QA_COMPLETE", upload)
    ∷ ("UPLOADING", upload)
    ∷ ("UPLOAD_COMPLETE", transfer)
    ∷ ("TRANSFER_STARTED", transfer)
    ∷ ("TRANSFER_IN_PROGRESS", transfer)
    ∷ ("TRANSFER_COMPLETE", ingest)
    ∷ ("INGEST_IN_PROGRESS", ingest)
    ∷ ("INGEST_COMPLETE", ingest)
    ∷ ("WAITING_FOR_DURACLOUD", ingest)
    ∷ ("METADATA_PROCESSED", repository)
    ∷ ("CREATING_REPOSITORY_RECORD", repository)
    ∷ ("AIP_STORE_PENDING", aip_store)
    ∷ ("AIP_STORE_IN_PROGRESS", aip_store)
    ∷ []

find_stage : String → List (String × Stage) → Option Stage
find_stage state [] = none
find_stage state ((s, stage) ∷ table) = if s == state then some stage else find_stage state table

-- `stages[state]`
unfoldable pub stage_of : String → Option Stage
unfolding find_stage
stage_of state = find_stage state stage_by_state

abbrev pub ready_states : List String
ready_states = map (λ e. e.0) stage_by_state

abbrev pub stage6_states : List String
stage6_states = "AIP_STORE_PENDING" ∷ "AIP_STORE_IN_PROGRESS" ∷ []

-- The ready states that are not of stage 6, as the code filters them.
unfoldable pub pipeline_states : List String
unfolding contains
pipeline_states = filter (λ s. not (contains stage6_states s)) ready_states

unfoldable pub pipeline_mid_states : List String
unfolding pipeline_states
pipeline_mid_states = filter (λ s. not (s == "PENDING")) pipeline_states

abbrev pub serial_claim_order : List String
serial_claim_order =
    "CREATING_REPOSITORY_RECORD" ∷ "METADATA_PROCESSED" ∷ "WAITING_FOR_DURACLOUD"
    ∷ "INGEST_COMPLETE" ∷ "INGEST_IN_PROGRESS" ∷ "TRANSFER_COMPLETE" ∷ "TRANSFER_IN_PROGRESS"
    ∷ "TRANSFER_STARTED" ∷ "UPLOAD_COMPLETE" ∷ "UPLOADING" ∷ "QA_COMPLETE" ∷ "PROCESSING_METADATA"
    ∷ "PENDING" ∷ "AIP_STORE_IN_PROGRESS" ∷ "AIP_STORE_PENDING" ∷ []

abbrev pub am_entry_states : List String
am_entry_states = "UPLOAD_COMPLETE" ∷ []

abbrev pub am_inside_states : List String
am_inside_states =
    "TRANSFER_STARTED" ∷ "TRANSFER_IN_PROGRESS" ∷ "TRANSFER_COMPLETE" ∷ "INGEST_IN_PROGRESS" ∷ []

abbrev pub am_active_states : List String
am_active_states = am_entry_states ++ am_inside_states

unfoldable pub is_pipeline : String → Bool
unfolding contains pipeline_states
is_pipeline state = contains pipeline_states state

unfoldable pub is_stage6 : String → Bool
unfolding contains
is_stage6 state = contains stage6_states state

unfoldable pub is_am_active : String → Bool
unfolding contains
is_am_active state = contains am_active_states state

unfoldable pub is_am_entry : String → Bool
unfolding contains
is_am_entry state = contains am_entry_states state

unfoldable pub is_am_inside : String → Bool
unfolding contains
is_am_inside state = contains am_inside_states state
