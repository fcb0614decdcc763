-- ===== src/Ingester/States.antt =====
-- ingester/state_metadata.js: the states of the ingest queue, what the dashboard shows for each,
-- and the staff actions that each one offers. A state is the text that the database column holds.
pub mod Metadata
pub mod Actions
use repo_backend_v.Base.{
  String, Bool, true, false, ◌||◌, ◌&&◌, Option, none, some, List, [], ◌∷◌, ◌++◌, if◌then◌else◌,
  ◌==◌, contains, string_eq,
}
pub use Metadata.{
  Severity, info, warn, error, fatal, StatusMetadata, status_metadata, default_metadata,
  get_status_metadata,
}

abbrev pub states_at_pre_am_failure : List String
states_at_pre_am_failure =
    "INGEST_HALTED" ∷ "UPLOAD_TIMEOUT" ∷ "APPROVE_TIMEOUT" ∷ "TRANSFER_STATUS_TIMEOUT" ∷ []

abbrev pub states_at_am_failure : List String
states_at_am_failure =
    "INGEST_STATUS_TIMEOUT" ∷ "FAILED" ∷ "AS_METADATA_DRIFT" ∷ "DURACLOUD_TIMEOUT" ∷ []

abbrev pub states_pre_folder_move_failure : List String
states_pre_folder_move_failure = "AS_METADATA_INVALID" ∷ []

abbrev pub pre_upload_prior_states : List String
pre_upload_prior_states = "PENDING" ∷ "STARTING" ∷ "PROCESSING_METADATA" ∷ "QA_COMPLETE" ∷ []

abbrev pub post_upload_pre_am_prior_states : List String
post_upload_pre_am_prior_states =
    "UPLOADING" ∷ "UPLOAD_COMPLETE" ∷ "TRANSFER_STARTED" ∷ "TRANSFER_IN_PROGRESS"
    ∷ "TRANSFER_APPROVED" ∷ "TRANSFER_COMPLETE" ∷ []

abbrev pub am_prior_states : List String
am_prior_states =
    "INGEST_IN_PROGRESS" ∷ "INGEST_COMPLETE" ∷ "CONSTRUCTED_OBJECT_PATHS"
    ∷ "MASTER_OBJECT_DATA_SAVED" ∷ "WAITING_FOR_DURACLOUD" ∷ "METADATA_PROCESSED"
    ∷ "METADATA_RECORD_PARTS_UPDATED" ∷ "CREATING_REPOSITORY_RECORD" ∷ "REPOSITORY_RECORD_CREATED"
    ∷ "REPOSITORY_RECORD_INDEXED" ∷ []

abbrev pub pre_am_prior_states : List String
pre_am_prior_states = pre_upload_prior_states ++ post_upload_pre_am_prior_states

abbrev pub cancellable_states : List String
cancellable_states = pre_am_prior_states ++ am_prior_states

-- The part of `available_actions` behind its early returns.
halted_actions : String → List String
halted_actions state =
    if state == "DURACLOUD_TIMEOUT"
    then "retry_access_copy" ∷ "rollback_archivematica" ∷ []
    else if contains states_at_pre_am_failure state
    then "rollback_pre_ingest" ∷ []
    else if contains states_at_am_failure state
    then "rollback_archivematica" ∷ []
    else if contains states_pre_folder_move_failure state
    then "reset" ∷ []
    else if contains cancellable_states state
    then "cancel" ∷ []
    else []

-- The prior state is accepted and not read, as in the source.
unfoldable pub available_actions : String → Option String → List String
unfolding halted_actions
available_actions state prev_state =
    if state == "AIP_STORE_PENDING" || state == "AIP_STORE_IN_PROGRESS"
    then "timeline" ∷ "stop_aip_copy" ∷ []
    else if state == "AIP_STORE_FAILED"
    then "timeline" ∷ "dismiss_aip_row" ∷ []
    else if state == "CANCELLED_BY_USER"
    then "timeline" ∷ "rollback_to_packaging" ∷ []
    else if state == "AM_DELETION_REQUESTED"
    then "timeline" ∷ "rollback_to_packaging" ∷ []
    else "timeline" ∷ halted_actions state

-- `actions.includes(name)`.
unfoldable pub offers : List String → String → Bool
unfolding contains
offers actions name = contains actions name
