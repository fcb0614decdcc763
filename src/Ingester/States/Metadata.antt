-- ===== src/Ingester/States/Metadata.antt =====
-- The table STATUS_METADATA of ingester/state_metadata.js and its lookup.
use repo_backend_v.Base.{String, Option, none, some, List, [], ◌∷◌, if◌then◌else◌, ◌==◌, string_eq}

pub data Severity : Type 0 where
  info warn error fatal : Severity

pub record StatusMetadata : Type 0 where
  pub severity : Severity
  pub suggested_action : Option String

abbrev silent : Severity → StatusMetadata
silent s = record { severity = s; suggested_action = none }

abbrev entry : Severity → String → StatusMetadata
entry s text = record { severity = s; suggested_action = some text }

unfoldable pub status_metadata : List (String × StatusMetadata)
status_metadata =
    ("PENDING", silent info)
    ∷ ("STARTING", silent info)
    ∷ ("QA_COMPLETE", silent info)
    ∷ ("PROCESSING_METADATA", silent info)
    ∷ ("UPLOADING", entry info "Wait — packages uploading to Archivematica SFTP.")
    ∷ (
      "UPLOAD_COMPLETE",
      entry info
          "Wait — handing off to Archivematica. Large packages stay at this step while Archivematica copies the files into its transfer area, which can take a long time. This is normal.",
    )
    ∷ ("REPLICATING_PACKAGE", silent info)
    ∷ (
      "TRANSFER_STARTED",
      entry info
          "Wait — initializing Archivematica transfer. The pipeline reconciles with Archivematica on restart if this stalls.",
    )
    ∷ ("TRANSFER_IN_PROGRESS", entry info "Wait — Archivematica is processing the transfer.")
    ∷ ("TRANSFER_APPROVED", silent info)
    ∷ ("TRANSFER_COMPLETE", silent info)
    ∷ ("INGEST_IN_PROGRESS", entry info "Wait — Archivematica is ingesting.")
    ∷ ("INGEST_COMPLETE", silent info)
    ∷ ("CONSTRUCTED_OBJECT_PATHS", silent info)
    ∷ ("MASTER_OBJECT_DATA_SAVED", silent info)
    ∷ ("METADATA_PROCESSED", silent info)
    ∷ ("METADATA_RECORD_PARTS_UPDATED", silent info)
    ∷ ("CREATING_REPOSITORY_RECORD", silent info)
    ∷ ("REPOSITORY_RECORD_CREATED", silent info)
    ∷ ("REPOSITORY_RECORD_INDEXED", silent info)
    ∷ ("REPOSITORY_COLLECTION_RECORD_CREATED_AND_INDEXED", silent info)
    ∷ ("COMPLETE", entry info "Ingest Complete")
    ∷ ("AIP_STORE_PENDING", entry info "Wait — preparing preservation copy to Wasabi S3.")
    ∷ ("AIP_STORE_IN_PROGRESS", entry info "Wait — copying AIP to Wasabi S3.")
    ∷ ("AIP_STORE_COMPLETE", entry info "Ingest Complete — AIP preserved in Wasabi.")
    ∷ (
      "AIP_STORE_FAILED",
      entry warn
          "Preservation copy to Wasabi did not complete after its retry budget. Open the AIPs dashboard: if the row shows \"Failed\", retry once Wasabi/curation is reachable; if it shows \"Orphan\" (AIP not found in Archivematica), the AIP may have registered late — use \"Re-check AM & retry\".",
    )
    ∷ (
      "WAITING_FOR_DURACLOUD",
      entry info "Wait — Archivematica has finished; the access copy is being prepared.",
    )
    ∷ (
      "UPLOAD_TIMEOUT",
      entry warn "SFTP upload exceeded 4 hours. Retry the batch; contact IT if it persists.",
    )
    ∷ (
      "APPROVE_TIMEOUT",
      entry warn
          "Archivematica did not present the transfer for approval within 10 minutes. Verify the transfer arrived in Archivematica and retry.",
    )
    ∷ (
      "TRANSFER_STATUS_TIMEOUT",
      entry warn
          "Transfer status polling exceeded 6 hours. Check Archivematica dashboard for the actual state.",
    )
    ∷ (
      "INGEST_STATUS_TIMEOUT",
      entry warn
          "Ingest status polling exceeded 6 hours. Check Archivematica dashboard for the actual state.",
    )
    ∷ (
      "DURACLOUD_TIMEOUT",
      entry warn
          "The files are safe, but the access copy didn't finish. Use Retry; contact LDT if it stops here again.",
    )
    ∷ (
      "FAILED",
      entry error
          "Archivematica reported a failure. Roll back the AIP in Archivematica admin, then retry the batch.",
    )
    ∷ (
      "INGEST_HALTED",
      entry error "See the Timeline for details. Fix the underlying issue and retry.",
    )
    ∷ (
      "COLLECTION_RECORD_NOT_INDEXED",
      entry error
          "Collection record was created but not indexed in Elasticsearch. Retry indexing or contact IT.",
    )
    ∷ (
      "AS_METADATA_DRIFT",
      entry error
          "ArchivesSpace metadata failed validation post-ingest (record may have changed since pre-ingest validation). Review the AS record, fix any issues, then retry.",
    )
    ∷ (
      "AS_METADATA_INVALID",
      entry error
          "ArchivesSpace metadata failed pre-ingest validation. No Archivematica activity occurred — no rollback needed. Fix the AS record and re-run the ingest.",
    )
    ∷ (
      "ROLLED_BACK_TO_READY",
      entry info
          "Folder returned to the Packaging and Ingesting view. Safe to re-submit once the underlying issue is fixed.",
    )
    ∷ (
      "RETURNED_TO_PACKAGING",
      entry info
          "Folder is back in the Packaging and Ingesting view. Safe to re-submit once the underlying issue is fixed.",
    )
    ∷ (
      "AM_DELETION_REQUESTED",
      entry warn
          "AIP deletion request submitted to Archivematica; an Archivematica admin must approve it in the Storage Service UI. Once approved, use Return to Packaging (Show: Closed only) to put the folder back, then re-submit.",
    )
    ∷ (
      "CANCELLED_BY_USER",
      entry warn
          "Cancelled by staff. Use Return to Packaging in the kebab menu to move the folder back to the Packaging and Ingesting view before re-running.",
    )
    ∷ []

abbrev pub default_metadata : StatusMetadata
default_metadata = silent info

-- `hasOwnProperty` and the read of the property.
lookup : String → List (String × StatusMetadata) → Option StatusMetadata
lookup key [] = none
lookup key ((k, v) ∷ table) = if k == key then some v else lookup key table

unfoldable pub get_status_metadata : String → StatusMetadata
unfolding lookup status_metadata
get_status_metadata status =
    if status == ""
    then default_metadata
    else elim (lookup status status_metadata) [ none ↦ default_metadata | some m ↦ m ]
