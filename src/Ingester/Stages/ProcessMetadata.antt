-- ===== src/Ingester/Stages/ProcessMetadata.antt =====
-- ingester/stages/process_metadata.js: stage 1, which fetches and checks the ArchivesSpace record of
-- a package. The fetch of libs/aspace_session, the validator and JSON are parameters.
use Prim.Native.String.{◌++◌}
use repo_backend_v.Base.{
  ℕ, String, Option, none, some, List, [], ◌∷◌, ◌==◌, string_eq, nat_eq, ◌||◌, if◌then◌else◌,
}
use repo_backend_v.Ingester.Queue.Store.{Row, Error}
use repo_backend_v.Ingester.Queue.Update.{Patch, to_status}
use repo_backend_v.Ingester.Stages.Text.{slice, join}
use repo_backend_v.Ingester.Stages.World.{S, ◌>>=◌, pure, catch}
use repo_backend_v.Ingester.Stages.Steps.{Remote, call, write_row, halted, halt}

pub data Refusal : Type 0 where
  aspace_unreachable : Refusal
  validation_failed : Refusal
  queue_write_failed : Refusal

pub data Outcome (A : Type 0) : Type 0 where
  validated : (metadata : A) → Outcome A
  refused : Refusal → Outcome A

-- What the fetch answers: an error, or a status and the record if there is one.
pub data Fetched (A : Type 0) : Type 0 where
  threw : (message : String) → Fetched A
  answered : (status : ℕ) (record' : Option A) → Fetched A

pub data Metadata (A : Type 0) : Type 0 where
  fetched : A → Metadata A
  failed : (message : String) → Metadata A

-- The JSON texts, the check of a record, and the decimal text of a status, and the
-- text of an error.
module _ {A : Type 0} (json_parse : String → Option A) (json_stringify : A → String)
    (validate_record : A → List String) (http_text : ℕ → String) (error_text : Error → String)
    (fetch : String → Remote (Fetched A)) (row : Row) where
  unfoldable pub fetch_result : String → Fetched A → Metadata A
  fetch_result uri (threw message) = failed message
  fetch_result uri (answered status (some d)) =
      if status == 200
      then fetched d
      else if status == 401 || status == 403
      then failed ("ArchivesSpace auth failed: HTTP " ++ http_text status)
      else if status == 404
      then failed ("ArchivesSpace record not found: " ++ uri)
      else failed ("ArchivesSpace " ++ uri ++ " returned HTTP " ++ http_text status)
  fetch_result uri (answered status none) =
      if status == 401 || status == 403
      then failed ("ArchivesSpace auth failed: HTTP " ++ http_text status)
      else if status == 404
      then failed ("ArchivesSpace record not found: " ++ uri)
      else failed ("ArchivesSpace " ++ uri ++ " returned HTTP " ++ http_text status)

  unfoldable pub fetch_from_aspace : String → S (Metadata A)
  unfolding fetch_result
  fetch_from_aspace uri =
      if uri == ""
      then pure (failed "row has no metadata_uri")
      else (call (fetch uri) >>= λ f. pure (fetch_result uri f))

  unfoldable pub parse_metadata : String → Option A
  parse_metadata raw = if raw == "" then none else json_parse raw

  -- The record, or the snapshot of an earlier run in its place.
  abbrev pub or_cached : Metadata A → Option A
  or_cached (fetched d) = some d
  or_cached (failed message) = parse_metadata row.details.metadata

  abbrev pub message_of : Metadata A → String
  message_of (fetched d) = "no metadata available"
  message_of (failed message) = message

  abbrev pub persisted : A → Patch
  persisted d = record (to_status "QA_COMPLETE") {
    details = λ c. record c { metadata = json_stringify d };
  }

  unfoldable pub judge : A → List String → S (Outcome A)
  unfolding halt slice
  judge d [] =
      catch (write_row row (persisted d) "process_metadata" "validated" >>= λ _. pure (validated d))
        λ e.
          halt row "INGEST_HALTED" "process_metadata" "queue_write_failed" (error_text e) >>= λ _.
          pure (refused queue_write_failed)
  judge d (e ∷ es) =
      write_row row (halted "AS_METADATA_INVALID" (slice 1000 (join (e ∷ es)))) "process_metadata"
        "validation_failed"
      >>= λ _. pure (refused validation_failed)

  unfoldable pub conclude : String → Option A → S (Outcome A)
  unfolding judge halt
  conclude message none =
      halt row "INGEST_HALTED" "process_metadata" "aspace_unreachable" message >>= λ _.
      pure (refused aspace_unreachable)
  conclude message (some d) = judge d (validate_record d)

  unfoldable pub run : S (Outcome A)
  unfolding fetch_from_aspace parse_metadata conclude
  run = write_row row (to_status "PROCESSING_METADATA") "process_metadata" "started" >>= λ _.
      fetch_from_aspace row.details.metadata_uri >>= λ got.
      conclude (message_of got) (or_cached got)
