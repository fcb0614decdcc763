-- ===== src/Ingester/Stages/MetadataEnds.antt =====
-- Stage 1 as a whole: the rows that it writes and the state that each return stands for.
use repo_backend_v.Ingester.Stages.Says.{Told}
use repo_backend_v.Ingester.Stages.MetadataSays.{Stage1Tells, run-Says}
use repo_backend_v.Base.{
  ℕ, String, refl, Option, none, some, List, [], ◌∷◌, contains, ◌==◌, string_eq, if-both,
}
use repo_backend_v.Ingester.Queue.Store.{Row, Error}
use repo_backend_v.Ingester.Queue.Update.{to_status}
use repo_backend_v.Ingester.Stages.Text.{slice, join}
use repo_backend_v.Ingester.Stages.Rules.{FramedTo, Settled}
use repo_backend_v.Ingester.Stages.World.{World, S, ◌>>=◌, pure}
use repo_backend_v.Ingester.Stages.Steps.{Remote, call, write_row, halted, halt}
use repo_backend_v.Ingester.Stages.Ends.{
  Own, Apart, Own-pure, Own-bind, Own-call, Own-write, Good, Good-bind, Good-catch, Good-leave,
  Good-halt,
}
use repo_backend_v.Ingester.Stages.ProcessMetadata.{
  aspace_unreachable, validation_failed, queue_write_failed, Outcome, validated, refused, Fetched,
  Metadata, failed, fetch_result, fetch_from_aspace, persisted, message_of, or_cached, judge,
  conclude, run,
}

abbrev pub stage1_states : List String
stage1_states = "PROCESSING_METADATA" ∷ "QA_COMPLETE" ∷ "AS_METADATA_INVALID" ∷ "INGEST_HALTED" ∷ []

abbrev pub stage1_exit : {A : Type 0} → Outcome A → Option String
stage1_exit (validated metadata) = some "QA_COMPLETE"
stage1_exit (refused aspace_unreachable) = some "INGEST_HALTED"
stage1_exit (refused validation_failed) = some "AS_METADATA_INVALID"
stage1_exit (refused queue_write_failed) = some "INGEST_HALTED"

module _ {A : Type 0} (json_parse : String → Option A) (json_stringify : A → String)
    (validate_record : A → List String) (http_text : ℕ → String) (error_text : Error → String)
    (fetch : String → Remote (Fetched A)) (row : Row)
    (others : (uri : String) → Apart row stage1_states (fetch uri)) where
  abbrev Ends : S (Outcome A) → Type 0
  Ends m = Good row stage1_states {A = Outcome A} (stage1_exit {A = A}) m

  fetch-Own :
      (uri : String)
      → Own row stage1_states (
          fetch_from_aspace json_parse json_stringify validate_record http_text error_text fetch row
            uri)
  unfolding fetch_from_aspace
  fetch-Own uri =
      if-both {A = S (Metadata A)} (Own row stage1_states) (uri == "")
        (λ _. Own-pure row stage1_states {A = Metadata A} (failed "row has no metadata_uri"))
        (λ _.
          Own-bind row stage1_states (call (fetch uri))
            (λ f. pure (
              fetch_result json_parse json_stringify validate_record http_text error_text fetch row
                uri f))
            (Own-call row stage1_states (fetch uri) (others uri))
            (λ f. Own-pure row stage1_states (
              fetch_result json_parse json_stringify validate_record http_text error_text fetch row
                uri f)))

  judge-Ends :
      (d : A) (errors : List String)
      → Ends
          (judge json_parse json_stringify validate_record http_text error_text fetch row d errors)
  unfolding judge
  judge-Ends d [] =
      Good-catch row stage1_states {A = Outcome A} (stage1_exit {A = A})
        (write_row row
            (persisted json_parse json_stringify validate_record http_text error_text fetch row d)
            "process_metadata" "validated"
          >>= λ _. pure (validated d))
        (λ e.
          halt row "INGEST_HALTED" "process_metadata" "queue_write_failed" (error_text e) >>= λ _.
          pure (refused queue_write_failed))
        (Good-leave row stage1_states (stage1_exit {A = A}) _ "process_metadata" "validated"
          "QA_COMPLETE" (validated d) refl (unfold contains in refl) refl)
        (λ e.
          Good-halt row stage1_states (stage1_exit {A = A}) "process_metadata" "INGEST_HALTED"
            "queue_write_failed" (error_text e) (refused queue_write_failed)
            (unfold contains in refl) refl)
  judge-Ends d (e ∷ es) =
      Good-leave row stage1_states (stage1_exit {A = A})
        (halted "AS_METADATA_INVALID" (slice 1000 (join (e ∷ es)))) "process_metadata"
        "validation_failed" "AS_METADATA_INVALID" (refused validation_failed) refl
        (unfold contains in refl) refl

  conclude-Ends :
      (message : String) (d : Option A)
      → Ends (
          conclude json_parse json_stringify validate_record http_text error_text fetch row message
            d)
  unfolding conclude
  conclude-Ends message none =
      Good-halt row stage1_states (stage1_exit {A = A}) "process_metadata" "INGEST_HALTED"
        "aspace_unreachable" message (refused aspace_unreachable) (unfold contains in refl) refl
  conclude-Ends message (some d) = judge-Ends d (validate_record d)

  -- What follows the fetch.
  abbrev after_fetch : Metadata A → S (Outcome A)
  after_fetch got =
      conclude json_parse json_stringify validate_record http_text error_text fetch row
        (message_of json_parse json_stringify validate_record http_text error_text fetch row got)
        (or_cached json_parse json_stringify validate_record http_text error_text fetch row got)

  abbrev fetching : S (Metadata A)
  fetching =
      fetch_from_aspace json_parse json_stringify validate_record http_text error_text fetch row
        row.details.metadata_uri

  run-Ends : Ends (run json_parse json_stringify validate_record http_text error_text fetch row)
  unfolding run
  run-Ends =
      Good-bind row stage1_states (stage1_exit {A = A})
        (write_row row (to_status "PROCESSING_METADATA") "process_metadata" "started")
        (λ _. fetching >>= after_fetch)
        (Own-write row stage1_states (to_status "PROCESSING_METADATA") "process_metadata" "started"
          (unfold contains in refl))
        (λ _.
          Good-bind row stage1_states (stage1_exit {A = A}) fetching after_fetch
            (fetch-Own row.details.metadata_uri)
            (λ got.
              conclude-Ends
                (message_of json_parse json_stringify validate_record http_text error_text fetch row
                  got)
                (or_cached json_parse json_stringify validate_record http_text error_text fetch row
                  got)))

  -- Where whatever runs during the fetch keeps to it too, a run of stage 1 changes no row but its
  -- own, moves that only to states of the stage, and leaves it, where it returns, in QA_COMPLETE for a
  -- record without validation errors, in AS_METADATA_INVALID for one with some, and in INGEST_HALTED
  -- where there is no record or its write failed. The record is the one that ArchivesSpace answered with
  -- a status of 200 or, only where it gave none, the snapshot that the row keeps.
  pub process_metadata-Ends :
      (w : World)
      → let x = run json_parse json_stringify validate_record http_text error_text fetch row w in
        FramedTo row.id stage1_states w x
        × Settled {A = Outcome A} row.id (stage1_exit {A = A}) x
        × Told
            (Stage1Tells json_parse json_stringify validate_record http_text error_text fetch row)
            x
  process_metadata-Ends w =
      let ends = run-Ends w in
      (
        ends.0,
        ends.1,
        run-Says json_parse json_stringify validate_record http_text error_text fetch row w,
      )
