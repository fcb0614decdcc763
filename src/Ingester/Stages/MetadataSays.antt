-- ===== src/Ingester/Stages/MetadataSays.antt =====
-- Stage 1: what each return tells of the record that was fetched and checked.
use repo_backend_v.Base.{
  ℕ, String, true, false, ◌≡◌, ◌≢◌, refl, ◌⊎◌, inl, inr, Option, none, some, List, [], ◌∷◌, ◌==◌,
  ◌||◌, string_eq, nat_eq, if-both,
}
use repo_backend_v.Ingester.Queue.Store.{Row, Error}
use repo_backend_v.Ingester.Queue.Update.{to_status}
use repo_backend_v.Ingester.Stages.World.{S, ◌>>=◌, pure}
use repo_backend_v.Ingester.Stages.Steps.{Remote, call, write_row, halt}
use repo_backend_v.Ingester.Stages.Says.{
  Says, Answers, Says-pure, Says-call, Says-bind, Says-then, Says-leave, Says-catch,
}
use repo_backend_v.Ingester.Stages.ProcessMetadata.{
  aspace_unreachable, validation_failed, queue_write_failed, Outcome, validated, refused, Fetched,
  threw, answered, Metadata, fetched, failed, fetch_result, fetch_from_aspace, persisted,
  message_of, or_cached, judge, conclude, run, parse_metadata,
}

module _ {A : Type 0} (json_parse : String → Option A) (json_stringify : A → String)
    (validate_record : A → List String) (http_text : ℕ → String) (error_text : Error → String)
    (fetch : String → Remote (Fetched A)) (row : Row) where
  -- No record: an error, no body, or another status than 200.
  abbrev pub Unusable : Fetched A → Type 0
  Unusable (threw message) = Unit
  Unusable (answered status none) = Unit
  Unusable (answered status (some d)) = (status == 200) ≡ false

  -- The row has no URI, or the fetch gave no record.
  abbrev pub NotFetched : Type 0
  NotFetched =
      ((row.details.metadata_uri == "") ≡ true)
      ⊎ ((f : Fetched A) × Answers (fetch row.details.metadata_uri) f × Unusable f)

  abbrev pub FetchedFrom : A → Type 0
  FetchedFrom d =
      (status : ℕ) × Answers (fetch row.details.metadata_uri) (answered status (some d))
      × ((status == 200) ≡ true)

  -- The record that was fetched or, where none was, the snapshot that the row keeps.
  abbrev pub RecordOf : A → Type 0
  RecordOf d =
      FetchedFrom d
      ⊎ (NotFetched
          × ((row.details.metadata == "") ≡ false)
          × (json_parse row.details.metadata ≡ some d))

  abbrev pub NoSnapshot : Type 0
  NoSnapshot = ((row.details.metadata == "") ≡ true) ⊎ (json_parse row.details.metadata ≡ none)

  abbrev pub Stage1Tells : Outcome A → Type 0
  Stage1Tells (validated d) = RecordOf d × (validate_record d ≡ [])
  Stage1Tells (refused validation_failed) = (d : A) × RecordOf d × (validate_record d ≢ [])
  Stage1Tells (refused aspace_unreachable) = NotFetched × NoSnapshot
  Stage1Tells (refused queue_write_failed) = (d : A) × RecordOf d × (validate_record d ≡ [])

  abbrev Got : Metadata A → Type 0
  Got (fetched d) = FetchedFrom d
  Got (failed message) = NotFetched

  abbrev result : Fetched A → Metadata A
  result f =
      fetch_result json_parse json_stringify validate_record http_text error_text fetch row
        row.details.metadata_uri f

  result-Got : (f : Fetched A) → Answers (fetch row.details.metadata_uri) f → Got (result f)
  unfolding fetch_result
  result-Got (threw message) a = inr (threw message, a, tt)
  result-Got (answered status none) a =
      if-both {A = Metadata A} Got (status == 401 || status == 403)
        (λ _. inr (answered status none, a, tt))
        (λ _.
          if-both {A = Metadata A} Got (status == 404) (λ _. inr (answered status none, a, tt))
            (λ _. inr (answered status none, a, tt)))
  result-Got (answered status (some d)) a =
      if-both {A = Metadata A} Got (status == 200) (λ good. (status, a, good))
        (λ bad.
          if-both {A = Metadata A} Got (status == 401 || status == 403)
            (λ _. inr (answered status (some d), a, bad))
            (λ _.
              if-both {A = Metadata A} Got (status == 404)
                (λ _. inr (answered status (some d), a, bad))
                (λ _. inr (answered status (some d), a, bad))))

  abbrev fetching : S (Metadata A)
  fetching =
      fetch_from_aspace json_parse json_stringify validate_record http_text error_text fetch row
        row.details.metadata_uri

  fetching-Got : Says Got fetching
  unfolding fetch_from_aspace
  fetching-Got =
      if-both {A = S (Metadata A)} (Says Got) (row.details.metadata_uri == "")
        (λ e. Says-pure Got (failed "row has no metadata_uri") (inl e))
        (λ _.
          Says-bind Got (Answers (fetch row.details.metadata_uri))
            (call (fetch row.details.metadata_uri)) (λ f. pure (result f))
            (Says-call (fetch row.details.metadata_uri))
            (λ f a. Says-pure Got (result f) (result-Got f a)))

  abbrev Record : Option A → Type 0
  Record (some d) = RecordOf d
  Record none = NotFetched × NoSnapshot

  snapshot :
      NotFetched
      → (o : Option A) → json_parse row.details.metadata ≡ o
      → (row.details.metadata == "") ≡ false
      → Record o
  snapshot missing none e there = (missing, inr e)
  snapshot missing (some d) e there = inr (missing, there, e)

  or_cached-Record :
      (got : Metadata A)
      → Got got
      → Record
          (or_cached json_parse json_stringify validate_record http_text error_text fetch row got)
  unfolding parse_metadata
  or_cached-Record (fetched d) g = inl g
  or_cached-Record (failed message) g =
      if-both {A = Option A} Record (row.details.metadata == "") (λ e. (g, inl e))
        (λ e. snapshot g (json_parse row.details.metadata) refl e)

  judge-Says :
      (d : A) (errors : List String)
      → RecordOf d
      → validate_record d ≡ errors
      → Says Stage1Tells
          (judge json_parse json_stringify validate_record http_text error_text fetch row d errors)
  unfolding judge
  judge-Says d [] from e =
      Says-catch Stage1Tells
        (write_row row
            (persisted json_parse json_stringify validate_record http_text error_text fetch row d)
            "process_metadata" "validated"
          >>= λ _. pure (validated d))
        (λ f.
          halt row "INGEST_HALTED" "process_metadata" "queue_write_failed" (error_text f) >>= λ _.
          pure (refused queue_write_failed))
        (Says-leave Stage1Tells _ (validated d) (from, e))
        (λ f. Says-leave Stage1Tells _ (refused queue_write_failed) (d, from, e))
  judge-Says d (t ∷ ts) from e =
      Says-leave Stage1Tells _ (refused validation_failed) (d, from, λ passes. absurd cc)

  conclude-Says :
      (message : String) (o : Option A)
      → Record o
      → Says Stage1Tells (
          conclude json_parse json_stringify validate_record http_text error_text fetch row message
            o)
  unfolding conclude
  conclude-Says message none r = Says-leave Stage1Tells _ (refused aspace_unreachable) r
  conclude-Says message (some d) r = judge-Says d (validate_record d) r refl

  pub run-Says :
      Says Stage1Tells
        (run json_parse json_stringify validate_record http_text error_text fetch row)
  unfolding run
  run-Says =
      Says-then Stage1Tells
        (write_row row (to_status "PROCESSING_METADATA") "process_metadata" "started")
        (λ _. fetching >>= λ got.
          conclude json_parse json_stringify validate_record http_text error_text fetch row
            (message_of json_parse json_stringify validate_record http_text error_text fetch row
              got)
            (or_cached json_parse json_stringify validate_record http_text error_text fetch row
              got))
        (λ _. Says-bind Stage1Tells Got fetching _ fetching-Got (λ got g.
          conclude-Says
            (message_of json_parse json_stringify validate_record http_text error_text fetch row
              got)
            (or_cached json_parse json_stringify validate_record http_text error_text fetch row got)
            (or_cached-Record got g)))
