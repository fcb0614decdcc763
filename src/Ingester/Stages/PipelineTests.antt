-- ===== src/Ingester/Stages/PipelineTests.antt =====
-- Stages 1 to 3 on concrete packages.
use repo_backend_v.Ingester.Stages.Says.{Told}
use repo_backend_v.Ingester.Stages.IngestSays.{Stage4Tells}
use repo_backend_v.Ingester.Stages.TransferSays.{Stage3Tells}
use repo_backend_v.Ingester.Stages.UploadSays.{Stage2Tells}
use repo_backend_v.Ingester.Stages.MetadataSays.{Stage1Tells}
use repo_backend_v.Base.{
  String, false, ◌≡◌, refl, inr, none, some, List, [], ◌∷◌, true, Bool, Option, ℕ,
}
use repo_backend_v.Ingester.States.{info}
use repo_backend_v.Ingester.Queue.Store.{Row, Error}
use repo_backend_v.Ingester.Queue.Insert.{no_details}
use repo_backend_v.Ingester.Stages.ProcessMetadata
use repo_backend_v.Ingester.Stages.Upload
use repo_backend_v.Ingester.Stages.Ingest
use repo_backend_v.Ingester.Stages.DipCopy.{Got, got, Link}
use repo_backend_v.Ingester.Stages.IngestEnds.{stage4_states, stage4_exit, ingest-Ends}
use repo_backend_v.Ingester.Stages.Transfer
use repo_backend_v.Ingester.Stages.Text.{basename_from_path, trailing_uuid}
use repo_backend_v.Ingester.Stages.World.{World}
use repo_backend_v.Ingester.Stages.Steps.{Remote, deadline}
use repo_backend_v.Ingester.Stages.Frame.{Framed-refl}
use repo_backend_v.Ingester.Stages.Rules.{FramedTo, Settled}
use repo_backend_v.Ingester.Stages.ProcessMetadata.{Outcome, Fetched, answered}
use repo_backend_v.Ingester.Stages.MetadataEnds.{stage1_states, stage1_exit, process_metadata-Ends}
use repo_backend_v.Ingester.Stages.Upload.{
  Counted, count_status, number, Status, replied, StatusBody,
}
use repo_backend_v.Ingester.Stages.UploadEnds.{stage2_states, stage2_exit, upload-Ends}
use repo_backend_v.Ingester.Stages.Transfer.{
  Started, start_status, start_threw, StartBody, ApproveTurn,
}
use repo_backend_v.Ingester.Stages.TransferEnds.{stage3_states, stage3_exit, transfer-Ends}
use repo_backend_v.Ingester.Stages.TransferResumed.{transfer-resumed}

abbrev row_in : String → Row
row_in state = record {
  id = 4;
  batch = "batch-3";
  package_name = "pkg-4";
  status = state;
  pipeline_state = state;
  severity = info;
  suggested_action = none;
  error = none;
  is_complete = false;
  sip_uuid = none;
  details = record no_details {
    metadata_uri = "/repositories/2/objects/4";
    transfer_folder = "pkg-4-1";
  };
  last_poll_at = none;
  updated = 0;
}

abbrev world_of : String → World
world_of state = record {
  queue = record { rows = row_in state ∷ []; events = []; next_id = 5; now = 1000; faults = [] };
  objects = [];
  copies = [];
  next_copy = 1;
  faults = [];
}

abbrev saying : {A : Type 0} → A → Remote A
saying a w = (a, w)

abbrev no_text : {A : Type 0} → A → String
no_text a = "an error"

abbrev no_errors : String → List String
no_errors d = []

abbrev as_it_is : String → String
as_it_is s = s

process_metadata-Ends_example :
    let x =
      ProcessMetadata.run {A = String} some as_it_is no_errors no_text
        (no_text {A = Error})
        (λ uri. saying (answered 200 (some "record")))
        (row_in "PENDING")
        (world_of "PENDING") in
    FramedTo 4 stage1_states (world_of "PENDING") x
    × Settled {A = Outcome String} 4 (stage1_exit {A = String}) x
    × Told
        (Stage1Tells some as_it_is no_errors no_text
          (no_text {A = Error})
          (λ uri. saying (answered 200 (some "record")))
          (row_in "PENDING"))
        x
process_metadata-Ends_example =
    process_metadata-Ends some as_it_is no_errors no_text (no_text {A = Error})
      (λ uri. saying (answered 200 (some "record"))) (row_in "PENDING")
      (λ uri w. Framed-refl 4 stage1_states w.queue.rows) (world_of "PENDING")

abbrev half_there : StatusBody
half_there = record {
  message = "in_progress";
  error = "";
  remote_file_count = some 1;
  is_complete = false;
  uploaded = none;
  upload_count = none;
  count = none;
  remote_package_size_bytes = some 10;
  local_package_size_bytes = some 20;
}

upload-Ends_example :
    let x =
      Upload.run no_text
        (row_in "QA_COMPLETE")
        (saying (count_status 200 (number 2)))
        (saying none)
        (saying (replied 200 (some half_there)) ∷ [])
        deadline
        (world_of "QA_COMPLETE") in
    FramedTo 4 stage2_states (world_of "QA_COMPLETE") x
    × Settled 4 stage2_exit x
    × Told
        (Stage2Tells no_text
          (row_in "QA_COMPLETE")
          (saying (count_status 200 (number 2)))
          (saying none)
          (saying (replied 200 (some half_there)) ∷ [])
          deadline)
        x
upload-Ends_example =
    upload-Ends no_text (row_in "QA_COMPLETE") (saying (count_status 200 (number 2))) (saying none)
      (saying (replied 200 (some half_there)) ∷ []) deadline
      (λ w. Framed-refl 4 stage2_states w.queue.rows)
      (λ w. Framed-refl 4 stage2_states w.queue.rows)
      ((λ w. Framed-refl 4 stage2_states w.queue.rows), tt) (world_of "QA_COMPLETE")

abbrev copied_body : StartBody
copied_body = record {
  id = "";
  transfer_id = "";
  path = "/am/standardTransfer/pkg-4-1/";
  directory = "";
}

basename_seen : basename_from_path "/am/standardTransfer/pkg-4-1/" ≡ "pkg-4-1"
unfolding basename_from_path
basename_seen = refl

uuid_seen :
    trailing_uuid "pkg-4-0f8fad5b-d9cb-469f-a165-70867728950e"
    ≡ "0f8fad5b-d9cb-469f-a165-70867728950e"
unfolding trailing_uuid
uuid_seen = refl

uuid_unseen : trailing_uuid "pkg-4-1" ≡ ""
unfolding trailing_uuid
uuid_unseen = refl

transfer-Ends_example :
    let x =
      Transfer.run as_it_is
        (row_in "UPLOAD_COMPLETE")
        no_text
        (λ pid. saying (start_status 200 (some copied_body)))
        (saying (record { listed = none; approved = false }) ∷ [])
        deadline
        (λ uuid. [])
        deadline
        (world_of "UPLOAD_COMPLETE") in
    FramedTo 4 stage3_states (world_of "UPLOAD_COMPLETE") x
    × Settled 4 stage3_exit x
    × Told
        (Stage3Tells as_it_is
          (row_in "UPLOAD_COMPLETE")
          no_text
          (λ pid. saying (start_status 200 (some copied_body)))
          (saying (record { listed = none; approved = false }) ∷ [])
          deadline
          (λ uuid. [])
          deadline)
        x
transfer-Ends_example =
    transfer-Ends as_it_is (row_in "UPLOAD_COMPLETE") no_text
      (λ pid. saying (start_status 200 (some copied_body)))
      (saying (record { listed = none; approved = false }) ∷ []) deadline (λ uuid. []) deadline
      (λ pid w. Framed-refl 4 stage3_states w.queue.rows)
      ((λ w. Framed-refl 4 stage3_states w.queue.rows), tt) (λ uuid. tt)
      (world_of "UPLOAD_COMPLETE")

transfer-resumed_example :
    Transfer.run as_it_is
      (row_in "TRANSFER_IN_PROGRESS")
      no_text
      (λ pid. saying (start_status 200 (some copied_body)))
      []
      deadline
      (λ uuid. [])
      deadline
      (world_of "TRANSFER_IN_PROGRESS")
    ≡ Transfer.run as_it_is
        (row_in "TRANSFER_IN_PROGRESS")
        no_text
        (λ pid. saying (start_threw "ECONNRESET"))
        (saying (record { listed = none; approved = false }) ∷ [])
        deadline
        (λ uuid. [])
        deadline
        (world_of "TRANSFER_IN_PROGRESS")
transfer-resumed_example =
    transfer-resumed as_it_is (row_in "TRANSFER_IN_PROGRESS") no_text
      (λ pid. saying (start_status 200 (some copied_body)))
      (λ pid. saying (start_threw "ECONNRESET")) deadline (λ uuid. []) deadline []
      (saying (record { listed = none; approved = false }) ∷ []) (world_of "TRANSFER_IN_PROGRESS")
      (inr refl)

abbrev waiting_row : Row
waiting_row = record (row_in "INGEST_IN_PROGRESS") { sip_uuid = some "sip-4" }

abbrev waiting_world : World
waiting_world = record (world_of "PENDING") {
  queue = record (world_of "PENDING").queue { rows = waiting_row ∷ [] };
}

abbrev no_copy : Ingest.Config
no_copy = record {
  dip_copy_enabled = false;
  curation_configured = true;
  dip_store_configured = true;
}

abbrev never : Error → Bool
never e = false

abbrev made_here : Remote (Option Ingest.AmStatus)
made_here = saying (some (record { status = "COMPLETE"; microservice = "" }))

abbrev linked : Remote (Got Link)
linked = saying (got (record { dip_path = "dip-4"; dip_uuid = "" }))

abbrev say_text : String → ℕ → String
say_text reason status = reason

ingest-Ends_example :
    let x =
      Ingest.run say_text
        (no_text {A = Error})
        never
        no_errors
        no_copy
        waiting_row
        (made_here ∷ [])
        deadline
        (saying (answered 200 (some "record")))
        linked
        (λ path. [])
        []
        deadline
        waiting_world in
    FramedTo 4 stage4_states waiting_world x
    × Settled 4 stage4_exit x
    × Told
        (Stage4Tells say_text
          (no_text {A = Error})
          never
          no_errors
          no_copy
          waiting_row
          (made_here ∷ [])
          deadline
          (saying (answered 200 (some "record")))
          linked
          (λ path. [])
          []
          deadline)
        x
ingest-Ends_example =
    ingest-Ends say_text (no_text {A = Error}) never no_errors no_copy waiting_row (made_here ∷ [])
      deadline (saying (answered 200 (some "record"))) linked (λ path. []) [] deadline
      ((λ w. Framed-refl 4 stage4_states w.queue.rows), tt)
      (λ w. Framed-refl 4 stage4_states w.queue.rows)
      (λ w. Framed-refl 4 stage4_states w.queue.rows) (λ path. tt) tt waiting_world
