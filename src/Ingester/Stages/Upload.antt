-- ===== src/Ingester/Stages/Upload.antt =====
-- ingester/stages/upload.js: stage 2, the upload of a package to Archivematica's SFTP source through
-- the curation service, whose calls are parameters. A status whose body is a bare number
-- is left out.
use repo_backend_v.Base.{
  ℕ, zero, String, Bool, true, false, Option, none, some, List, [], ◌∷◌, ◌==◌, string_eq, nat_eq,
  ◌&&◌, ◌||◌, not, ltb, leb, if◌then◌else◌,
}
use repo_backend_v.Ingester.Queue.Store.{Row}
use repo_backend_v.Ingester.Queue.Update.{Patch, no_change, to_status}
use repo_backend_v.Ingester.Stages.Text.{text_or}
use repo_backend_v.Ingester.Stages.World.{S, ◌>>=◌, pure}
use repo_backend_v.Ingester.Stages.Steps.{
  Remote, call, write_row, write_progress, halt, Polled, finished, timed_out, aborted, Interrupt,
  poll,
}

pub data Refusal : Type 0 where
  package_file_count_failed : Refusal
  qa_move_failed : Refusal
  stopped : Refusal
  upload_timeout : Refusal
  sftp_upload_failed : Refusal

-- The count of files that arrived; `all_there` is the infinite one of a reply that says so.
pub data Arrived : Type 0 where
  all_there : Arrived
  arrived : ℕ → Arrived

pub data Outcome : Type 0 where
  succeeded : Arrived → Outcome
  refused : Refusal → Outcome

-- A body of package-file-count, by the field that `pick_count` takes first.
pub data CountBody : Type 0 where
  no_body : CountBody
  number : ℕ → CountBody
  counts : (package_file_count file_count total count : Option ℕ) → CountBody

pub data Counted : Type 0 where
  count_threw : (message : String) → Counted
  count_status : ℕ → CountBody → Counted

-- The body of an upload status; "" is a missing text.
pub record StatusBody : Type 0 where
  pub message : String
  pub error : String
  pub remote_file_count : Option ℕ
  pub is_complete : Bool
  pub uploaded : Option ℕ
  pub upload_count : Option ℕ
  pub count : Option ℕ
  pub remote_package_size_bytes : Option ℕ
  pub local_package_size_bytes : Option ℕ

pub data Status : Type 0 where
  status_threw : Status
  replied : ℕ → Option StatusBody → Status

-- The first that is there.
abbrev pub first_of : List (Option ℕ) → Option ℕ
first_of [] = none
first_of (none ∷ rest) = first_of rest
first_of (some n ∷ rest) = some n

unfoldable pub pick_count : CountBody → Option ℕ
pick_count no_body = none
pick_count (number n) = some n
pick_count (counts p f t c) = first_of (p ∷ f ∷ t ∷ c ∷ [])

abbrev pub as_arrived : Option ℕ → Option Arrived
as_arrived none = none
as_arrived (some n) = some (arrived n)

unfoldable pub pick_uploaded : StatusBody → Option Arrived
pick_uploaded d =
    if d.message == "upload_complete" then some all_there else elim d.remote_file_count [
      | some n ↦ some (arrived n)
      | none ↦
          if d.is_complete
          then some all_there
          else as_arrived (first_of (d.uploaded ∷ d.upload_count ∷ d.count ∷ []))
    ]

-- The bytes that arrived, and the total, 0 where it is unknown.
abbrev pub with_total : Option ℕ → ℕ → Option (ℕ × ℕ)
with_total none uploaded = some (uploaded, 0)
with_total (some total) uploaded = some (uploaded, total)

unfoldable pub pick_bytes : StatusBody → Option (ℕ × ℕ)
pick_bytes d = elim d.remote_package_size_bytes [
  | none ↦ none
  | some uploaded ↦ with_total d.local_package_size_bytes uploaded
]

-- The variables of the poll: `last_bytes` is none before the first report.
pub record Seen : Type 0 where
  pub last_bytes : Option ℕ
  pub total_bytes : ℕ

-- What a poll of the upload ends with.
pub data Result' : Type 0 where
  upload_failed : (error : String) → Result'
  upload_done : Arrived → Result'

unfoldable pub reaches : ℕ → Option Arrived → Bool
reaches expected none = false
reaches expected (some all_there) = true
reaches expected (some (arrived n)) = leb expected n

abbrev pub is_last : ℕ → Option ℕ → Bool
is_last n none = false
is_last n (some m) = n == m

module _ (http_text : ℕ → String) (row : Row) where
  -- The row's namespace on the SFTP source.
  unfoldable pub qa_uuid : (ℕ → String) → String
  qa_uuid own_name =
      if row.details.collection_uuid == "" || row.details.collection_uuid == "PENDING"
      then own_name row.id
      else row.details.collection_uuid

  abbrev pub progress : Seen → Patch
  progress s = record no_change {
    details = λ d. record d {
      bytes_uploaded = elim s.last_bytes [ none ↦ d.bytes_uploaded | some n ↦ n ];
      total_bytes = s.total_bytes;
    };
  }

  -- The bytes of a report, written where they changed.
  unfoldable pub track : Seen → Option (ℕ × ℕ) → S Seen
  track s none = pure s
  track s (some (uploaded, total)) =
      let s' : Seen = record {
        last_bytes = some uploaded;
        total_bytes = if ltb 0 total then total else s.total_bytes;
      } in
      if not (is_last uploaded s.last_bytes) || ltb 0 total && not (total == s.total_bytes)
      then (write_progress row (progress s') >>= λ _. pure s')
      else pure s

  abbrev pub verdict : ℕ → Option Arrived → Option Result'
  verdict expected none = none
  verdict expected (some a) = if reaches expected (some a) then some (upload_done a) else none

  -- One check of the poll.
  unfoldable pub check : ℕ → Seen → Status → S (Seen × Option Result')
  unfolding track pick_bytes pick_uploaded reaches
  check expected s status_threw = pure (s, none)
  check expected s (replied status none) = pure (s, none)
  check expected s (replied status (some d)) =
      if not (status == 200)
      then pure (s, none)
      else if d.message == "upload_failed"
      then pure (s, some (upload_failed d.error))
      else (track s (pick_bytes d) >>= λ s'. pure (s', verdict expected (pick_uploaded d)))

  abbrev pub stop : String → Refusal → (reason text : String) → S Outcome
  stop state r reason text = halt row state "upload" reason text >>= λ _. pure (refused r)

  unfoldable pub finish : Seen × Polled Result' → S Outcome
  unfolding halt
  finish (s, aborted) = pure (refused stopped)
  finish (s, timed_out) = stop "UPLOAD_TIMEOUT" upload_timeout "poll_exhausted" ""
  finish (s, finished (upload_failed error)) =
      stop "INGEST_HALTED" sftp_upload_failed "sftp_upload_failed"
        (text_or error "sftp upload failed")
  finish (s, finished (upload_done a)) =
      write_row row (to_status "UPLOAD_COMPLETE") "upload" "complete" >>= λ _. pure (succeeded a)

  -- `move` is the two requests that start the upload: the error, if one throws.
  module _ (count_files : Remote Counted) (move : Remote (Option String))
      (polls : List (Remote Status)) (last : Interrupt) where
    unfoldable pub moved : ℕ → Option String → S Outcome
    unfolding poll check finish halt
    moved expected (some message) = stop "INGEST_HALTED" qa_move_failed "qa_move_failed" message
    moved expected none =
        poll (check expected) polls last (record { last_bytes = none; total_bytes = 0 }) >>= finish

    abbrev pub uploading : ℕ → Patch
    uploading expected = record (to_status "UPLOADING") {
      details = λ d. record d { file_count = expected };
    }

    abbrev pub usable : Option ℕ → Option ℕ
    usable none = none
    usable (some zero) = none
    usable (some n) = some n

    -- The count of files, or the text of the error.
    unfoldable pub expected_count : Counted → Option ℕ × String
    unfolding pick_count
    expected_count (count_threw message) = (none, message)
    expected_count (count_status status no_body) = (none, http_text status)
    expected_count (count_status status body) =
        if not (status == 200)
        then (none, http_text status)
        else (usable (pick_count body), "QA returned no usable file count")

    unfoldable pub with_count : Option ℕ × String → S Outcome
    unfolding moved halt
    with_count (none, message) =
        stop "INGEST_HALTED" package_file_count_failed "package_file_count_failed" message
    with_count (some expected, message) =
        write_row row (uploading expected) "upload" "started" >>= λ _. call move >>= moved expected

    unfoldable pub run : S Outcome
    unfolding with_count expected_count
    run = call count_files >>= λ c. with_count (expected_count c)
