-- ===== src/Ingester/Stages/AipStore.antt =====
-- ingester/stages/aip_store.js: stage 6, the preservation copy of a package. The copy is a call of the
-- curation service that may run for hours: it is a parameter that gives the answer and the world at
-- its end. The shown columns of tbl_aip_store (bucket, bytes, copied_at, source) are left out.
use repo_backend_v.Base.{
  ℕ, ◌+◌, ◌-◌, ◌*◌, ◌^◌, String, Bool, true, false, not, ◌&&◌, ◌||◌, Option, none, some, [], ◌∷◌,
  ltb, leb, if◌then◌else◌, ◌==◌, string_eq, nat_eq, get_or, min,
}
use repo_backend_v.Ingester.Queue.Store.{Row, object, Result, ok}
use repo_backend_v.Ingester.Queue.Update.{Patch, to_status, Opts, update_queue}
use repo_backend_v.Ingester.Queue.Select.{by_id}
use repo_backend_v.Ingester.Stages.Text.{slice, mentions, text_or}
use repo_backend_v.Ingester.Stages.World.{
  World, S, ◌>>=◌, pure, catch, on_queue, resolve_repo_pid, get_copy, upsert_copy,
}
use repo_backend_v.Repository.AipStore.{
  Aip, waits, is_terminal_success, is_orphan, ingest_copied_ok_code, ingest_copy_failed_code,
  am_not_found_code,
}

-- `app_config().aip_store`, with `client.is_configured()`; 0 stands for a limit that is not positive.
pub record Config : Type 0 where
  pub enabled : Bool
  pub client_configured : Bool
  pub max_attempts : ℕ
  pub not_found_max_attempts : ℕ
  pub retry_base_backoff_ms : ℕ
  pub retry_max_backoff_ms : ℕ

pub data Source : Type 0 where
  am_storage : Source
  duracloud : Source

-- The body of a reply: "" is an `error` or `key` that is missing.
pub record Reply : Type 0 where
  pub status : ℕ
  pub is_ok : Bool
  pub error : String
  pub key : String
  pub from_duracloud : Bool

-- `aborted`: the signal is raised when the call ends, however it ends.
pub data Answer : Type 0 where
  aborted : Answer
  threw : (error_text : String) → Answer
  replied : Reply → Answer

-- The `skipped` of a return; only an orphan and a backoff come with `ok: false`.
pub data Skip : Type 0 where
  aip_store_disabled : Skip
  client_not_configured : Skip
  no_sip_uuid : Skip
  no_repo_pid : Skip
  already_copied : Skip
  orphan : Skip
  backoff : Skip

-- What `run` returns; `stopped` is the return on an abort.
pub data Outcome : Type 0 where
  skipped : Skip → Outcome
  stopped : Outcome
  failed : (attempts : ℕ) (final_state : String) → Outcome
  complete : (aip_store_id : ℕ) → Outcome

abbrev pub by_worker : String → Opts
by_worker step = record {
  actor = "worker";
  event_type = "state_change";
  payload = some (object (("stage", "aip_store") ∷ ("step", step) ∷ []));
}

abbrev pub close : String → Patch
close state = record (to_status state) { is_complete = some true }

abbrev pub close_with : String → String → Patch
close_with state text = record (close state) { error = some (some text) }

-- An update of the stage's row, and then the value it returns.
abbrev pub leave : Row → Patch → String → Outcome → S Outcome
leave row data' step out =
    on_queue (update_queue (by_id row.id) data' (by_worker step)) >>= λ _. pure out

abbrev pub positive_or : ℕ → ℕ → ℕ
positive_or n fallback = if ltb 0 n then n else fallback

unfoldable pub is_am_deleted_error : String → Bool
unfolding mentions
is_am_deleted_error text = mentions "am status is deleted" text

unfoldable pub is_am_not_found_error : String → Bool
unfolding mentions
is_am_not_found_error text =
    mentions "not found in am storage service" text || mentions "not found in duracloud" text

unfoldable pub budget : Config → Bool → ℕ
budget cfg not_found =
    if not_found then positive_or cfg.not_found_max_attempts 8 else positive_or cfg.max_attempts 5

-- The wait after the attempt of this number.
unfoldable pub backoff_ms : Config → ℕ → ℕ
backoff_ms cfg attempts =
    min (positive_or cfg.retry_base_backoff_ms 60000 * 2 ^ (attempts - 1))
      (positive_or cfg.retry_max_backoff_ms 1800000)

-- The columns that a failure writes.
abbrev pub failure_patch :
    Row → (code attempts : ℕ) → Option ℕ → (text message : String) → Aip → Aip
failure_patch row code attempts next_attempt_at text message r = record r {
  aip_uuid = row.sip_uuid;
  is_migrated = code;
  attempts = attempts;
  next_attempt_at = next_attempt_at;
  error = some text;
  message = some message;
}

-- The write whose failure is only logged.
abbrev pub upsert_logged : String → (Aip → Aip) → S (Unit {0})
upsert_logged pid patch = catch (upsert_copy pid patch >>= λ _. pure tt) λ _. pure tt

abbrev pub prior_attempts : Option Aip → ℕ
prior_attempts none = 0
prior_attempts (some r) = r.attempts

-- The read for the counter; a failure is only logged.
abbrev pub read_logged : String → S (Option Aip)
read_logged pid = catch (get_copy pid) λ _. pure none

unfoldable pub failure_message : (use_duracloud retrying not_found : Bool) → String
failure_message use_duracloud retrying not_found =
    if use_duracloud
    then (if retrying then "RETRY_FROM_DURACLOUD" else "DURACLOUD_COPY_FAILED")
    else (if not_found then "AM_NOT_FOUND_RETRY" else "COPY_FAILED")

abbrev pub orphan_text : String
orphan_text =
    "AIP marked as orphan (AM 404 on prior attempt). Use the AIPs page → status=orphan to investigate."

module _ (cfg : Config) (row : Row) (pid text : String) (use_duracloud : Bool) where
  -- A failure that no retry resolves.
  unfoldable pub dead_letter : ℕ → String → String → S Outcome
  dead_letter attempts message step =
      upsert_logged pid (failure_patch row am_not_found_code attempts none text message) >>= λ _.
      leave row (close_with "AIP_STORE_FAILED" text) step (failed attempts "AIP_STORE_FAILED")

  -- A failure that is retried while attempts remain; `now` is the clock when it is recorded.
  unfoldable pub retry_or_fail : Bool → ℕ → S Outcome
  unfolding backoff_ms failure_message budget
  retry_or_fail not_found attempts w =
      let retrying = ltb attempts (budget cfg not_found) in
      let next_attempt_at =
        if retrying then some (w.queue.now + backoff_ms cfg attempts) else none in
      let final_state = if retrying then "AIP_STORE_PENDING" else "AIP_STORE_FAILED" in
      let message = failure_message use_duracloud retrying not_found in
      (upsert_logged pid
            (failure_patch row ingest_copy_failed_code attempts next_attempt_at text message)
          >>= λ _.
              leave row
                (record (to_status final_state) {
                  is_complete = some false;
                  error = some (some text);
                })
                (if not_found then "am_not_found_retry" else "failed")
                (failed attempts final_state))
        w

  unfoldable pub decide_failure : Option Aip → S Outcome
  unfolding dead_letter retry_or_fail budget is_am_deleted_error is_am_not_found_error
  decide_failure existing =
      let attempts = prior_attempts existing + 1 in
      let not_found = is_am_not_found_error text in
      if is_am_deleted_error text
      then dead_letter attempts "AM_DELETED" "am_deleted"
      else if not_found && leb (budget cfg not_found) attempts
      then dead_letter attempts "ORPHAN_AM_NOT_FOUND" "orphan"
      else retry_or_fail not_found attempts

-- The text that is stored: at most 1000 characters, the width of the column.
abbrev pub recorded_text : String → String
recorded_text error_text = slice 1000 (text_or error_text "unknown error")

-- `_record_failure`
unfoldable pub record_failure : Config → Row → String → String → Bool → S Outcome
unfolding decide_failure
record_failure cfg row pid error_text use_duracloud =
    read_logged pid >>= decide_failure cfg row pid (recorded_text error_text) use_duracloud

abbrev pub is_2xx : ℕ → Bool
is_2xx status = leb 200 status && ltb status 300

abbrev pub success_patch : Row → Bool → Reply → (String → String) → Aip → Aip
success_patch row use_duracloud reply base_name r = record r {
  aip_uuid = row.sip_uuid;
  aip = if reply.key == "" then "" else base_name reply.key;
  wasabi_key = if reply.key == "" then none else some reply.key;
  is_migrated = ingest_copied_ok_code;
  attempts = 0;
  next_attempt_at = none;
  error = none;
  message = if use_duracloud || reply.from_duracloud then some "COPIED_FROM_DURACLOUD" else none;
}

abbrev pub is_flagged : Option Aip → Bool
is_flagged none = false
is_flagged (some r) = get_or r.message "" == "RETRY_FROM_DURACLOUD"

abbrev pub is_unset : Option String → Bool
is_unset none = true
is_unset (some s) = s == "" || s == "PENDING"

-- `http_text` words a status without an error text; `base_name` is the part of a key after its last
-- slash.
module _ (cfg : Config) (http_text : Bool → ℕ → String) (base_name : String → String)
    (copy : Source → String → String → World → Answer × World) (row : Row) where
  unfoldable pub conclude : String → Bool → Answer → S Outcome
  unfolding record_failure
  conclude pid use_duracloud aborted = pure stopped
  conclude pid use_duracloud (threw error_text) =
      record_failure cfg row pid error_text use_duracloud
  conclude pid use_duracloud (replied r) =
      if not (is_2xx r.status) || not r.is_ok
      then record_failure cfg row pid (text_or r.error (http_text use_duracloud r.status))
          use_duracloud
      else (upsert_copy pid (success_patch row use_duracloud r base_name) >>= λ u.
          leave row (close "AIP_STORE_COMPLETE") "complete" (complete u.id))

  abbrev pub started : Patch
  started = record (to_status "AIP_STORE_IN_PROGRESS") {
    details = λ d. record d { bytes_uploaded = 0; total_bytes = 0; micro_service = "PENDING" };
  }

  unfoldable pub mark_started : S (Unit {0})
  mark_started =
      if row.pipeline_state == "AIP_STORE_IN_PROGRESS"
      then pure tt
      else (on_queue (update_queue (by_id row.id) started (by_worker "started")) >>= λ _. pure tt)

  abbrev pub answered : String → Bool → Answer × World → Result Outcome × World
  answered pid use_duracloud (a, w) = conclude pid use_duracloud a w

  abbrev pub source_of : Bool → Source
  source_of use_duracloud = if use_duracloud then duracloud else am_storage

  unfoldable pub make_copy : String → Option Aip → S Outcome
  unfolding mark_started conclude
  make_copy pid existing = mark_started >>= λ _. λ w.
      answered pid (is_flagged existing)
        (copy (source_of (is_flagged existing)) (get_or row.sip_uuid "") pid w)

  -- The guards on the copy that is on record.
  unfoldable pub with_existing : String → Option Aip → S Outcome
  unfolding make_copy
  with_existing pid none w = make_copy pid none w
  with_existing pid (some r) w =
      if is_terminal_success r
      then leave row (close "AIP_STORE_COMPLETE") "already_copied" (skipped already_copied) w
      else if is_orphan r
      then leave row (close_with "AIP_STORE_FAILED" orphan_text) "skipped_orphan" (skipped orphan) w
      else if waits w.queue.now r.next_attempt_at
      then (ok (skipped backoff), w)
      else make_copy pid (some r) w

  abbrev pub with_pid : Option String → S Outcome
  with_pid none = leave row (close "COMPLETE") "skipped_no_repo_pid" (skipped no_repo_pid)
  with_pid (some pid) =
      if pid == ""
      then leave row (close "COMPLETE") "skipped_no_repo_pid" (skipped no_repo_pid)
      else (get_copy pid >>= with_existing pid)

  unfoldable pub run : S Outcome
  unfolding with_existing
  run =
      if not cfg.enabled
      then leave row (close "COMPLETE") "skipped_disabled" (skipped aip_store_disabled)
      else if not cfg.client_configured
      then leave row (close "COMPLETE") "skipped_client_not_configured"
          (skipped client_not_configured)
      else if is_unset row.sip_uuid
      then leave row (close "COMPLETE") "skipped_no_sip_uuid" (skipped no_sip_uuid)
      else (resolve_repo_pid (get_or row.sip_uuid "") >>= with_pid)
