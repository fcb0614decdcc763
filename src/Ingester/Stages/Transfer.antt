-- ===== src/Ingester/Stages/Transfer.antt =====
-- ingester/stages/transfer.js: stage 3, which starts a transfer in Archivematica, approves it and
-- waits for its package. Archivematica's calls are parameters, as is `to_lower` of texts; the clean-up
-- of Archivematica's list after the last write, which nothing waits for, is left out.
use Prim.Native.String.{◌++◌}
use repo_backend_v.Base.{
  ℕ, String, Bool, Option, none, some, List, ◌==◌, string_eq, nat_eq, ◌&&◌, ◌||◌, not, find,
  if◌then◌else◌,
}
use repo_backend_v.Ingester.Queue.Store.{Row, ok}
use repo_backend_v.Ingester.Queue.Update.{Patch, no_change, to_status}
use repo_backend_v.Ingester.Queue.Insert.{insert_event}
use repo_backend_v.Ingester.Stages.Text.{text_or, basename_from_path, trailing_uuid}
use repo_backend_v.Ingester.Stages.World.{S, ◌>>=◌, pure, catch, on_queue}
use repo_backend_v.Ingester.Stages.Steps.{
  Remote, call, by_stage, write_row, write_progress, halt, Polled, finished, timed_out, aborted,
  Interrupt, poll,
}

pub data Refusal : Type 0 where
  start_transfer_failed : Refusal
  start_transfer_bad_status : Refusal
  start_transfer_missing_folder : Refusal
  missing_am_identifiers : Refusal
  stopped : Refusal
  approve_timeout : Refusal
  transfer_uuid_missing : Refusal
  transfer_status_timeout : Refusal
  am_failed : Refusal

pub data Outcome : Type 0 where
  transferred : (sip_uuid transfer_uuid : String) → Outcome
  refused : Refusal → Outcome

-- The body of start_transfer; "" is a missing text.
pub record StartBody : Type 0 where
  pub id : String
  pub transfer_id : String
  pub path : String
  pub directory : String

pub data Started : Type 0 where
  start_threw : (message : String) → Started
  start_status : ℕ → Option StartBody → Started

pub record Entry : Type 0 where
  pub directory : String
  pub uuid : String

-- A turn of the approve poll: the list, if the call gave one, and whether the approve that may
-- follow it answers 200.
pub record ApproveTurn : Type 0 where
  pub listed : Option (List Entry)
  pub approved : Bool

pub record StatusBody : Type 0 where
  pub status : String
  pub sip_uuid : String
  pub microservice : String

-- The calls of a run: the transfer's identifiers of the row, or of Archivematica; "" for none.
pub record Ids : Type 0 where
  pub uuid : String
  pub folder : String

abbrev pub known : String → String
known s = if s == "PENDING" then "" else s

-- What the status poll ends with.
pub data Ended : Type 0 where
  failed : Ended
  package_made : (sip_uuid : String) → Ended

module _ (to_lower : String → String) (row : Row) where
  abbrev pub stop : String → Refusal → (reason text : String) → S Outcome
  stop state r reason text = halt row state "transfer" reason text >>= λ _. pure (refused r)

  -- The marker of the start, whose failure is only logged.
  unfoldable pub mark_copy : S (Unit {0})
  mark_copy =
      catch
        (on_queue (
          insert_event row.id "UPLOAD_COMPLETE"
            (record (by_stage "transfer" "am_copy_started") { event_type = "info" })))
        λ _. pure tt

  unfoldable pub started_ids : String → StartBody → Ids
  started_ids collection_pid d =
      let base = basename_from_path d.path in
      record {
        uuid = text_or d.id (text_or d.transfer_id (to_lower (trailing_uuid base)));
        folder =
            text_or d.directory
              (text_or base (collection_pid ++ "_" ++ row.package_name ++ "_transfer"));
      }

  abbrev pub started : Ids → Patch
  started ids = record (to_status "TRANSFER_STARTED") {
    details = λ d. record d {
      transfer_folder = ids.folder;
      transfer_uuid = text_or ids.uuid d.transfer_uuid;
    };
  }

  abbrev pub resolved : String → Patch
  resolved uuid = record no_change { details = λ d. record d { transfer_uuid = uuid } }

  abbrev pub is_match : Ids → Entry → Bool
  is_match ids e = e.directory == ids.folder || not (ids.uuid == "") && e.uuid == ids.uuid

  unfoldable pub capture : Ids → Entry → S Ids
  capture ids e =
      if ids.uuid == "" && not (e.uuid == "")
      then (write_progress row (resolved e.uuid) >>= λ _. pure (record ids { uuid = e.uuid }))
      else pure ids

  abbrev pub approve_found : ApproveTurn → Ids → Option Entry → S (Ids × Option (Unit {0}))
  approve_found t ids none = pure (ids, none)
  approve_found t ids (some e) =
      capture ids e >>= λ ids'. pure (ids', if t.approved then some tt else none)

  -- One check of the approve poll.
  unfoldable pub check_approve : Ids → ApproveTurn → S (Ids × Option (Unit {0}))
  unfolding capture
  check_approve ids t = elim t.listed [
    | none ↦ pure (ids, none)
    | some entries ↦ approve_found t ids (find (is_match ids) entries)
  ]

  -- The microservice that the stage last wrote is the poll's variable.
  abbrev pub heartbeat : ℕ → String → String → Patch
  heartbeat now cached microservice = record no_change {
    last_poll_at = some (some now);
    details = λ d.
        if microservice == "" || microservice == cached
        then d
        else record d { micro_service = microservice };
  }

  -- One check of the status poll; none is a call that threw or answered no body.
  unfoldable pub check_status : String → Option StatusBody → S (String × Option Ended)
  check_status cached none w = pure (cached, none) w
  check_status cached (some d) w =
      if d.status == "FAILED" || d.status == "REJECTED"
      then (ok (cached, some failed), w)
      else if d.status == "COMPLETE" && not (d.sip_uuid == "")
      then (ok (cached, some (package_made d.sip_uuid)), w)
      else (write_progress row (heartbeat w.queue.now cached d.microservice) >>= λ _.
            pure (text_or d.microservice cached, none))
          w

  abbrev pub complete : String → Patch
  complete sip_uuid = record (to_status "TRANSFER_COMPLETE") { sip_uuid = some (some sip_uuid) }

  unfoldable pub finish : String → String × Polled Ended → S Outcome
  unfolding halt
  finish uuid (cached, aborted) = pure (refused stopped)
  finish uuid (cached, timed_out) = stop "TRANSFER_STATUS_TIMEOUT" transfer_status_timeout "" ""
  finish uuid (cached, finished failed) = stop "FAILED" am_failed "" ""
  finish uuid (cached, finished (package_made sip_uuid)) =
      write_row row (complete sip_uuid) "transfer" "complete" >>= λ _.
      pure (transferred sip_uuid uuid)

  -- The calls of Archivematica: start_transfer under the collection's pid, the turns of the two polls
  -- and how each poll ends that gets no result.
  module _ (own_name : ℕ → String) (start : String → Remote Started)
      (approvals : List (Remote ApproveTurn)) (approve_last : Interrupt)
      (statuses : String → List (Remote (Option StatusBody))) (status_last : Interrupt) where
    unfoldable pub await_package : Ids → S Outcome
    unfolding check_status finish poll halt
    await_package ids =
        if ids.uuid == ""
        then stop "INGEST_HALTED" transfer_uuid_missing "" ""
        else (poll check_status (statuses ids.uuid) status_last row.details.micro_service
            >>= finish ids.uuid)

    unfoldable pub after_approve : Ids × Polled (Unit {0}) → S Outcome
    unfolding await_package halt
    after_approve (ids, aborted) = pure (refused stopped)
    after_approve (ids, timed_out) = stop "APPROVE_TIMEOUT" approve_timeout "" ""
    after_approve (ids, finished done) =
        write_row row (to_status "TRANSFER_APPROVED") "transfer" "approved" >>= λ _.
        write_row row (to_status "TRANSFER_IN_PROGRESS") "transfer" "in_progress" >>= λ _.
        await_package ids

    unfoldable pub continue_from : Ids → S Outcome
    unfolding check_approve after_approve poll halt
    continue_from ids =
        if ids.folder == ""
        then stop "INGEST_HALTED" missing_am_identifiers "missing_am_identifiers" ""
        else if row.pipeline_state == "TRANSFER_IN_PROGRESS"
        then await_package ids
        else (poll check_approve approvals approve_last ids >>= after_approve)

    unfoldable pub after_start : String → Started → S Outcome
    unfolding started_ids continue_from halt
    after_start collection_pid (start_threw message) =
        stop "INGEST_HALTED" start_transfer_failed "start_transfer_failed" message
    after_start collection_pid (start_status status none) =
        stop "INGEST_HALTED" start_transfer_bad_status "start_transfer_bad_status" ""
    after_start collection_pid (start_status status (some d)) =
        let ids = started_ids collection_pid d in
        if not (status == 200)
        then stop "INGEST_HALTED" start_transfer_bad_status "start_transfer_bad_status" ""
        else if ids.folder == ""
        then stop "INGEST_HALTED" start_transfer_missing_folder "start_transfer_missing_folder" ""
        else (write_row row (started ids) "transfer" "started" >>= λ _. continue_from ids)

    abbrev pub collection_pid : String
    collection_pid =
        if row.details.collection_uuid == "" || row.details.collection_uuid == "PENDING"
        then own_name row.id
        else row.details.collection_uuid

    abbrev pub ids_of_row : Ids
    ids_of_row = record {
      uuid = known row.details.transfer_uuid;
      folder = known row.details.transfer_folder;
    }

    unfoldable pub run : S Outcome
    unfolding mark_copy after_start
    run =
        if row.pipeline_state == "UPLOAD_COMPLETE"
        then (mark_copy >>= λ _. call (start collection_pid) >>= after_start collection_pid)
        else continue_from ids_of_row
