-- ===== src/Ingester/Stages/TransferEnds.antt =====
-- Stage 3 as a whole: the rows that it writes, the state that each return stands for, and what a run
-- that resumes does not do again.
use repo_backend_v.Ingester.Stages.Says.{Told}
use repo_backend_v.Ingester.Stages.TransferSays.{Stage3Tells, run-Says}
use Prim.Native.String.{String}
use repo_backend_v.Base.{
  ℕ, true, not, ◌&&◌, ◌||◌, ◌≡◌, refl, Option, none, some, List, [], ◌∷◌, contains, ◌==◌, string_eq,
  nat_eq, find, if◌then◌else◌, if-both,
}
use repo_backend_v.Ingester.Queue.Store.{Row, Db, Result}
use repo_backend_v.Ingester.Queue.Update.{Opts, to_status}
use repo_backend_v.Ingester.Queue.Insert.{insert_event}
use repo_backend_v.Ingester.Stages.Text.{text_or}
use repo_backend_v.Ingester.Stages.Frame.{Framed, Framed-refl}
use repo_backend_v.Ingester.Stages.Rules.{FramedTo, Settled, Safe-catch, Safe-on_queue}
use repo_backend_v.Ingester.Stages.World.{World, S, ◌>>=◌, pure, on_queue}
use repo_backend_v.Ingester.Stages.Steps.{
  Remote, call, by_stage, write_row, write_progress, halt, Polled, finished, timed_out, aborted,
  Interrupt, poll,
}
use repo_backend_v.Ingester.Stages.Ends.{
  Own, Apart, AllApart, Own-pure, Own-bind, Own-call, Own-write, Own-progress, Own-poll, Good,
  Good-bind, Good-pure, Good-leave, Good-halt,
}
use repo_backend_v.Ingester.Stages.Transfer.{
  Refusal, start_transfer_failed, start_transfer_bad_status, start_transfer_missing_folder,
  missing_am_identifiers, stopped, approve_timeout, transfer_uuid_missing, transfer_status_timeout,
  am_failed, Outcome, transferred, refused, Started, start_threw, start_status, Entry, ApproveTurn,
  StatusBody, Ids, Ended, failed, package_made, mark_copy, started_ids, started, resolved, is_match,
  capture, approve_found, check_approve, heartbeat, check_status, complete, finish, await_package,
  after_approve, continue_from, after_start, collection_pid, ids_of_row, run,
}

abbrev pub stage3_states : List String
stage3_states =
    "TRANSFER_STARTED" ∷ "TRANSFER_APPROVED" ∷ "TRANSFER_IN_PROGRESS" ∷ "TRANSFER_COMPLETE"
    ∷ "APPROVE_TIMEOUT" ∷ "TRANSFER_STATUS_TIMEOUT" ∷ "FAILED" ∷ "INGEST_HALTED" ∷ []

abbrev pub stage3_exit : Outcome → Option String
stage3_exit (transferred sip_uuid transfer_uuid) = some "TRANSFER_COMPLETE"
stage3_exit (refused start_transfer_failed) = some "INGEST_HALTED"
stage3_exit (refused start_transfer_bad_status) = some "INGEST_HALTED"
stage3_exit (refused start_transfer_missing_folder) = some "INGEST_HALTED"
stage3_exit (refused missing_am_identifiers) = some "INGEST_HALTED"
stage3_exit (refused stopped) = none
stage3_exit (refused approve_timeout) = some "APPROVE_TIMEOUT"
stage3_exit (refused transfer_uuid_missing) = some "INGEST_HALTED"
stage3_exit (refused transfer_status_timeout) = some "TRANSFER_STATUS_TIMEOUT"
stage3_exit (refused am_failed) = some "FAILED"

module _ (to_lower : String → String) (row : Row) where
  abbrev Kept : {A : Type 0} → S A → Type 0
  Kept m = Own row stage3_states m

  abbrev Ends : S Outcome → Type 0
  Ends m = Good row stage3_states stage3_exit m

  stop-Ends :
      (state : String) (r : Refusal) (reason text : String)
      → contains stage3_states state ≡ true
      → stage3_exit (refused r) ≡ some state
      → Ends (halt row state "transfer" reason text >>= λ _. pure (refused r))
  stop-Ends state r reason text own e =
      Good-halt row stage3_states stage3_exit "transfer" state reason text (refused r) own e

  insert_event-rows :
      (id : ℕ) (s : String) (opts : Opts) (db : Db)
      → Framed row.id stage3_states db.rows (insert_event id s opts db).1.rows
  unfolding insert_event
  insert_event-rows id s opts db =
      if-both {A = Result (Unit {0}) × Db} (λ x. Framed row.id stage3_states db.rows x.1.rows)
        (id == 0) (λ _. Framed-refl row.id stage3_states db.rows)
        (λ _.
          if-both {A = Result (Unit {0}) × Db} (λ x. Framed row.id stage3_states db.rows x.1.rows)
            (s == "") (λ _. Framed-refl row.id stage3_states db.rows)
            (λ _. Framed-refl row.id stage3_states db.rows))

  mark_copy-Kept : Kept (mark_copy to_lower row)
  unfolding mark_copy
  mark_copy-Kept =
      let opts : Opts = record (by_stage "transfer" "am_copy_started") { event_type = "info" } in
      Safe-catch row.id stage3_states (on_queue (insert_event row.id "UPLOAD_COMPLETE" opts))
        (λ _. pure tt)
        (Safe-on_queue row.id stage3_states (insert_event row.id "UPLOAD_COMPLETE" opts)
          (insert_event-rows row.id "UPLOAD_COMPLETE" opts))
        (λ _. Own-pure row stage3_states tt)

  capture-Kept : (ids : Ids) (e : Entry) → Kept (capture to_lower row ids e)
  unfolding capture
  capture-Kept ids e =
      if-both {A = S Ids} Kept (ids.uuid == "" && not (e.uuid == ""))
        (λ _.
          Own-bind row stage3_states (write_progress row (resolved to_lower row e.uuid))
            (λ _. pure (record ids { uuid = e.uuid }))
            (Own-progress row stage3_states (resolved to_lower row e.uuid) refl)
            (λ _. Own-pure row stage3_states (record ids { uuid = e.uuid })))
        (λ _. Own-pure row stage3_states ids)

  found-Kept :
      (t : ApproveTurn) (ids : Ids) (e : Option Entry) → Kept (approve_found to_lower row t ids e)
  found-Kept t ids none = Own-pure row stage3_states {A = Ids × Option (Unit {0})} (ids, none)
  found-Kept t ids (some e) =
      Own-bind row stage3_states (capture to_lower row ids e)
        (λ ids'. pure (ids', if t.approved then some tt else none)) (capture-Kept ids e)
        (λ ids'.
          Own-pure row stage3_states {A = Ids × Option (Unit {0})}
            (ids', if t.approved then some tt else none))

  check_approve-Kept : (ids : Ids) (t : ApproveTurn) → Kept (check_approve to_lower row ids t)
  unfolding check_approve
  check_approve-Kept ids t =
      elim t.listed
        as (λ o. Kept (elim o as (λ _. S (Ids × Option (Unit {0}))) [
          | none ↦ pure (ids, none)
          | some entries ↦
              approve_found to_lower row t ids (find (is_match to_lower row ids) entries)
        ])) [
          | none ↦ Own-pure row stage3_states {A = Ids × Option (Unit {0})} (ids, none)
          | some entries ↦ found-Kept t ids (find (is_match to_lower row ids) entries)
        ]

  abbrev quiet : (c : String) (o : Option Ended) → Kept (pure {A = String × Option Ended} (c, o))
  quiet c o = Own-pure row stage3_states {A = String × Option Ended} (c, o)

  check_status-Kept :
      (cached : String) (a : Option StatusBody) → Kept (check_status to_lower row cached a)
  unfolding check_status
  check_status-Kept cached none w = quiet cached none w
  check_status-Kept cached (some d) w =
      if-both (FramedTo row.id stage3_states w) (d.status == "FAILED" || d.status == "REJECTED")
        (λ _. quiet cached (some failed) w)
        (λ _.
          if-both (FramedTo row.id stage3_states w)
            (d.status == "COMPLETE" && not (d.sip_uuid == ""))
            (λ _. quiet cached (some (package_made d.sip_uuid)) w)
            (λ _.
              Own-bind row stage3_states
                (write_progress row (heartbeat to_lower row w.queue.now cached d.microservice))
                (λ _. pure {A = String × Option Ended} (text_or d.microservice cached, none))
                (Own-progress row stage3_states
                  (heartbeat to_lower row w.queue.now cached d.microservice) refl)
                (λ _. quiet (text_or d.microservice cached) none) w))

  finish-Ends : (uuid : String) (x : String × Polled Ended) → Ends (finish to_lower row uuid x)
  unfolding finish
  finish-Ends uuid (c, aborted) = Good-pure row stage3_states stage3_exit (refused stopped) refl
  finish-Ends uuid (c, timed_out) =
      stop-Ends "TRANSFER_STATUS_TIMEOUT" transfer_status_timeout "" "" (unfold contains in refl)
        refl
  finish-Ends uuid (c, finished failed) =
      stop-Ends "FAILED" am_failed "" "" (unfold contains in refl) refl
  finish-Ends uuid (c, finished (package_made sip_uuid)) =
      Good-leave row stage3_states stage3_exit (complete to_lower row sip_uuid) "transfer"
        "complete" "TRANSFER_COMPLETE" (transferred sip_uuid uuid) refl (unfold contains in refl)
        refl

  module _ (own_name : ℕ → String) (start : String → Remote Started)
      (approvals : List (Remote ApproveTurn)) (approve_last : Interrupt)
      (statuses : String → List (Remote (Option StatusBody))) (status_last : Interrupt)
      (starting : (pid : String) → Apart row stage3_states (start pid))
      (approving : AllApart row stage3_states approvals)
      (waiting : (uuid : String) → AllApart row stage3_states (statuses uuid)) where
    await_package-Ends :
        (ids : Ids)
        → Ends (
            await_package to_lower row own_name start approvals approve_last statuses status_last
              ids)
    unfolding await_package
    await_package-Ends ids =
        if-both {A = S Outcome} Ends (ids.uuid == "")
          (λ _.
            stop-Ends "INGEST_HALTED" transfer_uuid_missing "" "" (unfold contains in refl) refl)
          (λ _.
            Good-bind row stage3_states stage3_exit
              (poll (check_status to_lower row) (statuses ids.uuid) status_last
                row.details.micro_service)
              (finish to_lower row ids.uuid)
              (Own-poll row stage3_states (check_status to_lower row) check_status-Kept
                (statuses ids.uuid) status_last (waiting ids.uuid) row.details.micro_service)
              (finish-Ends ids.uuid))

    after_approve-Ends :
        (x : Ids × Polled (Unit {0}))
        → Ends (
            after_approve to_lower row own_name start approvals approve_last statuses status_last x)
    unfolding after_approve
    after_approve-Ends (ids, aborted) =
        Good-pure row stage3_states stage3_exit (refused stopped) refl
    after_approve-Ends (ids, timed_out) =
        stop-Ends "APPROVE_TIMEOUT" approve_timeout "" "" (unfold contains in refl) refl
    after_approve-Ends (ids, finished done) =
        let last : S Outcome =
          await_package to_lower row own_name start approvals approve_last statuses status_last
            ids in
        Good-bind row stage3_states stage3_exit
          (write_row row (to_status "TRANSFER_APPROVED") "transfer" "approved")
          (λ _.
            write_row row (to_status "TRANSFER_IN_PROGRESS") "transfer" "in_progress" >>= λ _. last)
          (Own-write row stage3_states (to_status "TRANSFER_APPROVED") "transfer" "approved"
            (unfold contains in refl))
          (λ _.
            Good-bind row stage3_states stage3_exit
              (write_row row (to_status "TRANSFER_IN_PROGRESS") "transfer" "in_progress")
              (λ _. last)
              (Own-write row stage3_states (to_status "TRANSFER_IN_PROGRESS") "transfer"
                "in_progress" (unfold contains in refl))
              (λ _. await_package-Ends ids))

    continue_from-Ends :
        (ids : Ids)
        → Ends (
            continue_from to_lower row own_name start approvals approve_last statuses status_last
              ids)
    unfolding continue_from
    continue_from-Ends ids =
        if-both {A = S Outcome} Ends (ids.folder == "")
          (λ _.
            stop-Ends "INGEST_HALTED" missing_am_identifiers "missing_am_identifiers" ""
              (unfold contains in refl) refl)
          (λ _.
            if-both {A = S Outcome} Ends (row.pipeline_state == "TRANSFER_IN_PROGRESS")
              (λ _. await_package-Ends ids)
              (λ _.
                Good-bind row stage3_states stage3_exit
                  (poll (check_approve to_lower row) approvals approve_last ids)
                  (after_approve to_lower row own_name start approvals approve_last statuses
                    status_last)
                  (Own-poll row stage3_states (check_approve to_lower row) check_approve-Kept
                    approvals approve_last approving ids)
                  after_approve-Ends))

    after_start-Ends :
        (pid : String) (a : Started)
        → Ends (
            after_start to_lower row own_name start approvals approve_last statuses status_last pid
              a)
    unfolding after_start
    after_start-Ends pid (start_threw message) =
        stop-Ends "INGEST_HALTED" start_transfer_failed "start_transfer_failed" message
          (unfold contains in refl) refl
    after_start-Ends pid (start_status status none) =
        stop-Ends "INGEST_HALTED" start_transfer_bad_status "start_transfer_bad_status" ""
          (unfold contains in refl) refl
    after_start-Ends pid (start_status status (some d)) =
        let ids : Ids = started_ids to_lower row pid d in
        let next : S Outcome =
          continue_from to_lower row own_name start approvals approve_last statuses status_last
            ids in
        if-both {A = S Outcome} Ends (not (status == 200))
          (λ _.
            stop-Ends "INGEST_HALTED" start_transfer_bad_status "start_transfer_bad_status" ""
              (unfold contains in refl) refl)
          (λ _.
            if-both {A = S Outcome} Ends (ids.folder == "")
              (λ _.
                stop-Ends "INGEST_HALTED" start_transfer_missing_folder
                  "start_transfer_missing_folder" "" (unfold contains in refl) refl)
              (λ _.
                Good-bind row stage3_states stage3_exit
                  (write_row row (started to_lower row ids) "transfer" "started") (λ _. next)
                  (Own-write row stage3_states (started to_lower row ids) "transfer" "started"
                    (unfold contains in refl))
                  (λ _. continue_from-Ends ids)))

    run-Ends : Ends (run to_lower row own_name start approvals approve_last statuses status_last)
    unfolding run
    run-Ends =
        let pid : String =
          collection_pid to_lower row own_name start approvals approve_last statuses status_last in
        let after : Started → S Outcome =
          after_start to_lower row own_name start approvals approve_last statuses status_last pid in
        if-both {A = S Outcome} Ends (row.pipeline_state == "UPLOAD_COMPLETE")
          (λ _.
            Good-bind row stage3_states stage3_exit (mark_copy to_lower row)
              (λ _. call (start pid) >>= after) mark_copy-Kept
              (λ _.
                Good-bind row stage3_states stage3_exit (call (start pid)) after
                  (Own-call row stage3_states (start pid) (starting pid)) (after_start-Ends pid)))
          (λ _.
            continue_from-Ends
              (ids_of_row to_lower row own_name start approvals approve_last statuses status_last))

    -- Where whatever runs during the calls keeps to it too, a run of stage 3 changes no row but its
    -- own, moves that only to states of the stage, and leaves it, where it returns, in
    -- TRANSFER_COMPLETE only for a package that a status reported as made, in FAILED only for a transfer
    -- that one reported as failed or rejected, in APPROVE_TIMEOUT or TRANSFER_STATUS_TIMEOUT only at the
    -- deadline of that poll, and else in INGEST_HALTED; only an abort leaves it anywhere in the stage. The
    -- status is asked for only once the transfer, listed under its folder or its uuid, is approved, or
    -- where the row says that it was.
    pub transfer-Ends :
        (w : World)
        → let x = run to_lower row own_name start approvals approve_last statuses status_last w in
          FramedTo row.id stage3_states w x
          × Settled row.id stage3_exit x
          × Told
              (Stage3Tells to_lower row own_name start approvals approve_last statuses status_last)
              x
    transfer-Ends w =
        let ends = run-Ends w in
        (
          ends.0,
          ends.1,
          run-Says to_lower row own_name start approvals approve_last statuses status_last w,
        )
