-- ===== src/Ingester/Stages/IngestEnds.antt =====
-- Stage 4 as a whole: the rows that it writes and the state that each return stands for.
use repo_backend_v.Ingester.Stages.Says.{Told}
use repo_backend_v.Ingester.Stages.IngestSays.{Stage4Tells, run-Says}
use repo_backend_v.Base.{
  ℕ, String, Bool, true, not, ◌&&◌, ◌||◌, ◌≡◌, refl, Option, none, some, List, [], ◌∷◌, take,
  contains, ◌==◌, string_eq, nat_eq, if-both,
}
use repo_backend_v.Ingester.Queue.Store.{Row, Error}
use repo_backend_v.Ingester.Queue.Update.{no_change, to_status}
use repo_backend_v.Ingester.Stages.Text.{slice, text_or, join}
use repo_backend_v.Ingester.Stages.Rules.{FramedTo, Settled}
use repo_backend_v.Ingester.Stages.World.{World, S, ◌>>=◌, pure}
use repo_backend_v.Ingester.Stages.Steps.{
  Remote, call, write_row, write_progress, halted, halt, Polled, finished, timed_out, aborted,
  Interrupt, poll,
}
use repo_backend_v.Ingester.Stages.Ends.{
  Own, Apart, AllApart, Own-pure, Own-bind, Own-call, Own-write, Own-progress, Own-poll, Good,
  Good-bind, Good-pure, Good-leave, Good-halt,
}
use repo_backend_v.Ingester.Stages.ProcessMetadata.{Fetched}
use repo_backend_v.Ingester.Stages.DipCopy.{
  Got, threw, got, Link, DipTurn, Wait, DipEnd, unexpected, given_up, copied_dip, check_dip,
  halt_patch, done_patch, first_wait,
}
use repo_backend_v.Ingester.Stages.DipOwn.{check_dip-Own}
use repo_backend_v.Ingester.Stages.Ingest.{
  Refusal, missing_sip_uuid, stopped, ingest_status_timeout, am_failed, as_metadata_drift,
  get_dip_path_failed, no_dip_path, duracloud_timeout, dip_copy_not_configured, unexpected_error,
  copy_halted, Outcome, ingested, refused, AmStatus, AmEnd, failed, made, Config, Probed, heartbeat,
  check_ingest, check_probe, check_for_drift, sip, known_path, after_dip, after_probe, probe_mets,
  waiting_at, with_link, enter_wait, duracloud_wait, wait_and_copy_dip, access_copy, after_drift,
  drift_check, after_ingest, await_ingest, run,
}

abbrev pub stage4_states : List String
stage4_states =
    "INGEST_IN_PROGRESS" ∷ "INGEST_COMPLETE" ∷ "WAITING_FOR_DURACLOUD" ∷ "METADATA_PROCESSED"
    ∷ "INGEST_STATUS_TIMEOUT" ∷ "FAILED" ∷ "AS_METADATA_DRIFT" ∷ "DURACLOUD_TIMEOUT"
    ∷ "INGEST_HALTED" ∷ []

abbrev pub stage4_exit : Outcome → Option String
stage4_exit (ingested sip_uuid dip_path) = some "METADATA_PROCESSED"
stage4_exit (refused missing_sip_uuid) = some "INGEST_HALTED"
stage4_exit (refused stopped) = none
stage4_exit (refused ingest_status_timeout) = some "INGEST_STATUS_TIMEOUT"
stage4_exit (refused am_failed) = some "FAILED"
stage4_exit (refused as_metadata_drift) = some "AS_METADATA_DRIFT"
stage4_exit (refused get_dip_path_failed) = some "INGEST_HALTED"
stage4_exit (refused no_dip_path) = some "INGEST_HALTED"
stage4_exit (refused duracloud_timeout) = some "DURACLOUD_TIMEOUT"
stage4_exit (refused dip_copy_not_configured) = some "DURACLOUD_TIMEOUT"
stage4_exit (refused unexpected_error) = some "DURACLOUD_TIMEOUT"
stage4_exit (refused (copy_halted reason)) = some "DURACLOUD_TIMEOUT"

module _ {A : Type 0} (say : String → ℕ → String) (error_text : Error → String)
    (is_retryable : Error → Bool) (validate_record : A → List String) (cfg : Config)
    (row : Row) where
  abbrev Kept : {B : Type 0} → S B → Type 0
  Kept m = Own row stage4_states m

  abbrev Ends : S Outcome → Type 0
  Ends m = Good row stage4_states stage4_exit m

  stop-Ends :
      (state : String) (r : Refusal) (reason text : String)
      → contains stage4_states state ≡ true
      → stage4_exit (refused r) ≡ some state
      → Ends (halt row state "ingest" reason text >>= λ _. pure (refused r))
  stop-Ends state r reason text own e =
      Good-halt row stage4_states stage4_exit "ingest" state reason text (refused r) own e

  check_ingest-Kept :
      (c : String) (a : Option AmStatus)
      → Kept (check_ingest say error_text is_retryable validate_record cfg row c a)
  unfolding check_ingest
  check_ingest-Kept c none w = Own-pure row stage4_states {A = String × Option AmEnd} (c, none) w
  check_ingest-Kept c (some d) w =
      if-both (FramedTo row.id stage4_states w) (d.status == "FAILED" || d.status == "REJECTED")
        (λ _. Own-pure row stage4_states {A = String × Option AmEnd} (c, some failed) w)
        (λ _.
          if-both (FramedTo row.id stage4_states w) (d.status == "COMPLETE")
            (λ _. Own-pure row stage4_states {A = String × Option AmEnd} (c, some made) w)
            (λ _.
              Own-bind row stage4_states
                (write_progress row (
                  heartbeat say error_text is_retryable validate_record cfg row w.queue.now c
                    d.microservice))
                (λ _. pure {A = String × Option AmEnd} (text_or d.microservice c, none))
                (Own-progress row stage4_states
                  (heartbeat say error_text is_retryable validate_record cfg row w.queue.now c
                    d.microservice)
                  refl)
                (λ _.
                  Own-pure row stage4_states {A = String × Option AmEnd}
                    (text_or d.microservice c, none))
                w))

  abbrev Nothing : Type 0
  Nothing = Unit {0}

  check_probe-Kept :
      (u : Nothing) (a : Option Probed)
      → Kept (check_probe say error_text is_retryable validate_record cfg row u a)
  unfolding check_probe
  check_probe-Kept u none w = Own-pure row stage4_states {A = Nothing × Option Nothing} (tt, none) w
  check_probe-Kept u (some d) w =
      if-both (FramedTo row.id stage4_states w) (d.status == 200 && not (d.text == ""))
        (λ _. Own-pure row stage4_states {A = Nothing × Option Nothing} (tt, some tt) w)
        (λ _.
          Own-bind row stage4_states
            (write_progress row (record no_change { last_poll_at = some (some w.queue.now) }))
            (λ _. pure {A = Nothing × Option Nothing} (tt, none))
            (Own-progress row stage4_states
              (record no_change { last_poll_at = some (some w.queue.now) }) refl)
            (λ _. Own-pure row stage4_states {A = Nothing × Option Nothing} (tt, none)) w)

  finish_dip-Ends :
      (r : Refusal) (path error : String)
      → stage4_exit (refused r) ≡ some "DURACLOUD_TIMEOUT"
      → Ends (
          write_row row (halt_patch say error_text is_retryable row path error) "ingest" "dip_copy"
          >>= λ _. pure (refused r))
  finish_dip-Ends r path error e =
      Good-leave row stage4_states stage4_exit
        (halt_patch say error_text is_retryable row path error) "ingest" "dip_copy"
        "DURACLOUD_TIMEOUT" (refused r) refl (unfold contains in refl) e

  after_dip-Ends :
      (x : Wait × Polled DipEnd)
      → Ends (after_dip say error_text is_retryable validate_record cfg row x)
  unfolding after_dip
  after_dip-Ends (v, aborted) = Good-pure row stage4_states stage4_exit (refused stopped) refl
  after_dip-Ends (v, timed_out) = finish_dip-Ends duracloud_timeout v.dip_path _ refl
  after_dip-Ends (v, finished (unexpected message)) =
      finish_dip-Ends unexpected_error v.dip_path _ refl
  after_dip-Ends (v, finished (given_up reason error)) =
      finish_dip-Ends (copy_halted reason) v.dip_path _ refl
  after_dip-Ends (v, finished copied_dip) =
      Good-leave row stage4_states stage4_exit
        (done_patch say error_text is_retryable row v.dip_path) "ingest" "dip_copied"
        "METADATA_PROCESSED" (ingested _ v.dip_path) refl (unfold contains in refl) refl

  after_probe-Ends :
      (path : String) (x : Nothing × Polled Nothing)
      → Ends (after_probe say error_text is_retryable validate_record cfg row path x)
  after_probe-Ends path (u, aborted) =
      Good-pure row stage4_states stage4_exit (refused stopped) refl
  after_probe-Ends path (u, timed_out) =
      stop-Ends "DURACLOUD_TIMEOUT" duracloud_timeout "" "" (unfold contains in refl) refl
  after_probe-Ends path (u, finished done) =
      Good-leave row stage4_states stage4_exit (to_status "METADATA_PROCESSED") "ingest"
        "dc_complete" "METADATA_PROCESSED"
        (ingested (sip say error_text is_retryable validate_record cfg row) path) refl
        (unfold contains in refl) refl

  module _ (statuses : List (Remote (Option AmStatus))) (status_last : Interrupt)
      (fetch : Remote (Fetched A)) (get_dip_path : Remote (Got Link))
      (probes : String → List (Remote (Option Probed))) (dip_turns : List (Remote DipTurn))
      (wait_last : Interrupt) (asking : AllApart row stage4_states statuses)
      (fetching : Apart row stage4_states fetch) (linking : Apart row stage4_states get_dip_path)
      (probing : (path : String) → AllApart row stage4_states (probes path))
      (turning : AllApart row stage4_states dip_turns) where
    probe_mets-Ends :
        (path : String)
        → Ends (
            probe_mets say error_text is_retryable validate_record cfg row statuses status_last
              fetch get_dip_path probes dip_turns wait_last path)
    unfolding probe_mets
    probe_mets-Ends path =
        Good-bind row stage4_states stage4_exit
          (poll (check_probe say error_text is_retryable validate_record cfg row) (probes path)
            wait_last tt)
          (after_probe say error_text is_retryable validate_record cfg row path)
          (Own-poll row stage4_states
            (check_probe say error_text is_retryable validate_record cfg row) check_probe-Kept
            (probes path) wait_last (probing path) tt)
          (after_probe-Ends path)

    with_link-Ends :
        (l : Got Link)
        → Ends (
            with_link say error_text is_retryable validate_record cfg row statuses status_last fetch
              get_dip_path probes dip_turns wait_last l)
    unfolding with_link
    with_link-Ends (threw retryable message) =
        stop-Ends "INGEST_HALTED" get_dip_path_failed "" message (unfold contains in refl) refl
    with_link-Ends (got l) =
        let next : S Outcome =
          probe_mets say error_text is_retryable validate_record cfg row statuses status_last fetch
            get_dip_path probes dip_turns wait_last l.dip_path in
        let p =
          waiting_at say error_text is_retryable validate_record cfg row statuses status_last fetch
            get_dip_path probes dip_turns wait_last l.dip_path in
        if-both {A = S Outcome} Ends (l.dip_path == "")
          (λ _.
            stop-Ends "INGEST_HALTED" no_dip_path "no_dip_path" "" (unfold contains in refl) refl)
          (λ _.
            Good-bind row stage4_states stage4_exit (write_row row p "ingest" "dc_wait_started")
              (λ _. next)
              (Own-write row stage4_states p "ingest" "dc_wait_started" (unfold contains in refl))
              (λ _. probe_mets-Ends l.dip_path))

    enter_wait-Kept :
        (state step : String)
        → Kept (
            enter_wait say error_text is_retryable validate_record cfg row statuses status_last
              fetch get_dip_path probes dip_turns wait_last state step)
    enter_wait-Kept state step =
        if-both {A = S Nothing} Kept (state == "WAITING_FOR_DURACLOUD")
          (λ _. Own-pure row stage4_states tt)
          (λ _.
            Own-write row stage4_states (to_status "WAITING_FOR_DURACLOUD") "ingest" step
              (unfold contains in refl))

    duracloud_wait-Ends :
        (state : String)
        → Ends (
            duracloud_wait say error_text is_retryable validate_record cfg row statuses status_last
              fetch get_dip_path probes dip_turns wait_last state)
    unfolding duracloud_wait
    duracloud_wait-Ends state =
        let path : String = known_path say error_text is_retryable validate_record cfg row in
        if-both {A = S Outcome} Ends (path == "")
          (λ _.
            Good-bind row stage4_states stage4_exit (call get_dip_path)
              (with_link say error_text is_retryable validate_record cfg row statuses status_last
                fetch get_dip_path probes dip_turns wait_last)
              (Own-call row stage4_states get_dip_path linking) with_link-Ends)
          (λ _.
            Good-bind row stage4_states stage4_exit
              (enter_wait say error_text is_retryable validate_record cfg row statuses status_last
                fetch get_dip_path probes dip_turns wait_last state "dc_wait_resumed")
              (λ _.
                probe_mets say error_text is_retryable validate_record cfg row statuses status_last
                  fetch get_dip_path probes dip_turns wait_last path)
              (enter_wait-Kept state "dc_wait_resumed") (λ _. probe_mets-Ends path))

    wait_and_copy_dip-Ends :
        (state : String)
        → Ends (
            wait_and_copy_dip say error_text is_retryable validate_record cfg row statuses
              status_last fetch get_dip_path probes dip_turns wait_last state)
    unfolding wait_and_copy_dip
    wait_and_copy_dip-Ends state =
        let check = check_dip say error_text is_retryable row in
        let v : Wait = first_wait say error_text is_retryable row in
        let done : Wait × Polled DipEnd → S Outcome =
          after_dip say error_text is_retryable validate_record cfg row in
        if-both {A = S Outcome} Ends (not cfg.curation_configured || not cfg.dip_store_configured)
          (λ _.
            stop-Ends "DURACLOUD_TIMEOUT" dip_copy_not_configured "not_configured"
              (say "not_configured" 0) (unfold contains in refl) refl)
          (λ _.
            Good-bind row stage4_states stage4_exit
              (enter_wait say error_text is_retryable validate_record cfg row statuses status_last
                fetch get_dip_path probes dip_turns wait_last state "dip_wait_started")
              (λ _. poll check dip_turns wait_last v >>= done)
              (enter_wait-Kept state "dip_wait_started")
              (λ _.
                Good-bind row stage4_states stage4_exit (poll check dip_turns wait_last v) done
                  (Own-poll row stage4_states check
                    (check_dip-Own say error_text is_retryable row stage4_states) dip_turns
                    wait_last turning v)
                  after_dip-Ends))

    access_copy-Ends :
        (state : String)
        → Ends (
            access_copy say error_text is_retryable validate_record cfg row statuses status_last
              fetch get_dip_path probes dip_turns wait_last state)
    access_copy-Ends state =
        if-both {A = S Outcome} Ends cfg.dip_copy_enabled (λ _. wait_and_copy_dip-Ends state)
          (λ _. duracloud_wait-Ends state)

    after_drift-Ends :
        (o : Option (List String))
        → Ends (
            after_drift say error_text is_retryable validate_record cfg row statuses status_last
              fetch get_dip_path probes dip_turns wait_last o)
    after_drift-Ends none = access_copy-Ends "INGEST_COMPLETE"
    after_drift-Ends (some errors) =
        Good-leave row stage4_states stage4_exit
          (halted "AS_METADATA_DRIFT" (slice 1000 (join (take 5 errors)))) "ingest" "drift_check"
          "AS_METADATA_DRIFT" (refused as_metadata_drift) refl (unfold contains in refl) refl

    drift_check-Ends : Ends (
        drift_check say error_text is_retryable validate_record cfg row statuses status_last fetch
          get_dip_path probes dip_turns wait_last)
    unfolding drift_check
    drift_check-Ends =
        Good-bind row stage4_states stage4_exit (call fetch)
          (λ f.
            after_drift say error_text is_retryable validate_record cfg row statuses status_last
              fetch get_dip_path probes dip_turns wait_last
              (check_for_drift say error_text is_retryable validate_record cfg row f))
          (Own-call row stage4_states fetch fetching)
          (λ f.
            after_drift-Ends
              (check_for_drift say error_text is_retryable validate_record cfg row f))

    after_ingest-Ends :
        (x : String × Polled AmEnd)
        → Ends (
            after_ingest say error_text is_retryable validate_record cfg row statuses status_last
              fetch get_dip_path probes dip_turns wait_last x)
    unfolding after_ingest
    after_ingest-Ends (c, aborted) = Good-pure row stage4_states stage4_exit (refused stopped) refl
    after_ingest-Ends (c, timed_out) =
        stop-Ends "INGEST_STATUS_TIMEOUT" ingest_status_timeout "" "" (unfold contains in refl) refl
    after_ingest-Ends (c, finished failed) =
        stop-Ends "FAILED" am_failed "" "" (unfold contains in refl) refl
    after_ingest-Ends (c, finished made) =
        Good-bind row stage4_states stage4_exit
          (write_row row (to_status "INGEST_COMPLETE") "ingest" "am_complete")
          (λ _.
            drift_check say error_text is_retryable validate_record cfg row statuses status_last
              fetch get_dip_path probes dip_turns wait_last)
          (Own-write row stage4_states (to_status "INGEST_COMPLETE") "ingest" "am_complete"
            (unfold contains in refl))
          (λ _. drift_check-Ends)

    await_ingest-Ends : Ends (
        await_ingest say error_text is_retryable validate_record cfg row statuses status_last fetch
          get_dip_path probes dip_turns wait_last)
    await_ingest-Ends =
        let check = check_ingest say error_text is_retryable validate_record cfg row in
        Good-bind row stage4_states stage4_exit
          (poll check statuses status_last row.details.micro_service)
          (after_ingest say error_text is_retryable validate_record cfg row statuses status_last
            fetch get_dip_path probes dip_turns wait_last)
          (Own-poll row stage4_states check check_ingest-Kept statuses status_last asking
            row.details.micro_service)
          after_ingest-Ends

    run-Ends : Ends (
        run say error_text is_retryable validate_record cfg row statuses status_last fetch
          get_dip_path probes dip_turns wait_last)
    unfolding run
    run-Ends =
        if-both {A = S Outcome} Ends (sip say error_text is_retryable validate_record cfg row == "")
          (λ _.
            stop-Ends "INGEST_HALTED" missing_sip_uuid "missing_sip_uuid" ""
              (unfold contains in refl) refl)
          (λ _.
            if-both {A = S Outcome} Ends (row.pipeline_state == "TRANSFER_COMPLETE")
              (λ _.
                Good-bind row stage4_states stage4_exit
                  (write_row row (to_status "INGEST_IN_PROGRESS") "ingest" "started")
                  (λ _.
                    await_ingest say error_text is_retryable validate_record cfg row statuses
                      status_last fetch get_dip_path probes dip_turns wait_last)
                  (Own-write row stage4_states (to_status "INGEST_IN_PROGRESS") "ingest" "started"
                    (unfold contains in refl))
                  (λ _. await_ingest-Ends))
              (λ _.
                if-both {A = S Outcome} Ends (row.pipeline_state == "INGEST_IN_PROGRESS")
                  (λ _. await_ingest-Ends)
                  (λ _.
                    if-both {A = S Outcome} Ends (row.pipeline_state == "INGEST_COMPLETE")
                      (λ _. drift_check-Ends) (λ _. access_copy-Ends row.pipeline_state))))

    -- Where whatever runs during the calls keeps to it too, a run of stage 4 changes no row but its
    -- own, moves that only to states of the stage, and leaves it, where it returns, in
    -- METADATA_PROCESSED only where the ArchivesSpace record passed the checks again, or the row was past
    -- them, and the service reported the access copy as copied or a probe found its METS file; in
    -- AS_METADATA_DRIFT only for an error, no record or one with validation errors; in FAILED only for an
    -- ingest that was reported as failed or rejected; in INGEST_STATUS_TIMEOUT only at the deadline of
    -- that poll; in DURACLOUD_TIMEOUT for every end of the wait for the copy but success; and else in
    -- INGEST_HALTED. Only an abort leaves it anywhere in the stage.
    pub ingest-Ends :
        (w : World)
        → let x =
            run say error_text is_retryable validate_record cfg row statuses status_last fetch
              get_dip_path probes dip_turns wait_last w in
          FramedTo row.id stage4_states w x
          × Settled row.id stage4_exit x
          × Told
              (Stage4Tells say error_text is_retryable validate_record cfg row statuses status_last
                fetch get_dip_path probes dip_turns wait_last)
              x
    ingest-Ends w =
        let ends = run-Ends w in
        (
          ends.0,
          ends.1,
          run-Says say error_text is_retryable validate_record cfg row statuses status_last fetch
              get_dip_path probes dip_turns wait_last w,
        )
