-- ===== src/Ingester/Stages/Ingest.antt =====
-- ingester/stages/ingest.js: stage 4, which waits for the package that Archivematica makes, checks the
-- ArchivesSpace record again and waits for the access copy. The clean-up of Archivematica's list,
-- which nothing waits for, is left out.
use Prim.Native.String.{◌++◌}
use repo_backend_v.Base.{
  ℕ, String, Bool, not, ◌&&◌, ◌||◌, Option, none, some, List, [], ◌∷◌, take, ◌==◌, string_eq,
  nat_eq, if◌then◌else◌, get_or,
}
use repo_backend_v.Ingester.Queue.Store.{Row, Error, ok}
use repo_backend_v.Ingester.Queue.Update.{Patch, no_change, to_status}
use repo_backend_v.Ingester.Stages.Text.{slice, text_or, join}
use repo_backend_v.Ingester.Stages.World.{S, ◌>>=◌, pure}
use repo_backend_v.Ingester.Stages.Steps.{
  Remote, call, write_row, write_progress, halted, halt, Polled, finished, timed_out, aborted,
  Interrupt, poll,
}
use repo_backend_v.Ingester.Stages.ProcessMetadata.{Fetched, threw, answered}
use repo_backend_v.Ingester.Stages.DipCopy.{
  Got, Link, DipTurn, Wait, DipEnd, unexpected, given_up, copied_dip, check_dip, halt_patch,
  done_patch, first_wait,
}

pub data Refusal : Type 0 where
  missing_sip_uuid : Refusal
  stopped : Refusal
  ingest_status_timeout : Refusal
  am_failed : Refusal
  as_metadata_drift : Refusal
  get_dip_path_failed : Refusal
  no_dip_path : Refusal
  duracloud_timeout : Refusal
  dip_copy_not_configured : Refusal
  unexpected_error : Refusal
  copy_halted : (reason : String) → Refusal

pub data Outcome : Type 0 where
  ingested : (sip_uuid dip_path : String) → Outcome
  refused : Refusal → Outcome

-- The body of an ingest status; "" for what is missing.
pub record AmStatus : Type 0 where
  pub status : String
  pub microservice : String

pub data AmEnd : Type 0 where
  failed : AmEnd
  made : AmEnd

-- `cfg.dip_copy_enabled`, with what `is_configured` of the two clients answers.
pub record Config : Type 0 where
  pub dip_copy_enabled : Bool
  pub curation_configured : Bool
  pub dip_store_configured : Bool

-- What a probe of the METS file answers.
pub record Probed : Type 0 where
  pub status : ℕ
  pub text : String

module _ {A : Type 0} (say : String → ℕ → String) (error_text : Error → String)
    (is_retryable : Error → Bool) (validate_record : A → List String) (cfg : Config)
    (row : Row) where
  abbrev pub stop : String → Refusal → (reason text : String) → S Outcome
  stop state r reason text = halt row state "ingest" reason text >>= λ _. pure (refused r)

  abbrev pub heartbeat : ℕ → String → String → Patch
  heartbeat now cached microservice = record no_change {
    last_poll_at = some (some now);
    details = λ d.
        if microservice == "" || microservice == cached
        then d
        else record d { micro_service = microservice };
  }

  -- One check of the status poll; none is a call that threw or answered no body.
  unfoldable pub check_ingest : String → Option AmStatus → S (String × Option AmEnd)
  check_ingest cached none w = pure {A = String × Option AmEnd} (cached, none) w
  check_ingest cached (some d) w =
      if d.status == "FAILED" || d.status == "REJECTED"
      then (ok (cached, some failed), w)
      else if d.status == "COMPLETE"
      then (ok (cached, some made), w)
      else (write_progress row (heartbeat w.queue.now cached d.microservice) >>= λ _.
            pure {A = String × Option AmEnd} (text_or d.microservice cached, none))
          w

  -- One check of the METS probe; none is a call that threw.
  unfoldable pub check_probe : Unit {0} → Option Probed → S (Unit {0} × Option (Unit {0}))
  check_probe u none w = pure {A = Unit {0} × Option (Unit {0})} (tt, none) w
  check_probe u (some d) w =
      if d.status == 200 && not (d.text == "")
      then (ok (tt, some tt), w)
      else (write_progress row (record no_change { last_poll_at = some (some w.queue.now) })
            >>= λ _. pure {A = Unit {0} × Option (Unit {0})} (tt, none))
          w

  -- `check_for_drift`: the errors that halt the row, none where the record still passes.
  unfoldable pub check_for_drift : Fetched A → Option (List String)
  check_for_drift (threw message) = some (message ∷ [])
  check_for_drift (answered status none) = some (say "postingest" status ∷ [])
  check_for_drift (answered status (some d)) =
      if not (status == 200)
      then some (say "postingest" status ∷ [])
      else elim (validate_record d) [ [] ↦ none | e ∷ es ↦ some (e ∷ es) ]

  abbrev pub sip : String
  sip = let s = get_or row.sip_uuid "" in if s == "PENDING" then "" else s

  abbrev pub known_path : String
  known_path = if row.details.dip_path == "PENDING" then "" else row.details.dip_path

  abbrev pub finish_dip : Refusal → (path error : String) → S Outcome
  finish_dip r path error =
      write_row row (halt_patch say error_text is_retryable row path error) "ingest" "dip_copy"
      >>= λ _. pure (refused r)

  unfoldable pub after_dip : Wait × Polled DipEnd → S Outcome
  after_dip (v, aborted) = pure (refused stopped)
  after_dip (v, timed_out) =
      finish_dip duracloud_timeout v.dip_path
        ("Still waiting when the budget ran out: " ++ v.waiting)
  after_dip (v, finished (unexpected message)) =
      finish_dip unexpected_error v.dip_path ("The access-copy wait failed: " ++ message)
  after_dip (v, finished (given_up reason error)) =
      finish_dip (copy_halted reason) v.dip_path (text_or error reason)
  after_dip (v, finished copied_dip) =
      write_row row (done_patch say error_text is_retryable row v.dip_path) "ingest" "dip_copied"
      >>= λ _. pure (ingested sip v.dip_path)

  abbrev pub after_probe : String → Unit {0} × Polled (Unit {0}) → S Outcome
  after_probe path (u, aborted) = pure (refused stopped)
  after_probe path (u, timed_out) = stop "DURACLOUD_TIMEOUT" duracloud_timeout "" ""
  after_probe path (u, finished done) =
      write_row row (to_status "METADATA_PROCESSED") "ingest" "dc_complete" >>= λ _.
      pure (ingested sip path)

  -- The calls of a run: the status poll, the record, the DIP's path, the probes and the turns of the
  -- wait for the copy, with what ends each poll.
  module _ (statuses : List (Remote (Option AmStatus))) (status_last : Interrupt)
      (fetch : Remote (Fetched A)) (get_dip_path : Remote (Got Link))
      (probes : String → List (Remote (Option Probed))) (dip_turns : List (Remote DipTurn))
      (wait_last : Interrupt) where
    unfoldable pub probe_mets : String → S Outcome
    unfolding check_probe poll halt
    probe_mets path = poll check_probe (probes path) wait_last tt >>= after_probe path

    abbrev pub waiting_at : String → Patch
    waiting_at path = record (to_status "WAITING_FOR_DURACLOUD") {
      details = λ d. record d { dip_path = path };
    }

    unfoldable pub with_link : Got Link → S Outcome
    unfolding probe_mets halt
    with_link (Got.threw retryable message) = stop "INGEST_HALTED" get_dip_path_failed "" message
    with_link (Got.got l) =
        if l.dip_path == ""
        then stop "INGEST_HALTED" no_dip_path "no_dip_path" ""
        else (write_row row (waiting_at l.dip_path) "ingest" "dc_wait_started" >>= λ _.
            probe_mets l.dip_path)

    -- The state that the run knows of is an argument: it changes its copy of the row as it goes on.
    abbrev pub enter_wait : String → String → S (Unit {0})
    enter_wait state step =
        if state == "WAITING_FOR_DURACLOUD"
        then pure tt
        else write_row row (to_status "WAITING_FOR_DURACLOUD") "ingest" step

    unfoldable pub duracloud_wait : String → S Outcome
    unfolding with_link probe_mets
    duracloud_wait state =
        if known_path == ""
        then (call get_dip_path >>= with_link)
        else (enter_wait state "dc_wait_resumed" >>= λ _. probe_mets known_path)

    unfoldable pub wait_and_copy_dip : String → S Outcome
    unfolding check_dip after_dip poll halt
    wait_and_copy_dip state =
        if not cfg.curation_configured || not cfg.dip_store_configured
        then stop "DURACLOUD_TIMEOUT" dip_copy_not_configured "not_configured"
            (say "not_configured" 0)
        else (enter_wait state "dip_wait_started" >>= λ _.
            poll (check_dip say error_text is_retryable row) dip_turns wait_last
              (first_wait say error_text is_retryable row)
            >>= after_dip)

    abbrev pub access_copy : String → S Outcome
    access_copy state =
        if cfg.dip_copy_enabled then wait_and_copy_dip state else duracloud_wait state

    abbrev pub after_drift : Option (List String) → S Outcome
    after_drift none = access_copy "INGEST_COMPLETE"
    after_drift (some errors) =
        write_row row (halted "AS_METADATA_DRIFT" (slice 1000 (join (take 5 errors)))) "ingest"
          "drift_check"
        >>= λ _. pure (refused as_metadata_drift)

    unfoldable pub drift_check : S Outcome
    unfolding check_for_drift duracloud_wait wait_and_copy_dip halt slice join
    drift_check = call fetch >>= λ f. after_drift (check_for_drift f)

    unfoldable pub after_ingest : String × Polled AmEnd → S Outcome
    unfolding drift_check halt
    after_ingest (c, aborted) = pure (refused stopped)
    after_ingest (c, timed_out) = stop "INGEST_STATUS_TIMEOUT" ingest_status_timeout "" ""
    after_ingest (c, finished failed) = stop "FAILED" am_failed "" ""
    after_ingest (c, finished made) =
        write_row row (to_status "INGEST_COMPLETE") "ingest" "am_complete" >>= λ _. drift_check

    abbrev pub await_ingest : S Outcome
    await_ingest = poll check_ingest statuses status_last row.details.micro_service >>= after_ingest

    unfoldable pub run : S Outcome
    unfolding after_ingest check_ingest poll drift_check duracloud_wait wait_and_copy_dip halt
    run =
        if sip == ""
        then stop "INGEST_HALTED" missing_sip_uuid "missing_sip_uuid" ""
        else if row.pipeline_state == "TRANSFER_COMPLETE"
        then (write_row row (to_status "INGEST_IN_PROGRESS") "ingest" "started" >>= λ _.
            await_ingest)
        else if row.pipeline_state == "INGEST_IN_PROGRESS"
        then await_ingest
        else if row.pipeline_state == "INGEST_COMPLETE"
        then drift_check
        else access_copy row.pipeline_state
