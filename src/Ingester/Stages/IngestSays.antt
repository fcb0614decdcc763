-- ===== src/Ingester/Stages/IngestSays.antt =====
-- Stage 4: what each return tells of the answers of Archivematica, ArchivesSpace and the services that
-- hold the access copy.
use Prim.Native.String.{◌++◌}
use repo_backend_v.Base.{
  ℕ, String, Bool, true, false, not, ◌&&◌, ◌||◌, ◌≡◌, ◌≢◌, refl, ◌⊎◌, inl, inr, Option, none, some,
  List, [], ◌∷◌, arith, leb, ltb, ◌==◌, string_eq, nat_eq, if-both, Bool-cases, ◌+◌,
}
use repo_backend_v.Ingester.Queue.Store.{Row, Error}
use repo_backend_v.Ingester.Queue.Update.{no_change}
use repo_backend_v.Ingester.Stages.Text.{text_or}
use repo_backend_v.Ingester.Stages.World.{S, pure}
use repo_backend_v.Ingester.Stages.Steps.{
  Remote, call, write_progress, Polled, finished, timed_out, aborted, Interrupt, deadline, abort,
  poll,
}
use repo_backend_v.Ingester.Stages.Says.{
  Told, Says, Answers, Asked, Ended, Given, Says-pure, Says-call, Says-bind, Says-then, Says-leave,
  poll-Says,
}
use repo_backend_v.Ingester.Stages.ProcessMetadata.{Fetched, threw, answered}
use repo_backend_v.Ingester.Stages.DipCopy.{
  Got, Link, Package, CopyReply, DipTurn, Wait, DipEnd, unexpected, given_up, copied_dip, check_dip,
  wait_again, on_throw, on_incomplete, on_copy, on_status, on_package, on_stored, on_link,
  store_path, terminal_reason, other_folder, first_wait, beat, folder_of,
}
use repo_backend_v.Ingester.Stages.Ingest.{
  missing_sip_uuid, stopped, ingest_status_timeout, am_failed, as_metadata_drift,
  get_dip_path_failed, no_dip_path, duracloud_timeout, dip_copy_not_configured, unexpected_error,
  copy_halted, Outcome, ingested, refused, AmStatus, AmEnd, failed, made, Config, Probed,
  check_ingest, check_probe, check_for_drift, heartbeat, after_dip, after_probe, probe_mets,
  with_link, duracloud_wait, wait_and_copy_dip, access_copy, after_drift, drift_check, after_ingest,
  await_ingest, run, known_path, sip,
}

module _ {A : Type 0} (say : String → ℕ → String) (error_text : Error → String)
    (is_retryable : Error → Bool) (validate_record : A → List String) (cfg : Config) (row : Row)
    (statuses : List (Remote (Option AmStatus))) (status_last : Interrupt)
    (fetch : Remote (Fetched A)) (get_dip_path : Remote (Got Link))
    (probes : String → List (Remote (Option Probed))) (dip_turns : List (Remote DipTurn))
    (wait_last : Interrupt) where
  -- What ArchivesSpace refuses: an error, no record, or one with errors.
  abbrev pub Refuses : Fetched A → Type 0
  Refuses (threw message) = Unit
  Refuses (answered status none) = Unit
  Refuses (answered status (some d)) = ((status == 200) ≡ false) ⊎ (validate_record d ≢ [])

  -- The record that ArchivesSpace gave after the ingest still passes the checks.
  abbrev pub Passes : Fetched A → Type 0
  Passes (threw message) = ⊥
  Passes (answered status none) = ⊥
  Passes (answered status (some d)) = ((status == 200) ≡ true) × (validate_record d ≡ [])

  -- The check was passed in this run, or the row is past it.
  abbrev pub Cleared : Type 0
  Cleared =
      ((f : Fetched A) × Answers fetch f × Passes f)
      ⊎ (((row.pipeline_state == "TRANSFER_COMPLETE") ≡ false)
          × ((row.pipeline_state == "INGEST_IN_PROGRESS") ≡ false)
          × ((row.pipeline_state == "INGEST_COMPLETE") ≡ false))

  -- The curation service answered that it copied the DIP.
  abbrev pub DipCopied : Type 0
  DipCopied =
      (t : DipTurn) × (c : CopyReply) × Asked dip_turns t
      × (t.copied ≡ Got.got c)
      × ((c.status == 200) ≡ true)
      × (c.is_ok ≡ true)
      × ((c.result == "copied") ≡ true)

  -- A probe found the METS file of the access copy at the path.
  abbrev pub MetsFound : String → Type 0
  MetsFound path =
      (d : Probed) × Asked (probes path) (some d)
      × ((d.status == 200) ≡ true)
      × ((d.text == "") ≡ false)

  abbrev pub IsFailed : AmStatus → Type 0
  IsFailed d = ((d.status == "FAILED") ≡ true) ⊎ ((d.status == "REJECTED") ≡ true)

  abbrev pub Stage4Tells : Outcome → Type 0
  Stage4Tells (ingested s path) = Cleared × (DipCopied ⊎ MetsFound path)
  Stage4Tells (refused missing_sip_uuid) = Unit
  Stage4Tells (refused stopped) = (status_last ≡ abort) ⊎ (wait_last ≡ abort)
  Stage4Tells (refused ingest_status_timeout) = status_last ≡ deadline
  Stage4Tells (refused am_failed) = (d : AmStatus) × Asked statuses (some d) × IsFailed d
  Stage4Tells (refused as_metadata_drift) = (f : Fetched A) × Answers fetch f × Refuses f
  Stage4Tells (refused get_dip_path_failed) = Unit
  Stage4Tells (refused no_dip_path) = Unit
  Stage4Tells (refused duracloud_timeout) = wait_last ≡ deadline
  Stage4Tells (refused dip_copy_not_configured) = Unit
  Stage4Tells (refused unexpected_error) = Unit
  Stage4Tells (refused (copy_halted reason)) = Unit

  -- The wait for the DIP.
  abbrev DipResult : DipEnd → Type 0
  DipResult (unexpected message) = Unit
  DipResult (given_up reason error) = Unit
  DipResult copied_dip = DipCopied

  abbrev DipTurnTold : Wait × Option DipEnd → Type 0
  DipTurnTold x = Unit {0} × Given DipResult x.1

  abbrev DipSays : S (Wait × Option DipEnd) → Type 0
  DipSays m = Says DipTurnTold m

  quiet :
      (v : Wait) (e : DipEnd) → DipResult e → DipSays (pure {A = Wait × Option DipEnd} (v, some e))
  quiet v e r = Says-pure {A = Wait × Option DipEnd} DipTurnTold (v, some e) (tt, r)

  waits : (v : Wait) (error : String) → DipSays (wait_again say error_text is_retryable row v error)
  unfolding wait_again
  waits v error w =
      Says-leave {A = Wait × Option DipEnd} DipTurnTold
        (write_progress row (beat say error_text is_retryable row w.queue.now))
        (record v { waiting = error }, none) (tt, tt) w

  throws :
      (v : Wait) (retryable : Bool) (message : String)
      → DipSays (on_throw say error_text is_retryable row v retryable message)
  unfolding on_throw
  throws v retryable message =
      if-both {A = S (Wait × Option DipEnd)} DipSays retryable (λ _. waits v message)
        (λ _. quiet v (unexpected message) tt)

  gives_up :
      (v : Wait) (reason error : String)
      → DipSays (pure {A = Wait × Option DipEnd} (v, some (given_up reason error)))
  gives_up v reason error = quiet v (given_up reason error) tt

  incomplete :
      (v : Wait) (error : String) → DipSays (on_incomplete say error_text is_retryable row v error)
  unfolding on_incomplete
  incomplete v error =
      if-both {A = S (Wait × Option DipEnd)} DipSays (ltb 1 (v.incomplete_answers + 1))
        (λ _.
          gives_up (record v { incomplete_answers = v.incomplete_answers + 1 }) "dip_incomplete"
            ("Archivematica reports the DIP as stored, but "
              ++ text_or error "it is not complete in DCP"))
        (λ _.
          waits (record v { incomplete_answers = v.incomplete_answers + 1 })
            (text_or error "The DIP is not complete in DCP yet"))

  module _ (t : DipTurn) (asked : Asked dip_turns t) where
    copying :
        (v : Wait) (c : Got CopyReply)
        → t.copied ≡ c
        → DipSays (on_copy say error_text is_retryable row v c)
    unfolding on_copy
    copying v (Got.threw retryable message) e = throws v retryable message
    copying v (Got.got c) e =
        if-both {A = S (Wait × Option DipEnd)} DipSays (leb 500 c.status || c.status == 429)
          (λ _. waits v (say "curation_unavailable" c.status))
          (λ _.
            if-both {A = S (Wait × Option DipEnd)} DipSays (not (c.status == 200))
              (λ _. gives_up v "dip_copy_rejected" (say "dip_copy_rejected" c.status))
              (λ good.
                if-both {A = S (Wait × Option DipEnd)} DipSays (c.result == "incomplete")
                  (λ _. incomplete v c.error)
                  (λ _.
                    if-both {A = S (Wait × Option DipEnd)} DipSays (c.is_ok && c.result == "copied")
                      (λ there. quiet v copied_dip (
                        t,
                        c,
                        asked,
                        e,
                        ground (arith, good),
                        ground (arith, there),
                        ground (arith, there),
                      ))
                      (λ _. gives_up v "dip_copy_failed" (text_or c.error "The DIP copy failed")))))

    with_status :
        (v : Wait) (p : Package) (o : Option String)
        → DipSays (on_status say error_text is_retryable row v p t.copied o)
    unfolding on_status
    with_status v p (some reason) =
        gives_up v reason ("Archivematica reports the DIP as " ++ p.package_status)
    with_status v p none =
        if-both {A = S (Wait × Option DipEnd)} DipSays
          (other_folder say error_text is_retryable row v p)
          (λ _. gives_up v "dip_path_mismatch" (
            "The DIP's folder in Archivematica ("
            ++ folder_of p.current_path
            ++ ") is not the one worked out from the AIP's name ("
            ++ folder_of v.dip_path
            ++ ")"))
          (λ _.
            if-both {A = S (Wait × Option DipEnd)} DipSays (not (p.package_status == "UPLOADED"))
              (λ _. waits v (
                "Archivematica reports the DIP as "
                ++ text_or p.package_status "no status"
                ++ ", not UPLOADED"))
              (λ _.
                if-both {A = S (Wait × Option DipEnd)} DipSays (p.size == 0)
                  (λ _. waits v "Archivematica reports no size for the DIP")
                  (λ _. copying v t.copied refl)))

    with_package :
        (v : Wait) (g : Got Package) → DipSays (on_package say error_text is_retryable row v t g)
    unfolding on_package
    with_package v (Got.threw retryable message) = throws v retryable message
    with_package v (Got.got p) =
        if-both {A = S (Wait × Option DipEnd)} DipSays (not (p.status == 200) || not p.has_data)
          (λ _. waits v (say "dip_record_unavailable" p.status))
          (λ _.
            if-both {A = S (Wait × Option DipEnd)} DipSays
              (not (p.package_type == "") && not (p.package_type == "DIP"))
              (λ _. gives_up v "not_a_dip" (
                "The AIP's first related package in Archivematica is not a DIP (package type "
                ++ p.package_type ++ ")"))
              (λ _. with_status v p (terminal_reason p.package_status)))

    with_stored :
        (v : Wait) (l : Link) (o : Option Error)
        → DipSays (on_stored say error_text is_retryable row v l t o)
    unfolding on_stored
    with_stored v l (some e) = throws v (is_retryable e) (error_text e)
    with_stored v l none =
        with_package
          (record v { dip_path = l.dip_path; dip_uuid = l.dip_uuid; row_path = l.dip_path })
          t.package_record

    with_dip : (v : Wait) (g : Got Link) → DipSays (on_link say error_text is_retryable row v t g)
    unfolding on_link
    with_dip v (Got.threw retryable message) = throws v retryable message
    with_dip v (Got.got l) =
        if-both {A = S (Wait × Option DipEnd)} DipSays (l.dip_path == "" || l.dip_uuid == "")
          (λ _. waits v "Archivematica has not linked a DIP to this AIP")
          (λ _.
            Says-then {A = Wait × Option DipEnd} DipTurnTold
              (store_path say error_text is_retryable row v l.dip_path)
              (on_stored say error_text is_retryable row v l t) (with_stored v l))

    check_dip-Says : (v : Wait) → DipSays (check_dip say error_text is_retryable row v t)
    unfolding check_dip
    check_dip-Says v =
        if-both {A = S (Wait × Option DipEnd)} DipSays (v.dip_uuid == "") (λ _. with_dip v t.link)
          (λ _. with_package v t.package_record)

  module _ (c : Cleared) where
    after_dip-Says :
        (x : Wait × Polled DipEnd)
        → Unit {0} × Ended DipResult wait_last x.1
        → Says Stage4Tells (after_dip say error_text is_retryable validate_record cfg row x)
    unfolding after_dip
    after_dip-Says (v, aborted) (u, e) = Says-pure Stage4Tells (refused stopped) (inr e)
    after_dip-Says (v, timed_out) (u, e) = Says-leave Stage4Tells _ (refused duracloud_timeout) e
    after_dip-Says (v, finished (unexpected message)) (u, e) =
        Says-leave Stage4Tells _ (refused unexpected_error) tt
    after_dip-Says (v, finished (given_up reason error)) (u, e) =
        Says-leave Stage4Tells _ (refused (copy_halted reason)) tt
    after_dip-Says (v, finished copied_dip) (u, e) =
        Says-leave Stage4Tells _
          (ingested (sip say error_text is_retryable validate_record cfg row) v.dip_path) (c, inl e)

    module _ (path : String) where
      abbrev ProbeTold : Unit {0} × Option (Unit {0}) → Type 0
      ProbeTold x = Unit {0} × Given (λ _. MetsFound path) x.1

      check_probe-Says :
          (u : Unit {0}) (a : Option Probed)
          → Unit {0}
          → Asked (probes path) a
          → Says ProbeTold (check_probe say error_text is_retryable validate_record cfg row u a)
      unfolding check_probe
      check_probe-Says u none v asked w = (tt, tt)
      check_probe-Says u (some d) v asked w =
          if-both (Told ProbeTold) (d.status == 200 && not (d.text == ""))
            (λ good. (tt, (d, asked, ground (arith, good), ground (arith, good))))
            (λ _.
              Says-leave {A = Unit {0} × Option (Unit {0})} ProbeTold
                (write_progress row (record no_change { last_poll_at = some (some w.queue.now) }))
                (tt, none) (tt, tt) w)

      after_probe-Says :
          (x : Unit {0} × Polled (Unit {0}))
          → Unit {0} × Ended (λ _. MetsFound path) wait_last x.1
          → Says Stage4Tells
              (after_probe say error_text is_retryable validate_record cfg row path x)
      after_probe-Says (v, aborted) (u, e) = Says-pure Stage4Tells (refused stopped) (inr e)
      after_probe-Says (v, timed_out) (u, e) =
          Says-leave Stage4Tells _ (refused duracloud_timeout) e
      after_probe-Says (v, finished done) (u, e) =
          Says-leave Stage4Tells _
            (ingested (sip say error_text is_retryable validate_record cfg row) path) (c, inr e)

      probe_mets-Says : Says Stage4Tells (
          probe_mets say error_text is_retryable validate_record cfg row statuses status_last fetch
            get_dip_path probes dip_turns wait_last path)
      unfolding probe_mets
      probe_mets-Says =
          Says-bind Stage4Tells (λ x. Unit {0} × Ended (λ _. MetsFound path) wait_last x.1)
            (poll (check_probe say error_text is_retryable validate_record cfg row) (probes path)
              wait_last tt)
            (after_probe say error_text is_retryable validate_record cfg row path)
            (poll-Says (λ _. Unit {0}) (λ _. MetsFound path) (Asked (probes path))
              (check_probe say error_text is_retryable validate_record cfg row) check_probe-Says
              (probes path) wait_last (λ a asked. asked) tt tt)
            after_probe-Says

    with_link-Says :
        (g : Got Link)
        → Says Stage4Tells (
            with_link say error_text is_retryable validate_record cfg row statuses status_last fetch
              get_dip_path probes dip_turns wait_last g)
    unfolding with_link
    with_link-Says (Got.threw retryable message) =
        Says-leave Stage4Tells _ (refused get_dip_path_failed) tt
    with_link-Says (Got.got l) =
        if-both {A = S Outcome} (Says Stage4Tells) (l.dip_path == "")
          (λ _. Says-leave Stage4Tells _ (refused no_dip_path) tt)
          (λ _. Says-then Stage4Tells _ _ (λ _. probe_mets-Says l.dip_path))

    access_copy-Says :
        (state : String)
        → Says Stage4Tells (
            access_copy say error_text is_retryable validate_record cfg row statuses status_last
              fetch get_dip_path probes dip_turns wait_last state)
    unfolding duracloud_wait wait_and_copy_dip
    access_copy-Says state =
        if-both {A = S Outcome} (Says Stage4Tells) cfg.dip_copy_enabled
          (λ _.
            if-both {A = S Outcome} (Says Stage4Tells)
              (not cfg.curation_configured || not cfg.dip_store_configured)
              (λ _. Says-leave Stage4Tells _ (refused dip_copy_not_configured) tt)
              (λ _. Says-then Stage4Tells _ _ (λ _.
                Says-bind Stage4Tells (λ x. Unit {0} × Ended DipResult wait_last x.1)
                  (poll (check_dip say error_text is_retryable row) dip_turns wait_last
                    (first_wait say error_text is_retryable row))
                  (after_dip say error_text is_retryable validate_record cfg row)
                  (poll-Says (λ _. Unit {0}) DipResult (Asked dip_turns)
                    (check_dip say error_text is_retryable row)
                    (λ v t u asked. check_dip-Says t asked v) dip_turns wait_last (λ a asked. asked)
                    (first_wait say error_text is_retryable row) tt)
                  after_dip-Says)))
          (λ _.
            if-both {A = S Outcome} (Says Stage4Tells)
              (known_path say error_text is_retryable validate_record cfg row == "")
              (λ _.
                Says-then Stage4Tells (call get_dip_path)
                  (with_link say error_text is_retryable validate_record cfg row statuses
                    status_last fetch get_dip_path probes dip_turns wait_last)
                  with_link-Says)
              (λ _. Says-then Stage4Tells _ _ (λ _. probe_mets-Says _)))

  -- The drift check: the record still passes, or ArchivesSpace refuses it.
  abbrev Drift : Fetched A → Option (List String) → Type 0
  Drift f none = Passes f
  Drift f (some errors) = Refuses f

  check_for_drift-Drift :
      (f : Fetched A)
      → Drift f (check_for_drift say error_text is_retryable validate_record cfg row f)
  unfolding check_for_drift
  check_for_drift-Drift (threw message) = tt
  check_for_drift-Drift (answered status none) = tt
  check_for_drift-Drift (answered status (some d)) =
      if-both {A = Option (List String)} (Drift (answered status (some d))) (not (status == 200))
        (λ bad. inl (ground (arith, bad)))
        (λ good. judged (ground (arith, good)) (validate_record d) refl)
    where
      judged :
          (status == 200) ≡ true
          → (errors : List String) → validate_record d ≡ errors
          → Drift (answered status (some d)) (elim errors [ [] ↦ none | e ∷ es ↦ some (e ∷ es) ])
      judged good [] e = (good, e)
      judged good (x ∷ xs) e = inr (λ passes. absurd cc)

  after_drift-Says :
      (f : Fetched A) (o : Option (List String))
      → Answers fetch f
      → Drift f o
      → Says Stage4Tells (
          after_drift say error_text is_retryable validate_record cfg row statuses status_last fetch
            get_dip_path probes dip_turns wait_last o)
  after_drift-Says f none a d = access_copy-Says (inl (f, a, d)) "INGEST_COMPLETE"
  after_drift-Says f (some errors) a d =
      Says-leave Stage4Tells _ (refused as_metadata_drift) (f, a, d)

  drift_check-Says : Says Stage4Tells (
      drift_check say error_text is_retryable validate_record cfg row statuses status_last fetch
        get_dip_path probes dip_turns wait_last)
  unfolding drift_check
  drift_check-Says = Says-bind Stage4Tells (Answers fetch) (call fetch) _ (Says-call fetch) (λ f a.
      after_drift-Says f (check_for_drift say error_text is_retryable validate_record cfg row f) a
        (check_for_drift-Drift f))

  -- The wait for Archivematica.
  abbrev AmResult : AmEnd → Type 0
  AmResult failed = (d : AmStatus) × Asked statuses (some d) × IsFailed d
  AmResult made = Unit

  abbrev AmTurn : String × Option AmEnd → Type 0
  AmTurn x = Unit {0} × Given AmResult x.1

  failing : (d : AmStatus) → (d.status == "FAILED" || d.status == "REJECTED") ≡ true → IsFailed d
  failing d bad = elim (Bool-cases (d.status == "FAILED")) [
    | inl e ↦ inl e
    | inr e ↦ inr (ground (arith, bad, e))
  ]

  check_ingest-Says :
      (cached : String) (a : Option AmStatus)
      → Unit {0}
      → Asked statuses a
      → Says AmTurn (check_ingest say error_text is_retryable validate_record cfg row cached a)
  unfolding check_ingest
  check_ingest-Says cached none u asked w = (tt, tt)
  check_ingest-Says cached (some d) u asked w =
      if-both (Told AmTurn) (d.status == "FAILED" || d.status == "REJECTED")
        (λ bad. (tt, (d, asked, failing d bad)))
        (λ _.
          if-both (Told AmTurn) (d.status == "COMPLETE") (λ _. (tt, tt))
            (λ _.
              Says-leave {A = String × Option AmEnd} AmTurn
                (write_progress row (
                  heartbeat say error_text is_retryable validate_record cfg row w.queue.now cached
                    d.microservice))
                (text_or d.microservice cached, none) (tt, tt) w))

  after_ingest-Says :
      (x : String × Polled AmEnd)
      → Unit {0} × Ended AmResult status_last x.1
      → Says Stage4Tells (
          after_ingest say error_text is_retryable validate_record cfg row statuses status_last
            fetch get_dip_path probes dip_turns wait_last x)
  unfolding after_ingest
  after_ingest-Says (c, aborted) (u, e) = Says-pure Stage4Tells (refused stopped) (inl e)
  after_ingest-Says (c, timed_out) (u, e) =
      Says-leave Stage4Tells _ (refused ingest_status_timeout) e
  after_ingest-Says (c, finished failed) (u, e) = Says-leave Stage4Tells _ (refused am_failed) e
  after_ingest-Says (c, finished made) (u, e) = Says-then Stage4Tells _ _ (λ _. drift_check-Says)

  await_ingest-Says : Says Stage4Tells (
      await_ingest say error_text is_retryable validate_record cfg row statuses status_last fetch
        get_dip_path probes dip_turns wait_last)
  await_ingest-Says =
      Says-bind Stage4Tells (λ x. Unit {0} × Ended AmResult status_last x.1)
        (poll (check_ingest say error_text is_retryable validate_record cfg row) statuses
          status_last row.details.micro_service)
        (after_ingest say error_text is_retryable validate_record cfg row statuses status_last fetch
          get_dip_path probes dip_turns wait_last)
        (poll-Says (λ _. Unit {0}) AmResult (Asked statuses)
          (check_ingest say error_text is_retryable validate_record cfg row) check_ingest-Says
          statuses status_last (λ a asked. asked) row.details.micro_service tt)
        after_ingest-Says

  pub run-Says : Says Stage4Tells (
      run say error_text is_retryable validate_record cfg row statuses status_last fetch
        get_dip_path probes dip_turns wait_last)
  unfolding run
  run-Says =
      if-both {A = S Outcome} (Says Stage4Tells)
        (sip say error_text is_retryable validate_record cfg row == "")
        (λ _. Says-leave Stage4Tells _ (refused missing_sip_uuid) tt)
        (λ _.
          if-both {A = S Outcome} (Says Stage4Tells) (row.pipeline_state == "TRANSFER_COMPLETE")
            (λ _. Says-then Stage4Tells _ _ (λ _. await_ingest-Says))
            (λ p.
              if-both {A = S Outcome} (Says Stage4Tells)
                (row.pipeline_state == "INGEST_IN_PROGRESS") (λ _. await_ingest-Says)
                (λ q.
                  if-both {A = S Outcome} (Says Stage4Tells)
                    (row.pipeline_state == "INGEST_COMPLETE") (λ _. drift_check-Says)
                    (λ r. access_copy-Says (inr (p, q, r)) row.pipeline_state))))
