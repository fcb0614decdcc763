-- ===== src/Ingester/Stages/UploadEnds.antt =====
-- Stage 2 as a whole: the rows that it writes and the state that each return stands for.
use repo_backend_v.Ingester.Stages.Says.{Told}
use repo_backend_v.Ingester.Stages.UploadSays.{Stage2Tells, run-Says}
use repo_backend_v.Base.{
  ℕ, String, not, ◌&&◌, ◌||◌, refl, Option, none, some, List, [], ◌∷◌, ltb, contains, ◌==◌,
  string_eq, nat_eq, if◌then◌else◌, if-both,
}
use repo_backend_v.Ingester.Queue.Store.{Row}
use repo_backend_v.Ingester.Queue.Update.{to_status}
use repo_backend_v.Ingester.Stages.Text.{text_or}
use repo_backend_v.Ingester.Stages.Rules.{FramedTo, Settled}
use repo_backend_v.Ingester.Stages.World.{World, S, ◌>>=◌, pure}
use repo_backend_v.Ingester.Stages.Steps.{
  Remote, call, write_row, write_progress, Polled, finished, timed_out, aborted, Interrupt, poll,
}
use repo_backend_v.Ingester.Stages.Ends.{
  Own, Apart, AllApart, Own-pure, Own-bind, Own-call, Own-write, Own-progress, Own-poll, Good,
  Good-bind, Good-pure, Good-leave, Good-halt,
}
use repo_backend_v.Ingester.Stages.Upload.{
  package_file_count_failed, qa_move_failed, stopped, upload_timeout, sftp_upload_failed, Outcome,
  succeeded, refused, Counted, Status, status_threw, replied, Seen, Result', upload_failed,
  upload_done, pick_bytes, track, progress, check, finish, moved, uploading, expected_count,
  with_count, run, verdict, pick_uploaded, is_last,
}

abbrev pub stage2_states : List String
stage2_states = "UPLOADING" ∷ "UPLOAD_COMPLETE" ∷ "UPLOAD_TIMEOUT" ∷ "INGEST_HALTED" ∷ []

abbrev pub stage2_exit : Outcome → Option String
stage2_exit (succeeded a) = some "UPLOAD_COMPLETE"
stage2_exit (refused package_file_count_failed) = some "INGEST_HALTED"
stage2_exit (refused qa_move_failed) = some "INGEST_HALTED"
stage2_exit (refused stopped) = none
stage2_exit (refused upload_timeout) = some "UPLOAD_TIMEOUT"
stage2_exit (refused sftp_upload_failed) = some "INGEST_HALTED"

module _ (http_text : ℕ → String) (row : Row) where
  abbrev Kept : {A : Type 0} → S A → Type 0
  Kept m = Own row stage2_states m

  abbrev Ends : S Outcome → Type 0
  Ends m = Good row stage2_states stage2_exit m

  track-Kept : (s : Seen) (b : Option (ℕ × ℕ)) → Kept (track http_text row s b)
  unfolding track
  track-Kept s none = Own-pure row stage2_states s
  track-Kept s (some (n, total)) =
      let s' : Seen = record {
        last_bytes = some n;
        total_bytes = if ltb 0 total then total else s.total_bytes;
      } in
      if-both {A = S Seen} Kept
        (not (is_last n s.last_bytes) || ltb 0 total && not (total == s.total_bytes))
        (λ _.
          Own-bind row stage2_states (write_progress row (progress http_text row s')) (λ _. pure s')
            (Own-progress row stage2_states (progress http_text row s') refl)
            (λ _. Own-pure row stage2_states s'))
        (λ _. Own-pure row stage2_states s)

  abbrev quiet : (s : Seen) (o : Option Result') → Kept (pure {A = Seen × Option Result'} (s, o))
  quiet s o = Own-pure row stage2_states {A = Seen × Option Result'} (s, o)

  check-Kept : (expected : ℕ) (s : Seen) (a : Status) → Kept (check http_text row expected s a)
  unfolding check
  check-Kept expected s status_threw = quiet s none
  check-Kept expected s (replied status none) = quiet s none
  check-Kept expected s (replied status (some d)) =
      if-both {A = S (Seen × Option Result')} Kept (not (status == 200)) (λ _. quiet s none)
        (λ _.
          if-both {A = S (Seen × Option Result')} Kept (d.message == "upload_failed")
            (λ _. quiet s (some (upload_failed d.error)))
            (λ _.
              Own-bind row stage2_states (track http_text row s (pick_bytes d))
                (λ s'. pure (s', verdict http_text row expected (pick_uploaded d)))
                (track-Kept s (pick_bytes d))
                (λ s'. quiet s' (verdict http_text row expected (pick_uploaded d)))))

  finish-Ends : (x : Seen × Polled Result') → Ends (finish http_text row x)
  unfolding finish
  finish-Ends (s, aborted) = Good-pure row stage2_states stage2_exit (refused stopped) refl
  finish-Ends (s, timed_out) =
      Good-halt row stage2_states stage2_exit "upload" "UPLOAD_TIMEOUT" "poll_exhausted" ""
        (refused upload_timeout) (unfold contains in refl) refl
  finish-Ends (s, finished (upload_failed error)) =
      Good-halt row stage2_states stage2_exit "upload" "INGEST_HALTED" "sftp_upload_failed"
        (text_or error "sftp upload failed") (refused sftp_upload_failed) (unfold contains in refl)
        refl
  finish-Ends (s, finished (upload_done a)) =
      Good-leave row stage2_states stage2_exit (to_status "UPLOAD_COMPLETE") "upload" "complete"
        "UPLOAD_COMPLETE" (succeeded a) refl (unfold contains in refl) refl

  module _ (count_files : Remote Counted) (move : Remote (Option String))
      (polls : List (Remote Status)) (last : Interrupt)
      (counting : Apart row stage2_states count_files) (moving : Apart row stage2_states move)
      (polling : AllApart row stage2_states polls) where
    moved-Ends :
        (expected : ℕ) (e : Option String)
        → Ends (moved http_text row count_files move polls last expected e)
    unfolding moved
    moved-Ends expected (some message) =
        Good-halt row stage2_states stage2_exit "upload" "INGEST_HALTED" "qa_move_failed" message
          (refused qa_move_failed) (unfold contains in refl) refl
    moved-Ends expected none =
        Good-bind row stage2_states stage2_exit
          (poll (check http_text row expected) polls last
            (record { last_bytes = none; total_bytes = 0 }))
          (finish http_text row)
          (Own-poll row stage2_states (check http_text row expected) (check-Kept expected) polls
            last polling (record { last_bytes = none; total_bytes = 0 }))
          finish-Ends

    with_count-Ends :
        (c : Option ℕ × String) → Ends (with_count http_text row count_files move polls last c)
    unfolding with_count
    with_count-Ends (none, message) =
        Good-halt row stage2_states stage2_exit "upload" "INGEST_HALTED" "package_file_count_failed"
          message (refused package_file_count_failed) (unfold contains in refl) refl
    with_count-Ends (some expected, message) =
        Good-bind row stage2_states stage2_exit
          (write_row row (uploading http_text row count_files move polls last expected) "upload"
            "started")
          (λ _. call move >>= moved http_text row count_files move polls last expected)
          (Own-write row stage2_states
            (uploading http_text row count_files move polls last expected) "upload" "started"
            (unfold contains in refl))
          (λ _.
            Good-bind row stage2_states stage2_exit (call move)
              (moved http_text row count_files move polls last expected)
              (Own-call row stage2_states move moving) (moved-Ends expected))

    run-Ends : Ends (run http_text row count_files move polls last)
    unfolding run
    run-Ends =
        Good-bind row stage2_states stage2_exit (call count_files)
          (λ c.
            with_count http_text row count_files move polls last
              (expected_count http_text row count_files move polls last c))
          (Own-call row stage2_states count_files counting)
          (λ c. with_count-Ends (expected_count http_text row count_files move polls last c))

    -- Where whatever runs during the calls keeps to it too, a run of stage 2 changes no row but its
    -- own, moves that only to states of the stage, and leaves it, where it returns, in UPLOAD_COMPLETE
    -- only where a status of the upload reported that all is there, or at least as many files as the QA
    -- service had counted; in UPLOAD_TIMEOUT only at the deadline; and in INGEST_HALTED for a count or a
    -- move that failed, or an upload that was reported as failed. Only an abort leaves it anywhere in the
    -- stage.
    pub upload-Ends :
        (w : World)
        → let x = run http_text row count_files move polls last w in
          FramedTo row.id stage2_states w x
          × Settled row.id stage2_exit x
          × Told (Stage2Tells http_text row count_files move polls last) x
    upload-Ends w =
        let ends = run-Ends w in
        (ends.0, ends.1, run-Says http_text row count_files move polls last w)
