-- ===== src/Ingester/Stages/AipFrame.antt =====
-- Stage 6 writes only its own row, and only its own states; where it returns, the row is where the
-- return says.
use repo_backend_v.Base.{
  ℕ, ◌+◌, String, Bool, true, false, not, ◌&&◌, ◌||◌, ◌≡◌, refl, Option, none, some, List, [], ◌∷◌,
  ltb, leb, if◌then◌else◌, ◌==◌, string_eq, nat_eq, get_or, contains, if-both, find,
}
use repo_backend_v.Ingester.Queue.Store.{Row, ok}
use repo_backend_v.Ingester.Queue.Update.{Patch, to_status, target_state, update_queue}
use repo_backend_v.Ingester.Queue.Select.{by_id}
use repo_backend_v.Ingester.Stages.Text.{slice, text_or}
use repo_backend_v.Ingester.Stages.Frame.{Into, Framed, Framed-refl, Framed-trans}
use repo_backend_v.Ingester.Stages.Rules.{
  Safe, FramedTo, Safe-pure, Safe->>=, Safe-catch, Safe-update_queue, Safe-statement,
}
use repo_backend_v.Ingester.Stages.World.{
  World, S, ◌>>=◌, pure, on_queue, resolve_repo_pid, get_copy, upsert_copy, store_copies, pid_of,
}
use repo_backend_v.Ingester.Stages.AipStore.{
  Config, Source, Answer, aborted, threw, replied, Outcome, leave, record_failure, decide_failure,
  retry_or_fail, dead_letter, read_logged, upsert_logged, conclude, mark_started, started,
  make_copy, with_existing, with_pid, run, by_worker, is_am_deleted_error, is_am_not_found_error,
  budget, prior_attempts, is_2xx, success_patch, is_flagged, source_of, is_unset, failure_patch,
  close, close_with, failed, complete, stopped, skipped, Skip, answered, already_copied, orphan,
  orphan_text, failure_message, backoff_ms,
}
use repo_backend_v.Repository.AipStore.{
  Aip, is_terminal_success, is_orphan, waits, get_by_uuid, upsert_by_uuid, am_not_found_code,
  ingest_copy_failed_code,
}

-- The states that stage 6 sets.
abbrev pub stage6_states : List String
stage6_states =
    "AIP_STORE_IN_PROGRESS" ∷ "AIP_STORE_PENDING" ∷ "AIP_STORE_COMPLETE" ∷ "AIP_STORE_FAILED"
    ∷ "COMPLETE" ∷ []

module _ (row : Row) where
  abbrev Kept : {A : Type 0} → S A → Type 0
  Kept m = Safe row.id stage6_states m

  pure-Kept : {A : Type 0} (a : A) → Kept (pure a)
  pure-Kept a = Safe-pure row.id stage6_states (ok a)

  bind-Kept :
      {A B : Type 0} (m : S A) (k : A → S B) → Kept m → ((a : A) → Kept (k a)) → Kept (m >>= k)
  bind-Kept = Safe->>= row.id stage6_states

  leave-Kept :
      (p : Patch) (step : String) (out : Outcome)
      → Into stage6_states (target_state p)
      → Kept (leave row p step out)
  leave-Kept p step out into =
      bind-Kept (on_queue (update_queue (by_id row.id) p (by_worker step))) (λ _. pure out)
        (Safe-update_queue row.id stage6_states p (by_worker step) into) (λ _. pure-Kept out)

  upsert_copy-Kept : (pid : String) (patch : Aip → Aip) → Kept (upsert_copy pid patch)
  unfolding upsert_copy
  upsert_copy-Kept pid patch =
      Safe-statement row.id stage6_states
        (λ w. store_copies (upsert_by_uuid w.next_copy pid patch w.copies) w)
        (λ w. Framed-refl row.id stage6_states w.queue.rows)

  get_copy-Kept : (pid : String) → Kept (get_copy pid)
  unfolding get_copy
  get_copy-Kept pid =
      Safe-statement row.id stage6_states (λ w. (ok (get_by_uuid pid w.copies), w))
        (λ w. Framed-refl row.id stage6_states w.queue.rows)

  resolve_repo_pid-Kept : (sip : String) → Kept (resolve_repo_pid sip)
  unfolding resolve_repo_pid
  resolve_repo_pid-Kept sip =
      Safe-statement row.id stage6_states
        (λ w. (ok (pid_of (find (λ o. o.sip_uuid == sip) w.objects)), w))
        (λ w. Framed-refl row.id stage6_states w.queue.rows)

  upsert_logged-Kept : (pid : String) (patch : Aip → Aip) → Kept (upsert_logged pid patch)
  upsert_logged-Kept pid patch =
      Safe-catch row.id stage6_states (upsert_copy pid patch >>= λ _. pure tt) (λ _. pure tt)
        (bind-Kept (upsert_copy pid patch) (λ _. pure tt) (upsert_copy-Kept pid patch)
          (λ _. pure-Kept tt))
        (λ _. pure-Kept tt)

  module _ (cfg : Config) (pid text : String) (use_duracloud : Bool) where
    dead_letter-Kept :
        (attempts : ℕ) (message step : String)
        → Kept (dead_letter cfg row pid text use_duracloud attempts message step)
    unfolding dead_letter
    dead_letter-Kept attempts message step =
        let patch : Aip → Aip = failure_patch row am_not_found_code attempts none text message in
        let done : S Outcome =
          leave row (close_with "AIP_STORE_FAILED" text) step
            (failed attempts "AIP_STORE_FAILED") in
        bind-Kept (upsert_logged pid patch) (λ _. done) (upsert_logged-Kept pid patch)
          (λ _.
            leave-Kept (close_with "AIP_STORE_FAILED" text) step
              (failed attempts "AIP_STORE_FAILED") (unfold contains in refl))

    retry_or_fail-Kept :
        (not_found : Bool) (attempts : ℕ)
        → Kept (retry_or_fail cfg row pid text use_duracloud not_found attempts)
    unfolding retry_or_fail
    retry_or_fail-Kept not_found attempts w =
        let retrying : Bool = ltb attempts (budget cfg not_found) in
        let final_state : String = if retrying then "AIP_STORE_PENDING" else "AIP_STORE_FAILED" in
        let patch : Aip → Aip =
          failure_patch row ingest_copy_failed_code attempts
            (if retrying then some (w.queue.now + backoff_ms cfg attempts) else none) text
            (failure_message use_duracloud retrying not_found) in
        let q : Patch = record (to_status final_state) {
          is_complete = some false;
          error = some (some text);
        } in
        let step : String = if not_found then "am_not_found_retry" else "failed" in
        bind-Kept (upsert_logged pid patch) (λ _. leave row q step (failed attempts final_state))
          (upsert_logged-Kept pid patch)
          (λ _. leave-Kept q step (failed attempts final_state) (
            if-both (λ s. contains stage6_states s ≡ true) retrying (λ _. unfold contains in refl)
              (λ _. unfold contains in refl)))
          w

    decide_failure-Kept :
        (existing : Option Aip) → Kept (decide_failure cfg row pid text use_duracloud existing)
    unfolding decide_failure
    decide_failure-Kept existing =
        if-both Kept (is_am_deleted_error text) (λ _. dead_letter-Kept _ _ _)
          (λ _.
            if-both Kept
              (is_am_not_found_error text
                && leb (budget cfg (is_am_not_found_error text)) (prior_attempts existing + 1))
              (λ _. dead_letter-Kept _ _ _) (λ _. retry_or_fail-Kept _ _))

  record_failure-Kept :
      (cfg : Config) (pid error_text : String) (use_duracloud : Bool)
      → Kept (record_failure cfg row pid error_text use_duracloud)
  unfolding record_failure
  record_failure-Kept cfg pid error_text use_duracloud =
      let text : String = slice 1000 (text_or error_text "unknown error") in
      bind-Kept (read_logged pid) (decide_failure cfg row pid text use_duracloud)
        (Safe-catch row.id stage6_states (get_copy pid) (λ _. pure none) (get_copy-Kept pid)
          (λ _. pure-Kept {A = Option Aip} none))
        (decide_failure-Kept cfg pid text use_duracloud)

  module _ (cfg : Config) (http_text : Bool → ℕ → String) (base_name : String → String)
      (copy : Source → String → String → World → Answer × World)
      (others : (src : Source) (sip pid : String) (w : World)
        → Framed row.id stage6_states w.queue.rows (copy src sip pid w).1.queue.rows) where
    conclude-Kept :
        (pid : String) (use_duracloud : Bool) (a : Answer)
        → Kept (conclude cfg http_text base_name copy row pid use_duracloud a)
    unfolding conclude
    conclude-Kept pid use_duracloud aborted = pure-Kept stopped
    conclude-Kept pid use_duracloud (threw error_text) =
        record_failure-Kept cfg pid error_text use_duracloud
    conclude-Kept pid use_duracloud (replied r) =
        if-both Kept (not (is_2xx r.status) || not r.is_ok)
          (λ _.
            record_failure-Kept cfg pid (text_or r.error (http_text use_duracloud r.status))
              use_duracloud)
          (λ _.
            bind-Kept (upsert_copy pid (success_patch row use_duracloud r base_name))
              (λ u. leave row (close "AIP_STORE_COMPLETE") "complete" (complete u.id))
              (upsert_copy-Kept pid _)
              (λ u.
                leave-Kept (close "AIP_STORE_COMPLETE") "complete" (complete u.id)
                  (unfold contains in refl)))

    mark_started-Kept : Kept (mark_started cfg http_text base_name copy row)
    unfolding mark_started
    mark_started-Kept =
        if-both Kept (row.pipeline_state == "AIP_STORE_IN_PROGRESS") (λ _. pure-Kept tt)
          (λ _.
            bind-Kept
              (on_queue (
                update_queue (by_id row.id) (started cfg http_text base_name copy row)
                  (by_worker "started")))
              (λ _. pure tt)
              (Safe-update_queue row.id stage6_states _ (by_worker "started")
                (unfold contains in refl))
              (λ _. pure-Kept tt))

    make_copy-Kept :
        (pid : String) (existing : Option Aip)
        → Kept (make_copy cfg http_text base_name copy row pid existing)
    unfolding make_copy
    make_copy-Kept pid existing =
        bind-Kept (mark_started cfg http_text base_name copy row)
          (λ _ w. answered cfg http_text base_name copy row pid (is_flagged existing) (
            copy (source_of cfg http_text base_name copy row (is_flagged existing))
              (get_or row.sip_uuid "") pid w))
          mark_started-Kept
          (λ _ w.
            let x : Answer × World =
              copy (source_of cfg http_text base_name copy row (is_flagged existing))
                (get_or row.sip_uuid "") pid w in
            Framed-trans row.id stage6_states w.queue.rows x.1.queue.rows _ (others _ _ _ w)
              (conclude-Kept pid (is_flagged existing) x.0 x.1))

    with_existing-Kept :
        (pid : String) (existing : Option Aip)
        → Kept (with_existing cfg http_text base_name copy row pid existing)
    unfolding with_existing
    with_existing-Kept pid none w = make_copy-Kept pid none w
    with_existing-Kept pid (some r) w =
        if-both (FramedTo row.id stage6_states w) (is_terminal_success r)
          (λ _.
            leave-Kept (close "AIP_STORE_COMPLETE") "already_copied" (skipped already_copied)
              (unfold contains in refl) w)
          (λ _.
            if-both (FramedTo row.id stage6_states w) (is_orphan r)
              (λ _.
                leave-Kept (close_with "AIP_STORE_FAILED" orphan_text) "skipped_orphan"
                  (skipped orphan) (unfold contains in refl) w)
              (λ _.
                if-both (FramedTo row.id stage6_states w) (waits w.queue.now r.next_attempt_at)
                  (λ _. Framed-refl row.id stage6_states w.queue.rows)
                  (λ _. make_copy-Kept pid (some r) w)))

    drained-Kept : (step : String) (s : Skip) → Kept (leave row (close "COMPLETE") step (skipped s))
    drained-Kept step s = leave-Kept (close "COMPLETE") step (skipped s) (unfold contains in refl)

    with_pid-Kept : (found : Option String) → Kept (with_pid cfg http_text base_name copy row found)
    with_pid-Kept none = drained-Kept _ _
    with_pid-Kept (some pid) =
        if-both Kept (pid == "") (λ _. drained-Kept _ _)
          (λ _.
            bind-Kept (get_copy pid) (with_existing cfg http_text base_name copy row pid)
              (get_copy-Kept pid) (with_existing-Kept pid))

    -- Where whatever else runs during the copy keeps to it too, a run of stage 6 changes no row but
    -- its own, keeps the ids and their order, and moves its own row only to states of the stage.
    pub run-Framed :
        (w : World)
        → Framed row.id stage6_states w.queue.rows
            (run cfg http_text base_name copy row w).1.queue.rows
    unfolding run
    run-Framed =
        if-both Kept (not cfg.enabled) (λ _. drained-Kept _ _)
          (λ _.
            if-both Kept (not cfg.client_configured) (λ _. drained-Kept _ _)
              (λ _.
                if-both Kept (is_unset row.sip_uuid) (λ _. drained-Kept _ _)
                  (λ _.
                    bind-Kept (resolve_repo_pid (get_or row.sip_uuid ""))
                      (with_pid cfg http_text base_name copy row)
                      (resolve_repo_pid-Kept (get_or row.sip_uuid "")) with_pid-Kept)))
