-- ===== src/Ingester/Stages/AipExits.antt =====
-- Where stage 6 leaves its row: for each value that `run` returns, the state of the row.
use repo_backend_v.Base.{
  ℕ, ◌+◌, String, Bool, false, not, ◌&&◌, ◌||◌, ◌≡◌, refl, Option, none, some, ltb, leb,
  if◌then◌else◌, ◌==◌, string_eq, nat_eq, get_or, if-both,
}
use repo_backend_v.Ingester.Queue.Store.{Row}
use repo_backend_v.Ingester.Queue.Update.{Patch, to_status, target_state}
use repo_backend_v.Ingester.Stages.Text.{slice, text_or}
use repo_backend_v.Ingester.Stages.Rules.{Settled, Settled-continue, Settled-leave}
use repo_backend_v.Ingester.Stages.World.{World, S, resolve_repo_pid, get_copy, upsert_copy, ◌>>=◌}
use repo_backend_v.Ingester.Stages.AipStore.{
  Config, Source, Answer, aborted, threw, replied, Outcome, leave, record_failure, decide_failure,
  retry_or_fail, dead_letter, read_logged, upsert_logged, conclude, mark_started, make_copy,
  with_existing, with_pid, run, by_worker, is_am_deleted_error, is_am_not_found_error, budget,
  prior_attempts, is_2xx, success_patch, is_flagged, source_of, is_unset, failure_patch, close,
  close_with, failed, complete, stopped, skipped, Skip, aip_store_disabled, client_not_configured,
  no_sip_uuid, no_repo_pid, already_copied, orphan, backoff, answered, failure_message, backoff_ms,
}
use repo_backend_v.Repository.AipStore.{
  Aip, is_terminal_success, is_orphan, waits, am_not_found_code, ingest_copy_failed_code,
}

-- The state that a return stands for; none where the stage leaves the row as it is.
abbrev pub exit_state : Outcome → Option String
exit_state (skipped aip_store_disabled) = some "COMPLETE"
exit_state (skipped client_not_configured) = some "COMPLETE"
exit_state (skipped no_sip_uuid) = some "COMPLETE"
exit_state (skipped no_repo_pid) = some "COMPLETE"
exit_state (skipped already_copied) = some "AIP_STORE_COMPLETE"
exit_state (skipped orphan) = some "AIP_STORE_FAILED"
exit_state (skipped backoff) = none
exit_state stopped = none
exit_state (failed attempts final_state) = some final_state
exit_state (complete aip_store_id) = some "AIP_STORE_COMPLETE"

module _ (row : Row) where
  abbrev Exits : S Outcome → Type 0
  Exits m = (w : World) → Settled row.id exit_state (m w)

  leave-Exits :
      (p : Patch) (step : String) (out : Outcome) (s : String)
      → target_state p ≡ some s
      → exit_state out ≡ some s
      → Exits (leave row p step out)
  leave-Exits p step out s e f w = Settled-leave row.id exit_state p (by_worker step) s out e f w

  then-Exits :
      {B : Type 0} (m : S B) (k : B → S Outcome) → ((b : B) → Exits (k b)) → Exits (m >>= k)
  then-Exits m k h w = Settled-continue row.id exit_state k (λ b v. h b v) (m w)

  module _ (cfg : Config) (pid text : String) (use_duracloud : Bool) where
    dead_letter-Exits :
        (attempts : ℕ) (message step : String)
        → Exits (dead_letter cfg row pid text use_duracloud attempts message step)
    unfolding dead_letter
    dead_letter-Exits attempts message step =
        then-Exits
          (upsert_logged pid (failure_patch row am_not_found_code attempts none text message))
          (λ _.
            leave row (close_with "AIP_STORE_FAILED" text) step
              (failed attempts "AIP_STORE_FAILED"))
          (λ _.
            leave-Exits (close_with "AIP_STORE_FAILED" text) step
              (failed attempts "AIP_STORE_FAILED") "AIP_STORE_FAILED" refl refl)

    retry_or_fail-Exits :
        (not_found : Bool) (attempts : ℕ)
        → Exits (retry_or_fail cfg row pid text use_duracloud not_found attempts)
    unfolding retry_or_fail
    retry_or_fail-Exits not_found attempts w =
        let retrying : Bool = ltb attempts (budget cfg not_found) in
        let final_state : String = if retrying then "AIP_STORE_PENDING" else "AIP_STORE_FAILED" in
        let patch : Aip → Aip =
          failure_patch row ingest_copy_failed_code attempts
            (if retrying then some (w.queue.now + backoff_ms cfg attempts) else none) text
            (failure_message use_duracloud retrying not_found) in
        let q : Patch = record (to_status final_state) {
          is_complete = some false;
          error = some (some text);
        } in
        let step : String = if not_found then "am_not_found_retry" else "failed" in
        then-Exits (upsert_logged pid patch) (λ _. leave row q step (failed attempts final_state))
          (λ _. leave-Exits q step (failed attempts final_state) final_state refl refl) w

    decide_failure-Exits :
        (existing : Option Aip) → Exits (decide_failure cfg row pid text use_duracloud existing)
    unfolding decide_failure
    decide_failure-Exits existing =
        if-both Exits (is_am_deleted_error text) (λ _. dead_letter-Exits _ _ _)
          (λ _.
            if-both Exits
              (is_am_not_found_error text
                && leb (budget cfg (is_am_not_found_error text)) (prior_attempts existing + 1))
              (λ _. dead_letter-Exits _ _ _) (λ _. retry_or_fail-Exits _ _))

  pub record_failure-Exits :
      (cfg : Config) (pid error_text : String) (use_duracloud : Bool)
      → Exits (record_failure cfg row pid error_text use_duracloud)
  unfolding record_failure
  record_failure-Exits cfg pid error_text use_duracloud =
      let text : String = slice 1000 (text_or error_text "unknown error") in
      then-Exits (read_logged pid) (decide_failure cfg row pid text use_duracloud)
        (decide_failure-Exits cfg pid text use_duracloud)

  module _ (cfg : Config) (http_text : Bool → ℕ → String) (base_name : String → String)
      (copy : Source → String → String → World → Answer × World) where
    conclude-Exits :
        (pid : String) (use_duracloud : Bool) (a : Answer)
        → Exits (conclude cfg http_text base_name copy row pid use_duracloud a)
    unfolding conclude
    conclude-Exits pid use_duracloud aborted w = tt
    conclude-Exits pid use_duracloud (threw error_text) w =
        record_failure-Exits cfg pid error_text use_duracloud w
    conclude-Exits pid use_duracloud (replied r) w =
        let text : String = text_or r.error (http_text use_duracloud r.status) in
        if-both Exits (not (is_2xx r.status) || not r.is_ok)
          (λ _. record_failure-Exits cfg pid text use_duracloud)
          (λ _.
            then-Exits (upsert_copy pid (success_patch row use_duracloud r base_name))
              (λ u. leave row (close "AIP_STORE_COMPLETE") "complete" (complete u.id))
              (λ u.
                leave-Exits (close "AIP_STORE_COMPLETE") "complete" (complete u.id)
                  "AIP_STORE_COMPLETE" refl refl))
          w

    make_copy-Exits :
        (pid : String) (existing : Option Aip)
        → Exits (make_copy cfg http_text base_name copy row pid existing)
    unfolding make_copy
    make_copy-Exits pid existing =
        then-Exits (mark_started cfg http_text base_name copy row)
          (λ _ w. answered cfg http_text base_name copy row pid (is_flagged existing) (
            copy (source_of cfg http_text base_name copy row (is_flagged existing))
              (get_or row.sip_uuid "") pid w))
          (λ _ w.
            let x : Answer × World =
              copy (source_of cfg http_text base_name copy row (is_flagged existing))
                (get_or row.sip_uuid "") pid w in
            conclude-Exits pid (is_flagged existing) x.0 x.1)

    with_existing-Exits :
        (pid : String) (existing : Option Aip)
        → Exits (with_existing cfg http_text base_name copy row pid existing)
    unfolding with_existing
    with_existing-Exits pid none w = make_copy-Exits pid none w
    with_existing-Exits pid (some r) w =
        if-both (Settled row.id exit_state) (is_terminal_success r)
          (λ _.
            leave-Exits (close "AIP_STORE_COMPLETE") _ (skipped already_copied) "AIP_STORE_COMPLETE"
              refl refl w)
          (λ _.
            if-both (Settled row.id exit_state) (is_orphan r)
              (λ _.
                leave-Exits (close_with "AIP_STORE_FAILED" _) _ (skipped orphan) "AIP_STORE_FAILED"
                  refl refl w)
              (λ _.
                if-both (Settled row.id exit_state) (waits w.queue.now r.next_attempt_at) (λ _. tt)
                  (λ _. make_copy-Exits pid (some r) w)))

    drained-Exits :
        (step : String) (s : Skip)
        → exit_state (skipped s) ≡ some "COMPLETE"
        → Exits (leave row (close "COMPLETE") step (skipped s))
    drained-Exits step s e = leave-Exits (close "COMPLETE") step (skipped s) "COMPLETE" refl e

    with_pid-Exits :
        (found : Option String) → Exits (with_pid cfg http_text base_name copy row found)
    with_pid-Exits none = drained-Exits _ no_repo_pid refl
    with_pid-Exits (some pid) =
        if-both Exits (pid == "") (λ _. drained-Exits _ no_repo_pid refl)
          (λ _.
            then-Exits (get_copy pid) (with_existing cfg http_text base_name copy row pid)
              (with_existing-Exits pid))

    -- Where a run of stage 6 returns, every row of its id is in the state that the return stands for:
    -- COMPLETE for a copy that is off or has no package to copy, AIP_STORE_COMPLETE for one that is
    -- made or was made before, AIP_STORE_FAILED for an orphan, and the final state of a failure; the
    -- statement is empty for a wait, for an abort and for an error that the run throws.
    pub run-Exits : (w : World) → Settled row.id exit_state (run cfg http_text base_name copy row w)
    unfolding run
    run-Exits =
        if-both Exits (not cfg.enabled) (λ _. drained-Exits _ aip_store_disabled refl)
          (λ _.
            if-both Exits (not cfg.client_configured)
              (λ _. drained-Exits _ client_not_configured refl)
              (λ _.
                if-both Exits (is_unset row.sip_uuid) (λ _. drained-Exits _ no_sip_uuid refl)
                  (λ _.
                    then-Exits (resolve_repo_pid (get_or row.sip_uuid ""))
                      (with_pid cfg http_text base_name copy row) with_pid-Exits)))
