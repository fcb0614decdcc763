-- ===== src/Ingester/Stages/Tests.antt =====
-- The stages on concrete packages.
use repo_backend_v.Base.Table.{update_where}
use repo_backend_v.Ingester.Queue.Update.{
  update_queue, write_found, update_queue_txn, apply_update, write,
}
use repo_backend_v.Ingester.Stages.Text.{slice}
use repo_backend_v.Base.{
  ℕ, ◌+◌, String, Bool, true, false, ◌≡◌, refl, inr, Option, none, some, List, [], ◌∷◌, nat_eq,
  string_eq, arith, length, ◌<◌, ◌≤◌,
}
use repo_backend_v.Ingester.States.{info}
use repo_backend_v.Ingester.Queue.Store.{Row, ok}
use repo_backend_v.Ingester.Queue.Insert.{no_details}
use repo_backend_v.Ingester.Stages.World.{World, Object, get_copy, upsert_copy}
use repo_backend_v.Ingester.Stages.Frame.{Framed, Framed-refl}
use repo_backend_v.Ingester.Stages.Rules.{Settled, At}
use repo_backend_v.Ingester.Stages.AipStore.{
  Config, Source, Answer, replied, threw, Reply, failed, complete, record_failure, recorded_text,
  is_am_deleted_error, is_am_not_found_error, budget, backoff_ms, run, conclude, decide_failure,
  retry_or_fail,
}
use repo_backend_v.Ingester.Stages.AipFrame.{stage6_states, run-Framed}
use repo_backend_v.Ingester.Stages.AipExits.{exit_state, run-Exits}
use repo_backend_v.Ingester.Stages.AipAttempts.{calm, Leaves, Retried, GivenUp}
use repo_backend_v.Ingester.Stages.AipBudget.{
  record_failure-Retried, record_failure-GivenUp, all_pending, all_pending-bounded, prior,
}
use repo_backend_v.Ingester.Stages.AipCalls.{
  record_failure-lost, conclude-Copied, Copied, run-held, losing,
}
use repo_backend_v.Repository.AipStore.{
  Aip, blank, get_by_uuid, is_terminal_success, is_orphan, upsert_by_uuid,
}

abbrev defaults : Config
defaults = record {
  enabled = true;
  client_configured = true;
  max_attempts = 0;
  not_found_max_attempts = 0;
  retry_base_backoff_ms = 0;
  retry_max_backoff_ms = 0;
}

abbrev one_package : Row
one_package = record {
  id = 4;
  batch = "batch-3";
  package_name = "pkg-4";
  status = "AIP_STORE_PENDING";
  pipeline_state = "AIP_STORE_PENDING";
  severity = info;
  suggested_action = none;
  error = none;
  is_complete = false;
  sip_uuid = some "sip-4";
  details = no_details;
  last_poll_at = none;
  updated = 0;
}

abbrev object_of : Object
object_of = record { pid = "pid-4"; sip_uuid = "sip-4" }

abbrev world_with : List Aip → World
world_with copies = record {
  queue = record { rows = one_package ∷ []; events = []; next_id = 5; now = 1000; faults = [] };
  objects = object_of ∷ [];
  copies = copies;
  next_copy = 9;
  faults = [];
}

abbrev tried : ℕ → Option ℕ → Aip
tried attempts next_attempt_at = record (blank 8 "pid-4") {
  is_migrated = 7;
  attempts = attempts;
  next_attempt_at = next_attempt_at;
  message = some "COPY_FAILED";
}

abbrev http_text : Bool → ℕ → String
http_text use_duracloud status = "curation returned an error status"

abbrev base_name : String → String
base_name key = key

abbrev gateway_error : Reply
gateway_error = record {
  status = 502;
  is_ok = false;
  error = "Bad Gateway";
  key = "";
  from_duracloud = false;
}

abbrev good_reply : Reply
good_reply = record {
  status = 200;
  is_ok = true;
  error = "";
  key = "aip-4.7z";
  from_duracloud = false;
}

abbrev answering : Answer → Source → String → String → World → Answer × World
answering a src sip pid w = (a, w)

-- The defaults: five attempts, eight for a package that is not found; a minute, doubled up to half
-- an hour.
budgets_default :
    (budget defaults false ≡ 5)
    × (budget defaults true ≡ 8)
    × (backoff_ms defaults 1 ≡ 60000)
    × (backoff_ms defaults 3 ≡ 240000)
    × (backoff_ms defaults 7 ≡ 1800000)
unfolding budget backoff_ms
budgets_default = (refl, refl, refl, refl, refl)

patterns_seen :
    (is_am_deleted_error "AM status is deleted for this AIP" ≡ true)
    × (is_am_not_found_error "AIP 12 not found in AM Storage Service" ≡ true)
    × (is_am_not_found_error "not found in DuraCloud (not replicated yet?)" ≡ true)
    × (is_am_not_found_error "Bad Gateway" ≡ false)
unfolding is_am_deleted_error is_am_not_found_error
patterns_seen = (refl, refl, refl, refl)

gateway_alive : is_am_deleted_error (recorded_text "Bad Gateway") ≡ false
unfolding is_am_deleted_error slice
gateway_alive = refl

gateway_found : is_am_not_found_error (recorded_text "Bad Gateway") ≡ false
unfolding is_am_not_found_error slice
gateway_found = refl

below_five :
    (n : ℕ) → n < 5 → n < budget defaults (is_am_not_found_error (recorded_text "Bad Gateway"))
unfolding budget
below_five n h = rw gateway_found h

above_five :
    (n : ℕ) → 5 ≤ n → budget defaults (is_am_not_found_error (recorded_text "Bad Gateway")) ≤ n
unfolding budget
above_five n h = rw gateway_found h

run-Framed_example :
    Framed 4 stage6_states
      (world_with []).queue.rows
      (run defaults http_text base_name
        (answering (replied gateway_error))
        one_package
        (world_with [])).1.queue.rows
run-Framed_example =
    run-Framed one_package defaults http_text base_name (answering (replied gateway_error))
      (λ src sip pid w. Framed-refl 4 stage6_states w.queue.rows) (world_with [])

run-Exits_example :
    Settled 4 exit_state (
      run defaults http_text base_name (answering (replied good_reply)) one_package (world_with []))
run-Exits_example =
    run-Exits one_package defaults http_text base_name (answering (replied good_reply))
      (world_with [])

record_failure-Retried_example :
    let x =
      record_failure defaults one_package "pid-4" "Bad Gateway" false
        (calm (world_with (tried 2 none ∷ []))) in
    At 4 "AIP_STORE_PENDING" x.1
    × Leaves "pid-4"
        (failed 3 "AIP_STORE_PENDING")
        (Retried defaults one_package "pid-4" false
          (recorded_text "Bad Gateway")
          (get_by_uuid "pid-4" (tried 2 none ∷ []))
          1000)
        x
unfolding get_by_uuid
record_failure-Retried_example =
    record_failure-Retried defaults one_package "pid-4" false "Bad Gateway"
      (world_with (tried 2 none ∷ [])) gateway_alive (below_five 3 (omega arith))

record_failure-GivenUp_example :
    let x =
      record_failure defaults one_package "pid-4" "Bad Gateway" false
        (calm (world_with (tried 4 none ∷ []))) in
    At 4 "AIP_STORE_FAILED" x.1
    × Leaves "pid-4"
        (failed 5 "AIP_STORE_FAILED")
        (GivenUp defaults one_package "pid-4" false
          (recorded_text "Bad Gateway")
          (get_by_uuid "pid-4" (tried 4 none ∷ [])))
        x
unfolding get_by_uuid
record_failure-GivenUp_example =
    record_failure-GivenUp defaults one_package "pid-4" false "Bad Gateway"
      (world_with (tried 4 none ∷ [])) (inr (above_five 5 (omega arith)))

abbrev two_failures : List (String × ℕ)
two_failures = ("Bad Gateway", 0) ∷ ("Bad Gateway", 60000) ∷ []

two_pending : all_pending defaults one_package "pid-4" false two_failures (world_with []) ≡ true
unfolding all_pending record_failure is_am_deleted_error is_am_not_found_error slice budget
    get_by_uuid get_copy upsert_copy decide_failure retry_or_fail update_queue write_found
    upsert_by_uuid update_queue_txn apply_update update_where write
two_pending = refl

-- The default budgets are at most eight.
all_pending-bounded_example :
    prior defaults one_package "pid-4" false (world_with []) + length two_failures < 8
all_pending-bounded_example =
    all_pending-bounded defaults one_package "pid-4" false 8 (unfold budget in omega arith)
      (unfold budget in omega arith) two_failures (world_with [])
      (unfold get_by_uuid in omega arith) two_pending

record_failure-lost_example :
    let x = record_failure defaults one_package "pid-4" "Bad Gateway" false (
      losing defaults one_package "pid-4" false "Deadlock found" []
        (world_with (tried 2 none ∷ []))) in
    (x.0 ≡ ok (failed 3 "AIP_STORE_PENDING"))
    × At 4 "AIP_STORE_PENDING" x.1
    × (x.1.copies ≡ tried 2 none ∷ [])
unfolding get_by_uuid
record_failure-lost_example =
    record_failure-lost defaults one_package "pid-4" false "Bad Gateway" "Deadlock found" []
      (world_with (tried 2 none ∷ [])) gateway_alive (below_five 3 (omega arith))

conclude-Copied_example :
    (k : ℕ) × Leaves "pid-4" (complete k) (Copied defaults http_text base_name one_package) (
      conclude defaults http_text base_name
        (answering (replied good_reply))
        one_package
        "pid-4"
        false
        (replied good_reply)
        (calm (world_with (tried 2 none ∷ []))))
conclude-Copied_example =
    conclude-Copied defaults http_text base_name one_package (answering (replied good_reply))
      "pid-4" false good_reply (world_with (tried 2 none ∷ [])) refl refl

run-held_example :
    run defaults http_text base_name
      (answering (replied good_reply))
      one_package
      (world_with (tried 2 (some 2000) ∷ []))
    ≡ run defaults http_text base_name
        (answering (threw "ETIMEDOUT"))
        one_package
        (world_with (tried 2 (some 2000) ∷ []))
run-held_example =
    run-held defaults http_text base_name one_package (answering (replied good_reply))
      (answering (threw "ETIMEDOUT")) object_of (tried 2 (some 2000))
      (world_with (tried 2 (some 2000) ∷ [])) refl (unfold get_by_uuid in refl)
      (unfold is_terminal_success is_orphan in refl)
