-- ===== src/Ingester/Controller.antt =====
-- ingester/controller.js: the staff actions that cancel, reset or retry a row of the ingest queue. The
-- id of a request is what parseInt gives, none where it gives no number above zero.
pub mod Cancels
pub mod Retries
mod Tests
use text.Mathlib.Text.{starts_with}
use repo_backend_v.Base.{
  ℕ, ◌+◌, String, Bool, true, false, not, ◌||◌, Option, none, some, List, [], ◌∷◌, if◌then◌else◌,
  ◌==◌, string_eq, contains, any, length,
}
use repo_backend_v.Ingester.States.{available_actions, offers, cancellable_states}
use repo_backend_v.Ingester.Queue.Store.{
  Row, Db, Result, Error, validation, not_found, forbidden, object, M, pure, throw, continue, ◌>>=◌,
}
use repo_backend_v.Ingester.Queue.Update.{Patch, to_status, Opts, Updated, update_queue}
use repo_backend_v.Ingester.Queue.Select.{by_id, get_queue_row, Filters, no_filters, list_queue}
use repo_backend_v.Ingester.Queue.Cancel.{Cancelled, already_terminal, done, cancel}
use repo_backend_v.Ingester.Worker.{Worker, cancel_row as abort_row}

abbrev pub found_row : ℕ → Option Row → M Row
found_row id none db = throw (not_found id) db
found_row id (some row) db = pure row db

-- The first lines of every handler.
unfoldable pub require_row : Option ℕ → M Row
require_row none db = throw (validation "id must be a positive integer") db
require_row (some id) db = found_row id (get_queue_row (by_id id) db) db

abbrev pub staff_opts : String → String → Row → Opts
staff_opts actor action row = record {
  actor = actor;
  event_type = "staff_action";
  payload = some (object (("action", action) ∷ ("from", row.pipeline_state) ∷ []));
}

-- A row action that the dashboard offers for the row's state, as one update.
unfoldable pub act : String → Patch → String → Row → M Updated
act action data' actor row =
    if offers (available_actions row.pipeline_state none) action
    then update_queue (by_id row.id) data' (staff_opts actor action row)
    else throw (forbidden row.pipeline_state)

unfoldable pub reset_row : String → Option ℕ → M Updated
unfolding act require_row
reset_row actor id = require_row id >>= act "reset" (to_status "PENDING") actor

abbrev pub retry_patch : Patch
retry_patch = record (to_status "WAITING_FOR_DURACLOUD") {
  error = some none;
  last_poll_at = some none;
}

unfoldable pub retry_access_copy : String → Option ℕ → M Updated
unfolding act require_row
retry_access_copy actor id = require_row id >>= act "retry_access_copy" retry_patch actor

pub data CancelReply : Type 0 where
  conflict : (current_state : String) → CancelReply
  cancelled : (affected : ℕ) (was_running : Bool) (prev_state : String) → CancelReply

abbrev pub reply : Bool → Cancelled → CancelReply
reply was_running (already_terminal state) = conflict state
reply was_running (done affected prev_state) = cancelled affected was_running prev_state

-- The worker that the process runs, if any.
abbrev pub signal : Option Worker → ℕ → Bool
signal none id = false
signal (some w) id = abort_row id w

-- The handler has read the row when `cancel` reads it once more: `between` is what others write to the
-- database meanwhile.
abbrev pub cancel_found_row : Option Worker → (Db → Db) → String → String → Row → M CancelReply
cancel_found_row worker between actor reason row db =
    (cancel row.id actor reason >>= λ c. pure (reply (signal worker row.id) c)) (between db)

unfoldable pub cancel_live : Option Worker → (Db → Db) → String → String → Row → M CancelReply
cancel_live worker between actor reason row =
    if contains cancellable_states row.pipeline_state
    then cancel_found_row worker between actor reason row
    else throw (forbidden row.pipeline_state)

unfoldable pub cancel_row : Option Worker → (Db → Db) → String → String → Option ℕ → M CancelReply
unfolding cancel_live require_row
cancel_row worker between actor reason id =
    require_row id >>= cancel_live worker between actor reason

pub record Summary : Type 0 where
  pub total_open : ℕ
  pub cancelled : ℕ
  pub was_running : ℕ
  pub already_halted : ℕ
  pub skipped_other : ℕ

abbrev one_if : Bool → ℕ
one_if true = 1
one_if false = 0

abbrev pub is_rolled_back_by : String → Bool
is_rolled_back_by action = starts_with "rollback" action || action == "reset"

abbrev pub skip_row : Row → Summary → Summary
skip_row row s =
    if any is_rolled_back_by (available_actions row.pipeline_state none)
    then record s { already_halted = s.already_halted + 1 }
    else record s { skipped_other = s.skipped_other + 1 }

abbrev pub tally : Bool → Cancelled → Summary → Summary
tally running (already_terminal state) s = record s {
  was_running = s.was_running + one_if running;
  skipped_other = s.skipped_other + 1;
}
tally running (done affected prev_state) s = record s {
  was_running = s.was_running + one_if running;
  cancelled = s.cancelled + 1;
}

-- The loop over the open rows of the batch.
unfoldable pub cancel_each : Option Worker → String → String → List Row → Summary → M Summary
cancel_each worker actor reason [] s db = pure s db
cancel_each worker actor reason (row ∷ rows) s db =
    let passed_over = cancel_each worker actor reason rows (skip_row row s) db in
    let cancelled_too =
      continue (λ c. cancel_each worker actor reason rows (tally (signal worker row.id) c s))
        (cancel row.id actor reason db) in
    if contains cancellable_states row.pipeline_state then cancelled_too else passed_over

abbrev pub open_of : String → Filters
open_of batch = record no_filters { batch = some batch; is_complete = some false }

unfoldable pub cancel_batch : Option Worker → String → String → Option ℕ → M Summary
unfolding cancel_each require_row
cancel_batch worker actor reason id = require_row id >>= λ anchor db.
    let rows = list_queue (open_of anchor.batch) 1000 db in
    cancel_each worker actor reason rows
      (record {
        total_open = length rows;
        cancelled = 0;
        was_running = 0;
        already_halted = 0;
        skipped_other = 0;
      })
      db
