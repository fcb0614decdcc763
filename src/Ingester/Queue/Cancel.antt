-- ===== src/Ingester/Queue/Cancel.antt =====
-- ingester/model.js: the staff cancel and the prior state that the event log keeps.

use repo_backend_v.Base.{
  ℕ, String, ◌&&◌, Option, none, some, List, [], ◌∷◌, leb, if◌then◌else◌, ◌==◌, nat_eq, string_eq,
  contains, filter,
}
use repo_backend_v.Ingester.Queue.Store.{
  Row, Payload, raw, object, Event, Db, not_found, M, pure, throw, ◌>>=◌,
}
use repo_backend_v.Ingester.Queue.Update.{Opts, or_null, update_queue, to_status}
use repo_backend_v.Ingester.Queue.Select.{by_id, get_queue_row}

abbrev pub terminal_for_cancel : List String
terminal_for_cancel =
    "COMPLETE" ∷ "CANCELLED_BY_USER" ∷ "INGEST_HALTED" ∷ "UPLOAD_TIMEOUT" ∷ "APPROVE_TIMEOUT"
    ∷ "TRANSFER_STATUS_TIMEOUT" ∷ "INGEST_STATUS_TIMEOUT" ∷ "DURACLOUD_TIMEOUT" ∷ "FAILED"
    ∷ "AS_METADATA_DRIFT" ∷ "AS_METADATA_INVALID" ∷ "ROLLED_BACK_TO_READY" ∷ "RETURNED_TO_PACKAGING"
    ∷ "AM_DELETION_REQUESTED" ∷ []

pub data Cancelled : Type 0 where
  already_terminal : (current_state : String) → Cancelled
  done : (affected : ℕ) (prev_state : String) → Cancelled

abbrev pub cancel_opts : String → String → String → Opts
cancel_opts actor reason state = record {
  actor = actor;
  event_type = "staff_action";
  payload = some (object (("action", "cancel") ∷ ("from", state) ∷ ("reason", reason) ∷ []));
}

-- `cancel` behind the read of the row.
unfoldable pub cancel_found : ℕ → String → String → Option Row → M Cancelled
cancel_found id actor reason none = throw (not_found id)
cancel_found id actor reason (some row) =
    if contains terminal_for_cancel row.pipeline_state
    then pure (already_terminal row.pipeline_state)
    else do
      r ←
          update_queue (by_id id)
            (record (to_status "CANCELLED_BY_USER") { error = some (some reason) })
            (cancel_opts actor reason row.pipeline_state)
      pure (done r.affected row.pipeline_state)

unfoldable pub cancel : ℕ → String → String → M Cancelled
cancel id actor reason db = cancel_found id actor reason (get_queue_row (by_id id) db) db

-- The newest of the events. `ORDER BY created_at DESC LIMIT 1` leaves open which of two with the same
-- time stamp it gives: here it is the one that stands later in the log.
abbrev pub newer : Option Event → Event → Option Event
newer none e = some e
newer (some best) e = if leb best.created_at e.created_at then some e else some best

unfoldable pub newest : Option Event → List Event → Option Event
newest best [] = best
newest best (e ∷ es) = newest (newer best e) es

unfoldable pub field : String → List (String × String) → Option String
field k [] = none
field k ((j, v) ∷ fs) = if j == k then some v else field k fs

-- `(parsed && parsed.from) || null`; other texts than objects have no such field.
unfoldable pub from_field : Option Payload → Option String
unfolding field
from_field none = none
from_field (some (raw s)) = none
from_field (some (object fields)) = elim (field "from" fields) [ none ↦ none | some s ↦ or_null s ]

abbrev pub payload_of : Option Event → Option Payload
payload_of none = none
payload_of (some e) = e.payload

unfoldable pub prev_state_from_event : ℕ → String → Db → Option String
unfolding newest from_field
prev_state_from_event id to_state db = from_field (
    payload_of (
      newest none (
        filter (λ e. e.queue_id == id && (e.event_type == "staff_action" && e.to_state == to_state))
          db.events)))

unfoldable pub get_prev_state_for_cancel : ℕ → Db → Option String
unfolding prev_state_from_event
get_prev_state_for_cancel id = prev_state_from_event id "CANCELLED_BY_USER"

unfoldable pub get_prev_state_for_am_rollback : ℕ → Db → Option String
unfolding prev_state_from_event
get_prev_state_for_am_rollback id = prev_state_from_event id "AM_DELETION_REQUESTED"
