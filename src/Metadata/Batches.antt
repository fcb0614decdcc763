-- ===== src/Metadata/Batches.antt =====
-- metadata/batches.js: one row for each system-wide refresh, and the hand-over between the producer and
-- the worker. Who started a batch, the transformer's version and the times are left out.
use repo_backend_v.Base.{
  ℕ, ◌+◌, ◌-◌, max, String, Bool, true, false, not, ◌&&◌, Option, none, some, List, [], ◌∷◌, ◌++◌,
  map, leb, if◌then◌else◌, ◌==◌, nat_eq, string_eq, contains, filter, find,
}
use mathlib.Core.List.{reverse}
use repo_backend_v.Base.Table.{update_where, count_where, delete_where}
use repo_backend_v.Metadata.Model.{Item, Object, has_uri, in_batch, is_pending}

pub data BatchStatus : Type 0 where
  running : BatchStatus
  completed : BatchStatus
  cancelled : BatchStatus
  failed : BatchStatus

abbrev pub is_running : BatchStatus → Bool
is_running running = true
is_running _ = false

abbrev pub is_cancelled : BatchStatus → Bool
is_cancelled cancelled = true
is_cancelled _ = false

-- The rows are in the order of their ids.
pub record Batch : Type 0 where
  pub batch_uuid : String
  pub status : BatchStatus
  pub total : ℕ
  pub succeeded : ℕ
  pub failed_rows : ℕ
  pub dead_lettered : ℕ
  pub cursor_id : Option ℕ
  pub enqueue_complete : Bool
  pub cancel_requested : Bool

abbrev pub has_uuid : String → Batch → Bool
has_uuid u b = b.batch_uuid == u

-- `orderBy('id', 'desc').first()`
abbrev pub last_where : (Batch → Bool) → List Batch → Option Batch
last_where p bs = find p (reverse bs)

unfoldable pub get_active_batch : List Batch → Option Batch
get_active_batch bs = last_where (λ b. is_running b.status) bs

-- The active objects that a refresh can fetch.
abbrev pub refreshable : Object → Bool
refreshable o = o.is_active && has_uri o

-- The pids of a batch's rows that the worker finalised.
unfoldable pub completed_pids : String → List Item → List String
completed_pids u items = map (λ r. r.uuid) (filter (λ r. in_batch u r && r.is_complete) items)

abbrev pub cursor_before : ℕ → Option Object → ℕ
cursor_before stored none = stored
cursor_before stored (some o) = max 0 (o.id - 1)

-- The objects table is in the order of its ids.
abbrev pub resume_cursor : ℕ → List String → List Object → ℕ
resume_cursor stored [] objects = stored
resume_cursor stored (p ∷ ps) objects =
    cursor_before stored (find (λ o. refreshable o && not (contains (p ∷ ps) o.pid)) objects)

abbrev pub resume_from : List Item → List Object → String → Option ℕ → Option (String × ℕ)
resume_from items objects u none = none
resume_from items objects u (some c) = some (u, resume_cursor c (completed_pids u items) objects)

abbrev pub resume_batch : List Item → List Object → Option Batch → Option (String × ℕ)
resume_batch items objects none = none
resume_batch items objects (some b) = resume_from items objects b.batch_uuid b.cursor_id

unfoldable pub get_last_cancelled_cursor :
    List Batch → List Item → List Object → Option (String × ℕ)
unfolding completed_pids
get_last_cancelled_cursor bs items objects =
    resume_batch items objects (last_where (λ b. is_cancelled b.status) bs)

abbrev pub new_batch : String → Option ℕ → Batch
new_batch minted cursor = record {
  batch_uuid = minted;
  status = running;
  total = 0;
  succeeded = 0;
  failed_rows = 0;
  dead_lettered = 0;
  cursor_id = cursor;
  enqueue_complete = false;
  cancel_requested = false;
}

abbrev pub created : String → Option ℕ → Option Batch → List Batch → Option (List Batch)
created minted cursor (some b) bs = none
created minted cursor none bs = some (bs ++ new_batch minted cursor ∷ [])

-- None where a batch is running. A cursor that is no natural number is refused by the caller's type.
unfoldable pub create_batch : String → Option ℕ → List Batch → Option (List Batch)
unfolding get_active_batch
create_batch minted inherit_cursor_id bs = created minted inherit_cursor_id (get_active_batch bs) bs

unfoldable pub lock_batch_for_tick : String → List Batch → Option Batch
lock_batch_for_tick u bs = find (λ b. has_uuid u b && is_running b.status) bs

abbrev pub same_cursor : Option ℕ → Option ℕ → Bool
same_cursor none none = true
same_cursor none (some c) = false
same_cursor (some e) none = false
same_cursor (some e) (some c) = c == e

abbrev pub advanced : Option ℕ → Bool → Batch → Batch
advanced new_cursor done b = record b {
  cursor_id = new_cursor;
  enqueue_complete = if done then true else b.enqueue_complete;
}

-- The number of rows that the compare-and-swap matched, and the table.
unfoldable pub advance_cursor : String → Option ℕ → Option ℕ → Bool → List Batch → ℕ × List Batch
advance_cursor u expected_cursor_id new_cursor_id done bs =
    let p : Batch → Bool = λ b. has_uuid u b && same_cursor expected_cursor_id b.cursor_id in
    (count_where p bs, update_where p (advanced new_cursor_id done) bs)

unfoldable pub increment_total : String → ℕ → List Batch → List Batch
increment_total u delta bs =
    update_where (has_uuid u) (λ b. record b { total = b.total + delta }) bs

pub data RowOutcome : Type 0 where
  row_succeeded : RowOutcome
  row_failed : RowOutcome
  row_dead_lettered : RowOutcome

abbrev pub counted : RowOutcome → Batch → Batch
counted row_succeeded b = record b { succeeded = b.succeeded + 1 }
counted row_failed b = record b { failed_rows = b.failed_rows + 1 }
counted row_dead_lettered b = record b { dead_lettered = b.dead_lettered + 1 }

abbrev pub finished : Batch → Bool
finished b =
    is_running b.status
    && (b.enqueue_complete && leb b.total (b.succeeded + b.failed_rows + b.dead_lettered))

-- The counter, then the change to 'completed' where every row is terminal.
unfoldable pub on_row_terminal : String → RowOutcome → List Batch → List Batch
on_row_terminal u outcome bs =
    update_where (λ b. has_uuid u b && finished b) (λ b. record b { status = completed })
      (update_where (has_uuid u) (counted outcome) bs)

abbrev pub is_empty_batch : Batch → Bool
is_empty_batch b = is_running b.status && (b.total == 0 && b.enqueue_complete)

unfoldable pub complete_if_empty : String → List Batch → ℕ × List Batch
complete_if_empty u bs =
    let p : Batch → Bool = λ b. has_uuid u b && is_empty_batch b in
    (count_where p bs, update_where p (λ b. record b { status = completed }) bs)

pub data CancelError : Type 0 where
  batch_not_found : CancelError
  batch_not_running : (status : BatchStatus) → CancelError

pub data Cancelled : Type 0 where
  refused : (e : CancelError) → Cancelled
  done : (pending_removed : ℕ) (items : List Item) (batches : List Batch) → Cancelled

abbrev pub withdrawn : String → Item → Bool
withdrawn u r = in_batch u r && (is_pending r.status && not r.is_complete)

abbrev pub cancel_found : String → Option Batch → List Item → List Batch → Cancelled
cancel_found u none items bs = refused batch_not_found
cancel_found u (some b) items bs =
    if not (is_running b.status)
    then refused (batch_not_running b.status)
    else done (count_where (withdrawn u) items) (delete_where (withdrawn u) items) (
        update_where (has_uuid u)
          (λ c. record c { cancel_requested = true; enqueue_complete = true; status = cancelled })
          bs)

-- The two updates of the batch surround the delete; nothing reads the batch between them.
unfoldable pub request_cancel : String → List Item → List Batch → Cancelled
request_cancel u items bs = cancel_found u (find (has_uuid u) bs) items bs
