-- ===== src/Convert/Model.antt =====
-- convert/model.js: the queue of conversions, one row per file, and the batches staff start. Of the
-- columns that are only shown (response_body, last_error, times), none is kept; `basename` is Node's.
use repo_backend_v.Base.{
  ℕ, suc, ◌+◌, ◌*◌, ◌/◌, max, String, Bool, true, false, ◌&&◌, ◌||◌, Option, none, some, List, [],
  ◌∷◌, ◌++◌, ltb, leb, if◌then◌else◌, ◌==◌, nat_eq, string_eq, length, take, filter,
}
use repo_backend_v.Base.Table.{update_where, count_where}
use repo_backend_v.Convert.Expand.{Object, Entry, has_text, truthy, expand_row}

pub data Status : Type 0 where
  pending : Status
  in_progress : Status
  complete : Status
  failed : Status

abbrev pub is_pending : Status → Bool
is_pending pending = true
is_pending _ = false

abbrev pub is_in_progress : Status → Bool
is_in_progress in_progress = true
is_in_progress _ = false

pub record Row : Type 0 where
  pub id : ℕ
  pub batch_id : ℕ
  pub pid : Option String
  pub sip_uuid : Option String
  pub collection : Option String
  pub file_name : String
  pub object_name : String
  pub mime_type : Option String
  pub status : Status
  pub attempts : ℕ
  pub http_status : Option ℕ

pub data ScopeType : Type 0 where
  one_object : ScopeType
  whole_collection : ScopeType

pub record Batch : Type 0 where
  pub id : ℕ
  pub scope_type : ScopeType
  pub collection : Option String
  pub sip_uuid : Option String
  pub total : ℕ

-- What a request names, and its limit.
pub record Scope : Type 0 where
  pub collection : Option String
  pub sip_uuid : Option String
  pub pid : Option String
  pub limit : Option ℕ

abbrev pub same_column : Option String → Option String → Bool
same_column (some a) (some b) = a == b
same_column none _ = false
same_column (some a) none = false

-- The WHERE that drives a request: sip_uuid, then pid, then collection; none is an error.
unfoldable pub scope_test : Scope → Option (Object → Bool)
scope_test s =
    if has_text s.sip_uuid
    then some (λ r. same_column r.sip_uuid s.sip_uuid)
    else if has_text s.pid
    then some (λ r. same_column r.pid s.pid)
    else if has_text s.collection
    then some (λ r. same_column r.is_member_of_collection s.collection)
    else none

abbrev pub limited {ℓ} : {A : Type ℓ} → Option ℕ → List A → List A
limited none rows = rows
limited (some n) rows = take (max 1 n) rows

abbrev pub resolved : Option (Object → Bool) → Option ℕ → List Object → Option (List Object)
resolved none limit objects = none
resolved (some p) limit objects =
    some (limited limit (filter (λ r. p r && has_text r.file_name) objects))

-- The objects table is in the order of its ids.
unfoldable pub resolve_rows : Scope → List Object → Option (List Object)
unfolding scope_test
resolve_rows s objects = resolved (scope_test s) s.limit objects

unfoldable pub guard_single : List Object → Scope → Bool
guard_single rows s = (has_text s.sip_uuid || has_text s.pid) && ltb 1 (length rows)

abbrev pub flat_map {ℓ κ} : {A : Type ℓ} {B : Type κ} → (A → List B) → List A → List B
flat_map f [] = []
flat_map f (x ∷ xs) = f x ++ flat_map f xs

pub data EnqueueError : Type 0 where
  no_scope : EnqueueError
  several_objects : (matched : ℕ) → EnqueueError
  nothing_to_convert : EnqueueError
  over_the_cap : (count : ℕ) → EnqueueError

pub record Store : Type 0 where
  pub queue : List Row
  pub batches : List Batch
  pub next_id : ℕ
  pub next_batch : ℕ

pub data Enqueued : Type 0 where
  refused : (e : EnqueueError) → Enqueued
  enqueued : (batch_id : ℕ) (count : ℕ) (scope_type : ScopeType) (store : Store) → Enqueued

module _ (basename : String → String) where
  -- The rows of the batch, numbered as the table's key does.
  unfoldable pub queue_rows : ℕ → ℕ → List Entry → List Row
  queue_rows batch_id id [] = []
  queue_rows batch_id id (e ∷ es) =
      record {
        id = id;
        batch_id = batch_id;
        pid = e.pid;
        sip_uuid = e.sip_uuid;
        collection = e.collection;
        file_name = e.file_name;
        object_name = basename e.file_name;
        mime_type = e.mime_type;
        status = pending;
        attempts = 0;
        http_status = none;
      }
      ∷ queue_rows batch_id (suc id) es

  abbrev pub scope_type_of : Scope → ScopeType
  scope_type_of s = if has_text s.sip_uuid || has_text s.pid then one_object else whole_collection

  -- The transaction: the batch's row, then its queue rows.
  abbrev pub insert_batch : Scope → List Entry → Store → Enqueued
  insert_batch s entries st =
      let batch : Batch = record {
        id = st.next_batch;
        scope_type = scope_type_of s;
        collection = truthy s.collection;
        sip_uuid = truthy s.sip_uuid;
        total = length entries;
      } in
      enqueued st.next_batch (length entries) (scope_type_of s) (record {
        queue = st.queue ++ queue_rows st.next_batch st.next_id entries;
        batches = st.batches ++ batch ∷ [];
        next_id = st.next_id + length entries;
        next_batch = suc st.next_batch;
      })

  abbrev pub enqueue_entries : ℕ → Scope → List Entry → Store → Enqueued
  enqueue_entries max_batch s entries st =
      if length entries == 0
      then refused nothing_to_convert
      else if ltb max_batch (length entries)
      then refused (over_the_cap (length entries))
      else insert_batch s entries st

  abbrev pub enqueue_rows : ℕ → Scope → Option (List Object) → Store → Enqueued
  enqueue_rows max_batch s none st = refused no_scope
  enqueue_rows max_batch s (some rows) st =
      if guard_single rows s
      then refused (several_objects (length rows))
      else enqueue_entries max_batch s (flat_map expand_row rows) st

  unfoldable pub enqueue : ℕ → List Object → Scope → Store → Enqueued
  unfolding queue_rows guard_single
  enqueue max_batch objects s st = enqueue_rows max_batch s (resolve_rows s objects) st

-- The order of claims: fewer attempts first, then the older row.
abbrev pub precedes : Row → Row → Bool
precedes q r = ltb q.attempts r.attempts || (q.attempts == r.attempts && ltb q.id r.id)

abbrev pub earlier_of : Row → Option Row → Option Row
earlier_of r none = some r
earlier_of r (some q) = if precedes q r then some q else some r

-- `orderBy(attempts, id).first()` over the pending rows.
unfoldable pub first_pending : List Row → Option Row
first_pending [] = none
first_pending (r ∷ rs) =
    let rest = first_pending rs in if is_pending r.status then earlier_of r rest else rest

abbrev pub set_status : Status → Row → Row
set_status st r = record r { status = st }

abbrev pub has_id : ℕ → Row → Bool
has_id id r = r.id == id

abbrev pub claim_row : Option Row → List Row → List Row
claim_row none rows = rows
claim_row (some row) rows = update_where (has_id row.id) (set_status in_progress) rows

-- The claimed row as it was read, and the table.
unfoldable pub claim_one : List Row → Option Row × List Row
unfolding first_pending
claim_one rows = (first_pending rows, claim_row (first_pending rows) rows)

unfoldable pub mark_complete : ℕ → Option ℕ → List Row → List Row
mark_complete id http rows =
    update_where (has_id id) (λ r. record r { status = complete; http_status = http }) rows

unfoldable pub failed_status : ℕ → ℕ → Status
failed_status max_attempts attempts = if leb max_attempts attempts then failed else pending

-- The attempts are counted from the row as it was claimed.
unfoldable pub mark_failed : ℕ → Row → Option ℕ → List Row → List Row
unfolding failed_status
mark_failed max_attempts row http rows =
    update_where (has_id row.id)
      (λ r. record r {
        status = failed_status max_attempts (row.attempts + 1);
        attempts = row.attempts + 1;
        http_status = http;
      })
      rows

unfoldable pub release : ℕ → List Row → List Row
release id rows = update_where (has_id id) (set_status pending) rows

-- The number of rows reset, and the table.
unfoldable pub reset_orphaned : List Row → ℕ × List Row
reset_orphaned rows = (
  count_where (λ r. is_in_progress r.status) rows,
  update_where (λ r. is_in_progress r.status) (set_status pending) rows,
)

-- `_counts_for({ batch_id })`, grouped by status.
pub record Counts : Type 0 where
  pub pending_rows : ℕ
  pub in_progress_rows : ℕ
  pub complete_rows : ℕ
  pub failed_rows : ℕ

abbrev pub is_complete : Status → Bool
is_complete complete = true
is_complete _ = false

abbrev pub is_failed : Status → Bool
is_failed failed = true
is_failed _ = false

abbrev pub rows_of : ℕ → (Status → Bool) → List Row → ℕ
rows_of id p rows = count_where (λ r. r.batch_id == id && p r.status) rows

unfoldable pub counts_for : ℕ → List Row → Counts
counts_for id rows = record {
  pending_rows = rows_of id is_pending rows;
  in_progress_rows = rows_of id is_in_progress rows;
  complete_rows = rows_of id is_complete rows;
  failed_rows = rows_of id is_failed rows;
}

pub data Label : Type 0 where
  running : Label
  completed_with_errors : Label
  completed : Label

pub record Summary : Type 0 where
  pub total : ℕ
  pub done : ℕ
  pub percent : ℕ
  pub label : Label

-- The line of the status panel for a batch: `Number(total) ||` the rows counted.
unfoldable pub summarise : Batch → Counts → Summary
summarise b c =
    let done = c.complete_rows + c.failed_rows in
    let active = c.pending_rows + c.in_progress_rows in
    let total = if b.total == 0 then done + active else b.total in
    record {
      total = total;
      done = done;
      percent = if ltb 0 total then (done * 100) / total else 0;
      label =
          if ltb 0 active
          then running
          else if ltb 0 c.failed_rows
          then completed_with_errors
          else completed;
    }
