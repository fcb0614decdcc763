-- ===== src/Metadata/Model.antt =====
-- metadata/model.js: the refresh queue. Times are milliseconds; the column is_indexed, which no code
-- sets, the checks that a text is a UUID, and which UUID is minted for a batch are left out.
pub mod Enqueue
use repo_backend_v.Base.{
  ℕ, suc, ◌+◌, ◌-◌, ◌*◌, ◌^◌, min, String, Bool, true, false, not, ◌&&◌, ◌||◌, Option, none, some,
  List, [], ◌∷◌, ◌++◌, map, ltb, leb, if◌then◌else◌, ◌==◌, nat_eq, string_eq, contains, length,
  filter, take, find, get_or,
}
use repo_backend_v.Base.Table.{update_where, count_where}

pub data UpdateType : Type 0 where
  single : UpdateType
  collection : UpdateType
  collection_record : UpdateType
  system : UpdateType

pub data Status : Type 0 where
  pending : Status
  in_progress : Status
  record_updated : Status
  complete : Status
  cancelled : Status
  dead_lettered : Status

abbrev pub is_pending : Status → Bool
is_pending pending = true
is_pending _ = false

abbrev pub is_in_progress : Status → Bool
is_in_progress in_progress = true
is_in_progress _ = false

abbrev pub is_cancelled : Status → Bool
is_cancelled cancelled = true
is_cancelled _ = false

pub record Item : Type 0 where
  pub id : ℕ
  pub batch_uuid : String
  pub uuid : String
  pub uri : String
  pub update_type : UpdateType
  pub status : Status
  pub is_updated : Bool
  pub is_complete : Bool
  pub priority : ℕ
  pub attempts : ℕ
  pub next_attempt_at : Option ℕ
  pub date_updated : ℕ
  pub error : Option String
  pub last_error : Option String

-- The queue table and its next key.
pub record Queue : Type 0 where
  pub items : List Item
  pub next_id : ℕ

-- A row of the objects table, as the refresh reads it; an empty uri counts as none.
pub record Object : Type 0 where
  pub id : ℕ
  pub pid : String
  pub uri : Option String
  pub is_collection : Bool
  pub is_member_of_collection : String
  pub is_active : Bool

abbrev pub has_uri : Object → Bool
has_uri o = not (get_or o.uri "" == "")

abbrev pub in_batch : String → Item → Bool
in_batch b r = r.batch_uuid == b

abbrev pub has_id : ℕ → Item → Bool
has_id id r = r.id == id

pub record Progress : Type 0 where
  pub total : ℕ
  pub completed : ℕ
  pub pending_rows : ℕ
  pub in_progress_rows : ℕ
  pub failed : ℕ
  pub cancelled_rows : ℕ
  pub done : Bool

abbrev pub has_error : Option String → Bool
has_error none = false
has_error (some e) = not (e == "")

abbrev pub progress_of : List Item → Progress
progress_of rows =
    let completed = count_where (λ r. r.is_complete) rows in
    let running = count_where (λ r. not r.is_complete && is_in_progress r.status) rows in
    record {
      total = length rows;
      completed = completed;
      pending_rows = (length rows - completed) - running;
      in_progress_rows = running;
      failed =
          count_where (λ r. r.is_complete && (not (is_cancelled r.status) && has_error r.error))
            rows;
      cancelled_rows = count_where (λ r. r.is_complete && is_cancelled r.status) rows;
      done = completed == length rows;
    }

-- None where the batch has no row.
unfoldable pub get_batch_progress : String → List Item → Option Progress
get_batch_progress b items =
    let rows = filter (in_batch b) items in
    if length rows == 0 then none else some (progress_of rows)

-- The number of rows cancelled, and the table.
unfoldable pub cancel_batch : String → List Item → ℕ × List Item
cancel_batch b items = (
  count_where (λ r. in_batch b r && not r.is_complete) items,
  update_where (λ r. in_batch b r && not r.is_complete)
      (λ r. record r { status = cancelled; is_complete = true; error = some "User cancelled" })
      items,
)

abbrev pub is_due : ℕ → Option ℕ → Bool
is_due now none = true
is_due now (some t) = leb t now

abbrev pub claimable : ℕ → Item → Bool
claimable now r = is_pending r.status && (not r.is_complete && is_due now r.next_attempt_at)

-- `orderBy(priority, id)`
abbrev pub precedes : Item → Item → Bool
precedes q r = ltb q.priority r.priority || (q.priority == r.priority && ltb q.id r.id)

unfoldable pub insert_by : Item → List Item → List Item
insert_by r [] = r ∷ []
insert_by r (q ∷ qs) = let rest = insert_by r qs in if precedes q r then q ∷ rest else r ∷ q ∷ qs

unfoldable pub order_by : List Item → List Item
unfolding insert_by
order_by [] = []
order_by (r ∷ rs) = insert_by r (order_by rs)

unfoldable pub candidates : ℕ → ℕ → List Item → List Item
unfolding order_by
candidates now limit items = take limit (order_by (filter (claimable now) items))

abbrev pub claimed_at : ℕ → Item → Item
claimed_at now r = record r { status = in_progress; date_updated = now }

-- The claimed rows, as they are read back, and the table.
unfoldable pub claim_pending : ℕ → ℕ → List Item → List Item × List Item
unfolding candidates
claim_pending now limit items =
    let ids = map (λ r. r.id) (candidates now limit items) in
    let items' = update_where (λ r. contains ids r.id) (claimed_at now) items in
    (filter (λ r. contains ids r.id) items', items')

unfoldable pub mark_updated : ℕ → List Item → List Item
mark_updated id items =
    update_where (has_id id) (λ r. record r { status = record_updated; is_updated = true }) items

unfoldable pub mark_complete : ℕ → ℕ → List Item → List Item
mark_complete now id items =
    update_where (has_id id)
      (λ r. record r { status = complete; is_complete = true; date_updated = now }) items

-- The retry settings: attempts allowed, first and longest wait.
pub record RetryConfig : Type 0 where
  pub max_attempts : ℕ
  pub retry_base_backoff_ms : ℕ
  pub retry_max_backoff_ms : ℕ

unfoldable pub attempts_allowed : RetryConfig → ℕ
attempts_allowed cfg = if ltb 0 cfg.max_attempts then cfg.max_attempts else 3

-- The wait after the n-th failed attempt.
unfoldable pub backoff_ms : RetryConfig → ℕ → ℕ
backoff_ms cfg n =
    let base = cfg.retry_base_backoff_ms in
    let longest = if ltb 0 cfg.retry_max_backoff_ms then cfg.retry_max_backoff_ms else base in
    min (base * 2 ^ (n - 1)) longest

abbrev pub next_attempt : RetryConfig → ℕ → ℕ → Option ℕ
next_attempt cfg now n =
    if ltb 0 cfg.retry_base_backoff_ms then some (now + backoff_ms cfg n) else none

abbrev pub retried : RetryConfig → ℕ → ℕ → String → Item → Item
retried cfg now n text r = record r {
  status = pending;
  attempts = n;
  last_error = some text;
  is_complete = false;
  date_updated = now;
  next_attempt_at = next_attempt cfg now n;
}

abbrev pub dead : ℕ → ℕ → String → Item → Item
dead now n text r = record r {
  status = dead_lettered;
  attempts = n;
  error = some text;
  last_error = some text;
  is_complete = true;
  date_updated = now;
}

abbrev pub attempts_of : Option Item → ℕ
attempts_of none = 0
attempts_of (some r) = r.attempts

-- Whether the row is dead-lettered, and the table. `text` is the message, cut to its length.
unfoldable pub mark_failed : RetryConfig → ℕ → ℕ → String → List Item → Bool × List Item
unfolding attempts_allowed backoff_ms
mark_failed cfg now id text items =
    let n = attempts_of (find (has_id id) items) + 1 in
    if ltb n (attempts_allowed cfg)
    then (false, update_where (has_id id) (retried cfg now n text) items)
    else (true, update_where (has_id id) (dead now n text) items)

abbrev pub is_stale : ℕ → ℕ → Item → Bool
is_stale now older_than_seconds r =
    is_in_progress r.status
    && (not r.is_complete
        && (older_than_seconds == 0 || ltb (r.date_updated + older_than_seconds * 1000) now))

unfoldable pub reset_orphaned : ℕ → ℕ → List Item → ℕ × List Item
reset_orphaned now older_than_seconds items = (
  count_where (is_stale now older_than_seconds) items,
  update_where (is_stale now older_than_seconds)
      (λ r. record r { status = pending; next_attempt_at = none }) items,
)
