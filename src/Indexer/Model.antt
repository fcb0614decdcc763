-- ===== src/Indexer/Model.antt =====
-- indexer/model.js: the flags of the objects table that make it the index queue. A flag column is a
-- Boolean; of the columns that the worker only passes on to the index, none is kept.
use repo_backend_v.Base.{
  ℕ, zero, suc, ◌+◌, min, max, String, Bool, true, false, not, ◌&&◌, Option, none, some, List, [],
  ◌∷◌, map, leb, if◌then◌else◌, ◌==◌, nat_eq, string_eq, contains, take, filter, is_some,
}
use repo_backend_v.Base.Table.{update_where, count_where}

pub record Object : Type 0 where
  pub id : ℕ
  pub pid : String
  pub is_member_of_collection : String
  pub is_published : Bool
  pub is_active : Bool
  pub is_indexed : Bool
  pub is_updated : Bool
  pub index_attempts : ℕ
  pub index_error : Option String

abbrev pub is_eligible : Object → Bool
is_eligible r = r.is_published && r.is_active

abbrev pub is_dirty : Object → Bool
is_dirty r = r.is_updated

-- `Math.max(1, Math.min(100, Number.parseInt(limit, 10) || 5))` on a number.
unfoldable pub claim_cap : ℕ → ℕ
claim_cap limit = max 1 (min 100 (if limit == 0 then 5 else limit))

abbrev pub clean : Object → Object
clean r = record r { is_updated = false }

abbrev pub has_id : List ℕ → Object → Bool
has_id ids r = contains ids r.id

abbrev pub has_pid : List String → Object → Bool
has_pid pids r = contains pids r.pid

unfoldable pub claim_ids : ℕ → List Object → List ℕ
claim_ids limit rows = map (λ r. r.id) (take (claim_cap limit) (filter is_dirty rows))

-- The rows that are claimed, as they are read back, and the table.
unfoldable pub claim_dirty : ℕ → List Object → List Object × List Object
unfolding claim_ids
claim_dirty limit rows =
    let ids = claim_ids limit rows in
    let rows' = update_where (has_id ids) clean rows in (filter (has_id ids) rows', rows')

abbrev pub dirtied : Object → Object
dirtied r = record r { is_updated = true }

-- The columns of the dead letter, cleared.
abbrev pub forgiven : Object → Object
forgiven r = record r { index_attempts = 0; index_error = none }

abbrev pub in_index : Bool → Object → Object
in_index b r = record (forgiven r) { is_indexed = b }

abbrev pub mark_indexed : String → List Object → List Object
mark_indexed pid rows = update_where (λ r. r.pid == pid) (in_index true) rows

abbrev pub mark_deindexed : String → List Object → List Object
mark_deindexed pid rows = update_where (λ r. r.pid == pid) (in_index false) rows

abbrev pub requeue : String → List Object → List Object
requeue pid rows = update_where (λ r. r.pid == pid) dirtied rows

-- An admin action: the number of rows it dirties, and the table.
abbrev pub mark_dirty : (Object → Bool) → List Object → ℕ × List Object
mark_dirty p rows = (count_where p rows, update_where p (λ r. dirtied (forgiven r)) rows)

unfoldable pub mark_dirty_all : List Object → ℕ × List Object
mark_dirty_all rows = mark_dirty is_eligible rows

unfoldable pub mark_dirty_collection : String → List Object → ℕ × List Object
mark_dirty_collection pid rows =
    mark_dirty (λ r. r.is_member_of_collection == pid && is_eligible r) rows

unfoldable pub mark_dirty_pid : String → List Object → ℕ × List Object
mark_dirty_pid pid rows = mark_dirty (λ r. r.pid == pid) rows

unfoldable pub reset_all_index_state : List Object → ℕ × List Object
reset_all_index_state rows =
    (count_where is_eligible rows, update_where is_eligible (λ r. dirtied (in_index false r)) rows)

-- An empty list of pids matches no row, as the early returns of the bulk operations say.
unfoldable pub mark_indexed_bulk : List String → List Object → List Object
mark_indexed_bulk pids rows = update_where (has_pid pids) (in_index true) rows

unfoldable pub mark_deindexed_bulk : List String → List Object → List Object
mark_deindexed_bulk pids rows = update_where (has_pid pids) (in_index false) rows

unfoldable pub requeue_bulk : List String → List Object → List Object
requeue_bulk pids rows = update_where (has_pid pids) dirtied rows

pub record Failure : Type 0 where
  pub pid : String
  pub err : Option String

-- `text.slice(0, n)`, on code points.
unfoldable pub clip : ℕ → String → String
clip zero s = String.[]
clip (suc n) String.[] = String.[]
clip (suc n) (String.◌∷◌ c s) = String.◌∷◌ c (clip n s)

-- `f.err || 'index failed'`: "" counts as missing.
abbrev pub text_of : Option String → String
text_of none = "index failed"
text_of (some e) = if e == "" then "index failed" else e

-- The last error that the list names for a pid, as a Map built from it holds.
unfoldable pub error_of : String → List Failure → Option String
unfolding clip
error_of pid [] = none
error_of pid (f ∷ fs) =
    let later = error_of pid fs in
    if is_some later then later else if f.pid == pid then some (clip 1000 (text_of f.err)) else none

abbrev pub failed_again : Object → Object
failed_again r = record r { index_attempts = r.index_attempts + 1 }

abbrev pub exhausted : ℕ → Object → Bool
exhausted cap r = leb cap r.index_attempts

abbrev pub parked : Option String → Object → Object
parked e r = record r { is_updated = false; index_error = e }

-- The loop over the dead-lettered pids.
unfoldable pub park_each : List Failure → List String → List Object → List Object
unfolding error_of
park_each failures [] rows = rows
park_each failures (pid ∷ pids) rows =
    park_each failures pids (update_where (λ r. r.pid == pid) (parked (error_of pid failures)) rows)

pub record Recorded : Type 0 where
  pub requeued : List String
  pub dead_lettered : List String
  pub rows : List Object

-- Failures without a pid are dropped by the caller's filter.
unfoldable pub record_failures : ℕ → List Failure → List Object → Recorded
unfolding park_each
record_failures max_attempts failures rows =
    let cap = max 1 (if max_attempts == 0 then 5 else max_attempts) in
    let counted = update_where (has_pid (map (λ f. f.pid) failures)) failed_again rows in
    let hit = filter (has_pid (map (λ f. f.pid) failures)) counted in
    let dead_lettered = map (λ r. r.pid) (filter (exhausted cap) hit) in
    let requeued = map (λ r. r.pid) (filter (λ r. not (exhausted cap r)) hit) in
    record {
      requeued = requeued;
      dead_lettered = dead_lettered;
      rows = park_each failures dead_lettered (update_where (has_pid requeued) dirtied counted);
    }

unfoldable pub requeue_dead_lettered : List Object → ℕ × List Object
requeue_dead_lettered rows = mark_dirty (λ r. is_some r.index_error) rows

pub record StatusCounts : Type 0 where
  pub dirty : ℕ
  pub indexed_flag : ℕ
  pub eligible : ℕ
  pub dead_lettered : ℕ

unfoldable pub status_counts : List Object → StatusCounts
status_counts rows = record {
  dirty = count_where is_dirty rows;
  indexed_flag = count_where (λ r. r.is_indexed) rows;
  eligible = count_where is_eligible rows;
  dead_lettered = count_where (λ r. is_some r.index_error) rows;
}
