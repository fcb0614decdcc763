-- ===== src/Metadata/Worker.antt =====
-- metadata/worker.js: the step for one claimed row. What ArchivesSpace answers and which calls of the
-- repository fail is the step's input; the rebuilt display record and the session token are left out.
use repo_backend_v.Base.{
  ℕ, String, Bool, false, not, ◌||◌, Option, none, some, List, if◌then◌else◌, ◌==◌, nat_eq,
  string_eq, find, is_some,
}
use repo_backend_v.Metadata.Model.{Item, RetryConfig, mark_failed, mark_updated, mark_complete}
use repo_backend_v.Metadata.Batches.{
  Batch, has_uuid, RowOutcome, row_succeeded, row_dead_lettered, on_row_terminal,
}
use repo_backend_v.Metadata.Producer.{Refresh}

-- A fetch: the HTTP status and whether a record came with it, or an error.
pub data Fetched : Type 0 where
  answered : (status : ℕ) (has_data : Bool) → Fetched
  threw : (message : String) → Fetched

-- The writes at the end: all done, or the one that throws, the last of them after mark_updated.
pub data Write : Type 0 where
  written : Write
  lost : (message : String) → Write
  half : (message : String) → Write

-- What the step meets: the fetch, the fetch with a new token, and whether the repository's read and
-- the writes throw. Messages are as mark_failed stores them.
pub record Attempt : Type 0 where
  pub fetch : Fetched
  pub fetch_again : Fetched
  pub db_read : Option String
  pub db_write : Write

-- Only rows of a batch that has a row in the batches table are counted.
unfoldable pub roll_up : Item → RowOutcome → List Batch → List Batch
roll_up row outcome bs =
    if is_some (find (has_uuid row.batch_uuid) bs)
    then on_row_terminal row.batch_uuid outcome bs
    else bs

unfoldable pub fail_row : RetryConfig → ℕ → Item → String → Refresh → Refresh
unfolding roll_up
fail_row cfg now row text s =
    let (dead, items) = mark_failed cfg now row.id text s.queue.items in
    record {
      queue = record s.queue { items = items };
      batches = if dead then roll_up row row_dead_lettered s.batches else s.batches;
    }

unfoldable pub succeed_row : ℕ → Item → Refresh → Refresh
unfolding roll_up
succeed_row now row s = record {
  queue = record s.queue { items = mark_complete now row.id (mark_updated row.id s.queue.items) };
  batches = roll_up row row_succeeded s.batches;
}

abbrev pub is_unauthorised : Fetched → Bool
is_unauthorised (answered status has_data) = status == 401 || status == 403
is_unauthorised (threw message) = false

-- The writes of the record and of the row; a write that throws spends an attempt.
abbrev pub write_row : RetryConfig → ℕ → Item → Write → Refresh → Refresh
write_row cfg now row written s = succeed_row now row s
write_row cfg now row (lost text) s = fail_row cfg now row text s
write_row cfg now row (half text) s =
    fail_row cfg now row text
      (record s { queue = record s.queue { items = mark_updated row.id s.queue.items } })

abbrev pub read_row : RetryConfig → ℕ → Item → Option String → Write → Refresh → Refresh
read_row cfg now row none write s = write_row cfg now row write s
read_row cfg now row (some text) write s = fail_row cfg now row text s

-- The message for an HTTP status is a parameter of the store's text only.
abbrev pub use_answer :
    RetryConfig → ℕ → (ℕ → String) → Item → Attempt → Fetched → Refresh → Refresh
use_answer cfg now message row a (threw text) s = fail_row cfg now row text s
use_answer cfg now message row a (answered status has_data) s =
    if not (status == 200) || not has_data
    then fail_row cfg now row (message status) s
    else read_row cfg now row a.db_read a.db_write s

-- A 401 or 403 is fetched once more with a new token.
unfoldable pub process_row : RetryConfig → ℕ → (ℕ → String) → Item → Attempt → Refresh → Refresh
unfolding fail_row succeed_row
process_row cfg now message row a s =
    use_answer cfg now message row a (if is_unauthorised a.fetch then a.fetch_again else a.fetch) s
