-- ===== src/Metadata/Tests.antt =====
-- The refresh queue on concrete tables.
use mathlib.Core.List.{Memᴰ}
use repo_backend_v.Base.{
  ℕ, ◌+◌, ◌≤◌, String, Bool, true, false, ◌≡◌, refl, ◌⊎◌, none, some, List, [], ◌∷◌, arith, nat_eq,
  string_eq, contains, find,
}
use repo_backend_v.Base.Table.{update_where, count_where}
use repo_backend_v.Metadata.Model.{
  Item, Object, Status, pending, in_progress, complete, system, RetryConfig, has_id, attempts_of,
  mark_failed,
}
use repo_backend_v.Metadata.Batches.{
  Batch, BatchStatus, running, completed, finished, create_batch, get_last_cancelled_cursor,
  completed_pids, on_row_terminal,
}
use repo_backend_v.Metadata.Producer.{RefreshConfig, Refresh, tick, read_chunk_from_objects}
use repo_backend_v.Metadata.Worker.{answered, written, Attempt, process_row, roll_up}
use repo_backend_v.Metadata.Resume.{Ascending, Covers, get_last_cancelled_cursor-Covers}
use repo_backend_v.Metadata.Retries.{DeadLetter, AnotherAttempt, mark_failed-Failed}
use repo_backend_v.Metadata.Ledger.{IsSound, rows_of, terminal_rows}
use repo_backend_v.Metadata.Runs.{Run, still, step, run-completed, processes}
use repo_backend_v.Metadata.Drained.{batch, tables, tick-drained}

abbrev object : ℕ → String → Object
object id pid = record {
  id = id;
  pid = pid;
  uri = some "/repositories/2/resources/1";
  is_collection = false;
  is_member_of_collection = "root";
  is_active = true;
}

abbrev objects : List Object
objects = object 1 "a" ∷ object 2 "b" ∷ object 5 "c" ∷ []

objects-Ascending : Ascending objects
unfolding Ascending
objects-Ascending = (
  omega arith,
  (omega arith, (omega arith, tt)),
  (omega arith, (omega arith, tt), (omega arith, tt, tt)),
)

abbrev item : ℕ → String → String → Status → Bool → ℕ → Item
item id u pid st finished attempts = record {
  id = id;
  batch_uuid = u;
  uuid = pid;
  uri = "/repositories/2/resources/1";
  update_type = system;
  status = st;
  is_updated = finished;
  is_complete = finished;
  priority = 5;
  attempts = attempts;
  next_attempt_at = none;
  date_updated = 0;
  error = none;
  last_error = none;
}

abbrev rows : List Item
rows =
    item 1 "u" "a" complete true 0
    ∷ item 2 "u" "b" in_progress false 1
    ∷ item 3 "u" "c" pending false 0
    ∷ []

abbrev stopped : Batch
stopped = record {
  batch_uuid = "u";
  status = BatchStatus.cancelled;
  total = 3;
  succeeded = 1;
  failed_rows = 0;
  dead_lettered = 0;
  cursor_id = some 5;
  enqueue_complete = true;
  cancel_requested = true;
}

resumes_at : get_last_cancelled_cursor (stopped ∷ []) rows objects ≡ some ("u", 1)
unfolding get_last_cancelled_cursor contains
resumes_at = refl

get_last_cancelled_cursor-Covers_example : Covers ("a" ∷ []) objects 1
get_last_cancelled_cursor-Covers_example =
    get_last_cancelled_cursor-Covers (stopped ∷ []) rows objects "u" "a" [] 1 objects-Ascending
      resumes_at (unfold completed_pids in refl)

abbrev retry : RetryConfig
retry = record { max_attempts = 3; retry_base_backoff_ms = 1000; retry_max_backoff_ms = 60000 }

abbrev after_failure : Item
after_failure = record (item 2 "u" "b" pending false 2) {
  last_error = some "ArchivesSpace 500";
  date_updated = 100;
  next_attempt_at = some 2100;
}

mark_failed-Failed_example :
    (2 ≡ attempts_of (find (has_id 2) rows) + 1)
    × (DeadLetter retry 2 after_failure ⊎ AnotherAttempt retry 100 2 after_failure)
mark_failed-Failed_example =
    mark_failed-Failed retry 100 2 "ArchivesSpace 500" rows after_failure refl
      (unfold mark_failed update_where in Memᴰ.tail (Memᴰ.head refl)) refl

abbrev config : RefreshConfig
config = record { chunk_size = 500; priority = 5 }

abbrev no_message : ℕ → String
no_message n = "ArchivesSpace"

abbrev empty_tables : Refresh
empty_tables = record { queue = record { items = []; next_id = 1 }; batches = [] }

empty-IsSound : IsSound empty_tables
empty-IsSound = record { ids = tt; below = tt; uuids = tt; balanced = tt }

abbrev one_row : Refresh
one_row = record {
  queue = record { items = item 1 "u" "a" in_progress false 0 ∷ []; next_id = 2 };
  batches =
      record stopped { status = running; total = 1; succeeded = 0; cancel_requested = false } ∷ [];
}

one_row-IsSound : IsSound one_row
unfolding count_where
one_row-IsSound = record {
  ids = (tt, tt);
  below = (omega arith, tt);
  uuids = (tt, tt);
  balanced = ((omega arith, refl, refl), tt);
}

abbrev fetched : Attempt
fetched = record {
  fetch = answered 200 true;
  fetch_again = answered 200 true;
  db_read = none;
  db_write = written;
}

abbrev row_done : Refresh
row_done = process_row retry 50 no_message (item 1 "u" "a" in_progress false 0) fetched one_row

abbrev finished_batch : Batch
finished_batch = record stopped { status = completed; total = 1; cancel_requested = false }

one_run : Run config retry no_message one_row row_done
one_run =
    step still (processes 50 (item 1 "u" "a" in_progress false 0) fetched (Memᴰ.head refl) refl)

run-completed_example :
    (terminal_rows "u" row_done.queue.items ≡ rows_of "u" row_done.queue.items)
    × (1 ≡ rows_of "u" row_done.queue.items)
    × (rows_of "u" row_done.queue.items ≤ 1)
run-completed_example =
    run-completed config retry no_message finished_batch one_run one_row-IsSound
      (unfold process_row roll_up on_row_terminal update_where in Memᴰ.head refl) refl

tick-drained_example :
    ((tick config 5 objects (tables config one_row.queue "u" 1 1 0 0 (some 5) false)).1
      ≡ tables config one_row.queue "u" 1 1 0 0 (some 5) true)
    × (finished (batch config one_row.queue "u" 1 1 0 0 (some 5) true) ≡ true)
    × ((tick config 9 objects (tables config one_row.queue "u" 1 1 0 0 (some 5) true)).1
        ≡ tables config one_row.queue "u" 1 1 0 0 (some 5) true)
    × (create_batch "v" none (tables config one_row.queue "u" 1 1 0 0 (some 5) true).batches ≡ none)
tick-drained_example =
    tick-drained config one_row.queue "u" 1 1 0 0 (some 5) 5 9 objects objects "v" none refl refl
      (unfold read_chunk_from_objects in refl)
