-- ===== src/Ingester/Queue/Select.antt =====
-- ingester/model.js: the reads `get_queue_row`, `list_queue`, `count_rows_in_states`, `get_timeline`.

use mathlib.Core.List.{reverse}
use repo_backend_v.Base.{
  ℕ, String, Bool, true, false, not, ◌&&◌, ◌||◌, Option, none, some, List, ◌==◌, nat_eq, string_eq,
  contains, take, filter, find,
}
use repo_backend_v.Base.Table.{count_where}
use repo_backend_v.Ingester.Queue.Store.{Row, Event, Db}
use text.Mathlib.Text.{starts_with}

abbrev pub by_id : ℕ → Row → Bool
by_id id r = r.id == id

unfoldable pub get_queue_row : (Row → Bool) → Db → Option Row
get_queue_row criteria db = find criteria db.rows

pub record Filters : Type 0 where
  pub status : Option String
  pub batch : Option String
  pub is_complete : Option Bool
  pub sip_uuid : Option String
  pub exclude_backfill : Bool

abbrev pub no_filters : Filters
no_filters = record {
  status = none;
  batch = none;
  is_complete = none;
  sip_uuid = none;
  exclude_backfill = false;
}

-- A filter that is absent or empty admits every row.
abbrev pub admits : Option String → String → Bool
admits none s = true
admits (some f) s = f == "" || f == s

abbrev pub admits_null : Option String → Option String → Bool
admits_null none s = true
admits_null (some f) none = f == ""
admits_null (some f) (some s) = f == "" || f == s

abbrev pub same_flag : Bool → Bool → Bool
same_flag true b = b
same_flag false b = not b

abbrev pub admits_flag : Option Bool → Bool → Bool
admits_flag none b = true
admits_flag (some f) b = same_flag f b

unfoldable pub matches : Filters → Row → Bool
matches f r =
    admits f.status r.status
    && (admits f.batch r.batch
        && (admits_flag f.is_complete r.is_complete
            && (admits_null f.sip_uuid r.sip_uuid
                && not (f.exclude_backfill && starts_with "aip-backfill-" r.batch))))

-- Newest first: the table is in the order of the ids.
unfoldable pub list_queue : Filters → ℕ → Db → List Row
unfolding matches
list_queue f limit db = take limit (filter (matches f) (reverse db.rows))

unfoldable pub count_rows_in_states : List String → Db → ℕ
unfolding count_where
count_rows_in_states states db =
    count_where (λ r. contains states r.pipeline_state && not r.is_complete) db.rows

unfoldable pub get_timeline : ℕ → Db → List Event
get_timeline queue_id db = filter (λ e. e.queue_id == queue_id) db.events
