-- ===== src/Ingester/Queue/Update.antt =====
-- ingester/model.js: `enrich_update` and `update_queue` with its event log and its one retry.
use Prim.Native.Char.{code}
use repo_backend_v.Base.{
  ℕ, ◌+◌, String, Bool, true, false, ◌&&◌, ◌||◌, Option, none, some, List, [], ◌∷◌, ◌++◌, map, leb,
  if◌then◌else◌, ◌==◌, nat_eq, string_eq, get_or, length, filter,
}
use repo_backend_v.Base.Table.{update_where}
use repo_backend_v.Ingester.States.{Severity, get_status_metadata}
use repo_backend_v.Ingester.Queue.Store.{
  Details, Row, Payload, Event, Db, Error, database, ok, M, throw, catch, transaction,
}

-- The update spec of a caller: the columns that it sets, those of the stages as the change that it
-- makes to them.
pub record Patch : Type 0 where
  pub status : Option String
  pub pipeline_state : Option String
  pub severity : Option Severity
  pub suggested_action : Option (Option String)
  pub error : Option (Option String)
  pub is_complete : Option Bool
  pub sip_uuid : Option (Option String)
  pub details : Details → Details
  pub last_poll_at : Option (Option ℕ)
  pub updated : Option ℕ

abbrev pub no_change : Patch
no_change = record {
  status = none;
  pipeline_state = none;
  severity = none;
  suggested_action = none;
  error = none;
  is_complete = none;
  sip_uuid = none;
  details = λ d. d;
  last_poll_at = none;
  updated = none;
}

abbrev pub to_status : String → Patch
to_status s = record no_change { status = some s }

-- The state that the update writes: the explicit one, else the status.
abbrev pub target_state : Patch → Option String
target_state p = elim p.pipeline_state [ none ↦ p.status | some s ↦ some s ]

fill_metadata : Option String → Patch → Patch
fill_metadata none p = p
fill_metadata (some s) p =
    let m = get_status_metadata s in
    record p {
      severity = some (get_or p.severity m.severity);
      suggested_action = some (get_or p.suggested_action m.suggested_action);
    }

unfoldable pub enrich_update : Patch → ℕ → Patch
unfolding fill_metadata
enrich_update data' now =
    let out = record data' { pipeline_state = target_state data' } in
    record (fill_metadata out.pipeline_state out) { updated = some now }

-- UPDATE … SET with the columns of the patch.
unfoldable pub write : Patch → Row → Row
write p r = record r {
  status = get_or p.status r.status;
  pipeline_state = get_or p.pipeline_state r.pipeline_state;
  severity = get_or p.severity r.severity;
  suggested_action = get_or p.suggested_action r.suggested_action;
  error = get_or p.error r.error;
  is_complete = get_or p.is_complete r.is_complete;
  sip_uuid = get_or p.sip_uuid r.sip_uuid;
  details = p.details r.details;
  last_poll_at = get_or p.last_poll_at r.last_poll_at;
  updated = get_or p.updated r.updated;
}

pub record Opts : Type 0 where
  pub actor : String
  pub event_type : String
  pub payload : Option Payload

-- `text || null`
abbrev pub or_null : String → Option String
or_null s = if s == "" then none else some s

abbrev pub transition : Opts → String → ℕ → Row → Event
transition opts to now r = record {
  queue_id = r.id;
  from_state = or_null r.pipeline_state;
  to_state = to;
  event_type = opts.event_type;
  actor = opts.actor;
  payload = opts.payload;
  created_at = now;
}

-- The loop over `before`: one event for each row whose state changes.
unfoldable pub transitions : Opts → String → ℕ → List Row → List Event
transitions opts to now [] = []
transitions opts to now (r ∷ before) =
    let rest = transitions opts to now before in
    if r.pipeline_state == to then rest else transition opts to now r ∷ rest

unfoldable pub log_transitions : Opts → Option String → ℕ → List Row → List Event
unfolding transitions
log_transitions opts none now before = []
log_transitions opts (some to) now before = transitions opts to now before

-- The database after an update of the rows that pass the test.
unfoldable pub apply_update : (Row → Bool) → Patch → Opts → Db → Db
apply_update where' data' opts db =
    let enriched = enrich_update data' db.now in
    record db {
      rows = update_where where' (write enriched) db.rows;
      events =
          db.events ++ log_transitions opts enriched.pipeline_state db.now (filter where' db.rows);
    }

pub record Updated : Type 0 where
  pub affected : ℕ
  pub ids : List ℕ

-- An update that finds no row is the early return.
unfoldable pub write_found : List Row → (Row → Bool) → Patch → Opts → M Updated
write_found [] where' data' opts db = (ok (record { affected = 0; ids = [] }), db)
write_found (r ∷ rs) where' data' opts db = (
  ok (record { affected = length (r ∷ rs); ids = map (λ q. q.id) (r ∷ rs) }),
  apply_update where' data' opts db,
)

unfoldable pub update_queue_txn : (Row → Bool) → Patch → Opts → M Updated
unfolding transaction
update_queue_txn where' data' opts =
    transaction λ db. write_found (filter where' db.rows) where' data' opts db

-- The code points of a text in lower case, and the search of a piece in it, as the regular
-- expression /Record has changed since last read/i does on ASCII.
abbrev lower : ℕ → ℕ
lower c = if leb b'A' c && leb c b'Z' then c + 32 else c

abbrev pub lower_codes : String → List ℕ
lower_codes String.[] = []
lower_codes (String.◌∷◌ c s) = lower (code c) ∷ lower_codes s

unfoldable pub has_prefix : List ℕ → List ℕ → Bool
has_prefix [] s = true
has_prefix (c ∷ p) [] = false
has_prefix (c ∷ p) (d ∷ s) = c == d && has_prefix p s

unfoldable pub has_infix : List ℕ → List ℕ → Bool
unfolding has_prefix
has_infix p [] = has_prefix p []
has_infix p (c ∷ s) = has_prefix p (c ∷ s) || has_infix p s

unfoldable pub is_concurrent_modification : Error → Bool
unfolding has_infix has_prefix
is_concurrent_modification (database message) =
    has_infix (lower_codes "record has changed since last read") (lower_codes message)
is_concurrent_modification _ = false

-- `where` and `data` are always objects here, so the two validations cannot fail.
unfoldable pub update_queue : (Row → Bool) → Patch → Opts → M Updated
update_queue where' data' opts =
    catch (update_queue_txn where' data' opts)
      λ e. if is_concurrent_modification e then update_queue_txn where' data' opts else throw e
