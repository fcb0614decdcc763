-- ===== src/Repository/AipStore.antt =====
-- repository/aip_store_model.js: the table of the copies of archival packages, its status codes, and the
-- dashboard's filter on them. A column that is only shown is left out, as are the search, the sort and
-- the pages of the list, and the checks that an id is positive and a pid is a UUID. Times are
-- milliseconds.
use repo_backend_v.Base.{
  ℕ, ◌+◌, String, Bool, true, false, not, ◌&&◌, ◌||◌, Option, none, some, List, [], ◌∷◌, ◌++◌, map,
  ltb, if◌then◌else◌, ◌==◌, nat_eq, string_eq, contains, filter, find, get_or,
}
use repo_backend_v.Base.Table.{update_where, count_where}

pub record Aip : Type 0 where
  pub id : ℕ
  pub uuid : String
  pub aip_uuid : Option String
  pub aip : String
  pub aip_legacy : String
  pub wasabi_key : Option String
  pub is_migrated : ℕ
  pub attempts : ℕ
  pub next_attempt_at : Option ℕ
  pub error : Option String
  pub message : Option String
  pub downloaded : ℕ

-- STATUS
abbrev pub initial_code : ℕ
initial_code = 0

abbrev pub legacy_not_found_code : ℕ
legacy_not_found_code = 2

abbrev pub legacy_request_failed_code : ℕ
legacy_request_failed_code = 3

abbrev pub legacy_migrated_ok_code : ℕ
legacy_migrated_ok_code = 5

abbrev pub ingest_copied_ok_code : ℕ
ingest_copied_ok_code = 6

abbrev pub ingest_copy_failed_code : ℕ
ingest_copy_failed_code = 7

abbrev pub am_not_found_code : ℕ
am_not_found_code = 8

unfoldable pub is_terminal_success : Aip → Bool
is_terminal_success r =
    r.is_migrated == legacy_migrated_ok_code || r.is_migrated == ingest_copied_ok_code

unfoldable pub is_failure : Aip → Bool
is_failure r =
    r.is_migrated == legacy_not_found_code
    || (r.is_migrated == legacy_request_failed_code || r.is_migrated == ingest_copy_failed_code)

unfoldable pub is_orphan : Aip → Bool
is_orphan r = r.is_migrated == am_not_found_code

pub data DisplayStatus : Type 0 where
  copied : DisplayStatus
  failed : DisplayStatus
  orphan : DisplayStatus
  in_progress : DisplayStatus

unfoldable pub derive_display_status : Aip → DisplayStatus
unfolding is_terminal_success is_failure is_orphan
derive_display_status r =
    if is_terminal_success r
    then copied
    else if is_orphan r
    then orphan
    else if is_failure r
    then failed
    else in_progress

-- The codes that each status filter of the list names.
abbrev pub copied_codes : List ℕ
copied_codes = legacy_migrated_ok_code ∷ ingest_copied_ok_code ∷ []

abbrev pub failed_codes : List ℕ
failed_codes = legacy_not_found_code ∷ legacy_request_failed_code ∷ ingest_copy_failed_code ∷ []

-- `filter.status`; 'pending' is the filter for what is shown as in progress.
unfoldable pub passes : DisplayStatus → Aip → Bool
passes copied r = contains copied_codes r.is_migrated
passes failed r = contains failed_codes r.is_migrated
passes orphan r = r.is_migrated == am_not_found_code
passes in_progress r =
    not (contains (copied_codes ++ failed_codes ++ am_not_found_code ∷ []) r.is_migrated)

unfoldable pub list_status : DisplayStatus → List Aip → List Aip
list_status s rows = filter (passes s) rows

unfoldable pub get_by_uuid : String → List Aip → Option Aip
get_by_uuid pid rows = find (λ r. r.uuid == pid) rows

abbrev pub has_id : ℕ → Aip → Bool
has_id id r = r.id == id

unfoldable pub get : ℕ → List Aip → Option Aip
get id rows = find (has_id id) rows

abbrev pub waits : ℕ → Option ℕ → Bool
waits now none = false
waits now (some t) = ltb now t

abbrev pub named_in : List String → Option String → Bool
named_in uuids none = false
named_in uuids (some u) = contains uuids u

-- The uuids of the rows that wait, among those asked for; an empty text is none.
unfoldable pub list_uuids_in_backoff : ℕ → List String → List Aip → List String
list_uuids_in_backoff now aip_uuids rows =
    let uuids = filter (λ u. not (u == "")) aip_uuids in
    map (λ r. get_or r.aip_uuid "")
      (filter (λ r. named_in uuids r.aip_uuid && waits now r.next_attempt_at) rows)

-- The key before the last resort, the base name of the legacy path.
abbrev pub truthy_or : Option String → Option String → Option String
truthy_or none y = y
truthy_or (some x) y = if x == "" then y else some x

-- `legacy_name` gives the base name of a legacy path without its first "_transfer", none for an empty
-- one.
unfoldable pub derive_wasabi_key : (String → Option String) → Aip → Option String
derive_wasabi_key legacy_name r =
    truthy_or r.wasabi_key
      (truthy_or (some r.aip) (if r.aip_legacy == "" then none else legacy_name r.aip_legacy))

-- The columns that stage 6 writes, as the changes it makes to a row.
abbrev pub blank : ℕ → String → Aip
blank id pid = record {
  id = id;
  uuid = pid;
  aip_uuid = none;
  aip = "";
  aip_legacy = "";
  wasabi_key = none;
  is_migrated = initial_code;
  attempts = 0;
  next_attempt_at = none;
  error = none;
  message = none;
  downloaded = 0;
}

pub record Upserted : Type 0 where
  pub id : ℕ
  pub created : Bool
  pub rows : List Aip

abbrev pub upsert_found : Option Aip → ℕ → String → (Aip → Aip) → List Aip → Upserted
upsert_found none next_id pid patch rows = record {
  id = next_id;
  created = true;
  rows = rows ++ patch (blank next_id pid) ∷ [];
}
upsert_found (some r) next_id pid patch rows = record {
  id = r.id;
  created = false;
  rows = update_where (has_id r.id) patch rows;
}

-- The new row's key is the next of the table's.
unfoldable pub upsert_by_uuid : ℕ → String → (Aip → Aip) → List Aip → Upserted
unfolding get_by_uuid
upsert_by_uuid next_id pid patch rows = upsert_found (get_by_uuid pid rows) next_id pid patch rows

-- An update by id: none where no row has the id, else the row read back, and the table.
unfoldable pub update : ℕ → (Aip → Aip) → List Aip → Option (Option Aip × List Aip)
unfolding get
update id patch rows =
    if count_where (has_id id) rows == 0
    then none
    else some (get id (update_where (has_id id) patch rows), update_where (has_id id) patch rows)

unfoldable pub increment_downloaded : ℕ → List Aip → Option (List Aip)
increment_downloaded id rows =
    if count_where (has_id id) rows == 0
    then none
    else some (update_where (has_id id) (λ r. record r { downloaded = r.downloaded + 1 }) rows)

abbrev pub cleared : Aip → Aip
cleared r = record r {
  attempts = 0;
  next_attempt_at = none;
  error = none;
  message = none;
  is_migrated = initial_code;
}

unfoldable pub reset_for_retry : ℕ → List Aip → Option (Option Aip × List Aip)
unfolding update
reset_for_retry id rows = update id cleared rows
