-- ===== src/Ingester/Queue/Store.antt =====
-- The database of the ingest queue: tbl_ingest_queue and tbl_ingest_events as lists in primary-key
-- order, with the monad of the operations. Of a queue row it keeps the columns that ingester/ reads.
use repo_backend_v.Base.{ℕ, String, Bool, Option, none, some, List, [], ◌∷◌}
use repo_backend_v.Ingester.States.{Severity}

-- The columns that only the stages read; "" stands for NULL and for the empty text alike.
pub record Details : Type 0 where
  pub metadata_uri : String
  pub metadata : String
  pub collection_uuid : String
  pub transfer_uuid : String
  pub transfer_folder : String
  pub dip_path : String
  pub micro_service : String
  pub file_count : ℕ
  pub bytes_uploaded : ℕ
  pub total_bytes : ℕ

-- `pipeline_state` is "" for NULL, which the code does not tell from the empty text.
pub record Row : Type 0 where
  pub id : ℕ
  pub batch : String
  pub package_name : String
  pub status : String
  pub pipeline_state : String
  pub severity : Severity
  pub suggested_action : Option String
  pub error : Option String
  pub is_complete : Bool
  pub sip_uuid : Option String
  pub details : Details
  pub last_poll_at : Option ℕ
  pub updated : ℕ

-- The JSON of an event: an object by its text fields, or any other text.
pub data Payload : Type 0 where
  raw : String → Payload
  object : List (String × String) → Payload

pub record Event : Type 0 where
  pub queue_id : ℕ
  pub from_state : Option String
  pub to_state : String
  pub event_type : String
  pub actor : String
  pub payload : Option Payload
  pub created_at : ℕ

-- `faults` says how the next transactions end: `none` commits, `some message` is the database's
-- error. Transactions beyond the list commit. `now` is the clock.
pub record Db : Type 0 where
  pub rows : List Row
  pub events : List Event
  pub next_id : ℕ
  pub now : ℕ
  pub faults : List (Option String)

pub data Error : Type 0 where
  validation : String → Error
  not_found : ℕ → Error
  forbidden : String → Error
  database : String → Error

pub data Result {ℓ} (A : Type ℓ) : Type ℓ where
  ok : A → Result A
  err : Error → Result A

-- An operation: its result or the error that it throws, and the database afterwards.
abbrev pub M : Type 0 → Type 0
M A = Db → Result A × Db

abbrev pub pure : {A : Type 0} → A → M A
pure a db = (ok a, db)

abbrev pub throw : {A : Type 0} → Error → M A
throw e db = (err e, db)

abbrev pub continue : {A B : Type 0} → (A → M B) → Result A × Db → Result B × Db
continue k (ok a, db) = k a db
continue k (err e, db) = (err e, db)

infixl 5 ◌>>=◌ ◌>>◌
abbrev pub ◌>>=◌ : {A B : Type 0} → M A → (A → M B) → M B
◌>>=◌ m k db = continue k (m db)

abbrev pub ◌>>◌ : {B : Type 0} → M (Unit {0}) → M B → M B
m >> k = m >>= λ _. k

abbrev pub handle : {A : Type 0} → (Error → M A) → Result A × Db → Result A × Db
handle h (ok a, db) = (ok a, db)
handle h (err e, db) = h e db

-- `try { m } catch (e) { h e }`
abbrev pub catch : {A : Type 0} → M A → (Error → M A) → M A
catch m h db = handle h (m db)

abbrev pub gets : {A : Type 0} → (Db → A) → M A
gets f db = (ok (f db), db)

abbrev pub modify : (Db → Db) → M (Unit {0})
modify f db = (ok tt, f db)

-- The end of a transaction's body: an error rolls its writes back.
abbrev pub commit : {A : Type 0} → Db → Result A × Db → Result A × Db
commit start (ok a, db) = (ok a, db)
commit start (err e, db) = (err e, start)

abbrev pub run_with : {A : Type 0} → List (Option String) → M A → M A
run_with [] body db = commit db (body db)
run_with (none ∷ later) body db =
    let start = record db { faults = later } in commit start (body start)
run_with (some message ∷ later) body db = (err (database message), record db { faults = later })

-- `knex.transaction(async (trx) => body)`
unfoldable pub transaction : {A : Type 0} → M A → M A
transaction body db = run_with db.faults body db
