-- ===== src/Ingester/Stages/World.antt =====
-- What the stages of ingester/stages/ work on: the queue, with the tables of the repository's own
-- database that stage 6 reads and writes, tbl_objects and tbl_aip_store. Each statement on that
-- database uses one of `faults`: `none` succeeds, `some message` is the error that it throws.
use repo_backend_v.Base.{
  ℕ, suc, String, Option, none, some, List, [], ◌∷◌, ◌==◌, string_eq, find, if◌then◌else◌,
}
use repo_backend_v.Ingester.Queue.Store.{Db, Error, database, Result, ok, err, M}
use repo_backend_v.Repository.AipStore.{Aip, get_by_uuid, Upserted, upsert_by_uuid}

pub record Object : Type 0 where
  pub pid : String
  pub sip_uuid : String

pub record World : Type 0 where
  pub queue : Db
  pub objects : List Object
  pub copies : List Aip
  pub next_copy : ℕ
  pub faults : List (Option String)

-- A stage: its result or the error that it throws, and the world afterwards.
abbrev pub S : Type 0 → Type 0
S A = World → Result A × World

abbrev pub continue : {A B : Type 0} → (A → S B) → Result A × World → Result B × World
continue k (ok a, w) = k a w
continue k (err e, w) = (err e, w)

infixl 5 ◌>>=◌
abbrev pub ◌>>=◌ : {A B : Type 0} → S A → (A → S B) → S B
◌>>=◌ m k w = continue k (m w)

abbrev pub pure : {A : Type 0} → A → S A
pure a w = (ok a, w)

abbrev pub handle : {A : Type 0} → (Error → S A) → Result A × World → Result A × World
handle h (ok a, w) = (ok a, w)
handle h (err e, w) = h e w

-- `try { m } catch (e) { h e }`
abbrev pub catch : {A : Type 0} → S A → (Error → S A) → S A
catch m h w = handle h (m w)

abbrev pub place : {A : Type 0} → World → Result A × Db → Result A × World
place w (r, db) = (r, record w { queue = db })

-- An operation of the queue, as the stages await it.
abbrev pub on_queue : {A : Type 0} → M A → S A
on_queue m w = place w (m w.queue)

abbrev pub first_fault : List (Option String) → Option String
first_fault [] = none
first_fault (f ∷ later) = f

abbrev pub later_faults : List (Option String) → List (Option String)
later_faults [] = []
later_faults (f ∷ later) = later

abbrev pub attempt : {A : Type 0} → Option String → S A → S A
attempt none m w = m w
attempt (some message) m w = (err (database message), w)

-- One statement on the repository's database.
abbrev pub statement : {A : Type 0} → S A → S A
statement m w = attempt (first_fault w.faults) m (record w { faults = later_faults w.faults })

abbrev pub pid_of : Option Object → Option String
pid_of none = none
pid_of (some o) = some o.pid

unfoldable pub resolve_repo_pid : String → S (Option String)
resolve_repo_pid sip_uuid =
    statement λ w. (ok (pid_of (find (λ o. o.sip_uuid == sip_uuid) w.objects)), w)

unfoldable pub get_copy : String → S (Option Aip)
get_copy pid = statement λ w. (ok (get_by_uuid pid w.copies), w)

abbrev pub store_copies : Upserted → World → Result Upserted × World
store_copies u w = (
  ok u,
  record w { copies = u.rows; next_copy = if u.created then suc w.next_copy else w.next_copy },
)

unfoldable pub upsert_copy : String → (Aip → Aip) → S Upserted
upsert_copy pid patch =
    statement λ w. store_copies (upsert_by_uuid w.next_copy pid patch w.copies) w
