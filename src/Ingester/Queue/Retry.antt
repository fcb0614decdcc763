-- ===== src/Ingester/Queue/Retry.antt =====
-- The one-shot retry of `update_queue` on a row-version conflict.
use repo_backend_v.Base.{
  String, Bool, true, false, ◌≡◌, refl, ap, ◌∙◌, Option, none, some, List, [], ◌∷◌, filter,
}
use repo_backend_v.Ingester.Queue.Store.{Row, Db, M, Error, Result, err, database, handle, run_with}
use repo_backend_v.Ingester.Queue.Update.{
  Patch, Opts, Updated, write_found, update_queue_txn, is_concurrent_modification, update_queue,
}
use repo_backend_v.Ingester.Queue.Outcome.{commit-write_found}

module _ (where' : Row → Bool) (data' : Patch) (opts : Opts) where
  handled :
      (h : Error → M Updated) (found : List Row) (db : Db)
      → handle h (write_found found where' data' opts db) ≡ write_found found where' data' opts db
  unfolding write_found
  handled h [] db = refl
  handled h (r ∷ rs) db = refl

  txn_calm :
      (db : Db)
      → db.faults ≡ []
      → update_queue_txn where' data' opts db
        ≡ write_found (filter where' db.rows) where' data' opts db
  unfolding update_queue_txn
  txn_calm db calm =
      ap
        (λ faults.
          run_with faults (λ db'. write_found (filter where' db'.rows) where' data' opts db') db)
        calm
      ∙ commit-write_found where' data' opts (filter where' db.rows) db db

  -- Where the database fails no transaction, an update commits.
  pub update_queue-calm :
      (db : Db)
      → db.faults ≡ []
      → update_queue where' data' opts db ≡ write_found (filter where' db.rows) where' data' opts db
  unfolding update_queue
  update_queue-calm db calm = rw (txn_calm db calm) (handled _ (filter where' db.rows) db)

module _ (where' : Row → Bool) (data' : Patch) (opts : Opts) (db : Db)
    (later : List (Option String)) where
  abbrev faulted : List (Option String) → Db
  faulted faults = record db { faults = faults }

  -- What a transaction that commits returns and leaves.
  abbrev pub committed : Db → Result Updated × Db
  committed db' = write_found (filter where' db'.rows) where' data' opts db'

  txn_none : update_queue_txn where' data' opts (faulted (none ∷ later)) ≡ committed (faulted later)
  unfolding update_queue_txn
  txn_none =
      commit-write_found where' data' opts (filter where' db.rows) (faulted later) (faulted later)

  -- A transaction that the database fails.
  txn_some :
      (message : String) (rest : List (Option String))
      → update_queue_txn where' data' opts (faulted (some message ∷ rest))
        ≡ (err (database message), faulted rest)
  unfolding update_queue_txn
  txn_some message rest = refl

  -- Without a fault an update commits; a conflict is retried once and the retry's commit is the
  -- result; a second error of any kind, and a first error that is no conflict, are thrown and leave
  -- the rows and the log as they were.
  pub update_queue-faults :
      (first second : String)
      → is_concurrent_modification (database first) ≡ true
      → is_concurrent_modification (database second) ≡ false
      → (update_queue where' data' opts (faulted (none ∷ later)) ≡ committed (faulted later))
        × (update_queue where' data' opts (faulted (some first ∷ none ∷ later))
            ≡ committed (faulted later))
        × (update_queue where' data' opts (faulted (some first ∷ some first ∷ later))
            ≡ (err (database first), faulted later))
        × (update_queue where' data' opts (faulted (some first ∷ some second ∷ later))
            ≡ (err (database second), faulted later))
        × (update_queue where' data' opts (faulted (some second ∷ later))
            ≡ (err (database second), faulted later))
  unfolding update_queue
  update_queue-faults first second conflict other = (
    rw txn_none (handled where' data' opts _ (filter where' db.rows) (faulted later)),
    rw (txn_some first (none ∷ later), conflict) txn_none,
    rw (txn_some first (some first ∷ later), conflict) (txn_some first later),
    rw (txn_some first (some second ∷ later), conflict) (txn_some second later),
    rw (txn_some second later, other) refl,
  )
