-- ===== src/Ingester/Queue/Outcome.antt =====
-- What one call of `update_queue` can do to the database: nothing, or the whole update.
use repo_backend_v.Base.{
  String, Bool, ◌≡◌, refl, ◌⊎◌, ◌∙◌, inl, inr, Option, none, some, List, [], ◌∷◌, filter,
  Bool-cases, if◌then◌else◌,
}
use repo_backend_v.Ingester.Queue.Store.{
  Row, Db, Error, Result, ok, err, commit, run_with, handle, throw,
}
use repo_backend_v.Ingester.Queue.Update.{
  Patch, Opts, Updated, apply_update, write_found, update_queue_txn, is_concurrent_modification,
  update_queue,
}

-- Only the list of coming faults differs.
pub record Unchanged (db db' : Db) : Type 0 where
  pub rows : db'.rows ≡ db.rows
  pub events : db'.events ≡ db.events
  pub next_id : db'.next_id ≡ db.next_id
  pub now : db'.now ≡ db.now

-- The rows that pass are written, and their transitions are logged.
pub record Wrote (where' : Row → Bool) (data' : Patch) (opts : Opts) (db db' : Db) : Type 0 where
  pub rows : db'.rows ≡ (apply_update where' data' opts db).rows
  pub events : db'.events ≡ (apply_update where' data' opts db).events
  pub next_id : db'.next_id ≡ db.next_id
  pub now : db'.now ≡ db.now

module _ (where' : Row → Bool) (data' : Patch) (opts : Opts) where
  abbrev Outcome : Db → Db → Type 0
  Outcome db db' = Unchanged db db' ⊎ Wrote where' data' opts db db'

  write_found-Outcome :
      (found : List Row) (db : Db) → Outcome db (write_found found where' data' opts db).1
  unfolding write_found
  write_found-Outcome [] db =
      inl (record { rows = refl; events = refl; next_id = refl; now = refl })
  write_found-Outcome (r ∷ rs) db = inr (record {
    rows = refl;
    events = refl;
    next_id = unfold apply_update in refl;
    now = unfold apply_update in refl;
  })

  -- The body of the transaction throws nothing, so nothing is rolled back.
  pub commit-write_found :
      (found : List Row) (start db : Db)
      → commit start (write_found found where' data' opts db)
        ≡ write_found found where' data' opts db
  unfolding write_found
  commit-write_found [] start db = refl
  commit-write_found (r ∷ rs) start db = refl

  -- The clock, the rows and the log do not depend on the coming faults.
  Outcome-faults :
      (db : Db) (later : List (Option String)) (db' : Db)
      → Outcome (record db { faults = later }) db'
      → Outcome db db'
  unfolding apply_update
  Outcome-faults db later db' (inl u) =
      inl (record { rows = u.rows; events = u.events; next_id = u.next_id; now = u.now })
  Outcome-faults db later db' (inr w) =
      inr (record { rows = w.rows; events = w.events; next_id = w.next_id; now = w.now })

  run-Outcome :
      (faults : List (Option String)) (db : Db)
      → Outcome db
          (run_with faults (λ db'. write_found (filter where' db'.rows) where' data' opts db') db).1
  run-Outcome [] db =
      rw (commit-write_found (filter where' db.rows) db db)
        (write_found-Outcome (filter where' db.rows) db)
  run-Outcome (none ∷ later) db =
      let start : Db = record db { faults = later } in
      rw (commit-write_found (filter where' db.rows) start start)
        (Outcome-faults db later _ (write_found-Outcome (filter where' db.rows) start))
  run-Outcome (some message ∷ later) db =
      inl (record { rows = refl; events = refl; next_id = refl; now = refl })

  write_found-ne-err :
      (found : List Row) (db : Db) {e : Error}
      → (write_found found where' data' opts db).0 ≡ err e
      → ⊥
  unfolding write_found
  write_found-ne-err [] db h = cc
  write_found-ne-err (r ∷ rs) db h = cc

  txn-Outcome : (db : Db) → Outcome db (update_queue_txn where' data' opts db).1
  unfolding update_queue_txn
  txn-Outcome db = run-Outcome db.faults db

  -- A transaction that fails writes nothing.
  pub txn_err :
      (db : Db) {e : Error}
      → (update_queue_txn where' data' opts db).0 ≡ err e
      → Unchanged db (update_queue_txn where' data' opts db).1
  unfolding update_queue_txn
  txn_err db h = go db.faults db h
    where
      go :
          (faults : List (Option String)) (db : Db) {e : Error}
          → (run_with faults
              (λ db'. write_found (filter where' db'.rows) where' data' opts db')
              db).0
            ≡ err e
          → Unchanged db
              (run_with faults
                (λ db'. write_found (filter where' db'.rows) where' data' opts db')
                db).1
      go [] db h = absurd (
          write_found-ne-err (filter where' db.rows) db
            (rw (commit-write_found (filter where' db.rows) db db) at h))
      go (none ∷ later) db h =
          let start : Db = record db { faults = later } in
          absurd (
            write_found-ne-err (filter where' db.rows) start
              (rw (commit-write_found (filter where' db.rows) start start) at h))
      go (some message ∷ later) db h = record {
        rows = refl;
        events = refl;
        next_id = refl;
        now = refl;
      }

  Unchanged-then : {db db' db'' : Db} → Unchanged db db' → Outcome db' db'' → Outcome db db''
  unfolding apply_update
  Unchanged-then u (inl v) = inl (record {
    rows = v.rows ∙ u.rows;
    events = v.events ∙ u.events;
    next_id = v.next_id ∙ u.next_id;
    now = v.now ∙ u.now;
  })
  Unchanged-then u (inr w) =
      inr (record { rows = cc; events = cc; next_id = w.next_id ∙ u.next_id; now = w.now ∙ u.now })

  -- The attempt that the handler is given: its own outcome, or after an error no change.
  attempt :
      (db : Db) (x : Result Updated × Db)
      → update_queue_txn where' data' opts db ≡ x
      → Outcome db
          (handle
            (λ e.
              if is_concurrent_modification e then update_queue_txn where' data' opts else throw e)
            x).1
  attempt db (ok a, db') e =
      let same : (update_queue_txn where' data' opts db).1 ≡ db' = λ i. (e i).1 in
      rw same at (txn-Outcome db)
  attempt db (err f, db') e =
      let failed : (update_queue_txn where' data' opts db).0 ≡ err f = λ i. (e i).0 in
      let same : (update_queue_txn where' data' opts db).1 ≡ db' = λ i. (e i).1 in
      let u : Unchanged db db' = rw same at (txn_err db failed) in
      elim (Bool-cases (is_concurrent_modification f)) [
        | inl again ↦ rw again (Unchanged-then u (txn-Outcome db'))
        | inr other ↦ rw other (inl u)
      ]

  -- One call of `update_queue`, its retry included, writes everything once or nothing.
  pub update_queue-Outcome : (db : Db) → Outcome db (update_queue where' data' opts db).1
  unfolding update_queue
  update_queue-Outcome db = attempt db (update_queue_txn where' data' opts db) refl
