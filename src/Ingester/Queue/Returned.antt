-- ===== src/Ingester/Queue/Returned.antt =====
-- An `update_queue` that returns, its retry included, has written every row that passes.
use repo_backend_v.Base.{
  String, Bool, ◌≡◌, refl, sym, inl, inr, ◌∙◌, Option, none, some, List, [], ◌∷◌, filter,
  Bool-cases, if◌then◌else◌,
}
use repo_backend_v.Base.Table.{update_where, update_where_none}
use repo_backend_v.Ingester.Queue.Store.{Row, Db, Result, ok, err, run_with, handle, throw}
use repo_backend_v.Ingester.Queue.Update.{
  Patch, Opts, Updated, enrich_update, write, apply_update, write_found, update_queue_txn,
  is_concurrent_modification, update_queue,
}
use repo_backend_v.Ingester.Queue.Outcome.{Unchanged, commit-write_found, txn_err}

module _ (where' : Row → Bool) (data' : Patch) (opts : Opts) where
  -- An update that returns has written the rows that pass.
  found-rows :
      (found : List Row) (db : Db)
      → filter where' db.rows ≡ found
      → (write_found found where' data' opts db).1.rows
        ≡ update_where where' (write (enrich_update data' db.now)) db.rows
  unfolding write_found
  found-rows [] db e = sym (update_where_none where' _ db.rows e)
  found-rows (r ∷ rs) db e = unfold apply_update in refl

  run-rows :
      (faults : List (Option String)) (db : Db) (u : Updated)
      → (run_with faults (λ db'. write_found (filter where' db'.rows) where' data' opts db') db).0
        ≡ ok u
      → (run_with faults
          (λ db'. write_found (filter where' db'.rows) where' data' opts db')
          db).1.rows
        ≡ update_where where' (write (enrich_update data' db.now)) db.rows
  run-rows [] db u h =
      rw (commit-write_found where' data' opts (filter where' db.rows) db db)
        (found-rows (filter where' db.rows) db refl)
  run-rows (none ∷ later) db u h =
      let start : Db = record db { faults = later } in
      rw (commit-write_found where' data' opts (filter where' db.rows) start start)
        (found-rows (filter where' db.rows) start refl)
  run-rows (some message ∷ later) db u h = cc

  txn-rows :
      (db : Db) (u : Updated)
      → (update_queue_txn where' data' opts db).0 ≡ ok u
      → (update_queue_txn where' data' opts db).1.rows
        ≡ update_where where' (write (enrich_update data' db.now)) db.rows
  unfolding update_queue_txn
  txn-rows db u h = run-rows db.faults db u h

  attempt-rows :
      (db : Db) (u : Updated) (x : Result Updated × Db)
      → update_queue_txn where' data' opts db ≡ x
      → let y =
          handle
            (λ e.
              if is_concurrent_modification e then update_queue_txn where' data' opts else throw e)
            x in
        y.0 ≡ ok u → y.1.rows ≡ update_where where' (write (enrich_update data' db.now)) db.rows
  attempt-rows db u (ok a, db') e h =
      let done : (update_queue_txn where' data' opts db).0 ≡ ok a = λ i. (e i).0 in
      let same : (update_queue_txn where' data' opts db).1 ≡ db' = λ i. (e i).1 in
      rw same at (txn-rows db a done)
  attempt-rows db u (err f, db') e h =
      let failed : (update_queue_txn where' data' opts db).0 ≡ err f = λ i. (e i).0 in
      let same : (update_queue_txn where' data' opts db).1 ≡ db' = λ i. (e i).1 in
      let v : Unchanged db db' = rw same at (txn_err where' data' opts db failed) in
      elim (Bool-cases (is_concurrent_modification f)) [
        | inl again ↦
            let h' : (update_queue_txn where' data' opts db').0 ≡ ok u = rw again at h in
            rw again (
              txn-rows db' u h'
              ∙ (λ i. update_where where' (write (enrich_update data' (v.now i))) (v.rows i)))
        | inr other ↦ (let bad : err f ≡ ok u = rw other at h in cc)
      ]

  pub update_queue-rows :
      (db : Db) (u : Updated)
      → (update_queue where' data' opts db).0 ≡ ok u
      → (update_queue where' data' opts db).1.rows
        ≡ update_where where' (write (enrich_update data' db.now)) db.rows
  unfolding update_queue
  update_queue-rows db u h = attempt-rows db u (update_queue_txn where' data' opts db) refl h
