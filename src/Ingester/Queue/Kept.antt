-- ===== src/Ingester/Queue/Kept.antt =====
-- Every operation of ingester/model.js keeps the invariant of the queue.
use repo_backend_v.Base.{
  ℕ, suc, ◌+◌, ◌<◌, String, false, ◌≡◌, refl, sym, ◌∙◌, Option, none, some, List, [], ◌∷◌, ◌++◌,
  arith, ◌==◌, nat_eq, string_eq, eq_iff, All, All-imp, All-zip, All-append, contains, Bool-cases,
  inl, inr,
}
use repo_backend_v.Base.Table.{All-update_where}
use repo_backend_v.Ingester.Queue.Store.{
  Row, Event, Db, M, Result, ok, err, continue, pure, commit, run_with, transaction,
}
use repo_backend_v.Ingester.Queue.Update.{Opts, enrich_update, write, Updated, to_status}
use repo_backend_v.Ingester.Queue.Insert.{
  NewRow, first_status, new_row, created_event, insert_row, insert_rows, queue_packages, note_event,
  insert_event,
}
use repo_backend_v.Ingester.Queue.Select.{by_id, get_queue_row}
use repo_backend_v.Ingester.Queue.Cancel.{
  terminal_for_cancel, done, cancel_found, cancel_opts, cancel,
}
use repo_backend_v.Ingester.Queue.Sweep.{
  is_pending_complete, finalized, finalize_pending_completes, reset_each, reset_opts,
}
use repo_backend_v.Ingester.Queue.Audit.{
  latest_state, latest_state-concat, Ascending, IsSynced, IsSound, update-Ascending,
  update_queue-IsSound,
}

-- Time passes, and the database's coming faults are anything.
pub IsSound-faults :
    {db : Db} (now : ℕ) (faults : List (Option String))
    → IsSound db
    → IsSound (record db { now = now; faults = faults })
IsSound-faults now faults s = record {
  synced = s.synced;
  ascending = s.ascending;
  below = s.below;
  audited = s.audited;
}

Ascending-append :
    (rows : List Row) (r : Row)
    → Ascending rows
    → All (λ q. q.id < r.id) rows
    → Ascending (rows ++ r ∷ [])
Ascending-append [] r a b = (tt, tt)
Ascending-append (q ∷ rows) r (above, a) (lt, b) =
    (All-append (λ x. q.id < x.id) rows (r ∷ []) above (lt, tt), Ascending-append rows r a b)

-- A new row that names its state by the status alone, and no empty one.
abbrev pub IsPlainRow : NewRow → Type 0
IsPlainRow r = (r.pipeline_state ≡ none) × ((first_status r == "") ≡ false)

module _ (actor : String) (r : NewRow) (db : Db) (plain : IsPlainRow r) where
  abbrev stored : Row
  stored = new_row db.next_id db.now r

  stored_fields :
      (stored.id ≡ db.next_id)
      × (stored.status ≡ first_status r)
      × (stored.pipeline_state ≡ first_status r)
  unfolding new_row enrich_update write
  stored_fields = (refl, rw plain.0 refl, rw plain.0 refl)

  abbrev made : Event
  made = created_event actor db.next_id db.now r

  made_fields :
      (made.queue_id ≡ db.next_id)
      × (made.to_state ≡ first_status r)
      × (made.event_type ≡ "state_change")
  unfolding created_event
  made_fields = (refl, rw (plain.0, plain.1) refl, refl)

  not_info : ((made.event_type == "info") ≡ false)
  unfolding created_event
  not_info = refl

  insert_row-IsSound : IsSound db → IsSound (insert_row actor r db)
  unfolding insert_row
  insert_row-IsSound s = record {
    synced =
        All-append IsSynced db.rows (stored ∷ []) s.synced
          (stored_fields.1 ∙ sym stored_fields.2, tt);
    ascending = Ascending-append db.rows stored s.ascending (rw stored_fields.0 s.below);
    below =
        All-append (λ q. q.id < suc db.next_id) db.rows (stored ∷ [])
          (All-imp (λ q. q.id < db.next_id) (λ q. q.id < suc db.next_id) (λ q lt. omega arith)
            db.rows s.below)
          (omega (arith, stored_fields.0), tt);
    audited =
        All-append Audited db.rows (stored ∷ [])
          (All-imp
            (λ q. (q.id < db.next_id) × (latest_state q.id db.events ≡ some q.pipeline_state))
            Audited (λ q h. ground (arith, latest_state-concat q.id db.events made, made_fields))
            db.rows
            (All-zip (λ q. q.id < db.next_id)
              (λ q. latest_state q.id db.events ≡ some q.pipeline_state) _ (λ q a b. (a, b)) db.rows
              s.below s.audited))
          (
            ground (
              arith,
              latest_state-concat stored.id db.events made,
              made_fields,
              stored_fields,
              not_info,
            ),
            tt,
          );
  }
    where
      Audited : Row → Type 0
      Audited q = latest_state q.id (db.events ++ made ∷ []) ≡ some q.pipeline_state

insert_rows-IsSound :
    (actor : String) (rs : List NewRow) (ids : List ℕ) (db : Db)
    → All IsPlainRow rs
    → IsSound db
    → IsSound (insert_rows actor rs ids db).1
unfolding insert_rows
insert_rows-IsSound actor [] ids db p s = s
insert_rows-IsSound actor (r ∷ rs) ids db (p, ps) s =
    insert_rows-IsSound actor rs (ids ++ db.next_id ∷ []) (insert_row actor r db) ps
      (insert_row-IsSound actor r db p s)

module _ {A : Type 0} (body : M A) (keep : (db : Db) → IsSound db → IsSound (body db).1) where
  commit-IsSound :
      (start : Db) (x : Result A × Db) → IsSound start → IsSound x.1 → IsSound (commit start x).1
  commit-IsSound start (ok a, db) s t = t
  commit-IsSound start (err e, db) s t = s

  run_with-IsSound :
      (faults : List (Option String)) (db : Db) → IsSound db → IsSound (run_with faults body db).1
  run_with-IsSound [] db s = commit-IsSound db (body db) s (keep db s)
  run_with-IsSound (none ∷ later) db s =
      let start : Db = record db { faults = later } in
      let t : IsSound start = IsSound-faults db.now later s in
      commit-IsSound start (body start) t (keep start t)
  run_with-IsSound (some message ∷ later) db s = IsSound-faults db.now later s

  transaction-IsSound : (db : Db) → IsSound db → IsSound (transaction body db).1
  unfolding transaction
  transaction-IsSound db s = run_with-IsSound db.faults db s

pub queue_packages-IsSound :
    (actor : String) (rs : List NewRow) (db : Db)
    → All IsPlainRow rs
    → IsSound db
    → IsSound (queue_packages actor rs db).1
unfolding queue_packages
queue_packages-IsSound actor [] db p s = s
queue_packages-IsSound actor (r ∷ rs) db p s =
    transaction-IsSound (insert_rows actor (r ∷ rs) [])
      (λ d t. insert_rows-IsSound actor (r ∷ rs) [] d p t) db s

pub insert_event-IsSound :
    (id : ℕ) (to_state : String) (opts : Opts) (db : Db)
    → opts.event_type ≡ "info"
    → IsSound db
    → IsSound (insert_event id to_state opts db).1
unfolding insert_event
insert_event-IsSound id to_state opts db info s = elim (Bool-cases (id == 0)) [
  | inl e ↦ rw e s
  | inr e ↦ elim (Bool-cases (to_state == "")) [
    | inl f ↦ rw (e, f) s
    | inr f ↦
        rw (e, f)
          (record {
            synced = s.synced;
            ascending = s.ascending;
            below = s.below;
            audited =
                All-imp _ _
                  (λ q h. ground (
                    arith,
                    latest_state-concat q.id db.events (note_event id to_state opts db.now),
                    eq_iff opts.event_type "info",
                  ))
                  db.rows s.audited;
          })
  ]
]

-- What follows an operation and only returns leaves its database.
continue-pure :
    {A B : Type 0} (f : A → B) (x : Result A × Db) → (continue (λ a. pure (f a)) x).1 ≡ x.1
continue-pure f (ok a, db) = refl
continue-pure f (err e, db) = refl

cancel_found-IsSound :
    (id : ℕ) (actor reason : String) (found : Option Row) (db : Db)
    → IsSound db
    → IsSound (cancel_found id actor reason found db).1
unfolding cancel_found
cancel_found-IsSound id actor reason none db s = s
cancel_found-IsSound id actor reason (some row) db s =
    elim (Bool-cases (contains terminal_for_cancel row.pipeline_state)) [
      | inl e ↦ rw e s
      | inr e ↦
          rw (e, continue-pure (λ (r : Updated). done r.affected row.pipeline_state))
            (update_queue-IsSound (by_id id) _ (cancel_opts actor reason row.pipeline_state) db refl
              (ground (arith, eq_iff "staff_action" "info")) s)
    ]

pub cancel-IsSound :
    (id : ℕ) (actor reason : String) (db : Db) → IsSound db → IsSound (cancel id actor reason db).1
unfolding cancel
cancel-IsSound id actor reason db s =
    cancel_found-IsSound id actor reason (get_queue_row (by_id id) db) db s

pub finalize-IsSound : (db : Db) → IsSound db → IsSound (finalize_pending_completes db).1
unfolding finalize_pending_completes
finalize-IsSound db s = record {
  synced =
      All-update_where IsSynced IsSynced is_pending_complete (finalized db.now) (λ r h _. h)
        (λ r h _. h) db.rows s.synced;
  ascending =
      update-Ascending is_pending_complete (finalized db.now) (λ r. refl) db.rows s.ascending;
  below =
      All-update_where (λ r. r.id < db.next_id) (λ r. r.id < db.next_id) is_pending_complete
        (finalized db.now) (λ r h _. h) (λ r h _. h) db.rows s.below;
  audited =
      All-update_where (λ r. latest_state r.id db.events ≡ some r.pipeline_state)
        (λ r. latest_state r.id db.events ≡ some r.pipeline_state) is_pending_complete
        (finalized db.now) (λ r h _. h) (λ r h _. h) db.rows s.audited;
}

continue-IsSound :
    {A B : Type 0} (k : A → M B)
    → ((a : A) (db : Db) → IsSound db → IsSound (k a db).1)
    → (x : Result A × Db) → IsSound x.1
    → IsSound (continue k x).1
continue-IsSound k keep (ok a, db) s = keep a db s
continue-IsSound k keep (err e, db) s = s

pub reset_each-IsSound :
    (actor : String) (n : ℕ) (cs : List Row) (db : Db)
    → IsSound db
    → IsSound (reset_each actor n cs db).1
unfolding reset_each
reset_each-IsSound actor n [] db s = s
reset_each-IsSound actor n (c ∷ cs) db s =
    continue-IsSound (λ r. reset_each actor (n + r.affected) cs)
      (λ r. reset_each-IsSound actor (n + r.affected) cs) _
      (update_queue-IsSound (by_id c.id) (to_status "PENDING") (reset_opts actor c.pipeline_state)
        db refl (ground (arith, eq_iff "orphan_reset" "info")) s)
