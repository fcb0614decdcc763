-- ===== src/Ingester/Queue/Audit.antt =====
-- The invariant of the queue: the two state columns agree, the ids ascend below the next one, and
-- the event log determines the state of every row.
use repo_backend_v.Base.{
  ℕ, ◌<◌, String, Bool, false, not, ◌&&◌, ◌||◌, ◌≡◌, ◌≢◌, refl, sym, ◌∙◌, inl, inr, Option, none,
  some, List, [], ◌∷◌, ◌++◌, arith, ◌==◌, nat_eq, string_eq, eq_iff, if◌then◌else◌, filter, All,
  All-zip, Bool-cases, get_or,
}
use mathlib.Core.List.{append-nil}
use repo_backend_v.Base.Table.{update_where, All-update_where}
use repo_backend_v.Ingester.Queue.Store.{Row, Event, Db}
use repo_backend_v.Ingester.Queue.Update.{
  Patch, Opts, enrich_update, write, target_state, transitions, log_transitions, apply_update,
  update_queue,
}
use repo_backend_v.Ingester.Queue.Outcome.{Unchanged, Wrote, update_queue-Outcome}

-- The last state that a row's transitions reached. Informational events are no transitions.
abbrev pub step_state : ℕ → Option String → Event → Option String
step_state id acc e =
    if e.queue_id == id && not (e.event_type == "info") then some e.to_state else acc

unfoldable pub latest_from : Option String → ℕ → List Event → Option String
latest_from acc id [] = acc
latest_from acc id (e ∷ es) = latest_from (step_state id acc e) id es

unfoldable pub latest_state : ℕ → List Event → Option String
latest_state id events = latest_from none id events

abbrev pub Ascending : List Row → Type 0
Ascending [] = Unit
Ascending (r ∷ rs) = All (λ q. r.id < q.id) rs × Ascending rs

abbrev pub IsSynced : Row → Type 0
IsSynced r = r.status ≡ r.pipeline_state

pub record IsSound (db : Db) : Type 0 where
  pub synced : All IsSynced db.rows
  pub ascending : Ascending db.rows
  pub below : All (λ r. r.id < db.next_id) db.rows
  pub audited : All (λ r. latest_state r.id db.events ≡ some r.pipeline_state) db.rows

latest_from-append :
    (acc : Option String) (id : ℕ) (xs ys : List Event)
    → latest_from acc id (xs ++ ys) ≡ latest_from (latest_from acc id xs) id ys
unfolding latest_from
latest_from-append acc id [] ys = refl
latest_from-append acc id (e ∷ xs) ys = latest_from-append (step_state id acc e) id xs ys

-- An event that is no transition, or of another row, leaves a row's latest state.
pub latest_state-concat :
    (id : ℕ) (events : List Event) (e : Event)
    → latest_state id (events ++ e ∷ []) ≡ (
        if e.queue_id == id && not (e.event_type == "info")
        then some e.to_state
        else latest_state id events)
unfolding latest_state latest_from
latest_state-concat id events e = latest_from-append none id events (e ∷ [])

module _ (p : Row → Bool) (to : String) where
  -- Some row of the id is written and changes its state.
  touched : ℕ → List Row → Bool
  touched id [] = false
  touched id (r ∷ rs) = (r.id == id && (p r && not (r.pipeline_state == to))) || touched id rs

  latest_from-transitions :
      (opts : Opts) (now : ℕ) (acc : Option String) (id : ℕ) (rows : List Row)
      → opts.event_type ≢ "info"
      → latest_from acc id (transitions opts to now (filter p rows))
        ≡ (if touched id rows then some to else acc)
  unfolding latest_from transitions touched
  latest_from-transitions opts now acc id [] h = refl
  latest_from-transitions opts now acc id (r ∷ rs) h = ground (
    arith,
    eq_iff opts.event_type "info",
    latest_from-transitions opts now acc id rs h,
    latest_from-transitions opts now (some to) id rs h,
  )

  touched_above : (id : ℕ) (rows : List Row) → All (λ q. id < q.id) rows → touched id rows ≡ false
  unfolding touched
  touched_above id [] h = refl
  touched_above id (r ∷ rs) (lt, h) = ground (arith, touched_above id rs h)

  -- Ids being unique, a row is touched exactly when it is written and changes.
  touched_self :
      (rows : List Row)
      → Ascending rows
      → All (λ r. touched r.id rows ≡ (p r && not (r.pipeline_state == to))) rows
  unfolding touched
  touched_self [] h = tt
  touched_self (r ∷ rs) (above, asc) = (
    ground (arith, touched_above r.id rs above),
    All-zip (λ q. r.id < q.id) (λ q. touched q.id rs ≡ (p q && not (q.pipeline_state == to))) _
        (λ q lt ih. ground arith) rs above (touched_self rs asc),
  )

-- What a write does to the three columns, with the state that it is to set.
module _ (data' : Patch) (now : ℕ) (r : Row) where
  pub write-id : (write (enrich_update data' now) r).id ≡ r.id
  unfolding write enrich_update
  write-id = refl

  pub write-state :
      (write (enrich_update data' now) r).pipeline_state
      ≡ get_or (target_state data') r.pipeline_state
  unfolding write enrich_update
  write-state = ground arith

  write-status : (write (enrich_update data' now) r).status ≡ get_or data'.status r.status
  unfolding write enrich_update
  write-status = ground arith

enriched-state :
    (data' : Patch) (now : ℕ) → (enrich_update data' now).pipeline_state ≡ target_state data'
unfolding enrich_update
enriched-state data' now = ground arith

-- A write that keeps the ids keeps their order.
module _ (p : Row → Bool) (f : Row → Row) (same : (r : Row) → (f r).id ≡ r.id) where
  update-above :
      (n : ℕ) (rows : List Row)
      → All (λ q. n < q.id) rows
      → All (λ q. n < q.id) (update_where p f rows)
  update-above n rows h =
      All-update_where (λ q. n < q.id) (λ q. n < q.id) p f (λ r lt _. rw (same r) lt) (λ r lt _. lt)
        rows h

  pub update-Ascending : (rows : List Row) → Ascending rows → Ascending (update_where p f rows)
  unfolding update_where
  update-Ascending [] h = tt
  update-Ascending (r ∷ rs) (above, asc) = elim (Bool-cases (p r)) [
    | inl e ↦ simp e (rw (same r) (update-above r.id rs above), update-Ascending rs asc)
    | inr e ↦ simp e (update-above r.id rs above, update-Ascending rs asc)
  ]

module _ (where' : Row → Bool) (data' : Patch) (now : ℕ) where
  abbrev written : Row → Row
  written r = write (enrich_update data' now) r

  written-IsSynced :
      (rows : List Row)
      → data'.pipeline_state ≡ none
      → All IsSynced rows
      → All IsSynced (update_where where' written rows)
  written-IsSynced rows plain h =
      All-update_where IsSynced IsSynced where' written
        (λ r same _. ground (arith, write-state data' now r, write-status data' now r))
        (λ r same _. same) rows h

  written-below :
      (n : ℕ) (rows : List Row)
      → All (λ r. r.id < n) rows
      → All (λ r. r.id < n) (update_where where' written rows)
  written-below n rows h =
      All-update_where (λ r. r.id < n) (λ r. r.id < n) where' written
        (λ r lt _. rw (write-id data' now r) lt) (λ r lt _. lt) rows h

  abbrev Audited : List Event → Row → Type 0
  Audited events r = latest_state r.id events ≡ some r.pipeline_state

  -- The log after an update, read at one row's id.
  latest_state-log :
      (opts : Opts) (events : List Event) (rows : List Row) (to : String) (id : ℕ)
      → opts.event_type ≢ "info"
      → latest_state id (events ++ transitions opts to now (filter where' rows))
        ≡ (if touched where' to id rows then some to else latest_state id events)
  unfolding latest_state
  latest_state-log opts events rows to id h =
      latest_from-append none id events (transitions opts to now (filter where' rows))
      ∙ latest_from-transitions where' to opts now (latest_from none id events) id rows h

  abbrev Touched : String → List Row → Row → Type 0
  Touched to rows r = touched where' to r.id rows ≡ (where' r && not (r.pipeline_state == to))

  log-Audited :
      (opts : Opts) (events : List Event) (rows : List Row) (to : Option String)
      → target_state data' ≡ to
      → opts.event_type ≢ "info"
      → Ascending rows
      → All (Audited events) rows
      → All
          (Audited (events ++ log_transitions opts to now (filter where' rows)))
          (update_where where' written rows)
  unfolding log_transitions
  log-Audited opts events rows none e h asc old = rw append-nil (
      All-update_where (Audited events) (Audited events) where' written
        (λ r au _. rw (write-id data' now r, write-state data' now r, e) au) (λ r au _. au) rows
        old)
  log-Audited opts events rows (some to) e h asc old =
      All-update_where (λ r. Audited events r × Touched to rows r)
        (Audited (events ++ transitions opts to now (filter where' rows))) where' written
        (λ r q hit. ground (
          arith,
          latest_state-log opts events rows to r.id h,
          write-id data' now r,
          write-state data' now r,
          e,
          eq_iff r.pipeline_state to,
        ))
        (λ r q miss. ground (arith, latest_state-log opts events rows to r.id h)) rows
        (All-zip (Audited events) (Touched to rows) _ (λ r a t. (a, t)) rows old
          (touched_self where' to rows asc))

pub Unchanged-IsSound : {db db' : Db} → Unchanged db db' → IsSound db → IsSound db'
Unchanged-IsSound u s = record {
  synced = rw u.rows s.synced;
  ascending = rw u.rows s.ascending;
  below = rw (u.rows, u.next_id) s.below;
  audited = rw (u.rows, u.events) s.audited;
}

Wrote-IsSound :
    (where' : Row → Bool) (data' : Patch) (opts : Opts) (db : Db) {db' : Db}
    → data'.pipeline_state ≡ none
    → opts.event_type ≢ "info"
    → IsSound db
    → Wrote where' data' opts db db'
    → IsSound db'
unfolding apply_update
Wrote-IsSound where' data' opts db plain typed s w = record {
  synced = rw w.rows (written-IsSynced where' data' db.now db.rows plain s.synced);
  ascending = rw w.rows (update-Ascending where' _ (write-id data' db.now) db.rows s.ascending);
  below = rw (w.rows, w.next_id) (written-below where' data' db.now db.next_id db.rows s.below);
  audited =
      rw (w.rows, w.events)
        (log-Audited where' data' db.now opts db.events db.rows _
          (sym (enriched-state data' db.now)) typed s.ascending s.audited);
}

-- An update that sets no state but through the status, and logs under another type than "info",
-- keeps the invariant, whether it commits, is retried or fails.
pub update_queue-IsSound :
    (where' : Row → Bool) (data' : Patch) (opts : Opts) (db : Db)
    → data'.pipeline_state ≡ none
    → opts.event_type ≢ "info"
    → IsSound db
    → IsSound (update_queue where' data' opts db).1
update_queue-IsSound where' data' opts db plain typed s =
    elim (update_queue-Outcome where' data' opts db) [
      | inl u ↦ Unchanged-IsSound u s
      | inr w ↦ Wrote-IsSound where' data' opts db plain typed s w
    ]
