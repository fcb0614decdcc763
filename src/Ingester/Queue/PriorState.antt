-- ===== src/Ingester/Queue/PriorState.antt =====
-- What a cancel does, and what the log says of it afterwards.
use repo_backend_v.Base.{
  ℕ, ◌<◌, String, Bool, true, false, ◌&&◌, ◌≡◌, refl, ◌∙◌, Option, none, some, List, [], ◌∷◌, ◌++◌,
  arith, ◌==◌, leb, nat_eq, string_eq, eq_iff, filter, find, All, contains, Bool-cases, inl, inr,
  nat_beq_iff, find_passes, All-filter, all, Option-cases,
}
use repo_backend_v.Base.Table.{update_where}
use repo_backend_v.Ingester.Queue.Store.{Row, Event, Db, ok, object}
use repo_backend_v.Ingester.Queue.Update.{
  Patch, enrich_update, write, apply_update, write_found, to_status, or_null, transition,
  transitions, log_transitions,
}
use repo_backend_v.Ingester.Queue.Select.{by_id, get_queue_row}
use repo_backend_v.Ingester.Queue.Retry.{update_queue-calm}
use repo_backend_v.Ingester.Queue.Audit.{Ascending, IsSound}
use repo_backend_v.Ingester.Queue.Cancel.{
  done, terminal_for_cancel, cancel_found, cancel_opts, cancel, newest, newer, from_field,
  get_prev_state_for_cancel, prev_state_from_event,
}

-- Ids being unique, a read by id and an update by id meet the same one row.
filter_above : (id : ℕ) (rows : List Row) → All (λ q. id < q.id) rows → filter (by_id id) rows ≡ []
filter_above id [] h = refl
filter_above id (r ∷ rs) (lt, h) = ground (arith, filter_above id rs h)

pub filter-by_id :
    (id : ℕ) (row : Row) (rows : List Row)
    → Ascending rows
    → find (by_id id) rows ≡ some row
    → filter (by_id id) rows ≡ row ∷ []
filter-by_id id row [] asc h = cc
filter-by_id id row (r ∷ rs) (above, asc) h = elim (Bool-cases (r.id == id)) [
  | inl e ↦ ground (arith, filter_above r.id rs above)
  | inr e ↦ rw e (filter-by_id id row rs asc (rw e at h))
]

-- The newest of events from before now, and one of now, is that one: the only newest there is.
abbrev IsBy : ℕ → Option Event → Type 0
IsBy n none = Unit
IsBy n (some e) = e.created_at < n

newer-IsBy :
    (n : ℕ) (best : Option Event) (e : Event)
    → IsBy n best
    → e.created_at < n
    → IsBy n (newer best e)
newer-IsBy n none e b h = h
newer-IsBy n (some a) e b h = elim (Bool-cases (leb a.created_at e.created_at)) [
  | inl t ↦ rw t h
  | inr t ↦ rw t b
]

newest-IsBy :
    (n : ℕ) (best : Option Event) (es : List Event)
    → IsBy n best
    → All (λ e. e.created_at < n) es
    → IsBy n (newest best es)
unfolding newest
newest-IsBy n best [] b h = b
newest-IsBy n best (e ∷ es) b (here, later) =
    newest-IsBy n (newer best e) es (newer-IsBy n best e b here) later

newest-append :
    (best : Option Event) (es fs : List Event) → newest best (es ++ fs) ≡ newest (newest best es) fs
unfolding newest
newest-append best [] fs = refl
newest-append best (e ∷ es) fs = newest-append (newer best e) es fs

newer_now : (best : Option Event) (e : Event) → IsBy e.created_at best → newer best e ≡ some e
newer_now none e h = refl
newer_now (some b) e h = ground arith

newest-concat :
    (es : List Event) (e : Event)
    → All (λ f. f.created_at < e.created_at) es
    → newest none (es ++ e ∷ []) ≡ some e
unfolding newest
newest-concat es e h =
    newest-append none es (e ∷ [])
    ∙ newer_now (newest none es) e (newest-IsBy e.created_at none es tt h)

filter-concat :
    {A : Type 0} (p : A → Bool) (xs : List A) (x : A)
    → p x ≡ true
    → filter p (xs ++ x ∷ []) ≡ filter p xs ++ x ∷ []
filter-concat p [] x h = rw h
filter-concat p (y ∷ ys) x h = ground (arith, filter-concat p ys x h)

find-all :
    {A : Type 0} (p q : A → Bool) (xs : List A) {x : A}
    → all q (filter p xs) ≡ true
    → find p xs ≡ some x
    → q x ≡ true
find-all p q [] h e = cc
find-all p q (y ∷ ys) {x} h e = ground (arith, find-all p q ys {x = x})

-- A cancel of an id that no row has, or whose row is in a terminal state, changes nothing, whatever
-- the database does.
pub cancel_inert :
    (id : ℕ) (actor reason : String) (db : Db)
    → all (λ r. contains terminal_for_cancel r.pipeline_state) (filter (by_id id) db.rows) ≡ true
    → (cancel id actor reason db).1 ≡ db
unfolding cancel cancel_found get_queue_row
cancel_inert id actor reason db h = elim (Option-cases (find (by_id id) db.rows)) [
  | inl missing ↦ rw missing refl
  | inr (row, found) ↦
      rw
        (
          found,
          find-all (by_id id) (λ r. contains terminal_for_cancel r.pipeline_state) db.rows h found,
        )
        refl
]

terminal_cancelled : contains terminal_for_cancel "CANCELLED_BY_USER" ≡ true
unfolding contains
terminal_cancelled = refl

module _ (id : ℕ) (actor reason : String) (db : Db) (row : Row) where
  abbrev pub cancel_patch : Patch
  cancel_patch = record (to_status "CANCELLED_BY_USER") { error = some (some reason) }

  abbrev cancelled_db : Db
  cancelled_db =
      apply_update (by_id id) cancel_patch (cancel_opts actor reason row.pipeline_state) db

  -- The one update that a cancel makes.
  cancel_committed :
      IsSound db
      → db.faults ≡ []
      → get_queue_row (by_id id) db ≡ some row
      → contains terminal_for_cancel row.pipeline_state ≡ false
      → cancel id actor reason db ≡ (ok (done 1 row.pipeline_state), cancelled_db)
  unfolding cancel cancel_found write_found get_queue_row
  cancel_committed s calm found live = rw (
    found,
    live,
    update_queue-calm (by_id id) cancel_patch (cancel_opts actor reason row.pipeline_state) db calm,
    filter-by_id id row db.rows s.ascending found,
  )

  abbrev pub cancelled_row : Row
  cancelled_row = write (enrich_update cancel_patch db.now) row

  abbrev cancel_event : Event
  cancel_event =
      transition (cancel_opts actor reason row.pipeline_state) "CANCELLED_BY_USER" db.now row

  find-cancelled :
      (rows : List Row)
      → find (by_id id) rows ≡ some row
      → find (by_id id) (update_where (by_id id) (write (enrich_update cancel_patch db.now)) rows)
        ≡ some cancelled_row
  unfolding update_where write enrich_update
  find-cancelled [] h = cc
  find-cancelled (r ∷ rs) h = ground (arith, find-cancelled rs)

  cancelled_log :
      IsSound db
      → get_queue_row (by_id id) db ≡ some row
      → contains terminal_for_cancel row.pipeline_state ≡ false
      → cancelled_db.events ≡ db.events ++ cancel_event ∷ []
  unfolding apply_update get_queue_row log_transitions enrich_update transitions
  cancelled_log s found live = rw (filter-by_id id row db.rows s.ascending found, not_cancelled)
    where
      not_cancelled : (row.pipeline_state == "CANCELLED_BY_USER") ≡ false
      not_cancelled =
          ground (arith, eq_iff row.pipeline_state "CANCELLED_BY_USER", terminal_cancelled)

  is_cancel : Event → Bool
  is_cancel e =
      e.queue_id == id && (e.event_type == "staff_action" && e.to_state == "CANCELLED_BY_USER")

  cancel_event-is_cancel : row.id ≡ id → is_cancel cancel_event ≡ true
  unfolding is_cancel
  cancel_event-is_cancel e =
      ground (
        arith,
        eq_iff "staff_action" "staff_action",
        eq_iff "CANCELLED_BY_USER" "CANCELLED_BY_USER",
      )

  cancel_event-from :
      from_field (
        some
          (object (("action", "cancel") ∷ ("from", row.pipeline_state) ∷ ("reason", reason) ∷ [])))
      ≡ or_null row.pipeline_state
  unfolding from_field
  cancel_event-from = refl

  prev_state :
      IsSound db
      → All (λ e. e.created_at < db.now) db.events
      → get_queue_row (by_id id) db ≡ some row
      → contains terminal_for_cancel row.pipeline_state ≡ false
      → get_prev_state_for_cancel id cancelled_db ≡ or_null row.pipeline_state
  unfolding get_prev_state_for_cancel prev_state_from_event is_cancel get_queue_row
  prev_state s clock found live =
      rw
        (
          cancelled_log s found live,
          filter-concat is_cancel db.events cancel_event
              (cancel_event-is_cancel ((nat_beq_iff _ _).0 (find_passes (by_id id) db.rows found))),
          newest-concat (filter is_cancel db.events) cancel_event
              (All-filter (λ e. e.created_at < db.now) is_cancel db.events clock),
        )
        cancel_event-from

  pub cancel_prev_state :
      IsSound db
      → db.faults ≡ []
      → All (λ e. e.created_at < db.now) db.events
      → get_queue_row (by_id id) db ≡ some row
      → contains terminal_for_cancel row.pipeline_state ≡ false
      → ((cancel id actor reason db).0 ≡ ok (done 1 row.pipeline_state))
        × (get_queue_row (by_id id) (cancel id actor reason db).1 ≡ some cancelled_row)
        × (cancelled_row.pipeline_state ≡ "CANCELLED_BY_USER")
        × (cancelled_row.error ≡ some reason)
        × (get_prev_state_for_cancel id (cancel id actor reason db).1 ≡ or_null row.pipeline_state)
  cancel_prev_state s calm clock found live =
      let e : cancel id actor reason db ≡ (ok (done 1 row.pipeline_state), cancelled_db) =
        cancel_committed s calm found live in
      (
        λ i. (e i).0,
        rw e (unfold get_queue_row apply_update in find-cancelled db.rows found),
        unfold write enrich_update in refl,
        unfold write enrich_update in refl,
        rw e (prev_state s clock found live),
      )
