-- ===== src/Ingester/Controller/Cancels.antt =====
-- A staff cancel of a row that the dashboard offers it for, while others write to the queue.
use repo_backend_v.Base.{
  ℕ, ◌<◌, String, true, false, ◌≡◌, refl, ◌⊎◌, inl, inr, Option, some, [], nat_eq, string_eq,
  contains, All, find_passes, nat_beq_iff, Bool-cases, Bool,
}
use repo_backend_v.Ingester.States.{cancellable_states}
use repo_backend_v.Ingester.Queue.Store.{Row, Db, Result, ok, continue, err}
use repo_backend_v.Ingester.Queue.Update.{or_null}
use repo_backend_v.Ingester.Queue.Select.{by_id, get_queue_row}
use repo_backend_v.Ingester.Queue.Cancel.{
  Cancelled, done, terminal_for_cancel, cancel, cancel_found, get_prev_state_for_cancel,
}
use repo_backend_v.Ingester.Queue.Audit.{IsSound}
use repo_backend_v.Ingester.Queue.PriorState.{cancel_prev_state}
use repo_backend_v.Ingester.Worker.{Worker}
use repo_backend_v.Ingester.Controller.{
  require_row, CancelReply, cancelled, conflict, reply, signal, cancel_live, cancel_row,
}

-- The row ended before the cancel reached it: a conflict that names its state, and nothing written.
abbrev pub Conflict : Row → Db → Result CancelReply × Db → Type 0
Conflict now_row db' x =
    (contains terminal_for_cancel now_row.pipeline_state ≡ true)
    × (x.0 ≡ ok (conflict now_row.pipeline_state))
    × (x.1 ≡ db')

-- The row is cancelled, the answer names the state that it was in, and the log keeps that.
abbrev pub CancelledFrom : Bool → Row → Result CancelReply × Db → Type 0
CancelledFrom was_running now_row x =
    (contains terminal_for_cancel now_row.pipeline_state ≡ false)
    × (x.0 ≡ ok (cancelled 1 was_running now_row.pipeline_state))
    × ((r : Row) × (get_queue_row (by_id now_row.id) x.1 ≡ some r)
        × (r.pipeline_state ≡ "CANCELLED_BY_USER"))
    × (get_prev_state_for_cancel now_row.id x.1 ≡ or_null now_row.pipeline_state)

module _ (worker : Option Worker) (between : Db → Db) (actor reason : String) (id : ℕ) (db : Db)
    (row now_row : Row) where
  abbrev replied : Result Cancelled × Db → Result CancelReply × Db
  replied = continue (λ c db'. (ok (reply (signal worker now_row.id) c), db'))

  -- The handler is the model's cancel behind its guards.
  cancel_row-cancel :
      get_queue_row (by_id id) db ≡ some row
      → contains cancellable_states row.pipeline_state ≡ true
      → row.id ≡ now_row.id
      → cancel_row worker between actor reason (some id) db
        ≡ replied (cancel now_row.id actor reason (between db))
  unfolding cancel_row require_row cancel_live
  cancel_row-cancel found live same = rw (found, live, same) refl

  terminal-Conflict :
      get_queue_row (by_id now_row.id) (between db) ≡ some now_row
      → contains terminal_for_cancel now_row.pipeline_state ≡ true
      → Conflict now_row (between db) (replied (cancel now_row.id actor reason (between db)))
  unfolding cancel cancel_found
  terminal-Conflict found ended =
      let silent : ((replied (cancel now_row.id actor reason (between db))).0
            ≡ ok (conflict now_row.pipeline_state))
          × ((replied (cancel now_row.id actor reason (between db))).1 ≡ between db) =
        rw (found, ended) (refl, refl) in
      (ended, silent.0, silent.1)

  answered :
      (x : Result Cancelled × Db) (r : Row)
      → contains terminal_for_cancel now_row.pipeline_state ≡ false
      → x.0 ≡ ok (done 1 now_row.pipeline_state)
      → get_queue_row (by_id now_row.id) x.1 ≡ some r
      → r.pipeline_state ≡ "CANCELLED_BY_USER"
      → get_prev_state_for_cancel now_row.id x.1 ≡ or_null now_row.pipeline_state
      → CancelledFrom (signal worker now_row.id) now_row (replied x)
  answered (ok c, db') r live e now_found state p =
      let same : c ≡ done 1 now_row.pipeline_state = cc in
      (live, rw same refl, (r, now_found, state), p)
  answered (err f, db') r live e now_found state p = absurd cc

  -- A staff cancel reads the row, in a cancellable state, and then once more, after whatever others
  -- wrote: where the row has then ended, the answer is a conflict that names its state and nothing is
  -- written, and where it has not, it is cancelled, and the answer and the log keep the state that it
  -- was in at the second read. At that read no transaction fails, the queue is sound, and every event
  -- of the log is from before.
  pub cancel_row-cancelled :
      get_queue_row (by_id id) db ≡ some row
      → contains cancellable_states row.pipeline_state ≡ true
      → IsSound (between db)
      → (between db).faults ≡ []
      → All (λ e. e.created_at < (between db).now) (between db).events
      → get_queue_row (by_id id) (between db) ≡ some now_row
      → let x = cancel_row worker between actor reason (some id) db in
        Conflict now_row (between db) x ⊎ CancelledFrom (signal worker now_row.id) now_row x
  unfolding get_queue_row
  cancel_row-cancelled found live sound calm clock found_now =
      let first : row.id ≡ id = (nat_beq_iff row.id id).0 (find_passes (by_id id) db.rows found) in
      let second : now_row.id ≡ id =
        (nat_beq_iff now_row.id id).0 (find_passes (by_id id) (between db).rows found_now) in
      let at_id : get_queue_row (by_id now_row.id) (between db) ≡ some now_row =
        simp second found_now in
      let both = cancel_row-cancel found live (rw second first) in
      elim (Bool-cases (contains terminal_for_cancel now_row.pipeline_state)) [
        | inl ended ↦ inl (rw both (terminal-Conflict at_id ended))
        | inr going ↦
            let c =
              cancel_prev_state now_row.id actor reason (between db) now_row sound calm clock at_id
                going in
            inr (
              rw both
                (answered (cancel now_row.id actor reason (between db)) _ going c.0 c.1 c.2 c.4))
      ]
