-- ===== src/Ingester/Queue/Listed.antt =====
-- What the reads of the queue return.
use mathlib.Core.List.{reverse}
use repo_backend_v.Base.{
  ℕ, String, true, false, ◌≡◌, some, arith, ◌==◌, ◌≤◌, string_eq, eq_iff, length, length-take-le,
  All, All-imp, All-take, All-filter, All-filter_self, All-reverse,
}
use repo_backend_v.Ingester.Queue.Store.{Row, Db}
use repo_backend_v.Ingester.Queue.Select.{Filters, no_filters, matches, list_queue}

module _ (f : Filters) (limit : ℕ) (db : Db) where
  pub list_queue-All : (P : Row → Type 0) → All P db.rows → All P (list_queue f limit db)
  unfolding list_queue
  list_queue-All P h =
      All-take P limit _ (All-filter P (matches f) (reverse db.rows) (All-reverse P db.rows h))

  pub list_queue-matches : All (λ r. matches f r ≡ true) (list_queue f limit db)
  unfolding list_queue
  list_queue-matches =
      All-take (λ r. matches f r ≡ true) limit _ (All-filter_self (matches f) (reverse db.rows))

  pub length-list_queue-le : length (list_queue f limit db) ≤ limit
  unfolding list_queue
  length-list_queue-le = length-take-le limit _

-- The claim of a named state returns open rows of that status.
pub list_queue-open :
    (state : String) (limit : ℕ) (db : Db)
    → (state == "") ≡ false
    → All
        (λ r. (r.status ≡ state) × (r.is_complete ≡ false))
        (list_queue (record no_filters { status = some state; is_complete = some false }) limit db)
list_queue-open state limit db named =
    All-imp _ _ (λ r h. fields r h) _
      (list_queue-matches (record no_filters { status = some state; is_complete = some false })
        limit db)
  where
    fields :
        (r : Row)
        → matches (record no_filters { status = some state; is_complete = some false }) r ≡ true
        → (r.status ≡ state) × (r.is_complete ≡ false)
    fields r h = unfold matches in ground (arith, eq_iff state r.status)
