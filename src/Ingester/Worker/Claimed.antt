-- ===== src/Ingester/Worker/Claimed.antt =====
-- What the rows that a tick claims have in common, and how many of each kind there are.
use repo_backend_v.Base.{
  ℕ, ◌-◌, ◌≤◌, String, true, false, ◌≡◌, Option, List, arith, ◌==◌, nat_eq, string_eq, eq_iff,
  contains, length, All, All-imp, Bool-cases, inl, inr, ◌≢◌, ◌⊎◌,
}
use repo_backend_v.Ingester.Queue.Store.{Row, Db}
use repo_backend_v.Ingester.Worker.{
  Config, Gates, no_claims, Worker, claim_states, claim_order, claim_by,
}
use repo_backend_v.Ingester.Worker.States.{is_pipeline, is_stage6, is_am_active, ready_states}
use repo_backend_v.Ingester.Worker.Admission.{count_in}
use repo_backend_v.Ingester.Worker.Caps.{AtMostOne}
use repo_backend_v.Ingester.Worker.Gated.{
  Admissible, Kept, claim_states-Kept, start-Kept, claim_order_named,
}

unless : (s t : String) {n : ℕ} → (s ≡ t → n ≡ 0) → (s ≢ t) ⊎ (n ≡ 0)
unless s t h = elim (Bool-cases (s == t)) [
  | inl same ↦ inr (h ((eq_iff s t).0 same))
  | inr other ↦ inl (λ e. ground (arith, eq_iff s t))
]

under_cap : {m n : ℕ} → AtMostOne m n → n ≤ 1 - m
under_cap {m} {n} c = grind arith

module _ (in_backoff : List (Option String) → Option (List String)) (cfg : Config) (g : Gates)
    (w : Worker) (db : Db) where
  abbrev rows : List Row
  rows = claim_by in_backoff cfg g w db

  kept :
      Kept cfg g w.abort_controllers db
        (claim_states in_backoff cfg g w.abort_controllers db (claim_order g) no_claims)
  kept =
      claim_states-Kept cfg g w.abort_controllers db in_backoff (claim_order g) no_claims
        (claim_order_named g) (start-Kept cfg g w.abort_controllers db in_backoff)

  -- Whatever the queue holds and whatever the gates read: a tick claims no more rows than the
  -- concurrency allows, and each of them is open, has a stage and is not in flight.
  pub claim_by-free :
      (length (claim_by in_backoff cfg g w db) ≤ cfg.concurrency)
      × All
          (λ r.
            (r.is_complete ≡ false)
            × (contains w.abort_controllers r.id ≡ false)
            × (contains ready_states r.status ≡ true))
          (claim_by in_backoff cfg g w db)
  unfolding claim_by
  claim_by-free = (
    kept.within,
    All-imp (Admissible cfg g w.abort_controllers db) _ (λ r a. (a.open_row, a.free, a.ready)) _
        kept.rows,
  )

  -- In serial mode a tick claims at most one row of stages 1 to 5, none where one is in dispatch, and
  -- starts a new package only where the database shows none in the middle of those stages.
  pub claim_by-serial :
      g.serial ≡ true
      → (count_in is_pipeline (claim_by in_backoff cfg g w db) ≤ 1 - g.pipeline_in_flight)
        × All (λ r. (r.status ≢ "PENDING") ⊎ (g.mid_db_count ≡ 0)) (claim_by in_backoff cfg g w db)
  unfolding claim_by
  claim_by-serial s = (
    rw (kept.counted.pipeline s) (under_cap (kept.capped.pipeline s)),
    All-imp (Admissible cfg g w.abort_controllers db) _
        (λ r a. unless r.status "PENDING" (a.new_package s)) _ kept.rows,
  )

  -- With a serial stage 6 a tick claims at most one of its rows, none where one is in dispatch, and
  -- starts a new copy only where the database shows none under way.
  pub claim_by-stage6 :
      cfg.stage6_serial ≡ true
      → (count_in is_stage6 (claim_by in_backoff cfg g w db) ≤ 1 - g.stage6_in_flight)
        × All
            (λ r. (r.status ≢ "AIP_STORE_PENDING") ⊎ (g.stage6_inside_db ≡ 0))
            (claim_by in_backoff cfg g w db)
  unfolding claim_by
  claim_by-stage6 s = (
    rw (kept.counted.stage6 s) (under_cap (kept.capped.stage6 s)),
    All-imp (Admissible cfg g w.abort_controllers db) _
        (λ r a. unless r.status "AIP_STORE_PENDING" (a.new_copy s)) _ kept.rows,
  )

  -- Where packages interleave with a serial Archivematica, a tick claims at most one row of its
  -- states, none where one is in dispatch, and starts a transfer only where the database shows none
  -- inside.
  pub claim_by-interleaved :
      cfg.am_parallel ≡ false
      → g.serial ≡ false
      → (count_in is_am_active (claim_by in_backoff cfg g w db) ≤ 1 - g.am_in_flight)
        × All
            (λ r. (r.status ≢ "UPLOAD_COMPLETE") ⊎ (g.inside_db_count ≡ 0))
            (claim_by in_backoff cfg g w db)
  unfolding claim_by
  claim_by-interleaved p s = (
    rw kept.counted.am (under_cap (kept.capped.am p s)),
    All-imp (Admissible cfg g w.abort_controllers db) _
        (λ r a. unless r.status "UPLOAD_COMPLETE" (a.new_transfer p s)) _ kept.rows,
  )
