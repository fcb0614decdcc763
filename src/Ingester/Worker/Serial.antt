-- ===== src/Ingester/Worker/Serial.antt =====
-- One package at a time: the dispatched sets of a worker over every run of its ticks. A tick is one
-- step here, so no other tick reads between its reads and its dispatch; stages and staff may write
-- the queue between any two steps, and a dispatched row may settle at any time.
use repo_backend_v.Base.{
  ℕ, ◌+◌, ◌≤◌, String, Bool, true, false, ◌≡◌, refl, Option, none, some, List, [], ◌∷◌, arith,
  if◌then◌else◌, nat_eq, contains, length, All, Bool-cases, inl, inr, length-append,
  length-filter-le, leb, All-imp,
}
use repo_backend_v.Ingester.Queue.Store.{Row, Db}
use repo_backend_v.Ingester.Queue.Listed.{list_queue-All}
use repo_backend_v.Ingester.Queue.Audit.{IsSynced}
use repo_backend_v.Ingester.Worker.{
  Config, Gates, Claims, Worker, is_gated, open_in, claim_state, claim_states, add_if, remove,
  remove_if, begin_dispatch, begin_all, enter,
}
use repo_backend_v.Ingester.Worker.States.{Stage, stage_of, is_pipeline, is_stage6, is_am_active}
use repo_backend_v.Ingester.Worker.Admission.{count_in}
use repo_backend_v.Ingester.Worker.Tick.{batch_for-All, admit-All}

module _ (in_backoff : List (Option String) → Option (List String)) (cfg : Config) where
  module _ (g : Gates) (busy : List ℕ) (db : Db) (P : Row → Type 0) (h : All P db.rows) where
    pub claim_state-All :
        (state : String) (c : Claims)
        → All P c.claimed
        → All P (claim_state in_backoff cfg g busy db state c).claimed
    unfolding claim_state
    claim_state-All state c k = elim (Bool-cases (is_gated cfg g state c)) [
      | inl shut ↦ rw shut k
      | inr open' ↦ rw open' (
          admit-All cfg g busy P state _ c
            (All-imp P _ (λ r p _. p) _
              (batch_for-All in_backoff db P state _
                (λ n. list_queue-All (open_in state) n db P h)))
            k)
    ]

    pub claim_states-All :
        (order : List String) (c : Claims)
        → All P c.claimed
        → All P (claim_states in_backoff cfg g busy db order c).claimed
    unfolding claim_states
    claim_states-All [] c k = k
    claim_states-All (state ∷ order) c k =
        elim (Bool-cases (leb cfg.concurrency (length c.claimed))) [
          | inl full ↦ rw full k
          | inr more ↦ rw more (
              claim_states-All order (claim_state in_backoff cfg g busy db state c)
                (claim_state-All state c k))
        ]

length-add_if-le :
    (b : Bool) (id : ℕ) (ids : List ℕ)
    → length (add_if b id ids) ≤ length ids + (if b then 1 else 0)
length-add_if-le true id ids = elim (Bool-cases (contains ids id)) [
  | inl old ↦ rw old (omega arith)
  | inr new ↦ rw new (omega (arith, length-append ids (id ∷ [])))
]
length-add_if-le false id ids = omega arith

pub length-remove_if-le :
    (b : Bool) (id : ℕ) (ids : List ℕ) → length (remove_if b id ids) ≤ length ids
unfolding remove
length-remove_if-le true id ids = length-filter-le _ ids
length-remove_if-le false id ids = omega arith

-- A dispatch adds a row to the sets of its state, which for a synced row is its status.
pub record Grown (w w' : Worker) (rows : List Row) : Type 0 where
  pub pipeline :
      length w'.pipeline_dispatched ≤ length w.pipeline_dispatched + count_in is_pipeline rows
  pub stage6 : length w'.stage6_dispatched ≤ length w.stage6_dispatched + count_in is_stage6 rows
  pub am : length w'.am_dispatched ≤ length w.am_dispatched + count_in is_am_active rows

count_in-one : (p : String → Bool) (r : Row) → count_in p (r ∷ []) ≡ (if p r.status then 1 else 0)
unfolding count_in
count_in-one p r = refl

enter-Grown :
    (stage : Option Stage) (row : Row) (w : Worker)
    → row.status ≡ row.pipeline_state
    → Grown w (enter stage row w) (row ∷ [])
enter-Grown none row w same = record {
  pipeline = omega arith;
  stage6 = omega arith;
  am = omega arith;
}
enter-Grown (some stage) row w same = record {
  pipeline =
      rw (count_in-one is_pipeline row, same)
        (length-add_if-le (is_pipeline row.pipeline_state) row.id w.pipeline_dispatched);
  stage6 =
      rw (count_in-one is_stage6 row, same)
        (length-add_if-le (is_stage6 row.pipeline_state) row.id w.stage6_dispatched);
  am =
      rw (count_in-one is_am_active row, same)
        (length-add_if-le (is_am_active row.pipeline_state) row.id w.am_dispatched);
}

begin_dispatch-Grown :
    (row : Row) (w : Worker) → IsSynced row → Grown w (begin_dispatch row w) (row ∷ [])
unfolding begin_dispatch
begin_dispatch-Grown row w same = enter-Grown (stage_of row.pipeline_state) row w same

count_in-cons :
    (p : String → Bool) (r : Row) (rows : List Row)
    → count_in p (r ∷ rows) ≡ count_in p (r ∷ []) + count_in p rows
unfolding count_in
count_in-cons p r rows = ground arith

pub begin_all-Grown :
    (rows : List Row) (w : Worker) → All IsSynced rows → Grown w (begin_all rows w) rows
unfolding begin_all
begin_all-Grown [] w h = record { pipeline = omega arith; stage6 = omega arith; am = omega arith }
begin_all-Grown (r ∷ rows) w (here, h) =
    let one = begin_dispatch-Grown r w here in
    let more = begin_all-Grown rows (begin_dispatch r w) h in
    record {
      pipeline = omega (arith, one.pipeline, more.pipeline, count_in-cons is_pipeline r rows);
      stage6 = omega (arith, one.stage6, more.stage6, count_in-cons is_stage6 r rows);
      am = omega (arith, one.am, more.am, count_in-cons is_am_active r rows);
    }
