-- ===== src/Convert/Rows.antt =====
-- What the queue's operations keep of its rows: distinct ids and bounded attempts.
use repo_backend_v.Base.{
  ℕ, ◌+◌, ◌<◌, ◌≤◌, Bool, true, false, ◌||◌, ◌≡◌, refl, Option, some, List, arith, leb, ◌==◌,
  nat_eq, All, All-imp, All-mem, All-zip, Bool-cases, inl, inr,
}
use repo_backend_v.Base.Table.{update_where, All-update_where}
use repo_backend_v.Base.Keys.{Distinct, Distinct-update_where, All_of_key}
use repo_backend_v.Convert.Model.{
  Row, is_pending, is_in_progress, is_failed, Status, pending, in_progress, set_status, has_id,
  claim_row, mark_complete, failed_status, mark_failed, release, reset_orphaned,
}
use repo_backend_v.Convert.Claims.{First}

abbrev pub is_active : Status → Bool
is_active s = is_pending s || is_in_progress s

-- A row that is still worked on has attempts left; a failed one has used them all.
abbrev pub Within : ℕ → Row → Type 0
Within max r =
    (r.attempts ≤ max)
    × (is_active r.status ≡ true → r.attempts < max)
    × (is_failed r.status ≡ true → r.attempts ≡ max)

-- The queue's rows have distinct ids, and each keeps to its attempts.
pub record IsBounded (max : ℕ) (rows : List Row) : Type 0 where
  pub ids : Distinct (λ r. r.id) rows
  pub attempts : All (Within max) rows

-- The row as it was claimed has attempts left, and what carries its id in the table is in progress.
abbrev pub Working : ℕ → Row → Row → Type 0
Working max row q = has_id row.id q ≡ true → (is_in_progress q.status ≡ true) × (q.attempts < max)

abbrev pub IsHeld : ℕ → List Row → Row → Type 0
IsHeld max rows row = (row.attempts < max) × All (Working max row) rows

module _ (max : ℕ) where
  update_where-IsBounded :
      (p : Row → Bool) (f : Row → Row)
      → ((r : Row) → (f r).id ≡ r.id)
      → (rows : List Row) → All (λ r. p r ≡ true → Within max (f r)) rows
      → IsBounded max rows
      → IsBounded max (update_where p f rows)
  update_where-IsBounded p f same rows h b = record {
    ids = Distinct-update_where (λ r. r.id) p f same rows b.ids;
    attempts =
        All-update_where (λ r. Within max r × (p r ≡ true → Within max (f r))) (Within max) p f
          (λ r w e. w.1 e) (λ r w e. w.0) rows
          (All-zip (Within max) (λ r. p r ≡ true → Within max (f r)) _ (λ r a c. (a, c)) rows
            b.attempts h);
  }

  pub mark_complete-IsBounded :
      (id : ℕ) (http : Option ℕ) (rows : List Row)
      → IsBounded max rows
      → IsBounded max (mark_complete id http rows)
  unfolding mark_complete
  mark_complete-IsBounded id http rows b =
      update_where-IsBounded (has_id id) _ (λ r. refl) rows
        (All-imp (Within max) _ (λ r w e. (w.0, (λ k. cc), (λ k. cc))) rows b.attempts) b

  -- An attempt more, on a row that has one left.
  failed_status-Within :
      (r q : Row) (http : Option ℕ)
      → r.attempts < max
      → Within max (record q {
        status = failed_status max (r.attempts + 1);
        attempts = r.attempts + 1;
        http_status = http;
      })
  unfolding failed_status
  failed_status-Within r q http left = elim (Bool-cases (leb max (r.attempts + 1))) [
    | inl e ↦ rw e (omega arith, (λ k. cc), (λ k. ground arith))
    | inr e ↦ rw e (omega arith, (λ k. ground arith), (λ k. cc))
  ]

  pub mark_failed-IsBounded :
      (row : Row) (http : Option ℕ) (rows : List Row)
      → row.attempts < max
      → IsBounded max rows
      → IsBounded max (mark_failed max row http rows)
  unfolding mark_failed
  mark_failed-IsBounded row http rows left b =
      update_where-IsBounded (has_id row.id) _ (λ r. refl) rows
        (All-imp (Within max) _ (λ r w e. failed_status-Within row r http left) rows b.attempts) b

  pub release-IsBounded :
      (row : Row) (rows : List Row)
      → IsHeld max rows row
      → IsBounded max rows
      → IsBounded max (release row.id rows)
  unfolding release
  release-IsBounded row rows (left, held) b =
      update_where-IsBounded (has_id row.id) (set_status pending) (λ r. refl) rows
        (All-imp (Working max row) _ (λ r w e. (omega (arith, (w e).1), (λ k. (w e).1), (λ k. cc)))
          rows held)
        b

  pub reset_orphaned-IsBounded :
      (rows : List Row) → IsBounded max rows → IsBounded max (reset_orphaned rows).1
  unfolding reset_orphaned
  reset_orphaned-IsBounded rows b =
      update_where-IsBounded (λ r. is_in_progress r.status) (set_status pending) (λ r. refl) rows
        (All-imp (Within max) _ (λ r w e. (w.0, (λ k. w.1 (ground arith)), (λ k. cc))) rows
          b.attempts)
        b

  -- A claim of a pending row: the table stays bounded and the row is held.
  pub claim_row-IsBounded :
      (row : Row) (rows : List Row)
      → First (some row) rows
      → IsBounded max rows
      → IsBounded max (claim_row (some row) rows) × IsHeld max (claim_row (some row) rows) row
  unfolding First
  claim_row-IsBounded row rows (member, ready, least) b =
      let left : row.attempts < max =
        (All-mem (Within max) rows b.attempts member).1 (ground (arith, ready)) in
      let same = All_of_key (λ q. q.id) rows b.ids member in
      (
        update_where-IsBounded (has_id row.id) (set_status in_progress) (λ r. refl) rows
            (All-imp (λ q. has_id row.id q ≡ true → q ≡ row) _
              (λ q h e. rw (h e) (omega arith, (λ k. left), (λ k. cc))) rows same)
            b,
        (
          left,
          All-update_where (λ q. has_id row.id q ≡ true → q ≡ row) (Working max row) (has_id row.id)
              (set_status in_progress) (λ q h e k. (refl, rw (h e) left)) (λ q h e k. cc) rows same,
        ),
      )

  -- The row that a claim takes is another one than a row that is held.
  pub claimed_other :
      (row a : Row) (rows : List Row)
      → First (some row) rows
      → IsHeld max rows a
      → (row.id == a.id) ≡ false
  unfolding First
  claimed_other row a rows (member, ready, least) (left, held) =
      let working = All-mem (Working max a) rows held member in
      elim (Bool-cases (row.id == a.id)) [
        | inl e ↦ ground (arith, (working e).0, ready)
        | inr e ↦ e
      ]

  pub IsHeld-update_where :
      (id : ℕ) (a : Row) (f : Row → Row) (rows : List Row)
      → (id == a.id) ≡ false
      → ((r : Row) → (f r).id ≡ r.id)
      → IsHeld max rows a
      → IsHeld max (update_where (has_id id) f rows) a
  IsHeld-update_where id a f rows other same (left, held) = (
    left,
    All-update_where (Working max a) (Working max a) (has_id id) f
        (λ q w e k. ground (arith, same q, e, k, other)) (λ q w e k. w k) rows held,
  )
