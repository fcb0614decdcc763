-- ===== src/Ingester/Worker/Tick.antt =====
-- What one tick of the worker claims, from the gates that it read.
use repo_backend_v.Base.{
  ℕ, suc, ◌+◌, ◌≤◌, String, false, ◌≡◌, Option, none, some, List, [], ◌∷◌, ◌++◌, arith, ◌==◌,
  nat_eq, string_eq, eq_iff, contains, length, All, All-append, All-take, All-filter, Bool-cases,
  length-append, length-take-le, inl, inr,
}
use repo_backend_v.Ingester.Queue.Store.{Row, Db}
use repo_backend_v.Ingester.Queue.Select.{list_queue}
use repo_backend_v.Ingester.Queue.Listed.{length-list_queue-le}
use repo_backend_v.Ingester.Worker.{
  Config, Gates, Claims, push, admit, open_in, runnable, stage6_backoff_scan, batch_for,
}
use repo_backend_v.Ingester.Worker.Admission.{admit-cases}

module _ (in_backoff : List (Option String) → Option (List String)) (db : Db) where
  runnable-All :
      (P : Row → Type 0) (found : Option (List String)) (rows : List Row)
      → All P rows
      → All P (runnable in_backoff found rows)
  runnable-All P none rows h = h
  runnable-All P (some uuids) rows h = All-filter P _ rows h

  -- What holds of the open rows of a state holds of the batch that is fetched for it.
  pub batch_for-All :
      (P : Row → Type 0) (state : String) (limit : ℕ)
      → ((n : ℕ) → All P (list_queue (open_in state) n db))
      → All P (batch_for in_backoff state limit db)
  unfolding batch_for
  batch_for-All P state limit h = elim (Bool-cases (state == "AIP_STORE_PENDING")) [
    | inl e ↦ rw e (
        All-take P limit _ (
          runnable-All P _ _
            (rw ((eq_iff state "AIP_STORE_PENDING").0 e) at (h stage6_backoff_scan))))
    | inr e ↦ rw e (h limit)
  ]

  pub length-batch_for-le :
      (state : String) (limit : ℕ) → length (batch_for in_backoff state limit db) ≤ limit
  unfolding batch_for
  length-batch_for-le state limit = elim (Bool-cases (state == "AIP_STORE_PENDING")) [
    | inl e ↦ rw e (length-take-le limit _)
    | inr e ↦ rw e (length-list_queue-le (open_in state) limit db)
  ]

module _ (cfg : Config) (g : Gates) (busy : List ℕ) where
  -- Every row that is admitted is of the batch and not busy.
  pub admit-All :
      (P : Row → Type 0) (state : String) (batch : List Row) (c : Claims)
      → All (λ r. contains busy r.id ≡ false → P r) batch
      → All P c.claimed
      → All P (admit cfg g busy state batch c).claimed
  admit-All P state [] c h k = unfold admit in k
  admit-All P state (r ∷ batch) c (here, h) k =
      let with_r : contains busy r.id ≡ false → All P (c.claimed ++ r ∷ []) =
        λ free. All-append P c.claimed (r ∷ []) k (here free, tt) in
      admit-cases cfg g busy (λ d. All P d.claimed) state r batch c
        (λ _. admit-All P state batch c h k) (λ free _. with_r free) (λ free _ _. with_r free)
        (λ free _ _. with_r free)
        (λ free _ _ _. admit-All P state batch (push state r c) h (with_r free))

  pub length-admit :
      (state : String) (batch : List Row) (c : Claims)
      → length (admit cfg g busy state batch c).claimed ≤ length c.claimed + length batch
  length-admit state [] c = unfold admit in omega arith
  length-admit state (r ∷ batch) c =
      let one : length (c.claimed ++ r ∷ []) ≡ length c.claimed + 1 =
        length-append c.claimed (r ∷ []) in
      admit-cases cfg g busy (λ d. length d.claimed ≤ length c.claimed + suc (length batch)) state r
        batch c (λ _. omega (arith, length-admit state batch c)) (λ _ _. omega (arith, one))
        (λ _ _ _. omega (arith, one)) (λ _ _ _. omega (arith, one))
        (λ _ _ _ _. omega (arith, one, length-admit state batch (push state r c)))
