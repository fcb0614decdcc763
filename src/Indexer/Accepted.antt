-- ===== src/Indexer/Accepted.antt =====
-- A tick whose bulk call succeeds for every row.
use repo_backend_v.Base.{
  ℕ, String, Bool, true, false, not, ◌&&◌, ◌≡◌, refl, sym, ◌∙◌, Option, none, some, List, [], ◌∷◌,
  map, arith, nat_eq, string_eq, contains, filter, All, All-of, Bool-cases, inl, inr,
}
use repo_backend_v.Base.Table.{update_where}
use repo_backend_v.Indexer.Model.{
  Object, is_eligible, clean, dirtied, in_index, claim_dirty, failed_again, mark_indexed_bulk,
  mark_deindexed_bulk, record_failures, park_each,
}
use repo_backend_v.Indexer.Worker.{
  Op, index, delete, build_op, Item, indexed_pids, deindexed_pids, failed_items, apply_result,
  process_batch, index_tick,
}
use repo_backend_v.Base.Keys.{update_where-same}
use repo_backend_v.Indexer.Claimed.{IsKeyed, is_claimed, claimed_pids}

-- The answer of an index that takes the operation.
abbrev pub accepted : Op → Item
accepted (index pid) = record { ok = true; is_index = true; pid = pid; err = none }
accepted (delete pid) = record { ok = true; is_index = false; pid = pid; err = none }

-- A claimed row when its tick is over.
abbrev pub settled : Object → Object
settled r = in_index (is_eligible r) (clean r)

indexed_pids-accepted :
    (rows : List Object)
    → indexed_pids (map accepted (map build_op rows)) ≡ map (λ r. r.pid) (filter is_eligible rows)
unfolding build_op
indexed_pids-accepted [] = refl
indexed_pids-accepted (r ∷ rs) = elim (Bool-cases (is_eligible r)) [
  | inl e ↦ rw (e, indexed_pids-accepted rs) refl
  | inr e ↦ rw (e, indexed_pids-accepted rs) refl
]

deindexed_pids-accepted :
    (rows : List Object)
    → deindexed_pids (map accepted (map build_op rows))
      ≡ map (λ r. r.pid) (filter (λ r. not (is_eligible r)) rows)
unfolding build_op
deindexed_pids-accepted [] = refl
deindexed_pids-accepted (r ∷ rs) = elim (Bool-cases (is_eligible r)) [
  | inl e ↦ rw (e, deindexed_pids-accepted rs) refl
  | inr e ↦ rw (e, deindexed_pids-accepted rs) refl
]

failed_items-accepted : (rows : List Object) → failed_items (map accepted (map build_op rows)) ≡ []
unfolding build_op
failed_items-accepted [] = refl
failed_items-accepted (r ∷ rs) = elim (Bool-cases (is_eligible r)) [
  | inl e ↦ rw (e, failed_items-accepted rs) refl
  | inr e ↦ rw (e, failed_items-accepted rs) refl
]

filter_nothing : {A : Type 0} (xs : List A) → filter (λ _. false) xs ≡ []
filter_nothing [] = refl
filter_nothing (x ∷ xs) = filter_nothing xs

unpicked : (f : Object → Object) (rows : List Object) → update_where (λ _. false) f rows ≡ rows
unpicked f rows = update_where-same (λ _. false) f rows (All-of _ (λ r h. cc) rows)

record_failures_none :
    (max_attempts : ℕ) (rows : List Object) → (record_failures max_attempts [] rows).rows ≡ rows
unfolding record_failures park_each contains
record_failures_none max_attempts rows =
    rw (unpicked failed_again rows, filter_nothing rows) (unpicked dirtied rows)

-- The two marks as one pass, for pids that name the claimed rows of either kind.
marked :
    (p : Object → Bool) (ins outs : List String) (rows : List Object)
    → All (λ r. contains ins r.pid ≡ (p r && is_eligible r)) rows
    → All (λ r. contains outs r.pid ≡ (p r && not (is_eligible r))) rows
    → mark_deindexed_bulk outs (mark_indexed_bulk ins (update_where p clean rows))
      ≡ update_where p settled rows
unfolding mark_deindexed_bulk mark_indexed_bulk update_where
marked p ins outs [] h k = refl
marked p ins outs (r ∷ rs) (e, h) (f, k) = elim (Bool-cases (p r)) [
  | inl c ↦ elim (Bool-cases (is_eligible r)) [
    | inl d ↦
        let e' : contains ins r.pid ≡ true = ground arith in
        let f' : contains outs r.pid ≡ false = ground arith in
        rw (c, e', f', d, marked p ins outs rs h k) refl
    | inr d ↦
        let e' : contains ins r.pid ≡ false = ground arith in
        let f' : contains outs r.pid ≡ true = ground arith in
        rw (c, e', f', d, marked p ins outs rs h k) refl
  ]
  | inr c ↦
      let e' : contains ins r.pid ≡ false = ground arith in
      let f' : contains outs r.pid ≡ false = ground arith in
      rw (c, e', f', marked p ins outs rs h k) refl
]

apply_result-accepted :
    (max_attempts : ℕ) (claimed rows : List Object) (pids : List String)
    → apply_result max_attempts (some (map accepted (map build_op claimed))) pids rows
      ≡ mark_deindexed_bulk
          (map (λ r. r.pid) (filter (λ r. not (is_eligible r)) claimed))
          (mark_indexed_bulk (map (λ r. r.pid) (filter is_eligible claimed)) rows)
unfolding apply_result record_failures mark_deindexed_bulk
apply_result-accepted max_attempts claimed rows pids =
    rw
      (
        failed_items-accepted claimed,
        indexed_pids-accepted claimed,
        deindexed_pids-accepted claimed,
      )
      (record_failures_none max_attempts _)

module _ (bulk_write : List Op → Option (List Item))
    (up : (ops : List Op) → bulk_write ops ≡ some (map accepted ops)) (max_attempts : ℕ) where
  process_batch-up :
      (claimed rows : List Object)
      → process_batch bulk_write max_attempts claimed rows
        ≡ mark_deindexed_bulk
            (map (λ r. r.pid) (filter (λ r. not (is_eligible r)) claimed))
            (mark_indexed_bulk (map (λ r. r.pid) (filter is_eligible claimed)) rows)
  unfolding process_batch apply_result mark_deindexed_bulk mark_indexed_bulk contains
  process_batch-up [] rows = sym (unpicked (in_index false) _ ∙ unpicked (in_index true) rows)
  process_batch-up (c ∷ claimed) rows =
      rw (up (map build_op (c ∷ claimed)))
        (apply_result-accepted max_attempts (c ∷ claimed) rows (map (λ r. r.pid) (c ∷ claimed)))

  -- When the index takes every operation of the bulk call, a tick is one update of the table: each
  -- row that it claimed is clean, flagged as in the index exactly if it is published and active, and
  -- free of failed attempts, and every other row is as it was. Ids and pids are unique.
  pub index_tick-up :
      (concurrency : ℕ) (rows : List Object) (keyed : IsKeyed rows)
      → index_tick bulk_write concurrency max_attempts rows
        ≡ update_where (is_claimed concurrency rows keyed) settled rows
  unfolding index_tick claim_dirty
  index_tick-up concurrency rows keyed =
      process_batch-up (claim_dirty concurrency rows).0 (claim_dirty concurrency rows).1
      ∙ marked (is_claimed concurrency rows keyed) _ _ rows
          (claimed_pids concurrency rows keyed is_eligible (λ r. refl))
          (claimed_pids concurrency rows keyed (λ r. not (is_eligible r)) (λ r. refl))
