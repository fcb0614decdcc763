-- ===== src/Indexer/Outage.antt =====
-- A tick while the search index is down.
use repo_backend_v.Base.{
  ℕ, String, Bool, true, false, ◌&&◌, ◌≡◌, refl, sym, ◌∙◌, Option, none, List, [], ◌∷◌, map, nat_eq,
  string_eq, contains, filter, All, All-of, All-imp,
}
use repo_backend_v.Indexer.Model.{Object, clean, dirtied, has_pid, claim_dirty, requeue_bulk}
use repo_backend_v.Indexer.Worker.{Op, Item, apply_result, process_batch, index_tick}
use repo_backend_v.Base.Keys.{update_where-twice, update_where-same}
use repo_backend_v.Indexer.Claimed.{IsKeyed, is_claimed, is_claimed-dirty, claimed_pids}

filter_all : {A : Type 0} (xs : List A) → filter (λ _. true) xs ≡ xs
filter_all [] = refl
filter_all (x ∷ xs) = rw (filter_all xs) refl

true_and : (b : Bool) → (b && true) ≡ b
true_and true = refl
true_and false = refl

module _ (limit : ℕ) (rows : List Object) (keyed : IsKeyed rows) where
  abbrev pids : List String
  pids = map (λ r. r.pid) (claim_dirty limit rows).0

  named : All (λ r. contains pids r.pid ≡ is_claimed limit rows keyed r) rows
  named =
      All-imp _ _ (λ r e. e ∙ true_and (is_claimed limit rows keyed r)) rows
        (rw (filter_all (claim_dirty limit rows).0) at
          (claimed_pids limit rows keyed (λ _. true) (λ r. refl)))

  -- The claim undone.
  requeue_bulk-claim_dirty : requeue_bulk pids (claim_dirty limit rows).1 ≡ rows
  unfolding requeue_bulk claim_dirty
  requeue_bulk-claim_dirty =
      update_where-twice (is_claimed limit rows keyed) (has_pid pids) clean dirtied
        (λ r. dirtied (clean r)) rows
        (All-imp _ _ (λ r e. (λ c. (e ∙ c, refl), λ c. e ∙ c)) rows named)
      ∙ update_where-same (is_claimed limit rows keyed) (λ r. dirtied (clean r)) rows
          (All-imp _ _ (λ r d c. λ i. record r { is_updated = sym (d c) i }) rows
            (is_claimed-dirty limit rows keyed))

module _ (bulk_write : List Op → Option (List Item))
    (down : (ops : List Op) → bulk_write ops ≡ none) (max_attempts : ℕ) where
  process_batch-down :
      (claimed rows : List Object)
      → process_batch bulk_write max_attempts claimed rows
        ≡ requeue_bulk (map (λ r. r.pid) claimed) rows
  unfolding process_batch requeue_bulk apply_result contains
  process_batch-down [] rows =
      sym (update_where-same (has_pid []) dirtied rows (All-of _ (λ r h. cc) rows))
  process_batch-down (c ∷ claimed) rows = rw (down _) refl

  -- While the index answers no bulk call, a tick leaves the table as it found it: every row that it
  -- claimed is dirty again, and no attempt is counted. Ids and pids are unique.
  pub index_tick-down :
      (concurrency : ℕ) (rows : List Object)
      → IsKeyed rows
      → index_tick bulk_write concurrency max_attempts rows ≡ rows
  unfolding index_tick
  index_tick-down concurrency rows keyed =
      process_batch-down (claim_dirty concurrency rows).0 (claim_dirty concurrency rows).1
      ∙ requeue_bulk-claim_dirty concurrency rows keyed
