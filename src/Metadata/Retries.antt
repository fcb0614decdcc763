-- ===== src/Metadata/Retries.antt =====
-- The retry of a row that could not be refreshed.
use mathlib.Core.List.{Memᴰ}
use repo_backend_v.Base.{
  ℕ, ◌+◌, ◌≤◌, ◌<◌, String, Bool, true, ◌≡◌, refl, List, arith, ltb, leb, if◌then◌else◌, nat_eq,
  find, All, if-both, inl, inr, ◌⊎◌, All-of, All-mem, ◌∙◌,
}
use repo_backend_v.Base.Table.{All-update_where}
use repo_backend_v.Metadata.Model.{
  Item, has_id, claimable, RetryConfig, attempts_allowed, backoff_ms, retried, dead, attempts_of,
  mark_failed, pending,
}

-- The longest wait between two attempts.
abbrev pub longest_wait : RetryConfig → ℕ
longest_wait cfg =
    if ltb 0 cfg.retry_max_backoff_ms then cfg.retry_max_backoff_ms else cfg.retry_base_backoff_ms

backoff_ms-le : (cfg : RetryConfig) (n : ℕ) → backoff_ms cfg n ≤ longest_wait cfg
unfolding backoff_ms
backoff_ms-le cfg n = omega arith

-- The row is finished with, its attempts used up.
abbrev pub DeadLetter : RetryConfig → ℕ → Item → Type 0
DeadLetter cfg n r = (r.is_complete ≡ true) × (attempts_allowed cfg ≤ n)

-- Another attempt is left: the row is pending, and the times at which it may be claimed are those
-- from the end of its wait on, which is no later than the longest wait after the failure.
pub record AnotherAttempt (cfg : RetryConfig) (now n : ℕ) (r : Item) : Type 0 where
  pub is_pending : r.status ≡ pending
  pub left : n < attempts_allowed cfg
  pub paced : (t : ℕ) → claimable t r ≡ leb (now + backoff_ms cfg n) t
  pub by_longest : claimable (now + longest_wait cfg) r ≡ true

abbrev Failed : RetryConfig → ℕ → ℕ → ℕ → Item → Type 0
Failed cfg now id n r =
    has_id id r ≡ true → (r.attempts ≡ n) × (DeadLetter cfg n r ⊎ AnotherAttempt cfg now n r)

retried-claimable :
    (cfg : RetryConfig) (now n t : ℕ) (text : String) (r : Item)
    → ltb 0 cfg.retry_base_backoff_ms ≡ true
    → claimable t (retried cfg now n text r) ≡ leb (now + backoff_ms cfg n) t
retried-claimable cfg now n t text r waits = simp waits refl

retried-Failed :
    (cfg : RetryConfig) (now n : ℕ) (text : String) (r : Item)
    → ltb 0 cfg.retry_base_backoff_ms ≡ true
    → ltb n (attempts_allowed cfg) ≡ true
    → AnotherAttempt cfg now n (retried cfg now n text r)
retried-Failed cfg now n text r waits allowed =
    let wait : backoff_ms cfg n ≤ longest_wait cfg = backoff_ms-le cfg n in
    let ended : leb (now + backoff_ms cfg n) (now + longest_wait cfg) ≡ true =
      ground (arith, wait) in
    record {
      is_pending = refl;
      left = ground (arith, allowed);
      paced = λ t. retried-claimable cfg now n t text r waits;
      by_longest = retried-claimable cfg now n (now + longest_wait cfg) text r waits ∙ ended;
    }

mark_failed-rows :
    (cfg : RetryConfig) (now id : ℕ) (text : String) (items : List Item)
    → ltb 0 cfg.retry_base_backoff_ms ≡ true
    → All
        (Failed cfg now id (attempts_of (find (has_id id) items) + 1))
        (mark_failed cfg now id text items).1
unfolding mark_failed
mark_failed-rows cfg now id text items waits =
    let n = attempts_of (find (has_id id) items) + 1 in
    let any_row : All {0, 0} (λ r. r ≡ r) items = All-of {0, 0} (λ r. r ≡ r) (λ r. refl) items in
    if-both {A = Bool × List Item} (λ q. All (Failed cfg now id n) q.1)
      (ltb n (attempts_allowed cfg))
      (λ e.
        All-update_where (λ r. r ≡ r) _ (has_id id) (retried cfg now n text)
          (λ r _ k l. (refl, inr (retried-Failed cfg now n text r waits e))) (λ r _ k l. cc (k, l))
          items any_row)
      (λ e.
        All-update_where (λ r. r ≡ r) _ (has_id id) (dead now n text)
          (λ r _ k l. (refl, inl (refl, ground (arith, e)))) (λ r _ k l. cc (k, l)) items any_row)

-- A failed fetch is bounded and paced: the row's attempts count it, and then either they are used up
-- and the row is finished with, or one is left, the row is pending again, and the times at which it may
-- be claimed are those from the end of its wait on, which is at the latest the longest wait configured
-- after the failure. Backoff is configured.
pub mark_failed-Failed :
    (cfg : RetryConfig) (now id : ℕ) (text : String) (items : List Item) (r : Item)
    → ltb 0 cfg.retry_base_backoff_ms ≡ true
    → Memᴰ r (mark_failed cfg now id text items).1
    → has_id id r ≡ true
    → (r.attempts ≡ attempts_of (find (has_id id) items) + 1)
      × (DeadLetter cfg r.attempts r ⊎ AnotherAttempt cfg now r.attempts r)
mark_failed-Failed cfg now id text items r waits member mine =
    let (counted, next) =
      All-mem (Failed cfg now id (attempts_of (find (has_id id) items) + 1))
        (mark_failed cfg now id text items).1 (mark_failed-rows cfg now id text items waits) member
        mine in
    (counted, simp counted next)
