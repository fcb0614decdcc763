-- ===== src/Convert/Batches.antt =====
-- The batches of conversions: what a request puts into the queue, and the line shown for it.
use repo_backend_v.Base.{
  ℕ, suc, ◌≤◌, ◌<◌, String, Bool, true, false, ◌&&◌, ◌≡◌, refl, Option, none, some, List, [], ◌∷◌,
  arith, ltb, ◌==◌, nat_eq, length, All, if-both, All-imp,
}
use repo_backend_v.Base.Table.{count_where}
use repo_backend_v.Base.Counts.{count_where-append, count_where-all, count_where-none}
use repo_backend_v.Convert.Expand.{Object, Entry, expand_row}
use repo_backend_v.Convert.Model.{
  Row, Scope, Store, Enqueued, refused, enqueued, queue_rows, flat_map, insert_batch, enqueue_rows,
  enqueue, guard_single, resolve_rows, is_pending,
}

-- The fresh rows of a batch.
abbrev pub waits_in : ℕ → Row → Bool
waits_in id r = (r.batch_id == id) && (is_pending r.status && (r.attempts == 0))

module _ (basename : String → String) where
  queue_rows-waits :
      (batch_id id : ℕ) (es : List Entry)
      → All (λ r. waits_in batch_id r ≡ true) (queue_rows basename batch_id id es)
  unfolding queue_rows
  queue_rows-waits batch_id id [] = tt
  queue_rows-waits batch_id id (e ∷ es) = (ground arith, queue_rows-waits batch_id (suc id) es)

  length-queue_rows :
      (batch_id id : ℕ) (es : List Entry) → length (queue_rows basename batch_id id es) ≡ length es
  unfolding queue_rows
  length-queue_rows batch_id id [] = refl
  length-queue_rows batch_id id (e ∷ es) = omega (arith, length-queue_rows batch_id (suc id) es)

  -- What a request leaves: nothing where it is refused; else a batch of at least one file and at most
  -- the cap, whose rows all wait, and as many of them as its total says.
  unfoldable pub Batched : ℕ → Store → Enqueued → Type 0
  Batched max_batch st (refused e) = Unit
  Batched max_batch st (enqueued id count kind st') =
      (1 ≤ count)
      × (count ≤ max_batch)
      × (count_where (λ r. r.batch_id == id) st'.queue ≡ count)
      × (count_where (waits_in id) st'.queue ≡ count)

  insert_batch-Batched :
      (max_batch : ℕ) (s : Scope) (entries : List Entry) (st : Store)
      → All (λ r. r.batch_id < st.next_batch) st.queue
      → 1 ≤ length entries
      → length entries ≤ max_batch
      → Batched max_batch st (insert_batch basename s entries st)
  unfolding Batched
  insert_batch-Batched max_batch s entries st older some_file few =
      let fresh = queue_rows basename st.next_batch st.next_id entries in
      let waiting = queue_rows-waits st.next_batch st.next_id entries in
      let number = length-queue_rows st.next_batch st.next_id entries in
      (
        some_file,
        few,
        omega (
          arith,
          count_where-append (λ r. r.batch_id == st.next_batch) st.queue fresh,
          count_where-none (λ r. r.batch_id == st.next_batch) st.queue
              (All-imp _ (λ r. (r.batch_id == st.next_batch) ≡ false) (λ r h. ground arith) st.queue
                older),
          count_where-all (λ r. r.batch_id == st.next_batch) fresh
              (All-imp (λ r. waits_in st.next_batch r ≡ true)
                (λ r. (r.batch_id == st.next_batch) ≡ true) (λ r h. ground arith) fresh waiting),
          number,
        ),
        omega (
          arith,
          count_where-append (waits_in st.next_batch) st.queue fresh,
          count_where-none (waits_in st.next_batch) st.queue (
              All-imp _ (λ r. waits_in st.next_batch r ≡ false) (λ r h. ground arith) st.queue
                older),
          count_where-all (waits_in st.next_batch) fresh waiting,
          number,
        ),
      )

  enqueue_rows-Batched :
      (max_batch : ℕ) (s : Scope) (rows : Option (List Object)) (st : Store)
      → All (λ r. r.batch_id < st.next_batch) st.queue
      → Batched max_batch st (enqueue_rows basename max_batch s rows st)
  unfolding Batched
  enqueue_rows-Batched max_batch s none st older = tt
  enqueue_rows-Batched max_batch s (some rows) st older =
      let entries = flat_map expand_row rows in
      if-both (Batched max_batch st) (guard_single rows s) (λ e. tt)
        (λ e.
          if-both (Batched max_batch st) (length entries == 0) (λ k. tt)
            (λ k.
              if-both (Batched max_batch st) (ltb max_batch (length entries)) (λ l. tt)
                (λ l.
                  insert_batch-Batched max_batch s entries st older (ground arith) (ground arith))))

  -- A request that is taken puts at least one row into the queue and at most the cap, each pending with
  -- no attempt spent, and the count it answers with is the number of the rows that carry its batch.
  -- Earlier rows belong to earlier batches.
  pub enqueue-Batched :
      (max_batch : ℕ) (objects : List Object) (s : Scope) (st : Store)
      → All (λ r. r.batch_id < st.next_batch) st.queue
      → Batched max_batch st (enqueue basename max_batch objects s st)
  unfolding enqueue
  enqueue-Batched max_batch objects s st older =
      enqueue_rows-Batched max_batch s (resolve_rows s objects) st older
