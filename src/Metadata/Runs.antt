-- ===== src/Metadata/Runs.antt =====
-- What can happen to the refresh queue and its batches, as a step relation, and the counters through
-- every run. A tick of the producer and the processing of a row are one step each; `cancel_batch` is left
-- out, which staff use on their own refreshes and which no system batch meets.
use repo_backend_v.Base.Counts.{count_where-le, count_where-filter-le, count_where-filter}
use mathlib.Core.List.{Memᴰ}
use repo_backend_v.Base.{
  ℕ, ◌≤◌, String, Bool, true, false, not, ◌≡◌, refl, Option, none, some, List, [], ◌∷◌, ◌++◌, arith,
  ◌==◌, nat_eq, string_eq, find, All, All-imp, All-zip, All-of, All-append, Bool-cases, inl, inr,
  eq_iff, All-filter, ◌<◌, All-mem,
}
use repo_backend_v.Base.Table.{update_where, count_where, delete_where, All-update_where}
use repo_backend_v.Base.Keys.{Distinct-update_where, Distinct-snoc, Distinct-filter}
use repo_backend_v.Metadata.Model.{
  Item, Object, in_batch, claimed_at, claim_pending, RetryConfig, is_stale, reset_orphaned, pending,
}
use repo_backend_v.Metadata.Model.Enqueue.{Target, unique_rows, insert_batch}
use repo_backend_v.Metadata.Batches.{
  Batch, has_uuid, new_batch, created, create_batch, get_active_batch, done, cancel_found,
  request_cancel, withdrawn, cancelled, is_running, refused, batch_not_running,
}
use repo_backend_v.Metadata.Producer.{RefreshConfig, Refresh, tick}
use repo_backend_v.Metadata.Worker.{Attempt, process_row}
use repo_backend_v.Metadata.Ledger.{
  Balanced, IsSound, is_completed, rows_of, terminal, terminal_rows, tally, terminal_rows-kept,
  update_where-IsSound,
}
use repo_backend_v.Metadata.Inserted.{grown-IsSound, Balanced-other}
use repo_backend_v.Metadata.Settled.{process_row-IsSound}
use repo_backend_v.Metadata.Ticks.{tick-IsSound}

abbrev pub with_items : Refresh → List Item → Refresh
with_items s items = record s { queue = record s.queue { items = items } }

abbrev pub inserted : Refresh → String → ℕ → List Target → Refresh
inserted s minted now ts = record s { queue = (insert_batch minted 0 now ts s.queue).1 }

-- The number of rows that carry a new batch's uuid is none.
pub data Step (cfg : RefreshConfig) (retry : RetryConfig) (message : ℕ → String)
    : Refresh → Refresh → Type 0 where
  produces :
      {s : Refresh} (now : ℕ) (objects : List Object)
      → Step cfg retry message s (tick cfg now objects s).1
  claims :
      {s : Refresh} (now limit : ℕ)
      → Step cfg retry message s (with_items s (claim_pending now limit s.queue.items).1)
  sweeps :
      {s : Refresh} (now older : ℕ)
      → Step cfg retry message s (with_items s (reset_orphaned now older s.queue.items).1)
  processes :
      {s : Refresh} (now : ℕ) (row : Item) (a : Attempt)
      → Memᴰ row s.queue.items
      → row.is_complete ≡ false
      → Step cfg retry message s (process_row retry now message row a s)
  inserts :
      {s : Refresh} (minted : String) (now : ℕ) (ts : List Target)
      → All (λ b. (minted == b.batch_uuid) ≡ false) s.batches
      → Step cfg retry message s (inserted s minted now ts)
  creates :
      {s : Refresh} (minted : String) (cursor : Option ℕ) (bs : List Batch)
      → create_batch minted cursor s.batches ≡ some bs
      → rows_of minted s.queue.items ≡ 0
      → All (λ b. (minted == b.batch_uuid) ≡ false) s.batches
      → Step cfg retry message s (record s { batches = bs })
  cancels :
      {s : Refresh} (u : String) (n : ℕ) (items : List Item) (bs : List Batch)
      → request_cancel u s.queue.items s.batches ≡ done n items bs
      → Step cfg retry message s (record (with_items s items) { batches = bs })

claim-IsSound :
    (now limit : ℕ) (s : Refresh)
    → IsSound s
    → IsSound (with_items s (claim_pending now limit s.queue.items).1)
unfolding claim_pending
claim-IsSound now limit s i =
    update_where-IsSound _ (claimed_at now) s.queue.items s refl (λ r. refl) (λ u r. refl)
      (λ u.
        terminal_rows-kept _ (claimed_at now) s.queue.items u
          (All-of _ (λ r k. refl) s.queue.items))
      i

sweep-IsSound :
    (now older : ℕ) (s : Refresh)
    → IsSound s
    → IsSound (with_items s (reset_orphaned now older s.queue.items).1)
unfolding reset_orphaned
sweep-IsSound now older s i =
    let f : Item → Item = λ r. record r { status = pending; next_attempt_at = none } in
    update_where-IsSound (is_stale now older) f s.queue.items s refl (λ r. refl) (λ u r. refl)
      (λ u.
        terminal_rows-kept (is_stale now older) f s.queue.items u
          (All-of _ (λ r k. refl) s.queue.items))
      i

insert-IsSound :
    (minted : String) (now : ℕ) (ts : List Target) (s : Refresh)
    → All (λ b. (minted == b.batch_uuid) ≡ false) s.batches
    → IsSound s
    → IsSound (inserted s minted now ts)
unfolding insert_batch
insert-IsSound minted now ts s new i =
    let us = unique_rows [] ts in
    grown-IsSound minted 0 now s.queue.next_id us s.queue.items s s.batches refl refl i.uuids
      (All-zip (Balanced s.queue.items) (λ b. (minted == b.batch_uuid) ≡ false) _
        (λ b h e. Balanced-other minted 0 now s.queue.next_id us s.queue.items b e h) s.batches
        i.balanced new)
      i

new-Balanced :
    (minted : String) (cursor : Option ℕ) (items : List Item)
    → rows_of minted items ≡ 0
    → Balanced items (new_batch minted cursor)
new-Balanced minted cursor items e =
    let few = count_where-le (terminal minted) (in_batch minted) items (λ r k. ground (arith, k)) in
    (omega (arith, e), omega (arith, e, few), refl)

create-IsSound :
    (minted : String) (cursor : Option ℕ) (o : Option Batch) (s : Refresh) {bs : List Batch}
    → created minted cursor o s.batches ≡ some bs
    → rows_of minted s.queue.items ≡ 0
    → All (λ b. (minted == b.batch_uuid) ≡ false) s.batches
    → IsSound s
    → IsSound (record s { batches = bs })
create-IsSound minted cursor (some b) s e empty new i = cc e
create-IsSound minted cursor none s {bs} e empty new i =
    let b = new_batch minted cursor in
    let at : s.batches ++ b ∷ [] ≡ bs = cc e in
    rw⁻¹ at (record {
      ids = i.ids;
      below = i.below;
      uuids =
          Distinct-snoc (λ c. c.batch_uuid) s.batches b i.uuids
            (All-imp (λ c. (minted == c.batch_uuid) ≡ false) _
              (λ c k.
                (k, ground (arith, k, eq_iff minted c.batch_uuid, eq_iff c.batch_uuid minted)))
              s.batches new);
      balanced =
          All-append (Balanced s.queue.items) s.batches (b ∷ []) i.balanced
            (new-Balanced minted cursor s.queue.items empty, tt);
    })

-- Deleting rows that are not terminal.
deleted-Balanced :
    (q : Item → Bool) (items : List Item) (b : Batch)
    → ((r : Item) → r.is_complete ≡ true → q r ≡ false)
    → Balanced items b
    → Balanced (delete_where q items) b
unfolding delete_where
deleted-Balanced q items b keeps (covers, adds, closed) =
    let fewer = count_where-filter-le (in_batch b.batch_uuid) (λ r. not (q r)) items in
    let same =
      count_where-filter (terminal b.batch_uuid) (λ r. not (q r)) items
        (λ r e. ground (arith, e, keeps r)) in
    (omega (arith, fewer, covers), omega (arith, same, adds), ground (arith, closed, fewer))

cancel-IsSound :
    (u : String) (o : Option Batch) (s : Refresh) {n : ℕ} {items : List Item} {bs : List Batch}
    → cancel_found u o s.queue.items s.batches ≡ done n items bs
    → IsSound s
    → IsSound (record (with_items s items) { batches = bs })
cancel-IsSound u none s e i = cc e
cancel-IsSound u (some b) s {n} {items} {bs} e i = elim (Bool-cases (not (is_running b.status))) [
  | inl k ↦ let no : refused (batch_not_running b.status) ≡ done n items bs = simp k at e in cc no
  | inr k ↦
      let f : Batch → Batch =
        λ c. record c { cancel_requested = true; enqueue_complete = true; status = cancelled } in
      let yes : done (count_where (withdrawn u) s.queue.items)
            (delete_where (withdrawn u) s.queue.items) (update_where (has_uuid u) f s.batches)
          ≡ done n items bs =
        simp k at e in
      let at : delete_where (withdrawn u) s.queue.items ≡ items = cc yes in
      let at' : update_where (has_uuid u) f s.batches ≡ bs = cc yes in
      rw⁻¹ (at, at')
        (unfold delete_where in
          record {
            ids = Distinct-filter (λ r. r.id) (λ r. not (withdrawn u r)) s.queue.items i.ids;
            below =
                All-filter (λ r. r.id < s.queue.next_id) (λ r. not (withdrawn u r)) s.queue.items
                  i.below;
            uuids =
                Distinct-update_where (λ c. c.batch_uuid) (has_uuid u) f (λ c. refl) s.batches
                  i.uuids;
            balanced =
                All-update_where (Balanced (delete_where (withdrawn u) s.queue.items))
                  (Balanced (delete_where (withdrawn u) s.queue.items)) (has_uuid u) f
                  (λ c (covers, adds, closed) l. (covers, adds, refl)) (λ c h l. h) s.batches
                  (All-imp (Balanced s.queue.items)
                    (Balanced (delete_where (withdrawn u) s.queue.items))
                    (λ c h.
                      deleted-Balanced (withdrawn u) s.queue.items c (λ r l. ground (arith, l)) h)
                    s.batches i.balanced);
          })
]

module _ (cfg : RefreshConfig) (retry : RetryConfig) (message : ℕ → String) where
  step-IsSound : {s s' : Refresh} → Step cfg retry message s s' → IsSound s → IsSound s'
  step-IsSound {s} (produces now objects) i = tick-IsSound cfg now objects s i
  step-IsSound {s} (claims now limit) i = claim-IsSound now limit s i
  step-IsSound {s} (sweeps now older) i = sweep-IsSound now older s i
  step-IsSound {s} (processes now row a member open') i =
      process_row-IsSound row s member open' i retry now message a
  step-IsSound {s} (inserts minted now ts new) i = insert-IsSound minted now ts s new i
  step-IsSound {s} (creates minted cursor bs e empty new) i =
      (unfold create_batch in
        create-IsSound minted cursor (get_active_batch s.batches) s e empty new i)
  step-IsSound {s} (cancels u n items bs e) i =
      (unfold request_cancel in cancel-IsSound u (find (has_uuid u) s.batches) s e i)

  -- A sequence of steps.
  pub data Run : Refresh → Refresh → Type 0 where
    still : {s : Refresh} → Run s s
    step : {s s' s'' : Refresh} → Run s s' → Step cfg retry message s' s'' → Run s s''

  run-IsSound : {s s' : Refresh} → Run s s' → IsSound s → IsSound s'
  run-IsSound still i = i
  run-IsSound (step run next) i = step-IsSound next (run-IsSound run i)

  -- A batch that is completed has only terminal rows, as many as its counters say, and no more than its
  -- total, after every run of the producer, the claims, the worker, the sweeps, new requests and
  -- cancellations that starts from sound tables.
  pub run-completed :
      {s s' : Refresh} (b : Batch)
      → Run s s'
      → IsSound s
      → Memᴰ b s'.batches
      → is_completed b.status ≡ true
      → (terminal_rows b.batch_uuid s'.queue.items ≡ rows_of b.batch_uuid s'.queue.items)
        × (tally b ≡ rows_of b.batch_uuid s'.queue.items)
        × (rows_of b.batch_uuid s'.queue.items ≤ b.total)
  run-completed {s} {s'} b run i member e =
      let (covers, adds, closed) =
        All-mem (Balanced s'.queue.items) s'.batches (run-IsSound run i).balanced member in
      let few =
        count_where-le (terminal b.batch_uuid) (in_batch b.batch_uuid) s'.queue.items
          (λ r k. ground (arith, k)) in
      (ground (arith, few, adds, closed, e), ground (arith, few, adds, closed, e), covers)
