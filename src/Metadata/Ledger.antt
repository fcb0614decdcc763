-- ===== src/Metadata/Ledger.antt =====
-- The counters of a batch against the rows of its queue.

use repo_backend_v.Base.{
  ℕ, ◌+◌, ◌≤◌, ◌<◌, String, Bool, true, false, ◌&&◌, ◌≡◌, List, arith, ltb, nat_eq, string_eq, All,
  All-imp, All-of,
}
use repo_backend_v.Base.Table.{update_where, count_where, All-update_where}
use repo_backend_v.Base.Keys.{Distinct, Distinct-update_where}
use repo_backend_v.Base.Counts.{count_where-unseen}
use repo_backend_v.Metadata.Model.{Item, in_batch}
use repo_backend_v.Metadata.Batches.{Batch, BatchStatus, completed}
use repo_backend_v.Metadata.Producer.{Refresh}

abbrev pub is_completed : BatchStatus → Bool
is_completed completed = true
is_completed _ = false

abbrev pub rows_of : String → List Item → ℕ
rows_of u items = count_where (in_batch u) items

abbrev pub terminal : String → Item → Bool
terminal u r = in_batch u r && r.is_complete

abbrev pub terminal_rows : String → List Item → ℕ
terminal_rows u items = count_where (terminal u) items

abbrev pub tally : Batch → ℕ
tally b = b.succeeded + b.failed_rows + b.dead_lettered

-- A batch's total covers its rows, its counters add up to its terminal rows, and where it is completed
-- it has no other row.
abbrev pub Balanced : List Item → Batch → Type 0
Balanced items b =
    (rows_of b.batch_uuid items ≤ b.total)
    × (tally b ≡ terminal_rows b.batch_uuid items)
    × ((is_completed b.status && ltb (tally b) (rows_of b.batch_uuid items)) ≡ false)

pub record IsSound (s : Refresh) : Type 0 where
  pub ids : Distinct (λ r. r.id) s.queue.items
  pub below : All (λ r. r.id < s.queue.next_id) s.queue.items
  pub uuids : Distinct (λ b. b.batch_uuid) s.batches
  pub balanced : All (Balanced s.queue.items) s.batches

-- An update of rows that leaves their ids and batches, and whether they are terminal.
module _ (q : Item → Bool) (f : Item → Item) (items : List Item) where
  pub rows_of-kept :
      (u : String)
      → ((r : Item) → in_batch u (f r) ≡ in_batch u r)
      → rows_of u (update_where q f items) ≡ rows_of u items
  rows_of-kept u same = count_where-unseen (in_batch u) q f items (All-of _ (λ r k. same r) items)

  pub terminal_rows-kept :
      (u : String)
      → All (λ r. q r ≡ true → terminal u (f r) ≡ terminal u r) items
      → terminal_rows u (update_where q f items) ≡ terminal_rows u items
  terminal_rows-kept u same = count_where-unseen (terminal u) q f items same

  pub All-below :
      (n : ℕ)
      → ((r : Item) → (f r).id ≡ r.id)
      → All (λ r. r.id < n) items
      → All (λ r. r.id < n) (update_where q f items)
  All-below n same h =
      All-update_where (λ r. r.id < n) (λ r. r.id < n) q f (λ r l k. ground (arith, l, same r))
        (λ r l k. l) items h

  -- The rows change, the batches stand.
  pub update_where-IsSound :
      (s : Refresh)
      → s.queue.items ≡ items
      → ((r : Item) → (f r).id ≡ r.id)
      → ((u : String) (r : Item) → in_batch u (f r) ≡ in_batch u r)
      → ((u : String) → terminal_rows u (update_where q f items) ≡ terminal_rows u items)
      → IsSound s
      → IsSound (record s { queue = record s.queue { items = update_where q f items } })
  update_where-IsSound s at same batch kept i = record {
    ids = Distinct-update_where (λ r. r.id) q f same items (rw⁻¹ at i.ids);
    below = All-below s.queue.next_id same (rw⁻¹ at i.below);
    uuids = i.uuids;
    balanced =
        All-imp (Balanced s.queue.items) (Balanced (update_where q f items))
          (λ b h.
            let (covers, adds, closed) = rw at at h in
            rw (rows_of-kept b.batch_uuid (batch b.batch_uuid), kept b.batch_uuid)
              (covers, adds, closed))
          s.batches i.balanced;
  }
