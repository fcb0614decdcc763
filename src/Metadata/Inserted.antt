-- ===== src/Metadata/Inserted.antt =====
-- New rows in the refresh queue, against the counters of the batches.
use repo_backend_v.Base.{
  ℕ, suc, ◌+◌, ◌≤◌, ◌<◌, String, true, false, ◌≡◌, refl, List, [], ◌∷◌, ◌++◌, arith, ◌==◌, nat_eq,
  string_eq, length, All, All-imp, All-append,
}
use repo_backend_v.Base.Keys.{Distinct, Apart}
use repo_backend_v.Base.Counts.{count_where-append, count_where-none, count_where-all}
use repo_backend_v.Metadata.Model.{Item, in_batch}
use repo_backend_v.Metadata.Model.Enqueue.{Target, queued}
use repo_backend_v.Metadata.Batches.{Batch}
use repo_backend_v.Metadata.Producer.{Refresh}
use repo_backend_v.Metadata.Ledger.{
  Balanced, IsSound, rows_of, terminal, terminal_rows, tally, is_completed,
}

Distinct-append :
    (xs ys : List Item) (n : ℕ)
    → Distinct (λ r. r.id) xs
    → All (λ r. r.id < n) xs
    → Distinct (λ r. r.id) ys
    → All (λ r. n ≤ r.id) ys
    → Distinct (λ r. r.id) (xs ++ ys)
Distinct-append [] ys n d l e h = e
Distinct-append (x ∷ xs) ys n (apart, d) (lx, l) e h = (
  All-append (Apart (λ r. r.id) x) xs ys apart (
      All-imp (λ r. n ≤ r.id) (Apart (λ r. r.id) x)
        (λ r k. (ground (arith, k, lx), ground (arith, k, lx))) ys h),
  Distinct-append xs ys n d l e h,
)

module _ (batch_uuid : String) (priority now : ℕ) where
  queued_from :
      (id : ℕ) (ts : List Target) → All (λ r. id ≤ r.id) (queued batch_uuid priority now id ts)
  unfolding queued
  queued_from id [] = tt
  queued_from id (t ∷ ts) = (
    omega arith,
    All-imp (λ r. suc id ≤ r.id) (λ r. id ≤ r.id) (λ r l. omega (arith, l)) _
        (queued_from (suc id) ts),
  )

  queued_below :
      (id : ℕ) (ts : List Target)
      → All (λ r. r.id < id + length ts) (queued batch_uuid priority now id ts)
  unfolding queued
  queued_below id [] = tt
  queued_below id (t ∷ ts) = (
    omega arith,
    All-imp (λ r. r.id < suc id + length ts) _ (λ r l. omega (arith, l)) _
        (queued_below (suc id) ts),
  )

  queued-Distinct :
      (id : ℕ) (ts : List Target) → Distinct (λ r. r.id) (queued batch_uuid priority now id ts)
  unfolding queued
  queued-Distinct id [] = tt
  queued-Distinct id (t ∷ ts) = (
    All-imp (λ r. suc id ≤ r.id) _ (λ r l. (ground (arith, l), ground (arith, l))) _
        (queued_from (suc id) ts),
    queued-Distinct (suc id) ts,
  )

  -- New rows are open, and of their own batch only.
  queued_open :
      (id : ℕ) (ts : List Target)
      → All
          (λ r. (r.batch_uuid ≡ batch_uuid) × (r.is_complete ≡ false))
          (queued batch_uuid priority now id ts)
  unfolding queued
  queued_open id [] = tt
  queued_open id (t ∷ ts) = ((refl, refl), queued_open (suc id) ts)

  length-queued :
      (id : ℕ) (ts : List Target) → length (queued batch_uuid priority now id ts) ≡ length ts
  unfolding queued
  length-queued id [] = refl
  length-queued id (t ∷ ts) = omega (arith, length-queued (suc id) ts)

  module _ (id : ℕ) (ts : List Target) (items : List Item) where
    abbrev grown : List Item
    grown = items ++ queued batch_uuid priority now id ts

    terminal_rows-grown : (u : String) → terminal_rows u grown ≡ terminal_rows u items
    terminal_rows-grown u = omega (
      arith,
      count_where-append (terminal u) items (queued batch_uuid priority now id ts),
      count_where-none (terminal u) (queued batch_uuid priority now id ts) (
          All-imp _ (λ r. terminal u r ≡ false) (λ r (b, o). ground (arith, o)) _
            (queued_open id ts)),
    )

    rows_of-other : (u : String) → (batch_uuid == u) ≡ false → rows_of u grown ≡ rows_of u items
    rows_of-other u e = omega (
      arith,
      count_where-append (in_batch u) items (queued batch_uuid priority now id ts),
      count_where-none (in_batch u) (queued batch_uuid priority now id ts)
          (All-imp _ (λ r. in_batch u r ≡ false) (λ r (b, o). rw b e) _ (queued_open id ts)),
    )

    rows_of-own :
        (u : String) → (batch_uuid == u) ≡ true → rows_of u grown ≡ rows_of u items + length ts
    rows_of-own u e = omega (
      arith,
      count_where-append (in_batch u) items (queued batch_uuid priority now id ts),
      count_where-all (in_batch u) (queued batch_uuid priority now id ts)
          (All-imp _ (λ r. in_batch u r ≡ true) (λ r (b, o). rw b e) _ (queued_open id ts)),
      length-queued id ts,
    )

    -- The batches after the insert are given with what the insert asks of them.
    pub grown-IsSound :
        (s : Refresh) (bs : List Batch)
        → s.queue.items ≡ items
        → s.queue.next_id ≡ id
        → Distinct (λ b. b.batch_uuid) bs
        → All (Balanced grown) bs
        → IsSound s
        → IsSound
            (record { queue = record { items = grown; next_id = id + length ts }; batches = bs })
    grown-IsSound s bs at from d balanced i = record {
      ids =
          Distinct-append items _ id (rw⁻¹ at i.ids) (rw⁻¹ at (rw⁻¹ from i.below))
            (queued-Distinct id ts) (queued_from id ts);
      below =
          All-append (λ r. r.id < id + length ts) items _
            (All-imp (λ r. r.id < id) _ (λ r l. omega (arith, l)) items
              (rw⁻¹ at (rw⁻¹ from i.below)))
            (queued_below id ts);
      uuids = d;
      balanced = balanced;
    }

    -- A batch of another uuid.
    pub Balanced-other :
        (b : Batch) → (batch_uuid == b.batch_uuid) ≡ false → Balanced items b → Balanced grown b
    Balanced-other b e h = rw (rows_of-other b.batch_uuid e, terminal_rows-grown b.batch_uuid) h

    -- The batch of the new rows, once its total has grown.
    pub Balanced-own :
        (b c : Batch)
        → (batch_uuid == b.batch_uuid) ≡ true
        → c.batch_uuid ≡ b.batch_uuid
        → c.total ≡ b.total + length ts
        → tally c ≡ tally b
        → is_completed c.status ≡ false
        → Balanced items b
        → Balanced grown c
    Balanced-own b c e same more adds open' (covers, sum, closed) = rw same (
        rw (rows_of-own b.batch_uuid e, terminal_rows-grown b.batch_uuid)
          (omega (arith, more, covers), omega (arith, adds, sum), rw open' refl))
