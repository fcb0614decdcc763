-- ===== src/Metadata/Settled.antt =====
-- One claimed row is processed, against the counters of its batch.
use mathlib.Core.List.{Memᴰ}
use repo_backend_v.Base.{
  ℕ, ◌+◌, String, Bool, true, false, not, ◌&&◌, ◌||◌, ◌≡◌, refl, Option, none, some, List, [], ◌∷◌,
  arith, ltb, if◌then◌else◌, ◌==◌, nat_eq, string_eq, find, is_some, All, All-imp, Bool-cases, inl,
  inr, if-both, eq_iff, All-zip,
}
use repo_backend_v.Base.Table.{update_where, All-update_where}
use repo_backend_v.Base.Keys.{Distinct, Distinct-update_where, All_of_key}
use repo_backend_v.Base.Counts.{count_where-update_one, one_if}
use repo_backend_v.Metadata.Model.{
  Item, in_batch, has_id, RetryConfig, attempts_allowed, attempts_of, retried, dead, mark_failed,
  mark_updated, mark_complete, record_updated, complete,
}
use repo_backend_v.Metadata.Batches.{
  Batch, has_uuid, RowOutcome, row_succeeded, row_failed, row_dead_lettered, counted, finished,
  on_row_terminal, completed,
}
use repo_backend_v.Metadata.Producer.{Refresh}
use repo_backend_v.Metadata.Worker.{
  Fetched, answered, threw, Write, written, lost, half, Attempt, roll_up, fail_row, succeed_row,
  is_unauthorised, write_row, read_row, use_answer, process_row,
}
use repo_backend_v.Metadata.Ledger.{
  Balanced, IsSound, rows_of, terminal, terminal_rows-kept, terminal_rows, rows_of-kept, All-below,
  update_where-IsSound,
}

mine :
    (row : Item) (b : Batch) → has_uuid row.batch_uuid b ≡ true → in_batch b.batch_uuid row ≡ true
mine row b e =
    ground (arith, eq_iff b.batch_uuid row.batch_uuid, eq_iff row.batch_uuid b.batch_uuid)

not_mine :
    (row : Item) (b : Batch) → has_uuid row.batch_uuid b ≡ false → in_batch b.batch_uuid row ≡ false
not_mine row b e =
    ground (arith, eq_iff b.batch_uuid row.batch_uuid, eq_iff row.batch_uuid b.batch_uuid)

counted-batch_uuid :
    (outcome : RowOutcome) (b : Batch) → (counted outcome b).batch_uuid ≡ b.batch_uuid
counted-batch_uuid row_succeeded b = refl
counted-batch_uuid row_failed b = refl
counted-batch_uuid row_dead_lettered b = refl

unmatched :
    (p : Batch → Bool) (bs : List Batch) → is_some (find p bs) ≡ false → All (λ b. p b ≡ false) bs
unmatched p [] e = tt
unmatched p (b ∷ bs) e = elim (Bool-cases (p b)) [
  | inl k ↦ let no : true ≡ false = simp k at e in cc no
  | inr k ↦ (k, unmatched p bs (simp k at e))
]

module _ (row : Item) (s : Refresh) (member : Memᴰ row s.queue.items)
    (open' : row.is_complete ≡ false) (i : IsSound s) where
  abbrev items : List Item
  items = s.queue.items

  only_row : All (λ q. has_id row.id q ≡ true → q ≡ row) items
  only_row = All_of_key (λ q. q.id) items i.ids member

  -- A write that leaves the row open.
  pub open_write :
      (f : Item → Item)
      → ((r : Item) → (f r).id ≡ r.id)
      → ((r : Item) → (f r).batch_uuid ≡ r.batch_uuid)
      → ((r : Item) → r.is_complete ≡ false → (f r).is_complete ≡ false)
      → IsSound
          (record s { queue = record s.queue { items = update_where (has_id row.id) f items } })
  open_write f same batch keeps =
      update_where-IsSound (has_id row.id) f items s refl same (λ u r. rw (batch r) refl)
        (λ u. terminal_rows-kept (has_id row.id) f items u (
          All-imp (λ q. has_id row.id q ≡ true → q ≡ row) _
            (λ q h k.
              let o : q.is_complete ≡ false = rw (h k) open' in ground (arith, o, keeps q o))
            items only_row))
        i

  module _ (f : Item → Item) (same : (r : Item) → (f r).id ≡ r.id)
      (batch : (r : Item) → (f r).batch_uuid ≡ r.batch_uuid)
      (ends : (r : Item) → (f r).is_complete ≡ true) where
    abbrev after : List Item
    after = update_where (has_id row.id) f items

    -- One more terminal row, of the row's batch.
    terminal_rows-after :
        (u : String) → terminal_rows u after ≡ terminal_rows u items + one_if (in_batch u row)
    terminal_rows-after u =
        let one = count_where-update_one (λ r. r.id) (terminal u) f items row i.ids member in
        ground (arith, one, open', ends row, batch row)

    rows_of-after : (u : String) → rows_of u after ≡ rows_of u items
    rows_of-after u = rows_of-kept (has_id row.id) f items u (λ r. rw (batch r) refl)

    counted-Balanced :
        (outcome : RowOutcome) (b : Batch)
        → Balanced items b
        → has_uuid row.batch_uuid b ≡ true
        → Balanced after (counted outcome b)
    counted-Balanced row_succeeded b (covers, adds, closed) e = ground (
      arith,
      covers,
      adds,
      closed,
      terminal_rows-after b.batch_uuid,
      rows_of-after b.batch_uuid,
      mine row b e,
    )
    counted-Balanced row_failed b (covers, adds, closed) e = ground (
      arith,
      covers,
      adds,
      closed,
      terminal_rows-after b.batch_uuid,
      rows_of-after b.batch_uuid,
      mine row b e,
    )
    counted-Balanced row_dead_lettered b (covers, adds, closed) e = ground (
      arith,
      covers,
      adds,
      closed,
      terminal_rows-after b.batch_uuid,
      rows_of-after b.batch_uuid,
      mine row b e,
    )

    other-Balanced :
        (b : Batch) → Balanced items b → has_uuid row.batch_uuid b ≡ false → Balanced after b
    other-Balanced b (covers, adds, closed) e = ground (
      arith,
      covers,
      adds,
      closed,
      terminal_rows-after b.batch_uuid,
      rows_of-after b.batch_uuid,
      not_mine row b e,
    )

    finished-Balanced :
        (b : Batch)
        → Balanced after b
        → finished b ≡ true
        → Balanced after (record b { status = completed })
    finished-Balanced b (covers, adds, closed) e = (covers, adds, ground (arith, e, covers))

    counted_row :
        (outcome : RowOutcome)
        → All (Balanced after) (update_where (has_uuid row.batch_uuid) (counted outcome) s.batches)
    counted_row outcome =
        All-update_where (Balanced items) (Balanced after) (has_uuid row.batch_uuid)
          (counted outcome) (λ b h e. counted-Balanced outcome b h e)
          (λ b h e. other-Balanced b h e) s.batches i.balanced

    on_row_terminal-Balanced :
        (outcome : RowOutcome)
        → All (Balanced after) (on_row_terminal row.batch_uuid outcome s.batches)
    unfolding on_row_terminal
    on_row_terminal-Balanced outcome =
        All-update_where (Balanced after) (Balanced after)
          (λ b. has_uuid row.batch_uuid b && finished b) (λ b. record b { status = completed })
          (λ b h e. finished-Balanced b h (ground (arith, e))) (λ b h e. h) _ (counted_row outcome)

    on_row_terminal-Distinct :
        (outcome : RowOutcome)
        → Distinct (λ b. b.batch_uuid) (on_row_terminal row.batch_uuid outcome s.batches)
    unfolding on_row_terminal
    on_row_terminal-Distinct outcome =
        Distinct-update_where (λ b. b.batch_uuid) _ (λ b. record b { status = completed })
          (λ b. refl) _
          (Distinct-update_where (λ b. b.batch_uuid) (has_uuid row.batch_uuid) (counted outcome)
            (counted-batch_uuid outcome) s.batches i.uuids)

    -- A write that makes the row terminal, with its roll-up.
    pub terminal_write :
        (outcome : RowOutcome)
        → IsSound (record {
          queue = record s.queue { items = after };
          batches = roll_up row outcome s.batches;
        })
    unfolding roll_up
    terminal_write outcome = record {
      ids = Distinct-update_where (λ r. r.id) (has_id row.id) f same items i.ids;
      below = All-below (has_id row.id) f items s.queue.next_id same i.below;
      uuids =
          if-both (Distinct (λ b. b.batch_uuid))
            (is_some (find (has_uuid row.batch_uuid) s.batches))
            (λ e. on_row_terminal-Distinct outcome) (λ e. i.uuids);
      balanced =
          if-both (All (Balanced after)) (is_some (find (has_uuid row.batch_uuid) s.batches))
            (λ e. on_row_terminal-Balanced outcome)
            (λ e.
              All-zip (Balanced items) (λ b. has_uuid row.batch_uuid b ≡ false) _
                (λ b h k. other-Balanced b h k) s.batches i.balanced
                (unmatched (has_uuid row.batch_uuid) s.batches e));
    }

  pub fail_row-IsSound :
      (cfg : RetryConfig) (now : ℕ) (text : String) → IsSound (fail_row cfg now row text s)
  unfolding fail_row mark_failed
  fail_row-IsSound cfg now text =
      let n = attempts_of (find (has_id row.id) items) + 1 in
      if-both {A = Bool × List Item}
        (λ q. IsSound (record {
          queue = record s.queue { items = q.1 };
          batches = if q.0 then roll_up row row_dead_lettered s.batches else s.batches;
        }))
        (ltb n (attempts_allowed cfg))
        (λ e. open_write (retried cfg now n text) (λ r. refl) (λ r. refl) (λ r o. refl))
        (λ e.
          terminal_write (dead now n text) (λ r. refl) (λ r. refl) (λ r. refl) row_dead_lettered)

Mem-update_where :
    (q : Item → Bool) (f : Item → Item) (r : Item) (rs : List Item)
    → q r ≡ true
    → Memᴰ r rs
    → Memᴰ (f r) (update_where q f rs)
unfolding update_where
Mem-update_where q f r [] e m = elim m [ ]
Mem-update_where q f r (x ∷ rs) e (Memᴰ.head k) = Memᴰ.head (rw⁻¹ k (rw e refl))
Mem-update_where q f r (x ∷ rs) e (Memᴰ.tail m) = Memᴰ.tail (Mem-update_where q f r rs e m)

module _ (row : Item) (s : Refresh) (member : Memᴰ row s.queue.items)
    (open' : row.is_complete ≡ false) (i : IsSound s) where
  abbrev touched : Refresh
  touched = record s { queue = record s.queue { items = mark_updated row.id s.queue.items } }

  touched-IsSound : IsSound touched
  unfolding mark_updated
  touched-IsSound = open_write row s member open' i _ (λ r. refl) (λ r. refl) (λ r o. o)

  touched_member :
      Memᴰ (record row { status = record_updated; is_updated = true }) touched.queue.items
  unfolding mark_updated
  touched_member = Mem-update_where (has_id row.id) _ row s.queue.items (ground arith) member

  succeed_row-IsSound : (now : ℕ) → IsSound (succeed_row now row s)
  unfolding succeed_row mark_complete
  succeed_row-IsSound now =
      terminal_write (record row { status = record_updated; is_updated = true }) touched
        touched_member open' touched-IsSound
        (λ r. record r { status = complete; is_complete = true; date_updated = now }) (λ r. refl)
        (λ r. refl) (λ r. refl) row_succeeded

  write_row-IsSound :
      (cfg : RetryConfig) (now : ℕ) (w : Write) → IsSound (write_row cfg now row w s)
  unfolding fail_row
  write_row-IsSound cfg now written = succeed_row-IsSound now
  write_row-IsSound cfg now (lost text) = fail_row-IsSound row s member open' i cfg now text
  write_row-IsSound cfg now (half text) =
      fail_row-IsSound (record row { status = record_updated; is_updated = true }) touched
        touched_member open' touched-IsSound cfg now text

  read_row-IsSound :
      (cfg : RetryConfig) (now : ℕ) (read : Option String) (w : Write)
      → IsSound (read_row cfg now row read w s)
  read_row-IsSound cfg now none w = write_row-IsSound cfg now w
  read_row-IsSound cfg now (some text) w = fail_row-IsSound row s member open' i cfg now text

  use_answer-IsSound :
      (cfg : RetryConfig) (now : ℕ) (message : ℕ → String) (a : Attempt) (f : Fetched)
      → IsSound (use_answer cfg now message row a f s)
  use_answer-IsSound cfg now message a (threw text) =
      fail_row-IsSound row s member open' i cfg now text
  use_answer-IsSound cfg now message a (answered status has_data) =
      if-both IsSound (not (status == 200) || not has_data)
        (λ e. fail_row-IsSound row s member open' i cfg now (message status))
        (λ e. read_row-IsSound cfg now a.db_read a.db_write)

  -- Processing an open row of the table.
  pub process_row-IsSound :
      (cfg : RetryConfig) (now : ℕ) (message : ℕ → String) (a : Attempt)
      → IsSound (process_row cfg now message row a s)
  unfolding process_row
  process_row-IsSound cfg now message a =
      use_answer-IsSound cfg now message a
        (if is_unauthorised a.fetch then a.fetch_again else a.fetch)
