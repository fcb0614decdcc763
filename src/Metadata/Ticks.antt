-- ===== src/Metadata/Ticks.antt =====
-- A tick of the producer, against the counters of the batches.
use mathlib.Core.List.{Memᴰ, reverse}
use repo_backend_v.Base.{
  ℕ, ◌+◌, String, Bool, true, false, ◌&&◌, ◌||◌, ◌≡◌, refl, Option, none, some, List, [], ◌∷◌, map,
  arith, ◌==◌, nat_eq, string_eq, length, find, find_passes, All, All-zip, All-reverse, Bool-cases,
  inl, inr, if-both, eq_iff, get_or,
}
use repo_backend_v.Base.Table.{update_where, All-update_where}
use repo_backend_v.Base.Keys.{Distinct, Distinct-update_where, All_of_key}
use repo_backend_v.Metadata.Model.{Object, system}
use repo_backend_v.Metadata.Model.Enqueue.{
  target, unique_rows, insert_batch, enqueue_chunk_for_batch,
}
use repo_backend_v.Metadata.Batches.{
  Batch, completed, is_running, has_uuid, get_active_batch, advanced, advance_cursor, same_cursor,
  increment_total, complete_if_empty,
}
use repo_backend_v.Metadata.Producer.{
  RefreshConfig, Refresh, Produced, ended, ship, last_id, tick_batch, tick, chunk_limit,
  read_chunk_from_objects,
}
use repo_backend_v.Metadata.Ledger.{Balanced, IsSound}
use repo_backend_v.Metadata.Inserted.{grown-IsSound, Balanced-other, Balanced-own}

All_members {κ} :
    {A : Type 0} (P : A → Type κ) (xs : List A) → ((a : A) → Memᴰ a xs → P a) → All P xs
All_members P [] h = tt
All_members P (x ∷ xs) h = (h x (Memᴰ.head refl), All_members P xs (λ a m. h a (Memᴰ.tail m)))

All-find {κ} :
    {A : Type 0} (P : A → Type κ) (p : A → Bool) (xs : List A) {a : A}
    → All P xs
    → find p xs ≡ some a
    → P a
All-find P p [] h e = cc e
All-find P p (x ∷ xs) {a} (q, h) e = elim (Bool-cases (p x)) [
  | inl k ↦ let found : some x ≡ some a = simp k at e in let same : x ≡ a = cc found in rw⁻¹ same q
  | inr k ↦ All-find P p xs h (simp k at e)
]

-- The batches of one uuid are one batch.
abbrev Sole : List Batch → Batch → Type 0
Sole bs b = All (λ c. has_uuid b.batch_uuid c ≡ true → c ≡ b) bs

active-Sole :
    (bs : List Batch) {b : Batch}
    → Distinct (λ c. c.batch_uuid) bs
    → get_active_batch bs ≡ some b
    → Sole bs b × (is_running b.status ≡ true)
unfolding get_active_batch
active-Sole bs {b} d e =
    let soles : All (Sole bs) bs =
      All_members (Sole bs) bs (λ a m. All_of_key (λ c. c.batch_uuid) bs d m) in
    (
      All-find (Sole bs) (λ c. is_running c.status) (reverse bs) (All-reverse (Sole bs) bs soles) e,
      find_passes (λ c. is_running c.status) (reverse bs) e,
    )

-- The batches change in what the counters do not see.
batches-IsSound :
    (q : Batch → Bool) (f : Batch → Batch) (s : Refresh)
    → ((b : Batch) → (f b).batch_uuid ≡ b.batch_uuid)
    → ((b : Batch) → Balanced s.queue.items b → q b ≡ true → Balanced s.queue.items (f b))
    → IsSound s
    → IsSound (record s { batches = update_where q f s.batches })
batches-IsSound q f s same keeps i = record {
  ids = i.ids;
  below = i.below;
  uuids = Distinct-update_where (λ b. b.batch_uuid) q f same s.batches i.uuids;
  balanced =
      All-update_where (Balanced s.queue.items) (Balanced s.queue.items) q f keeps (λ b h e. h)
        s.batches i.balanced;
}

ended-IsSound :
    (b : Batch) (s : Refresh) → IsSound s → IsSound (record s { batches = ended b s.batches })
unfolding advance_cursor
ended-IsSound b s i = batches-IsSound _ (advanced b.cursor_id true) s (λ c. refl) (λ c h e. h) i

emptied-IsSound :
    (u : String) (s : Refresh)
    → IsSound s
    → IsSound (record s { batches = (complete_if_empty u s.batches).1 })
unfolding complete_if_empty
emptied-IsSound u s i =
    batches-IsSound _ (λ b. record b { status = completed }) s (λ c. refl)
      (λ c (covers, adds, closed) e. (covers, adds, ground (arith, e, covers))) i

flipped : (b c : Batch) → has_uuid b.batch_uuid c ≡ true → (b.batch_uuid == c.batch_uuid) ≡ true
flipped b c e = ground (arith, eq_iff b.batch_uuid c.batch_uuid, eq_iff c.batch_uuid b.batch_uuid)

flipped_not :
    (b c : Batch) → has_uuid b.batch_uuid c ≡ false → (b.batch_uuid == c.batch_uuid) ≡ false
flipped_not b c e =
    ground (arith, eq_iff b.batch_uuid c.batch_uuid, eq_iff c.batch_uuid b.batch_uuid)

abbrev Open : Batch → Refresh → Batch → Type 0
Open b s c =
    Balanced s.queue.items c × (has_uuid b.batch_uuid c ≡ true → is_running c.status ≡ true)

module _ (cfg : RefreshConfig) (now : ℕ) where
  ship-IsSound :
      (b : Batch) (os : List Object) (s : Refresh)
      → Sole s.batches b
      → is_running b.status ≡ true
      → IsSound s
      → IsSound (ship cfg now b os s).1
  unfolding ship enqueue_chunk_for_batch insert_batch advance_cursor increment_total
  ship-IsSound b [] s sole runs i =
      emptied-IsSound b.batch_uuid (record s { batches = ended b s.batches }) (ended-IsSound b s i)
  ship-IsSound b (o ∷ os) s sole runs i =
      let ts = unique_rows [] (map (target system) (o ∷ os)) in
      let cursor = some (last_id o.id os) in
      let q : Batch → Bool = λ c. has_uuid b.batch_uuid c && same_cursor b.cursor_id c.cursor_id in
      let moved = update_where q (advanced cursor false) s.batches in
      let kept : All (Open b s) moved =
        All-update_where (Open b s) (Open b s) q (advanced cursor false) (λ c h e. h) (λ c h e. h)
          s.batches
          (All-zip (Balanced s.queue.items) (λ c. has_uuid b.batch_uuid c ≡ true → c ≡ b) (Open b s)
            (λ c h k. (h, λ e. rw (k e) runs)) s.batches i.balanced sole) in
      grown-IsSound b.batch_uuid cfg.priority now s.queue.next_id ts s.queue.items s
        (increment_total b.batch_uuid (length ts) moved) refl refl
        (Distinct-update_where (λ c. c.batch_uuid) (has_uuid b.batch_uuid) _ (λ c. refl) moved
          (Distinct-update_where (λ c. c.batch_uuid) q (advanced cursor false) (λ c. refl) s.batches
            i.uuids))
        (All-update_where (Open b s) _ (has_uuid b.batch_uuid)
          (λ c. record c { total = c.total + length ts })
          (λ c (h, k) e.
            Balanced-own b.batch_uuid cfg.priority now s.queue.next_id ts s.queue.items c
              (record c { total = c.total + length ts }) (flipped b c e) refl refl refl
              (ground (arith, k e)) h)
          (λ c (h, k) e.
            Balanced-other b.batch_uuid cfg.priority now s.queue.next_id ts s.queue.items c
              (flipped_not b c e) h)
          moved kept)
        i

  tick_batch-IsSound :
      (objects : List Object) (o : Option Batch) (s : Refresh)
      → get_active_batch s.batches ≡ o
      → IsSound s
      → IsSound (tick_batch cfg now objects o s).1
  tick_batch-IsSound objects none s e i = i
  tick_batch-IsSound objects (some b) s e i =
      let (sole, runs) = active-Sole s.batches i.uuids e in
      if-both {A = Produced × Refresh} (λ t. IsSound t.1) (b.cancel_requested || b.enqueue_complete)
        (λ k.
          if-both (λ bs. IsSound (record s { batches = bs })) b.enqueue_complete (λ l. i)
            (λ l. ended-IsSound b s i))
        (λ k.
          ship-IsSound b (read_chunk_from_objects (get_or b.cursor_id 0) (chunk_limit cfg) objects)
            s sole runs i)

  -- A producer tick.
  pub tick-IsSound :
      (objects : List Object) (s : Refresh) → IsSound s → IsSound (tick cfg now objects s).1
  unfolding tick
  tick-IsSound objects s i = tick_batch-IsSound objects (get_active_batch s.batches) s refl i
