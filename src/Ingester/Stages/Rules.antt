-- ===== src/Ingester/Stages/Rules.antt =====
-- The rules that carry a property of the steps to a stage: what it may write, and where it leaves its
-- row when it returns.
use repo_backend_v.Base.{
  ℕ, String, true, ◌≡◌, refl, ◌∙◌, Option, none, some, List, nat_eq, string_eq, All, All-of,
}
use repo_backend_v.Base.Table.{update_where, All-update_where}
use repo_backend_v.Ingester.Queue.Store.{Row, Db, Error, Result, ok, err, M}
use repo_backend_v.Ingester.Queue.Update.{
  Patch, Opts, Updated, target_state, enrich_update, write, update_queue,
}
use repo_backend_v.Ingester.Queue.Select.{by_id}
use repo_backend_v.Ingester.Queue.Audit.{write-state}
use repo_backend_v.Ingester.Queue.Returned.{update_queue-rows}
use repo_backend_v.Ingester.Stages.Frame.{
  Into, Framed, Framed-refl, Framed-trans, update_queue-Framed,
}
use repo_backend_v.Ingester.Stages.World.{
  World, S, ◌>>=◌, continue, catch, handle, on_queue, place, attempt, statement, first_fault,
  later_faults,
}

module _ (id : ℕ) (states : List String) where
  -- From this world on, only the stage's row changes, and only to the states given.
  abbrev pub FramedTo : World → {A : Type 0} → Result A × World → Type 0
  FramedTo w x = Framed id states w.queue.rows x.1.queue.rows

  abbrev pub Safe : {A : Type 0} → S A → Type 0
  Safe m = (w : World) → FramedTo w (m w)

  pub Safe-pure : {A : Type 0} (r : Result A) → Safe (λ w. (r, w))
  Safe-pure r w = Framed-refl id states w.queue.rows

  FramedTo-continue :
      {A B : Type 0} (k : A → S B)
      → ((a : A) → Safe (k a))
      → (w : World) (x : Result A × World) → FramedTo w x
      → FramedTo w (continue k x)
  FramedTo-continue k safe w (ok a, v) h = Framed-trans id states _ _ _ h (safe a v)
  FramedTo-continue k safe w (err e, v) h = h

  pub Safe->>= :
      {A B : Type 0} (m : S A) (k : A → S B) → Safe m → ((a : A) → Safe (k a)) → Safe (m >>= k)
  Safe->>= m k first next w = FramedTo-continue k next w (m w) (first w)

  FramedTo-handle :
      {A : Type 0} (h : Error → S A)
      → ((e : Error) → Safe (h e))
      → (w : World) (x : Result A × World) → FramedTo w x
      → FramedTo w (handle h x)
  FramedTo-handle h safe w (ok a, v) f = f
  FramedTo-handle h safe w (err e, v) f = Framed-trans id states _ _ _ f (safe e v)

  pub Safe-catch :
      {A : Type 0} (m : S A) (h : Error → S A)
      → Safe m
      → ((e : Error) → Safe (h e))
      → Safe (catch m h)
  Safe-catch m h first next w = FramedTo-handle h next w (m w) (first w)

  pub Safe-on_queue :
      {A : Type 0} (m : M A)
      → ((db : Db) → Framed id states db.rows (m db).1.rows)
      → Safe (on_queue m)
  Safe-on_queue m h w = h w.queue

  pub Safe-update_queue :
      (p : Patch) (opts : Opts)
      → Into states (target_state p)
      → Safe (on_queue (update_queue (by_id id) p opts))
  Safe-update_queue p opts into w = update_queue-Framed id states p opts w.queue into

  Safe-attempt : {A : Type 0} (f : Option String) (m : S A) → Safe m → Safe (attempt f m)
  Safe-attempt none m h w = h w
  Safe-attempt (some message) m h w = Framed-refl id states w.queue.rows

  pub Safe-statement : {A : Type 0} (m : S A) → Safe m → Safe (statement m)
  Safe-statement m h w =
      Safe-attempt (first_fault w.faults) m h (record w { faults = later_faults w.faults })

-- Every row of the id is in the state.
abbrev pub At : ℕ → String → World → Type 0
At id state w = All (λ r. by_id id r ≡ true → r.pipeline_state ≡ state) w.queue.rows

abbrev pub AtOption : ℕ → Option String → World → Type 0
AtOption id none w = Unit
AtOption id (some s) w = At id s w

module _ {A : Type 0} (id : ℕ) (exit : A → Option String) where
  -- If the result is a value, the row is in the state that the value stands for.
  abbrev pub Settled : Result A × World → Type 0
  Settled (ok a, w) = AtOption id (exit a) w
  Settled (err e, w) = Unit

  pub Settled-ok :
      (x : Result A × World) (a : A) (s : String)
      → x.0 ≡ ok a
      → exit a ≡ some s
      → Settled x
      → At id s x.1
  Settled-ok (ok b, w) a s e f h = let same : b ≡ a = cc in rw (same, f) at h
  Settled-ok (err g, w) a s e f h = absurd cc

  pub Settled-continue :
      {B : Type 0} (k : B → S A)
      → ((b : B) (w : World) → Settled (k b w))
      → (x : Result B × World) → Settled (continue k x)
  Settled-continue k h (ok b, w) = h b w
  Settled-continue k h (err e, w) = tt

  At-write :
      (p : Patch) (now : ℕ) (state : String)
      → target_state p ≡ some state
      → (rows : List Row)
      → All
          (λ r. by_id id r ≡ true → r.pipeline_state ≡ state)
          (update_where (by_id id) (write (enrich_update p now)) rows)
  At-write p now state e rows =
      All-update_where {0, 0, 0} (λ r. Unit) (λ r. by_id id r ≡ true → r.pipeline_state ≡ state)
        (by_id id) (write (enrich_update p now)) (λ r _ _ _. write-state p now r ∙ (rw e refl))
        (λ r _ other own. cc) rows (All-of (λ r. Unit) (λ r. tt) rows)

  Settled-write :
      (p : Patch) (state : String) (a : A)
      → target_state p ≡ some state
      → exit a ≡ some state
      → (w : World) (x : Result Updated × Db)
      → ((u : Updated)
          → x.0 ≡ ok u
          → x.1.rows ≡ update_where (by_id id) (write (enrich_update p w.queue.now)) w.queue.rows)
      → Settled (continue (λ _. λ v. (ok a, v)) (place w x))
  Settled-write p state a e f w (ok u, db) rows =
      rw (f, rows u refl) (At-write p w.queue.now state e w.queue.rows)
  Settled-write p state a e f w (err g, db) rows = tt

  -- The stage's last write and its return.
  pub Settled-leave :
      (p : Patch) (opts : Opts) (state : String) (a : A)
      → target_state p ≡ some state
      → exit a ≡ some state
      → (w : World)
      → Settled ((on_queue (update_queue (by_id id) p opts) >>= λ _. λ v. (ok a, v)) w)
  Settled-leave p opts state a e f w =
      Settled-write p state a e f w (update_queue (by_id id) p opts w.queue)
        (λ u done. update_queue-rows (by_id id) p opts w.queue u done)
