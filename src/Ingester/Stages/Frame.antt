-- ===== src/Ingester/Stages/Frame.antt =====
-- What a stage may do to the queue's rows: only its own row changes, and only to the states given.
use repo_backend_v.Ingester.Queue.Audit.{write-id, write-state}
use repo_backend_v.Base.{
  ℕ, String, true, ◌≡◌, refl, sym, ◌∙◌, ◌⊎◌, inl, inr, Option, none, some, List, [], ◌∷◌, arith,
  nat_eq, string_eq, contains, Bool-cases, get_or,
}
use repo_backend_v.Base.Table.{update_where}
use repo_backend_v.Ingester.Queue.Store.{Row, Db}
use repo_backend_v.Ingester.Queue.Update.{
  Patch, Opts, target_state, enrich_update, write, apply_update, update_queue,
}
use repo_backend_v.Ingester.Queue.Select.{by_id}
use repo_backend_v.Ingester.Queue.Outcome.{update_queue-Outcome}

-- The state that an update sets is one of these, if it sets one.
abbrev pub Into : List String → Option String → Type 0
Into states none = Unit
Into states (some s) = contains states s ≡ true

module _ (id : ℕ) (states : List String) where
  -- The row before and after.
  abbrev pub Moved : Row → Row → Type 0
  Moved r q =
      (q ≡ r)
      ⊎ ((r.id ≡ id)
          × (q.id ≡ id)
          × ((q.pipeline_state ≡ r.pipeline_state) ⊎ (contains states q.pipeline_state ≡ true)))

  -- The table before and after, row by row.
  abbrev pub Framed : List Row → List Row → Type 0
  Framed [] [] = Unit
  Framed [] (q ∷ qs) = ⊥
  Framed (r ∷ rs) [] = ⊥
  Framed (r ∷ rs) (q ∷ qs) = Moved r q × Framed rs qs

  pub Framed-refl : (rows : List Row) → Framed rows rows
  Framed-refl [] = tt
  Framed-refl (r ∷ rs) = (inl refl, Framed-refl rs)

  Moved-trans : {r q s : Row} → Moved r q → Moved q s → Moved r s
  Moved-trans (inl e) (inl f) = inl (f ∙ e)
  Moved-trans {r} {q} {s} (inl e) (inr m) = rw (sym e) (inr m)
  Moved-trans {r} {q} {s} (inr m) (inl f) = rw f (inr m)
  Moved-trans (inr (a, b, x)) (inr (c, d, inl e)) = elim x [
    | inl f ↦ inr (a, d, inl (e ∙ f))
    | inr f ↦ inr (a, d, inr (rw e f))
  ]
  Moved-trans (inr (a, b, x)) (inr (c, d, inr f)) = inr (a, d, inr f)

  pub Framed-trans : (xs ys zs : List Row) → Framed xs ys → Framed ys zs → Framed xs zs
  Framed-trans [] [] [] h k = tt
  Framed-trans [] [] (z ∷ zs) h k = k
  Framed-trans [] (y ∷ ys) zs h k = absurd h
  Framed-trans (x ∷ xs) [] zs h k = absurd h
  Framed-trans (x ∷ xs) (y ∷ ys) [] h k = k
  Framed-trans (x ∷ xs) (y ∷ ys) (z ∷ zs) (m, h) (n, k) =
      (Moved-trans m n, Framed-trans xs ys zs h k)

  write-Into :
      (t : Option String) (old new : String)
      → Into states t
      → new ≡ get_or t old
      → (new ≡ old) ⊎ (contains states new ≡ true)
  write-Into none old new into e = inl e
  write-Into (some s) old new into e = inr (rw e into)

  Moved-write :
      (p : Patch) (now : ℕ) (r : Row)
      → Into states (target_state p)
      → by_id id r ≡ true
      → Moved r (write (enrich_update p now) r)
  Moved-write p now r into mine =
      let own : r.id ≡ id = ground arith in
      inr (
        own,
        write-id p now r ∙ own,
        write-Into (target_state p) r.pipeline_state _ into (write-state p now r),
      )

  Framed-update_where :
      (p : Patch) (now : ℕ)
      → Into states (target_state p)
      → (rows : List Row) → Framed rows (update_where (by_id id) (write (enrich_update p now)) rows)
  unfolding update_where
  Framed-update_where p now into [] = tt
  Framed-update_where p now into (r ∷ rs) = elim (Bool-cases (by_id id r)) [
    | inl e ↦ rw e (Moved-write p now r into e, Framed-update_where p now into rs)
    | inr e ↦ rw e (inl refl, Framed-update_where p now into rs)
  ]

  -- One call of `update_queue` on the stage's row.
  pub update_queue-Framed :
      (p : Patch) (opts : Opts) (db : Db)
      → Into states (target_state p)
      → Framed db.rows (update_queue (by_id id) p opts db).1.rows
  update_queue-Framed p opts db into = elim (update_queue-Outcome (by_id id) p opts db) [
    | inl u ↦ rw u.rows (Framed-refl db.rows)
    | inr w ↦ rw w.rows (unfold apply_update in (Framed-update_where p db.now into db.rows))
  ]
