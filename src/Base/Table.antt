-- ===== src/Base/Table.antt =====
-- A database table as the list of its rows in primary-key order, with the statements the code
-- sends: a conditional update and delete, an insert, a count. A criteria object is a test.
use repo_backend_v.Base.{
  ℕ, ◌≡◌, refl, Bool, true, false, not, List, [], ◌∷◌, arith, if◌then◌else◌, length, filter, All,
  inl, inr, Bool-cases,
}

module _ {ℓ} {R : Type ℓ} where
  -- UPDATE … WHERE
  unfoldable pub update_where : (R → Bool) → (R → R) → List R → List R
  update_where p f [] = []
  update_where p f (r ∷ rs) = (if p r then f r else r) ∷ update_where p f rs

  -- SELECT COUNT(*) … WHERE, and the row count that an UPDATE reports (rows matched).
  unfoldable pub count_where : (R → Bool) → List R → ℕ
  count_where p rows = length (filter p rows)

  -- DELETE … WHERE
  unfoldable pub delete_where : (R → Bool) → List R → List R
  delete_where p rows = filter (λ r. not (p r)) rows

  pub length-update_where :
      (p : R → Bool) (f : R → R) (rows : List R) → length (update_where p f rows) ≡ length rows
  unfolding update_where
  length-update_where p f [] = refl
  length-update_where p f (r ∷ rs) = omega (arith, length-update_where p f rs)

  -- What holds of every row afterwards, from what held of it before.
  pub All-update_where {κ κ'} :
      (Q : R → Type κ) (P : R → Type κ') (p : R → Bool) (f : R → R)
      → ((r : R) → Q r → p r ≡ true → P (f r))
      → ((r : R) → Q r → p r ≡ false → P r)
      → (rows : List R) → All Q rows
      → All P (update_where p f rows)
  unfolding update_where
  All-update_where Q P p f written kept [] h = tt
  All-update_where Q P p f written kept (r ∷ rs) (here, later) = elim (Bool-cases (p r)) [
    | inl e ↦ simp e (written r here e, All-update_where Q P p f written kept rs later)
    | inr e ↦ simp e (kept r here e, All-update_where Q P p f written kept rs later)
  ]

  pub update_where_none :
      (p : R → Bool) (f : R → R) (rows : List R) → filter p rows ≡ [] → update_where p f rows ≡ rows
  unfolding update_where
  update_where_none p f [] h = refl
  update_where_none p f (r ∷ rs) h = ground (arith, update_where_none p f rs)
