-- ===== src/Base/Counts.antt =====
-- How many rows pass a test, after an insert and after an update of one row.
use mathlib.Core.List.{Memᴰ}
use repo_backend_v.Base.{
  ℕ, ◌+◌, ◌≤◌, Bool, true, false, ◌≡◌, refl, List, [], ◌∷◌, ◌++◌, arith, if◌then◌else◌, StrictEq,
  ◌==◌, length, filter, All, All-imp, Bool-cases, inl, inr, sym, ap, All-mem,
}
use repo_backend_v.Base.Table.{update_where, count_where}
use repo_backend_v.Base.Keys.{Distinct, Apart}

module _ {R : Type 0} (p : R → Bool) where
  pub count_where-append :
      (xs ys : List R) → count_where p (xs ++ ys) ≡ count_where p xs + count_where p ys
  unfolding count_where
  count_where-append [] ys = omega arith
  count_where-append (x ∷ xs) ys = ground (arith, count_where-append xs ys)

  pub count_where-all : (xs : List R) → All (λ x. p x ≡ true) xs → count_where p xs ≡ length xs
  unfolding count_where
  count_where-all [] h = refl
  count_where-all (x ∷ xs) (e, h) = ground (arith, e, count_where-all xs h)

  pub count_where-none : (xs : List R) → All (λ x. p x ≡ false) xs → count_where p xs ≡ 0
  unfolding count_where
  count_where-none [] h = refl
  count_where-none (x ∷ xs) (e, h) = ground (arith, e, count_where-none xs h)

  -- An update that the test does not see.
  pub count_where-unseen :
      (q : R → Bool) (f : R → R) (xs : List R)
      → All (λ x. q x ≡ true → p (f x) ≡ p x) xs
      → count_where p (update_where q f xs) ≡ count_where p xs
  unfolding count_where update_where
  count_where-unseen q f [] h = refl
  count_where-unseen q f (x ∷ xs) (e, h) = elim (Bool-cases (q x)) [
    | inl k ↦ rw k (ground (arith, e k, count_where-unseen q f xs h))
    | inr k ↦ rw k (ground (arith, count_where-unseen q f xs h))
  ]

abbrev pub one_if : Bool → ℕ
one_if b = if b then 1 else 0

module _ {R K : Type 0} ⦃t : StrictEq K⦄ (key : R → K) (p : R → Bool) (f : R → R) where
  count_where-apart :
      (r : R) (xs : List R)
      → All (λ q. (key q == key r) ≡ false) xs
      → count_where p (update_where (λ q. key q == key r) f xs) ≡ count_where p xs
  count_where-apart r xs h =
      count_where-unseen p (λ q. key q == key r) f xs
        (All-imp (λ q. (key q == key r) ≡ false) _ (λ q e k. cc (e, k)) xs h)

  -- The update of one row, named by a key.
  pub count_where-update_one :
      (xs : List R) (r : R)
      → Distinct key xs
      → Memᴰ r xs
      → count_where p (update_where (λ q. key q == key r) f xs) + one_if (p r)
        ≡ count_where p xs + one_if (p (f r))
  unfolding count_where update_where
  count_where-update_one [] r d m = elim m [ ]
  count_where-update_one (x ∷ xs) r (apart, d) (Memᴰ.head e) =
      let self : (key x == key r) ≡ true = (t.identical_iff (key x) (key r)).1 (ap key (sym e)) in
      let rest =
        count_where-apart r xs
          (All-imp (Apart key x) (λ q. (key q == key r) ≡ false) (λ q k. rw e k.0) xs apart) in
      let same : p r ≡ p x = ap p e in
      let same' : p (f r) ≡ p (f x) = ap (λ z. p (f z)) e in
      rw self (ground (arith, rest, same, same'))
  count_where-update_one (x ∷ xs) r (apart, d) (Memᴰ.tail m) =
      let other : (key x == key r) ≡ false = (All-mem (Apart key x) xs apart m).1 in
      rw other (ground (arith, count_where-update_one xs r d m))

module _ {R : Type 0} (p q : R → Bool) where
  pub count_where-filter-le : (xs : List R) → count_where p (filter q xs) ≤ count_where p xs
  unfolding count_where
  count_where-filter-le [] = omega arith
  count_where-filter-le (x ∷ xs) = ground (arith, count_where-filter-le xs)

  -- A delete of rows that the test does not count.
  pub count_where-filter :
      (xs : List R)
      → ((x : R) → p x ≡ true → q x ≡ true)
      → count_where p (filter q xs) ≡ count_where p xs
  unfolding count_where
  count_where-filter [] h = refl
  count_where-filter (x ∷ xs) h = ground (arith, h x, count_where-filter xs h)

  -- A test that another one implies.
  pub count_where-le :
      (xs : List R) → ((x : R) → p x ≡ true → q x ≡ true) → count_where p xs ≤ count_where q xs
  unfolding count_where
  count_where-le [] h = omega arith
  count_where-le (x ∷ xs) h = ground (arith, h x, count_where-le xs h)
