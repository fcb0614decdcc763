-- ===== src/Indexer/Claimed.antt =====
-- The rows that one call of claim_dirty takes.
use repo_backend_v.Base.{
  ℕ, Bool, true, ◌&&◌, ◌≡◌, refl, List, [], ◌∷◌, map, nat_eq, string_eq, contains, filter, All,
  All-imp, Bool-cases, inl, inr, ◌∙◌, sym,
}
use repo_backend_v.Base.Table.{update_where}
use repo_backend_v.Indexer.Model.{
  Object, is_dirty, clean, has_id, claim_cap, claim_ids, claim_dirty,
}
use repo_backend_v.Base.Keys.{Distinct, contains-filter, contains-take, map-filter-update_where}

-- The table's primary key and its unique pid.
pub record IsKeyed (rows : List Object) : Type 0 where
  pub ids : Distinct (λ r. r.id) rows
  pub pids : Distinct (λ r. r.pid) rows

pub filter-filter :
    (p q : Object → Bool) (rows : List Object)
    → filter q (filter p rows) ≡ filter (λ r. p r && q r) rows
filter-filter p q [] = refl
filter-filter p q (r ∷ rs) = elim (Bool-cases (p r)) [
  | inl e ↦ rw (e, filter-filter p q rs) refl
  | inr e ↦ rw (e, filter-filter p q rs) refl
]

module _ (limit : ℕ) (rows : List Object) (keyed : IsKeyed rows) where
  abbrev pub is_claimed : Object → Bool
  is_claimed = has_id (claim_ids limit rows)

  pub is_claimed-dirty : All (λ r. is_claimed r ≡ true → r.is_updated ≡ true) rows
  unfolding claim_ids
  is_claimed-dirty =
      All-imp (λ r. contains (map (λ q. q.id) (filter is_dirty rows)) r.id ≡ is_dirty r) _
        (λ r e h. sym e ∙ contains-take (λ q. q.id) (claim_cap limit) (filter is_dirty rows) r.id h)
        rows (contains-filter (λ q. q.id) is_dirty rows keyed.ids)

  -- The claimed rows of which a test holds, named by pid.
  pub claimed_pids :
      (q : Object → Bool)
      → ((r : Object) → q (clean r) ≡ q r)
      → All
          (λ r.
            contains (map (λ c. c.pid) (filter q (claim_dirty limit rows).0)) r.pid
            ≡ (is_claimed r && q r))
          rows
  unfolding claim_dirty
  claimed_pids q same =
      rw
        (
          filter-filter is_claimed q (update_where is_claimed clean rows),
          map-filter-update_where (λ c. c.pid) (λ r. is_claimed r && q r) is_claimed clean
              (λ r. refl) (λ r. rw (same r) refl) rows,
        )
        (contains-filter (λ q. q.pid) (λ r. is_claimed r && q r) rows keyed.pids)
