-- ===== src/Convert/Claims.antt =====
-- The order in which the convert worker claims rows.
use repo_backend_v.Base.{
  true, false, ◌≡◌, refl, Option, none, some, List, [], ◌∷◌, arith, nat_eq, All, All-imp,
  Bool-cases, inl, inr,
}
use mathlib.Core.List.{Memᴰ}
use repo_backend_v.Convert.Model.{Row, is_pending, precedes, earlier_of, first_pending, claim_one}

-- No pending row comes before this one.
abbrev pub NotBefore : Row → Row → Type 0
NotBefore row q = is_pending q.status ≡ true → precedes q row ≡ false

-- What a claim promises: a pending row of the table that no pending row comes before, or none where no
-- row is pending.
unfoldable pub First : Option Row → List Row → Type 0
First none rows = All (λ q. is_pending q.status ≡ false) rows
First (some row) rows = Memᴰ row rows × (is_pending row.status ≡ true) × All (NotBefore row) rows

not_before_self : (r : Row) → precedes r r ≡ false
not_before_self r = ground arith

skipped :
    (r : Row) (o : Option Row) (rs : List Row)
    → is_pending r.status ≡ false
    → First o rs
    → First o (r ∷ rs)
unfolding First
skipped r none rs e h = (e, h)
skipped r (some row) rs e (m, p, h) = (Memᴰ.tail m, p, ((λ k. cc), h))

taken :
    (r : Row) (o : Option Row) (rs : List Row)
    → is_pending r.status ≡ true
    → First o rs
    → First (earlier_of r o) (r ∷ rs)
unfolding First
taken r none rs e h = (
  Memᴰ.head refl,
  e,
  (
    (λ _. not_before_self r),
    All-imp (λ q. is_pending q.status ≡ false) (NotBefore r) (λ q no k. cc) rs h,
  ),
)
taken r (some row) rs e (m, p, h) = elim (Bool-cases (precedes row r)) [
  | inl before ↦ rw before (Memᴰ.tail m, p, ((λ _. ground arith), h))
  | inr after ↦ rw after (
    Memᴰ.head refl,
    e,
    (
      (λ _. not_before_self r),
      All-imp (NotBefore row) (NotBefore r) (λ q no k. ground (arith, no k)) rs h,
    ),
  )
]

first_pending-First : (rows : List Row) → First (first_pending rows) rows
unfolding first_pending
first_pending-First [] = unfold First in tt
first_pending-First (r ∷ rs) = elim (Bool-cases (is_pending r.status)) [
  | inl e ↦ rw e (taken r (first_pending rs) rs e (first_pending-First rs))
  | inr e ↦ rw e (skipped r (first_pending rs) rs e (first_pending-First rs))
]

-- A claim takes a row of the table that is pending, and no pending row has spent fewer attempts, or as
-- many and has a smaller id; it takes none only where no row is pending.
pub claim_one-First : (rows : List Row) → First (claim_one rows).0 rows
unfolding claim_one
claim_one-First rows = first_pending-First rows
