-- ===== src/Base/Keys.antt =====
-- Rows named by a key that no two of them share: naming them by key is picking them by a test.
use mathlib.Core.List.{Memᴰ}
use repo_backend_v.Base.{
  ℕ, zero, suc, Bool, true, false, ◌≡◌, refl, List, [], ◌∷◌, map, arith, StrictEq, ◌==◌, contains,
  filter, take, All, All-zip, Bool-cases, inl, inr, All-mem, All-imp, sym, ap, ◌++◌, All-filter,
  All-append,
}
use repo_backend_v.Base.Table.{update_where, All-update_where}

module _ {R K : Type 0} ⦃t : StrictEq K⦄ (key : R → K) where
  abbrev pub Apart : R → R → Type 0
  Apart r q = ((key q == key r) ≡ false) × ((key r == key q) ≡ false)

  abbrev pub Distinct : List R → Type 0
  Distinct [] = Unit
  Distinct (r ∷ rs) = All (Apart r) rs × Distinct rs

  module _ (p : R → Bool) where
    contains-Apart :
        (r : R) (rs : List R) → All (Apart r) rs → contains (map key (filter p rs)) (key r) ≡ false
    unfolding contains
    contains-Apart r [] h = refl
    contains-Apart r (q ∷ rs) (apart, h) = ground (arith, contains-Apart r rs h)

    pub contains-filter :
        (rs : List R) → Distinct rs → All (λ r. contains (map key (filter p rs)) (key r) ≡ p r) rs
    unfolding contains
    contains-filter [] d = tt
    contains-filter (r ∷ rs) (apart, d) = (
      ground (arith, contains-Apart r rs apart, (t.identical_iff (key r) (key r)).1 refl),
      All-zip (Apart r) (λ q. contains (map key (filter p rs)) (key q) ≡ p q) _
          (λ q a ih. ground arith) rs apart (contains-filter rs d),
    )

  pub contains-take :
      (n : ℕ) (rs : List R) (k : K)
      → contains (map key (take n rs)) k ≡ true
      → contains (map key rs) k ≡ true
  unfolding contains
  contains-take zero rs k h = cc
  contains-take (suc n) [] k h = h
  contains-take (suc n) (r ∷ rs) k h = ground (arith, contains-take n rs k)

-- An update that keeps the keys keeps them distinct.
module _ {R K : Type 0} ⦃t : StrictEq K⦄ (key : R → K) (p : R → Bool) (f : R → R) where
  pub Distinct-update_where :
      ((r : R) → key (f r) ≡ key r)
      → (rows : List R) → Distinct key rows
      → Distinct key (update_where p f rows)
  unfolding update_where
  Distinct-update_where same [] d = tt
  Distinct-update_where same (r ∷ rs) (apart, d) = elim (Bool-cases (p r)) [
    | inl e ↦ rw e (
      All-update_where (Apart key r) (Apart key (f r)) p f (λ q a _. rw (same q, same r) a)
          (λ q a _. rw (same r) a) rs apart,
      Distinct-update_where same rs d,
    )
    | inr e ↦ rw e (
      All-update_where (Apart key r) (Apart key r) p f (λ q a _. rw (same q) a) (λ q a _. a) rs
          apart,
      Distinct-update_where same rs d,
    )
  ]

-- The only row with a member's key is that member.
module _ {R K : Type 0} ⦃t : StrictEq K⦄ (key : R → K) where
  All-Apart_other :
      (m r : R) (rs : List R) → All (Apart key m) rs → Memᴰ r rs → (key m == key r) ≡ false
  All-Apart_other m r rs h k = (All-mem (Apart key m) rs h k).1

  pub All_of_key :
      (rows : List R) {r : R}
      → Distinct key rows
      → Memᴰ r rows
      → All (λ q. (key q == key r) ≡ true → q ≡ r) rows
  All_of_key [] d m = elim m [ ]
  All_of_key (x ∷ xs) {r} (apart, d) (Memᴰ.head e) = (
    (λ _. sym e),
    All-imp (Apart key x) (λ q. (key q == key r) ≡ true → q ≡ r) (λ q a k. cc (a.0, k, ap key e)) xs
        apart,
  )
  All_of_key (x ∷ xs) {r} (apart, d) (Memᴰ.tail m) =
      ((λ k. cc (k, All-Apart_other x r xs apart m)), All_of_key xs d m)

module _ {R : Type 0} where
  -- Two updates of which the second repeats the first one's choice are one update.
  pub update_where-twice :
      (p q : R → Bool) (f g h : R → R) (rows : List R)
      → All
          (λ r. (p r ≡ true → (q (f r) ≡ true) × (g (f r) ≡ h r)) × (p r ≡ false → q r ≡ false))
          rows
      → update_where q g (update_where p f rows) ≡ update_where p h rows
  unfolding update_where
  update_where-twice p q f g h [] k = refl
  update_where-twice p q f g h (r ∷ rs) ((picked, left), k) = elim (Bool-cases (p r)) [
    | inl e ↦ rw (e, (picked e).0, (picked e).1, update_where-twice p q f g h rs k) refl
    | inr e ↦ rw (e, left e, update_where-twice p q f g h rs k) refl
  ]

  -- An update that changes no row that it picks.
  pub update_where-same :
      (p : R → Bool) (f : R → R) (rows : List R)
      → All (λ r. p r ≡ true → f r ≡ r) rows
      → update_where p f rows ≡ rows
  unfolding update_where
  update_where-same p f [] h = refl
  update_where-same p f (r ∷ rs) (here, h) = elim (Bool-cases (p r)) [
    | inl e ↦ rw (e, here e, update_where-same p f rs h) refl
    | inr e ↦ rw (e, update_where-same p f rs h) refl
  ]

  -- What a test picks after an update that it does not see, named by a key that the update keeps.
  pub map-filter-update_where :
      {K : Type 0} (key : R → K) (p q : R → Bool) (f : R → R)
      → ((r : R) → key (f r) ≡ key r)
      → ((r : R) → p (f r) ≡ p r)
      → (rows : List R) → map key (filter p (update_where q f rows)) ≡ map key (filter p rows)
  unfolding update_where
  map-filter-update_where key p q f k s [] = refl
  map-filter-update_where key p q f k s (r ∷ rs) = elim (Bool-cases (q r)) [
    | inl e ↦ elim (Bool-cases (p r)) [
      | inl e' ↦ rw (e, s r, e', k r, map-filter-update_where key p q f k s rs) refl
      | inr e' ↦ rw (e, s r, e', map-filter-update_where key p q f k s rs) refl
    ]
    | inr e ↦ elim (Bool-cases (p r)) [
      | inl e' ↦ rw (e, e', map-filter-update_where key p q f k s rs) refl
      | inr e' ↦ rw (e, e', map-filter-update_where key p q f k s rs) refl
    ]
  ]

module _ {R K : Type 0} ⦃t : StrictEq K⦄ (key : R → K) where
  pub Distinct-filter : (p : R → Bool) (rs : List R) → Distinct key rs → Distinct key (filter p rs)
  Distinct-filter p [] d = tt
  Distinct-filter p (r ∷ rs) (apart, d) = elim (Bool-cases (p r)) [
    | inl e ↦ simp e (All-filter (Apart key r) p rs apart, Distinct-filter p rs d)
    | inr e ↦ simp e (Distinct-filter p rs d)
  ]

  pub Distinct-snoc :
      (rs : List R) (r : R)
      → Distinct key rs
      → All (λ q. Apart key q r) rs
      → Distinct key (rs ++ r ∷ [])
  Distinct-snoc [] r d h = (tt, tt)
  Distinct-snoc (q ∷ rs) r (apart, d) (k, h) =
      (All-append (Apart key q) rs (r ∷ []) apart (k, tt), Distinct-snoc rs r d h)
