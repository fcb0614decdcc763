-- ===== src/Metadata/Claims.antt =====
-- The order in which the refresh worker claims rows.
use repo_backend_v.Base.{
  ℕ, zero, suc, ◌≤◌, Bool, true, false, ◌≡◌, refl, ◌⊎◌, inl, inr, List, [], ◌∷◌, arith, nat_eq,
  length, take, filter, All, All-imp, All-take, All-filter_self, length-take-le, Bool-cases,
  All-mem,
}
use mathlib.Core.List.{Memᴰ}
use repo_backend_v.Metadata.Model.{Item, claimable, precedes, insert_by, order_by, candidates}

abbrev pub NotBefore : Item → Item → Type 0
NotBefore r q = precedes q r ≡ false

-- No row comes before an earlier one.
abbrev Ordered : List Item → Type 0
Ordered [] = Unit
Ordered (r ∷ rs) = All (NotBefore r) rs × Ordered rs

module _ {κ} (P : Item → Type κ) where
  All-insert_by : (r : Item) (rs : List Item) → P r → All P rs → All P (insert_by r rs)
  unfolding insert_by
  All-insert_by r [] p h = (p, tt)
  All-insert_by r (q ∷ qs) p (k, h) = elim (Bool-cases (precedes q r)) [
    | inl e ↦ simp e (k, All-insert_by r qs p h)
    | inr e ↦ simp e (p, (k, h))
  ]

  All-order_by : (rs : List Item) → All P rs → All P (order_by rs)
  unfolding order_by
  All-order_by [] h = tt
  All-order_by (r ∷ rs) (p, h) = All-insert_by r (order_by rs) p (All-order_by rs h)

insert_by-Ordered : (r : Item) (rs : List Item) → Ordered rs → Ordered (insert_by r rs)
unfolding insert_by
insert_by-Ordered r [] h = (tt, tt)
insert_by-Ordered r (q ∷ qs) (first, h) = elim (Bool-cases (precedes q r)) [
  | inl e ↦
      simp e (All-insert_by (NotBefore q) r qs (ground (arith, e)) first, insert_by-Ordered r qs h)
  | inr e ↦ simp e (
    (refl, All-imp (NotBefore q) (NotBefore r) (λ x n. ground (arith, n, e)) qs first),
    (first, h),
  )
]

order_by-Ordered : (rs : List Item) → Ordered (order_by rs)
unfolding order_by
order_by-Ordered [] = tt
order_by-Ordered (r ∷ rs) = insert_by-Ordered r (order_by rs) (order_by-Ordered rs)

mem-insert_by-new : (r : Item) (rs : List Item) → Memᴰ r (insert_by r rs)
unfolding insert_by
mem-insert_by-new r [] = Memᴰ.head refl
mem-insert_by-new r (q ∷ qs) = elim (Bool-cases (precedes q r)) [
  | inl e ↦ simp e (Memᴰ.tail (mem-insert_by-new r qs))
  | inr e ↦ simp e (Memᴰ.head refl)
]

mem-insert_by-old : (r x : Item) (rs : List Item) → Memᴰ x rs → Memᴰ x (insert_by r rs)
unfolding insert_by
mem-insert_by-old r x [] m = elim m [ ]
mem-insert_by-old r x (q ∷ qs) (Memᴰ.head e) = elim (Bool-cases (precedes q r)) [
  | inl b ↦ simp b (Memᴰ.head e)
  | inr b ↦ simp b (Memᴰ.tail (Memᴰ.head e))
]
mem-insert_by-old r x (q ∷ qs) (Memᴰ.tail m) = elim (Bool-cases (precedes q r)) [
  | inl b ↦ simp b (Memᴰ.tail (mem-insert_by-old r x qs m))
  | inr b ↦ simp b (Memᴰ.tail (Memᴰ.tail m))
]

-- Every row is among the ordered ones.
mem-order_by : (rs : List Item) → All (λ x. Memᴰ x (order_by rs)) rs
unfolding order_by
mem-order_by [] = tt
mem-order_by (r ∷ rs) = (
  mem-insert_by-new r (order_by rs),
  All-imp (λ x. Memᴰ x (order_by rs)) _ (λ x m. mem-insert_by-old r x (order_by rs) m) rs
      (mem-order_by rs),
)

-- Taken, or behind everything that is taken.
abbrev Placed : List Item → Item → Type 0
Placed taken q = Memᴰ q taken ⊎ All (λ c. precedes q c ≡ false) taken

take-Placed : (n : ℕ) (rs : List Item) (q : Item) → Ordered rs → Memᴰ q rs → Placed (take n rs) q
take-Placed zero rs q h m = inr tt
take-Placed (suc n) [] q h m = elim m [ ]
take-Placed (suc n) (r ∷ rs) q (first, h) (Memᴰ.head e) = inl (Memᴰ.head e)
take-Placed (suc n) (r ∷ rs) q (first, h) (Memᴰ.tail m) = elim (take-Placed n rs q h m) [
  | inl k ↦ inl (Memᴰ.tail k)
  | inr k ↦ inr (All-mem (NotBefore r) rs first m, k)
]

All_filtered {κ} :
    (p : Item → Bool) (P : Item → Type κ) (rs : List Item)
    → All P (filter p rs)
    → All (λ x. p x ≡ true → P x) rs
All_filtered p P [] h = tt
All_filtered p P (r ∷ rs) h = elim (Bool-cases (p r)) [
  | inl e ↦ let k : All P (r ∷ filter p rs) = simp e at h in ((λ _. k.0), All_filtered p P rs k.1)
  | inr e ↦ let k : All P (filter p rs) = simp e at h in ((λ t. cc (e, t)), All_filtered p P rs k)
]

-- What a claim takes, at most as many rows as its limit: each waits and is due. A row of the table that
-- waits and is due is taken, or it comes before none of the rows taken in the order of priority and id.
pub candidates-First :
    (now limit : ℕ) (items : List Item) (q : Item)
    → Memᴰ q items
    → claimable now q ≡ true
    → (length (candidates now limit items) ≤ limit)
      × All (λ c. claimable now c ≡ true) (candidates now limit items)
      × (Memᴰ q (candidates now limit items)
          ⊎ All (λ c. precedes q c ≡ false) (candidates now limit items))
unfolding candidates
candidates-First now limit items q member waits =
    let due = filter (claimable now) items in
    let ordered = order_by due in
    (
      length-take-le limit ordered,
      All-take (λ c. claimable now c ≡ true) limit ordered
          (All-order_by (λ c. claimable now c ≡ true) due (All-filter_self (claimable now) items)),
      All-mem (λ x. claimable now x ≡ true → Placed (take limit ordered) x) items
          (All_filtered (claimable now) (Placed (take limit ordered)) items (
            All-imp (λ x. Memᴰ x ordered) (Placed (take limit ordered))
              (λ x m. take-Placed limit ordered x (order_by-Ordered due) m) due (mem-order_by due)))
          member waits,
    )
