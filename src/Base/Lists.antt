-- ===== src/Base/Lists.antt =====
-- Lists under Boolean tests, measured by native numbers.
use Prim.Native.Nat.{ℕ, zero, suc, ◌+◌, ◌≤◌}
use mathlib.Core.Path.{◌≡◌, refl}
use mathlib.Core.Logic.{inl, inr}
use mathlib.Core.Bool.{Bool, true, false, ◌&&◌, ◌||◌}
use mathlib.Core.Option.{Option, none, some}
use mathlib.Core.List.{List, [], ◌∷◌, ◌++◌, Memᴰ, reverse_aux, reverse}
use native.Mathlib.Omega.{arith}
use repo_backend_v.Base.Tests.{if◌then◌else◌, StrictEq, ◌==◌, Bool-cases}

module _ {ℓ} {A : Type ℓ} where
  abbrev pub length : List A → ℕ
  length [] = 0
  length (x ∷ xs) = suc (length xs)

  abbrev pub take : ℕ → List A → List A
  take zero xs = []
  take (suc n) [] = []
  take (suc n) (x ∷ xs) = x ∷ take n xs

  abbrev pub filter : (A → Bool) → List A → List A
  filter p [] = []
  filter p (x ∷ xs) = let rest = filter p xs in if p x then x ∷ rest else rest

  abbrev pub find : (A → Bool) → List A → Option A
  find p [] = none
  find p (x ∷ xs) = let rest = find p xs in if p x then some x else rest

  abbrev pub all : (A → Bool) → List A → Bool
  all p [] = true
  all p (x ∷ xs) = p x && all p xs

  abbrev pub any : (A → Bool) → List A → Bool
  any p [] = false
  any p (x ∷ xs) = p x || any p xs

  abbrev pub All {κ} : (A → Type κ) → List A → Type κ
  All P [] = Unit
  All P (x ∷ xs) = P x × All P xs

  pub length-append : (xs ys : List A) → length (xs ++ ys) ≡ length xs + length ys
  length-append [] ys = omega arith
  length-append (x ∷ xs) ys = omega (arith, length-append xs ys)

  pub length-take-le : (n : ℕ) (xs : List A) → length (take n xs) ≤ n
  length-take-le zero xs = omega arith
  length-take-le (suc n) [] = omega arith
  length-take-le (suc n) (x ∷ xs) = omega (arith, length-take-le n xs)

  pub length-filter-le : (p : A → Bool) (xs : List A) → length (filter p xs) ≤ length xs
  length-filter-le p [] = omega arith
  length-filter-le p (x ∷ xs) = ground (arith, length-filter-le p xs)

  module _ {κ} (P : A → Type κ) where
    pub All-append : (xs ys : List A) → All P xs → All P ys → All P (xs ++ ys)
    All-append [] ys h k = k
    All-append (x ∷ xs) ys (p, h) k = (p, All-append xs ys h k)

    pub All-take : (n : ℕ) (xs : List A) → All P xs → All P (take n xs)
    All-take zero xs h = tt
    All-take (suc n) [] h = tt
    All-take (suc n) (x ∷ xs) (p, h) = (p, All-take n xs h)

    pub All-filter : (p : A → Bool) (xs : List A) → All P xs → All P (filter p xs)
    All-filter p [] h = tt
    All-filter p (x ∷ xs) (q, h) = elim (Bool-cases (p x)) [
      | inl e ↦ simp e (q, All-filter p xs h)
      | inr e ↦ simp e (All-filter p xs h)
    ]

    pub All-of : ((a : A) → P a) → (xs : List A) → All P xs
    All-of h [] = tt
    All-of h (x ∷ xs) = (h x, All-of h xs)

    pub All-mem : (xs : List A) {a : A} → All P xs → Memᴰ a xs → P a
    All-mem [] h m = elim m [ ]
    All-mem (x ∷ xs) (p, h) (Memᴰ.head e) = rw e p
    All-mem (x ∷ xs) (p, h) (Memᴰ.tail m) = All-mem xs h m

  pub All-imp {κ κ'} :
      (P : A → Type κ) (Q : A → Type κ')
      → ((a : A) → P a → Q a)
      → (xs : List A) → All P xs
      → All Q xs
  All-imp P Q h [] p = tt
  All-imp P Q h (x ∷ xs) (p, ps) = (h x p, All-imp P Q h xs ps)

  pub All-zip {κ κ' κ''} :
      (P : A → Type κ) (Q : A → Type κ') (S : A → Type κ'')
      → ((a : A) → P a → Q a → S a)
      → (xs : List A) → All P xs
      → All Q xs
      → All S xs
  All-zip P Q S h [] p q = tt
  All-zip P Q S h (x ∷ xs) (p, ps) (q, qs) = (h x p q, All-zip P Q S h xs ps qs)

  -- What a filter keeps passes its test.
  pub All-filter_self : (p : A → Bool) (xs : List A) → All (λ x. p x ≡ true) (filter p xs)
  All-filter_self p [] = tt
  All-filter_self p (x ∷ xs) = elim (Bool-cases (p x)) [
    | inl e ↦ simp e (refl, All-filter_self p xs)
    | inr e ↦ simp e (All-filter_self p xs)
  ]

  pub find_passes : (p : A → Bool) (xs : List A) {a : A} → find p xs ≡ some a → p a ≡ true
  find_passes p [] h = cc
  find_passes p (x ∷ xs) {a} h = ground (arith, find_passes p xs {a = a})

module _ {ℓ} {A : Type ℓ} ⦃e : StrictEq A⦄ where
  -- `set.has(a)` and `list.includes(a)`.
  unfoldable pub contains : List A → A → Bool
  contains [] a = false
  contains (x ∷ xs) a = a == x || contains xs a

  pub contains_self : (a : A) (xs : List A) → contains (a ∷ xs) a ≡ true
  unfolding contains
  contains_self a xs = rw ((e.identical_iff a a).1 refl)

-- A test that passes on every member of a list passes on what the list contains.
pub contains-all {ℓ} :
    {A : Type ℓ} ⦃e : StrictEq A⦄ (p : A → Bool) (xs : List A) (a : A)
    → all p xs ≡ true
    → contains xs a ≡ true
    → p a ≡ true
unfolding contains
contains-all p [] a h m = cc
contains-all ⦃e⦄ p (x ∷ xs) a h m = elim (Bool-cases (e.identical a x)) [
  | inl same ↦ ground (arith, e.identical_iff a x)
  | inr other ↦ contains-all ⦃e = e⦄ p xs a (ground arith) (ground arith)
]

pub contains-append {ℓ} :
    {A : Type ℓ} ⦃e : StrictEq A⦄ (xs ys : List A) (a : A)
    → contains (xs ++ ys) a ≡ (contains xs a || contains ys a)
unfolding contains
contains-append [] ys a = refl
contains-append (x ∷ xs) ys a = ground (arith, contains-append xs ys a)

All-reverse_aux {ℓ κ} :
    {A : Type ℓ} (P : A → Type κ) (xs ys : List A) → All P xs → All P ys → All P (reverse_aux xs ys)
All-reverse_aux P [] ys h k = k
All-reverse_aux P (x ∷ xs) ys (p, h) k = All-reverse_aux P xs (x ∷ ys) h (p, k)

pub All-reverse {ℓ κ} : {A : Type ℓ} (P : A → Type κ) (xs : List A) → All P xs → All P (reverse xs)
All-reverse P xs h = All-reverse_aux P xs [] h tt

pub filter_none {ℓ} :
    {A : Type ℓ} (p : A → Bool) (xs : List A) → All (λ x. p x ≡ false) xs → filter p xs ≡ []
filter_none p [] h = refl
filter_none p (x ∷ xs) (e, h) = ground (arith, filter_none p xs h)
