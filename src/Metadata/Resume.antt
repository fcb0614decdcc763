-- ===== src/Metadata/Resume.antt =====
-- Where a refresh that follows a cancelled one starts.
use repo_backend_v.Base.{
  ℕ, ◌<◌, ◌≤◌, String, Bool, true, not, ◌&&◌, ◌≡◌, refl, Option, none, some, List, [], ◌∷◌, arith,
  string_eq, contains, find, All, All-imp, Bool-cases, inl, inr, sym, ap, get_or, ◌∙◌,
}
use repo_backend_v.Metadata.Model.{Item, Object}
use repo_backend_v.Metadata.Batches.{
  Batch, refreshable, cursor_before, resume_cursor, resume_from, resume_batch, completed_pids,
  get_last_cancelled_cursor, last_where, is_cancelled,
}

-- Rows in the order of their ids, which are positive.
unfoldable pub Ascending : List Object → Type 0
Ascending [] = Unit
Ascending (o ∷ os) = (1 ≤ o.id) × All (λ q. o.id < q.id) os × Ascending os

-- An object that a refresh must still fetch.
abbrev pub unprocessed : List String → Object → Bool
unprocessed pids o = refreshable o && not (contains pids o.pid)

-- Every object that is left lies past the cursor.
abbrev pub Covers : List String → List Object → ℕ → Type 0
Covers pids objects c = All (λ o. unprocessed pids o ≡ true → c < o.id) objects

find-Covers :
    (stored : ℕ) (pids : List String) (objects : List Object) (found : Option Object)
    → found ≡ find (unprocessed pids) objects
    → Ascending objects
    → Covers pids objects (cursor_before stored found)
unfolding Ascending
find-Covers stored pids [] found e h = tt
find-Covers stored pids (o ∷ os) found e (positive, later, rest) =
    elim (Bool-cases (unprocessed pids o)) [
      | inl open' ↦
          let here : found ≡ some o = e ∙ simp open' refl in
          rw here (
            (λ k. ground (arith, positive)),
            All-imp (λ q. o.id < q.id) _ (λ q l k. ground (arith, l, positive)) os later,
          )
      | inr closed ↦
          let there : found ≡ find (unprocessed pids) os = e ∙ simp closed refl in
          ((λ k. cc (closed, k)), find-Covers stored pids os found there rest)
    ]

from-Covers :
    (items : List Item) (objects : List Object) (u' : String) (cursor : Option ℕ) {u p : String}
    {ps : List String} {c : ℕ}
    → Ascending objects
    → resume_from items objects u' cursor ≡ some (u, c)
    → completed_pids u items ≡ p ∷ ps
    → Covers (p ∷ ps) objects c
from-Covers items objects u' none h e k = cc e
from-Covers items objects u' (some stored) {u} {p} {ps} {c} h e k =
    let pair = ap (λ o. get_or o (u', stored)) e in
    let start : c ≡ resume_cursor stored (completed_pids u' items) objects =
      sym (ap (λ q. q.1) pair) in
    let same : completed_pids u' items ≡ p ∷ ps = rw (ap (λ q. q.0) pair) k in
    let start' : c ≡ resume_cursor stored (p ∷ ps) objects = start ∙ rw same refl in
    rw start' (find-Covers stored (p ∷ ps) objects _ refl h)

batch-Covers :
    (items : List Item) (objects : List Object) (b : Option Batch) {u p : String} {ps : List String}
    {c : ℕ}
    → Ascending objects
    → resume_batch items objects b ≡ some (u, c)
    → completed_pids u items ≡ p ∷ ps
    → Covers (p ∷ ps) objects c
batch-Covers items objects none h e k = cc e
batch-Covers items objects (some b) h e k = from-Covers items objects b.batch_uuid b.cursor_id h e k

-- The cursor that a refresh inherits from the last cancelled one leaves nothing behind: every active
-- object with a URI whose pid the cancelled batch did not finalise lies past it. The objects stand in
-- the order of their positive ids, and the cancelled batch finalised something.
pub get_last_cancelled_cursor-Covers :
    (bs : List Batch) (items : List Item) (objects : List Object) (u p : String) (ps : List String)
    (c : ℕ)
    → Ascending objects
    → get_last_cancelled_cursor bs items objects ≡ some (u, c)
    → completed_pids u items ≡ p ∷ ps
    → Covers (p ∷ ps) objects c
unfolding get_last_cancelled_cursor
get_last_cancelled_cursor-Covers bs items objects u p ps c h e k =
    batch-Covers items objects (last_where (λ b. is_cancelled b.status) bs) h e k
