-- ===== src/Repository/AipStatus.antt =====
-- The statuses of the copies, and what waits for its next attempt.
use mathlib.Core.List.{Memᴰ}
use repo_backend_v.Base.{
  ℕ, String, Bool, true, false, not, ◌&&◌, ◌≡◌, refl, inl, inr, Option, none, some, List, [], ◌∷◌,
  map, arith, ◌==◌, nat_eq, string_eq, contains, filter, get_or, All, Bool-cases, eq_iff, any, sym,
  ◌∙◌, All-mem,
}
use repo_backend_v.Base.Table.{update_where, count_where}
use repo_backend_v.Repository.AipStore.{
  Aip, DisplayStatus, copied, failed, orphan, in_progress, derive_display_status,
  is_terminal_success, is_failure, is_orphan, passes, has_id, cleared, waits, named_in,
  list_uuids_in_backoff, reset_for_retry, update, get,
}

abbrev pub same_status : DisplayStatus → DisplayStatus → Bool
same_status copied copied = true
same_status failed failed = true
same_status orphan orphan = true
same_status in_progress in_progress = true
same_status _ _ = false

-- A row passes the filter of one status, the one it is shown with.
pub passes-derive_display_status :
    (s : DisplayStatus) (r : Aip) → passes s r ≡ same_status s (derive_display_status r)
unfolding passes derive_display_status is_terminal_success is_failure is_orphan contains
passes-derive_display_status copied r = ground arith
passes-derive_display_status failed r = ground arith
passes-derive_display_status orphan r = ground arith
passes-derive_display_status in_progress r = ground arith

-- A row of the package waits.
abbrev pub waiting : ℕ → String → Aip → Bool
waiting now u r = get_or r.aip_uuid "" == u && waits now r.next_attempt_at

contains-real :
    (uuids : List String) (u : String)
    → (u == "") ≡ false
    → contains (filter (λ v. not (v == "")) uuids) u ≡ contains uuids u
unfolding contains
contains-real [] u e = refl
contains-real (v ∷ vs) u e =
    ground (arith, contains-real vs u e, e, eq_iff u v, eq_iff u "", eq_iff v "")

named_as :
    (uuids : List String) (o : Option String) (u : String)
    → (u == "") ≡ false
    → (get_or o "" == u) ≡ true
    → named_in uuids o ≡ contains uuids u
named_as uuids none u e k = ground (arith, e, k, eq_iff "" u, eq_iff u "")
named_as uuids (some a) u e k = rw ((eq_iff a u).0 k) refl

backoff_of :
    (now : ℕ) (uuids : List String) (rows : List Aip) (u : String)
    → (u == "") ≡ false
    → contains
        (map
          (λ r. get_or r.aip_uuid "")
          (filter (λ r. named_in uuids r.aip_uuid && waits now r.next_attempt_at) rows))
        u
      ≡ (contains uuids u && any (waiting now u) rows)
unfolding contains
backoff_of now uuids [] u e = ground arith
backoff_of now uuids (r ∷ rs) u e =
    let g = get_or r.aip_uuid "" in
    let ih = backoff_of now uuids rs u e in
    unfold contains in
    elim (Bool-cases (g == u)) [
      | inl same ↦
          let named = named_as uuids r.aip_uuid u e same in
          let back : (u == g) ≡ true = (eq_iff u g).1 (sym ((eq_iff g u).0 same)) in
          rw (named) (ground (arith, ih, same, back))
      | inr other ↦
          let back : (u == g) ≡ false = ground (arith, eq_iff u g, eq_iff g u) in
          ground (arith, ih, other, back)
    ]

-- Of the packages asked for, those are in backoff of which a row waits for its next attempt.
pub list_uuids_in_backoff-waiting :
    (now : ℕ) (aip_uuids : List String) (rows : List Aip) (u : String)
    → (u == "") ≡ false
    → contains (list_uuids_in_backoff now aip_uuids rows) u
      ≡ (contains aip_uuids u && any (waiting now u) rows)
unfolding list_uuids_in_backoff
list_uuids_in_backoff-waiting now aip_uuids rows u e =
    backoff_of now (filter (λ v. not (v == "")) aip_uuids) rows u e
    ∙ rw (contains-real aip_uuids u e) refl

abbrev Ready : ℕ → ℕ → Aip → Type 0
Ready id now r =
    has_id id r ≡ true
    → (derive_display_status r ≡ in_progress)
      × (waits now r.next_attempt_at ≡ false)
      × (r.attempts ≡ 0)

cleared-status : (r : Aip) → derive_display_status (cleared r) ≡ in_progress
unfolding derive_display_status is_terminal_success is_failure is_orphan
cleared-status r = refl

cleared_rows :
    (id now : ℕ) (rows : List Aip) → All (Ready id now) (update_where (has_id id) cleared rows)
unfolding update_where
cleared_rows id now [] = tt
cleared_rows id now (r ∷ rs) = elim (Bool-cases (has_id id r)) [
  | inl e ↦ simp e ((λ k. (cleared-status r, refl, refl)), cleared_rows id now rs)
  | inr e ↦ simp e ((λ k. cc k), cleared_rows id now rs)
]

-- After a reset for retry the row is in progress, whatever its status was, waits at no time and has spent no
-- attempt.
pub reset_for_retry-Ready :
    (id now : ℕ) (rows rows' : List Aip) (o : Option Aip) (r : Aip)
    → reset_for_retry id rows ≡ some (o, rows')
    → Memᴰ r rows'
    → has_id id r ≡ true
    → (derive_display_status r ≡ in_progress)
      × (waits now r.next_attempt_at ≡ false)
      × (r.attempts ≡ 0)
unfolding reset_for_retry update
reset_for_retry-Ready id now rows rows' o r e member mine =
    elim (Bool-cases (count_where (has_id id) rows == 0)) [
      | inl k ↦ let no : none ≡ some (o, rows') = simp k at e in cc no
      | inr k ↦
          let yes : some (
            get id (update_where (has_id id) cleared rows),
            update_where (has_id id) cleared rows,
          )
              ≡ some (o, rows') =
            simp k at e in
          let at : update_where (has_id id) cleared rows ≡ rows' = cc yes in
          let ready : All (Ready id now) rows' = rw⁻¹ at (cleared_rows id now rows) in
          All-mem (Ready id now) rows' ready member mine
    ]
