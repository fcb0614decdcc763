-- ===== src/Indexer/Failures.antt =====
-- The bounded retry of rows that the index rejects one by one.
use repo_backend_v.Base.{
  ℕ, ◌+◌, max, String, Bool, true, false, not, ◌&&◌, ◌≡◌, refl, sym, ◌∙◌, List, [], ◌∷◌, map, arith,
  leb, if◌then◌else◌, ◌==◌, nat_eq, string_eq, contains, filter, All, All-imp, Bool-cases, inl, inr,
  eq_iff,
}
use repo_backend_v.Base.Table.{update_where}
use repo_backend_v.Indexer.Model.{
  Object, dirtied, has_pid, Failure, error_of, failed_again, parked, park_each, record_failures,
}
use repo_backend_v.Base.Keys.{Distinct-update_where, Distinct, contains-filter}
use repo_backend_v.Indexer.Claimed.{filter-filter}

unfoldable pub attempts_allowed : ℕ → ℕ
attempts_allowed max_attempts = max 1 (if max_attempts == 0 then 5 else max_attempts)

-- One failure of one row: another attempt, or the dead letter with the row's own error.
abbrev pub failed_once : ℕ → List Failure → Object → Object
failed_once cap failures r =
    if leb cap (r.index_attempts + 1)
    then parked (error_of r.pid failures) (failed_again r)
    else dirtied (failed_again r)

abbrev pub named_in : List Failure → Object → Bool
named_in failures = has_pid (map (λ f. f.pid) failures)

park : List Failure → Object → Object
park failures r = parked (error_of r.pid failures) r

park_each-row :
    (failures : List Failure) (pids : List String) (r : Object) (rs : List Object)
    → park_each failures pids (r ∷ rs)
      ≡ (if contains pids r.pid then park failures r else r) ∷ park_each failures pids rs
unfolding park_each contains park update_where
park_each-row failures [] r rs = refl
park_each-row failures (pid ∷ pids) r rs =
    let rest = update_where (λ q. q.pid == pid) (parked (error_of pid failures)) rs in
    let here = parked (error_of pid failures) r in
    elim (Bool-cases (r.pid == pid)) [
      | inl e ↦
          let same : pid ≡ r.pid = sym ((eq_iff r.pid pid).0 e) in
          elim (Bool-cases (contains pids r.pid)) [
            | inl m ↦ rw (e, park_each-row failures pids here rest, m) refl
            | inr m ↦
                rw (e, park_each-row failures pids here rest, m)
                  (λ i. parked (error_of (same i) failures) r ∷ park_each failures pids rest)
          ]
      | inr e ↦ rw (e, park_each-row failures pids r rest) refl
    ]

park_each-rows :
    (failures : List Failure) (pids : List String) (rows : List Object)
    → park_each failures pids rows ≡ update_where (has_pid pids) (park failures) rows
unfolding update_where park_each
park_each-rows failures [] [] = refl
park_each-rows failures (pid ∷ pids) [] =
    unfold park_each update_where in park_each-rows failures pids []
park_each-rows failures pids (r ∷ rs) = park_each-row failures pids r rs ∙ (λ i.
    (if contains pids r.pid then park failures r else r) ∷ park_each-rows failures pids rs i)

All_before :
    (P : Object → Type 0) (p : Object → Bool) (f : Object → Object) (rows : List Object)
    → All P (update_where p f rows)
    → All (λ r. P (if p r then f r else r)) rows
unfolding update_where
All_before P p f [] h = tt
All_before P p f (r ∷ rs) (here, h) = (here, All_before P p f rs h)

one_pass :
    (cap : ℕ) (failures : List Failure) (again dead : List String) (rows : List Object)
    → All
        (λ r. contains again r.pid ≡ (named_in failures r && not (leb cap (r.index_attempts + 1))))
        rows
    → All (λ r. contains dead r.pid ≡ (named_in failures r && leb cap (r.index_attempts + 1))) rows
    → update_where
        (has_pid dead)
        (park failures)
        (update_where (has_pid again) dirtied (update_where (named_in failures) failed_again rows))
      ≡ update_where (named_in failures) (failed_once cap failures) rows
unfolding update_where park
one_pass cap failures again dead [] h k = refl
one_pass cap failures again dead (r ∷ rs) (e, h) (f, k) = elim (Bool-cases (named_in failures r)) [
  | inl c ↦ elim (Bool-cases (leb cap (r.index_attempts + 1))) [
    | inl d ↦
        let e' : contains again r.pid ≡ false = ground arith in
        let f' : contains dead r.pid ≡ true = ground arith in
        rw (c, e', f', d, one_pass cap failures again dead rs h k) refl
    | inr d ↦
        let e' : contains again r.pid ≡ true = ground arith in
        let f' : contains dead r.pid ≡ false = ground arith in
        rw (c, e', f', d, one_pass cap failures again dead rs h k) refl
  ]
  | inr c ↦
      let e' : contains again r.pid ≡ false = ground arith in
      let f' : contains dead r.pid ≡ false = ground arith in
      rw (c, e', f', one_pass cap failures again dead rs h k) refl
]

module _ (failures : List Failure) (rows : List Object) (keyed : Distinct (λ r. r.pid) rows) where
  abbrev counted : List Object
  counted = update_where (named_in failures) failed_again rows

  -- The pids of the failed rows that pass a test on their new count.
  picked_pids :
      (q : ℕ → Bool)
      → All
          (λ r.
            contains
              (map
                (λ c. c.pid)
                (filter (λ c. q c.index_attempts) (filter (named_in failures) counted)))
              r.pid
            ≡ (named_in failures r && q (r.index_attempts + 1)))
          rows
  picked_pids q =
      let chosen : Object → Bool = λ c. named_in failures c && q c.index_attempts in
      rw (filter-filter (named_in failures) (λ c. q c.index_attempts) counted) (
        All-imp
          (λ r.
            let c = if named_in failures r then failed_again r else r in
            contains (map (λ x. x.pid) (filter chosen counted)) c.pid ≡ chosen c)
          _
          (λ r e. elim (Bool-cases (named_in failures r)) [
            | inl n ↦ rw n (rw n at (rw n at e))
            | inr n ↦ rw n (rw n at (rw n at e))
          ])
          rows
          (All_before (λ c. contains (map (λ x. x.pid) (filter chosen counted)) c.pid ≡ chosen c)
            (named_in failures) failed_again rows
            (contains-filter (λ c. c.pid) chosen counted
              (Distinct-update_where (λ c. c.pid) (named_in failures) failed_again (λ r. refl) rows
                keyed))))

  -- One report of failures is one update of the table: a failed row counts one more attempt and is
  -- dirty again, or, once it has used its attempts, is parked clean with its error; every other row is
  -- as it was. Pids are unique.
  pub record_failures-rows :
      (max_attempts : ℕ)
      → (record_failures max_attempts failures rows).rows
        ≡ update_where
            (named_in failures)
            (failed_once (attempts_allowed max_attempts) failures)
            rows
  unfolding record_failures attempts_allowed
  record_failures-rows max_attempts =
      let cap = attempts_allowed max_attempts in
      park_each-rows failures _ _
      ∙ one_pass cap failures _ _ rows (picked_pids (λ n. not (leb cap n))) (picked_pids (leb cap))
