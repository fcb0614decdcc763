-- ===== src/Ingester/Stages/AipCalls.antt =====
-- Which runs of stage 6 make a copy, from which source, and what a copy that is made or a lost write
-- leaves behind.
use repo_backend_v.Ingester.Stages.AipExits.{exit_state, record_failure-Exits}
use repo_backend_v.Ingester.Stages.Rules.{At, Settled-ok}
use repo_backend_v.Base.{
  ℕ, suc, ◌+◌, ◌<◌, String, Bool, true, false, not, ◌&&◌, ◌||◌, ◌≡◌, refl, inl, inr, Option, none,
  some, List, [], ◌∷◌, arith, ltb, leb, if◌then◌else◌, ◌==◌, string_eq, nat_eq, eq_iff, find,
  get_or, Bool-cases, if-both,
}
use repo_backend_v.Ingester.Queue.Store.{Row, ok}
use repo_backend_v.Ingester.Stages.World.{
  World, S, get_copy, upsert_copy, resolve_repo_pid, Object, attempt, continue, first_fault,
  later_faults, pid_of,
}
use repo_backend_v.Ingester.Stages.AipStore.{
  Config, Source, Answer, replied, Reply, Outcome, failed, skipped, backoff, complete,
  record_failure, decide_failure, retry_or_fail, recorded_text, is_am_deleted_error,
  is_am_not_found_error, budget, failure_message, is_flagged, is_2xx, conclude, success_patch,
  with_existing, run, is_unset, close, with_pid,
}
use repo_backend_v.Ingester.Stages.AipAttempts.{calm, Leaves, leave-copies, leave-ok, get-upsert}
use repo_backend_v.Ingester.Stages.AipBudget.{prior, record_failure-Retried}
use repo_backend_v.Repository.AipStore.{
  Aip, get_by_uuid, is_terminal_success, is_orphan, waits, blank, Upserted, upsert_by_uuid,
}

flag_of :
    (dc nf : Bool) (c : Aip)
    → c.message ≡ some (failure_message dc true nf)
    → is_flagged (some c) ≡ dc
unfolding failure_message
flag_of true nf c e = rw e (ground (arith, eq_iff "RETRY_FROM_DURACLOUD" "RETRY_FROM_DURACLOUD"))
flag_of false true c e = rw e (ground (arith, eq_iff "AM_NOT_FOUND_RETRY" "RETRY_FROM_DURACLOUD"))
flag_of false false c e = rw e (ground (arith, eq_iff "COPY_FAILED" "RETRY_FROM_DURACLOUD"))

module _ (cfg : Config) (row : Row) (pid : String) (use_duracloud : Bool) where
  -- While a package is tried again, the next attempt copies from the source of this one.
  pub record_failure-source :
      (error_text : String) (w : World)
      → is_am_deleted_error (recorded_text error_text) ≡ false
      → prior cfg row pid use_duracloud w + 1
        < budget cfg (is_am_not_found_error (recorded_text error_text))
      → is_flagged
          (get_by_uuid pid (record_failure cfg row pid error_text use_duracloud (calm w)).1.copies)
        ≡ use_duracloud
  record_failure-source error_text w alive below =
      let r = record_failure-Retried cfg row pid use_duracloud error_text w alive below in
      rw r.1.1.1 (
        flag_of use_duracloud (is_am_not_found_error (recorded_text error_text)) r.1.1.0
          r.1.1.2.source)

  -- The world where the next statement succeeds and the one after it fails.
  abbrev pub losing : String → List (Option String) → World → World
  losing message later w = record w {
    faults = none ∷ some message ∷ later;
    queue = record w.queue { faults = [] };
  }

  lost :
      (not_found retrying : Bool) (text : String) (attempts : ℕ) (message : String)
      (later : List (Option String)) (w : World)
      → ltb attempts (budget cfg not_found) ≡ retrying
      → let x =
          retry_or_fail cfg row pid text use_duracloud not_found attempts
            (record w { faults = some message ∷ later; queue = record w.queue { faults = [] } }) in
        (x.0 ≡ ok (failed attempts (if retrying then "AIP_STORE_PENDING" else "AIP_STORE_FAILED")))
        × (x.1.copies ≡ w.copies)
  unfolding retry_or_fail upsert_copy
  lost not_found retrying text attempts message later w e =
      rw e (leave-ok row _ _ _ _ refl, leave-copies row _ _ _ _)

  lost_write :
      (error_text message : String) (later : List (Option String)) (w : World)
      → is_am_deleted_error (recorded_text error_text) ≡ false
      → prior cfg row pid use_duracloud w + 1
        < budget cfg (is_am_not_found_error (recorded_text error_text))
      → let x = record_failure cfg row pid error_text use_duracloud (losing message later w) in
        (x.0 ≡ ok (failed (prior cfg row pid use_duracloud w + 1) "AIP_STORE_PENDING"))
        × (x.1.copies ≡ w.copies)
  unfolding record_failure get_copy decide_failure
  lost_write error_text message later w alive below =
      let nf : Bool = is_am_not_found_error (recorded_text error_text) in
      let n : ℕ = prior cfg row pid use_duracloud w + 1 in
      rw alive (
        if-both {A = S Outcome}
          (λ m.
            let x = m (record w {
              faults = some message ∷ later;
              queue = record w.queue { faults = [] };
            }) in
            (x.0 ≡ ok (failed n "AIP_STORE_PENDING")) × (x.1.copies ≡ w.copies))
          (nf && leb (budget cfg nf) n) (λ both. ground arith)
          (λ _. lost nf true (recorded_text error_text) n message later w (ground arith)))

  -- Where the read of tbl_aip_store and the writes to the queue succeed and the write to tbl_aip_store
  -- fails, a failure that is not of a deleted package and that stays under its budget puts the row back
  -- to AIP_STORE_PENDING in the queue and leaves the table as it was: neither the attempt nor a backoff
  -- is on record.
  pub record_failure-lost :
      (error_text message : String) (later : List (Option String)) (w : World)
      → is_am_deleted_error (recorded_text error_text) ≡ false
      → prior cfg row pid use_duracloud w + 1
        < budget cfg (is_am_not_found_error (recorded_text error_text))
      → let x = record_failure cfg row pid error_text use_duracloud (losing message later w) in
        (x.0 ≡ ok (failed (prior cfg row pid use_duracloud w + 1) "AIP_STORE_PENDING"))
        × At row.id "AIP_STORE_PENDING" x.1
        × (x.1.copies ≡ w.copies)
  record_failure-lost error_text message later w alive below =
      let left = lost_write error_text message later w alive below in
      let n : ℕ = prior cfg row pid use_duracloud w + 1 in
      let losing_w : World = losing message later w in
      (
        left.0,
        Settled-ok row.id exit_state (record_failure cfg row pid error_text use_duracloud losing_w)
            (failed n "AIP_STORE_PENDING") "AIP_STORE_PENDING" left.0 refl
            (record_failure-Exits row cfg pid error_text use_duracloud losing_w),
        left.1,
      )

module _ (cfg : Config) (http_text : Bool → ℕ → String) (base_name : String → String)
    (row : Row) where
  abbrev Copy : Type 0
  Copy = Source → String → String → World → Answer × World

  pub record Copied (c : Aip) : Type 0 where
    pub success : is_terminal_success c ≡ true
    pub attempts : c.attempts ≡ 0
    pub never : c.next_attempt_at ≡ none
    pub error : c.error ≡ none

  success_terminal :
      (use_duracloud : Bool) (r : Reply) (q : Aip)
      → is_terminal_success (success_patch row use_duracloud r base_name q) ≡ true
  unfolding is_terminal_success
  success_terminal use_duracloud r q = refl

  -- Where no statement fails, a good reply leaves the package's copy on record as made: a success
  -- with no attempts, no next attempt and no error.
  pub conclude-Copied :
      (copy : Copy) (pid : String) (use_duracloud : Bool) (r : Reply) (w : World)
      → is_2xx r.status ≡ true
      → r.is_ok ≡ true
      → (k : ℕ) × Leaves pid
          (complete k)
          Copied
          (conclude cfg http_text base_name copy row pid use_duracloud (replied r) (calm w))
  unfolding conclude upsert_copy
  conclude-Copied copy pid use_duracloud r w good is_ok =
      let patch : Aip → Aip = success_patch row use_duracloud r base_name in
      let u : Upserted = upsert_by_uuid w.next_copy pid patch w.copies in
      let v : World = record (calm w) {
        copies = u.rows;
        next_copy = if u.created then suc w.next_copy else w.next_copy;
      } in
      if-both {A = S Outcome} (λ m. (k : ℕ) × Leaves pid (complete k) Copied (m (calm w)))
        (not (is_2xx r.status) || not r.is_ok) (λ bad. ground arith)
        (λ _. (
          u.id,
          (
            leave-ok row (close "AIP_STORE_COMPLETE") "complete" (complete u.id) v refl,
            (
              patch (get_or (get_by_uuid pid w.copies) (blank w.next_copy pid)),
              rw (leave-copies row (close "AIP_STORE_COMPLETE") "complete" (complete u.id) v)
                  (get-upsert w.next_copy pid patch (λ q. refl) w.copies),
              record {
                success =
                    success_terminal use_duracloud r
                      (get_or (get_by_uuid pid w.copies) (blank w.next_copy pid));
                attempts = refl;
                never = refl;
                error = refl;
              },
            ),
          ),
        ))

  -- A copy on record that the stage does not touch: made, an orphan, or to be tried later.
  abbrev pub is_held : World → Aip → Bool
  is_held w r = is_terminal_success r || (is_orphan r || waits w.queue.now r.next_attempt_at)

  held_alike :
      (copy copy' : Copy) (pid : String) (r : Aip) (w : World)
      → is_held w r ≡ true
      → with_existing cfg http_text base_name copy row pid (some r) w
        ≡ with_existing cfg http_text base_name copy' row pid (some r) w
  unfolding with_existing
  held_alike copy copy' pid r w h = elim (Bool-cases (is_terminal_success r)) [
    | inl a ↦ rw a refl
    | inr a ↦ elim (Bool-cases (is_orphan r)) [
      | inl b ↦ rw (a, b) refl
      | inr b ↦
          let c : waits w.queue.now r.next_attempt_at ≡ true = ground arith in rw (a, b, c) refl
    ]
  ]

  alike :
      (b : Bool) (m k k' : S Outcome) (w : World)
      → k w ≡ k' w
      → (if b then m else k) w ≡ (if b then m else k') w
  alike true m k k' w e = refl
  alike false m k k' w e = e

  -- A read that may fail, and what follows it.
  read_alike :
      {A : Type 0} (g : World → A) (k k' : A → S Outcome) (f : Option String) (w : World)
      → k (g w) w ≡ k' (g w) w
      → continue k (attempt f (λ v. (ok (g v), v)) w)
        ≡ continue k' (attempt f (λ v. (ok (g v), v)) w)
  read_alike g k k' none w e = e
  read_alike g k k' (some message) w e = refl

  -- Where the package's copy is made, is an orphan, or waits for its next attempt, a run does not
  -- depend on what the curation service would answer: it is not asked, whichever statements fail.
  pub run-held :
      (copy copy' : Copy) (o : Object) (r : Aip) (w : World)
      → find (λ q. q.sip_uuid == get_or row.sip_uuid "") w.objects ≡ some o
      → get_by_uuid o.pid w.copies ≡ some r
      → is_held w r ≡ true
      → run cfg http_text base_name copy row w ≡ run cfg http_text base_name copy' row w
  unfolding run resolve_repo_pid get_copy
  run-held copy copy' o r w found stored h =
      let v : World = record w { faults = later_faults w.faults } in
      let u : World = record v { faults = later_faults v.faults } in
      let read : World → Option Aip = λ q. get_by_uuid o.pid q.copies in
      let stored_held : with_existing cfg http_text base_name copy row o.pid (read u) u
          ≡ with_existing cfg http_text base_name copy' row o.pid (read u) u =
        rw stored (held_alike copy copy' o.pid r u h) in
      let pid_read : World → Option String =
        λ q. pid_of (find (λ x. x.sip_uuid == get_or row.sip_uuid "") q.objects) in
      let with_found : with_pid cfg http_text base_name copy row (pid_read v) v
          ≡ with_pid cfg http_text base_name copy' row (pid_read v) v =
        rw found (
          alike (o.pid == "") _ _ _ v (
            read_alike read (with_existing cfg http_text base_name copy row o.pid)
              (with_existing cfg http_text base_name copy' row o.pid) (first_fault v.faults) u
              stored_held)) in
      alike (not cfg.enabled) _ _ _ w (
        alike (not cfg.client_configured) _ _ _ w (
          alike (is_unset row.sip_uuid) _ _ _ w (
            read_alike pid_read (with_pid cfg http_text base_name copy row)
              (with_pid cfg http_text base_name copy' row) (first_fault w.faults) v with_found)))

  -- A run before the time of the next attempt returns and writes nothing.
  pub run-backoff :
      (copy : Copy) (sip : String) (o : Object) (r : Aip) (w : World)
      → cfg.enabled ≡ true
      → cfg.client_configured ≡ true
      → row.sip_uuid ≡ some sip
      → is_unset row.sip_uuid ≡ false
      → find (λ q. q.sip_uuid == sip) w.objects ≡ some o
      → (o.pid == "") ≡ false
      → get_by_uuid o.pid w.copies ≡ some r
      → is_terminal_success r || is_orphan r ≡ false
      → waits w.queue.now r.next_attempt_at ≡ true
      → run cfg http_text base_name copy row (calm w) ≡ (ok (skipped backoff), calm w)
  unfolding run resolve_repo_pid get_copy with_existing
  run-backoff copy sip o r w on set_up has set found named stored unsettled waiting =
      let a : is_terminal_success r ≡ false = ground arith in
      let b : is_orphan r ≡ false = ground arith in
      let found' : find (λ q. q.sip_uuid == get_or row.sip_uuid "") w.objects ≡ some o =
        rw has found in
      simp (on, set_up, set, found', named, stored, a, b, waiting) refl
