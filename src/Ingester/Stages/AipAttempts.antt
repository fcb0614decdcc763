-- ===== src/Ingester/Stages/AipAttempts.antt =====
-- What a failed copy leaves in tbl_aip_store, and how the attempts it counts bound the retries.
use repo_backend_v.Base.{
  ℕ, suc, ◌+◌, ◌≤◌, ◌<◌, String, Bool, true, false, ◌&&◌, ◌||◌, ◌≡◌, refl, ◌∙◌, inl, inr, Option,
  none, some, List, [], ◌∷◌, ◌++◌, arith, ltb, leb, if◌then◌else◌, ◌==◌, string_eq, nat_eq, eq_iff,
  find, get_or, Bool-cases, if-both, ◌⊎◌,
}
use repo_backend_v.Base.Table.{update_where}
use repo_backend_v.Ingester.Queue.Store.{Row, Db, Result, ok, err}
use repo_backend_v.Ingester.Queue.Update.{Patch, Updated, update_queue, write_found}
use repo_backend_v.Ingester.Queue.Select.{by_id}
use repo_backend_v.Ingester.Queue.Retry.{update_queue-calm}
use repo_backend_v.Ingester.Stages.World.{World, S, ◌>>=◌, continue, place, pure, upsert_copy}
use repo_backend_v.Ingester.Stages.AipStore.{
  Config, Outcome, failed, leave, decide_failure, retry_or_fail, dead_letter, upsert_logged,
  by_worker, is_am_deleted_error, is_am_not_found_error, budget, prior_attempts, failure_patch,
  close_with, failure_message, backoff_ms,
}
use repo_backend_v.Repository.AipStore.{
  Aip, has_id, blank, get_by_uuid, Upserted, upsert_found, upsert_by_uuid, is_orphan,
  am_not_found_code, ingest_copy_failed_code,
}

module _ {A : Type 0} (p : A → Bool) where
  find-snoc : (x : A) (xs : List A) → find p xs ≡ none → p x ≡ true → find p (xs ++ x ∷ []) ≡ some x
  find-snoc x [] none_yet mine = ground arith
  find-snoc x (y ∷ ys) none_yet mine = elim (Bool-cases (p y)) [
    | inl e ↦ let bad : some y ≡ none = rw e at none_yet in cc
    | inr e ↦ rw e (find-snoc x ys (rw e at none_yet) mine)
  ]

  find-update_where :
      (q : A → Bool) (f : A → A)
      → ((a : A) → p (f a) ≡ p a)
      → (xs : List A) (a : A) → find p xs ≡ some a
      → q a ≡ true
      → find p (update_where q f xs) ≡ some (f a)
  unfolding update_where
  find-update_where q f same [] a e mine = cc
  find-update_where q f same (x ∷ xs) a e mine = elim (Bool-cases (p x)) [
    | inl t ↦
        let here : some x ≡ some a = rw t at e in
        let k : q x ≡ true = cc in let s : p (f x) ≡ true = same x ∙ t in rw (k, s) cc
    | inr t ↦
        let rest : find p xs ≡ some a = rw t at e in
        let s : p (if q x then f x else x) ≡ false =
          if-both (λ y. p y ≡ false) (q x) (λ _. same x ∙ t) (λ _. t) in
        rw s (find-update_where q f same xs a rest mine)
  ]

-- The row that an upsert leaves, read back by its uuid.
module _ (next_id : ℕ) (pid : String) (patch : Aip → Aip)
    (same : (r : Aip) → (patch r).uuid ≡ r.uuid) where
  get-upsert_found :
      (rows : List Aip) (found : Option Aip)
      → get_by_uuid pid rows ≡ found
      → get_by_uuid pid (upsert_found found next_id pid patch rows).rows
        ≡ some (patch (get_or found (blank next_id pid)))
  unfolding get_by_uuid
  get-upsert_found rows none e =
      find-snoc (λ r. r.uuid == pid) (patch (blank next_id pid)) rows e
        (rw (same (blank next_id pid)) (ground (arith, eq_iff pid pid)))
  get-upsert_found rows (some r) e =
      find-update_where (λ r. r.uuid == pid) (has_id r.id) patch (λ a. rw (same a) refl) rows r e
        (ground arith)

  pub get-upsert :
      (rows : List Aip)
      → get_by_uuid pid (upsert_by_uuid next_id pid patch rows).rows
        ≡ some (patch (get_or (get_by_uuid pid rows) (blank next_id pid)))
  unfolding upsert_by_uuid
  get-upsert rows = get-upsert_found rows (get_by_uuid pid rows) refl

-- The world where no statement fails.
abbrev pub calm : World → World
calm w = record w { faults = []; queue = record w.queue { faults = [] } }

module _ (row : Row) (p : Patch) (step : String) (out : Outcome) where
  placed-copies :
      (v : World) (x : Result Updated × Db)
      → (continue (λ _. pure out) (place v x)).1.copies ≡ v.copies
  placed-copies v (ok u, db) = refl
  placed-copies v (err e, db) = refl

  pub leave-copies : (v : World) → (leave row p step out v).1.copies ≡ v.copies
  leave-copies v = placed-copies v (update_queue (by_id row.id) p (by_worker step) v.queue)

  written-ok :
      (v : World) (found : List Row) (x : Result Updated × Db)
      → x ≡ write_found found (by_id row.id) p (by_worker step) v.queue
      → (continue (λ _. pure out) (place v x)).0 ≡ ok out
  unfolding write_found
  written-ok v [] x e = rw e refl
  written-ok v (r ∷ rs) x e = rw e refl

  pub leave-ok : (v : World) → v.queue.faults ≡ [] → (leave row p step out v).0 ≡ ok out
  leave-ok v h =
      written-ok v _ (update_queue (by_id row.id) p (by_worker step) v.queue)
        (update_queue-calm (by_id row.id) p (by_worker step) v.queue h)

-- A return that has left this row in tbl_aip_store.
abbrev pub Leaves : String → Outcome → (Aip → Type 0) → Result Outcome × World → Type 0
Leaves pid out P x = (x.0 ≡ ok out) × ((c : Aip) × (get_by_uuid pid x.1.copies ≡ some c) × P c)

is_orphan_code :
    (r : Aip) (dead not_found : Bool)
    → r.is_migrated ≡ am_not_found_code
    → dead || not_found ≡ true
    → is_orphan r ≡ dead || not_found
unfolding is_orphan
is_orphan_code r dead not_found e h = rw (e, h) refl

failed_code :
    (r : Aip) (dead not_found : Bool)
    → r.is_migrated ≡ ingest_copy_failed_code
    → dead || not_found ≡ false
    → is_orphan r ≡ dead || not_found
unfolding is_orphan
failed_code r dead not_found e h = rw (e, h) refl

module _ (cfg : Config) (row : Row) (pid : String) (use_duracloud : Bool) where
  -- The upsert and the last write of a failure.
  pub recorded-Leaves :
      (P : Aip → Type 0) (patch : Aip → Aip) (p : Patch) (step : String) (out : Outcome) (w : World)
      → ((r : Aip) → (patch r).uuid ≡ r.uuid)
      → ((r : Aip) → P (patch r))
      → Leaves pid out P ((upsert_logged pid patch >>= λ _. leave row p step out) (calm w))
  unfolding upsert_copy
  recorded-Leaves P patch p step out w same post =
      let u : Upserted = upsert_by_uuid w.next_copy pid patch w.copies in
      let v : World = record (calm w) {
        copies = u.rows;
        next_copy = if u.created then suc w.next_copy else w.next_copy;
      } in
      (
        leave-ok row p step out v refl,
        (
          patch (get_or (get_by_uuid pid w.copies) (blank w.next_copy pid)),
          rw (leave-copies row p step out v) (get-upsert w.next_copy pid patch same w.copies),
          post _,
        ),
      )

  module _ (text : String) (existing : Option Aip) where
    abbrev attempt_no : ℕ
    attempt_no = prior_attempts existing + 1

    -- The row of a copy that is tried again.
    pub record Retried (now : ℕ) (c : Aip) : Type 0 where
      pub attempts : c.attempts ≡ attempt_no
      pub later : c.next_attempt_at ≡ some (now + backoff_ms cfg attempt_no)
      pub code : c.is_migrated ≡ ingest_copy_failed_code
      pub source :
          c.message ≡ some (failure_message use_duracloud true (is_am_not_found_error text))

    -- The row of a copy that is given up.
    pub record GivenUp (c : Aip) : Type 0 where
      pub attempts : c.attempts ≡ attempt_no
      pub never : c.next_attempt_at ≡ none
      pub orphaned : is_orphan c ≡ is_am_deleted_error text || is_am_not_found_error text

    abbrev lasts : Bool → Bool
    lasts not_found = ltb attempt_no (budget cfg not_found)

    retry_or_fail-Leaves :
        (P : Aip → Type 0) (not_found retrying : Bool) (w : World)
        → lasts not_found ≡ retrying
        → ((r : Aip)
            → P (
                failure_patch row ingest_copy_failed_code attempt_no
                  (if retrying then some (w.queue.now + backoff_ms cfg attempt_no) else none)
                  text
                  (failure_message use_duracloud retrying not_found)
                  r))
        → Leaves pid
            (failed attempt_no (if retrying then "AIP_STORE_PENDING" else "AIP_STORE_FAILED"))
            P
            (retry_or_fail cfg row pid text use_duracloud not_found attempt_no (calm w))
    unfolding retry_or_fail
    retry_or_fail-Leaves P not_found retrying w e post =
        rw e (recorded-Leaves P _ _ _ _ w (λ r. refl) post)

    dead_letter-Leaves :
        (P : Aip → Type 0) (message step : String) (w : World)
        → ((r : Aip) → P (failure_patch row am_not_found_code attempt_no none text message r))
        → Leaves pid
            (failed attempt_no "AIP_STORE_FAILED")
            P
            (dead_letter cfg row pid text use_duracloud attempt_no message step (calm w))
    unfolding dead_letter
    dead_letter-Leaves P message step w post =
        recorded-Leaves P (failure_patch row am_not_found_code attempt_no none text message)
          (close_with "AIP_STORE_FAILED" text) step (failed attempt_no "AIP_STORE_FAILED") w
          (λ r. refl) post

    pub decide-Retried :
        (w : World)
        → is_am_deleted_error text ≡ false
        → attempt_no < budget cfg (is_am_not_found_error text)
        → Leaves pid
            (failed attempt_no "AIP_STORE_PENDING")
            (Retried w.queue.now)
            (decide_failure cfg row pid text use_duracloud existing (calm w))
    unfolding decide_failure
    decide-Retried w alive below =
        let nf : Bool = is_am_not_found_error text in
        rw alive (
          if-both {A = S Outcome}
            (λ m.
              Leaves pid (failed attempt_no "AIP_STORE_PENDING") (Retried w.queue.now) (m (calm w)))
            (nf && leb (budget cfg nf) attempt_no) (λ both. ground arith)
            (λ _.
              retry_or_fail-Leaves (Retried w.queue.now) nf true w (ground arith)
                (λ r. record { attempts = refl; later = refl; code = refl; source = refl })))

    pub decide-GivenUp :
        (w : World)
        → is_am_deleted_error text ≡ true ⊎ budget cfg (is_am_not_found_error text) ≤ attempt_no
        → Leaves pid
            (failed attempt_no "AIP_STORE_FAILED")
            GivenUp
            (decide_failure cfg row pid text use_duracloud existing (calm w))
    unfolding decide_failure
    decide-GivenUp w over =
        let dead : Bool = is_am_deleted_error text in
        let nf : Bool = is_am_not_found_error text in
        let P : S Outcome → Type 0 =
          λ m. Leaves pid (failed attempt_no "AIP_STORE_FAILED") GivenUp (m (calm w)) in
        if-both {A = S Outcome} P dead
          (λ is_dead. dead_letter-Leaves GivenUp _ _ w (λ r. record {
            attempts = refl;
            never = refl;
            orphaned = is_orphan_code _ dead nf refl (ground arith);
          }))
          (λ alive.
            if-both {A = S Outcome} P (nf && leb (budget cfg nf) attempt_no)
              (λ both. dead_letter-Leaves GivenUp _ _ w (λ r. record {
                attempts = refl;
                never = refl;
                orphaned = is_orphan_code _ dead nf refl (ground arith);
              }))
              (λ less.
                let spent : budget cfg nf ≤ attempt_no = ground (arith, over) in
                let e : lasts nf ≡ false = ground arith in
                retry_or_fail-Leaves GivenUp nf false w e (λ r. record {
                  attempts = refl;
                  never = refl;
                  orphaned = failed_code _ dead nf refl (ground arith);
                })))
