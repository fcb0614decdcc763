-- ===== src/Ingester/Stages/TransferSays.antt =====
-- Stage 3: what each return tells of the answers that Archivematica gave.
use mathlib.Core.List.{Memᴰ}
use repo_backend_v.Base.{
  ℕ, String, Bool, true, false, not, ◌&&◌, ◌||◌, ◌≡◌, refl, ◌∙◌, ◌⊎◌, inl, inr, Option, none, some,
  List, [], ◌∷◌, arith, ◌==◌, string_eq, nat_eq, eq_iff, find, if◌then◌else◌, if-both, Bool-cases,
  sym,
}
use repo_backend_v.Ingester.Queue.Store.{Row}
use repo_backend_v.Ingester.Queue.Update.{to_status}
use repo_backend_v.Ingester.Stages.Text.{text_or}
use repo_backend_v.Ingester.Stages.World.{S, ◌>>=◌, pure}
use repo_backend_v.Ingester.Stages.Steps.{
  Remote, call, write_row, write_progress, Polled, finished, timed_out, aborted, Interrupt,
  deadline, abort, poll,
}
use repo_backend_v.Ingester.Stages.Says.{
  Told, Says, Answers, Asked, Given, Says-pure, Says-call, Says-bind, Says-then, Says-leave,
  poll-Says,
}
use repo_backend_v.Ingester.Stages.Says as Says
use repo_backend_v.Ingester.Stages.Transfer.{
  start_transfer_failed, start_transfer_bad_status, start_transfer_missing_folder,
  missing_am_identifiers, stopped, approve_timeout, transfer_uuid_missing, transfer_status_timeout,
  am_failed, Outcome, transferred, refused, Started, StartBody, start_threw, start_status, Entry,
  ApproveTurn, StatusBody, Ids, Ended, failed, package_made, mark_copy, started_ids, started,
  resolved, is_match, capture, approve_found, check_approve, heartbeat, check_status, finish,
  await_package, after_approve, continue_from, after_start, collection_pid, ids_of_row, run,
}

module _ (to_lower : String → String) (row : Row) (own_name : ℕ → String)
    (start : String → Remote Started) (approvals : List (Remote ApproveTurn))
    (approve_last : Interrupt) (statuses : String → List (Remote (Option StatusBody)))
    (status_last : Interrupt) where
  -- A turn of the approve poll listed the entry.
  abbrev pub Listed : ApproveTurn → Entry → Type 0
  Listed t e = (entries : List Entry) × (t.listed ≡ some entries) × Memᴰ e entries

  -- The transfer's uuid is the one that the run began with or, where that had none, the one that a turn
  -- listed under the transfer's folder.
  abbrev pub Known : Ids → Ids → Type 0
  Known first ids =
      (ids.folder ≡ first.folder)
      × ((ids.uuid ≡ first.uuid)
          ⊎ (((first.uuid == "") ≡ true)
              × ((t : ApproveTurn) × (e : Entry) × Asked approvals t
                  × Listed t e
                  × (e.directory ≡ first.folder)
                  × (e.uuid ≡ ids.uuid))))

  -- A turn listed the transfer, under its folder or its uuid, and the approve answered 200.
  abbrev pub Approved : Ids → Type 0
  Approved first =
      (t : ApproveTurn) × (e : Entry) × (ids : Ids) × Asked approvals t
      × Known first ids
      × Listed t e
      × ((e.directory ≡ first.folder) ⊎ (((ids.uuid == "") ≡ false) × (e.uuid ≡ ids.uuid)))
      × (t.approved ≡ true)

  -- The identifiers that the run began with: those of the row, or those of a start that answered 200.
  abbrev pub Began : Ids → Type 0
  Began ids =
      (ids ≡ ids_of_row to_lower row own_name start approvals approve_last statuses status_last)
      ⊎ ((d : StartBody) × Answers
            (start (
              collection_pid to_lower row own_name start approvals approve_last statuses
                status_last))
            (start_status 200 (some d))
          × (ids
              ≡ started_ids to_lower row
                  (collection_pid to_lower row own_name start approvals approve_last statuses
                    status_last)
                  d))

  abbrev Reported : String → (StatusBody → Type 0) → Type 0
  Reported uuid P = (d : StatusBody) × Asked (statuses uuid) (some d) × P d

  abbrev pub IsFailed : StatusBody → Type 0
  IsFailed d = ((d.status == "FAILED") ≡ true) ⊎ ((d.status == "REJECTED") ≡ true)

  abbrev pub IsMade : String → StatusBody → Type 0
  IsMade sip_uuid d =
      ((d.status == "COMPLETE") ≡ true) × (d.sip_uuid ≡ sip_uuid) × ((sip_uuid == "") ≡ false)

  -- The transfer was approved in this run, or the row says that it was in an earlier one.
  abbrev pub Cleared : Type 0
  Cleared =
      ((row.pipeline_state == "TRANSFER_IN_PROGRESS") ≡ true)
      ⊎ ((ids : Ids) × Began ids × Approved ids)

  abbrev pub Stage3Tells : Outcome → Type 0
  Stage3Tells (transferred sip_uuid uuid) = Reported uuid (IsMade sip_uuid) × Cleared
  Stage3Tells (refused start_transfer_failed) =
      (pid message : String) × Answers (start pid) (start_threw message)
  Stage3Tells (refused start_transfer_bad_status) = Unit
  Stage3Tells (refused start_transfer_missing_folder) = Unit
  Stage3Tells (refused missing_am_identifiers) = Unit
  Stage3Tells (refused stopped) = (approve_last ≡ abort) ⊎ (status_last ≡ abort)
  Stage3Tells (refused approve_timeout) = approve_last ≡ deadline
  Stage3Tells (refused transfer_uuid_missing) = Unit
  Stage3Tells (refused transfer_status_timeout) = (status_last ≡ deadline) × Cleared
  Stage3Tells (refused am_failed) = ((uuid : String) × Reported uuid IsFailed) × Cleared

  module _ (uuid : String) where
    abbrev Result : Ended → Type 0
    Result failed = Reported uuid IsFailed
    Result (package_made sip_uuid) = Reported uuid (IsMade sip_uuid)

    abbrev Turn : String × Option Ended → Type 0
    Turn x = Unit {0} × Given Result x.1

    check_status-Says :
        (cached : String) (a : Option StatusBody)
        → Unit {0}
        → Asked (statuses uuid) a
        → Says Turn (check_status to_lower row cached a)
    unfolding check_status
    check_status-Says cached none u asked w =
        Says-pure {A = String × Option Ended} Turn (cached, none) (tt, tt) w
    check_status-Says cached (some d) u asked w =
        if-both (Told Turn) (d.status == "FAILED" || d.status == "REJECTED")
          (λ bad. (tt, (d, asked, failing bad)))
          (λ _.
            if-both (Told Turn) (d.status == "COMPLETE" && not (d.sip_uuid == ""))
              (λ good. (tt, (d, asked, (ground (arith, good), refl, ground (arith, good)))))
              (λ _.
                Says-leave {A = String × Option Ended} Turn
                  (write_progress row (heartbeat to_lower row w.queue.now cached d.microservice))
                  (text_or d.microservice cached, none) (tt, tt) w))
      where
        failing : (d.status == "FAILED" || d.status == "REJECTED") ≡ true → IsFailed d
        failing bad = elim (Bool-cases (d.status == "FAILED")) [
          | inl e ↦ inl e
          | inr e ↦ inr (ground (arith, bad, e))
        ]

    finish-Says :
        Cleared
        → (x : String × Polled Ended) → Unit {0} × Says.Ended Result status_last x.1
        → Says Stage3Tells (finish to_lower row uuid x)
    unfolding finish
    finish-Says c (s, aborted) (u, e) = Says-pure Stage3Tells (refused stopped) (inr e)
    finish-Says c (s, timed_out) (u, e) =
        Says-leave Stage3Tells _ (refused transfer_status_timeout) (e, c)
    finish-Says c (s, finished failed) (u, e) =
        Says-leave Stage3Tells _ (refused am_failed) ((uuid, e), c)
    finish-Says c (s, finished (package_made sip_uuid)) (u, e) =
        Says-leave Stage3Tells _ (transferred sip_uuid uuid) (e, c)

  await_package-Says :
      (ids : Ids)
      → Cleared
      → Says Stage3Tells (
          await_package to_lower row own_name start approvals approve_last statuses status_last ids)
  unfolding await_package
  await_package-Says ids c =
      if-both {A = S Outcome} (Says Stage3Tells) (ids.uuid == "")
        (λ _. Says-leave Stage3Tells _ (refused transfer_uuid_missing) tt)
        (λ _.
          Says-bind Stage3Tells (λ x. Unit {0} × Says.Ended (Result ids.uuid) status_last x.1)
            (poll (check_status to_lower row) (statuses ids.uuid) status_last
              row.details.micro_service)
            (finish to_lower row ids.uuid)
            (poll-Says (λ _. Unit {0}) (Result ids.uuid) (Asked (statuses ids.uuid))
              (check_status to_lower row) (check_status-Says ids.uuid) (statuses ids.uuid)
              status_last (λ a asked. asked) row.details.micro_service tt)
            (finish-Says ids.uuid c))

  module _ (first : Ids) (began : Began first) where
    abbrev ApproveTurnTold : Ids × Option (Unit {0}) → Type 0
    ApproveTurnTold x = Known first x.0 × Given (λ _. Approved first) x.1

    -- An entry that matches stands under the folder or the uuid.
    abbrev Matches : Ids → Entry → Type 0
    Matches ids e =
        (e.directory ≡ first.folder) ⊎ (((ids.uuid == "") ≡ false) × (e.uuid ≡ ids.uuid))

    match-Matches :
        (ids : Ids) (e : Entry)
        → ids.folder ≡ first.folder
        → is_match to_lower row ids e ≡ true
        → Matches ids e
    match-Matches ids e same h = elim (Bool-cases (e.directory == ids.folder)) [
      | inl d ↦ inl ((eq_iff e.directory ids.folder).0 d ∙ same)
      | inr d ↦ inr (ground (arith, h, d), (eq_iff e.uuid ids.uuid).0 (ground (arith, h, d)))
    ]

    found-Mem :
        (p : Entry → Bool) (entries : List Entry) (e : Entry)
        → find p entries ≡ some e
        → Memᴰ e entries × (p e ≡ true)
    found-Mem p [] e h = absurd cc
    found-Mem p (x ∷ xs) e h = elim (Bool-cases (p x)) [
      | inl hit ↦
          let first_hit : some x ≡ some e = rw hit at h in
          let same : x ≡ e = cc in (Memᴰ.head (sym same), rw same at hit)
      | inr other ↦ let rest = found-Mem p xs e (rw other at h) in (Memᴰ.tail rest.0, rest.1)
    ]

    module _ (t : ApproveTurn) (asked : Asked approvals t) where
      approve_found-Says :
          (ids : Ids) (o : Option Entry)
          → Known first ids
          → Given (λ e. Listed t e × (is_match to_lower row ids e ≡ true)) o
          → Says ApproveTurnTold (approve_found to_lower row t ids o)
      unfolding capture
      approve_found-Says ids none k g =
          Says-pure {A = Ids × Option (Unit {0})} ApproveTurnTold (ids, none) (k, tt)
      approve_found-Says ids (some e) k (listed, hit) =
          let m : Matches ids e = match-Matches ids e k.0 hit in
          let approved : (ids' : Ids)
              → Known first ids'
              → Says ApproveTurnTold (
                  pure {A = Ids × Option (Unit {0})} (ids', if t.approved then some tt else none)) =
            λ ids' k'.
              Says-pure {A = Ids × Option (Unit {0})} ApproveTurnTold
                (ids', if t.approved then some tt else none)
                (
                  k',
                  if-both {A = Option (Unit {0})} (Given (λ _. Approved first)) t.approved
                      (λ yes. (t, e, ids, asked, k, listed, m, yes)) (λ _. tt),
                ) in
          Says-bind ApproveTurnTold (Known first) (capture to_lower row ids e)
            (λ ids'. pure (ids', if t.approved then some tt else none))
            (if-both {A = S Ids} (Says (Known first)) (ids.uuid == "" && not (e.uuid == ""))
              (λ new.
                Says-leave (Known first) (write_progress row (resolved to_lower row e.uuid))
                  (record ids { uuid = e.uuid }) (k.0, inr (captured ids e k listed m new)))
              (λ _. Says-pure (Known first) ids k))
            approved
        where
          captured :
              (ids : Ids) (e : Entry)
              → Known first ids
              → Listed t e
              → Matches ids e
              → (ids.uuid == "" && not (e.uuid == "")) ≡ true
              → ((first.uuid == "") ≡ true)
                × ((t' : ApproveTurn) × (e' : Entry) × Asked approvals t'
                    × Listed t' e'
                    × (e'.directory ≡ first.folder)
                    × (e'.uuid ≡ e.uuid))
          captured ids e (same, inl u) listed (inl d) new =
              let empty : (ids.uuid == "") ≡ true = ground (arith, new) in
              (rw u at empty, (t, e, asked, listed, d, refl))
          captured ids e (same, inr (empty, later)) listed (inl d) new =
              (empty, (t, e, asked, listed, d, refl))
          captured ids e k listed (inr (set, d)) new = absurd (ground (arith, new, set))

      check_approve-Says :
          (ids : Ids) → Known first ids → Says ApproveTurnTold (check_approve to_lower row ids t)
      unfolding check_approve
      check_approve-Says ids k = by_list t.listed refl
        where
          by_find :
              (entries : List Entry)
              → t.listed ≡ some entries
              → (o : Option Entry) → find (is_match to_lower row ids) entries ≡ o
              → Says ApproveTurnTold (approve_found to_lower row t ids o)
          by_find entries l none e = approve_found-Says ids none k tt
          by_find entries l (some x) e =
              let hit = found-Mem (is_match to_lower row ids) entries x e in
              approve_found-Says ids (some x) k ((entries, l, hit.0), hit.1)

          by_list :
              (o : Option (List Entry))
              → t.listed ≡ o
              → Says ApproveTurnTold (elim o as (λ _. S (Ids × Option (Unit {0}))) [
                | none ↦ pure (ids, none)
                | some entries ↦
                    approve_found to_lower row t ids (find (is_match to_lower row ids) entries)
              ])
          by_list none l =
              Says-pure {A = Ids × Option (Unit {0})} ApproveTurnTold (ids, none) (k, tt)
          by_list (some entries) l =
              by_find entries l (find (is_match to_lower row ids) entries) refl

    after_approve-Says :
        (x : Ids × Polled (Unit {0}))
        → Known first x.0 × Says.Ended (λ _. Approved first) approve_last x.1
        → Says Stage3Tells (
            after_approve to_lower row own_name start approvals approve_last statuses status_last x)
    unfolding after_approve
    after_approve-Says (ids, aborted) (k, e) = Says-pure Stage3Tells (refused stopped) (inl e)
    after_approve-Says (ids, timed_out) (k, e) =
        Says-leave Stage3Tells _ (refused approve_timeout) e
    after_approve-Says (ids, finished done) (k, e) =
        Says-then Stage3Tells (write_row row (to_status "TRANSFER_APPROVED") "transfer" "approved")
          (λ _. write_row row (to_status "TRANSFER_IN_PROGRESS") "transfer" "in_progress" >>= λ _.
            await_package to_lower row own_name start approvals approve_last statuses status_last
              ids)
          (λ _.
            Says-then Stage3Tells
              (write_row row (to_status "TRANSFER_IN_PROGRESS") "transfer" "in_progress")
              (λ _.
                await_package to_lower row own_name start approvals approve_last statuses
                  status_last ids)
              (λ _. await_package-Says ids (inr (first, began, e))))

    continue_from-Says : Says Stage3Tells (
        continue_from to_lower row own_name start approvals approve_last statuses status_last first)
    unfolding continue_from
    continue_from-Says =
        if-both {A = S Outcome} (Says Stage3Tells) (first.folder == "")
          (λ _. Says-leave Stage3Tells _ (refused missing_am_identifiers) tt)
          (λ _.
            if-both {A = S Outcome} (Says Stage3Tells)
              (row.pipeline_state == "TRANSFER_IN_PROGRESS") (λ e. await_package-Says first (inl e))
              (λ _.
                Says-bind Stage3Tells
                  (λ x. Known first x.0 × Says.Ended (λ _. Approved first) approve_last x.1)
                  (poll (check_approve to_lower row) approvals approve_last first)
                  (after_approve to_lower row own_name start approvals approve_last statuses
                    status_last)
                  (poll-Says (Known first) (λ _. Approved first) (Asked approvals)
                    (check_approve to_lower row) (λ l a k asked. check_approve-Says a asked l k)
                    approvals approve_last (λ a asked. asked) first (refl, inl refl))
                  after_approve-Says))

  abbrev pid : String
  pid = collection_pid to_lower row own_name start approvals approve_last statuses status_last

  after_start-Says :
      (s : Started)
      → Answers (start pid) s
      → Says Stage3Tells (
          after_start to_lower row own_name start approvals approve_last statuses status_last pid s)
  unfolding after_start
  after_start-Says (start_threw message) a =
      Says-leave Stage3Tells _ (refused start_transfer_failed) (pid, message, a)
  after_start-Says (start_status status none) a =
      Says-leave Stage3Tells _ (refused start_transfer_bad_status) tt
  after_start-Says (start_status status (some d)) a =
      let ids : Ids = started_ids to_lower row pid d in
      if-both {A = S Outcome} (Says Stage3Tells) (not (status == 200))
        (λ _. Says-leave Stage3Tells _ (refused start_transfer_bad_status) tt)
        (λ good.
          if-both {A = S Outcome} (Says Stage3Tells) (ids.folder == "")
            (λ _. Says-leave Stage3Tells _ (refused start_transfer_missing_folder) tt)
            (λ _.
              Says-then Stage3Tells (write_row row (started to_lower row ids) "transfer" "started")
                (λ _.
                  continue_from to_lower row own_name start approvals approve_last statuses
                    status_last ids)
                (λ _.
                  let at_200 : status ≡ 200 = ground (arith, good) in
                  continue_from-Says ids (inr (d, rw at_200 at a, refl)))))

  pub run-Says :
      Says Stage3Tells (run to_lower row own_name start approvals approve_last statuses status_last)
  unfolding run
  run-Says =
      if-both {A = S Outcome} (Says Stage3Tells) (row.pipeline_state == "UPLOAD_COMPLETE")
        (λ _.
          Says-then Stage3Tells (mark_copy to_lower row)
            (λ _.
              call (start pid)
              >>= after_start to_lower row own_name start approvals approve_last statuses
                  status_last pid)
            (λ _.
              Says-bind Stage3Tells (Answers (start pid)) (call (start pid))
                (after_start to_lower row own_name start approvals approve_last statuses status_last
                  pid)
                (Says-call (start pid)) after_start-Says))
        (λ _.
          continue_from-Says
            (ids_of_row to_lower row own_name start approvals approve_last statuses status_last)
            (inl refl))
