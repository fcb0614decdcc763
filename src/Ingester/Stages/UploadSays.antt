-- ===== src/Ingester/Stages/UploadSays.antt =====
-- Stage 2: what each return tells of the answers that the QA service gave.
use repo_backend_v.Base.{
  ℕ, zero, suc, String, true, false, not, ◌≡◌, ◌≤◌, refl, ◌⊎◌, inl, inr, Option, none, some, List,
  [], ◌∷◌, arith, leb, ◌==◌, string_eq, nat_eq, if◌then◌else◌, if-both,
}
use repo_backend_v.Ingester.Queue.Store.{Row}
use repo_backend_v.Ingester.Stages.World.{S, ◌>>=◌, pure}
use repo_backend_v.Ingester.Stages.Steps.{
  Remote, call, write_row, Polled, finished, timed_out, aborted, Interrupt, deadline, abort, poll,
}
use repo_backend_v.Ingester.Stages.Says.{
  Says, Answers, Asked, Ended, Given, Says-pure, Says-call, Says-bind, Says-then, Says-leave,
  poll-Says,
}
use repo_backend_v.Ingester.Stages.Upload.{
  package_file_count_failed, qa_move_failed, stopped, upload_timeout, sftp_upload_failed, Outcome,
  succeeded, refused, Counted, CountBody, count_threw, count_status, no_body, number, counts,
  Status, StatusBody, status_threw, replied, Seen, Arrived, all_there, arrived, Result',
  upload_failed, upload_done, pick_bytes, pick_count, track, check, finish, moved, uploading,
  expected_count, usable, with_count, run, verdict, pick_uploaded, reaches, as_arrived, first_of,
}

module _ (http_text : ℕ → String) (row : Row) (count_files : Remote Counted)
    (move : Remote (Option String)) (polls : List (Remote Status)) (last : Interrupt) where
  -- The service counted the package's files, and there are some.
  abbrev pub Expected : ℕ → Type 0
  Expected n =
      (status : ℕ) × (body : CountBody) × Answers count_files (count_status status body)
      × ((status == 200) ≡ true)
      × (pick_count body ≡ some n)
      × ((n == 0) ≡ false)

  -- A status of the upload that reports it.
  abbrev Reported : (StatusBody → Type 0) → Type 0
  Reported P =
      (status : ℕ) × (d : StatusBody) × Asked polls (replied status (some d))
      × ((status == 200) ≡ true)
      × P d

  -- The service says that all is there, or counts at least the files expected.
  abbrev pub Reaches : ℕ → Arrived → Type 0
  Reaches expected all_there = Unit
  Reaches expected (arrived n) = expected ≤ n

  abbrev pub Reports : StatusBody → Arrived → Type 0
  Reports d all_there = ((d.message == "upload_complete") ≡ true) ⊎ (d.is_complete ≡ true)
  Reports d (arrived n) =
      (d.remote_file_count ≡ some n)
      ⊎ ((d.uploaded ≡ some n) ⊎ ((d.upload_count ≡ some n) ⊎ (d.count ≡ some n)))

  pick_uploaded-Reports : (d : StatusBody) → Given (Reports d) (pick_uploaded d)
  unfolding pick_uploaded
  pick_uploaded-Reports d =
      if-both {A = Option Arrived} (Given (Reports d)) (d.message == "upload_complete") (λ e. inl e)
        (λ _. by_count d.remote_file_count refl)
    where
      by_number :
          (u v c : Option ℕ)
          → d.uploaded ≡ u
          → d.upload_count ≡ v
          → d.count ≡ c
          → Given (Reports d) (as_arrived (first_of (u ∷ v ∷ c ∷ [])))
      by_number (some n) v c p q r = inr (inl p)
      by_number none (some n) c p q r = inr (inr (inl q))
      by_number none none (some n) p q r = inr (inr (inr r))
      by_number none none none p q r = tt

      by_count :
          (o : Option ℕ)
          → d.remote_file_count ≡ o
          → Given (Reports d) (elim o [
            | some n ↦ some (arrived n)
            | none ↦
                if d.is_complete
                then some all_there
                else as_arrived (first_of (d.uploaded ∷ d.upload_count ∷ d.count ∷ []))
          ])
      by_count (some n) e = inl e
      by_count none e =
          if-both {A = Option Arrived} (Given (Reports d)) d.is_complete (λ c. inr c)
            (λ _. by_number d.uploaded d.upload_count d.count refl refl refl)

  -- The answer counts as what arrived, at a status of 200 that reports no failure.
  abbrev pub Stage2Tells : Outcome → Type 0
  Stage2Tells (succeeded a) =
      (expected : ℕ) × Expected expected
      × Reaches expected a
      × Reported (λ d. Reports d a × ((d.message == "upload_failed") ≡ false))
  Stage2Tells (refused package_file_count_failed) = Unit
  Stage2Tells (refused qa_move_failed) = (message : String) × Answers move (some message)
  Stage2Tells (refused stopped) = last ≡ abort
  Stage2Tells (refused upload_timeout) = last ≡ deadline
  Stage2Tells (refused sftp_upload_failed) = Reported (λ d. (d.message == "upload_failed") ≡ true)

  -- What the poll ends with.
  abbrev Result : ℕ → Result' → Type 0
  Result expected (upload_failed error) = Reported (λ d. (d.message == "upload_failed") ≡ true)
  Result expected (upload_done a) =
      Reaches expected a × Reported (λ d. Reports d a × ((d.message == "upload_failed") ≡ false))

  abbrev Turn : ℕ → Seen × Option Result' → Type 0
  Turn expected x = Unit {0} × Given (Result expected) x.1

  quiet :
      (expected : ℕ) (s : Seen) → Says (Turn expected) (pure {A = Seen × Option Result'} (s, none))
  quiet expected s = Says-pure {A = Seen × Option Result'} (Turn expected) (s, none) (tt, tt)

  verdict-Given :
      (expected status : ℕ) (d : StatusBody) (o : Option Arrived)
      → Given (Reports d) o
      → Asked polls (replied status (some d))
      → (status == 200) ≡ true
      → (d.message == "upload_failed") ≡ false
      → Given (Result expected) (verdict http_text row expected o)
  unfolding reaches
  verdict-Given expected status d none e a good going = tt
  verdict-Given expected status d (some all_there) e a good going =
      (tt, (status, d, a, good, (e, going)))
  verdict-Given expected status d (some (arrived n)) e a good going =
      if-both {A = Option Result'} (Given (Result expected)) (leb expected n)
        (λ enough. (ground (arith, enough), (status, d, a, good, (e, going)))) (λ _. tt)

  check-Says :
      (expected : ℕ) (s : Seen) (a : Status)
      → Unit {0}
      → Asked polls a
      → Says (Turn expected) (check http_text row expected s a)
  unfolding check
  check-Says expected s status_threw u asked = quiet expected s
  check-Says expected s (replied status none) u asked = quiet expected s
  check-Says expected s (replied status (some d)) u asked =
      if-both {A = S (Seen × Option Result')} (Says (Turn expected)) (not (status == 200))
        (λ _. quiet expected s)
        (λ good.
          if-both {A = S (Seen × Option Result')} (Says (Turn expected))
            (d.message == "upload_failed")
            (λ lost.
              Says-pure {A = Seen × Option Result'} (Turn expected)
                (s, some (upload_failed d.error))
                (tt, (status, d, asked, ground (arith, good), lost)))
            (λ going.
              Says-then (Turn expected) (track http_text row s (pick_bytes d))
                (λ s'. pure (s', verdict http_text row expected (pick_uploaded d)))
                (λ s'.
                  Says-pure {A = Seen × Option Result'} (Turn expected)
                    (s', verdict http_text row expected (pick_uploaded d))
                    (
                      tt,
                      verdict-Given expected status d (pick_uploaded d) (pick_uploaded-Reports d)
                          asked (ground (arith, good)) going,
                    ))))

  finish-Says :
      (expected : ℕ)
      → Expected expected
      → (x : Seen × Polled Result') → Unit {0} × Ended (Result expected) last x.1
      → Says Stage2Tells (finish http_text row x)
  unfolding finish
  finish-Says expected c (s, aborted) (u, e) = Says-pure Stage2Tells (refused stopped) e
  finish-Says expected c (s, timed_out) (u, e) = Says-leave Stage2Tells _ (refused upload_timeout) e
  finish-Says expected c (s, finished (upload_failed error)) (u, e) =
      Says-leave Stage2Tells _ (refused sftp_upload_failed) e
  finish-Says expected c (s, finished (upload_done a)) (u, (r, d)) =
      Says-leave Stage2Tells _ (succeeded a) (expected, c, r, d)

  moved-Says :
      (expected : ℕ) (e : Option String)
      → Expected expected
      → Answers move e
      → Says Stage2Tells (moved http_text row count_files move polls last expected e)
  unfolding moved
  moved-Says expected (some message) c a =
      Says-leave Stage2Tells _ (refused qa_move_failed) (message, a)
  moved-Says expected none c a =
      let fresh : Seen = record { last_bytes = none; total_bytes = 0 } in
      Says-bind Stage2Tells (λ x. Unit {0} × Ended (Result expected) last x.1)
        (poll (check http_text row expected) polls last fresh) (finish http_text row)
        (poll-Says (λ _. Unit {0}) (Result expected) (Asked polls) (check http_text row expected)
          (check-Says expected) polls last (λ a asked. asked) fresh tt)
        (finish-Says expected c)

  abbrev Counts : Option ℕ × String → Type 0
  Counts (none, message) = Unit
  Counts (some n, message) = Expected n

  usable-Counts :
      (o : Option ℕ) (status : ℕ) (body : CountBody) (message : String)
      → pick_count body ≡ o
      → Answers count_files (count_status status body)
      → (status == 200) ≡ true
      → Counts (usable http_text row count_files move polls last o, message)
  usable-Counts none status body message e a good = tt
  usable-Counts (some zero) status body message e a good = tt
  usable-Counts (some (suc n)) status body message e a good =
      (status, body, a, good, e, ground arith)

  expected-Counts :
      (c : Counted)
      → Answers count_files c
      → Counts (expected_count http_text row count_files move polls last c)
  unfolding expected_count
  expected-Counts (count_threw message) a = tt
  expected-Counts (count_status status no_body) a = tt
  expected-Counts (count_status status (number n)) a =
      if-both {A = Option ℕ × String} Counts (not (status == 200)) (λ _. tt)
        (λ good. usable-Counts _ status (number n) _ refl a (ground (arith, good)))
  expected-Counts (count_status status (counts p f t c)) a =
      if-both {A = Option ℕ × String} Counts (not (status == 200)) (λ _. tt)
        (λ good. usable-Counts _ status (counts p f t c) _ refl a (ground (arith, good)))

  with_count-Says :
      (c : Option ℕ × String)
      → Counts c
      → Says Stage2Tells (with_count http_text row count_files move polls last c)
  unfolding with_count
  with_count-Says (none, message) e =
      Says-leave Stage2Tells _ (refused package_file_count_failed) tt
  with_count-Says (some expected, message) e =
      Says-then Stage2Tells
        (write_row row (uploading http_text row count_files move polls last expected) "upload"
          "started")
        (λ _. call move >>= moved http_text row count_files move polls last expected)
        (λ _.
          Says-bind Stage2Tells (Answers move) (call move)
            (moved http_text row count_files move polls last expected) (Says-call move)
            (λ m a. moved-Says expected m e a))

  pub run-Says : Says Stage2Tells (run http_text row count_files move polls last)
  unfolding run
  run-Says =
      Says-bind Stage2Tells (Answers count_files) (call count_files)
        (λ c.
          with_count http_text row count_files move polls last
            (expected_count http_text row count_files move polls last c))
        (Says-call count_files) (λ c a. with_count-Says _ (expected-Counts c a))
