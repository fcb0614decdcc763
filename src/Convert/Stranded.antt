-- ===== src/Convert/Stranded.antt =====
-- A row that the convert worker stopped awaiting while it was in progress: no later tick reaches it.
use repo_backend_v.Base.{
  ℕ, ◌+◌, Bool, true, false, not, ◌||◌, ◌≡◌, refl, ◌∙◌, Option, none, some, List, [], ◌∷◌, ◌==◌,
  leb, nat_eq, All, filter, if-both, Bool-cases, inl, inr, nat_beq_iff,
}
use repo_backend_v.Base.Table.{update_where, All-update_where}
use repo_backend_v.Convert.Model.{
  Row, Status, pending, complete, failed, precedes, is_in_progress, is_pending, has_id, claim_row,
  first_pending, earlier_of, claim_one, mark_complete, mark_failed, release, set_status,
  in_progress,
}
use repo_backend_v.Convert.Worker.{
  Config, Outcome, ok, empty, missing, unavailable, Posted, answered, failed_post, Moment, Awaited,
  Worker, Ticked, written, missed, verify_awaiting, caught, is_2xx, stop_asked, post_row,
  post_claimed, claim_and_post, after_verify, verify_then_claim, tick_once,
}
use repo_backend_v.Convert.Awaiting.{settles, sends}

module _ (id : ℕ) where
  abbrev pub IsBusy : Row → Type 0
  IsBusy q = has_id id q ≡ true → is_in_progress q.status ≡ true

  abbrev pub Other : Option Awaited → Type 0
  Other none = Unit
  Other (some a) = has_id id a.row ≡ false

  -- The rows of the id are the ones held, in progress, and the worker does not await them.
  pub record IsStranded (held : List Row) (w : Worker) : Type 0 where
    pub same : filter (has_id id) w.queue ≡ held
    pub busy : All IsBusy w.queue
    pub other : Other w.awaiting

  filter_others :
      (n : ℕ) (f : Row → Row) (rows : List Row)
      → (n == id) ≡ false
      → ((q : Row) → (f q).id ≡ q.id)
      → filter (has_id id) (update_where (has_id n) f rows) ≡ filter (has_id id) rows
  unfolding update_where
  filter_others n f [] other keeps = refl
  filter_others n f (q ∷ rows) other keeps = elim (Bool-cases (q.id == n)) [
    | inl hit ↦
        let same : q.id ≡ n = (nat_beq_iff q.id n).0 hit in
        let here : (q.id == id) ≡ false = rw same other in
        let there : ((f q).id == id) ≡ false = rw (keeps q) here in
        rw (hit, there, here) (filter_others n f rows other keeps)
    | inr miss ↦ elim (Bool-cases (q.id == id)) [
      | inl own ↦ rw (miss, own, filter_others n f rows other keeps) refl
      | inr away ↦ rw (miss, away) (filter_others n f rows other keeps)
    ]
  ]

  -- The next pending row is not of the id.
  abbrev Free : Option Row → Type 0
  Free none = Unit
  Free (some r) = IsBusy r × (is_pending r.status ≡ true)

  earlier_of-Free :
      (r : Row) (o : Option Row)
      → IsBusy r
      → is_pending r.status ≡ true
      → Free o
      → Free (earlier_of r o)
  earlier_of-Free r none b p h = (b, p)
  earlier_of-Free r (some q) b p h =
      if-both {A = Option Row} Free (precedes q r) (λ _. h) (λ _. (b, p))

  first_pending-Free : (rows : List Row) → All IsBusy rows → Free (first_pending rows)
  unfolding first_pending
  first_pending-Free [] h = tt
  first_pending-Free (r ∷ rows) (here, h) = elim (Bool-cases (is_pending r.status)) [
    | inl p ↦ rw p (earlier_of-Free r (first_pending rows) here p (first_pending-Free rows h))
    | inr p ↦ rw p (first_pending-Free rows h)
  ]

  pending_idle : (s : Status) → is_pending s ≡ true → is_in_progress s ≡ false
  pending_idle pending p = refl
  pending_idle in_progress p = cc
  pending_idle complete p = refl
  pending_idle failed p = refl

  not_both : (r : Row) → IsBusy r → is_pending r.status ≡ true → has_id id r ≡ false
  not_both r b p = elim (Bool-cases (has_id id r)) [
    | inl own ↦
        let running : is_in_progress r.status ≡ true = b own in
        cc (running, pending_idle r.status p)
    | inr away ↦ away
  ]

  module _ (held : List Row) where
    abbrev S : Worker → Type 0
    S w = IsStranded held w

    -- A write at another id, or one that fails.
    written-IsStranded :
        (works : Bool) (n : ℕ) (f : Row → Row) (w : Worker)
        → (n == id) ≡ false
        → ((q : Row) → (f q).id ≡ q.id)
        → S w
        → S (written works (update_where (has_id n) f) w)
    written-IsStranded true n f w other keeps s = record {
      same = filter_others n f w.queue other keeps ∙ s.same;
      busy =
          All-update_where IsBusy IsBusy (has_id n) f
            (λ q b hit own.
              let same : q.id ≡ n = (nat_beq_iff q.id n).0 hit in
              let away : (q.id == id) ≡ false = rw same other in
              let mine : (q.id == id) ≡ true = rw (keeps q) at own in cc (away, mine))
            (λ q b miss own. b own) w.queue s.busy;
      other = s.other;
    }
    written-IsStranded false n f w other keeps s = s

    freed-IsStranded : (w : Worker) → S w → S (record w { awaiting = none })
    freed-IsStranded w s = record { same = s.same; busy = s.busy; other = tt }

    awaits-IsStranded :
        (a : Awaited) (w : Worker)
        → has_id id a.row ≡ false
        → S w
        → S (record w { awaiting = some a })
    awaits-IsStranded a w other s = record { same = s.same; busy = s.busy; other = other }

    stop_asked-IsStranded : (b : Bool) (w : Worker) → S w → S (stop_asked b w)
    stop_asked-IsStranded true w s = record { same = s.same; busy = s.busy; other = s.other }
    stop_asked-IsStranded false w s = s

    module _ (cfg : Config) where
      failed-IsStranded :
          (works : Bool) (row : Row) (http : Option ℕ) (w : Worker)
          → has_id id row ≡ false
          → S w
          → S (written works (mark_failed cfg.max_attempts row http) w)
      unfolding mark_failed
      failed-IsStranded works row http w other s =
          written-IsStranded works row.id _ w other (λ q. refl) s

      complete-IsStranded :
          (works : Bool) (n : ℕ) (http : Option ℕ) (w : Worker)
          → (n == id) ≡ false
          → S w
          → S (written works (mark_complete n http) w)
      unfolding mark_complete
      complete-IsStranded works n http w other s =
          written-IsStranded works n _ w other (λ q. refl) s

      release-IsStranded :
          (works : Bool) (n : ℕ) (w : Worker)
          → (n == id) ≡ false
          → S w
          → S (written works (release n) w)
      unfolding release
      release-IsStranded works n w other s = written-IsStranded works n _ w other (λ q. refl) s

      missed-IsStranded :
          (works : Bool) (http : Option ℕ) (a : Awaited) (w : Worker)
          → has_id id a.row ≡ false
          → S w
          → S (missed cfg works http a w).worker
      unfolding missed
      missed-IsStranded works http a w other s =
          if-both {A = Ticked} (λ t. S t.worker) (leb cfg.verify_max_checks (a.checks + 1))
            (λ _. failed-IsStranded works a.row http _ other (freed-IsStranded w s))
            (λ _. awaits-IsStranded (record a { checks = a.checks + 1 }) w other s)

      verified-IsStranded :
          (verdict : Option Outcome) (works : Bool) (a : Awaited) (w : Worker)
          → has_id id a.row ≡ false
          → S w
          → S (verify_awaiting cfg verdict works a w).worker
      unfolding verify_awaiting
      verified-IsStranded none works a w o s = missed-IsStranded works none a w o s
      verified-IsStranded (some missing) works a w o s = missed-IsStranded works _ a w o s
      verified-IsStranded (some ok) works a w o s =
          complete-IsStranded works a.row.id _ _ o (freed-IsStranded w s)
      verified-IsStranded (some unavailable) works a w o s =
          complete-IsStranded works a.row.id _ _ o (freed-IsStranded w s)
      verified-IsStranded (some empty) works a w o s =
          failed-IsStranded works a.row _ _ o (freed-IsStranded w s)

      module _ (m : Moment) where
        caught-IsStranded :
            (row : Row) (w : Worker) → has_id id row ≡ false → S w → S (caught cfg m row w)
        unfolding caught
        caught-IsStranded row w o s =
            if-both {A = Worker} S m.stops_in_post
              (λ _. release-IsStranded m.catch_write row.id w o s)
              (λ _. failed-IsStranded m.catch_write row none w o s)

        posted-IsStranded :
            (p : Posted) (row : Row) (w : Worker)
            → has_id id row ≡ false
            → S w
            → S (post_row cfg m p row w)
        unfolding post_row
        posted-IsStranded failed_post row w o s = caught-IsStranded row w o s
        posted-IsStranded (answered status) row w o s =
            if-both {A = Worker} S (is_2xx status)
              (λ _.
                if-both {A = Worker} S cfg.verify_enabled (λ _. awaits-IsStranded _ w o s)
                  (λ _.
                    if-both {A = Worker} S m.post_write
                      (λ _. complete-IsStranded true row.id (some status) w o s)
                      (λ _. caught-IsStranded row w o s)))
              (λ _.
                if-both {A = Worker} S m.post_write
                  (λ _. failed-IsStranded true row (some status) w o s)
                  (λ _. caught-IsStranded row w o s))

        claimed-IsStranded :
            (worked : Bool) (o : Option Row) (w : Worker)
            → Free o
            → S w
            → S (post_claimed cfg m worked (o, claim_row o w.queue) w).worker
        claimed-IsStranded worked none w f s = s
        claimed-IsStranded worked (some row) w f s =
            let away : has_id id row ≡ false = not_both row f.0 f.1 in
            let taken : S (record w { queue = claim_row (some row) w.queue }) =
              written-IsStranded true row.id (set_status in_progress) w away (λ q. refl) s in
            stop_asked-IsStranded m.stops_in_post _ (posted-IsStranded m.posted row _ away taken)

        claim_and_post-IsStranded :
            (worked : Bool) (w : Worker) → S w → S (claim_and_post cfg m worked w).worker
        unfolding claim_and_post claim_one
        claim_and_post-IsStranded worked w s =
            if-both {A = Ticked} (λ t. S t.worker) m.claims
              (λ _.
                claimed-IsStranded worked (first_pending w.queue) w
                  (first_pending-Free w.queue s.busy) s)
              (λ _. s)

        after-IsStranded : (o : Option Bool) (w : Worker) → S w → S (after_verify cfg m o w).worker
        after-IsStranded none w s = s
        after-IsStranded (some worked) w s =
            if-both {A = Ticked} (λ t. S t.worker) w.stopping (λ _. s)
              (λ _. claim_and_post-IsStranded true w s)

        verify_then_claim-IsStranded :
            (o : Option Awaited) (w : Worker)
            → Other o
            → S w
            → S (verify_then_claim cfg m o w).worker
        verify_then_claim-IsStranded none w o s = claim_and_post-IsStranded false w s
        verify_then_claim-IsStranded (some a) w o s =
            let t : Ticked = verify_awaiting cfg m.verdict m.verify_write a w in
            after-IsStranded t.did_work _ (
              stop_asked-IsStranded m.stops_in_verify t.worker
                (verified-IsStranded m.verdict m.verify_write a w o s))

        ticked-IsStranded : (w : Worker) → S w → S (tick_once cfg m w).worker
        unfolding tick_once
        ticked-IsStranded w s =
            if-both {A = Ticked} (λ t. S t.worker) (w.stopping || not m.configured) (λ _. s)
              (λ _. verify_then_claim-IsStranded w.awaiting w s.other s)

      abbrev pub ticks_of : List Moment → Worker → Worker
      ticks_of [] w = w
      ticks_of (m ∷ ms) w = ticks_of ms (tick_once cfg m w).worker

      ticks_of-IsStranded : (ms : List Moment) (w : Worker) → S w → S (ticks_of ms w)
      ticks_of-IsStranded [] w s = s
      ticks_of-IsStranded (m ∷ ms) w s =
          ticks_of-IsStranded ms (tick_once cfg m w).worker (ticked-IsStranded m w s)

module _ (cfg : Config) where
  -- A check that neither settles its row nor is the last one allowed does not keep the tick from
  -- sending the next pending row, and where the service accepts that one, it is awaited instead:
  -- however many ticks follow, and whatever they meet, the rows of the id awaited before are then still
  -- as they were, in progress, and not awaited. `stop` is not called in the tick itself, and its claim
  -- reaches the database.
  pub tick_once-IsStranded :
      (m : Moment) (later : List Moment) (rows : List Row) (a : Awaited) (row : Row) (status : ℕ)
      → All (IsBusy a.row.id) rows
      → m.configured ≡ true
      → settles cfg m (some a) ≡ false
      → m.stops_in_verify ≡ false
      → m.claims ≡ true
      → m.posted ≡ answered status
      → m.stops_in_post ≡ false
      → is_2xx status ≡ true
      → cfg.verify_enabled ≡ true
      → first_pending rows ≡ some row
      → IsStranded a.row.id (filter (has_id a.row.id) rows) (
          ticks_of a.row.id
            (filter (has_id a.row.id) rows)
            cfg
            later
            (tick_once cfg m (record {
              queue = rows;
              awaiting = some a;
              running = true;
              stopping = false;
            })).worker)
  tick_once-IsStranded m later rows a row status busy c s v k p t ack ve f =
      let id : ℕ = a.row.id in
      let held : List Row = filter (has_id id) rows in
      let next : Free id (some row) = rw f at (first_pending-Free id rows busy) in
      let away : has_id id row ≡ false = not_both id row next.0 next.1 in
      let idle : Worker = record {
        queue = rows;
        awaiting = none;
        running = true;
        stopping = false;
      } in
      let taken : IsStranded id held (record idle { queue = claim_row (some row) rows }) =
        written-IsStranded id held true row.id (set_status in_progress) idle away (λ q. refl)
          (record { same = refl; busy = busy; other = tt }) in
      let sent : Awaited = record { row = row; ack_status = status; checks = 0 } in
      let first =
        awaits-IsStranded id held sent (record idle { queue = claim_row (some row) rows }) away
          taken in
      ticks_of-IsStranded id held cfg later _
        (rw (sends cfg m rows a row status c s v k p t ack ve f) first)
