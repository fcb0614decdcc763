-- ===== src/Convert/Awaiting.antt =====
-- Which rows the convert worker leaves in progress: those it still has to verify, unless a check that
-- gave no verdict lets it take the next row.
use repo_backend_v.Base.{
  ℕ, ◌+◌, Bool, true, false, not, ◌||◌, ◌≡◌, refl, Option, none, some, List, leb, nat_eq, All,
  if-both,
}
use repo_backend_v.Base.Table.{update_where, All-update_where}
use repo_backend_v.Convert.Model.{
  Row, is_in_progress, has_id, claim_row, first_pending, claim_one, mark_complete, failed_status,
  mark_failed, release, set_status, in_progress, pending,
}
use repo_backend_v.Convert.Worker.{
  Config, Outcome, ok, empty, missing, unavailable, Posted, answered, failed_post, Moment, Awaited,
  Worker, Ticked, written, missed, verify_awaiting, caught, or_caught, is_2xx, stop_asked, post_row,
  post_claimed, claim_and_post, after_verify, verify_then_claim, tick_once, release_awaiting, stop,
}

-- The only rows in progress carry the id, if there is one.
abbrev pub expected : Option ℕ → Row → Bool
expected none q = false
expected (some id) q = has_id id q

abbrev pub Only : Option ℕ → List Row → Type 0
Only o rows = All (λ q. is_in_progress q.status ≡ true → expected o q ≡ true) rows

abbrev pub awaited_id : Option Awaited → Option ℕ
awaited_id none = none
awaited_id (some a) = some a.row.id

-- Every row in progress is the one that the worker awaits.
abbrev pub IsTidy : Worker → Type 0
IsTidy w = Only (awaited_id w.awaiting) w.queue

abbrev decides : Option Outcome → Bool
decides none = false
decides (some missing) = false
decides (some ok) = true
decides (some empty) = true
decides (some unavailable) = true

-- The tick's check gives a verdict, or is the last one allowed.
abbrev pub settles : Config → Moment → Option Awaited → Bool
settles cfg m none = true
settles cfg m (some a) = decides m.verdict || leb cfg.verify_max_checks (a.checks + 1)

-- Ending the row in progress leaves none.
Only-ended :
    (id : ℕ) (f : Row → Row) (rows : List Row)
    → ((q : Row) → is_in_progress (f q).status ≡ false)
    → Only (some id) rows
    → Only none (update_where (has_id id) f rows)
Only-ended id f rows ended h =
    All-update_where (λ q. is_in_progress q.status ≡ true → has_id id q ≡ true) _ (has_id id) f
      (λ q w e k. cc (ended q, k)) (λ q w e k. cc (w k, e)) rows h

Only-claimed :
    (row : Row) (rows : List Row) → Only none rows → Only (some row.id) (claim_row (some row) rows)
Only-claimed row rows h =
    All-update_where (λ q. is_in_progress q.status ≡ true → false ≡ true) _ (has_id row.id)
      (set_status in_progress) (λ q w e k. e) (λ q w e k. cc (w k)) rows h

failed_status_ended : (max n : ℕ) → is_in_progress (failed_status max n) ≡ false
unfolding failed_status
failed_status_ended max n =
    if-both (λ s. is_in_progress s ≡ false) (leb max n) (λ e. refl) (λ e. refl)

mark_failed-Only :
    (max : ℕ) (row : Row) (http : Option ℕ) (rows : List Row)
    → Only (some row.id) rows
    → Only none (mark_failed max row http rows)
unfolding mark_failed
mark_failed-Only max row http rows h =
    Only-ended row.id _ rows (λ q. failed_status_ended max (row.attempts + 1)) h

mark_complete-Only :
    (id : ℕ) (http : Option ℕ) (rows : List Row)
    → Only (some id) rows
    → Only none (mark_complete id http rows)
unfolding mark_complete
mark_complete-Only id http rows h = Only-ended id _ rows (λ q. refl) h

release-Only : (id : ℕ) (rows : List Row) → Only (some id) rows → Only none (release id rows)
unfolding release
release-Only id rows h = Only-ended id (set_status pending) rows (λ q. refl) h

-- The worker awaits nothing and nothing is in progress.
record IsClear (w : Worker) : Type 0 where
  free : w.awaiting ≡ none
  rows : Only none w.queue

module _ (cfg : Config) where
  missed-IsClear :
      (http : Option ℕ) (a : Awaited) (w : Worker)
      → leb cfg.verify_max_checks (a.checks + 1) ≡ true
      → Only (some a.row.id) w.queue
      → IsClear (missed cfg true http a w).worker
  unfolding missed
  missed-IsClear http a w e h =
      if-both {A = Ticked} (λ t. IsClear t.worker) (leb cfg.verify_max_checks (a.checks + 1))
        (λ k. record { free = refl; rows = mark_failed-Only _ a.row http w.queue h })
        (λ k. cc (e, k))

  verify_awaiting-IsClear :
      (verdict : Option Outcome) (a : Awaited) (w : Worker)
      → (decides verdict || leb cfg.verify_max_checks (a.checks + 1)) ≡ true
      → Only (some a.row.id) w.queue
      → IsClear (verify_awaiting cfg verdict true a w).worker
  unfolding verify_awaiting
  verify_awaiting-IsClear none a w e h = missed-IsClear none a w e h
  verify_awaiting-IsClear (some missing) a w e h = missed-IsClear _ a w e h
  verify_awaiting-IsClear (some ok) a w e h = record {
    free = refl;
    rows = mark_complete-Only _ _ w.queue h;
  }
  verify_awaiting-IsClear (some unavailable) a w e h = record {
    free = refl;
    rows = mark_complete-Only _ _ w.queue h;
  }
  verify_awaiting-IsClear (some empty) a w e h = record {
    free = refl;
    rows = mark_failed-Only _ a.row _ w.queue h;
  }

  module _ (m : Moment) (caught_write : m.catch_write ≡ true) (row : Row) (w : Worker)
      (free : w.awaiting ≡ none) (h : Only (some row.id) w.queue) where
    written-IsTidy : (f : List Row → List Row) → Only none (f w.queue) → IsTidy (written true f w)
    written-IsTidy f k = rw free k

    caught-IsTidy : IsTidy (caught cfg m row w)
    unfolding caught
    caught-IsTidy =
        if-both IsTidy m.stops_in_post
          (λ e. simp caught_write (written-IsTidy (release row.id) (release-Only row.id w.queue h)))
          (λ e. simp caught_write (
            written-IsTidy (mark_failed cfg.max_attempts row none)
              (mark_failed-Only _ row none w.queue h)))

    or_caught-IsTidy :
        (f : List Row → List Row) → Only none (f w.queue) → IsTidy (or_caught cfg m row f w)
    or_caught-IsTidy f k =
        if-both IsTidy m.post_write (λ e. written-IsTidy f k) (λ e. caught-IsTidy)

    post_row-IsTidy : (p : Posted) → IsTidy (post_row cfg m p row w)
    unfolding post_row
    post_row-IsTidy failed_post = caught-IsTidy
    post_row-IsTidy (answered status) =
        if-both IsTidy (is_2xx status)
          (λ e.
            if-both IsTidy cfg.verify_enabled (λ v. h)
              (λ v.
                or_caught-IsTidy (mark_complete row.id (some status))
                  (mark_complete-Only row.id _ w.queue h)))
          (λ e.
            or_caught-IsTidy (mark_failed cfg.max_attempts row (some status))
              (mark_failed-Only _ row _ w.queue h))

  stop_asked-IsTidy : (b : Bool) (w : Worker) → IsTidy w → IsTidy (stop_asked b w)
  stop_asked-IsTidy true w h = h
  stop_asked-IsTidy false w h = h

  IsClear-IsTidy : (w : Worker) → IsClear w → IsTidy w
  IsClear-IsTidy w c = rw c.free c.rows

  module _ (m : Moment) (caught_write : m.catch_write ≡ true) where
    post_claimed-IsTidy :
        (did_verify : Bool) (o : Option Row) (w : Worker)
        → IsClear w
        → IsTidy (post_claimed cfg m did_verify (o, claim_row o w.queue) w).worker
    post_claimed-IsTidy did_verify none w c = IsClear-IsTidy w c
    post_claimed-IsTidy did_verify (some row) w c = stop_asked-IsTidy m.stops_in_post _ (
        post_row-IsTidy m caught_write row (record w { queue = claim_row (some row) w.queue })
          c.free (Only-claimed row w.queue c.rows) m.posted)

    claim_and_post-IsTidy :
        (did_verify : Bool) (w : Worker)
        → IsClear w
        → IsTidy (claim_and_post cfg m did_verify w).worker
    unfolding claim_and_post claim_one
    claim_and_post-IsTidy did_verify w c =
        if-both {A = Ticked} (λ t. IsTidy t.worker) m.claims
          (λ e. post_claimed-IsTidy did_verify (first_pending w.queue) w c)
          (λ e. IsClear-IsTidy w c)

    after_verify-IsTidy :
        (o : Option Bool) (w : Worker) → IsClear w → IsTidy (after_verify cfg m o w).worker
    after_verify-IsTidy none w c = IsClear-IsTidy w c
    after_verify-IsTidy (some worked) w c =
        if-both {A = Ticked} (λ t. IsTidy t.worker) w.stopping (λ e. IsClear-IsTidy w c)
          (λ e. claim_and_post-IsTidy true w c)

    stop_asked-IsClear : (b : Bool) (w : Worker) → IsClear w → IsClear (stop_asked b w)
    stop_asked-IsClear true w c = record { free = c.free; rows = c.rows }
    stop_asked-IsClear false w c = c

    verify_then_claim-IsTidy :
        (o : Option Awaited) (w : Worker)
        → m.verify_write ≡ true
        → settles cfg m o ≡ true
        → w.awaiting ≡ o
        → Only (awaited_id o) w.queue
        → IsTidy (verify_then_claim cfg m o w).worker
    verify_then_claim-IsTidy none w works e free h =
        claim_and_post-IsTidy false w (record { free = free; rows = h })
    verify_then_claim-IsTidy (some a) w works e held h = after_verify-IsTidy _ _ (
        stop_asked-IsClear m.stops_in_verify _
          (simp works (verify_awaiting-IsClear m.verdict a w e h)))

  -- After a tick the only row in progress is the one that the worker awaits, as before it, where the
  -- check of the awaited row gives a verdict or is the last one allowed, and the writes that settle a
  -- row reach the database.
  pub tick_once-IsTidy :
      (m : Moment) (w : Worker)
      → m.verify_write ≡ true
      → m.catch_write ≡ true
      → settles cfg m w.awaiting ≡ true
      → IsTidy w
      → IsTidy (tick_once cfg m w).worker
  unfolding tick_once
  tick_once-IsTidy m w verified caught_write e h =
      if-both {A = Ticked} (λ t. IsTidy t.worker) (w.stopping || not m.configured) (λ k. h)
        (λ k. verify_then_claim-IsTidy m caught_write w.awaiting w verified e refl h)

  release_awaiting-Only :
      (o : Option Awaited) (w : Worker)
      → Only (awaited_id o) w.queue
      → Only none (release_awaiting true o w).queue
  release_awaiting-Only none w h = h
  release_awaiting-Only (some a) w h = release-Only a.row.id w.queue h

  -- `stop` leaves no row in progress, where the only one was the awaited row and its release reaches the
  -- database.
  pub stop-released : (w : Worker) → w.running ≡ true → IsTidy w → Only none (stop true w).queue
  unfolding stop
  stop-released w e h =
      if-both {A = Worker} (λ v. Only none v.queue) (not w.running) (λ k. cc (e, k))
        (λ k. release_awaiting-Only w.awaiting w h)

  undecided :
      (verdict : Option Outcome) (works : Bool) (a : Awaited) (w : Worker)
      → (decides verdict || leb cfg.verify_max_checks (a.checks + 1)) ≡ false
      → verify_awaiting cfg verdict works a w ≡ record {
        worker = record w { awaiting = some (record a { checks = a.checks + 1 }) };
        did_work = some true;
      }
  unfolding verify_awaiting missed
  undecided none works a w e = simp e refl
  undecided (some missing) works a w e = simp e refl
  undecided (some ok) works a w e = cc e
  undecided (some empty) works a w e = cc e
  undecided (some unavailable) works a w e = cc e

  post_row-acked :
      (m : Moment) (p : Posted) (status : ℕ) (row : Row) (w : Worker)
      → p ≡ answered status
      → is_2xx status ≡ true
      → cfg.verify_enabled ≡ true
      → post_row cfg m p row w
        ≡ record w { awaiting = some (record { row = row; ack_status = status; checks = 0 }) }
  unfolding post_row
  post_row-acked m p status row w e acked verifies = simp (e, acked, verifies) refl

  -- The tick that sends the next row though its check gave no verdict.
  pub sends :
      (m : Moment) (rows : List Row) (a : Awaited) (row : Row) (status : ℕ)
      → m.configured ≡ true
      → settles cfg m (some a) ≡ false
      → m.stops_in_verify ≡ false
      → m.claims ≡ true
      → m.posted ≡ answered status
      → m.stops_in_post ≡ false
      → is_2xx status ≡ true
      → cfg.verify_enabled ≡ true
      → first_pending rows ≡ some row
      → (tick_once cfg m
          (record { queue = rows; awaiting = some a; running = true; stopping = false })).worker
        ≡ record {
          queue = claim_row (some row) rows;
          awaiting = some (record { row = row; ack_status = status; checks = 0 });
          running = true;
          stopping = false;
        }
  unfolding tick_once claim_and_post claim_one
  sends m rows a row status c s v k p t ack ve f =
      simp
        (
          c,
          v,
          k,
          t,
          f,
          undecided m.verdict m.verify_write a _ s,
          post_row-acked m m.posted status row _ p ack ve,
        )
        refl
