-- ===== src/Convert/Attempts.antt =====
-- No file is sent to the convert service again once its attempts are used up, whatever the service,
-- the database and the shutdowns do.
use repo_backend_v.Base.Table.{update_where}
use repo_backend_v.Base.{
  ℕ, Bool, true, false, ◌≡◌, refl, ◌⊎◌, inl, inr, Option, none, some, List, [], ◌∷◌, arith, leb,
  ◌+◌, not, ◌||◌, ◌==◌, nat_eq, if-both,
}
use repo_backend_v.Convert.Model.{
  Row, claim_row, first_pending, claim_one, mark_complete, mark_failed, release, reset_orphaned,
  has_id,
}
use repo_backend_v.Convert.Claims.{First, claim_one-First}
use repo_backend_v.Convert.Rows.{
  IsBounded, IsHeld, mark_complete-IsBounded, mark_failed-IsBounded, release-IsBounded,
  reset_orphaned-IsBounded, claim_row-IsBounded, claimed_other, IsHeld-update_where,
}
use repo_backend_v.Convert.Worker.{
  Config, Outcome, ok, empty, missing, unavailable, Posted, answered, failed_post, Moment, Awaited,
  Worker, Ticked, written, settled, missed, verify_awaiting, caught, or_caught, is_2xx, stop_asked,
  post_row, post_claimed, claim_and_post, after_verify, verify_then_claim, tick_once, start,
  release_awaiting, stop, Event, ticks, starts, stops, crashes, step, run,
}

module _ (cfg : Config) where
  abbrev pub Holds : List Row → Option Awaited → Type 0
  Holds rows none = Unit
  Holds rows (some a) = IsHeld cfg.max_attempts rows a.row

  -- Between `start` and `stop`: the table is bounded, and the awaited row is in progress.
  pub record IsLive (w : Worker) : Type 0 where
    pub bounded : IsBounded cfg.max_attempts w.queue
    pub held : Holds w.queue w.awaiting
    pub runs : w.running ≡ true

  settled-IsLive :
      (works : Bool) (f : List Row → List Row) (w : Worker)
      → IsBounded cfg.max_attempts (f w.queue)
      → IsLive w
      → IsLive (settled works f w).worker
  settled-IsLive true f w b l = record { bounded = b; held = tt; runs = l.runs }
  settled-IsLive false f w b l = record { bounded = l.bounded; held = tt; runs = l.runs }

  missed-IsLive :
      (works : Bool) (http : Option ℕ) (a : Awaited) (w : Worker)
      → IsHeld cfg.max_attempts w.queue a.row
      → IsLive w
      → IsLive (missed cfg works http a w).worker
  unfolding missed
  missed-IsLive works http a w h l =
      if-both {A = Ticked} (λ t. IsLive t.worker) (leb cfg.verify_max_checks (a.checks + 1))
        (λ e.
          settled-IsLive works _ w
            (mark_failed-IsBounded cfg.max_attempts a.row http w.queue h.0 l.bounded) l)
        (λ e. record { bounded = l.bounded; held = h; runs = l.runs })

  verify_awaiting-IsLive :
      (verdict : Option Outcome) (works : Bool) (a : Awaited) (w : Worker)
      → IsHeld cfg.max_attempts w.queue a.row
      → IsLive w
      → IsLive (verify_awaiting cfg verdict works a w).worker
  unfolding verify_awaiting
  verify_awaiting-IsLive none works a w h l = missed-IsLive works none a w h l
  verify_awaiting-IsLive (some missing) works a w h l = missed-IsLive works _ a w h l
  verify_awaiting-IsLive (some ok) works a w h l =
      settled-IsLive works _ w (mark_complete-IsBounded cfg.max_attempts _ _ w.queue l.bounded) l
  verify_awaiting-IsLive (some unavailable) works a w h l =
      settled-IsLive works _ w (mark_complete-IsBounded cfg.max_attempts _ _ w.queue l.bounded) l
  verify_awaiting-IsLive (some empty) works a w h l =
      settled-IsLive works _ w
        (mark_failed-IsBounded cfg.max_attempts a.row _ w.queue h.0 l.bounded) l

  stop_asked-IsLive : (b : Bool) (w : Worker) → IsLive w → IsLive (stop_asked b w)
  stop_asked-IsLive true w l = record { bounded = l.bounded; held = l.held; runs = l.runs }
  stop_asked-IsLive false w l = l

  -- A row in hand: held, and another one than the awaited row.
  record InHand (row : Row) (w : Worker) : Type 0 where
    mine : IsHeld cfg.max_attempts w.queue row
    other : (a : Awaited) → w.awaiting ≡ some a → (row.id == a.row.id) ≡ false

  Holds-update_where :
      (id : ℕ) (o : Option Awaited) (f : Row → Row) (rows : List Row)
      → ((a : Awaited) → o ≡ some a → (id == a.row.id) ≡ false)
      → ((r : Row) → (f r).id ≡ r.id)
      → Holds rows o
      → Holds (update_where (has_id id) f rows) o
  Holds-update_where id none f rows other same h = tt
  Holds-update_where id (some a) f rows other same h =
      IsHeld-update_where cfg.max_attempts id a.row f rows (other a refl) same h

  -- A write to the row in hand.
  written-IsLive :
      (works : Bool) (row : Row) (f : Row → Row) (w : Worker)
      → InHand row w
      → ((r : Row) → (f r).id ≡ r.id)
      → IsBounded cfg.max_attempts (update_where (has_id row.id) f w.queue)
      → IsLive w
      → IsLive (written works (update_where (has_id row.id) f) w)
  written-IsLive true row f w i same b l = record {
    bounded = b;
    held = Holds-update_where row.id w.awaiting f w.queue i.other same l.held;
    runs = l.runs;
  }
  written-IsLive false row f w i same b l = l

  module _ (row : Row) (w : Worker) (i : InHand row w) (l : IsLive w) where
    failed_in_hand :
        (works : Bool) (http : Option ℕ)
        → IsLive (written works (mark_failed cfg.max_attempts row http) w)
    unfolding mark_failed
    failed_in_hand works http =
        written-IsLive works row _ w i (λ r. refl)
          (unfold mark_failed in
            mark_failed-IsBounded cfg.max_attempts row http w.queue i.mine.0 l.bounded)
          l

    completed_in_hand :
        (works : Bool) (http : Option ℕ) → IsLive (written works (mark_complete row.id http) w)
    unfolding mark_complete
    completed_in_hand works http =
        written-IsLive works row _ w i (λ r. refl)
          (unfold mark_complete in
            mark_complete-IsBounded cfg.max_attempts row.id http w.queue l.bounded)
          l

    released_in_hand : (works : Bool) → IsLive (written works (release row.id) w)
    unfolding release
    released_in_hand works =
        written-IsLive works row _ w i (λ r. refl)
          (unfold release in release-IsBounded cfg.max_attempts row w.queue i.mine l.bounded) l

    caught-IsLive : (m : Moment) → IsLive (caught cfg m row w)
    unfolding caught
    caught-IsLive m =
        if-both IsLive m.stops_in_post (λ e. released_in_hand m.catch_write)
          (λ e. failed_in_hand m.catch_write none)

    or_caught-IsLive :
        (m : Moment) (f : List Row → List Row)
        → IsLive (written true f w)
        → IsLive (or_caught cfg m row f w)
    or_caught-IsLive m f good = if-both IsLive m.post_write (λ e. good) (λ e. caught-IsLive m)

    post_row-IsLive : (m : Moment) (p : Posted) → IsLive (post_row cfg m p row w)
    unfolding post_row
    post_row-IsLive m failed_post = caught-IsLive m
    post_row-IsLive m (answered status) =
        if-both IsLive (is_2xx status)
          (λ e.
            if-both IsLive cfg.verify_enabled
              (λ v. record { bounded = l.bounded; held = i.mine; runs = l.runs })
              (λ v.
                or_caught-IsLive m (mark_complete row.id (some status))
                  (completed_in_hand true (some status))))
          (λ e.
            or_caught-IsLive m (mark_failed cfg.max_attempts row (some status))
              (failed_in_hand true (some status)))

  post_claimed-IsLive :
      (m : Moment) (did_verify : Bool) (o : Option Row) (w : Worker)
      → First o w.queue
      → IsLive w
      → IsLive (post_claimed cfg m did_verify (o, claim_row o w.queue) w).worker
  post_claimed-IsLive m did_verify none w first l = l
  post_claimed-IsLive m did_verify (some row) w first l =
      let (b, mine) = claim_row-IsBounded cfg.max_attempts row w.queue first l.bounded in
      let other : (a : Awaited) → w.awaiting ≡ some a → (row.id == a.row.id) ≡ false =
        λ a e. claimed_other cfg.max_attempts row a.row w.queue first (rw e at l.held) in
      let w' = record w { queue = claim_row (some row) w.queue } in
      let l' : IsLive w' = record {
        bounded = b;
        held = Holds-update_where row.id w.awaiting _ w.queue other (λ r. refl) l.held;
        runs = l.runs;
      } in
      stop_asked-IsLive m.stops_in_post _
        (post_row-IsLive row w' (record { mine = mine; other = other }) l' m m.posted)

  claim_and_post-IsLive :
      (m : Moment) (did_verify : Bool) (w : Worker)
      → IsLive w
      → IsLive (claim_and_post cfg m did_verify w).worker
  unfolding claim_and_post claim_one
  claim_and_post-IsLive m did_verify w l =
      if-both {A = Ticked} (λ t. IsLive t.worker) m.claims
        (λ e.
          post_claimed-IsLive m did_verify (first_pending w.queue) w (claim_one-First w.queue) l)
        (λ e. l)

  after_verify-IsLive :
      (m : Moment) (o : Option Bool) (w : Worker)
      → IsLive w
      → IsLive (after_verify cfg m o w).worker
  after_verify-IsLive m none w l = l
  after_verify-IsLive m (some worked) w l =
      if-both {A = Ticked} (λ t. IsLive t.worker) w.stopping (λ e. l)
        (λ e. claim_and_post-IsLive m true w l)

  verify_then_claim-IsLive :
      (m : Moment) (o : Option Awaited) (w : Worker)
      → Holds w.queue o
      → IsLive w
      → IsLive (verify_then_claim cfg m o w).worker
  verify_then_claim-IsLive m none w h l = claim_and_post-IsLive m false w l
  verify_then_claim-IsLive m (some a) w h l = after_verify-IsLive m _ _ (
      stop_asked-IsLive m.stops_in_verify _
        (verify_awaiting-IsLive m.verdict m.verify_write a w (h) l))

  tick_once-IsLive : (m : Moment) (w : Worker) → IsLive w → IsLive (tick_once cfg m w).worker
  unfolding tick_once
  tick_once-IsLive m w l =
      if-both {A = Ticked} (λ t. IsLive t.worker) (w.stopping || not m.configured) (λ e. l)
        (λ e. verify_then_claim-IsLive m w.awaiting w l.held l)

  -- The queue is bounded, and the worker awaits nothing unless it is live.
  abbrev pub IsFit : Worker → Type 0
  IsFit w = IsBounded cfg.max_attempts w.queue × ((w.awaiting ≡ none) ⊎ IsLive w)

  Holds_none : (rows : List Row) (o : Option Awaited) → o ≡ none → Holds rows o
  Holds_none rows o e = rw e tt

  written_reset :
      (works : Bool) (w : Worker)
      → IsBounded cfg.max_attempts w.queue
      → IsBounded cfg.max_attempts (written works (λ rows. (reset_orphaned rows).1) w).queue
  written_reset true w b = reset_orphaned-IsBounded cfg.max_attempts w.queue b
  written_reset false w b = b

  written-awaiting :
      (works : Bool) (f : List Row → List Row) (w : Worker)
      → (written works f w).awaiting ≡ w.awaiting
  written-awaiting true f w = refl
  written-awaiting false f w = refl

  start-IsFit :
      (enabled configured works : Bool) (w : Worker)
      → IsFit w
      → IsFit (start enabled configured works w)
  unfolding start
  start-IsFit enabled configured works w (b, o) =
      if-both (λ v. IsBounded cfg.max_attempts v.queue × ((v.awaiting ≡ none) ⊎ IsLive v))
        (w.running || not enabled || not configured) (λ e. (b, o))
        (λ e. elim o [
          | inl free ↦ (
            written_reset works _ b,
            inl (
                rw
                  (written-awaiting works (λ rows. (reset_orphaned rows).1)
                    (record w { running = true; stopping = false }))
                  free),
          )
          | inr l ↦ ground (arith, l.runs)
        ])

  release_awaiting-IsBounded :
      (works : Bool) (o : Option Awaited) (w : Worker)
      → w.awaiting ≡ o
      → Holds w.queue o
      → IsBounded cfg.max_attempts w.queue
      → IsBounded cfg.max_attempts (release_awaiting works o w).queue
        × ((release_awaiting works o w).awaiting ≡ none)
  release_awaiting-IsBounded works none w e h b = (b, e)
  release_awaiting-IsBounded true (some a) w e h b =
      (release-IsBounded cfg.max_attempts a.row w.queue h b, refl)
  release_awaiting-IsBounded false (some a) w e h b = (b, refl)

  held_of : (w : Worker) → IsFit w → Holds w.queue w.awaiting
  held_of w (b, inl free) = Holds_none w.queue w.awaiting free
  held_of w (b, inr l) = l.held

  tick-IsFit :
      (m : Moment) (w : Worker) → w.running ≡ true → IsFit w → IsFit (tick_once cfg m w).worker
  tick-IsFit m w runs h =
      let l = tick_once-IsLive m w (record { bounded = h.0; held = held_of w h; runs = runs }) in
      (l.bounded, inr l)

  stop-IsFit : (works : Bool) (w : Worker) → IsFit w → IsFit (stop works w)
  unfolding stop
  stop-IsFit works w (b, o) =
      if-both (λ v. IsBounded cfg.max_attempts v.queue × ((v.awaiting ≡ none) ⊎ IsLive v))
        (not w.running) (λ e. (b, o))
        (λ e.
          let (b', free) =
            release_awaiting-IsBounded works w.awaiting w refl (held_of w (b, o)) b in
          (b', inl free))

  step-IsFit : (e : Event) (w : Worker) → IsFit w → IsFit (step cfg e w)
  unfolding step
  step-IsFit (ticks m) w h = if-both IsFit w.running (λ e. tick-IsFit m w e h) (λ e. h)
  step-IsFit (starts enabled configured works) w h = start-IsFit enabled configured works w h
  step-IsFit (stops works) w h = stop-IsFit works w h
  step-IsFit crashes w h = (h.0, inl refl)

  -- A queue of distinct ids whose rows keep to their attempts stays one through every sequence of ticks,
  -- starts, stops and crashes: no row that is pending or in progress has used up its attempts, and a
  -- failed row has used exactly the attempts allowed. The worker is fit to begin with: it awaits
  -- nothing.
  pub run-IsFit : (es : List Event) (w : Worker) → IsFit w → IsFit (run cfg es w)
  unfolding run
  run-IsFit [] w h = h
  run-IsFit (e ∷ es) w h = run-IsFit es (step cfg e w) (step-IsFit e w h)
