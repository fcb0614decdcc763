-- ===== src/Convert/Worker.antt =====
-- convert/worker.js: the serial worker, one row a tick, and the check of the conversion before. What
-- the convert service answers, which database writes fail and when `stop` is called is each tick's input.
use repo_backend_v.Base.{
  ℕ, ◌+◌, Bool, true, false, not, ◌&&◌, Option, none, some, List, ltb, leb, if◌then◌else◌, ◌||◌, [],
  ◌∷◌,
}
use repo_backend_v.Convert.Model.{
  Row, claim_one, mark_complete, mark_failed, release, reset_orphaned,
}

pub record Config : Type 0 where
  pub max_attempts : ℕ
  pub verify_max_checks : ℕ
  pub verify_enabled : Bool
  pub delay_ms : ℕ
  pub idle_poll_ms : ℕ

-- The outcomes of `verify_image`.
pub data Outcome : Type 0 where
  ok : Outcome
  empty : Outcome
  missing : Outcome
  unavailable : Outcome

-- The POST of a row: the service's status, or no answer.
pub data Posted : Type 0 where
  answered : (status : ℕ) → Posted
  failed_post : Posted

-- `verdict` is none when the check threw; a write that fails throws and changes nothing.
pub record Moment : Type 0 where
  pub configured : Bool
  pub verdict : Option Outcome
  pub verify_write : Bool
  pub stops_in_verify : Bool
  pub claims : Bool
  pub posted : Posted
  pub stops_in_post : Bool
  pub post_write : Bool
  pub catch_write : Bool

pub record Awaited : Type 0 where
  pub row : Row
  pub ack_status : ℕ
  pub checks : ℕ

pub record Worker : Type 0 where
  pub queue : List Row
  pub awaiting : Option Awaited
  pub running : Bool
  pub stopping : Bool

-- What a tick answers: whether it worked, or that it threw.
pub record Ticked : Type 0 where
  pub worker : Worker
  pub did_work : Option Bool

abbrev pub written : Bool → (List Row → List Row) → Worker → Worker
written true f w = record w { queue = f w.queue }
written false f w = w

abbrev pub threw_unless : Bool → Option Bool → Option Bool
threw_unless true o = o
threw_unless false o = none

abbrev pub settled : Bool → (List Row → List Row) → Worker → Ticked
settled works f w = record {
  worker = written works f (record w { awaiting = none });
  did_work = threw_unless works (some true);
}

-- A check that gives no verdict: count it, or give the attempt up.
unfoldable pub missed : Config → Bool → Option ℕ → Awaited → Worker → Ticked
missed cfg works http a w =
    let again = record a { checks = a.checks + 1 } in
    if leb cfg.verify_max_checks (a.checks + 1)
    then settled works (mark_failed cfg.max_attempts a.row http) w
    else record { worker = record w { awaiting = some again }; did_work = some true }

unfoldable pub verify_awaiting : Config → Option Outcome → Bool → Awaited → Worker → Ticked
unfolding missed
verify_awaiting cfg none works a w = missed cfg works none a w
verify_awaiting cfg (some missing) works a w = missed cfg works (some a.ack_status) a w
verify_awaiting cfg (some ok) works a w =
    settled works (mark_complete a.row.id (some a.ack_status)) w
verify_awaiting cfg (some unavailable) works a w =
    settled works (mark_complete a.row.id (some a.ack_status)) w
verify_awaiting cfg (some empty) works a w =
    settled works (mark_failed cfg.max_attempts a.row (some a.ack_status)) w

-- The catch of the POST: release on a shutdown, else a spent attempt. Its own write may fail unseen.
unfoldable pub caught : Config → Moment → Row → Worker → Worker
caught cfg m row w =
    if m.stops_in_post
    then written m.catch_write (release row.id) w
    else written m.catch_write (mark_failed cfg.max_attempts row none) w

abbrev pub or_caught : Config → Moment → Row → (List Row → List Row) → Worker → Worker
or_caught cfg m row f w = if m.post_write then written true f w else caught cfg m row w

abbrev pub is_2xx : ℕ → Bool
is_2xx status = leb 200 status && ltb status 300

abbrev pub stop_asked : Bool → Worker → Worker
stop_asked b w = if b then record w { stopping = true } else w

-- A claimed row is POSTed.
unfoldable pub post_row : Config → Moment → Posted → Row → Worker → Worker
unfolding caught
post_row cfg m failed_post row w = caught cfg m row w
post_row cfg m (answered status) row w =
    if is_2xx status
    then if cfg.verify_enabled
      then record w { awaiting = some (record { row = row; ack_status = status; checks = 0 }) }
      else or_caught cfg m row (mark_complete row.id (some status)) w
    else or_caught cfg m row (mark_failed cfg.max_attempts row (some status)) w

-- The claim's row, none when the queue has no pending row.
abbrev pub post_claimed : Config → Moment → Bool → Option Row × List Row → Worker → Ticked
post_claimed cfg m did_verify (none, queue) w = record { worker = w; did_work = some did_verify }
post_claimed cfg m did_verify (some row, queue) w = record {
  worker = stop_asked m.stops_in_post (post_row cfg m m.posted row (record w { queue = queue }));
  did_work = some true;
}

unfoldable pub claim_and_post : Config → Moment → Bool → Worker → Ticked
unfolding post_row
claim_and_post cfg m did_verify w =
    if m.claims
    then post_claimed cfg m did_verify (claim_one w.queue) w
    else record { worker = w; did_work = some did_verify }

abbrev pub after_verify : Config → Moment → Option Bool → Worker → Ticked
after_verify cfg m none w = record { worker = w; did_work = none }
after_verify cfg m (some worked) w =
    if w.stopping then record { worker = w; did_work = some true } else claim_and_post cfg m true w

abbrev pub verify_then_claim : Config → Moment → Option Awaited → Worker → Ticked
verify_then_claim cfg m none w = claim_and_post cfg m false w
verify_then_claim cfg m (some a) w =
    let t = verify_awaiting cfg m.verdict m.verify_write a w in
    after_verify cfg m t.did_work (stop_asked m.stops_in_verify t.worker)

unfoldable pub tick_once : Config → Moment → Worker → Ticked
unfolding verify_awaiting claim_and_post
tick_once cfg m w =
    if w.stopping || not m.configured
    then record { worker = w; did_work = some false }
    else verify_then_claim cfg m w.awaiting w

-- The wait before the next tick; a tick that threw did no work.
abbrev pub next_wait : Config → Option Bool → ℕ
next_wait cfg (some true) = cfg.delay_ms
next_wait cfg (some false) = cfg.idle_poll_ms
next_wait cfg none = cfg.idle_poll_ms

-- `start`, where the write of the reset may fail.
unfoldable pub start : Bool → Bool → Bool → Worker → Worker
start enabled configured works w =
    if w.running || not enabled || not configured
    then w
    else written works (λ rows. (reset_orphaned rows).1)
        (record w { running = true; stopping = false })

abbrev pub release_awaiting : Bool → Option Awaited → Worker → Worker
release_awaiting works none w = w
release_awaiting works (some a) w = written works (release a.row.id) (record w { awaiting = none })

-- `stop`, once the tick in flight has ended.
unfoldable pub stop : Bool → Worker → Worker
stop works w =
    if not w.running
    then w
    else record (release_awaiting works w.awaiting w) { running = false; stopping = true }

-- What happens to the worker. Ticks are scheduled only between `start` and `stop`; a crash forgets the
-- process's state and keeps the table.
pub data Event : Type 0 where
  ticks : (m : Moment) → Event
  starts : (enabled configured works : Bool) → Event
  stops : (works : Bool) → Event
  crashes : Event

unfoldable pub step : Config → Event → Worker → Worker
unfolding tick_once start stop
step cfg (ticks m) w = if w.running then (tick_once cfg m w).worker else w
step cfg (starts enabled configured works) w = start enabled configured works w
step cfg (stops works) w = stop works w
step cfg crashes w = record { queue = w.queue; awaiting = none; running = false; stopping = false }

unfoldable pub run : Config → List Event → Worker → Worker
unfolding step
run cfg [] w = w
run cfg (e ∷ es) w = run cfg es (step cfg e w)
