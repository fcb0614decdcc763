-- ===== src/Ingester/Stages/Steps.antt =====
-- What the stages of the pipeline share: a call of another service, the halt of the row, and the poll
-- of ingester/lib/polling.js with a check that writes.
use repo_backend_v.Base.{String, Option, none, some, List, [], ◌∷◌, string_eq}
use repo_backend_v.Ingester.Queue.Store.{Row, object, ok}
use repo_backend_v.Ingester.Queue.Update.{Patch, to_status, Opts, update_queue}
use repo_backend_v.Ingester.Queue.Select.{by_id}
use repo_backend_v.Ingester.Stages.Text.{text_or}
use repo_backend_v.Ingester.Stages.World.{World, S, ◌>>=◌, pure, catch, on_queue}

-- A call of another service: its answer, and the world when it comes.
abbrev pub Remote : Type 0 → Type 0
Remote A = World → A × World

abbrev pub answer_of : {A : Type 0} → A × World → S A
answer_of (a, w) _ = (ok a, w)

abbrev pub call : {A : Type 0} → Remote A → S A
call r w = answer_of (r w) w

abbrev pub by_stage : (stage step : String) → Opts
by_stage stage step = record {
  actor = "worker";
  event_type = "state_change";
  payload = some (object (("stage", stage) ∷ ("step", step) ∷ []));
}

abbrev pub write_row : Row → Patch → (stage step : String) → S (Unit {0})
write_row row data' stage step =
    on_queue (update_queue (by_id row.id) data' (by_stage stage step)) >>= λ _. pure tt

-- An update of progress: it sets no state, and its failure is only logged.
abbrev pub write_progress : Row → Patch → S (Unit {0})
write_progress row data' =
    catch
      (on_queue (
          update_queue (by_id row.id) data'
            (record { actor = "system"; event_type = "state_change"; payload = none }))
        >>= λ _. pure tt)
      λ _. pure tt

abbrev pub halted : String → String → Patch
halted state text = record (to_status state) { error = some (some text) }

-- `halt`: the payload's error, or else its reason.
unfoldable pub halt : Row → String → (stage reason error_text : String) → S (Unit {0})
halt row state stage reason error_text =
    write_row row (halted state (text_or error_text (text_or reason "halted"))) stage reason

-- How a poll ends.
pub data Polled (V : Type 0) : Type 0 where
  finished : (result : V) → Polled V
  timed_out : Polled V
  aborted : Polled V

-- Which of the two ends a poll that gets no result.
pub data Interrupt : Type 0 where
  deadline : Interrupt
  abort : Interrupt

abbrev pub interrupted : {V : Type 0} → Interrupt → Polled V
interrupted deadline = timed_out
interrupted abort = aborted

-- The turns of a poll, each a call and the check of its answer, over the check's own variables. A
-- check that gives no result, or whose call threw, is followed by the next turn.
module _ {L A V : Type 0} (check : L → A → S (L × Option V)) where
  abbrev pub turn_done : S (L × Polled V) → L × Option V → S (L × Polled V)
  turn_done next (l, some v) = pure (l, finished v)
  turn_done next (l, none) = next

  abbrev pub next_turn : (L → S (L × Polled V)) → L × Option V → S (L × Polled V)
  next_turn next (l, o) = turn_done (next l) (l, o)

  unfoldable pub poll : List (Remote A) → Interrupt → L → S (L × Polled V)
  poll [] last l = pure (l, interrupted last)
  poll (r ∷ rs) last l = call r >>= check l >>= next_turn (poll rs last)
