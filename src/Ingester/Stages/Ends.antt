-- ===== src/Ingester/Stages/Ends.antt =====
-- The rules for a whole stage of the pipeline: it changes only its row, only to its states, and where
-- it returns the row is in the state of what it returns.
use repo_backend_v.Base.{
  String, ◌≡◌, refl, Option, none, some, List, [], ◌∷◌, contains, string_eq, true,
}
use repo_backend_v.Ingester.Queue.Store.{Row, Error, Result, ok, err}
use repo_backend_v.Ingester.Queue.Update.{Patch, Opts, Updated, target_state, update_queue}
use repo_backend_v.Ingester.Queue.Select.{by_id}
use repo_backend_v.Ingester.Stages.Text.{text_or}
use repo_backend_v.Ingester.Stages.Frame.{Into, Framed, Framed-refl, Framed-trans}
use repo_backend_v.Ingester.Stages.Rules.{
  FramedTo, Safe, Safe-pure, Safe->>=, Safe-catch, Safe-update_queue, Settled, Settled-leave,
}
use repo_backend_v.Ingester.Stages.World.{World, S, ◌>>=◌, pure, catch, continue, handle, on_queue}
use repo_backend_v.Ingester.Stages.Steps.{
  Remote, call, by_stage, write_row, write_progress, halted, halt, Polled, Interrupt, interrupted,
  next_turn, poll,
}

module _ (row : Row) (states : List String) where
  abbrev pub Own : {A : Type 0} → S A → Type 0
  Own m = Safe row.id states m

  -- A call during which whatever else runs keeps to the stage's row and states.
  abbrev pub Apart : {A : Type 0} → Remote A → Type 0
  Apart r = (w : World) → Framed row.id states w.queue.rows (r w).1.queue.rows

  pub Own-pure : {A : Type 0} (a : A) → Own (pure a)
  Own-pure a = Safe-pure row.id states (ok a)

  pub Own-bind :
      {A B : Type 0} (m : S A) (k : A → S B) → Own m → ((a : A) → Own (k a)) → Own (m >>= k)
  Own-bind = Safe->>= row.id states

  pub Own-call : {A : Type 0} (r : Remote A) → Apart r → Own (call r)
  Own-call r h w = h w

  pub Own-write :
      (p : Patch) (stage step : String)
      → Into states (target_state p)
      → Own (write_row row p stage step)
  Own-write p stage step into =
      Own-bind (on_queue (update_queue (by_id row.id) p (by_stage stage step))) (λ _. pure tt)
        (Safe-update_queue row.id states p (by_stage stage step) into) (λ _. Own-pure tt)

  pub Own-progress : (p : Patch) → target_state p ≡ none → Own (write_progress row p)
  Own-progress p e =
      let opts : Opts = record { actor = "system"; event_type = "state_change"; payload = none } in
      Safe-catch row.id states (on_queue (update_queue (by_id row.id) p opts) >>= λ _. pure tt)
        (λ _. pure tt)
        (Own-bind (on_queue (update_queue (by_id row.id) p opts)) (λ _. pure tt)
          (Safe-update_queue row.id states p opts (rw e tt)) (λ _. Own-pure tt))
        (λ _. Own-pure tt)

  abbrev pub AllApart : {A : Type 0} → List (Remote A) → Type 0
  AllApart [] = Unit
  AllApart (r ∷ rs) = Apart r × AllApart rs

  module _ {L A V : Type 0} (check : L → A → S (L × Option V))
      (checks : (l : L) (a : A) → Own (check l a)) where
    Own-next :
        (next : L → S (L × Polled V))
        → ((l : L) → Own (next l))
        → (x : L × Option V) → Own (next_turn check next x)
    Own-next next h (l, some v) = Own-pure {A = L × Polled V} (l, Polled.finished v)
    Own-next next h (l, none) = h l

    pub Own-poll :
        (turns : List (Remote A)) (last : Interrupt)
        → AllApart turns
        → (l : L) → Own (poll check turns last l)
    unfolding poll
    Own-poll [] last h l = Own-pure {A = L × Polled V} (l, interrupted last)
    Own-poll (r ∷ rs) last (h, k) l =
        Own-bind (call r >>= check l) (next_turn check (poll check rs last))
          (Own-bind (call r) (check l) (Own-call r h) (checks l))
          (Own-next (poll check rs last) (Own-poll rs last k))

  module _ {A : Type 0} (exit : A → Option String) where
    abbrev pub Good : S A → Type 0
    Good m = (w : World) → FramedTo row.id states w (m w) × Settled row.id exit (m w)

    continue-Good :
        {B : Type 0} (k : B → S A)
        → ((b : B) → Good (k b))
        → (w : World) (x : Result B × World) → FramedTo row.id states w x
        → FramedTo row.id states w (continue k x) × Settled row.id exit (continue k x)
    continue-Good k h w (ok b, v) f =
        (Framed-trans row.id states w.queue.rows v.queue.rows _ f (h b v).0, (h b v).1)
    continue-Good k h w (err e, v) f = (f, tt)

    pub Good-bind :
        {B : Type 0} (m : S B) (k : B → S A) → Own m → ((b : B) → Good (k b)) → Good (m >>= k)
    Good-bind m k own h w = continue-Good k h w (m w) (own w)

    handle-Good :
        (h : Error → S A)
        → ((e : Error) → Good (h e))
        → (w : World) (x : Result A × World) → FramedTo row.id states w x × Settled row.id exit x
        → FramedTo row.id states w (handle h x) × Settled row.id exit (handle h x)
    handle-Good h good w (ok a, v) f = f
    handle-Good h good w (err e, v) (f, s) =
        (Framed-trans row.id states w.queue.rows v.queue.rows _ f (good e v).0, (good e v).1)

    pub Good-catch :
        (m : S A) (h : Error → S A) → Good m → ((e : Error) → Good (h e)) → Good (catch m h)
    Good-catch m h good other w = handle-Good h other w (m w) (good w)

    -- A return that stands for no state.
    pub Good-pure : (a : A) → exit a ≡ none → Good (pure a)
    Good-pure a e w = (Framed-refl row.id states w.queue.rows, rw e tt)

    twice :
        (a : A) (x : Result Updated × World)
        → continue (λ _. pure a) (continue (λ _. pure tt) x) ≡ continue (λ _. pure a) x
    twice a (ok u, w) = refl
    twice a (err e, w) = refl

    -- The last write of a stage and its return.
    pub Good-leave :
        (p : Patch) (stage step state : String) (a : A)
        → target_state p ≡ some state
        → contains states state ≡ true
        → exit a ≡ some state
        → Good (write_row row p stage step >>= λ _. pure a)
    Good-leave p stage step state a to own e w = (
      Own-bind (write_row row p stage step) (λ _. pure a) (Own-write p stage step (rw to own))
          (λ _. Own-pure a) w,
      rw (twice a (on_queue (update_queue (by_id row.id) p (by_stage stage step)) w))
          (Settled-leave row.id exit p (by_stage stage step) state a to e w),
    )

    pub Good-halt :
        (stage state reason text : String) (a : A)
        → contains states state ≡ true
        → exit a ≡ some state
        → Good (halt row state stage reason text >>= λ _. pure a)
    unfolding halt
    Good-halt stage state reason text a own e =
        Good-leave (halted state (text_or text (text_or reason "halted"))) stage reason state a refl
          own e
