-- ===== src/Ingester/Stages/Says.antt =====
-- The rules that say what the return of a stage tells of the answers that its calls got.
use repo_backend_v.Base.{◌≡◌, refl, ◌⊎◌, inl, inr, Option, none, some, List, [], ◌∷◌}
use repo_backend_v.Ingester.Queue.Store.{Error, Result, ok, err}
use repo_backend_v.Ingester.Stages.World.{World, S, ◌>>=◌, pure, catch, continue, handle}
use repo_backend_v.Ingester.Stages.Steps.{
  Remote, call, Polled, finished, timed_out, aborted, Interrupt, deadline, abort, interrupted,
  next_turn, poll,
}

-- If the result is a value, it has the property.
abbrev pub Told : {A : Type 0} → (A → Type 0) → Result A × World → Type 0
Told P (ok a, w) = P a
Told P (err e, w) = Unit

abbrev pub Says : {A : Type 0} → (A → Type 0) → S A → Type 0
Says P m = (w : World) → Told P (m w)

-- The answer that the call gives in some world.
abbrev pub Answers : {A : Type 0} → Remote A → A → Type 0
Answers r a = (w : World) × ((r w).0 ≡ a)

pub Says-pure : {A : Type 0} (P : A → Type 0) (a : A) → P a → Says P (pure a)
Says-pure P a p w = p

pub Says-call : {A : Type 0} (r : Remote A) → Says (Answers r) (call r)
Says-call r w = (w, refl)

module _ {A B : Type 0} (P : A → Type 0) where
  continue-Told :
      (Q : B → Type 0) (k : B → S A)
      → ((b : B) → Q b → Says P (k b))
      → (x : Result B × World) → Told Q x
      → Told P (continue k x)
  continue-Told Q k h (ok b, w) q = h b q w
  continue-Told Q k h (err e, w) q = tt

  -- What the first step tells is known in the next one.
  pub Says-bind :
      (Q : B → Type 0) (m : S B) (k : B → S A)
      → Says Q m
      → ((b : B) → Q b → Says P (k b))
      → Says P (m >>= k)
  Says-bind Q m k first next w = continue-Told Q k next (m w) (first w)

  anything : (x : Result B × World) → Told (λ _. Unit) x
  anything (ok b, w) = tt
  anything (err e, w) = tt

  -- A step that tells nothing.
  pub Says-then : (m : S B) (k : B → S A) → ((b : B) → Says P (k b)) → Says P (m >>= k)
  Says-then m k next w = continue-Told (λ _. Unit) k (λ b _. next b) (m w) (anything (m w))

  -- The last write of a stage and its return.
  pub Says-leave : (m : S B) (a : A) → P a → Says P (m >>= λ _. pure a)
  Says-leave m a p = Says-then m (λ _. pure a) (λ _. Says-pure P a p)

module _ {A : Type 0} (P : A → Type 0) where
  handle-Told :
      (h : Error → S A)
      → ((e : Error) → Says P (h e))
      → (x : Result A × World) → Told P x
      → Told P (handle h x)
  handle-Told h says (ok a, w) t = t
  handle-Told h says (err e, w) t = says e w

  pub Says-catch :
      (m : S A) (h : Error → S A) → Says P m → ((e : Error) → Says P (h e)) → Says P (catch m h)
  Says-catch m h first next w = handle-Told h next (m w) (first w)

-- One of the turns gave the answer.
abbrev pub Asked : {A : Type 0} → List (Remote A) → A → Type 0
Asked [] a = ⊥
Asked (r ∷ rs) a = Answers r a ⊎ Asked rs a

-- A poll ends with a result of an answer, or as the deadline or the abort ends it.
abbrev pub Ended : {V : Type 0} → (V → Type 0) → Interrupt → Polled V → Type 0
Ended F last (finished v) = F v
Ended F last timed_out = last ≡ deadline
Ended F last aborted = last ≡ abort

-- A result of a check, where there is one.
abbrev pub Given : {V : Type 0} → (V → Type 0) → Option V → Type 0
Given F none = Unit
Given F (some v) = F v

module _ {L A V : Type 0} (I : L → Type 0) (F : V → Type 0) (Q : A → Type 0)
    (check : L → A → S (L × Option V))
    (checks : (l : L) (a : A) → I l → Q a → Says (λ x. I x.0 × Given F x.1) (check l a)) where
  turn-Says :
      (last : Interrupt) (next : L → S (L × Polled V))
      → ((l : L) → I l → Says (λ x. I x.0 × Ended F last x.1) (next l))
      → (x : L × Option V) → I x.0 × Given F x.1
      → Says (λ y. I y.0 × Ended F last y.1) (next_turn check next x)
  turn-Says last next h (l, some v) (i, f) w = (i, f)
  turn-Says last next h (l, none) (i, f) w = h l i w

  ended_by : (last : Interrupt) (l : L) → I l → I l × Ended F last (interrupted {V = V} last)
  ended_by deadline l i = (i, refl)
  ended_by abort l i = (i, refl)

  -- `I` holds of the check's variables throughout.
  pub poll-Says :
      (turns : List (Remote A)) (last : Interrupt)
      → ((a : A) → Asked turns a → Q a)
      → (l : L) → I l
      → Says (λ x. I x.0 × Ended F last x.1) (poll check turns last l)
  unfolding poll
  poll-Says [] last known l i w = ended_by last l i
  poll-Says (r ∷ rs) last known l i w =
      Says-bind (λ x. I x.0 × Ended F last x.1) (λ x. I x.0 × Given F x.1) (call r >>= check l)
        (next_turn check (poll check rs last))
        (Says-bind (λ x. I x.0 × Given F x.1) (Answers r) (call r) (check l) (Says-call r)
          (λ a answer. checks l a i (known a (inl answer))))
        (turn-Says last (poll check rs last) (poll-Says rs last (λ a asked. known a (inr asked)))) w
