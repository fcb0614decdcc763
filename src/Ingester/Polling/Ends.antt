-- ===== src/Ingester/Polling/Ends.antt =====
-- A poll ends: by its answer, an error, the signal, or its deadline.
use repo_backend_v.Base.{
  ℕ, zero, suc, ◌+◌, ◌-◌, ◌≤◌, ◌<◌, Bool, true, false, ◌≡◌, ◌≢◌, refl, Option, arith, leb,
  Bool-cases, inl, inr,
}
use repo_backend_v.Ingester.Polling.{
  Probe, threw, pending, answered, Outcome, unfinished, goes_on, after_probe, poll_loop, poll,
}

abbrev is_over : {A : Type 0} → Outcome A → Bool
is_over unfinished = false
is_over _ = true

over_finished : {A : Type 0} (o : Outcome A) → is_over o ≡ true → o ≢ unfinished
over_finished {A} o h e = let absurd : is_over {A = A} unfinished ≡ true = rw e at h in cc

module _ {A : Type 0} (check : ℕ → ℕ → Probe A) (is_aborted : ℕ → Bool)
    (on_attempt : Option (ℕ → Bool)) (now : ℕ → ℕ) (start timeout_ms : ℕ) where
  after_probe-over :
      (attempts : ℕ) (p : Probe A) (rest : Outcome A)
      → is_over rest ≡ true
      → is_over (after_probe check is_aborted on_attempt now start timeout_ms attempts p rest)
        ≡ true
  unfolding after_probe
  after_probe-over attempts (answered value) rest h = refl
  after_probe-over attempts pending rest h = h
  after_probe-over attempts threw rest h = elim (Bool-cases (goes_on on_attempt attempts)) [
    | inl e ↦ rw e h
    | inr e ↦ rw e refl
  ]

  module _ (interval_ms : ℕ) (positive : 0 < interval_ms)
      (sleeps : (k : ℕ) → is_aborted (k + 1) ≡ false → now k + interval_ms ≤ now (k + 1)) where
    poll_loop-over :
        (fuel attempts : ℕ)
        → (is_aborted attempts ≡ false → start + attempts ≤ now attempts)
        → 0 < fuel
        → timeout_ms < fuel + attempts
        → is_over (poll_loop check is_aborted on_attempt now start timeout_ms fuel attempts) ≡ true
    unfolding poll_loop
    poll_loop-over zero attempts late some_fuel enough = ground arith
    poll_loop-over (suc fuel) attempts late some_fuel enough =
        elim (Bool-cases (is_aborted attempts)) [
          | inl e ↦ rw e refl
          | inr e ↦ elim (Bool-cases (leb timeout_ms (now attempts - start))) [
            | inl f ↦ rw (e, f) refl
            | inr f ↦
                let here : start + attempts ≤ now attempts = late e in
                let early : now attempts - start < timeout_ms = ground arith in
                rw (e, f)
                  (after_probe-over (attempts + 1) (check (attempts + 1) (now attempts - start)) _ (
                    poll_loop-over fuel (attempts + 1)
                      (λ a. omega (arith, sleeps attempts a, late e)) (omega arith) (omega arith)))
          ]
        ]

    -- Where each sleep that no abort ends takes at least its interval of a millisecond or more, a
    -- poll that may run one turn more than its timeout has milliseconds is over, whatever its check
    -- answers.
    pub poll-over :
        start ≤ now 0
        → poll check is_aborted on_attempt now start timeout_ms (timeout_ms + 1) ≢ unfinished
    unfolding poll
    poll-over begins =
        over_finished _
          (poll_loop-over (timeout_ms + 1) 0 (λ _. omega arith) (omega arith) (omega arith))
