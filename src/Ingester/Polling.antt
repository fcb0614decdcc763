-- ===== src/Ingester/Polling.antt =====
-- ingester/lib/polling.js: the abortable poll of the stages. The clock, the check, the abort signal and
-- the caller's on_attempt are parameters, read at a turn of the loop: the turn k follows k attempts.
pub mod Ends
mod Tests
use repo_backend_v.Base.{
  ℕ, zero, suc, ◌+◌, ◌-◌, Bool, true, false, Option, none, some, leb, if◌then◌else◌,
}

pub data Probe (A : Type 0) : Type 0 where
  threw : Probe A
  pending : Probe A
  answered : (value : A) → Probe A

-- `unfinished` is a loop that is still running when the fuel is used up.
pub data Outcome (A : Type 0) : Type 0 where
  finished : (result : A) (attempts : ℕ) → Outcome A
  timed_out : (attempts elapsed_ms : ℕ) → Outcome A
  aborted : (attempts : ℕ) → Outcome A
  rethrown : (attempts : ℕ) → Outcome A
  unfinished : Outcome A

-- `on_attempt`, if the caller gave one: whether to go on after an error.
abbrev pub goes_on : Option (ℕ → Bool) → ℕ → Bool
goes_on none attempt = false
goes_on (some on_attempt) attempt = on_attempt attempt

module _ {A : Type 0} (check : ℕ → ℕ → Probe A) (is_aborted : ℕ → Bool)
    (on_attempt : Option (ℕ → Bool)) (now : ℕ → ℕ) (start timeout_ms : ℕ) where
  -- What an attempt leads to, given the rest of the loop.
  unfoldable pub after_probe : ℕ → Probe A → Outcome A → Outcome A
  after_probe attempts (answered value) rest = finished value attempts
  after_probe attempts pending rest = rest
  after_probe attempts threw rest = if goes_on on_attempt attempts then rest else rethrown attempts

  unfoldable pub poll_loop : ℕ → ℕ → Outcome A
  unfolding after_probe
  poll_loop zero attempts = unfinished
  poll_loop (suc fuel) attempts =
      let rest = poll_loop fuel (attempts + 1) in
      let elapsed = now attempts - start in
      if is_aborted attempts
      then aborted attempts
      else if leb timeout_ms elapsed
      then timed_out attempts elapsed
      else after_probe (attempts + 1) (check (attempts + 1) elapsed) rest

  unfoldable pub poll : ℕ → Outcome A
  unfolding poll_loop
  poll fuel = poll_loop fuel 0
