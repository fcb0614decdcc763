-- ===== src/Ingester/Polling/Tests.antt =====
-- A poll of a job that is done at the third attempt.
use repo_backend_v.Base.{
  ℕ, ◌+◌, ◌*◌, Bool, false, ◌≡◌, ◌≢◌, refl, none, arith, if◌then◌else◌, ◌==◌, nat_eq,
}
use repo_backend_v.Ingester.Polling.{
  Probe, pending, answered, finished, timed_out, unfinished, poll, poll_loop, after_probe,
}
use repo_backend_v.Ingester.Polling.Ends.{poll-over}

abbrev third_time : ℕ → ℕ → Probe ℕ
third_time attempt elapsed = if attempt == 3 then answered 7 else pending

abbrev never : ℕ → Bool
never k = false

abbrev clock : ℕ → ℕ
clock k = 100 + k * 2

finds_it : poll third_time never none clock 100 60 61 ≡ finished 7 3
unfolding poll poll_loop after_probe
finds_it = refl

gives_up : poll third_time never none clock 100 4 5 ≡ timed_out 2 4
unfolding poll poll_loop after_probe
gives_up = refl

poll-over_example : poll third_time never none clock 100 60 61 ≢ unfinished
poll-over_example =
    poll-over third_time never none clock 100 60 2 (omega arith) (λ k _. omega arith) (omega arith)
