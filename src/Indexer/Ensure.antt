-- ===== src/Indexer/Ensure.antt =====
-- The wait between two probes of an index that is not there.
use repo_backend_v.Base.{ℕ, zero, suc, ◌+◌, ◌-◌, ◌^◌, ◌≤◌, ◌<◌, true, false, ◌≡◌, arith}
use repo_backend_v.Indexer.Worker.{Ensure, skip, probe, gate, probed, ensure_delay}

power_positive : (k : ℕ) → 1 ≤ 2 ^ k
power_positive zero = omega arith
power_positive (suc k) = omega (arith, power_positive k)

ensure_delay-bounds : (n : ℕ) → (5000 ≤ ensure_delay n) × (ensure_delay n ≤ 60000)
unfolding ensure_delay
ensure_delay-bounds n = (omega (arith, power_positive (n - 1)), omega arith)

module _ (now later : ℕ) (e : Ensure) (running : e.stopping ≡ false)
    (missing : e.ensured ≡ false) where
  -- After a failed probe of a running worker, no tick of the next five seconds probes or works.
  pub probed-held : later < now + 5000 → gate true later (probed false now e) ≡ skip
  unfolding gate probed
  probed-held soon = ground (arith, ensure_delay-bounds (e.ensure_fail_count + 1))

  -- After a failed probe of a running worker, every tick from a minute on probes again, however many
  -- probes have failed.
  pub probed-retried : now + 60000 ≤ later → gate true later (probed false now e) ≡ probe
  unfolding gate probed
  probed-retried late = ground (arith, ensure_delay-bounds (e.ensure_fail_count + 1))
