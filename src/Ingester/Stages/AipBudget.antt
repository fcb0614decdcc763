-- ===== src/Ingester/Stages/AipBudget.antt =====
-- The retries of stage 6: how many failures in a row a package can have, what a lost write does to
-- them, and which runs make no copy.
use repo_backend_v.Ingester.Stages.AipExits.{exit_state, record_failure-Exits}
use repo_backend_v.Ingester.Stages.Rules.{At, Settled-ok}
use repo_backend_v.Base.{
  ℕ, ◌+◌, ◌≤◌, ◌<◌, String, Bool, true, false, not, ◌&&◌, ◌≡◌, refl, ◌⊎◌, inl, inr, List, [], ◌∷◌,
  arith, ltb, ◌==◌, string_eq, nat_eq, eq_iff, length, Bool-cases,
}
use repo_backend_v.Ingester.Queue.Store.{Row, Result, ok}
use repo_backend_v.Ingester.Stages.World.{World, get_copy}
use repo_backend_v.Ingester.Stages.AipStore.{
  Config, Outcome, failed, record_failure, recorded_text, is_am_deleted_error,
  is_am_not_found_error, budget, prior_attempts,
}
use repo_backend_v.Ingester.Stages.AipAttempts.{
  calm, Leaves, Retried, GivenUp, decide-Retried, decide-GivenUp,
}
use repo_backend_v.Repository.AipStore.{get_by_uuid}

given_up : (dead : Bool) (n limit : ℕ) → not dead && ltb n limit ≡ false → dead ≡ true ⊎ limit ≤ n
given_up true n limit e = inl refl
given_up false n limit e = inr (ground arith)

module _ (cfg : Config) (row : Row) (pid : String) (use_duracloud : Bool) where
  abbrev pub prior : World → ℕ
  prior w = prior_attempts (get_by_uuid pid w.copies)

  counted-Retried :
      (error_text : String) (w : World)
      → is_am_deleted_error (recorded_text error_text) ≡ false
      → prior w + 1 < budget cfg (is_am_not_found_error (recorded_text error_text))
      → Leaves pid
          (failed (prior w + 1) "AIP_STORE_PENDING")
          (Retried cfg row pid use_duracloud
            (recorded_text error_text)
            (get_by_uuid pid w.copies)
            w.queue.now)
          (record_failure cfg row pid error_text use_duracloud (calm w))
  unfolding record_failure get_copy
  counted-Retried error_text w alive below =
      decide-Retried cfg row pid use_duracloud (recorded_text error_text) (get_by_uuid pid w.copies)
        w alive below

  counted-GivenUp :
      (error_text : String) (w : World)
      → is_am_deleted_error (recorded_text error_text) ≡ true
        ⊎ budget cfg (is_am_not_found_error (recorded_text error_text)) ≤ prior w + 1
      → Leaves pid
          (failed (prior w + 1) "AIP_STORE_FAILED")
          (GivenUp cfg row pid use_duracloud (recorded_text error_text) (get_by_uuid pid w.copies))
          (record_failure cfg row pid error_text use_duracloud (calm w))
  unfolding record_failure get_copy
  counted-GivenUp error_text w over =
      decide-GivenUp cfg row pid use_duracloud (recorded_text error_text) (get_by_uuid pid w.copies)
        w over

  -- Where no statement fails, a failure that is not of a deleted package and that stays under its
  -- budget is counted, puts the row back to AIP_STORE_PENDING in the queue and sets the next attempt
  -- after the backoff of its number.
  pub record_failure-Retried :
      (error_text : String) (w : World)
      → is_am_deleted_error (recorded_text error_text) ≡ false
      → prior w + 1 < budget cfg (is_am_not_found_error (recorded_text error_text))
      → let x = record_failure cfg row pid error_text use_duracloud (calm w) in
        At row.id "AIP_STORE_PENDING" x.1
        × Leaves pid
            (failed (prior w + 1) "AIP_STORE_PENDING")
            (Retried cfg row pid use_duracloud
              (recorded_text error_text)
              (get_by_uuid pid w.copies)
              w.queue.now)
            x
  record_failure-Retried error_text w alive below =
      let left = counted-Retried error_text w alive below in
      (
        Settled-ok row.id exit_state (record_failure cfg row pid error_text use_duracloud (calm w))
            (failed (prior w + 1) "AIP_STORE_PENDING") "AIP_STORE_PENDING" left.0 refl
            (record_failure-Exits row cfg pid error_text use_duracloud (calm w)),
        left,
      )

  -- Where no statement fails, a failure of a deleted package, or one that uses the budget up, is
  -- counted and leaves the row in AIP_STORE_FAILED in the queue, with no next attempt; the copy is an
  -- orphan exactly where the package was deleted or not found.
  pub record_failure-GivenUp :
      (error_text : String) (w : World)
      → is_am_deleted_error (recorded_text error_text) ≡ true
        ⊎ budget cfg (is_am_not_found_error (recorded_text error_text)) ≤ prior w + 1
      → let x = record_failure cfg row pid error_text use_duracloud (calm w) in
        At row.id "AIP_STORE_FAILED" x.1
        × Leaves pid
            (failed (prior w + 1) "AIP_STORE_FAILED")
            (GivenUp cfg row pid use_duracloud
              (recorded_text error_text)
              (get_by_uuid pid w.copies))
            x
  record_failure-GivenUp error_text w over =
      let left = counted-GivenUp error_text w over in
      (
        Settled-ok row.id exit_state (record_failure cfg row pid error_text use_duracloud (calm w))
            (failed (prior w + 1) "AIP_STORE_FAILED") "AIP_STORE_FAILED" left.0 refl
            (record_failure-Exits row cfg pid error_text use_duracloud (calm w)),
        left,
      )

  -- The world some time later, where no statement fails.
  abbrev after : ℕ → World → World
  after ms w = record w { queue = record w.queue { now = w.queue.now + ms } }

  abbrev is_pending : Result Outcome → Bool
  is_pending (ok (failed attempts final_state)) = final_state == "AIP_STORE_PENDING"
  is_pending _ = false

  -- One failure after another, each after its time; whether all of them are to be tried again.
  unfoldable pub all_pending : List (String × ℕ) → World → Bool
  all_pending [] w = true
  all_pending ((error_text, ms) ∷ later) w =
      let x = record_failure cfg row pid error_text use_duracloud (calm (after ms w)) in
      let rest = all_pending later x.1 in is_pending x.0 && rest

  module _ (b : ℕ) (nf : budget cfg true ≤ b) (other : budget cfg false ≤ b) where
    budget-le : (not_found : Bool) → budget cfg not_found ≤ b
    budget-le true = nf
    budget-le false = other

    -- A failure after which the row is tried again.
    counted :
        (error_text : String) (w : World)
        → let x = record_failure cfg row pid error_text use_duracloud (calm w) in
          is_pending x.0 ≡ true → (prior x.1 ≡ prior w + 1) × (prior w + 1 < b)
    counted error_text w h =
        let dead : Bool = is_am_deleted_error (recorded_text error_text) in
        let limit : ℕ = budget cfg (is_am_not_found_error (recorded_text error_text)) in
        let cap : limit ≤ b = budget-le (is_am_not_found_error (recorded_text error_text)) in
        elim (Bool-cases (not dead && ltb (prior w + 1) limit)) [
          | inl e ↦
              let r = counted-Retried error_text w (ground arith) (ground arith) in
              (rw r.1.1 r.1.2.attempts, ground arith)
          | inr e ↦
              let r = counted-GivenUp error_text w (given_up dead (prior w + 1) limit e) in
              let bad : is_pending (ok (failed (prior w + 1) "AIP_STORE_FAILED")) ≡ true =
                rw r.0 at h in
              absurd (ground (arith, eq_iff "AIP_STORE_FAILED" "AIP_STORE_PENDING"))
        ]

    -- Where every failure in a row sent the package back to be tried again, and no statement failed,
    -- the attempts before them and the failures together are fewer than the larger budget.
    pub all_pending-bounded :
        (failures : List (String × ℕ)) (w : World)
        → prior w < b
        → all_pending failures w ≡ true
        → prior w + length failures < b
    unfolding all_pending
    all_pending-bounded [] w below h = omega arith
    all_pending-bounded ((error_text, ms) ∷ later) w below h =
        let x : Result Outcome × World =
          record_failure cfg row pid error_text use_duracloud (calm (after ms w)) in
        let here : is_pending x.0 ≡ true = ground arith in
        let rest : all_pending later x.1 ≡ true = ground arith in
        let c = counted error_text (after ms w) here in
        let ih : prior x.1 + length later < b =
          all_pending-bounded later x.1 (omega (arith, c)) rest in
        omega (arith, c, ih)
