-- ===== src/Ingester/Stages/TransferResumed.antt =====
-- What a run of stage 3 that resumes does not do again.
use Prim.Native.String.{String}
use repo_backend_v.Base.{
  ℕ, Bool, true, false, ◌≡◌, refl, ◌⊎◌, inl, inr, Option, List, ◌==◌, string_eq, if◌then◌else◌,
}
use repo_backend_v.Ingester.Queue.Store.{Row}
use repo_backend_v.Ingester.Stages.World.{World, S, ◌>>=◌}
use repo_backend_v.Ingester.Stages.Steps.{
  Remote, Polled, finished, timed_out, aborted, Interrupt, poll,
}
use repo_backend_v.Ingester.Stages.Transfer.{
  Started, ApproveTurn, StatusBody, Ids, Outcome, check_approve, await_package, after_approve,
  continue_from, run,
}

module _ (to_lower : String → String) (row : Row) (own_name : ℕ → String)
    (start start' : String → Remote Started) (approve_last : Interrupt)
    (statuses : String → List (Remote (Option StatusBody))) (status_last : Interrupt) where
  after_approve-alike :
      (approvals : List (Remote ApproveTurn)) (x : Ids × Polled (Unit {0}))
      → after_approve to_lower row own_name start approvals approve_last statuses status_last x
        ≡ after_approve to_lower row own_name start' approvals approve_last statuses status_last x
  unfolding after_approve await_package
  after_approve-alike approvals (ids, aborted) = refl
  after_approve-alike approvals (ids, timed_out) = refl
  after_approve-alike approvals (ids, finished done) = refl

  chosen :
      (b : Bool) (m k k' : S Outcome) (w : World)
      → k w ≡ k' w
      → (if b then m else k) w ≡ (if b then m else k') w
  chosen true m k k' w e = refl
  chosen false m k k' w e = e

  approved-alike :
      (approvals : List (Remote ApproveTurn)) (ids : Ids) (w : World)
      → row.pipeline_state ≡ "TRANSFER_STARTED"
      → continue_from to_lower row own_name start approvals approve_last statuses status_last ids w
        ≡ continue_from to_lower row own_name start' approvals approve_last statuses status_last ids
            w
  unfolding continue_from
  approved-alike approvals ids w e =
      let other : (row.pipeline_state == "TRANSFER_IN_PROGRESS") ≡ false =
        λ i. e i == "TRANSFER_IN_PROGRESS" in
      simp other (
        chosen (ids.folder == "") _ _ _ w (λ i.
          (poll (check_approve to_lower row) approvals approve_last ids >>= λ x.
          after_approve-alike approvals x i)
            w))

  awaited-alike :
      (approvals approvals' : List (Remote ApproveTurn)) (ids : Ids) (w : World)
      → row.pipeline_state ≡ "TRANSFER_IN_PROGRESS"
      → continue_from to_lower row own_name start approvals approve_last statuses status_last ids w
        ≡ continue_from to_lower row own_name start' approvals' approve_last statuses status_last
            ids w
  unfolding continue_from await_package
  awaited-alike approvals approvals' ids w e =
      let here : (row.pipeline_state == "TRANSFER_IN_PROGRESS") ≡ true =
        λ i. e i == "TRANSFER_IN_PROGRESS" in
      simp here refl

  -- A run that resumes a transfer that was started depends on no answer to a start, and one that
  -- resumes an approved transfer on no turn of the approve poll either: neither is asked again.
  pub transfer-resumed :
      (approvals approvals' : List (Remote ApproveTurn)) (w : World)
      → row.pipeline_state ≡ "TRANSFER_STARTED" × approvals ≡ approvals'
        ⊎ row.pipeline_state ≡ "TRANSFER_IN_PROGRESS"
      → run to_lower row own_name start approvals approve_last statuses status_last w
        ≡ run to_lower row own_name start' approvals' approve_last statuses status_last w
  unfolding run
  transfer-resumed approvals approvals' w (inl (e, same)) =
      let other : (row.pipeline_state == "UPLOAD_COMPLETE") ≡ false =
        λ i. e i == "UPLOAD_COMPLETE" in
      rw same (simp other (approved-alike approvals' _ w e))
  transfer-resumed approvals approvals' w (inr e) =
      let other : (row.pipeline_state == "UPLOAD_COMPLETE") ≡ false =
        λ i. e i == "UPLOAD_COMPLETE" in
      simp other (awaited-alike approvals approvals' _ w e)
