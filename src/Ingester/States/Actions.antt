-- ===== src/Ingester/States/Actions.antt =====
-- What the dashboard offers for a state, against the sets of states of the pipeline.
use repo_backend_v.Base.{
  String, Bool, true, false, not, ◌≡◌, refl, Option, List, [], ◌∷◌, arith, contains, string_eq,
  eq_iff, all, contains-all,
}
use repo_backend_v.Ingester.States.{
  available_actions, offers, cancellable_states, states_at_pre_am_failure, states_at_am_failure,
  states_pre_folder_move_failure,
}

is_cancellable : String → Bool
is_cancellable s = contains cancellable_states s

literal_tests :
    (offers ("timeline" ∷ "stop_aip_copy" ∷ []) "cancel" ≡ false)
    × (offers ("timeline" ∷ "dismiss_aip_row" ∷ []) "cancel" ≡ false)
    × (offers ("timeline" ∷ "rollback_to_packaging" ∷ []) "cancel" ≡ false)
    × (offers ("timeline" ∷ "retry_access_copy" ∷ "rollback_archivematica" ∷ []) "cancel" ≡ false)
    × (offers ("timeline" ∷ "rollback_pre_ingest" ∷ []) "cancel" ≡ false)
    × (offers ("timeline" ∷ "rollback_archivematica" ∷ []) "cancel" ≡ false)
    × (offers ("timeline" ∷ "reset" ∷ []) "cancel" ≡ false)
    × (offers ("timeline" ∷ "cancel" ∷ []) "cancel" ≡ true)
    × (offers ("timeline" ∷ []) "cancel" ≡ false)
unfolding offers
literal_tests = (refl, refl, refl, refl, refl, refl, refl, refl, refl)

-- No halted or special state is cancellable.
excluded :
    (xs : List String) (s : String)
    → all (λ x. not (is_cancellable x)) xs ≡ true
    → contains xs s ≡ true
    → contains cancellable_states s ≡ false
unfolding is_cancellable
excluded xs s h m = ground (arith, contains-all (λ x. not (contains cancellable_states x)) xs s h m)

special_not_cancellable :
    (contains cancellable_states "AIP_STORE_PENDING" ≡ false)
    × (contains cancellable_states "AIP_STORE_IN_PROGRESS" ≡ false)
    × (contains cancellable_states "AIP_STORE_FAILED" ≡ false)
    × (contains cancellable_states "CANCELLED_BY_USER" ≡ false)
    × (contains cancellable_states "AM_DELETION_REQUESTED" ≡ false)
    × (contains cancellable_states "DURACLOUD_TIMEOUT" ≡ false)
unfolding contains
special_not_cancellable = (refl, refl, refl, refl, refl, refl)

sets_not_cancellable :
    (all (λ x. not (is_cancellable x)) states_at_pre_am_failure ≡ true)
    × (all (λ x. not (is_cancellable x)) states_at_am_failure ≡ true)
    × (all (λ x. not (is_cancellable x)) states_pre_folder_move_failure ≡ true)
unfolding contains is_cancellable
sets_not_cancellable = (refl, refl, refl)

-- The dashboard offers Cancel exactly for the cancellable states.
pub available_actions-cancel :
    (s : String) (prev : Option String)
    → offers (available_actions s prev) "cancel" ≡ contains cancellable_states s
unfolding available_actions
available_actions-cancel s prev = ground (
  arith,
  literal_tests,
  special_not_cancellable,
  eq_iff s "AIP_STORE_PENDING",
  eq_iff s "AIP_STORE_IN_PROGRESS",
  eq_iff s "AIP_STORE_FAILED",
  eq_iff s "CANCELLED_BY_USER",
  eq_iff s "AM_DELETION_REQUESTED",
  eq_iff s "DURACLOUD_TIMEOUT",
  excluded states_at_pre_am_failure s sets_not_cancellable.0,
  excluded states_at_am_failure s sets_not_cancellable.1,
  excluded states_pre_folder_move_failure s sets_not_cancellable.2,
)
