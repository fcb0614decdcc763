-- ===== src/Ingester/Worker/Sets.antt =====
-- How the sets of states of ingester/worker.js lie to one another.
use repo_backend_v.Ingester.Queue.Cancel.{terminal_for_cancel}
use repo_backend_v.Ingester.States.Actions.{available_actions-cancel}
use repo_backend_v.Base.{
  String, Bool, true, false, not, ◌||◌, ◌≡◌, refl, List, all, contains, contains-all,
  contains-append, string_eq, arith, ◌==◌, Option, ◌∙◌,
}
use repo_backend_v.Ingester.States.{cancellable_states, offers, available_actions}
use repo_backend_v.Ingester.Worker.States.{
  stage6_states, pipeline_states, am_active_states, am_entry_states, am_inside_states, is_pipeline,
  is_stage6, is_am_active, is_am_entry, is_am_inside, ready_states, serial_claim_order,
}

-- No stage 6 state is in the serial pipeline.
pub is_stage6-not_pipeline : (s : String) → is_stage6 s ≡ true → is_pipeline s ≡ false
unfolding is_stage6
is_stage6-not_pipeline s h =
    ground (arith, contains-all (λ x. not (is_pipeline x)) stage6_states s table h)
  where
    table : all (λ x. not (is_pipeline x)) stage6_states ≡ true
    table = unfold is_pipeline in refl

-- An Archivematica state is one of the pipeline.
pub is_am_active-is_pipeline : (s : String) → is_am_active s ≡ true → is_pipeline s ≡ true
is_am_active-is_pipeline s h =
    contains-all is_pipeline am_active_states s table (unfold is_am_active in h)
  where
    table : all is_pipeline am_active_states ≡ true
    table = unfold is_pipeline in refl

pub is_am_active_lem : (s : String) → is_am_active s ≡ (is_am_entry s || is_am_inside s)
unfolding is_am_active is_am_entry is_am_inside
is_am_active_lem s = contains-append am_entry_states am_inside_states s

-- The claim orders hold stage states only, none of them empty.
pub orders_named :
    (all (λ s. not (s == "")) serial_claim_order ≡ true)
    × (all (λ s. not (s == "")) ready_states ≡ true)
orders_named = (refl, refl)

same_members :
    (xs ys : List String)
    → all (contains ys) xs ≡ true
    → all (contains xs) ys ≡ true
    → (s : String) → contains xs s ≡ contains ys s
same_members xs ys h k s =
    ground (arith, contains-all (contains ys) xs s h, contains-all (contains xs) ys s k)

-- The serial claim order holds the states that have a stage, and no others.
pub serial_claim_order-ready :
    (s : String) → contains serial_claim_order s ≡ contains ready_states s
serial_claim_order-ready = same_members serial_claim_order ready_states forth back
  where
    forth : all (contains ready_states) serial_claim_order ≡ true
    forth = unfold contains in refl

    back : all (contains serial_claim_order) ready_states ≡ true
    back = unfold contains in refl

refused_not : (b : Bool) → not b ≡ true → b ≡ false
refused_not true h = cc
refused_not false h = refl

-- A row that the worker may be running in stages 1 to 5 can be cancelled: the dashboard offers it,
-- and the model's cancel does not refuse the state.
pub pipeline_cancellable :
    (s : String) (prev : Option String)
    → is_pipeline s ≡ true
    → (offers (available_actions s prev) "cancel" ≡ true) × (contains terminal_for_cancel s ≡ false)
unfolding is_pipeline
pipeline_cancellable s prev h = (
  available_actions-cancel s prev
      ∙ contains-all (contains cancellable_states) pipeline_states s cancellable h,
  refused_not (contains terminal_for_cancel s)
      (contains-all (λ x. not (contains terminal_for_cancel x)) pipeline_states s open_rows h),
)
  where
    cancellable : all (contains cancellable_states) pipeline_states ≡ true
    cancellable = unfold contains pipeline_states in refl

    open_rows : all (λ x. not (contains terminal_for_cancel x)) pipeline_states ≡ true
    open_rows = unfold contains pipeline_states in refl

-- A row that the worker may be running in stage 6 can be stopped from the dashboard.
pub stage6_stoppable :
    (s : String) (prev : Option String)
    → is_stage6 s ≡ true
    → offers (available_actions s prev) "stop_aip_copy" ≡ true
unfolding is_stage6
stage6_stoppable s prev h =
    contains-all (λ x. offers (available_actions x prev) "stop_aip_copy") stage6_states s
      stop_states h
  where
    stop_states : all (λ x. offers (available_actions x prev) "stop_aip_copy") stage6_states ≡ true
    stop_states = unfold offers available_actions in refl
