-- ===== src/Indexer/Tests.antt =====
-- The index queue on a concrete table: a published row, a withdrawn one and a clean one.
use repo_backend_v.Base.{
  ℕ, String, Bool, true, false, ◌≡◌, refl, Option, none, some, List, [], ◌∷◌, map, arith, nat_eq,
  string_eq,
}
use repo_backend_v.Base.Table.{update_where}
use repo_backend_v.Indexer.Model.{Object, Failure, record_failures}
use repo_backend_v.Indexer.Worker.{Op, Item, index_tick, Ensure, gate, probe, probed}
use repo_backend_v.Indexer.Claimed.{IsKeyed, is_claimed}
use repo_backend_v.Indexer.Outage.{index_tick-down}
use repo_backend_v.Indexer.Accepted.{accepted, settled, index_tick-up}
use repo_backend_v.Indexer.Failures.{failed_once, named_in, attempts_allowed, record_failures-rows}
use repo_backend_v.Indexer.Ensure.{probed-retried}

abbrev object : ℕ → String → Bool → Bool → Object
object n pid published dirty = record {
  id = n;
  pid = pid;
  is_member_of_collection = "root";
  is_published = published;
  is_active = true;
  is_indexed = false;
  is_updated = dirty;
  index_attempts = 4;
  index_error = none;
}

abbrev objects : List Object
objects = object 1 "a" true true ∷ object 2 "b" false true ∷ object 3 "c" true false ∷ []

objects-IsKeyed : IsKeyed objects
objects-IsKeyed = record {
  ids = (((refl, refl), ((refl, refl), tt)), (((refl, refl), tt), (tt, tt)));
  pids = (((refl, refl), ((refl, refl), tt)), (((refl, refl), tt), (tt, tt)));
}

abbrev es_down : List Op → Option (List Item)
es_down ops = none

abbrev es_up : List Op → Option (List Item)
es_up ops = some (map accepted ops)

index_tick-down_example : index_tick es_down 5 5 objects ≡ objects
index_tick-down_example = index_tick-down es_down (λ ops. refl) 5 5 objects objects-IsKeyed

index_tick-up_example :
    index_tick es_up 5 5 objects
    ≡ update_where (is_claimed 5 objects objects-IsKeyed) settled objects
index_tick-up_example = index_tick-up es_up (λ ops. refl) 5 5 objects objects-IsKeyed

abbrev rejected : List Failure
rejected = record { pid = "a"; err = some "mapper_parsing_exception" } ∷ []

record_failures-rows_example :
    (record_failures 5 rejected objects).rows
    ≡ update_where (named_in rejected) (failed_once (attempts_allowed 5) rejected) objects
record_failures-rows_example = record_failures-rows rejected objects objects-IsKeyed.pids 5

abbrev unprobed : Ensure
unprobed = record {
  stopping = false;
  ensured = false;
  ensuring = true;
  ensure_fail_count = 3;
  ensure_cooldown_until = 0;
}

probed-retried_example : gate true 1060000 (probed false 1000000 unprobed) ≡ probe
probed-retried_example = probed-retried 1000000 1060000 unprobed refl refl (omega arith)
