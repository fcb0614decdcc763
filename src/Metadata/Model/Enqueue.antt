-- ===== src/Metadata/Model/Enqueue.antt =====
-- metadata/model.js: what puts rows into the refresh queue.
use repo_backend_v.Base.{
  ℕ, suc, ◌+◌, String, false, not, ◌&&◌, Option, none, some, List, [], ◌∷◌, ◌++◌, map, ltb,
  if◌then◌else◌, ◌==◌, nat_eq, string_eq, contains, length, filter, find, get_or,
}
use repo_backend_v.Metadata.Model.{
  Item, Queue, Object, has_uri, UpdateType, single, collection, collection_record, system, pending,
}

pub record Target : Type 0 where
  pub uuid : String
  pub uri : String
  pub update_type : UpdateType

pub data EnqueueError : Type 0 where
  not_found : (pid : String) → EnqueueError
  soft_deleted : (pid : String) → EnqueueError
  without_uri : (pid : String) → EnqueueError
  not_a_collection : (pid : String) → EnqueueError
  no_pids : EnqueueError
  over_the_cap : EnqueueError

pub data Result {ℓ} (A : Type ℓ) : Type ℓ where
  ok : (a : A) → Result A
  err : (e : EnqueueError) → Result A

abbrev pub target_found : String → Option Object → Result Object
target_found pid none = err (not_found pid)
target_found pid (some o) =
    if not o.is_active
    then err (soft_deleted pid)
    else if not (has_uri o)
    then err (without_uri pid)
    else ok o

unfoldable pub fetch_target : String → List Object → Result Object
fetch_target pid objects = target_found pid (find (λ o. o.pid == pid) objects)

-- The first row of each uuid, in order.
unfoldable pub unique_rows : List String → List Target → List Target
unique_rows seen [] = []
unique_rows seen (r ∷ rs) =
    let again = contains seen r.uuid in
    let rest = unique_rows (if again then seen else r.uuid ∷ seen) rs in
    if again then rest else r ∷ rest

-- The inserted rows, numbered as the table's key does.
unfoldable pub queued : String → ℕ → ℕ → ℕ → List Target → List Item
queued batch_uuid priority now id [] = []
queued batch_uuid priority now id (r ∷ rs) =
    record {
      id = id;
      batch_uuid = batch_uuid;
      uuid = r.uuid;
      uri = r.uri;
      update_type = r.update_type;
      status = pending;
      is_updated = false;
      is_complete = false;
      priority = priority;
      attempts = 0;
      next_attempt_at = none;
      date_updated = now;
      error = none;
      last_error = none;
    }
    ∷ queued batch_uuid priority now (suc id) rs

-- The number of rows inserted, and the table.
unfoldable pub insert_batch : String → ℕ → ℕ → List Target → Queue → ℕ × Queue
unfolding unique_rows queued
insert_batch batch_uuid priority now rows q =
    let unique = unique_rows [] rows in
    (
      length unique,
      record {
        items = q.items ++ queued batch_uuid priority now q.next_id unique;
        next_id = q.next_id + length unique;
      },
    )

abbrev pub target : UpdateType → Object → Target
target t o = record { uuid = o.pid; uri = get_or o.uri ""; update_type = t }

unfoldable pub enqueue_chunk_for_batch : String → ℕ → ℕ → List Object → Queue → ℕ × Queue
unfolding insert_batch
enqueue_chunk_for_batch batch_uuid priority now rows q =
    insert_batch batch_uuid priority now (map (target system) rows) q

abbrev pub enqueued_targets : String → ℕ → Queue → Result (List Target) → Result (ℕ × Queue)
enqueued_targets minted now q (err e) = err e
enqueued_targets minted now q (ok ts) = ok (insert_batch minted 0 now ts q)

abbrev pub only_target : UpdateType → Result Object → Result (List Target)
only_target t (err e) = err e
only_target t (ok o) = ok (target t o ∷ [])

unfoldable pub enqueue_single : String → ℕ → String → List Object → Queue → Result (ℕ × Queue)
unfolding fetch_target
enqueue_single minted now pid objects q =
    enqueued_targets minted now q (only_target single (fetch_target pid objects))

abbrev pub a_collection : String → Result Object → Result Object
a_collection pid (err e) = err e
a_collection pid (ok o) = if o.is_collection then ok o else err (not_a_collection pid)

unfoldable pub enqueue_collection_record :
    String → ℕ → String → List Object → Queue → Result (ℕ × Queue)
unfolding fetch_target
enqueue_collection_record minted now pid objects q =
    enqueued_targets minted now q
      (only_target collection_record (a_collection pid (fetch_target pid objects)))

abbrev pub members_of : String → List Object → List Object
members_of pid objects =
    filter (λ o. o.is_member_of_collection == pid && (o.is_active && has_uri o)) objects

abbrev pub with_members : String → List Object → Result Object → Result (List Target)
with_members pid objects (err e) = err e
with_members pid objects (ok o) =
    ok (target collection o ∷ map (target collection) (members_of pid objects))

unfoldable pub enqueue_collection : String → ℕ → String → List Object → Queue → Result (ℕ × Queue)
unfolding fetch_target
enqueue_collection minted now pid objects q =
    enqueued_targets minted now q
      (with_members pid objects (a_collection pid (fetch_target pid objects)))

abbrev pub with_target : Result Object → Result (List Target) → Result (List Target)
with_target (err e) rest = err e
with_target (ok o) (err e) = err e
with_target (ok o) (ok ts) = ok (target single o ∷ ts)

-- The loop over the pids: the first that has no target ends it.
unfoldable pub targets_of : List Object → List String → Result (List Target)
targets_of objects [] = ok []
targets_of objects (pid ∷ pids) = with_target (fetch_target pid objects) (targets_of objects pids)

unfoldable pub enqueue_pids :
    ℕ → String → ℕ → List String → List Object → Queue → Result (ℕ × Queue)
unfolding targets_of
enqueue_pids max_batch_pids minted now pids objects q =
    if length pids == 0
    then err no_pids
    else if ltb max_batch_pids (length pids)
    then err over_the_cap
    else enqueued_targets minted now q (targets_of objects pids)
