-- ===== src/Ingester/Queue/Orphans.antt =====
-- The boot sweep, row by row in the code, as one update of the whole table.
use repo_backend_v.Base.{ℕ, String, Bool, false, ◌||◌, ◌≡◌, List, [], ◌∷◌, ◌==◌, nat_eq, string_eq}
use repo_backend_v.Ingester.Queue.Store.{Row, Db, Result}
use repo_backend_v.Ingester.Queue.Update.{enrich_update, write, update_queue, Updated, to_status}
use repo_backend_v.Ingester.Queue.Select.{by_id}
use repo_backend_v.Ingester.Queue.Sweep.{reset_opts}

-- The row as the sweep leaves it.
unfoldable pub swept : ℕ → Row → Row
unfolding write enrich_update
swept now r = write (enrich_update (to_status "PENDING") now) r

-- Where no transaction fails, one call writes exactly the rows of the id.
module _ (actor : String) (c : Row) (db : Db) (calm : db.faults ≡ []) where
  abbrev after : Result Updated × Db
  after = update_queue (by_id c.id) (to_status "PENDING") (reset_opts actor c.pipeline_state) db

in_ids : List Row → ℕ → Bool
in_ids [] id = false
in_ids (c ∷ cs) id = id == c.id || in_ids cs id
