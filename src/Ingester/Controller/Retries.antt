-- ===== src/Ingester/Controller/Retries.antt =====
-- The states from which staff can send a row back into the pipeline.
use repo_backend_v.Base.{
  ℕ, String, true, false, ◌≡◌, refl, none, some, [], ◌∷◌, arith, string_eq, nat_eq, eq_iff,
  contains, Bool-cases, inl, inr,
}
use repo_backend_v.Ingester.States.{available_actions, offers, states_pre_folder_move_failure}
use repo_backend_v.Ingester.Queue.Store.{Row, Db, ok, err, forbidden}
use repo_backend_v.Ingester.Queue.Update.{Updated, Patch}
use repo_backend_v.Ingester.Queue.Select.{by_id, get_queue_row}
use repo_backend_v.Ingester.Controller.{require_row, act, reset_row, retry_access_copy}

pre_move :
    (s : String) → contains states_pre_folder_move_failure s ≡ true → s ≡ "AS_METADATA_INVALID"
unfolding contains
pre_move s h = ground (arith, eq_iff s "AS_METADATA_INVALID")

reset_table :
    (offers ("timeline" ∷ "stop_aip_copy" ∷ []) "reset" ≡ false)
    × (offers ("timeline" ∷ "dismiss_aip_row" ∷ []) "reset" ≡ false)
    × (offers ("timeline" ∷ "rollback_to_packaging" ∷ []) "reset" ≡ false)
    × (offers ("timeline" ∷ "retry_access_copy" ∷ "rollback_archivematica" ∷ []) "reset" ≡ false)
    × (offers ("timeline" ∷ "rollback_pre_ingest" ∷ []) "reset" ≡ false)
    × (offers ("timeline" ∷ "rollback_archivematica" ∷ []) "reset" ≡ false)
    × (offers ("timeline" ∷ "reset" ∷ []) "reset" ≡ true)
    × (offers ("timeline" ∷ "cancel" ∷ []) "reset" ≡ false)
    × (offers ("timeline" ∷ []) "reset" ≡ false)
unfolding offers
reset_table = (refl, refl, refl, refl, refl, refl, refl, refl, refl)

reset_offered :
    (s : String) → offers (available_actions s none) "reset" ≡ true → s ≡ "AS_METADATA_INVALID"
unfolding available_actions
reset_offered s h = ground (arith, reset_table, pre_move s)

retry_table :
    (offers ("timeline" ∷ "stop_aip_copy" ∷ []) "retry_access_copy" ≡ false)
    × (offers ("timeline" ∷ "dismiss_aip_row" ∷ []) "retry_access_copy" ≡ false)
    × (offers ("timeline" ∷ "rollback_to_packaging" ∷ []) "retry_access_copy" ≡ false)
    × (offers ("timeline" ∷ "retry_access_copy" ∷ "rollback_archivematica" ∷ []) "retry_access_copy"
        ≡ true)
    × (offers ("timeline" ∷ "rollback_pre_ingest" ∷ []) "retry_access_copy" ≡ false)
    × (offers ("timeline" ∷ "rollback_archivematica" ∷ []) "retry_access_copy" ≡ false)
    × (offers ("timeline" ∷ "reset" ∷ []) "retry_access_copy" ≡ false)
    × (offers ("timeline" ∷ "cancel" ∷ []) "retry_access_copy" ≡ false)
    × (offers ("timeline" ∷ []) "retry_access_copy" ≡ false)
unfolding offers
retry_table = (refl, refl, refl, refl, refl, refl, refl, refl, refl)

retry_offered :
    (s : String)
    → offers (available_actions s none) "retry_access_copy" ≡ true
    → s ≡ "DURACLOUD_TIMEOUT"
unfolding available_actions
retry_offered s h = ground (arith, retry_table, eq_iff s "DURACLOUD_TIMEOUT")

module _ (actor : String) (id : ℕ) (db : Db) (row : Row) (u : Updated)
    (found : get_queue_row (by_id id) db ≡ some row) where
  -- Only a row that is not offered the action makes the handler throw before its update.
  act-offered :
      (action : String) (data' : Patch)
      → (act action data' actor row db).0 ≡ ok u
      → offers (available_actions row.pipeline_state none) action ≡ true
  unfolding act
  act-offered action data' h =
      elim (Bool-cases (offers (available_actions row.pipeline_state none) action)) [
        | inl e ↦ e
        | inr e ↦ let thrown : err (forbidden row.pipeline_state) ≡ ok u = rw e at h in cc
      ]

  -- A reset that succeeds was of a row halted before any folder was moved, whatever the database does.
  pub reset_row-from :
      (reset_row actor (some id) db).0 ≡ ok u → row.pipeline_state ≡ "AS_METADATA_INVALID"
  unfolding reset_row require_row
  reset_row-from h = reset_offered row.pipeline_state (act-offered "reset" _ (rw found at h))

  -- A retry that succeeds was of a row whose access copy had timed out, whatever the database does.
  pub retry_access_copy-from :
      (retry_access_copy actor (some id) db).0 ≡ ok u → row.pipeline_state ≡ "DURACLOUD_TIMEOUT"
  unfolding retry_access_copy require_row
  retry_access_copy-from h =
      retry_offered row.pipeline_state (act-offered "retry_access_copy" _ (rw found at h))
