-- ===== src/Auth/Rbac.antt =====
-- auth/rbac.js: the roles, the permissions that each one grants, and the guard of a route. The user
-- table is a parameter of the guard.
use repo_backend_v.Base.{
  String, Bool, Option, none, some, List, [], ◌∷◌, if◌then◌else◌, ◌==◌, string_eq, contains,
}

abbrev pub all_permissions : List String
all_permissions =
    "view_repository" ∷ "publish_object" ∷ "edit_object" ∷ "delete_object" ∷ "manage_ingest"
    ∷ "manage_index" ∷ "manage_aip_store" ∷ "manage_metadata_refresh" ∷ "manage_convert"
    ∷ "manage_users" ∷ "manage_handles" ∷ []

-- `ROLE_PERMISSIONS[role]`; a name that is no role grants nothing.
unfoldable pub role_permissions : String → List String
role_permissions role =
    if role == "viewer"
    then "view_repository" ∷ []
    else if role == "staff"
    then "view_repository" ∷ "publish_object" ∷ "edit_object" ∷ "delete_object" ∷ "manage_ingest"
      ∷ []
    else if role == "admin"
    then all_permissions
    else []

unfoldable pub has_permission : String → String → Bool
unfolding role_permissions contains
has_permission role permission = contains (role_permissions role) permission

pub record Principal : Type 0 where
  pub role : Option String
  pub du_id : Option String

pub data Verdict : Type 0 where
  next : (user : Principal) → Verdict
  denied : Verdict
  failed : Verdict

-- An empty text is no role and no id.
abbrev pub truthy : Option String → Option String
truthy none = none
truthy (some s) = if s == "" then none else some s

-- What the user table answers: a failure, no user, or the user's role.
pub data Lookup : Type 0 where
  broken : Lookup
  found : (role : Option String) → Lookup

unfoldable pub decide : String → Principal → Option String → Verdict
decide permission principal none = denied
decide permission principal (some role) =
    if has_permission role permission then next (record principal { role = some role }) else denied

unfoldable pub resolve : String → Principal → Lookup → Verdict
unfolding decide
resolve permission principal broken = failed
resolve permission principal (found role) = decide permission principal (truthy role)

module _ (get_by_du_id : String → Lookup) (permission : String) (principal : Principal) where
  abbrev pub by_id : Option String → Verdict
  by_id none = denied
  by_id (some id) = resolve permission principal (get_by_du_id id)

  abbrev pub by_role : Option String → Verdict
  by_role (some role) = decide permission principal (some role)
  by_role none = by_id (truthy principal.du_id)

  -- The guard looks a role up only where the principal carries none.
  unfoldable pub require_permission : Verdict
  unfolding resolve decide
  require_permission = by_role (truthy principal.role)
