-- ===== src/Auth/Tests.antt =====
-- The guard on concrete principals.
use repo_backend_v.Base.{String, true, ◌≡◌, refl, none, some, string_eq}
use repo_backend_v.Auth.Rbac.{
  has_permission, Principal, next, Lookup, found, require_permission, resolve, decide,
}
use repo_backend_v.Auth.Roles.{require_permission-Granted}

may_view : has_permission "viewer" "view_repository" ≡ true
unfolding has_permission
may_view = refl

abbrev by_session : Principal
by_session = record { role = none; du_id = some "871234567" }

abbrev with_role : Principal
with_role = record by_session { role = some "viewer" }

abbrev one_viewer : String → Lookup
one_viewer id = found (some "viewer")

let_through : require_permission one_viewer "view_repository" by_session ≡ next with_role
unfolding require_permission resolve decide has_permission
let_through = refl

require_permission-Granted_example :
    (role : String) × (some "viewer" ≡ some role) × (has_permission role "view_repository" ≡ true)
require_permission-Granted_example =
    require_permission-Granted one_viewer "view_repository" by_session with_role let_through
