-- ===== src/Auth/Roles.antt =====
-- The order of the roles, and what the guard of a route lets through.
use repo_backend_v.Base.{
  String, true, ◌≡◌, ap, Option, none, some, [], ◌∷◌, arith, string_eq, contains, Bool-cases, inl,
  inr,
}
use repo_backend_v.Auth.Rbac.{
  has_permission, Principal, Verdict, next, denied, failed, Lookup, broken, found, decide, resolve,
  truthy, require_permission, by_id, by_role,
}

-- What a viewer may do staff may do, and an administrator too.
pub has_permission-grows :
    (permission : String)
    → has_permission "viewer" permission ≡ true
    → (has_permission "staff" permission ≡ true) × (has_permission "admin" permission ≡ true)
unfolding has_permission
has_permission-grows permission h = (ground arith, ground arith)

-- Only the three roles grant anything.
pub has_permission-known :
    (role permission : String)
    → has_permission role permission ≡ true
    → contains ("viewer" ∷ "staff" ∷ "admin" ∷ []) role ≡ true
unfolding has_permission contains
has_permission-known role permission h = ground arith

abbrev Granted : String → Principal → Type 0
Granted permission user =
    (role : String) × (user.role ≡ some role) × (has_permission role permission ≡ true)

abbrev passed : Verdict → Option Principal
passed (next user) = some user
passed denied = none
passed failed = none

decide-Granted :
    (permission : String) (principal : Principal) (role : Option String) {user : Principal}
    → passed (decide permission principal role) ≡ some user
    → Granted permission user
unfolding decide
decide-Granted permission principal none h = cc
decide-Granted permission principal (some role) {user} h =
    elim (Bool-cases (has_permission role permission)) [
      | inl e ↦
          let same : some (record principal { role = some role }) ≡ some user = rw e at h in
          (role, ground (arith, same), e)
      | inr e ↦ let absurd : none ≡ some user = rw e at h in cc
    ]

module _ (get_by_du_id : String → Lookup) (permission : String) (principal : Principal)
    {user : Principal} where
  resolve-Granted :
      (answer : Lookup)
      → passed (resolve permission principal answer) ≡ some user
      → Granted permission user
  unfolding resolve
  resolve-Granted broken h = cc
  resolve-Granted (found role) h = decide-Granted permission principal (truthy role) h

  by_id-Granted :
      (id : Option String)
      → passed (by_id get_by_du_id permission principal id) ≡ some user
      → Granted permission user
  by_id-Granted none h = cc
  by_id-Granted (some id) h = resolve-Granted (get_by_du_id id) h

  by_role-Granted :
      (role : Option String)
      → passed (by_role get_by_du_id permission principal role) ≡ some user
      → Granted permission user
  by_role-Granted none h = by_id-Granted (truthy principal.du_id) h
  by_role-Granted (some role) h = decide-Granted permission principal (some role) h

-- The guard passes a request on only under a role that grants the permission, whatever the principal
-- carries and whatever the user table answers.
pub require_permission-Granted :
    (get_by_du_id : String → Lookup) (permission : String) (principal user : Principal)
    → require_permission get_by_du_id permission principal ≡ next user
    → (role : String) × (user.role ≡ some role) × (has_permission role permission ≡ true)
unfolding require_permission
require_permission-Granted get_by_du_id permission principal user h =
    by_role-Granted get_by_du_id permission principal (truthy principal.role) (ap passed h)
