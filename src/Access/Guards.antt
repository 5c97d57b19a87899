-- ===== src/Access/Guards.antt =====
-- The guards of internal/core/resource_guards.go: who may manage whom, and grant what.
use mailhearth.Common.{ℕ, List, Text, codes, text_eq, ◌==◌, if◌then◌else◌}
use mailhearth.Access.{
  has_permission, permissions_cover, forbidden, not_found, Result, ok, err, guard, ◌>>=◌,
}
use mailhearth.Access.Store.{Db, find_active, find_member, find_role, role_of, or_fail}

-- RoleOwner
abbrev pub role_owner : Text
role_owner = codes "owner"

-- The permissions and the role key of an active member of the organisation.
unfoldable pub active_member_permissions : Db → ℕ → ℕ → Result (List Text × Text)
active_member_permissions db org_id member_id = do
  m ← or_fail (find_active db.members org_id member_id) forbidden
  r ← or_fail (role_of db m) forbidden
  ok (r.permissions, r.key)

unfoldable pub require_management_permission : Db → ℕ → ℕ → Text → Result (Unit {0})
require_management_permission db org_id actor required = do
  m ← or_fail (find_active db.members org_id actor) forbidden
  r ← or_fail (role_of db m) forbidden
  guard (has_permission r.permissions required) forbidden

unfoldable pub require_permissions_grantable : Db → ℕ → ℕ → List Text → Result (Unit {0})
unfolding active_member_permissions
require_permissions_grantable db org_id actor permissions = do
  held ← active_member_permissions db org_id actor
  guard (permissions_cover held.0 permissions) forbidden

unfoldable pub require_role_grantable : Db → ℕ → ℕ → ℕ → Result (Unit {0})
unfolding require_permissions_grantable
require_role_grantable db org_id actor role_id = do
  r ← or_fail (find_role db.roles org_id role_id) not_found
  require_permissions_grantable db org_id actor r.permissions

-- The checks on a target that is another member.
unfoldable pub manageable_other : Db → ℕ → ℕ → ℕ → Result (Unit {0})
unfolding active_member_permissions
manageable_other db org_id actor target = do
  held ← active_member_permissions db org_id actor
  m ← or_fail (find_member db.members org_id target) not_found
  r ← or_fail (role_of db m) not_found
  if text_eq r.key role_owner
      then err forbidden
      else guard (permissions_cover held.0 r.permissions) forbidden

unfoldable pub require_member_manageable : Db → ℕ → ℕ → ℕ → Result (Unit {0})
unfolding manageable_other
require_member_manageable db org_id actor target =
    if actor == target then ok tt else manageable_other db org_id actor target
