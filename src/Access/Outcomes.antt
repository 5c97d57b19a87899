-- ===== src/Access/Outcomes.antt =====
-- What a role operation that succeeds has checked and written (internal/core/roles.go,
-- internal/core/resource_guards.go).
use mailhearth.Common.{
  >>=-eq-ok, guard-eq-ok, keep_if, not, ltb, ◌==◌, Option, some, none, ℕ, ◌≡◌, Bool, true, false,
  not, List, [], ◌∷◌, ◌++◌, arith, Text, text_eq, trim_space,
}
use mailhearth.Access.{
  org_manage, has_permission, permissions_cover, AccessError, forbidden, not_found, ok, guard,
  validate_permissions,
}
use mailhearth.Access.Store.{
  member_count, Db, Role, Member, find_role, find_active, role_of, or_fail,
}
use mailhearth.Access.Guards.{
  active_member_permissions, require_management_permission, require_permissions_grantable,
}
use mailhearth.Access.Roles.{
  set_role, update_role, delete_role, insert_role, insert_role-append, key_taken, RoleInput,
  create_role, custom_key,
}

-- The actor is an active member of the organisation, may manage roles, and holds what is granted.
pub record Authority (db : Db) (org_id actor : ℕ) (perms : List Text) : Type 0 where
  pub held : List Text
  pub role_key : Text
  pub is_held : active_member_permissions db org_id actor ≡ ok (held, role_key)
  pub manages : has_permission held org_manage ≡ true
  pub covers : permissions_cover held perms ≡ true

active_member_permissions-found :
    (db : Db) (org_id actor : ℕ) (m : Member) (r : Role)
    → or_fail (find_active db.members org_id actor) forbidden ≡ ok m
    → or_fail (role_of db m) forbidden ≡ ok r
    → active_member_permissions db org_id actor ≡ ok (r.permissions, r.key)
unfolding active_member_permissions
active_member_permissions-found db org_id actor m r em er = rw (em, er)

require-Authority :
    (db : Db) (org_id actor : ℕ) (perms : List Text) (u v : Unit {0})
    → require_management_permission db org_id actor org_manage ≡ ok u
    → require_permissions_grantable db org_id actor perms ≡ ok v
    → Authority db org_id actor perms
unfolding require_management_permission require_permissions_grantable
require-Authority db org_id actor perms u v h k =
    let (m, em, h1) = >>=-eq-ok (or_fail (find_active db.members org_id actor) forbidden) _ u h in
    let (r, er, h2) = >>=-eq-ok (or_fail (role_of db m) forbidden) _ u h1 in
    let found = active_member_permissions-found db org_id actor m r em er in
    record {
      held = r.permissions;
      role_key = r.key;
      is_held = found;
      manages = guard-eq-ok _ _ u h2;
      covers = guard-eq-ok _ _ v (rw found at k);
    }

abbrev pub new_role : ℕ → ℕ → RoleInput → List Text → Role
new_role id org_id input perms = record {
  id = id;
  org_id = org_id;
  key = custom_key (trim_space input.name);
  name = trim_space input.name;
  description = trim_space input.description;
  permissions = perms;
  builtin = false;
}

-- What a successful CreateRole did.
pub record Created (db : Db) (id org_id actor : ℕ) (input : RoleInput) (db' : Db) : Type 0 where
  pub perms : List Text
  pub valid : validate_permissions input.permissions ≡ ok perms
  pub authority : Authority db org_id actor perms
  pub key_free : key_taken db.roles org_id (custom_key (trim_space input.name)) ≡ false
  pub roles : db'.roles ≡ db.roles ++ new_role id org_id input perms ∷ []
  pub members : db'.members ≡ db.members

-- If CreateRole succeeds, the actor is an active member of the organisation who may manage it,
-- the permissions are the validated ones of the request, all of them held by the actor, no role of
-- the organisation has the new key, and the role table has one more row, a role with this key and
-- these permissions that is not built in; the members are unchanged.
pub create_role-Created :
    (db : Db) (id org_id actor : ℕ) (input : RoleInput) (r : Role) (db' : Db)
    → create_role db id org_id actor input ≡ ok (r, db')
    → Created db id org_id actor input db'
unfolding create_role custom_key
create_role-Created db id org_id actor input r db' h =
    let (_, _, h1) = >>=-eq-ok (guard (not (text_eq (trim_space input.name) [])) _) _ (r, db') h in
    let (perms, ep, h2) = >>=-eq-ok (validate_permissions input.permissions) _ (r, db') h1 in
    let (u, eu, h3) =
      >>=-eq-ok (require_management_permission db org_id actor org_manage) _ (r, db') h2 in
    let (v, ev, h4) =
      >>=-eq-ok (require_permissions_grantable db org_id actor perms) _ (r, db') h3 in
    let (ins, ei, h5) = >>=-eq-ok (insert_role db (new_role id org_id input perms)) _ (r, db') h4 in
    let (r', er, h6) =
      >>=-eq-ok (or_fail (find_role ins.roles org_id id) not_found) _ (r, db') h5 in
    let row = insert_role-append db (new_role id org_id input perms) ins ei in
    record {
      perms = perms;
      valid = ep;
      authority = require-Authority db org_id actor perms u v eu ev;
      key_free = row.2;
      roles = ground arith;
      members = ground arith;
    }

-- What a successful UpdateRole did.
pub record Updated (db : Db) (org_id actor id : ℕ) (input : RoleInput) (db' : Db) : Type 0 where
  pub perms : List Text
  pub valid : validate_permissions input.permissions ≡ ok perms
  pub authority : Authority db org_id actor perms
  pub old : Role
  pub found : find_role db.roles org_id id ≡ some old
  pub custom : old.builtin ≡ false
  pub roles :
      db'.roles ≡ set_role id (trim_space input.name) (trim_space input.description) perms db.roles
  pub members : db'.members ≡ db.members

pub or_fail-eq-ok {ℓ} :
    {A : Type ℓ} (o : Option A) (e : AccessError) (a : A) → or_fail o e ≡ ok a → o ≡ some a
or_fail-eq-ok none e a h = cc
or_fail-eq-ok (some b) e a h = cc

not-eq-true : (b : Bool) → not b ≡ true → b ≡ false
not-eq-true b h = ground arith

-- If UpdateRole succeeds, the role exists and is not built in, the actor is an active member of
-- the organisation who may manage it and holds all the validated permissions of the request, and
-- the table differs only in that the rows with this id have the new name, description and
-- permissions; the members are unchanged.
pub update_role-Updated :
    (db : Db) (org_id actor id : ℕ) (input : RoleInput) (r : Role) (db' : Db)
    → update_role db org_id actor id input ≡ ok (r, db')
    → Updated db org_id actor id input db'
unfolding update_role
update_role-Updated db org_id actor id input r db' h =
    let (old, eo, h1) = >>=-eq-ok (or_fail (find_role db.roles org_id id) not_found) _ (r, db') h in
    let (w, ew, h2) = >>=-eq-ok (guard (not old.builtin) _) _ (r, db') h1 in
    let (_, _, h3) = >>=-eq-ok (guard (not (text_eq (trim_space input.name) [])) _) _ (r, db') h2 in
    let (perms, ep, h4) = >>=-eq-ok (validate_permissions input.permissions) _ (r, db') h3 in
    let (u, eu, h5) =
      >>=-eq-ok (require_management_permission db org_id actor org_manage) _ (r, db') h4 in
    let (v, ev, h6) =
      >>=-eq-ok (require_permissions_grantable db org_id actor perms) _ (r, db') h5 in
    let (r', er, h7) =
      >>=-eq-ok
        (or_fail
          (find_role
            (set_role id (trim_space input.name) (trim_space input.description) perms db.roles)
            org_id id)
          not_found)
        _ (r, db') h6 in
    record {
      perms = perms;
      valid = ep;
      authority = require-Authority db org_id actor perms u v eu ev;
      old = old;
      found = or_fail-eq-ok _ _ old eo;
      custom = not-eq-true _ (guard-eq-ok _ _ w ew);
      roles = ground arith;
      members = ground arith;
    }

-- What a successful DeleteRole did.
pub record Deleted (db : Db) (org_id id : ℕ) (db' : Db) : Type 0 where
  pub old : Role
  pub found : find_role db.roles org_id id ≡ some old
  pub custom : old.builtin ≡ false
  pub unused : member_count db old.id ≡ 0
  pub roles : db'.roles ≡ keep_if (λ q. not (q.id == id)) db.roles
  pub members : db'.members ≡ db.members

-- If DeleteRole succeeds, the role exists, is not built in and no member has it, and exactly the
-- rows with this id are gone; the members are unchanged.
pub delete_role-Deleted :
    (db : Db) (org_id actor id : ℕ) (db' : Db)
    → delete_role db org_id actor id ≡ ok db'
    → Deleted db org_id id db'
unfolding delete_role
delete_role-Deleted db org_id actor id db' h =
    let (old, eo, h1) = >>=-eq-ok (or_fail (find_role db.roles org_id id) not_found) _ db' h in
    let (w, ew, h2) = >>=-eq-ok (guard (not old.builtin) _) _ db' h1 in
    let (z, ez, h3) = >>=-eq-ok (guard (not (ltb 0 (member_count db old.id))) _) _ db' h2 in
    record {
      old = old;
      found = or_fail-eq-ok _ _ old eo;
      custom = not-eq-true _ (guard-eq-ok _ _ w ew);
      unused = ground (arith, guard-eq-ok (not (ltb 0 (member_count db old.id))) _ z ez);
      roles = ground arith;
      members = ground arith;
    }
