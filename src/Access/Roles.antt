-- ===== src/Access/Roles.antt =====
-- CreateRole, UpdateRole and DeleteRole of internal/core/roles.go. The id of a new row is SQLite's
-- choice and comes as an argument. The audit entry keeps what the log is searched by.
use mailhearth.Common.{
  ◌≡◌, arith, ℕ, ◌+◌, Bool, false, not, ◌&&◌, ◌||◌, List, [], ◌∷◌, ◌++◌, map, Text, codes, text_eq,
  trim_space, ◌==◌, leb, ltb, if◌then◌else◌, keep_if,
}
use mailhearth.Access.{
  org_manage, Result, ok, err, guard, ◌>>=◌, ◌>>◌, validate_permissions, name_required, conflict,
  builtin_not_editable, builtin_not_deletable, role_in_use, not_found,
}
use mailhearth.Access.Store.{Db, Role, find_role, member_count, or_fail}
use mailhearth.Access.Guards.{require_management_permission, require_permissions_grantable}

pub record RoleInput : Type 0 where
  pub name : Text
  pub description : Text
  pub permissions : List Text

-- A letter or a digit of ASCII in lower case, and a dash for any other character.
unfoldable pub key_char : ℕ → ℕ
key_char r =
    if leb b'a' r && leb r b'z'
    then r
    else if leb b'A' r && leb r b'Z'
    then r + 32
    else if leb b'0' r && leb r b'9'
    then r
    else b'-'

unfoldable pub custom_key : Text → Text
unfolding key_char
custom_key name = codes "custom-" ++ map key_char name

-- s.audit
audit : Db → ℕ → ℕ → Text → ℕ → Db
audit db org_id actor action target = record db {
  audit =
      db.audit ++ record { org_id = org_id; actor = actor; action = action; target = target } ∷ [];
}

-- UNIQUE(org_id, key)
unfoldable pub key_taken : List Role → ℕ → Text → Bool
key_taken [] org_id key = false
key_taken (r ∷ roles) org_id key =
    ((r.org_id == org_id) && text_eq r.key key) || key_taken roles org_id key

unfoldable pub insert_role : Db → Role → Result Db
unfolding key_taken
insert_role db r =
    if key_taken db.roles r.org_id r.key
    then err conflict
    else ok (record db { roles = db.roles ++ r ∷ [] })

unfoldable pub create_role : Db → ℕ → ℕ → ℕ → RoleInput → Result (Role × Db)
unfolding audit custom_key
create_role db id org_id actor input = do
  let name = trim_space input.name
  guard (not (text_eq name [])) name_required
  perms ← validate_permissions input.permissions
  require_management_permission db org_id actor org_manage
  require_permissions_grantable db org_id actor perms
  inserted ← insert_role db (record {
    id = id;
    org_id = org_id;
    key = custom_key name;
    name = name;
    description = trim_space input.description;
    permissions = perms;
    builtin = false;
  })
  let db' = audit inserted org_id actor (codes "role.create") id
  r ← or_fail (find_role db'.roles org_id id) not_found
  ok (r, db')

-- UPDATE roles SET name, description, permissions_json WHERE id = ?
unfoldable pub set_role : ℕ → Text → Text → List Text → List Role → List Role
set_role id name description perms [] = []
set_role id name description perms (r ∷ roles) =
    let rest = set_role id name description perms roles in
    if r.id == id
    then record r { name = name; description = description; permissions = perms } ∷ rest
    else r ∷ rest

unfoldable pub update_role : Db → ℕ → ℕ → ℕ → RoleInput → Result (Role × Db)
unfolding audit
update_role db org_id actor id input = do
  r ← or_fail (find_role db.roles org_id id) not_found
  guard (not r.builtin) builtin_not_editable
  let name = trim_space input.name
  guard (not (text_eq name [])) name_required
  perms ← validate_permissions input.permissions
  require_management_permission db org_id actor org_manage
  require_permissions_grantable db org_id actor perms
  let roles = set_role id name (trim_space input.description) perms db.roles
  let db' = audit (record db { roles = roles }) org_id actor (codes "role.update") id
  r' ← or_fail (find_role db'.roles org_id id) not_found
  ok (r', db')

unfoldable pub delete_role : Db → ℕ → ℕ → ℕ → Result Db
unfolding audit
delete_role db org_id actor id = do
  r ← or_fail (find_role db.roles org_id id) not_found
  guard (not r.builtin) builtin_not_deletable
  let used = member_count db r.id
  guard (not (ltb 0 used)) (role_in_use used)
  let roles = keep_if (λ q. not (q.id == id)) db.roles
  ok (audit (record db { roles = roles }) org_id actor (codes "role.delete") id)

-- A request to the role operations. A request that fails changes nothing.
pub data Request : Type 0 where
  creates : ℕ → ℕ → RoleInput → Request
  updates : ℕ → ℕ → RoleInput → Request
  deletes : ℕ → ℕ → Request

abbrev pub after_role : Db → Result (Role × Db) → Db
after_role db (ok (r, db')) = db'
after_role db (err e) = db

abbrev pub after_db : Db → Result Db → Db
after_db db (ok db') = db'
after_db db (err e) = db

unfoldable pub handle : ℕ → Db → Request → Db
handle org_id db (creates id actor input) = after_role db (create_role db id org_id actor input)
handle org_id db (updates actor id input) = after_role db (update_role db org_id actor id input)
handle org_id db (deletes actor id) = after_db db (delete_role db org_id actor id)

unfoldable pub handle_all : ℕ → Db → List Request → Db
unfolding handle
handle_all org_id db [] = db
handle_all org_id db (q ∷ requests) = handle_all org_id (handle org_id db q) requests

-- A row that is inserted goes to the end of the table.
pub insert_role-append :
    (db : Db) (r : Role) (db' : Db)
    → insert_role db r ≡ ok db'
    → (db'.roles ≡ db.roles ++ r ∷ [])
      × (db'.members ≡ db.members)
      × (key_taken db.roles r.org_id r.key ≡ false)
unfolding insert_role
insert_role-append db r db' h = ground arith
