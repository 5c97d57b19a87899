-- ===== src/Access/Store.antt =====
-- The tables roles, members and audit_log as far as the role operations read and write them
-- (internal/db/migrations/0001_init.sql), and the SELECTs of internal/core/roles.go and
-- internal/core/resource_guards.go. Ids are unique, so the first row that fits is the only one.
use mailhearth.Common.{
  ℕ, Bool, true, false, ◌&&◌, List, Option, none, some, Text, ◌==◌, find_if, count_if,
}
use mailhearth.Access.{AccessError, Result, ok, err}

pub data MemberStatus : Type 0 where
  invited active disabled departed : MemberStatus

pub record Role : Type 0 where
  pub id : ℕ
  pub org_id : ℕ
  pub key : Text
  pub name : Text
  pub description : Text
  pub permissions : List Text
  pub builtin : Bool

pub record Member : Type 0 where
  pub id : ℕ
  pub org_id : ℕ
  pub role_id : ℕ
  pub status : MemberStatus

pub record AuditEntry : Type 0 where
  pub org_id : ℕ
  pub actor : ℕ
  pub action : Text
  pub target : ℕ

pub record Db : Type 0 where
  pub roles : List Role
  pub members : List Member
  pub audit : List AuditEntry

unfoldable pub is_active : MemberStatus → Bool
is_active active = true
is_active _ = false

-- WHERE r.org_id = ? AND r.id = ?
unfoldable pub find_role : List Role → ℕ → ℕ → Option Role
find_role roles org_id id = find_if (λ r. (r.org_id == org_id) && (r.id == id)) roles

-- SELECT COUNT(1) FROM members m WHERE m.role_id = r.id
unfoldable pub member_count : Db → ℕ → ℕ
member_count db role_id = count_if (λ m. m.role_id == role_id) db.members

-- WHERE m.org_id=? AND m.id=? AND m.status='active'
unfoldable pub find_active : List Member → ℕ → ℕ → Option Member
unfolding is_active
find_active members org_id id =
    find_if (λ m. (m.org_id == org_id) && ((m.id == id) && is_active m.status)) members

-- WHERE m.org_id=? AND m.id=?
unfoldable pub find_member : List Member → ℕ → ℕ → Option Member
find_member members org_id id = find_if (λ m. (m.org_id == org_id) && (m.id == id)) members

abbrev pub or_fail {ℓ} : {A : Type ℓ} → Option A → AccessError → Result A
or_fail none e = err e
or_fail (some a) e = ok a

-- The JOIN of a member with its role: r.id=m.role_id AND r.org_id=m.org_id.
unfoldable pub role_of : Db → Member → Option Role
unfolding find_role
role_of db m = find_role db.roles m.org_id m.role_id
