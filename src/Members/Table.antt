-- ===== src/Members/Table.antt =====
-- The table members with what internal/core/members.go reads and writes of it, and the UPDATEs and
-- the DELETE of one row. An id is a primary key, so the first row that has it is the only one.
use mailhearth.Common.{
  ℕ, Bool, false, ◌&&◌, List, [], ◌∷◌, map, Option, none, some, Text, ◌==◌, text_eq, find_if,
  count_if, if◌then◌else◌, Outcome, ok, err,
}
use mailhearth.Access.{AccessError}
use mailhearth.Access.Store.{MemberStatus, Role, Member, Db, find_role}
use mailhearth.Access.Guards.{role_owner}

pub record Person : Type 0 where
  pub id : ℕ
  pub org_id : ℕ
  pub display_name : Text
  pub login_email : Text
  pub role_id : ℕ
  pub title : Text
  pub department : Text
  pub status : MemberStatus
  pub revision : ℕ

-- What a request reads at one moment; `locked` are the keys of operation_locks that another
-- operation of the organisation holds.
pub record View : Type 0 where
  pub roles : List Role
  pub people : List Person
  pub locked : List Text

pub data MemberError : Type 0 where
  access_error : AccessError → MemberError
  not_found forbidden invalid revision_conflict conflict operation_in_progress member_in_use :
      MemberError

abbrev pub Result {ℓ} : Type ℓ → Type ℓ
Result A = Outcome MemberError A

abbrev pub lift {ℓ} : {A : Type ℓ} → Outcome AccessError A → Result A
lift (err e) = err (access_error e)
lift (ok a) = ok a

abbrev pub or_fail {ℓ} : {A : Type ℓ} → Option A → MemberError → Result A
or_fail none e = err e
or_fail (some a) e = ok a

-- The columns that the guards read.
abbrev pub as_member : Person → Member
as_member m = record { id = m.id; org_id = m.org_id; role_id = m.role_id; status = m.status }

abbrev pub access_view : View → Db
access_view v = record { roles = v.roles; members = map as_member v.people; audit = [] }

abbrev pub is_person : ℕ → ℕ → Person → Bool
is_person org_id id m = (m.org_id == org_id) && (m.id == id)

-- WHERE m.org_id = ? AND m.id = ?
unfoldable pub find_person : List Person → ℕ → ℕ → Option Person
unfolding find_if
find_person people org_id id = find_if (is_person org_id id) people

-- WHERE r.org_id = ? AND r.key = ?
unfoldable pub role_by_key : List Role → ℕ → Text → Option Role
unfolding find_if text_eq
role_by_key roles org_id key = find_if (λ r. (r.org_id == org_id) && text_eq r.key key) roles

-- The role key that comes with a member by the JOIN with roles.
unfoldable pub has_key : List Role → Person → Text → Bool
unfolding find_role text_eq
has_key roles m key = elim (find_role roles m.org_id m.role_id) [
  | none ↦ false
  | some r ↦ text_eq r.key key
]

unfoldable pub is_owner : List Role → Person → Bool
unfolding has_key
is_owner roles m = has_key roles m role_owner

-- UPDATE members SET ... WHERE id=? AND org_id=? AND ..., and one row must be affected.
unfoldable pub update_where :
    (Person → Bool) → (Person → Person) → ℕ → ℕ → List Person → Option (List Person)
update_where test f org_id id [] = none
update_where test f org_id id (m ∷ people) =
    let rest = update_where test f org_id id people in
    if is_person org_id id m
    then (if test m then some (f m ∷ people) else none)
    else elim rest [ none ↦ none | some ms ↦ some (m ∷ ms) ]

-- DELETE FROM members WHERE id=? AND org_id=? AND ..., and one row must be affected.
unfoldable pub delete_where : (Person → Bool) → ℕ → ℕ → List Person → Option (List Person)
delete_where test org_id id [] = none
delete_where test org_id id (m ∷ people) =
    let rest = delete_where test org_id id people in
    if is_person org_id id m
    then (if test m then some people else none)
    else elim rest [ none ↦ none | some ms ↦ some (m ∷ ms) ]

-- The members of an organisation whose role is the owner's.
unfoldable pub owners : List Role → ℕ → List Person → ℕ
unfolding count_if is_owner
owners roles org_id people = count_if (λ m. (m.org_id == org_id) && is_owner roles m) people
