-- ===== src/Members/Manage.antt =====
-- `UpdateMember`, `TransferOwnership` and `DeleteMember` of internal/core/members.go. A request reads
-- at one moment (`before`) and writes in a transaction at a later one (`v`).
use mailhearth.Common.{
  ℕ, ◌+◌, Bool, true, false, not, ◌&&◌, ◌||◌, List, [], ◌∷◌, ◌++◌, Option, none, some, Text, codes,
  ◌==◌, ltb, text_eq, contains, decimal, trim_space, if◌then◌else◌, ok, err, guard, ◌>>=◌, ◌>>◌,
}
use mailhearth.Access.Store.{MemberStatus, invited, departed, Role, find_role, is_active}
use mailhearth.Access.Guards.{
  role_owner, require_management_permission, require_member_manageable, require_role_grantable,
}
use mailhearth.Members.Table.{
  Person, View, Result, not_found, forbidden, invalid, revision_conflict, conflict,
  operation_in_progress, member_in_use, lift, or_fail, access_view, find_person, role_by_key,
  is_owner, update_where, delete_where,
}

-- MemberInput
pub record MemberInput : Type 0 where
  pub expected_revision : ℕ
  pub display_name : Text
  pub login_email : Text
  pub role_id : ℕ
  pub title : Text
  pub department : Text

abbrev pub members_manage : Text
members_manage = codes "members.manage"

unfoldable pub is_empty : Text → Bool
is_empty [] = true
is_empty (c ∷ s) = false

abbrev pub member_lock : ℕ → Text
member_lock id = codes "member:" ++ decimal id

abbrev pub login_lock : Text → Text
login_lock login = codes "member-login:" ++ login

-- requireResourceAvailable
unfoldable pub require_available : List Text → List Text → Result (Unit {0})
unfolding contains
require_available locked [] = ok tt
require_available locked (key ∷ keys) =
    let rest = require_available locked keys in
    if contains locked key then err operation_in_progress else rest

-- NormalizeEmail: strings.ToLower and the parser of net/mail are parameters.
unfoldable pub normalize_email : (Text → Text) → (Text → Option Text) → Text → Result Text
unfolding trim_space is_empty text_eq
normalize_email to_lower parse_address s =
    let t : Text = to_lower (trim_space s) in
    if is_empty t then err invalid else elim (parse_address t) [
      | none ↦ err invalid
      | some a ↦ if text_eq a t then ok t else err invalid
    ]

unfoldable pub choose_name : MemberInput → Person → Text
unfolding trim_space is_empty
choose_name in_ m =
    if is_empty (trim_space in_.display_name) then m.display_name else trim_space in_.display_name

-- The role that the member shall have.
unfoldable pub choose_role : View → ℕ → ℕ → ℕ → MemberInput → Person → Result ℕ
unfolding find_role text_eq is_owner
choose_role before org_id actor id in_ m =
    if (in_.role_id == 0) || (in_.role_id == m.role_id) then ok m.role_id else do
      r ← or_fail (find_role before.roles org_id in_.role_id) invalid
      guard (not (text_eq r.key role_owner || is_owner before.roles m)) invalid
      guard (not (actor == id)) invalid
      ok in_.role_id

-- UNIQUE(org_id, login_email)
unfoldable pub login_taken : List Person → ℕ → ℕ → Text → Bool
unfolding text_eq
login_taken [] org_id id login = false
login_taken (m ∷ people) org_id id login =
    ((m.org_id == org_id) && (not (m.id == id) && text_eq m.login_email login))
    || login_taken people org_id id login

unfoldable pub write_member : View → ℕ → ℕ → MemberInput → Text → Text → ℕ → Result (List Person)
unfolding update_where login_taken trim_space
write_member v org_id id in_ name login role_id = do
  people ←
      or_fail
        (update_where (λ m. m.revision == in_.expected_revision)
          (λ m. record m {
            display_name = name;
            login_email = login;
            role_id = role_id;
            title = trim_space in_.title;
            department = trim_space in_.department;
            revision = m.revision + 1;
          })
          org_id id v.people)
        revision_conflict
  guard (not (login_taken v.people org_id id login)) conflict
  ok people

-- The transaction of UpdateMember.
unfoldable pub update_in :
    View → ℕ → ℕ → ℕ → MemberInput → Person → Text → Text → ℕ → Result (List Person)
unfolding require_management_permission require_member_manageable require_role_grantable
    require_available write_member
update_in v org_id actor id in_ m name login role_id = do
  lift (require_management_permission (access_view v) org_id actor members_manage)
  lift (require_member_manageable (access_view v) org_id actor id)
  if role_id == m.role_id
      then ok tt
      else lift (require_role_grantable (access_view v) org_id actor role_id)
  require_available v.locked (member_lock id ∷ (login_lock login ∷ []))
  write_member v org_id id in_ name login role_id

unfoldable pub choose_login :
    (Text → Text) → (Text → Option Text) → MemberInput → Person → Result Text
unfolding trim_space is_empty normalize_email
choose_login to_lower parse_address in_ m =
    if is_empty (trim_space in_.login_email)
    then ok m.login_email
    else normalize_email to_lower parse_address in_.login_email

module _ (to_lower : Text → Text) (parse_address : Text → Option Text) where
  unfoldable pub update_member : View → View → ℕ → ℕ → ℕ → MemberInput → Result (List Person)
  unfolding require_management_permission find_person choose_name choose_login choose_role update_in
  update_member before v org_id actor id in_ = do
    lift (require_management_permission (access_view before) org_id actor members_manage)
    m ← or_fail (find_person before.people org_id id) not_found
    guard (ltb 0 in_.expected_revision && (in_.expected_revision == m.revision)) revision_conflict
    login ← choose_login to_lower parse_address in_ m
    role_id ← choose_role before org_id actor id in_ m
    update_in v org_id actor id in_ m (choose_name in_ m) login role_id

-- SET role_id=?, revision=revision+1
abbrev pub give_role : ℕ → Person → Person
give_role role_id m = record m { role_id = role_id; revision = m.revision + 1 }

-- The two updates of the transaction of TransferOwnership.
unfoldable pub swap_roles : View → ℕ → Person → Person → Role → Role → Result (List Person)
unfolding update_where is_active
swap_roles v org_id from to owner admin = do
  people ←
      or_fail
        (update_where
          (λ m. (m.revision == from.revision) && (is_active m.status && (m.role_id == owner.id)))
          (give_role admin.id) org_id from.id v.people)
        conflict
  or_fail
      (update_where (λ m. (m.revision == to.revision) && is_active m.status) (give_role owner.id)
        org_id to.id people)
      conflict

unfoldable pub transfer_ownership : View → View → ℕ → ℕ → ℕ → Result (List Person)
unfolding find_person is_owner is_active role_by_key require_available swap_roles
transfer_ownership before v org_id actor to_member_id = do
  from ← or_fail (find_person before.people org_id actor) not_found
  guard (is_owner before.roles from) forbidden
  to ← or_fail (find_person before.people org_id to_member_id) not_found
  guard (is_active to.status) invalid
  owner ← or_fail (role_by_key before.roles org_id role_owner) not_found
  admin ← or_fail (role_by_key before.roles org_id (codes "admin")) not_found
  require_available v.locked (member_lock actor ∷ (member_lock to_member_id ∷ []))
  swap_roles v org_id from to owner admin

-- status IN ('invited','departed')
unfoldable pub is_deletable : MemberStatus → Bool
is_deletable invited = true
is_deletable departed = true
is_deletable _ = false

-- `dependencies` is how many mailboxes, groups, grants and entries of the history name the member.
unfoldable pub delete_in : View → ℕ → ℕ → ℕ → ℕ → ℕ → Person → Result (List Person)
unfolding require_management_permission require_member_manageable require_available delete_where
    is_deletable
delete_in v org_id actor id expected_revision dependencies m = do
  lift (require_management_permission (access_view v) org_id actor members_manage)
  lift (require_member_manageable (access_view v) org_id actor id)
  require_available v.locked (member_lock id ∷ (login_lock m.login_email ∷ []))
  guard (dependencies == 0) member_in_use
  or_fail
      (delete_where (λ q. (q.revision == expected_revision) && is_deletable q.status) org_id id
        v.people)
      revision_conflict

unfoldable pub delete_member : View → View → ℕ → ℕ → ℕ → ℕ → ℕ → Result (List Person)
unfolding require_management_permission find_person is_owner is_deletable delete_in
delete_member before v org_id actor id expected_revision dependencies = do
  lift (require_management_permission (access_view before) org_id actor members_manage)
  m ← or_fail (find_person before.people org_id id) not_found
  guard (not (is_owner before.roles m)) invalid
  guard (not (actor == id)) invalid
  guard (ltb 0 expected_revision && (expected_revision == m.revision)) revision_conflict
  guard (is_deletable m.status) invalid
  delete_in v org_id actor id expected_revision dependencies m
