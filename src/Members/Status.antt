-- ===== src/Members/Status.antt =====
-- The status of members: a change of it, internal/core/member_status_operations.go, for a member that
-- is in no group, and the acceptance of an invitation, `AcceptInvite` of internal/core/members.go.
use mailhearth.Common.{
  ℕ, ◌+◌, Bool, true, false, not, ◌&&◌, ◌||◌, List, [], ◌∷◌, Option, Text, ◌==◌, ltb, trim_space,
  if◌then◌else◌, ok, guard, ◌>>=◌, ◌>>◌,
}
use mailhearth.Access.Store.{MemberStatus, invited, active, disabled, departed}
use mailhearth.Access.Guards.{require_member_manageable}
use mailhearth.Members.Table.{
  Person, View, Result, not_found, invalid, revision_conflict, lift, or_fail, access_view,
  find_person, is_owner, update_where,
}
use mailhearth.Members.Manage.{is_empty, member_lock, require_available}

-- MemberStatusInput
pub record StatusInput : Type 0 where
  pub expected_revision : ℕ
  pub enabled : Option Bool

-- memberStatusPlan, without groups
pub record StatusPlan : Type 0 where
  pub member_id : ℕ
  pub revision : ℕ
  pub status : MemberStatus

unfoldable pub is_departed : MemberStatus → Bool
is_departed departed = true
is_departed _ = false

unfoldable pub planned_status : Bool → Bool → MemberStatus
planned_status enabled has_password =
    if enabled then (if has_password then active else invited) else disabled

unfoldable pub prepare_status : View → ℕ → ℕ → ℕ → Bool → StatusInput → Result StatusPlan
unfolding find_person is_departed require_member_manageable is_owner planned_status
prepare_status before org_id actor id has_password in_ = do
  enabled ← or_fail in_.enabled invalid
  m ← or_fail (find_person before.people org_id id) not_found
  guard (ltb 0 in_.expected_revision && (in_.expected_revision == m.revision)) revision_conflict
  guard (not (is_departed m.status)) invalid
  lift (require_member_manageable (access_view before) org_id actor m.id)
  guard (enabled || not ((m.id == actor) || is_owner before.roles m)) invalid
  ok (record {
    member_id = m.id;
    revision = m.revision;
    status = planned_status enabled has_password;
  })

unfoldable pub is_planned : StatusPlan → Person → Bool
unfolding is_departed
is_planned plan m = (m.revision == plan.revision) && not (is_departed m.status)

abbrev pub give_status : MemberStatus → Person → Person
give_status status m = record m { status = status; revision = m.revision + 1 }

-- `checked` is what checkOperationPermissionTx answers.
unfoldable pub commit_status : View → ℕ → Result (Unit {0}) → StatusPlan → Result (List Person)
unfolding find_person is_planned update_where
commit_status v org_id checked plan = do
  checked
  m ← or_fail (find_person v.people org_id plan.member_id) revision_conflict
  guard (is_planned plan m) revision_conflict
  or_fail (update_where (is_planned plan) (give_status plan.status) org_id plan.member_id v.people)
      revision_conflict

unfoldable pub set_status :
    View → View → ℕ → ℕ → ℕ → Bool → Result (Unit {0}) → StatusInput → Result (List Person)
unfolding prepare_status commit_status
set_status before v org_id actor id has_password checked in_ = do
  plan ← prepare_status before org_id actor id has_password in_
  commit_status v org_id checked plan

-- status IN ('invited','active')
unfoldable pub is_activatable : MemberStatus → Bool
is_activatable invited = true
is_activatable active = true
is_activatable _ = false

unfoldable pub activate : Text → Person → Person
unfolding is_empty trim_space
activate display_name m = record m {
  status = active;
  display_name =
      if is_empty (trim_space display_name) then m.display_name else trim_space display_name;
  revision = m.revision + 1;
}

-- `is_open` says whether the UPDATE of the invitation affects its row: it has been neither accepted
-- nor has it expired.
unfoldable pub accept_invite : View → ℕ → ℕ → Bool → Text → Result (List Person)
unfolding find_person require_available update_where is_activatable activate
accept_invite v org_id member_id is_open display_name = do
  m ← or_fail (find_person v.people org_id member_id) not_found
  require_available v.locked (member_lock member_id ∷ [])
  guard is_open invalid
  or_fail
      (update_where (λ q. is_activatable q.status) (activate display_name) org_id member_id
        v.people)
      invalid
