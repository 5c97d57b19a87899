-- ===== src/Members/Handle.antt =====
-- The requests of internal/core/members.go and internal/core/member_status_operations.go that write a
-- member, and the one owner that each leaves.
use mailhearth.Common.{ℕ, Bool, ◌≡◌, ◌∙◌, List, Option, Text, ok}
use mailhearth.Members.Table.{Person, View, Result, owners}
use mailhearth.Members.Manage.{MemberInput, update_member, transfer_ownership, delete_member}
use mailhearth.Members.Status.{StatusInput, set_status, accept_invite}
use mailhearth.Members.Settled.{set_status-owners, accept_invite-owners}
use mailhearth.Members.Versions.{Later, Sole, Wrote}
use mailhearth.Members.Preserve.{Keyed, transfer_ownership-owners, delete_member-owners}
use mailhearth.Members.Updates.{update_member-owners}

-- Each request of an actor in an organisation; `deletes` has the count of what names the member.
pub data Request : Type 0 where
  updates : ℕ → MemberInput → Request
  transfers : ℕ → Request
  deletes : ℕ → ℕ → ℕ → Request
  settles : ℕ → Bool → Result (Unit {0}) → StatusInput → Request
  accepts : ℕ → Bool → Text → Request

module _ (to_lower : Text → Text) (parse_address : Text → Option Text) where
  unfoldable pub handle : View → View → ℕ → ℕ → Request → Result (List Person)
  unfolding update_member transfer_ownership delete_member set_status accept_invite
  handle before v org_id actor (updates id in_) =
      update_member to_lower parse_address before v org_id actor id in_
  handle before v org_id actor (transfers id) = transfer_ownership before v org_id actor id
  handle before v org_id actor (deletes id revision dependencies) =
      delete_member before v org_id actor id revision dependencies
  handle before v org_id actor (settles id has_password checked in_) =
      set_status before v org_id actor id has_password checked in_
  handle before v org_id actor (accepts id is_open name) = accept_invite v org_id id is_open name

  pub handle-owners :
      (before v : View) (org_id actor : ℕ) (q : Request) (after : List Person)
      → before.roles ≡ v.roles
      → Keyed v.roles org_id
      → Later org_id before.people v.people
      → Sole org_id v.people
      → owners v.roles org_id v.people ≡ 1
      → handle before v org_id actor q ≡ ok after
      → (owners v.roles org_id after ≡ 1) × Wrote org_id v.people after
  unfolding handle
  handle-owners before v org_id actor (updates id in_) after same k l s one h =
      let (eq, w) =
        update_member-owners to_lower parse_address before v org_id actor id in_ after same l s h in
      (eq ∙ one, w)
  handle-owners before v org_id actor (transfers id) after same k l s one h =
      transfer_ownership-owners before v org_id actor id after same k one s h
  handle-owners before v org_id actor (deletes id revision n) after same k l s one h =
      let (eq, w) = delete_member-owners before v org_id actor id revision n after s h in
      (eq ∙ one, w)
  handle-owners before v org_id actor (settles id has_password checked in_) after same k l s one h =
      let (eq, w) = set_status-owners before v org_id actor id has_password checked in_ after s h in
      (eq ∙ one, w)
  handle-owners before v org_id actor (accepts id is_open name) after same k l s one h =
      let (eq, w) = accept_invite-owners v org_id id is_open name after s h in (eq ∙ one, w)
