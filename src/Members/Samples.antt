-- ===== src/Members/Samples.antt =====
-- Tests of the requests on members at one organisation, and the theorem at its data.
use mailhearth.Common.{
  ◌≡◌, arith, refl, ap, subst, inl, inr, true, false, List, [], ◌∷◌, Option, some, none, Text,
  codes, ok, err, text_eq, find_if, count_if, contains, trim_space, Bool-cases,
}
use mailhearth.Access.{has_permission, permissions_cover}
use mailhearth.Access.Store.{
  Role, active, disabled, departed, invited, find_role, find_member, find_active, role_of,
  is_active,
}
use mailhearth.Access.Guards.{
  require_management_permission, require_member_manageable, require_role_grantable,
  require_permissions_grantable,
}
use mailhearth.Members.Table.{
  Person, View, find_person, role_by_key, has_key, is_owner, update_where, delete_where, owners,
  invalid, conflict, member_in_use, revision_conflict,
}
use mailhearth.Members.Manage.{
  MemberInput, members_manage, is_empty, require_available, choose_name, choose_login, choose_role,
  login_taken, write_member, update_in, update_member, swap_roles, transfer_ownership, is_deletable,
  delete_in, delete_member,
}
use mailhearth.Members.Preserve.{Keyed}
use mailhearth.Members.Versions.{Sole}
use mailhearth.Members.Status.{
  StatusInput, set_status, prepare_status, commit_status, is_planned, is_departed, planned_status,
  is_activatable, activate, accept_invite,
}
use mailhearth.Members.Histories.{Event, start, after_transaction, step, run, run-owners}
use mailhearth.Members.Handle.{updates, transfers, deletes, settles, accepts, handle}

abbrev owner_role : Role
owner_role = record {
  id = 1;
  org_id = 1;
  key = codes "owner";
  name = codes "Owner";
  description = [];
  permissions = members_manage ∷ [];
  builtin = true;
}

abbrev admin_role : Role
admin_role = record owner_role { id = 2; key = codes "admin"; name = codes "Admin" }

abbrev guest_role : Role
guest_role = record owner_role {
  id = 3;
  key = codes "member";
  name = codes "Member";
  permissions = [];
}

abbrev ann : Person
ann = record {
  id = 10;
  org_id = 1;
  display_name = codes "Ann";
  login_email = codes "ann@a.org";
  role_id = 1;
  title = [];
  department = [];
  status = active;
  revision = 3;
}

abbrev bob : Person
bob = record ann {
  id = 11;
  display_name = codes "Bob";
  login_email = codes "bob@a.org";
  role_id = 3;
  revision = 5;
}

abbrev cid : Person
cid = record bob {
  id = 12;
  display_name = codes "Cid";
  login_email = codes "cid@a.org";
  status = departed;
  revision = 2;
}

abbrev roles : List Role
roles = owner_role ∷ admin_role ∷ guest_role ∷ []

abbrev office : View
office = record { roles = roles; people = ann ∷ bob ∷ cid ∷ []; locked = [] }

abbrev promotion : MemberInput
promotion = record {
  expected_revision = 5;
  display_name = codes " Robert ";
  login_email = [];
  role_id = 2;
  title = codes "Lead";
  department = [];
}

abbrev same_text : Text → Text
same_text s = s

abbrev any_address : Text → Option Text
any_address s = some s

abbrev with_people : List Person → View
with_people ms = record office { people = ms }

abbrev robert : Person
robert = record bob {
  display_name = codes "Robert";
  role_id = 2;
  title = codes "Lead";
  revision = 6;
}

bob_promoted :
    handle same_text any_address office office 1 10 (updates 11 promotion)
    ≡ ok (ann ∷ robert ∷ cid ∷ [])
unfolding handle update_member choose_name choose_login choose_role update_in write_member
    login_taken update_where find_person find_if is_owner has_key is_empty require_available
    require_management_permission require_member_manageable require_role_grantable
    require_permissions_grantable find_role find_member find_active role_of has_permission
    permissions_cover contains trim_space text_eq
bob_promoted = refl

abbrev swapped : List Person
swapped =
    record ann { role_id = 2; revision = 4 } ∷ record bob { role_id = 1; revision = 6 } ∷ cid ∷ []

ownership_transferred : handle same_text any_address office office 1 10 (transfers 11) ≡ ok swapped
unfolding handle transfer_ownership find_person find_if is_owner has_key find_role is_active
    role_by_key require_available swap_roles update_where contains text_eq
ownership_transferred = refl

-- The owner cannot hand the organisation to itself, nor to a member that has left.
transfer_refused :
    (handle same_text any_address office office 1 10 (transfers 10) ≡ err conflict)
    × (handle same_text any_address office office 1 10 (transfers 12) ≡ err invalid)
unfolding handle transfer_ownership find_person find_if is_owner has_key find_role is_active
    role_by_key require_available swap_roles update_where contains text_eq
transfer_refused = (refl, refl)

cid_deleted :
    (handle same_text any_address office office 1 10 (deletes 12 2 0) ≡ ok (ann ∷ bob ∷ []))
    × (handle same_text any_address office office 1 10 (deletes 12 2 1) ≡ err member_in_use)
    × (handle same_text any_address office office 1 10 (deletes 11 5 0) ≡ err invalid)
    × (handle same_text any_address office office 1 10 (deletes 12 1 0) ≡ err revision_conflict)
unfolding handle delete_member delete_in delete_where find_person find_if is_owner has_key
    is_deletable require_available require_management_permission require_member_manageable find_role
    find_member find_active role_of has_permission permissions_cover contains text_eq
cid_deleted = (refl, refl, refl, refl)

abbrev dan : Person
dan = record bob { id = 13; display_name = codes "dan"; status = invited; revision = 1 }

-- Dan takes an invitation that is open, and chooses a name; a member that has left cannot.
accepted :
    (handle same_text any_address office
        (with_people (dan ∷ []))
        1
        13
        (accepts 13 true (codes " Dan "))
      ≡ ok (record dan { display_name = codes "Dan"; status = active; revision = 2 } ∷ []))
    × (handle same_text any_address office (with_people (dan ∷ [])) 1 13 (accepts 13 false [])
        ≡ err invalid)
    × (handle same_text any_address office office 1 12 (accepts 12 true []) ≡ err invalid)
unfolding handle accept_invite find_person find_if require_available update_where is_activatable
    activate is_empty trim_space contains text_eq
accepted = (refl, refl, refl)

role-inj : (a b : Role) → some a ≡ some b → a ≡ b
role-inj a b h = ap (λ o. elim o [ none ↦ a | some r ↦ r ]) h

-- Whatever the texts of the three roles, the row that a key finds is the one of its id.
roles-Keyed : Keyed roles 1
unfolding role_by_key find_role find_if
roles-Keyed = record {
  by_id = λ key r h. elim (Bool-cases (text_eq owner_role.key key)) [
    | inl a ↦ subst (λ x. find_role roles 1 x.id ≡ some x) (role-inj owner_role r (rw a at h)) refl
    | inr a ↦ elim (Bool-cases (text_eq admin_role.key key)) [
      | inl b ↦
          subst (λ x. find_role roles 1 x.id ≡ some x) (role-inj admin_role r (rw (a, b) at h)) refl
      | inr b ↦ elim (Bool-cases (text_eq guest_role.key key)) [
        | inl c ↦
            subst (λ x. find_role roles 1 x.id ≡ some x) (role-inj guest_role r (rw (a, b, c) at h))
              refl
        | inr c ↦ absurd (cc (rw (a, b, c) at h))
      ]
    ]
  ];
}

office-Sole : Sole 1 office.people
unfolding count_if
office-Sole = record { sole = λ id. ground arith }

one_owner : owners roles 1 office.people ≡ 1
unfolding owners count_if is_owner has_key find_role find_if text_eq
one_owner = refl

abbrev demotion : MemberInput
demotion = record promotion { expected_revision = 3; role_id = 3; display_name = [] }

abbrev switched_off : StatusInput
switched_off = record { expected_revision = 3; enabled = some false }

-- Ann makes Bob the owner. Three requests have read the members before that: Bob, who was a guest,
-- wants to change Ann's role and to switch her off, and Ann makes Cid the owner, too. Bob repeats his
-- request, and now Ann is an administrator.
abbrev crossing : List Event
crossing =
    record { actor = 10; age = 0; locked = []; request = transfers 11 }
    ∷ record { actor = 11; age = 1; locked = []; request = updates 10 demotion }
    ∷ record { actor = 11; age = 1; locked = []; request = settles 10 true (ok tt) switched_off }
    ∷ record { actor = 10; age = 1; locked = []; request = transfers 12 }
    ∷ record {
      actor = 11;
      age = 0;
      locked = [];
      request = settles 10 true (ok tt) (record switched_off { expected_revision = 4 });
    }
    ∷ []

abbrev ann_off : List Person
ann_off =
    record ann { role_id = 2; revision = 5; status = disabled }
    ∷ record bob { role_id = 1; revision = 6 }
    ∷ cid
    ∷ []

crossed : (run same_text any_address roles 1 (start office.people) crossing).people ≡ ann_off
unfolding run step start after_transaction handle transfer_ownership update_member choose_name
    choose_login choose_role update_in write_member login_taken update_where find_person find_if
    is_owner has_key find_role is_active role_by_key require_available swap_roles contains text_eq
    is_empty require_management_permission require_member_manageable require_role_grantable
    require_permissions_grantable find_member find_active role_of has_permission permissions_cover
    trim_space set_status prepare_status commit_status is_planned is_departed planned_status
crossed = refl

run-owners_example :
    owners roles 1 (run same_text any_address roles 1 (start office.people) crossing).people ≡ 1
run-owners_example =
    run-owners same_text any_address roles 1 office.people crossing roles-Keyed office-Sole
      one_owner
