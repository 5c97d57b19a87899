-- ===== src/Access/Samples.antt =====
-- Tests of the role operations on one organisation, and the theorems at its data.
use mailhearth.Common.{
  ℕ, ◌≡◌, refl, ◌⊎◌, false, List, [], ◌∷◌, ◌++◌, Text, codes, contains, trim_space, map, All,
  text_eq, find_if, count_if, keep_if,
}
use mailhearth.Access.{
  all_permissions, has_permission, permissions_cover, ok, err, forbidden, owner_not_grantable,
  unknown_permission, validate_permissions, role_in_use,
}
use mailhearth.Access.Validation.{IsGrantable, Distinct, validate_permissions_sound}
use mailhearth.Access.Store.{
  Db, Role, active, find_role, member_count, find_active, find_member, role_of,
}
use mailhearth.Access.Guards.{
  require_management_permission, require_permissions_grantable, require_member_manageable,
}
use mailhearth.Access.Roles.{
  custom_key, key_char, RoleInput, create_role, update_role, delete_role, set_role, key_taken,
  insert_role, Request, creates, deletes, handle_all,
}
use mailhearth.Access.Outcomes.{
  Created, Updated, Deleted, create_role-Created, update_role-Updated, delete_role-Deleted,
}
use mailhearth.Access.Manage.{Manageable, require_member_manageable_sound}
use mailhearth.Access.Invariant.{IsSafe, handle_all-IsSafe}

abbrev manage_and_audit : List Text
manage_and_audit = codes "org.manage" ∷ codes "audit.read" ∷ []

abbrev lead_role : Role
lead_role = record {
  id = 3;
  org_id = 1;
  key = codes "custom-lead";
  name = codes "Lead";
  description = [];
  permissions = manage_and_audit;
  builtin = false;
}

abbrev reader_role : Role
reader_role = record {
  id = 4;
  org_id = 1;
  key = codes "custom-reader";
  name = codes "Reader";
  description = [];
  permissions = codes "audit.read" ∷ [];
  builtin = false;
}

abbrev spare_role : Role
spare_role = record {
  id = 5;
  org_id = 1;
  key = codes "custom-spare";
  name = codes "Spare";
  description = [];
  permissions = [];
  builtin = false;
}

-- Member 10 leads, member 11 reads.
abbrev office : Db
office = record {
  roles = lead_role ∷ reader_role ∷ spare_role ∷ [];
  members =
      record { id = 10; org_id = 1; role_id = 3; status = active }
      ∷ record { id = 11; org_id = 1; role_id = 4; status = active }
      ∷ [];
  audit = [];
}

abbrev auditor_input : RoleInput
auditor_input = record {
  name = codes " Night Audit ";
  description = codes "reads";
  permissions = codes " audit.read" ∷ codes "audit.read" ∷ [];
}

abbrev auditor_role : Role
auditor_role = record {
  id = 6;
  org_id = 1;
  key = codes "custom-night-audit";
  name = codes "Night Audit";
  description = codes "reads";
  permissions = codes "audit.read" ∷ [];
  builtin = false;
}

abbrev billing_input : RoleInput
billing_input = record {
  name = codes "Billing";
  description = [];
  permissions = codes "billing.read" ∷ [];
}

validate_trims :
    validate_permissions (codes " audit.read" ∷ codes "audit.read" ∷ [])
    ≡ ok (codes "audit.read" ∷ [])
unfolding validate_permissions all_permissions contains trim_space
validate_trims = refl

validate_refuses :
    (validate_permissions (codes "org.owner" ∷ []) ≡ err owner_not_grantable)
    × (validate_permissions (codes "root" ∷ []) ≡ err (unknown_permission (codes "root")))
unfolding validate_permissions all_permissions contains trim_space
validate_refuses = (refl, refl)

-- A lead has no billing.read to give.
create_refused : create_role office 6 1 10 billing_input ≡ err forbidden
unfolding create_role require_management_permission require_permissions_grantable role_of find_role
    find_active find_if has_permission permissions_cover validate_permissions all_permissions
    contains trim_space
create_refused = refl

abbrev office_with_auditor : Db
office_with_auditor = record office {
  roles = office.roles ++ auditor_role ∷ [];
  audit = record { org_id = 1; actor = 10; action = codes "role.create"; target = 6 } ∷ [];
}

created : create_role office 6 1 10 auditor_input ≡ ok (auditor_role, office_with_auditor)
unfolding create_role insert_role require_management_permission require_permissions_grantable
    role_of find_role find_active find_if has_permission permissions_cover validate_permissions
    all_permissions contains trim_space
created = refl

abbrev renamed_role : Role
renamed_role = record spare_role {
  name = codes "Night Audit";
  description = codes "reads";
  permissions = codes "audit.read" ∷ [];
}

abbrev office_renamed : Db
office_renamed = record office {
  roles = lead_role ∷ reader_role ∷ renamed_role ∷ [];
  audit = record { org_id = 1; actor = 10; action = codes "role.update"; target = 5 } ∷ [];
}

updated : update_role office 1 10 5 auditor_input ≡ ok (renamed_role, office_renamed)
unfolding update_role set_role require_management_permission require_permissions_grantable role_of
    find_role find_active find_if has_permission permissions_cover validate_permissions
    all_permissions contains trim_space
updated = refl

abbrev office_without_spare : Db
office_without_spare = record office {
  roles = lead_role ∷ reader_role ∷ [];
  audit = record { org_id = 1; actor = 10; action = codes "role.delete"; target = 5 } ∷ [];
}

deleted : delete_role office 1 10 5 ≡ ok office_without_spare
unfolding delete_role find_role find_if member_count count_if keep_if
deleted = refl

delete_refused : delete_role office 1 10 4 ≡ err (role_in_use 1)
unfolding delete_role find_role find_if member_count count_if
delete_refused = refl

abbrev requests : List Request
requests = creates 6 10 auditor_input ∷ creates 7 11 billing_input ∷ deletes 10 5 ∷ []

validate_permissions_sound_example :
    All IsGrantable (codes "audit.read" ∷ [])
    × Distinct (codes "audit.read" ∷ [])
    × ((p : Text)
        → contains (codes "audit.read" ∷ []) p
          ≡ contains (map trim_space (codes " audit.read" ∷ codes "audit.read" ∷ [])) p)
validate_permissions_sound_example =
    validate_permissions_sound (codes " audit.read" ∷ codes "audit.read" ∷ [])
      (codes "audit.read" ∷ []) validate_trims

create_role-Created_example : Created office 6 1 10 auditor_input office_with_auditor
create_role-Created_example =
    create_role-Created office 6 1 10 auditor_input auditor_role office_with_auditor created

update_role-Updated_example : Updated office 1 10 5 auditor_input office_renamed
update_role-Updated_example =
    update_role-Updated office 1 10 5 auditor_input renamed_role office_renamed updated

delete_role-Deleted_example : Deleted office 1 5 office_without_spare
delete_role-Deleted_example = delete_role-Deleted office 1 10 5 office_without_spare deleted

require_member_manageable_sound_example : (◌≡◌ {A = ℕ} 10 11) ⊎ Manageable office 1 10 11
unfolding require_member_manageable role_of find_role find_active find_member find_if has_permission
    permissions_cover text_eq
require_member_manageable_sound_example = require_member_manageable_sound office 1 10 11 refl

handle_all-IsSafe_example : IsSafe (handle_all 1 office requests).roles
unfolding key_taken contains
handle_all-IsSafe_example = handle_all-IsSafe 1 office requests (record {
  unique = (refl, (refl, (refl, tt)));
  modest = ((λ _. refl), ((λ _. refl), ((λ _. refl), tt)));
})

-- Names without ASCII letters and digits have the same key when they are as long.
same_custom_key : custom_key (codes "财务") ≡ custom_key (codes "法务")
unfolding custom_key key_char
same_custom_key = refl
