-- ===== src/Members/Settled.antt =====
-- A change of a member's status leaves the organisation its one owner,
-- internal/core/member_status_operations.go and internal/core/members.go.
use mailhearth.Common.{ℕ, ◌≡◌, refl, Bool, Text, arith, List, [], ◌∷◌, ok, >>=-eq-ok, some}
use mailhearth.Members.Table.{
  Person, View, Result, not_found, invalid, revision_conflict, or_fail, find_person, update_where,
  owners,
}
use mailhearth.Members.Manage.{member_lock, require_available}
use mailhearth.Members.Owners.{owns, or_fail-ok, update_where-Affected}
use mailhearth.Members.Versions.{Sole, Wrote, Revises, update_where-Wrote}
use mailhearth.Members.Preserve.{passed}
use mailhearth.Members.Updates.{owns-same_role}
use mailhearth.Members.Status.{
  StatusInput, StatusPlan, prepare_status, is_planned, give_status, commit_status, set_status,
  is_activatable, activate, accept_invite,
}

kept_role :
    (test : Person → Bool) (f : Person → Person)
    → Revises f
    → ((m : Person) → (f m).role_id ≡ m.role_id)
    → (v : View) (org_id id : ℕ) (after : List Person) → Sole org_id v.people
    → update_where test f org_id id v.people ≡ some after
    → (owners v.roles org_id after ≡ owners v.roles org_id v.people) × Wrote org_id v.people after
unfolding owners
kept_role test f r same v org_id id after s h =
    let a = update_where-Affected test f org_id id v.people after h in
    let eq = owns-same_role v.roles org_id a.row (f a.row) (r.same_org a.row) (same a.row) in
    (
      ground (arith, a.counts (owns v.roles org_id), eq),
      update_where-Wrote test f r org_id id v.people after h s,
    )

commit_status-owners :
    (v : View) (org_id : ℕ) (checked : Result (Unit {0})) (plan : StatusPlan) (after : List Person)
    → Sole org_id v.people
    → commit_status v org_id checked plan ≡ ok after
    → (owners v.roles org_id after ≡ owners v.roles org_id v.people) × Wrote org_id v.people after
unfolding commit_status
commit_status-owners v org_id checked plan after s h =
    let (u1, e1, h1) = >>=-eq-ok checked _ after h in
    let (m, e2, h2) =
      >>=-eq-ok (or_fail (find_person v.people org_id plan.member_id) revision_conflict) _ after
        h1 in
    let h3 = (passed (is_planned plan m) revision_conflict _ after h2).1 in
    kept_role (is_planned plan) (give_status plan.status)
      (record { same_id = λ p. refl; same_org = λ p. refl; next = λ p. refl }) (λ p. refl) v org_id
      plan.member_id after s (or_fail-ok _ revision_conflict after h3)

pub set_status-owners :
    (before v : View) (org_id actor id : ℕ) (has_password : Bool) (checked : Result (Unit {0}))
    (in_ : StatusInput) (after : List Person)
    → Sole org_id v.people
    → set_status before v org_id actor id has_password checked in_ ≡ ok after
    → (owners v.roles org_id after ≡ owners v.roles org_id v.people) × Wrote org_id v.people after
unfolding set_status
set_status-owners before v org_id actor id has_password checked in_ after s h =
    let (plan, e, h1) =
      >>=-eq-ok (prepare_status before org_id actor id has_password in_) _ after h in
    commit_status-owners v org_id checked plan after s h1

pub accept_invite-owners :
    (v : View) (org_id id : ℕ) (is_open : Bool) (name : Text) (after : List Person)
    → Sole org_id v.people
    → accept_invite v org_id id is_open name ≡ ok after
    → (owners v.roles org_id after ≡ owners v.roles org_id v.people) × Wrote org_id v.people after
unfolding accept_invite activate
accept_invite-owners v org_id id is_open name after s h =
    let (m, e1, h1) = >>=-eq-ok (or_fail (find_person v.people org_id id) not_found) _ after h in
    let (u, e2, h2) = >>=-eq-ok (require_available v.locked (member_lock id ∷ [])) _ after h1 in
    let h3 = (passed is_open invalid _ after h2).1 in
    kept_role (λ q. is_activatable q.status) (activate name)
      (record { same_id = λ p. refl; same_org = λ p. refl; next = λ p. refl }) (λ p. refl) v org_id
      id after s (or_fail-ok _ invalid after h3)
