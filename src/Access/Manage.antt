-- ===== src/Access/Manage.antt =====
-- Whom a manager may act on (`requireMemberManageable` of internal/core/resource_guards.go).
use mailhearth.Common.{
  >>=-eq-ok, guard-eq-ok, ℕ, ◌≡◌, ◌⊎◌, inl, inr, true, false, List, Text, text_eq, contains, some,
  Bool-cases, ◌==◌, ==→eq,
}
use mailhearth.Access.{has_permission, permissions_cover, forbidden, not_found, ok}
use mailhearth.Access.Cover.{permissions_cover_iff}
use mailhearth.Access.Store.{Db, Member, Role, find_member, role_of, or_fail}
use mailhearth.Access.Guards.{
  role_owner, active_member_permissions, manageable_other, require_member_manageable,
}
use mailhearth.Access.Outcomes.{or_fail-eq-ok}

-- The target is a member of the organisation whose role is not the owner's, and the actor is an
-- active member who holds every permission of that role.
pub record Manageable (db : Db) (org_id actor target : ℕ) : Type 0 where
  pub held : List Text
  pub role_key : Text
  pub is_held : active_member_permissions db org_id actor ≡ ok (held, role_key)
  pub member : Member
  pub found : find_member db.members org_id target ≡ some member
  pub role : Role
  pub has_role : role_of db member ≡ some role
  pub not_owner : text_eq role.key role_owner ≡ false
  pub covers : (p : Text) → contains role.permissions p ≡ true → has_permission held p ≡ true

manageable_other-Manageable :
    (db : Db) (org_id actor target : ℕ)
    → manageable_other db org_id actor target ≡ ok tt
    → Manageable db org_id actor target
unfolding manageable_other
manageable_other-Manageable db org_id actor target h =
    let (held, eh, h1) = >>=-eq-ok (active_member_permissions db org_id actor) _ tt h in
    let (m, em, h2) =
      >>=-eq-ok (or_fail (find_member db.members org_id target) not_found) _ tt h1 in
    let (r, er, h3) = >>=-eq-ok (or_fail (role_of db m) not_found) _ tt h2 in
    elim (Bool-cases (text_eq r.key role_owner)) [
      | inl own ↦ absurd (cc (h3, own))
      | inr other ↦ record {
        held = held.0;
        role_key = held.1;
        is_held = eh;
        member = m;
        found = or_fail-eq-ok _ _ m em;
        role = r;
        has_role = or_fail-eq-ok _ _ r er;
        not_owner = other;
        covers =
            (permissions_cover_iff held.0 r.permissions).0
              (guard-eq-ok (permissions_cover held.0 r.permissions) forbidden tt (rw other at h3));
      }
    ]

-- `requireMemberManageable` lets an actor act on themselves, and otherwise only on a member of
-- the organisation whose role is not the owner's and whose permissions the actor, an active
-- member, all holds.
pub require_member_manageable_sound :
    (db : Db) (org_id actor target : ℕ)
    → require_member_manageable db org_id actor target ≡ ok tt
    → (actor ≡ target) ⊎ Manageable db org_id actor target
unfolding require_member_manageable
require_member_manageable_sound db org_id actor target h = elim (Bool-cases (actor == target)) [
  | inl e ↦ inl (==→eq actor target e)
  | inr e ↦ inr (manageable_other-Manageable db org_id actor target (rw e at h))
]
