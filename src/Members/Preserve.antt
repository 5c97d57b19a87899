-- ===== src/Members/Preserve.antt =====
-- A transfer and a deletion of internal/core/members.go leave the organisation its one owner.
use mailhearth.Common.{
  ℕ, ◌≡◌, refl, sym, ◌∙◌, ap, subst, inl, inr, Bool, true, false, not, ◌&&◌, List, [], ◌∷◌, map,
  none, some, Text, codes, arith, ◌==◌, eq→==, ltb, text_eq, text_eq→eq, find_if, find_if-passes,
  ok, err, guard, ◌>>◌, >>=-eq-ok, Bool-cases, Outcome, ◌+◌, ◌≤◌, weight,
}
use mailhearth.Access.{AccessError}
use mailhearth.Access.Store.{Role, Member, find_role, find_member, role_of, is_active}
use mailhearth.Access.Guards.{role_owner, require_member_manageable, require_management_permission}
use mailhearth.Access.Manage.{Manageable, require_member_manageable_sound}
use mailhearth.Members.Table.{
  Person, View, MemberError, Result, lift, or_fail, as_member, access_view, is_person, find_person,
  role_by_key, is_owner, owners, not_found, forbidden, invalid, revision_conflict, member_in_use,
  update_where, conflict,
}
use mailhearth.Members.Manage.{
  transfer_ownership, delete_member, delete_in, is_deletable, require_available, member_lock,
  login_lock, members_manage, give_role, swap_roles,
}
use mailhearth.Members.Owners.{
  delete_where-Removed, or_fail-ok, owns, has_key-role, person-inj, Roles, owns-role, found-org,
  found-counts, update_where-Affected,
}
use mailhearth.Members.Versions.{
  Sole, Wrote, Later-trans, Revises, update_where-Wrote, delete_where-Wrote,
}

-- Roles are found by their ids.
pub record Keyed (roles : List Role) (org_id : ℕ) : Type 0 where
  pub by_id :
      (key : Text) (r : Role)
      → role_by_key roles org_id key ≡ some r
      → find_role roles org_id r.id ≡ some r

role_by_key-passes :
    (roles : List Role) (org_id : ℕ) (key : Text) (r : Role)
    → role_by_key roles org_id key ≡ some r
    → text_eq r.key key ≡ true
unfolding role_by_key
role_by_key-passes roles org_id key r h =
    ground (arith, find_if-passes (λ q. (q.org_id == org_id) && text_eq q.key key) roles r h)

admin_not_owner : (key : Text) → text_eq key (codes "admin") ≡ true → text_eq key role_owner ≡ false
unfolding text_eq
admin_not_owner key h =
    subst (λ k. text_eq k role_owner ≡ false) (sym (text_eq→eq key (codes "admin") h)) refl

pub passed {ℓ} :
    {B : Type ℓ} (b : Bool) (e : MemberError) (m : Result B) (x : B)
    → (guard b e >> m) ≡ ok x
    → (b ≡ true) × (m ≡ ok x)
passed true e m x h = (refl, h)
passed false e m x h = cc

give_role-Revises : (role_id : ℕ) → Revises (give_role role_id)
give_role-Revises role_id = record { same_id = λ m. refl; same_org = λ m. refl; next = λ m. refl }

owner_row : (a b i j : ℕ) (t : Bool) → ((a == b) && (t && (i == j))) ≡ true → i ≡ j
owner_row a b i j t h = ground (arith, h)

-- The counts of a transfer: one owner, then none, then one.
transferred :
    (before middle after : ℕ) (from_was from_is to_was to_is : Bool)
    → before ≡ 1
    → from_was ≡ true
    → from_is ≡ false
    → to_is ≡ true
    → middle + weight from_was ≡ before + weight from_is
    → after + weight to_was ≡ middle + weight to_is
    → weight to_was ≤ middle
    → after ≡ 1
transferred before middle after from_was from_is to_was to_is one a b c e f g =
    ground (arith, one, a, b, c, e, f, g)

swap_roles-owners :
    (v : View) (org_id : ℕ) (from to : Person) (owner admin : Role) (after : List Person)
    → Roles v.roles org_id owner admin
    → owners v.roles org_id v.people ≡ 1
    → Sole org_id v.people
    → swap_roles v org_id from to owner admin ≡ ok after
    → (owners v.roles org_id after ≡ 1) × Wrote org_id v.people after
unfolding swap_roles owners
swap_roles-owners v org_id from to owner admin after k one s h =
    let (people, e, h1) =
      >>=-eq-ok
        (or_fail
          (update_where
            (λ m. (m.revision == from.revision) && (is_active m.status && (m.role_id == owner.id)))
            (give_role admin.id) org_id from.id v.people)
          conflict)
        _ after h in
    let a =
      update_where-Affected _ (give_role admin.id) org_id from.id v.people people
        (or_fail-ok _ conflict people e) in
    let b =
      update_where-Affected _ (give_role owner.id) org_id to.id people after
        (or_fail-ok _ conflict after h1) in
    let (a_org, a_id) = found-org v.people org_id from.id a.row a.found in
    let (b_org, b_id) = found-org people org_id to.id b.row b.found in
    let gives =
      owner_row a.row.revision from.revision a.row.role_id owner.id (is_active a.row.status)
        a.passes in
    let was = owns-role v.roles org_id owner a.row k.owner_found a_org gives ∙ k.owner_key in
    let is_not =
      owns-role v.roles org_id admin (give_role admin.id a.row) k.admin_found a_org refl
      ∙ k.admin_key in
    let is_now =
      owns-role v.roles org_id owner (give_role owner.id b.row) k.owner_found b_org refl
      ∙ k.owner_key in
    let q : Person → Bool = owns v.roles org_id in
    let w =
      update_where-Wrote _ (give_role admin.id) (give_role-Revises admin.id) org_id from.id v.people
        people (or_fail-ok _ conflict people e) s in
    let x =
      update_where-Wrote _ (give_role owner.id) (give_role-Revises owner.id) org_id to.id people
        after (or_fail-ok _ conflict after h1) w.sole in
    (
      transferred _ _ _ _ _ _ _ one was is_not is_now (a.counts q) (b.counts q)
          (found-counts q people org_id to.id b.row b.found),
      record { later = Later-trans org_id v.people people after w.later x.later; sole = x.sole },
    )

pub transfer_ownership-owners :
    (before v : View) (org_id actor to_member_id : ℕ) (after : List Person)
    → before.roles ≡ v.roles
    → Keyed v.roles org_id
    → owners v.roles org_id v.people ≡ 1
    → Sole org_id v.people
    → transfer_ownership before v org_id actor to_member_id ≡ ok after
    → (owners v.roles org_id after ≡ 1) × Wrote org_id v.people after
unfolding transfer_ownership
transfer_ownership-owners before v org_id actor to_member_id after same k one s h =
    let (from, e1, h1) =
      >>=-eq-ok (or_fail (find_person before.people org_id actor) not_found) _ after h in
    let h2 = (passed (is_owner before.roles from) forbidden _ after h1).1 in
    let (to, e3, h3) =
      >>=-eq-ok (or_fail (find_person before.people org_id to_member_id) not_found) _ after h2 in
    let h4 = (passed (is_active to.status) invalid _ after h3).1 in
    let (owner, e5, h5) =
      >>=-eq-ok (or_fail (role_by_key before.roles org_id role_owner) not_found) _ after h4 in
    let (admin, e6, h6) =
      >>=-eq-ok (or_fail (role_by_key before.roles org_id (codes "admin")) not_found) _ after h5 in
    let (u, e7, h7) =
      >>=-eq-ok (require_available v.locked (member_lock actor ∷ (member_lock to_member_id ∷ []))) _
        after h6 in
    let o = or_fail-ok (role_by_key before.roles org_id role_owner) not_found owner e5 in
    let a = or_fail-ok (role_by_key before.roles org_id (codes "admin")) not_found admin e6 in
    let o_here = ap (λ rs. role_by_key rs org_id role_owner) (sym same) ∙ o in
    let a_here = ap (λ rs. role_by_key rs org_id (codes "admin")) (sym same) ∙ a in
    swap_roles-owners v org_id from to owner admin after
      (record {
        owner_found = k.by_id role_owner owner o_here;
        admin_found = k.by_id (codes "admin") admin a_here;
        owner_key = role_by_key-passes v.roles org_id role_owner owner o_here;
        admin_key =
            admin_not_owner admin.key
              (role_by_key-passes v.roles org_id (codes "admin") admin a_here);
      })
      one s h7

-- The guards look at the same row.
find_member-person :
    (people : List Person) (org_id id : ℕ) (m : Person)
    → find_person people org_id id ≡ some m
    → find_member (map as_member people) org_id id ≡ some (as_member m)
unfolding find_person find_member find_if
find_member-person [] org_id id m h = cc
find_member-person (p ∷ people) org_id id m h = elim (Bool-cases (is_person org_id id p)) [
  | inl e ↦ rw e (ap (λ x. some (as_member x)) (person-inj p m (rw e at h)))
  | inr e ↦ rw e (find_member-person people org_id id m (rw e at h))
]

member-inj : (a b : Member) → some a ≡ some b → a ≡ b
member-inj a b h = ap (λ o. elim o [ none ↦ a | some m ↦ m ]) h

lifted {ℓ} : {A : Type ℓ} (o : Outcome AccessError A) (a : A) → lift o ≡ ok a → o ≡ ok a
lifted (err e) a h = cc
lifted (ok b) a h = ap (λ r. elim r [ ok x ↦ ok x | err y ↦ ok b ]) h

managed-not_owner :
    (v : View) (org_id actor id : ℕ) (m : Person)
    → find_person v.people org_id id ≡ some m
    → (actor == id) ≡ false
    → Manageable (access_view v) org_id actor id
    → owns v.roles org_id m ≡ false
unfolding role_of is_owner
managed-not_owner v org_id actor id m f n g =
    let same : g.member ≡ as_member m =
      member-inj g.member (as_member m) (sym g.found ∙ find_member-person v.people org_id id m f) in
    let role = ap (λ x. role_of (access_view v) x) (sym same) ∙ g.has_role in
    ground (arith, has_key-role v.roles g.role m role_owner role ∙ g.not_owner)

-- What the guard has found when another member is acted on.
pub other-not_owner :
    (v : View) (org_id actor id : ℕ) (m : Person)
    → find_person v.people org_id id ≡ some m
    → (actor == id) ≡ false
    → lift (require_member_manageable (access_view v) org_id actor id) ≡ ok tt
    → owns v.roles org_id m ≡ false
other-not_owner v org_id actor id m f n g =
    elim (require_member_manageable_sound (access_view v) org_id actor id (lifted _ tt g)) [
      | inl e ↦ absurd (ground (arith, n, eq→== actor id e))
      | inr r ↦ managed-not_owner v org_id actor id m f n r
    ]

delete_in-owners :
    (v : View) (org_id actor id expected_revision dependencies : ℕ) (m : Person)
    (after : List Person)
    → (actor == id) ≡ false
    → Sole org_id v.people
    → delete_in v org_id actor id expected_revision dependencies m ≡ ok after
    → (owners v.roles org_id after ≡ owners v.roles org_id v.people) × Wrote org_id v.people after
unfolding delete_in owners
delete_in-owners v org_id actor id expected_revision dependencies m after n s h =
    let (u1, e1, h1) =
      >>=-eq-ok (lift (require_management_permission (access_view v) org_id actor members_manage)) _
        after h in
    let (u2, e2, h2) =
      >>=-eq-ok (lift (require_member_manageable (access_view v) org_id actor id)) _ after h1 in
    let (u3, e3, h3) =
      >>=-eq-ok (require_available v.locked (member_lock id ∷ (login_lock m.login_email ∷ []))) _
        after h2 in
    let h4 = (passed (dependencies == 0) member_in_use _ after h3).1 in
    let r =
      delete_where-Removed _ org_id id v.people after (or_fail-ok _ revision_conflict after h4) in
    let no = other-not_owner v org_id actor id r.row r.found n e2 in
    (
      ground (arith, r.counts (owns v.roles org_id), no),
      delete_where-Wrote _ org_id id v.people after (or_fail-ok _ revision_conflict after h4) s,
    )

pub delete_member-owners :
    (before v : View) (org_id actor id expected_revision dependencies : ℕ) (after : List Person)
    → Sole org_id v.people
    → delete_member before v org_id actor id expected_revision dependencies ≡ ok after
    → (owners v.roles org_id after ≡ owners v.roles org_id v.people) × Wrote org_id v.people after
unfolding delete_member
delete_member-owners before v org_id actor id expected_revision dependencies after s h =
    let (u1, e1, h1) =
      >>=-eq-ok
        (lift (require_management_permission (access_view before) org_id actor members_manage)) _
        after h in
    let (m, e2, h2) =
      >>=-eq-ok (or_fail (find_person before.people org_id id) not_found) _ after h1 in
    let h3 = (passed (not (is_owner before.roles m)) invalid _ after h2).1 in
    let (other, h4) = passed (not (actor == id)) invalid _ after h3 in
    let h5 =
      (passed (ltb 0 expected_revision && (expected_revision == m.revision)) revision_conflict _
        after h4).1 in
    let h6 = (passed (is_deletable m.status) invalid _ after h5).1 in
    delete_in-owners v org_id actor id expected_revision dependencies m after
      (ground (arith, other)) s h6
