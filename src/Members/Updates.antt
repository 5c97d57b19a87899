-- ===== src/Members/Updates.antt =====
-- An update of a member, internal/core/members.go, leaves the organisation its one owner.
use mailhearth.Common.{
  ℕ, ◌+◌, ◌≡◌, refl, sym, ◌∙◌, ap, subst, ◌⊎◌, inl, inr, Bool, false, not, ◌&&◌, ◌||◌, List, [],
  ◌∷◌, Option, some, Text, arith, ◌==◌, ==→eq, ltb, weight, text_eq, count_if, if◌then◌else◌, ok,
  err, >>=-eq-ok, Bool-cases, trim_space,
}
use mailhearth.Access.Store.{Role, find_role}
use mailhearth.Access.Guards.{
  role_owner, require_member_manageable, require_role_grantable, require_management_permission,
}
use mailhearth.Members.Table.{
  Person, View, lift, or_fail, access_view, find_person, has_key, is_owner, update_where, owners,
  conflict, not_found, invalid, revision_conflict,
}
use mailhearth.Members.Manage.{
  MemberInput, update_member, update_in, write_member, choose_role, choose_login, choose_name,
  require_available, member_lock, login_lock, members_manage, login_taken,
}
use mailhearth.Members.Owners.{
  update_where-Affected, or_fail-ok, owns, has_key-role, found-org, person-inj,
}
use mailhearth.Members.Preserve.{passed, other-not_owner}
use mailhearth.Members.Versions.{Later, Sole, Wrote, update_where-Wrote}

-- The role that is written is the one that was read, or one that is not the owner's, for another
-- member.
choose_role-cases :
    (before : View) (org_id actor id : ℕ) (in_ : MemberInput) (m : Person) (role_id : ℕ)
    → choose_role before org_id actor id in_ m ≡ ok role_id
    → (role_id ≡ m.role_id)
      ⊎ (((actor == id) ≡ false)
          × ((r : Role) × (find_role before.roles org_id role_id ≡ some r)
              × (text_eq r.key role_owner ≡ false)))
unfolding choose_role
choose_role-cases before org_id actor id in_ m role_id h =
    elim (Bool-cases ((in_.role_id == 0) || (in_.role_id == m.role_id))) [
      | inl e ↦ inl (sym (ap (λ r. elim r [ ok x ↦ x | err y ↦ m.role_id ]) (rw e at h)))
      | inr e ↦
          let (r, f, h1) =
            >>=-eq-ok (or_fail (find_role before.roles org_id in_.role_id) invalid) _ role_id
              (rw e at h) in
          let (modest, h2) =
            passed (not (text_eq r.key role_owner || is_owner before.roles m)) invalid _ role_id
              h1 in
          let (other, h3) = passed (not (actor == id)) invalid _ role_id h2 in
          let same : in_.role_id ≡ role_id =
            ap (λ r. elim r [ ok x ↦ x | err y ↦ in_.role_id ]) h3 in
          inr (
            ground (arith, other),
            (
              r,
              subst (λ i. find_role before.roles org_id i ≡ some r) same (or_fail-ok _ invalid r f),
              ground (arith, modest),
            ),
          )
    ]

owns-found :
    (roles : List Role) (org_id : ℕ) (r : Role) (m : Person) {role_id : ℕ}
    → find_role roles org_id role_id ≡ some r
    → m.org_id ≡ org_id
    → m.role_id ≡ role_id
    → owns roles org_id m ≡ text_eq r.key role_owner
unfolding is_owner
owns-found roles org_id r m {role_id} f o i =
    let g : find_role roles m.org_id m.role_id ≡ some r =
      ap (λ n. find_role roles n m.role_id) o ∙ ap (find_role roles org_id) i ∙ f in
    ground (arith, o, has_key-role roles r m role_owner g)

pub owns-same_role :
    (roles : List Role) (org_id : ℕ) (m n : Person)
    → n.org_id ≡ m.org_id
    → n.role_id ≡ m.role_id
    → owns roles org_id n ≡ owns roles org_id m
unfolding is_owner has_key
owns-same_role roles org_id m n o r = rw (o, r) refl

-- What the transaction of UpdateMember has done.
record Updated (v : View) (org_id actor id expected role_id : ℕ) (after : List Person)
    : Type 0 where
  may : lift (require_member_manageable (access_view v) org_id actor id) ≡ ok tt
  row : Person
  found : find_person v.people org_id id ≡ some row
  is_expected : row.revision ≡ expected
  written : Person
  of_org : written.org_id ≡ row.org_id
  has_role : written.role_id ≡ role_id
  counts :
      (q : Person → Bool)
      → count_if q after + weight (q row) ≡ count_if q v.people + weight (q written)
  wrote : Sole org_id v.people → Wrote org_id v.people after

update_in-Updated :
    (v : View) (org_id actor id : ℕ) (in_ : MemberInput) (m : Person) (name login : Text)
    (role_id : ℕ) (after : List Person)
    → update_in v org_id actor id in_ m name login role_id ≡ ok after
    → Updated v org_id actor id in_.expected_revision role_id after
unfolding update_in write_member
update_in-Updated v org_id actor id in_ m name login role_id after h =
    let (u1, e1, h1) =
      >>=-eq-ok (lift (require_management_permission (access_view v) org_id actor members_manage)) _
        after h in
    let (u2, e2, h2) =
      >>=-eq-ok (lift (require_member_manageable (access_view v) org_id actor id)) _ after h1 in
    let (u3, e3, h3) =
      >>=-eq-ok
        (if role_id == m.role_id
          then ok tt
          else lift (require_role_grantable (access_view v) org_id actor role_id))
        _ after h2 in
    let (u4, e4, h4) =
      >>=-eq-ok (require_available v.locked (member_lock id ∷ (login_lock login ∷ []))) _ after
        h3 in
    let f : Person → Person = λ p. record p {
      display_name = name;
      login_email = login;
      role_id = role_id;
      title = trim_space in_.title;
      department = trim_space in_.department;
      revision = p.revision + 1;
    } in
    let (people, e5, h5) =
      >>=-eq-ok
        (or_fail (update_where (λ p. p.revision == in_.expected_revision) f org_id id v.people)
          revision_conflict)
        _ after h4 in
    let h6 = (passed (not (login_taken v.people org_id id login)) conflict _ after h5).1 in
    let same : people ≡ after = ap (λ r. elim r [ ok x ↦ x | err y ↦ people ]) h6 in
    let a =
      update_where-Affected (λ p. p.revision == in_.expected_revision) f org_id id v.people after
        (or_fail-ok _ revision_conflict people e5 ∙ ap some same) in
    record {
      may = e2;
      row = a.row;
      found = a.found;
      is_expected = ==→eq a.row.revision in_.expected_revision a.passes;
      written = f a.row;
      of_org = refl;
      has_role = refl;
      counts = a.counts;
      wrote =
          update_where-Wrote (λ p. p.revision == in_.expected_revision) f
            (record { same_id = λ p. refl; same_org = λ p. refl; next = λ p. refl }) org_id id
            v.people after (or_fail-ok _ revision_conflict people e5 ∙ ap some same);
    }

update_in-owners :
    (before v : View) (org_id actor id : ℕ) (in_ : MemberInput) (m : Person) (name login : Text)
    (role_id : ℕ) (after : List Person)
    → before.roles ≡ v.roles
    → Later org_id before.people v.people
    → Sole org_id v.people
    → find_person before.people org_id id ≡ some m
    → in_.expected_revision ≡ m.revision
    → choose_role before org_id actor id in_ m ≡ ok role_id
    → update_in v org_id actor id in_ m name login role_id ≡ ok after
    → (owners v.roles org_id after ≡ owners v.roles org_id v.people) × Wrote org_id v.people after
unfolding owners
update_in-owners before v org_id actor id in_ m name login role_id after same since s f x c h =
    let u = update_in-Updated v org_id actor id in_ m name login role_id after h in
    let q : Person → Bool = owns v.roles org_id in
    let (row_org, row_id) = found-org v.people org_id id u.row u.found in
    elim (choose_role-cases before org_id actor id in_ m role_id c) [
      | inl e ↦
          let r = since.earlier id u.row u.found in
          let read = person-inj r.row m (sym r.found ∙ f) in
          let kept =
            ap (λ p. p.role_id) (sym read)
            ∙ r.same_role (ap (λ p. p.revision) read ∙ sym x ∙ sym u.is_expected) in
          let eq = owns-same_role v.roles org_id u.row u.written u.of_org (u.has_role ∙ e ∙ kept) in
          (ground (arith, u.counts q, eq), u.wrote s)
      | inr (other, p) ↦
          let (r, found, modest) = p in
          let was = other-not_owner v org_id actor id u.row u.found other u.may in
          let here = ap (λ rs. find_role rs org_id role_id) (sym same) ∙ found in
          let now =
            owns-found v.roles org_id r u.written here (u.of_org ∙ row_org) u.has_role ∙ modest in
          (ground (arith, u.counts q, was, now), u.wrote s)
    ]

pub update_member-owners :
    (to_lower : Text → Text) (parse_address : Text → Option Text) (before v : View)
    (org_id actor id : ℕ) (in_ : MemberInput) (after : List Person)
    → before.roles ≡ v.roles
    → Later org_id before.people v.people
    → Sole org_id v.people
    → update_member to_lower parse_address before v org_id actor id in_ ≡ ok after
    → (owners v.roles org_id after ≡ owners v.roles org_id v.people) × Wrote org_id v.people after
unfolding update_member
update_member-owners to_lower parse_address before v org_id actor id in_ after same since s h =
    let (u1, e1, h1) =
      >>=-eq-ok
        (lift (require_management_permission (access_view before) org_id actor members_manage)) _
        after h in
    let (m, e2, h2) =
      >>=-eq-ok (or_fail (find_person before.people org_id id) not_found) _ after h1 in
    let (x, h3) =
      passed (ltb 0 in_.expected_revision && (in_.expected_revision == m.revision))
        revision_conflict _ after h2 in
    let (login, e4, h4) = >>=-eq-ok (choose_login to_lower parse_address in_ m) _ after h3 in
    let (role_id, e5, h5) = >>=-eq-ok (choose_role before org_id actor id in_ m) _ after h4 in
    update_in-owners before v org_id actor id in_ m (choose_name in_ m) login role_id after same
      since s (or_fail-ok _ not_found m e2) (ground (arith, x)) e5 h5
