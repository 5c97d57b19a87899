-- ===== src/Operations/Authority.antt =====
-- Who can control an operation (internal/core/operation_controls.go, internal/core/operations.go).
use mailhearth.Common.{
  ℕ, ◌≡◌, ◌∙◌, sym, ap, Bool, true, not, ◌||◌, Option, some, arith, Text, text_eq, ok, ◌==◌,
  >>=-eq-ok, guard-eq-ok, guard, ==→eq,
}
use mailhearth.Access.{has_permission}
use mailhearth.Access.Store.{find_member, Member, Role, Db, find_active, role_of}
use mailhearth.Operations.Permission.{
  has_all, allowed, mail_full, controller_permission, operation_for_member,
}
use mailhearth.Operations.Tables.{
  Operation, Tables, find_operation, or_fail, not_found, invalid, forbidden,
}
use mailhearth.Operations.Control.{Action, Payload, control_local, is_local, retry_permission}
use mailhearth.Operations.Rows.{or_fail-eq-ok}

-- A member who may control an operation.
pub record Controller (full_access : ℕ → ℕ → Bool) (db : Db) (org_id actor : ℕ) (o : Operation)
    : Type 0 where
  pub member : Member
  pub is_member : find_active db.members org_id actor ≡ some member
  pub role : Role
  pub has_role : role_of db member ≡ some role
  pub required : has_permission role.permissions o.required ≡ true
  pub additional : has_all role.permissions o.additional ≡ true

operation_for_member-found :
    (full_access : ℕ → ℕ → Bool) (db : Db) (t : Tables) (org_id actor : ℕ) (id : Text)
    (o : Operation)
    → operation_for_member full_access db t org_id actor id ≡ ok o
    → (find_operation t.operations id ≡ some o) × (o.org_id ≡ org_id)
unfolding operation_for_member
operation_for_member-found full_access db t org_id actor id o h =
    let (a, e1, h1) = >>=-eq-ok (or_fail (find_member db.members org_id actor) not_found) _ o h in
    let (m, e2, h2) = >>=-eq-ok (or_fail (find_active db.members org_id actor) forbidden) _ o h1 in
    let (q, e3, h3) = >>=-eq-ok (or_fail (find_operation t.operations id) not_found) _ o h2 in
    let (u4, e4, h4) = >>=-eq-ok (guard (q.org_id == org_id) not_found) _ o h3 in
    let (r, e5, h5) = >>=-eq-ok (or_fail (role_of db m) not_found) _ o h4 in
    let (u6, e6, h6) = >>=-eq-ok _ (λ u. ok q) o h5 in
    let same : q ≡ o = ground (arith, h6) in
    let own = ==→eq q.org_id org_id (guard-eq-ok _ not_found u4 e4) in
    (or_fail-eq-ok _ not_found q e3 ∙ ap some same, sym (ap (λ x. x.org_id) same) ∙ own)

controller_permission-additional :
    (full_access : ℕ → ℕ → Bool) (db : Db) (t : Tables) (id : Text) (actor : ℕ) (o : Operation)
    (m : Member) (r : Role) {org_id : ℕ}
    → find_operation t.operations id ≡ some o
    → o.org_id ≡ org_id
    → find_active db.members org_id actor ≡ some m
    → role_of db m ≡ some r
    → (u : Unit {0}) → controller_permission full_access db t id actor ≡ ok u
    → has_all r.permissions o.additional ≡ true
unfolding controller_permission allowed
controller_permission-additional full_access db t id actor o m r found own member role u h =
    let (q, e1, h1) = >>=-eq-ok (or_fail (find_operation t.operations id) forbidden) _ u h in
    let (n, e2, h2) =
      >>=-eq-ok (or_fail (find_active db.members q.org_id actor) forbidden) _ u h1 in
    let (s, e3, h3) = >>=-eq-ok (or_fail (role_of db n) forbidden) _ u h2 in
    let (u4, e4, h4) =
      >>=-eq-ok (guard (not (text_eq q.required mail_full) || not (q.mailbox_id == 0)) forbidden) _
        u h3 in
    let (u5, e5, h5) = >>=-eq-ok (guard (has_all s.permissions q.additional) forbidden) _ u h4 in
    let held = guard-eq-ok _ forbidden u5 e5 in
    let q_o : o ≡ q = ground (arith, found, or_fail-eq-ok _ forbidden q e1) in
    let n_m : m ≡ n =
      ground (arith, member, own, ap (λ x. x.org_id) q_o, or_fail-eq-ok _ forbidden n e2) in
    let s_r : r ≡ s = ground (arith, role, n_m, or_fail-eq-ok _ forbidden s e3) in
    ap (λ x. has_all x.permissions o.additional) s_r
    ∙ (ap (λ x. has_all s.permissions x.additional) q_o ∙ held)

-- If a control of an operation succeeds, then the operation exists in the organisation and is a local
-- one, and the member is an active member of it whose role has the operation's required permission
-- and all its additional ones.
pub control_local-Controller :
    (open_payload : Text → Option Payload) (full_access : ℕ → ℕ → Bool) (db : Db) (t : Tables)
    (org_id actor : ℕ) (id : Text) (action : Action) (c m : ℕ) (t' : Tables)
    → control_local open_payload full_access db t org_id actor id action c m ≡ ok t'
    → (o : Operation) × ((find_operation t.operations id ≡ some o)
        × ((o.org_id ≡ org_id)
            × ((is_local o.kind ≡ true) × Controller full_access db org_id actor o)))
unfolding control_local
control_local-Controller open_payload full_access db t org_id actor id action c m t' h =
    let (v, e1, h1) = >>=-eq-ok (operation_for_member full_access db t org_id actor id) _ t' h in
    let (u2, e2, h2) = >>=-eq-ok (guard (is_local v.kind) invalid) _ t' h1 in
    let (u3, e3, h3) = >>=-eq-ok (controller_permission full_access db t id actor) _ t' h2 in
    let (u4, e4, h4) =
      >>=-eq-ok (retry_permission open_payload full_access db t id action) _ t' h3 in
    let (m, e5, h5) = >>=-eq-ok (or_fail (find_active db.members org_id actor) forbidden) _ t' h4 in
    let (r, e6, h6) = >>=-eq-ok (or_fail (role_of db m) forbidden) _ t' h5 in
    let (u7, e7, h7) =
      >>=-eq-ok (guard (has_permission r.permissions v.required) forbidden) _ t' h6 in
    let member = or_fail-eq-ok _ forbidden m e5 in
    let role = or_fail-eq-ok _ forbidden r e6 in
    let (found, own) = operation_for_member-found full_access db t org_id actor id v e1 in
    let extra =
      controller_permission-additional full_access db t id actor v m r found own member role u3
        e3 in
    (
      v,
      (
        found,
        (
          own,
          (
            guard-eq-ok (is_local v.kind) invalid u2 e2,
            record {
              member = m;
              is_member = member;
              role = r;
              has_role = role;
              required = guard-eq-ok _ forbidden u7 e7;
              additional = extra;
            },
          ),
        ),
      ),
    )
