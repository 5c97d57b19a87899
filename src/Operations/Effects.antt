-- ===== src/Operations/Effects.antt =====
-- What a claim, a local commit and a control of internal/core/operations.go and
-- internal/core/operation_controls.go have found and written.
use mailhearth.Common.{
  ℕ, ◌≡◌, refl, ◌∙◌, inl, inr, Bool, true, false, ◌||◌, Option, none, some, arith, Text, text_eq,
  text_eq_refl, Option-cases, ok, >>=-eq-ok, guard-eq-ok, guard, subst,
}
use mailhearth.Access.{has_permission}
use mailhearth.Access.Store.{Db, find_active, role_of}
use mailhearth.Operations.Permission.{
  operation_permission, controller_permission, operation_for_member,
}
use mailhearth.Operations.Tables.{
  Status, queued, succeeded, failed, unknown, is_queued, is_running, is_failed, is_unknown,
  Operation, Tables, find_operation, change, unlock, or_fail, not_found, status_changed, invalid,
  forbidden, not_cancellable, not_reconcilable, not_retryable, decryption_failed, revision_conflict,
}
use mailhearth.Operations.Execute.{claim, set_running, set_final, complete_local}
use mailhearth.Operations.Control.{
  Action, cancel, reconcile, retry, Payload, act, cancel_operation, reconcile_operation,
  retry_operation, non_empty, control_local, set_cancelled, set_interrupted, set_queued, take_locks,
  target_keys, is_local, retry_permission, same_revision, mailbox_revision,
}
use mailhearth.Operations.Rows.{
  is_live, is_busy, KeepsId, KeepsRequest, at-change, or_fail-eq-ok, is_final,
}
use mailhearth.Operations.Locks.{Kept, take_locks-Kept}
use mailhearth.Operations.Holders.{Held, live-Kept, over-Kept}

-- What a claim has found and written.
pub claim-queued :
    (t : Tables) (id : Text) (t' : Tables)
    → claim t id ≡ some t'
    → (o : Operation) × (find_operation t.operations id ≡ some o)
      × (is_queued o.status ≡ true)
      × (t'.operations ≡ change id set_running t.operations)
      × (t'.locks ≡ t.locks)
unfolding claim
claim-queued t id t' h = elim (Option-cases (find_operation t.operations id)) [
  | inl e ↦ absurd (ground (arith, h, e))
  | inr (o, e) ↦ (o, e, ground (arith, h, e), ground (arith, h, e), ground (arith, h, e))
]

pub complete_local-running :
    (full_access : ℕ → ℕ → Bool) (db : Db) (t : Tables) (id : Text) (t' : Tables)
    → complete_local full_access db t id ≡ ok t'
    → (o : Operation) × (find_operation t.operations id ≡ some o)
      × (is_running o.status ≡ true)
      × (t'.operations ≡ change id (set_final succeeded none) t.operations)
      × (t'.locks ≡ unlock id t.locks)
unfolding complete_local
complete_local-running full_access db t id t' h =
    let (u, e, h1) = >>=-eq-ok (operation_permission full_access db t id) _ t' h in
    let (o, found, h2) = >>=-eq-ok (or_fail (find_operation t.operations id) not_found) _ t' h1 in
    let (v, g, h3) = >>=-eq-ok (guard (is_running o.status) status_changed) _ t' h2 in
    (
      o,
      or_fail-eq-ok _ not_found o found,
      guard-eq-ok (is_running o.status) status_changed v g,
      ground (arith, h3),
      ground (arith, h3),
    )

-- The operation that a control works on, and what it does.
pub control_local-acts :
    (open_payload : Text → Option Payload) (full_access : ℕ → ℕ → Bool) (db : Db) (t : Tables)
    (org_id actor : ℕ) (id : Text) (action : Action) (connection_now mailbox_now : ℕ) (t' : Tables)
    → control_local open_payload full_access db t org_id actor id action connection_now mailbox_now
      ≡ ok t'
    → (o : Operation) × (find_operation t.operations id ≡ some o)
      × (act open_payload t o action connection_now mailbox_now ≡ ok t')
unfolding control_local
control_local-acts open_payload full_access db t org_id actor id action connection_now mailbox_now
      t' h =
    let (v, e1, h1) = >>=-eq-ok (operation_for_member full_access db t org_id actor id) _ t' h in
    let (u2, e2, h2) = >>=-eq-ok (guard (is_local v.kind) invalid) _ t' h1 in
    let (u3, e3, h3) = >>=-eq-ok (controller_permission full_access db t id actor) _ t' h2 in
    let (u4, e4, h4) =
      >>=-eq-ok (retry_permission open_payload full_access db t id action) _ t' h3 in
    let (m, e5, h5) = >>=-eq-ok (or_fail (find_active db.members org_id actor) forbidden) _ t' h4 in
    let (r, e6, h6) = >>=-eq-ok (or_fail (role_of db m) forbidden) _ t' h5 in
    let (u7, e7, h7) =
      >>=-eq-ok (guard (has_permission r.permissions v.required) forbidden) _ t' h6 in
    let (o, e8, h8) = >>=-eq-ok (or_fail (find_operation t.operations id) not_found) _ t' h7 in
    (o, or_fail-eq-ok _ not_found o e8, h8)

-- The three controls: none of them works on a busy operation.
pub record Controlled (t t' : Tables) (o : Operation) : Type 0 where
  pub idle : is_busy o.status ≡ false
  pub not_final : is_final o.status ≡ false
  pub update : Operation → Operation
  pub keeps : KeepsId update
  pub same_request : KeepsRequest update
  pub rows : t'.operations ≡ change o.id update t.operations
  pub locks :
      find_operation t.operations o.id ≡ some o
      → Kept (Held t.operations) t.locks
      → Kept (Held (change o.id update t.operations)) t'.locks

idle_cancel :
    (s : Status) → (is_queued s || is_failed s) ≡ true → (is_busy s ≡ false) × (is_final s ≡ false)
unfolding is_queued is_failed is_busy is_final
idle_cancel queued h = (refl, refl)
idle_cancel failed h = (refl, refl)
idle_cancel _ h = cc

idle_unknown : (s : Status) → is_unknown s ≡ true → (is_busy s ≡ false) × (is_final s ≡ false)
unfolding is_unknown is_busy is_final
idle_unknown unknown h = (refl, refl)
idle_unknown _ h = cc

idle_failed : (s : Status) → is_failed s ≡ true → (is_busy s ≡ false) × (is_final s ≡ false)
unfolding is_failed is_busy is_final
idle_failed failed h = (refl, refl)
idle_failed _ h = cc

cancel-Controlled :
    (t : Tables) (o : Operation) (t' : Tables) → cancel_operation t o ≡ ok t' → Controlled t t' o
unfolding cancel_operation
cancel-Controlled t o t' h =
    let (u, g, h1) =
      >>=-eq-ok (guard (is_queued o.status || is_failed o.status) not_cancellable) _ t' h in
    let idle = idle_cancel o.status (guard-eq-ok _ not_cancellable u g) in
    let same : unlock o.id t.locks ≡ t'.locks = ground (arith, h1) in
    record {
      idle = idle.0;
      not_final = idle.1;
      update = set_cancelled;
      keeps = λ q. refl;
      same_request = λ q. (refl, (refl, (refl, (refl, refl))));
      rows = ground (arith, h1);
      locks = λ found k.
          subst (Kept (Held (change o.id set_cancelled t.operations))) same
            (over-Kept t.operations o.id set_cancelled o t.locks (λ q. refl) found k);
    }

reconcile-Controlled :
    (t : Tables) (o : Operation) (t' : Tables) → reconcile_operation t o ≡ ok t' → Controlled t t' o
unfolding reconcile_operation
reconcile-Controlled t o t' h =
    let (u, g, h1) = >>=-eq-ok (guard (is_unknown o.status) not_reconcilable) _ t' h in
    let idle = idle_unknown o.status (guard-eq-ok _ not_reconcilable u g) in
    let same : unlock o.id t.locks ≡ t'.locks = ground (arith, h1) in
    record {
      idle = idle.0;
      not_final = idle.1;
      update = set_interrupted;
      keeps = λ q. refl;
      same_request = λ q. (refl, (refl, (refl, (refl, refl))));
      rows = ground (arith, h1);
      locks = λ found k.
          subst (Kept (Held (change o.id set_interrupted t.operations))) same
            (over-Kept t.operations o.id set_interrupted o t.locks (λ q. refl) found k);
    }

retry-Controlled :
    (open_payload : Text → Option Payload) (t : Tables) (o : Operation) (c m : ℕ) (t' : Tables)
    → retry_operation open_payload t o c m ≡ ok t'
    → Controlled t t' o
unfolding retry_operation is_live
retry-Controlled open_payload t o c m t' h =
    let (u, g, h1) = >>=-eq-ok (guard (is_failed o.status) not_retryable) _ t' h in
    let idle = idle_failed o.status (guard-eq-ok _ not_retryable u g) in
    let (sealed, e1, h2) = >>=-eq-ok (or_fail (non_empty o.payload) not_retryable) _ t' h1 in
    let (p, e2, h3) = >>=-eq-ok (or_fail (open_payload sealed) decryption_failed) _ t' h2 in
    let (u4, e4, h4) = >>=-eq-ok (guard (text_eq p.kind o.kind) invalid) _ t' h3 in
    let (u5, e5, h5) =
      >>=-eq-ok (guard (same_revision p.connection_revision c) revision_conflict) _ t' h4 in
    let (u6, e6, h6) =
      >>=-eq-ok (guard (same_revision (mailbox_revision p) m) revision_conflict) _ t' h5 in
    let (locks, taken, h7) = >>=-eq-ok (take_locks t.locks o.org_id (target_keys o) o.id) _ t' h6 in
    let same : locks ≡ t'.locks = ground (arith, h7) in
    let after_retry = change o.id set_queued t.operations in
    record {
      idle = idle.0;
      not_final = idle.1;
      update = set_queued;
      keeps = λ q. refl;
      same_request = λ q. (refl, (refl, (refl, (refl, refl))));
      rows = ground (arith, h7);
      locks = λ found k.
          let live =
            at-change is_live t.operations o.id o.id set_queued o (λ q. refl) found
            ∙ rw (text_eq_refl o.id) refl in
          subst (Kept (Held after_retry)) same (
            take_locks-Kept (Held after_retry) t.locks o.org_id (target_keys o) o.id locks
              (λ key. live) taken
              (live-Kept t.operations o.id set_queued o t.locks (λ q. refl) found refl k));
    }

pub act-Controlled :
    (open_payload : Text → Option Payload) (t : Tables) (o : Operation) (action : Action) (c m : ℕ)
    (t' : Tables)
    → act open_payload t o action c m ≡ ok t'
    → Controlled t t' o
unfolding act
act-Controlled open_payload t o cancel c m t' h = cancel-Controlled t o t' h
act-Controlled open_payload t o reconcile c m t' h = reconcile-Controlled t o t' h
act-Controlled open_payload t o retry c m t' h = retry-Controlled open_payload t o c m t' h
