-- ===== src/Operations/Control.antt =====
-- `ControlOperation` of internal/core/operation_controls.go for the local operations: cancel,
-- reconcile and retry.
use mailhearth.Common.{
  ℕ, Bool, true, false, ◌||◌, List, [], ◌∷◌, ◌++◌, Option, none, some, Text, codes, text_eq, ◌==◌,
  if◌then◌else◌, guard, ok, err, ◌>>=◌, ◌>>◌, decimal, ltb,
}
use mailhearth.Access.{has_permission}
use mailhearth.Access.Store.{Db, find_active, role_of}
use mailhearth.Operations.Tables.{
  Status, pending, queued, failed, cancelled, is_queued, is_failed, is_unknown, Operation, Lock,
  Tables, find_operation, change, lock_holder, insert_lock, unlock, mark_steps, Result, or_fail,
  forbidden, not_found, in_progress, not_cancellable, not_reconcilable, not_retryable,
  decryption_failed, invalid, revision_conflict,
}
use mailhearth.Operations.Permission.{
  controller_permission, operation_permission, operation_for_member,
}

unfoldable pub is_local : Text → Bool
is_local kind =
    text_eq kind (codes "connection.discover")
    || (text_eq kind (codes "connection.import")
        || (text_eq kind (codes "connection.configure")
            || (text_eq kind (codes "connection.sync")
                || text_eq kind (codes "mailbox.endpoints"))))

pub data Action : Type 0 where
  cancel reconcile retry : Action

-- The parts of the payload that a retry reads. A payload that cannot be opened or read is one error
-- here.
pub record Payload : Type 0 where
  pub kind : Text
  pub connection_revision : Option ℕ
  pub endpoints_revision : Option ℕ
  pub expected_revision : ℕ

abbrev pub set_cancelled : Operation → Operation
set_cancelled o = record o { status = cancelled; payload = none }

abbrev pub set_interrupted : Operation → Operation
set_interrupted o = record o {
  status = failed;
  error_code = some (codes "process_interrupted_confirmed");
}

abbrev pub set_queued : Operation → Operation
set_queued o = record o { status = queued; error_code = none }

unfoldable pub cancel_operation : Tables → Operation → Result Tables
cancel_operation t o = do
  guard (is_queued o.status || is_failed o.status) not_cancellable
  ok (record t { operations = change o.id set_cancelled t.operations; locks = unlock o.id t.locks })

unfoldable pub reconcile_operation : Tables → Operation → Result Tables
reconcile_operation t o = do
  guard (is_unknown o.status) not_reconcilable
  ok (record {
    operations = change o.id set_interrupted t.operations;
    locks = unlock o.id t.locks;
    steps = mark_steps o.id (λ s. is_unknown s.status) failed t.steps;
  })

unfoldable pub same_revision : Option ℕ → ℕ → Bool
same_revision none current = true
same_revision (some expected) current = current == expected

-- What a retry expects of the mailbox's revision.
unfoldable pub mailbox_revision : Payload → Option ℕ
mailbox_revision p = elim p.endpoints_revision [
  | some expected ↦ some expected
  | none ↦ if text_eq p.kind (codes "mailbox.reactivate") then some p.expected_revision else none
]

-- The keys of the connection and of the mailbox, in the order of their letters.
unfoldable pub target_keys : Operation → List Text
target_keys o =
    (if ltb 0 o.connection_id then (codes "connection:" ++ decimal o.connection_id) ∷ [] else [])
    ++ (if ltb 0 o.mailbox_id then (codes "mailbox:" ++ decimal o.mailbox_id) ∷ [] else [])

-- A key that another operation holds stops the retry; one that is held already is kept.
unfoldable pub take_locks : List Lock → ℕ → List Text → Text → Result (List Lock)
take_locks locks org_id [] id = ok locks
take_locks locks org_id (key ∷ keys) id = elim (lock_holder locks org_id key) [
  | none ↦ do more ← insert_lock locks org_id key id; take_locks more org_id keys id
  | some holder ↦
      if text_eq holder id then take_locks locks org_id keys id else err (in_progress holder)
]

-- COALESCE(payload_enc,'') against ''
unfoldable pub non_empty : Option Text → Option Text
non_empty none = none
non_empty (some []) = none
non_empty (some (c ∷ s)) = some (c ∷ s)

module _ (open_payload : Text → Option Payload) where
  -- The revisions of the connection and of the mailbox as they are now.
  unfoldable pub retry_operation : Tables → Operation → ℕ → ℕ → Result Tables
  unfolding same_revision mailbox_revision target_keys
  retry_operation t o connection_now mailbox_now = do
    guard (is_failed o.status) not_retryable
    sealed ← or_fail (non_empty o.payload) not_retryable
    p ← or_fail (open_payload sealed) decryption_failed
    guard (text_eq p.kind o.kind) invalid
    guard (same_revision p.connection_revision connection_now) revision_conflict
    guard (same_revision (mailbox_revision p) mailbox_now) revision_conflict
    locks ← take_locks t.locks o.org_id (target_keys o) o.id
    ok (record {
      operations = change o.id set_queued t.operations;
      locks = locks;
      steps = mark_steps o.id (λ s. is_failed s.status || is_pending s.status) pending t.steps;
    })
    where
      is_pending : Status → Bool
      is_pending pending = true
      is_pending _ = false

  unfoldable pub act : Tables → Operation → Action → ℕ → ℕ → Result Tables
  act t o cancel connection_now mailbox_now = cancel_operation t o
  act t o reconcile connection_now mailbox_now = reconcile_operation t o
  act t o retry connection_now mailbox_now = retry_operation t o connection_now mailbox_now

  module _ (full_access : ℕ → ℕ → Bool) (db : Db) where
    unfoldable pub retry_permission : Tables → Text → Action → Result (Unit {0})
    retry_permission t id retry = operation_permission full_access db t id
    retry_permission t id _ = ok tt

    -- The transaction, for a local operation.
    unfoldable pub control_local : Tables → ℕ → ℕ → Text → Action → ℕ → ℕ → Result Tables
    unfolding retry_permission
    control_local t org_id actor id action connection_now mailbox_now = do
      v ← operation_for_member full_access db t org_id actor id
      guard (is_local v.kind) invalid
      controller_permission full_access db t id actor
      retry_permission t id action
      m ← or_fail (find_active db.members org_id actor) forbidden
      r ← or_fail (role_of db m) forbidden
      guard (has_permission r.permissions v.required) forbidden
      o ← or_fail (find_operation t.operations id) not_found
      act t o action connection_now mailbox_now
