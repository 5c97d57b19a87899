-- ===== src/Operations/Queue.antt =====
-- `QueueOperation` of internal/core/operations.go, for the operations that have no plan to reserve
-- (the local ones): the reply to a repeated request and the transaction that enters a new one. The
-- digests, the sealed payload and the sorted list of keys, each once, are arguments.
use mailhearth.Common.{
  ℕ, Bool, true, false, ◌&&◌, List, [], ◌∷◌, ◌++◌, Option, none, some, Text, text_eq, ◌==◌,
  if◌then◌else◌, guard, ok, err, ◌>>=◌, ◌>>◌,
}
use mailhearth.Access.Store.{Db}
use mailhearth.Operations.Tables.{
  Operation, Lock, Step, Tables, pending, queued, find_operation, Result, lock_holder, insert_lock,
  execute_key, idempotency_conflict, in_progress, constraint_failed,
}
use mailhearth.Operations.Permission.{controller_permission, operation_for_member}

-- WHERE org_id=? AND actor_member_id=? AND request_id=?
unfoldable pub find_request : List Operation → ℕ → ℕ → Text → Option Operation
find_request [] org_id actor request_id = none
find_request (o ∷ ops) org_id actor request_id =
    if (o.org_id == org_id) && ((o.actor == actor) && text_eq o.request_id request_id)
    then some o
    else find_request ops org_id actor request_id

-- The first key that is locked stops the request.
unfoldable pub require_free : List Lock → ℕ → List Text → Result (Unit {0})
require_free locks org_id [] = ok tt
require_free locks org_id (key ∷ keys) = elim (lock_holder locks org_id key) [
  | none ↦ require_free locks org_id keys
  | some holder ↦ err (in_progress holder)
]

unfoldable pub insert_locks : List Lock → ℕ → List Text → Text → Result (List Lock)
insert_locks locks org_id [] id = ok locks
insert_locks locks org_id (key ∷ keys) id = do
  more ← insert_lock locks org_id key id
  insert_locks more org_id keys id

unfoldable pub insert_operation : List Operation → Operation → Result (List Operation)
insert_operation ops o = elim (find_operation ops o.id) [
  | none ↦ ok (ops ++ o ∷ [])
  | some other ↦ err constraint_failed
]

unfoldable pub same_digest : Option Text → Text → Bool
same_digest none raw = false
same_digest (some d) raw = text_eq d raw

module _ (full_access : ℕ → ℕ → Bool) (db : Db) where
  -- The new row, with its locks and its first step.
  unfoldable pub enter_operation : Tables → Operation → List Text → Result Tables
  unfolding insert_operation
  enter_operation t o keys = do
    require_free t.locks o.org_id keys
    operations ← insert_operation t.operations (record o { status = queued; error_code = none })
    let entered = record t { operations = operations }
    controller_permission full_access db entered o.id o.actor
    locks ← insert_locks t.locks o.org_id keys o.id
    let first : Step = record { operation_id = o.id; key = execute_key; status = pending }
    ok (record { operations = operations; locks = locks; steps = t.steps ++ first ∷ [] })

  -- The transaction: a repeated request gets the id of the first one. `o` is the row to enter.
  unfoldable pub enqueue : Tables → Operation → List Text → Result (Text × (Bool × Tables))
  enqueue t o keys = elim (find_request t.operations o.org_id o.actor o.request_id) [
    | some prior ↦ do
      guard (text_eq o.digest prior.digest) idempotency_conflict
      ok (prior.id, (true, t))
    | none ↦ do entered ← enter_operation t o keys; ok (o.id, (false, entered))
  ]

  -- The reply to a request whose raw digest is on record.
  unfoldable pub reply : Tables → Operation → Operation → Text → Result (Text × (Bool × Tables))
  unfolding same_digest
  reply t o prior raw = do
    guard (same_digest o.raw_digest raw) idempotency_conflict
    seen ← operation_for_member full_access db t o.org_id o.actor prior.id
    controller_permission full_access db t prior.id o.actor
    ok (prior.id, (true, t))

  unfoldable pub queue_operation : Tables → Operation → List Text → Result (Text × (Bool × Tables))
  queue_operation t o keys = elim (find_request t.operations o.org_id o.actor o.request_id) [
    | none ↦ enqueue t o keys
    | some prior ↦ elim prior.raw_digest [
      | none ↦ enqueue t o keys
      | some raw ↦ reply t o prior raw
    ]
  ]
