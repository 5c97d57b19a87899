-- ===== src/Operations/Samples.antt =====
-- Tests of the queue of internal/core/operations.go on one organisation, and the theorems at its
-- data.
use mailhearth.Common.{
  ℕ, ◌≡◌, refl, Bool, true, false, List, [], ◌∷◌, Option, none, some, Text, codes, text_eq, find_if,
  contains, keep_if, length, ok, err, if◌then◌else◌,
}
use mailhearth.Access.{has_permission}
use mailhearth.Access.Store.{
  Db, Role, Member, active, find_active, find_member, find_role, role_of, is_active,
}
use mailhearth.Operations.Tables.{
  queued, cancelled, Operation, Tables, find_operation, change, lock_holder, unlock, insert_lock,
  mark_steps, is_execute, is_queued, is_running, is_succeeded, is_failed, is_unknown,
  is_needs_action, idempotency_conflict,
}
use mailhearth.Operations.Permission.{
  operation_permission, controller_permission, operation_for_member, allowed, has_all,
}
use mailhearth.Operations.Queue.{
  enqueue, enter_operation, find_request, require_free, insert_locks, insert_operation,
}
use mailhearth.Operations.Execute.{
  start_operations, interrupt_operations, claim, went_well, finish, final_status, has_effects,
  set_final, keeps_locks, complete_local,
}
use mailhearth.Operations.Control.{
  Payload, cancel, reconcile, control_local, act, cancel_operation, reconcile_operation, is_local,
}
use mailhearth.Operations.History.{
  World, Event, queues, restarts, claims, commits, finishes, controls, step, run, empty,
}
use mailhearth.Operations.Rows.{is_final}
use mailhearth.Operations.Sound.{Sound}
use mailhearth.Operations.Histories.{run-Sound}
use mailhearth.Operations.Final.{run-final}
use mailhearth.Operations.Exclusive.{claim-exclusive, enter_operation-locks, AllFree, AllTaken}
use mailhearth.Operations.Authority.{Controller, control_local-Controller}
use mailhearth.Operations.Resend.{run-repeats}

abbrev manager : Role
manager = record {
  id = 2;
  org_id = 1;
  key = codes "admin";
  name = codes "Administrator";
  description = [];
  permissions = codes "org.manage" ∷ [];
  builtin = true;
}

abbrev ada : Member
ada = record { id = 7; org_id = 1; role_id = 2; status = active }

abbrev db : Db
db = record { roles = manager ∷ []; members = ada ∷ []; audit = [] }

abbrev sync : Operation
sync = record {
  id = codes "a1";
  org_id = 1;
  actor = 7;
  kind = codes "connection.sync";
  request_id = codes "r1";
  digest = codes "d1";
  raw_digest = none;
  payload = some (codes "sealed");
  status = queued;
  error_code = none;
  required = codes "org.manage";
  additional = [];
  connection_id = 9;
  mailbox_id = 0;
}

abbrev other : Operation
other = record sync { id = codes "b2"; request_id = codes "r2" }

abbrev nobody : ℕ → ℕ → Bool
nobody actor mailbox = false

abbrev sealed_sync : Text → Option Payload
sealed_sync s = some (record {
  kind = codes "connection.sync";
  connection_revision = none;
  endpoints_revision = none;
  expected_revision = 0;
})

abbrev keys : List Text
keys = codes "connection:9" ∷ []

after_events : List Event → World
unfolding run step enqueue enter_operation find_request require_free insert_locks insert_lock
    lock_holder insert_operation find_operation controller_permission allowed has_all has_permission
    find_active find_role role_of is_active find_if text_eq claim is_queued change mark_steps
    is_execute finish is_succeeded final_status has_effects set_final keeps_locks is_unknown
    is_needs_action unlock keep_if contains complete_local operation_permission find_member
    is_running start_operations interrupt_operations control_local operation_for_member is_local act
    cancel_operation reconcile_operation is_failed
after_events events = run nobody sealed_sync empty events

-- A second operation on the connection has to wait for the first.
abbrev locked : List Event
locked = queues db sync keys ∷ queues db other keys ∷ []

locked_test : length (after_events locked).tables.operations ≡ 1
unfolding after_events
locked_test = refl

-- A claim is made once; the end gives the locks back.
abbrev worked : List Event
worked =
    queues db sync keys
    ∷ claims (codes "a1")
    ∷ claims (codes "a1")
    ∷ commits db (codes "a1")
    ∷ finishes (codes "a1") went_well
    ∷ queues db other keys
    ∷ []

worked_test : length (after_events worked).tables.operations ≡ 2
unfolding after_events
worked_test = refl

workers_test : (after_events worked).workers ≡ []
unfolding after_events
workers_test = refl

-- A restart makes a running operation unknown, which is reconciled and then cancelled.
abbrev interrupted : List Event
interrupted =
    queues db sync keys
    ∷ claims (codes "a1")
    ∷ restarts
    ∷ controls db 1 7 (codes "a1") reconcile 0 0
    ∷ controls db 1 7 (codes "a1") cancel 0 0
    ∷ []

cancelled_row : Operation
cancelled_row = record sync {
  status = cancelled;
  payload = none;
  error_code = some (codes "process_interrupted_confirmed");
}

cancelled_test :
    find_operation (after_events interrupted).tables.operations (codes "a1") ≡ some cancelled_row
unfolding after_events cancelled_row
cancelled_test = refl

no_lock_test : (after_events interrupted).tables.locks ≡ []
unfolding after_events
no_lock_test = refl

empty-Sound : Sound empty
empty-Sound = record { locks = record { unique = tt; each = tt }; workers = tt }

run-Sound_example : Sound (run nobody sealed_sync empty worked)
run-Sound_example = run-Sound nobody sealed_sync empty worked empty-Sound

abbrev cancelled_world : World
cancelled_world = after_events interrupted

cancelled-Sound : Sound (after_events interrupted)
unfolding after_events
cancelled-Sound = run-Sound nobody sealed_sync empty interrupted empty-Sound

cancelled_final : is_final cancelled_row.status ≡ true
unfolding cancelled_row is_final
cancelled_final = refl

run-final_example :
    find_operation
      (run nobody sealed_sync (after_events interrupted) worked).tables.operations
      (codes "a1")
    ≡ some cancelled_row
run-final_example =
    run-final nobody sealed_sync (after_events interrupted) worked (codes "a1") cancelled_row
      cancelled-Sound cancelled_test cancelled_final

entered : Tables
unfolding after_events
entered = (after_events (queues db sync keys ∷ [])).tables

entered_first : enqueue nobody db empty.tables sync keys ≡ ok (codes "a1", (false, entered))
unfolding entered
entered_first = refl

-- The same request under a fresh id, while the first operation runs.
abbrev again : Operation
again = record sync { id = codes "c3" }

run-repeats_example :
    enqueue nobody db
      (run nobody sealed_sync
        (record { tables = entered; workers = [] })
        (claims (codes "a1") ∷ [])).tables
      again
      keys
    ≡ (if text_eq again.digest sync.digest
        then ok (
          codes "a1",
          (
            true,
            (run nobody sealed_sync
                (record { tables = entered; workers = [] })
                (claims (codes "a1") ∷ [])).tables,
          ),
        )
        else err idempotency_conflict)
run-repeats_example =
    run-repeats nobody sealed_sync empty db db sync again keys keys (codes "a1") false entered
      (claims (codes "a1") ∷ []) entered_first refl refl refl

-- While the first operation runs, its worker has it in hand.
abbrev in_hand : List Event
in_hand = queues db sync keys ∷ claims (codes "a1") ∷ []

in_hand-Sound : Sound (after_events in_hand)
unfolding after_events
in_hand-Sound = run-Sound nobody sealed_sync empty in_hand empty-Sound

in_hand_test : contains (after_events in_hand).workers (codes "a1") ≡ true
unfolding after_events
in_hand_test = refl

claim-exclusive_example : claim (after_events in_hand).tables (codes "a1") ≡ none
claim-exclusive_example =
    claim-exclusive (after_events in_hand) (codes "a1") in_hand-Sound in_hand_test

entered_new : enter_operation nobody db empty.tables sync keys ≡ ok entered
unfolding entered
entered_new = refl

enter_operation-locks_example :
    AllFree empty.tables.locks 1 keys
    × (AllTaken entered.locks 1 keys (codes "a1")
        × ((k h : Text)
            → lock_holder empty.tables.locks 1 k ≡ some h
            → lock_holder entered.locks 1 k ≡ some h))
enter_operation-locks_example =
    enter_operation-locks nobody db empty.tables sync keys entered entered_new

-- Cancelling the operation that waits.
given_up : Tables
unfolding after_events
given_up =
    (after_events (queues db sync keys ∷ controls db 1 7 (codes "a1") cancel 0 0 ∷ [])).tables

given_up_test :
    control_local sealed_sync nobody db entered 1 7 (codes "a1") cancel 0 0 ≡ ok given_up
unfolding entered given_up
given_up_test = refl

control_local-Controller_example :
    (o : Operation) × ((find_operation entered.operations (codes "a1") ≡ some o)
      × ((o.org_id ≡ 1) × ((is_local o.kind ≡ true) × Controller nobody db 1 7 o)))
control_local-Controller_example =
    control_local-Controller sealed_sync nobody db entered 1 7 (codes "a1") cancel 0 0 given_up
      given_up_test
