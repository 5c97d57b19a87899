-- ===== src/Operations/Execute.antt =====
-- Carrying out operations: `StartOperations`, `executeOperation` and `completeLocalOperation` of
-- internal/core/operations.go. What the operation itself does, and whether it commits its own
-- transaction, is in the events of History.
use mailhearth.Common.{
  ℕ, Bool, false, not, ◌&&◌, ◌||◌, List, [], ◌∷◌, Option, none, some, Text, codes, text_eq,
  if◌then◌else◌, guard, ok, ◌>>=◌, ◌>>◌,
}
use mailhearth.Access.Store.{Db}
use mailhearth.Operations.Tables.{
  Status, running, succeeded, failed, unknown, needs_action, is_queued, is_running, is_succeeded,
  is_unknown, is_needs_action, Operation, Step, Tables, find_operation, change, unlock, mark_steps,
  is_execute, Result, or_fail, status_changed, not_found,
}
use mailhearth.Operations.Permission.{operation_permission}

-- When the process starts, what was running has an unknown outcome.
interrupt_steps : List Step → List Step
interrupt_steps [] = []
interrupt_steps (s ∷ steps) =
    let rest = interrupt_steps steps in
    if is_running s.status then record s { status = unknown } ∷ rest else s ∷ rest

unfoldable pub interrupt_operations : List Operation → List Operation
interrupt_operations [] = []
interrupt_operations (o ∷ ops) =
    let rest = interrupt_operations ops in
    if is_running o.status
    then record o { status = unknown; error_code = some (codes "process_interrupted") } ∷ rest
    else o ∷ rest

unfoldable pub start_operations : Tables → Tables
unfolding interrupt_steps
start_operations t = record t {
  operations = interrupt_operations t.operations;
  steps = interrupt_steps t.steps;
}

abbrev pub set_running : Operation → Operation
set_running o = record o { status = running }

-- A worker claims an operation: the update counts its rows, and only if one was queued the worker
-- goes on.
unfoldable pub claim : Tables → Text → Option Tables
claim t id = elim (find_operation t.operations id) [
  | none ↦ none
  | some o ↦
      if is_queued o.status
      then some (record t {
        operations = change id set_running t.operations;
        steps = mark_steps id is_execute running t.steps;
      })
      else none
]

-- What `executeOperation` got from the operation: success, an error with its code, or an error of
-- which the remote effect is unknown.
pub data Ran : Type 0 where
  went_well : Ran
  went_wrong : Text → Ran
  went_unknown : Text → Ran

-- Whether a step other than the first and the preparation of a script has succeeded.
unfoldable pub has_effects : Text → List Step → Bool
has_effects id [] = false
has_effects id (s ∷ steps) =
    (text_eq s.operation_id id
      && (not (is_execute s)
          && (not (text_eq s.key (codes "sieve.prepare")) && is_succeeded s.status)))
    || has_effects id steps

unfoldable pub final_status : Bool → Ran → Status
final_status effects went_well = succeeded
final_status effects (went_wrong code) = if effects then needs_action else failed
final_status effects (went_unknown code) = unknown

abbrev pub code_of : Ran → Option Text
code_of went_well = none
code_of (went_wrong code) = some code
code_of (went_unknown code) = some code

-- A final payload is forgotten; a payload that may be needed again is kept.
unfoldable pub set_final : Status → Option Text → Operation → Operation
set_final s code o = record o {
  status = s;
  error_code = code;
  payload = if is_succeeded s then none else o.payload;
}

unfoldable pub keeps_locks : Status → Bool
keeps_locks s = is_unknown s || is_needs_action s

-- The end of `executeOperation`.
unfoldable pub finish : Tables → Text → Ran → Tables
unfolding final_status
finish t id ran = elim (find_operation t.operations id) [
  | none ↦ t
  | some o ↦
      if is_succeeded o.status
      then t
      else let s = final_status (has_effects id t.steps) ran in
        record {
          operations = change id (set_final s (code_of ran)) t.operations;
          locks = if keeps_locks s then t.locks else unlock id t.locks;
          steps = mark_steps id is_execute (if is_needs_action s then failed else s) t.steps;
        }
]

module _ (full_access : ℕ → ℕ → Bool) (db : Db) where
  -- completeLocalOperation, at the end of a local transaction: without the intermediate commits.
  unfoldable pub complete_local : Tables → Text → Result Tables
  complete_local t id = do
    operation_permission full_access db t id
    o ← or_fail (find_operation t.operations id) not_found
    guard (is_running o.status) status_changed
    ok (record {
      operations = change id (set_final succeeded none) t.operations;
      locks = unlock id t.locks;
      steps = mark_steps id (λ s. is_running s.status) succeeded t.steps;
    })
