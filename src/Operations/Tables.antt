-- ===== src/Operations/Tables.antt =====
-- The tables operations, operation_locks and operation_steps (internal/db/migrations/0001_init.sql),
-- and the reads and updates of rows that internal/core/operations.go makes. Times and result bodies
-- are left out.
use mailhearth.Common.{
  ℕ, Bool, true, false, not, ◌&&◌, List, [], ◌∷◌, Option, none, some, Text, text_eq, codes, ◌==◌,
  if◌then◌else◌, keep_if, Outcome, ok, err,
}

-- The values of the status columns of both tables.
pub data Status : Type 0 where
  pending queued running succeeded failed unknown needs_action cancelled : Status

unfoldable pub is_queued : Status → Bool
is_queued queued = true
is_queued _ = false

unfoldable pub is_running : Status → Bool
is_running running = true
is_running _ = false

unfoldable pub is_failed : Status → Bool
is_failed failed = true
is_failed _ = false

unfoldable pub is_unknown : Status → Bool
is_unknown unknown = true
is_unknown _ = false

unfoldable pub is_succeeded : Status → Bool
is_succeeded succeeded = true
is_succeeded _ = false

unfoldable pub is_needs_action : Status → Bool
is_needs_action needs_action = true
is_needs_action _ = false

pub record Operation : Type 0 where
  pub id : Text
  pub org_id : ℕ
  pub actor : ℕ
  pub kind : Text
  pub request_id : Text
  pub digest : Text
  pub raw_digest : Option Text
  pub payload : Option Text
  pub status : Status
  pub error_code : Option Text
  pub required : Text
  pub additional : List Text
  pub connection_id : ℕ
  pub mailbox_id : ℕ

pub record Lock : Type 0 where
  pub org_id : ℕ
  pub key : Text
  pub holder : Text

pub record Step : Type 0 where
  pub operation_id : Text
  pub key : Text
  pub status : Status

pub record Tables : Type 0 where
  pub operations : List Operation
  pub locks : List Lock
  pub steps : List Step

pub data OperationError : Type 0 where
  forbidden : OperationError
  not_found : OperationError
  idempotency_conflict : OperationError
  in_progress : Text → OperationError
  not_cancellable : OperationError
  not_reconcilable : OperationError
  not_retryable : OperationError
  decryption_failed : OperationError
  invalid : OperationError
  revision_conflict : OperationError
  constraint_failed : OperationError
  status_changed : OperationError

abbrev pub Result {ℓ} : Type ℓ → Type ℓ
Result A = Outcome OperationError A

abbrev pub or_fail {ℓ} : {A : Type ℓ} → Option A → OperationError → Result A
or_fail none e = err e
or_fail (some a) e = ok a

-- WHERE id=?
unfoldable pub find_operation : List Operation → Text → Option Operation
find_operation [] id = none
find_operation (o ∷ ops) id = if text_eq o.id id then some o else find_operation ops id

-- UPDATE operations SET … WHERE id=?
unfoldable pub change : Text → (Operation → Operation) → List Operation → List Operation
change id f [] = []
change id f (o ∷ ops) =
    let rest = change id f ops in if text_eq o.id id then f o ∷ rest else o ∷ rest

-- SELECT operation_id FROM operation_locks WHERE org_id=? AND resource_key=?
unfoldable pub lock_holder : List Lock → ℕ → Text → Option Text
lock_holder [] org_id key = none
lock_holder (l ∷ locks) org_id key =
    if (l.org_id == org_id) && text_eq l.key key
    then some l.holder
    else lock_holder locks org_id key

-- DELETE FROM operation_locks WHERE operation_id=?
unfoldable pub unlock : Text → List Lock → List Lock
unlock id locks = keep_if (λ l. not (text_eq l.holder id)) locks

-- INSERT INTO operation_locks, whose primary key is the organisation and the resource key.
unfoldable pub insert_lock : List Lock → ℕ → Text → Text → Result (List Lock)
insert_lock locks org_id key id = elim (lock_holder locks org_id key) [
  | none ↦ ok (record { org_id = org_id; key = key; holder = id } ∷ locks)
  | some holder ↦ err constraint_failed
]

-- UPDATE operation_steps SET status=? WHERE operation_id=? AND …
unfoldable pub mark_steps : Text → (Step → Bool) → Status → List Step → List Step
mark_steps id picks status [] = []
mark_steps id picks status (s ∷ steps) =
    let rest = mark_steps id picks status steps in
    if text_eq s.operation_id id && picks s then record s { status = status } ∷ rest else s ∷ rest

abbrev pub execute_key : Text
execute_key = codes "execute"

unfoldable pub is_execute : Step → Bool
is_execute s = text_eq s.key execute_key
