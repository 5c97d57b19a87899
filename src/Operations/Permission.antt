-- ===== src/Operations/Permission.antt =====
-- Who may see, control and carry out an operation: `OperationForMember` of
-- internal/core/operation_controls.go, and `checkOperationPermissionTx` and
-- `checkOperationControllerPermissionTx` of internal/core/operations.go. `full_access` is the answer
-- of `requireFullAccessTx` for a member and a mailbox, which only operations on mail rules ask.
use mailhearth.Common.{
  ℕ, Bool, true, not, ◌&&◌, ◌||◌, List, [], ◌∷◌, Text, codes, text_eq, ◌==◌, if◌then◌else◌, guard,
  ok, ◌>>=◌, ◌>>◌,
}
use mailhearth.Access.{org_manage, has_permission}
use mailhearth.Access.Store.{Db, find_active, find_member, role_of}
use mailhearth.Operations.Tables.{
  Operation, Tables, find_operation, Result, or_fail, forbidden, not_found,
}

abbrev pub mail_full : Text
mail_full = codes "mail.full"

-- The loop over the additional permissions.
unfoldable pub has_all : List Text → List Text → Bool
has_all permissions [] = true
has_all permissions (p ∷ extra) = has_permission permissions p && has_all permissions extra

module _ (full_access : ℕ → ℕ → Bool) (db : Db) where
  -- The common part: an active member with all additional permissions and the required one.
  unfoldable pub allowed : Operation → ℕ → List Text → Result (Unit {0})
  unfolding has_all
  allowed o actor permissions = do
    guard (has_all permissions o.additional) forbidden
    if text_eq o.required mail_full
        then guard (full_access actor o.mailbox_id) forbidden
        else guard (has_permission permissions o.required) forbidden

  -- checkOperationPermissionTx: the member who asked for the operation.
  unfoldable pub operation_permission : Tables → Text → Result (Unit {0})
  unfolding allowed
  operation_permission t id = do
    o ← or_fail (find_operation t.operations id) not_found
    m ← or_fail (find_member db.members o.org_id o.actor) not_found
    r ← or_fail (role_of db m) not_found
    a ← or_fail (find_active db.members o.org_id o.actor) forbidden
    allowed o o.actor r.permissions

  -- checkOperationControllerPermissionTx: the member who controls it.
  unfoldable pub controller_permission : Tables → Text → ℕ → Result (Unit {0})
  unfolding allowed
  controller_permission t id actor = do
    o ← or_fail (find_operation t.operations id) forbidden
    m ← or_fail (find_active db.members o.org_id actor) forbidden
    r ← or_fail (role_of db m) forbidden
    guard (not (text_eq o.required mail_full) || not (o.mailbox_id == 0)) forbidden
    allowed o actor r.permissions

  -- OperationForMember.
  unfoldable pub operation_for_member : Tables → ℕ → ℕ → Text → Result Operation
  operation_for_member t org_id actor id = do
    member ← or_fail (find_member db.members org_id actor) not_found
    m ← or_fail (find_active db.members org_id actor) forbidden
    o ← or_fail (find_operation t.operations id) not_found
    guard (o.org_id == org_id) not_found
    r ← or_fail (role_of db m) not_found
    if text_eq o.required mail_full
        then guard ((actor == o.actor) && full_access actor o.mailbox_id) forbidden
        else guard
            (has_permission r.permissions org_manage
              || ((actor == o.actor) && has_permission r.permissions o.required))
            forbidden
    ok o
