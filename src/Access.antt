-- ===== src/Access.antt =====
-- Roles and permissions: the permission keys of internal/model/model.go, the tests of
-- internal/core/roles.go and internal/core/resource_guards.go, and below them the role table.
pub mod Validation
pub mod Store
pub mod Guards
pub mod Roles
pub mod Cover
pub mod Outcomes
pub mod Manage
pub mod Escalation
pub mod Invariant
mod Samples
pub use mailhearth.Common.{Outcome, ok, err, guard, ◌>>=◌, ◌>>◌}
use mailhearth.Common.{
  ℕ, Bool, true, false, ◌&&◌, ◌||◌, List, [], ◌∷◌, ◌++◌, Text, codes, text_eq, contains, trim_space,
  if◌then◌else◌,
}

abbrev pub org_owner : Text
org_owner = codes "org.owner"

abbrev pub org_manage : Text
org_manage = codes "org.manage"

-- AllPermissions, in the order in which they are displayed.
unfoldable pub all_permissions : List Text
all_permissions =
    codes "org.owner"
    ∷ codes "org.manage"
    ∷ codes "domains.manage"
    ∷ codes "members.manage"
    ∷ codes "mailboxes.manage"
    ∷ codes "shared.manage"
    ∷ codes "addresses.manage"
    ∷ codes "groups.manage"
    ∷ codes "audit.read"
    ∷ codes "billing.read"
    ∷ []

-- The permission list of the built-in administrator: everything but the owner's.
pub without_owner : List Text → List Text
without_owner [] = []
without_owner (x ∷ xs) = if text_eq x org_owner then without_owner xs else x ∷ without_owner xs

-- An owner has every permission.
unfoldable pub has_permission : List Text → Text → Bool
has_permission [] perm = false
has_permission (p ∷ perms) perm =
    (text_eq p org_owner || text_eq p perm) || has_permission perms perm

-- Whether `holder` includes every permission that is wanted.
unfoldable pub permissions_cover : List Text → List Text → Bool
permissions_cover holder [] = true
permissions_cover holder (p ∷ want) = has_permission holder p && permissions_cover holder want

-- The errors of the package that the role operations return. A wrapped sentinel is the sentinel.
pub data AccessError : Type 0 where
  unknown_permission : Text → AccessError
  owner_not_grantable : AccessError
  name_required : AccessError
  builtin_not_editable : AccessError
  builtin_not_deletable : AccessError
  role_in_use : ℕ → AccessError
  forbidden : AccessError
  not_found : AccessError
  conflict : AccessError

abbrev pub Result {ℓ} : Type ℓ → Type ℓ
Result A = Outcome AccessError A

-- The loop of `validatePermissions`: what is left to read, the set `seen` and the list `out`.
pub validate_loop : List Text → List Text → List Text → Result (List Text)
validate_loop [] seen out = ok out
validate_loop (q ∷ perms) seen out =
    let p = trim_space q in
    let skip = validate_loop perms seen out in
    let add = validate_loop perms (p ∷ seen) (out ++ p ∷ []) in
    if contains all_permissions p
    then if text_eq p org_owner
      then err owner_not_grantable
      else if contains seen p
      then skip
      else add
    else err (unknown_permission p)

unfoldable pub validate_permissions : List Text → Result (List Text)
unfolding validate_loop
validate_permissions perms = validate_loop perms [] []
