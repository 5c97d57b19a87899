-- ===== src/Access/Escalation.antt =====
-- No history of role requests lets a permission appear that no role of the organisation gave
-- (internal/core/roles.go, internal/core/resource_guards.go).
use mailhearth.Common.{ℕ, ◌≡◌, false, List, Text, All}
use mailhearth.Access.{has_permission}
use mailhearth.Access.Store.{Role}

-- No role of the organisation gives the permission.
abbrev pub Lacks : Text → ℕ → List Role → Type 0
Lacks p org_id = All (λ r. r.org_id ≡ org_id → has_permission r.permissions p ≡ false)
