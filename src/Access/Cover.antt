-- ===== src/Access/Cover.antt =====
-- The permission tests as a preorder on permission lists (internal/core/roles.go, internal/core/resource_guards.go).
use mailhearth.Common.{
  ◌≡◌, refl, ◌↔◌, true, ◌||◌, List, [], ◌∷◌, arith, Text, text_eq_iff, text_eq_refl, contains,
}
use mailhearth.Access.{org_owner, has_permission, permissions_cover}

pub has_permission-contains :
    (held : List Text) (p : Text)
    → has_permission held p ≡ (contains held org_owner || contains held p)
unfolding has_permission contains
has_permission-contains [] p = refl
has_permission-contains (q ∷ held) p = ground (arith, has_permission-contains held p)

-- `permissionsCover` accepts exactly the lists each of whose permissions the holder has.
pub permissions_cover_iff :
    (held want : List Text)
    → (permissions_cover held want ≡ true)
      ↔ ((p : Text) → contains want p ≡ true → has_permission held p ≡ true)
unfolding permissions_cover contains
permissions_cover_iff held [] = (λ h p c. absurd (cc), λ h. refl)
permissions_cover_iff held (q ∷ want) = (
  λ h p c. ground (arith, text_eq_iff q p, (permissions_cover_iff held want).0 (ground arith) p),
  λ h.
      let here : has_permission held q ≡ true = h q (ground (arith, text_eq_refl q)) in
      let rest : permissions_cover held want ≡ true =
        (permissions_cover_iff held want).1 (λ p c. h p (ground arith)) in
      ground arith,
)

-- Covering is transitive: what a covered holder could grant, the covering holder could grant.
pub permissions_cover_trans :
    (a b c : List Text)
    → permissions_cover a b ≡ true
    → permissions_cover b c ≡ true
    → permissions_cover a c ≡ true
permissions_cover_trans a b c h k = (permissions_cover_iff a c).1 λ p m. ground (
  arith,
  (permissions_cover_iff b c).0 k p m,
  (permissions_cover_iff a b).0 h org_owner,
  (permissions_cover_iff a b).0 h p,
  has_permission-contains a p,
  has_permission-contains b p,
  has_permission-contains a org_owner,
)
