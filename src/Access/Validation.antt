-- ===== src/Access/Validation.antt =====
-- What `validatePermissions` accepts and returns (internal/core/roles.go).
use mailhearth.Common.{
  ◌≡◌, refl, inl, inr, Bool, true, false, ◌||◌, List, [], ◌∷◌, ◌++◌, arith, Text, text_eq,
  text_eq_iff, contains, trim_space, All, All-append, Bool-cases, map, ◌∙◌, subst,
}
use mailhearth.Access.{org_owner, all_permissions, ok, validate_loop, validate_permissions}

-- A permission that a custom role may hold.
abbrev pub IsGrantable : Text → Type 0
IsGrantable p = (contains all_permissions p ≡ true) × (text_eq p org_owner ≡ false)

-- No string stands twice.
abbrev pub Distinct : List Text → Type 0
Distinct [] = Unit
Distinct (p ∷ ps) = (contains ps p ≡ false) × Distinct ps

pub contains-append :
    (xs ys : List Text) (p : Text) → contains (xs ++ ys) p ≡ (contains xs p || contains ys p)
unfolding contains
contains-append [] ys p = refl
contains-append (x ∷ xs) ys p = ground (arith, contains-append xs ys p)

text_eq_symm : (p q : Text) → text_eq p q ≡ text_eq q p
text_eq_symm p q = ground (arith, text_eq_iff p q, text_eq_iff q p)

pub Distinct-snoc :
    (xs : List Text) (p : Text) → Distinct xs → contains xs p ≡ false → Distinct (xs ++ p ∷ [])
unfolding contains
Distinct-snoc [] p d h = (refl, tt)
Distinct-snoc (x ∷ xs) p d h = (
  ground (arith, contains-append xs (p ∷ []) x, text_eq_symm p x),
  Distinct-snoc xs p d.1 (ground arith),
)

-- The two accumulators hold the same strings, each once, and all of them grantable.
record Accumulated (seen out : List Text) : Type 0 where
  same : (p : Text) → contains seen p ≡ contains out p
  grantable : All IsGrantable out
  distinct : Distinct out

Accumulated-add :
    (seen out : List Text) (p : Text)
    → Accumulated seen out
    → IsGrantable p
    → contains seen p ≡ false
    → Accumulated (p ∷ seen) (out ++ p ∷ [])
unfolding contains
Accumulated-add seen out p a g h = record {
  same = λ q. ground (arith, a.same q, contains-append out (p ∷ []) q);
  grantable = All-append IsGrantable out (p ∷ []) a.grantable (g, tt);
  distinct = Distinct-snoc out p a.distinct (ground (arith, a.same p));
}

-- What the result of the loop is, when there is one.
record Outcome (perms seen result : List Text) : Type 0 where
  grantable : All IsGrantable result
  distinct : Distinct result
  members : (p : Text) → contains result p ≡ (contains seen p || contains (map trim_space perms) p)

-- A string that was seen before adds nothing to the set.
known :
    (seen : List Text) (p x : Text) (rest : Bool)
    → contains seen p ≡ true
    → (contains seen x || rest) ≡ (contains seen x || (text_eq p x || rest))
known seen p x rest h = ground (arith, text_eq_iff p x)

swap_or : (a b c : Bool) → ((b || a) || c) ≡ (a || (b || c))
swap_or a b c = ground arith

validate_loop-Outcome :
    (perms seen out result : List Text)
    → Accumulated seen out
    → validate_loop perms seen out ≡ ok result
    → Outcome perms seen result
unfolding validate_loop contains
validate_loop-Outcome [] seen out result a h =
    let same : out ≡ result = ground arith in
    record {
      grantable = subst (All IsGrantable) same a.grantable;
      distinct = subst Distinct same a.distinct;
      members = λ p. ground (arith, a.same p);
    }
validate_loop-Outcome (q ∷ perms) seen out result a h = elim (Bool-cases (contains seen p)) [
  | inl old ↦
      let o = validate_loop-Outcome perms seen out result a (ground arith) in
      record {
        grantable = o.grantable;
        distinct = o.distinct;
        members = λ x. o.members x ∙ known seen p x (contains (map trim_space perms) x) old;
      }
  | inr new ↦
      let o =
        validate_loop-Outcome perms (p ∷ seen) (out ++ p ∷ []) result
          (Accumulated-add seen out p a (ground arith) new) (ground arith) in
      record {
        grantable = o.grantable;
        distinct = o.distinct;
        members = λ x.
            o.members x
            ∙ swap_or (contains seen x) (text_eq p x) (contains (map trim_space perms) x);
      }
]
  where
    p : Text
    p = trim_space q

-- If `validatePermissions` accepts a list, the result holds exactly the strings of the list with
-- the spaces around them trimmed, each once, and each of them is a known permission other than
-- the owner's.
pub validate_permissions_sound :
    (perms result : List Text)
    → validate_permissions perms ≡ ok result
    → All IsGrantable result
      × Distinct result
      × ((p : Text) → contains result p ≡ contains (map trim_space perms) p)
unfolding validate_permissions contains
validate_permissions_sound perms result h =
    let start : Accumulated [] [] = record { same = λ p. refl; grantable = tt; distinct = tt } in
    let o = validate_loop-Outcome perms [] [] result start h in (o.grantable, o.distinct, o.members)

validate_loop-total :
    (perms seen out : List Text)
    → All (λ q. IsGrantable (trim_space q)) perms
    → (result : List Text) × (validate_loop perms seen out ≡ ok result)
unfolding validate_loop
validate_loop-total [] seen out g = (out, refl)
validate_loop-total (q ∷ perms) seen out g = elim (Bool-cases (contains seen (trim_space q))) [
  | inl old ↦ let (r, e) = validate_loop-total perms seen out g.1 in (r, ground arith)
  | inr new ↦
      let (r, e) = validate_loop-total perms (trim_space q ∷ seen) (out ++ trim_space q ∷ []) g.1 in
      (r, ground arith)
]

-- If every string of the list is, without the spaces around it, a known permission other than
-- the owner's, then `validatePermissions` accepts the list.
pub validate_permissions-total :
    (perms : List Text)
    → All (λ q. IsGrantable (trim_space q)) perms
    → (result : List Text) × (validate_permissions perms ≡ ok result)
unfolding validate_permissions
validate_permissions-total perms g = validate_loop-total perms [] [] g
