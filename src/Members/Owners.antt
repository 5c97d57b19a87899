-- ===== src/Members/Owners.antt =====
-- How the writes of internal/core/members.go change who owns an organisation.
use mailhearth.Common.{
  ℕ, ◌+◌, ◌≤◌, ◌≡◌, refl, ◌∙◌, ap, subst, inl, inr, Bool, true, false, ◌&&◌, List, [], ◌∷◌, Option,
  none, some, Text, arith, ◌==◌, weight, text_eq, find_if, find_if-passes, count_if, ok, err,
  Bool-cases, Option-cases,
}
use mailhearth.Access.Store.{Role, find_role}
use mailhearth.Access.Guards.{role_owner}
use mailhearth.Members.Table.{
  Person, MemberError, or_fail, is_person, find_person, has_key, is_owner, update_where,
  delete_where,
}

-- The row that an update affects, and how it changes a count.
pub record Affected (test : Person → Bool) (f : Person → Person) (org_id id : ℕ)
    (people after : List Person) : Type 0 where
  pub row : Person
  pub found : find_person people org_id id ≡ some row
  pub passes : test row ≡ true
  pub counts :
      (q : Person → Bool)
      → count_if q after + weight (q row) ≡ count_if q people + weight (q (f row))

pub people-inj : (a b : List Person) → some a ≡ some b → a ≡ b
people-inj a b h = ap (λ o. elim o [ none ↦ a | some ms ↦ ms ]) h

head-counts :
    (q : Person → Bool) (m n : Person) (people : List Person)
    → count_if q (n ∷ people) + weight (q m) ≡ count_if q (m ∷ people) + weight (q n)
unfolding count_if
head-counts q m n people = ground arith

tail-counts :
    (q : Person → Bool) (m x y : Person) (people after : List Person)
    → count_if q after + weight (q x) ≡ count_if q people + weight (q y)
    → count_if q (m ∷ after) + weight (q x) ≡ count_if q (m ∷ people) + weight (q y)
unfolding count_if
tail-counts q m x y people after h = ground (arith, h)

pub update_where-Affected :
    (test : Person → Bool) (f : Person → Person) (org_id id : ℕ) (people after : List Person)
    → update_where test f org_id id people ≡ some after
    → Affected test f org_id id people after
unfolding update_where find_person find_if
update_where-Affected test f org_id id [] after h = cc
update_where-Affected test f org_id id (m ∷ people) after h =
    elim (Bool-cases (is_person org_id id m)) [
      | inl e ↦ elim (Bool-cases (test m)) [
        | inl t ↦
            subst (λ a. Affected test f org_id id (m ∷ people) a)
              (people-inj (f m ∷ people) after (rw (e, t) at h))
              (record {
                row = m;
                found = rw e refl;
                passes = t;
                counts = λ q. head-counts q m (f m) people;
              })
        | inr t ↦ absurd (cc (rw (e, t) at h))
      ]
      | inr e ↦ elim (Option-cases (update_where test f org_id id people)) [
        | inl n ↦ absurd (cc (rw (e, n) at h))
        | inr (ms, n) ↦
            let r = update_where-Affected test f org_id id people ms n in
            subst (λ a. Affected test f org_id id (m ∷ people) a)
              (people-inj (m ∷ ms) after (rw (e, n) at h))
              (record {
                row = r.row;
                found = rw e r.found;
                passes = r.passes;
                counts = λ q. tail-counts q m r.row (f r.row) people ms (r.counts q);
              })
      ]
    ]

-- The row that a deletion removes.
pub record Removed (test : Person → Bool) (org_id id : ℕ) (people after : List Person)
    : Type 0 where
  pub row : Person
  pub found : find_person people org_id id ≡ some row
  pub passes : test row ≡ true
  pub counts : (q : Person → Bool) → count_if q after + weight (q row) ≡ count_if q people

head-removed :
    (q : Person → Bool) (m : Person) (people : List Person)
    → count_if q people + weight (q m) ≡ count_if q (m ∷ people)
unfolding count_if
head-removed q m people = ground arith

tail-removed :
    (q : Person → Bool) (m x : Person) (people after : List Person)
    → count_if q after + weight (q x) ≡ count_if q people
    → count_if q (m ∷ after) + weight (q x) ≡ count_if q (m ∷ people)
unfolding count_if
tail-removed q m x people after h = ground (arith, h)

pub delete_where-Removed :
    (test : Person → Bool) (org_id id : ℕ) (people after : List Person)
    → delete_where test org_id id people ≡ some after
    → Removed test org_id id people after
unfolding delete_where find_person find_if
delete_where-Removed test org_id id [] after h = cc
delete_where-Removed test org_id id (m ∷ people) after h =
    elim (Bool-cases (is_person org_id id m)) [
      | inl e ↦ elim (Bool-cases (test m)) [
        | inl t ↦
            subst (λ a. Removed test org_id id (m ∷ people) a)
              (people-inj people after (rw (e, t) at h))
              (record {
                row = m;
                found = rw e refl;
                passes = t;
                counts = λ q. head-removed q m people;
              })
        | inr t ↦ absurd (cc (rw (e, t) at h))
      ]
      | inr e ↦ elim (Option-cases (delete_where test org_id id people)) [
        | inl n ↦ absurd (cc (rw (e, n) at h))
        | inr (ms, n) ↦
            let r = delete_where-Removed test org_id id people ms n in
            subst (λ a. Removed test org_id id (m ∷ people) a)
              (people-inj (m ∷ ms) after (rw (e, n) at h))
              (record {
                row = r.row;
                found = rw e r.found;
                passes = r.passes;
                counts = λ q. tail-removed q m r.row people ms (r.counts q);
              })
      ]
    ]

pub or_fail-ok {ℓ} :
    {A : Type ℓ} (o : Option A) (e : MemberError) (a : A) → or_fail o e ≡ ok a → o ≡ some a
or_fail-ok none e a h = cc
or_fail-ok (some b) e a h = ap (λ r. elim r [ ok x ↦ some x | err y ↦ some b ]) h

-- The test that counts owners.
abbrev pub owns : List Role → ℕ → Person → Bool
owns roles org_id m = (m.org_id == org_id) && is_owner roles m

-- What is known of the two roles of a transfer: they are found by their ids, and only one of them is
-- the owner's. Ids and keys are unique.
pub record Roles (roles : List Role) (org_id : ℕ) (owner admin : Role) : Type 0 where
  pub owner_found : find_role roles org_id owner.id ≡ some owner
  pub admin_found : find_role roles org_id admin.id ≡ some admin
  pub owner_key : text_eq owner.key role_owner ≡ true
  pub admin_key : text_eq admin.key role_owner ≡ false

pub has_key-role :
    (roles : List Role) (r : Role) (m : Person) (key : Text)
    → find_role roles m.org_id m.role_id ≡ some r
    → has_key roles m key ≡ text_eq r.key key
unfolding has_key
has_key-role roles r m key g = ap (λ o. elim o [ none ↦ false | some q ↦ text_eq q.key key ]) g

pub owns-role :
    (roles : List Role) (org_id : ℕ) (r : Role) (m : Person)
    → find_role roles org_id r.id ≡ some r
    → m.org_id ≡ org_id
    → m.role_id ≡ r.id
    → owns roles org_id m ≡ text_eq r.key role_owner
unfolding is_owner
owns-role roles org_id r m f o i =
    let g : find_role roles m.org_id m.role_id ≡ some r =
      ap (λ n. find_role roles n m.role_id) o ∙ ap (find_role roles org_id) i ∙ f in
    let key = has_key-role roles r m role_owner g in ground (arith, o, key)

pub found-org :
    (people : List Person) (org_id id : ℕ) (m : Person)
    → find_person people org_id id ≡ some m
    → (m.org_id ≡ org_id) × (m.id ≡ id)
unfolding find_person
found-org people org_id id m h = ground (arith, find_if-passes (is_person org_id id) people m h)

pub person-inj : (a b : Person) → some a ≡ some b → a ≡ b
person-inj a b h = ap (λ o. elim o [ none ↦ a | some m ↦ m ]) h

head-le :
    (q : Person → Bool) (m : Person) (people : List Person) → weight (q m) ≤ count_if q (m ∷ people)
unfolding count_if
head-le q m people = ground arith

tail-le :
    (q : Person → Bool) (p m : Person) (people : List Person)
    → weight (q m) ≤ count_if q people
    → weight (q m) ≤ count_if q (p ∷ people)
unfolding count_if
tail-le q p m people h = ground (arith, h)

pub found-counts :
    (q : Person → Bool) (people : List Person) (org_id id : ℕ) (m : Person)
    → find_person people org_id id ≡ some m
    → weight (q m) ≤ count_if q people
unfolding find_person find_if count_if
found-counts q [] org_id id m h = cc
found-counts q (p ∷ people) org_id id m h = elim (Bool-cases (is_person org_id id p)) [
  | inl e ↦
      let same : p ≡ m = person-inj p m (rw e at h) in
      subst (λ x. weight (q x) ≤ count_if q (p ∷ people)) same (head-le q p people)
  | inr e ↦ tail-le q p m people (found-counts q people org_id id m (rw e at h))
]
