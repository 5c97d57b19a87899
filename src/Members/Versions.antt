-- ===== src/Members/Versions.antt =====
-- The revisions of members: what a write of internal/core/members.go does to the rows that a request
-- has read before.
use mailhearth.Common.{
  ℕ, ◌+◌, ◌≤◌, ◌≡◌, refl, sym, ◌∙◌, ap, subst, inl, inr, Bool, true, false, List, [], ◌∷◌, some,
  arith, find_if, find_if-passes, count_if, Bool-cases, Option-cases,
}
use mailhearth.Members.Table.{Person, is_person, find_person, update_where, delete_where}
use mailhearth.Members.Owners.{
  update_where-Affected, delete_where-Removed, people-inj, person-inj, found-counts,
}

-- An earlier row of a later one: its revision is not greater, and with the same revision it has the
-- same role.
pub record Earlier (org_id id : ℕ) (before : List Person) (n : Person) : Type 0 where
  pub row : Person
  pub found : find_person before org_id id ≡ some row
  pub older : row.revision ≤ n.revision
  pub same_role : row.revision ≡ n.revision → row.role_id ≡ n.role_id

pub record Later (org_id : ℕ) (before now : List Person) : Type 0 where
  pub earlier :
      (id : ℕ) (n : Person) → find_person now org_id id ≡ some n → Earlier org_id id before n

-- An id is a primary key.
pub record Sole (org_id : ℕ) (people : List Person) : Type 0 where
  pub sole : (id : ℕ) → count_if (is_person org_id id) people ≤ 1

pub Later-refl : (org_id : ℕ) (people : List Person) → Later org_id people people
Later-refl org_id people = record {
  earlier = λ id n h. record { row = n; found = h; older = omega arith; same_role = λ e. refl };
}

between : (a b c : ℕ) → a ≤ b → b ≤ c → a ≡ c → (a ≡ b) × (b ≡ c)
between a b c h g e = ground (arith, h, g, e)

pub Later-trans :
    (org_id : ℕ) (a b c : List Person) → Later org_id a b → Later org_id b c → Later org_id a c
Later-trans org_id a b c h g = record {
  earlier = λ id n f.
      let y = g.earlier id n f in
      let x = h.earlier id y.row y.found in
      record {
        row = x.row;
        found = x.found;
        older = omega (arith, x.older, y.older);
        same_role = λ e.
            let (e1, e2) = between x.row.revision y.row.revision n.revision x.older y.older e in
            x.same_role e1 ∙ y.same_role e2;
      };
}

pub record Wrote (org_id : ℕ) (people after : List Person) : Type 0 where
  pub later : Later org_id people after
  pub sole : Sole org_id after

-- A change of a row that gives it a new revision.
pub record Revises (f : Person → Person) : Type 0 where
  pub same_id : (m : Person) → (f m).id ≡ m.id
  pub same_org : (m : Person) → (f m).org_id ≡ m.org_id
  pub next : (m : Person) → (f m).revision ≡ m.revision + 1

revised :
    (f : Person → Person)
    → Revises f
    → (org_id id : ℕ) (m : Person) → is_person org_id id (f m) ≡ is_person org_id id m
revised f r org_id id m = rw (r.same_id m, r.same_org m) refl

skip :
    (org_id id : ℕ) (m n : Person) (before : List Person)
    → is_person org_id id m ≡ false
    → Earlier org_id id before n
    → Earlier org_id id (m ∷ before) n
unfolding find_person find_if
skip org_id id m n before e x = record {
  row = x.row;
  found = rw e x.found;
  older = x.older;
  same_role = x.same_role;
}

tail_found :
    (org_id id : ℕ) (m n : Person) (people : List Person)
    → is_person org_id id m ≡ false
    → find_person (m ∷ people) org_id id ≡ some n
    → find_person people org_id id ≡ some n
unfolding find_person find_if
tail_found org_id id m n people e h = rw e at h

head_found :
    (org_id id : ℕ) (m n : Person) (people : List Person)
    → is_person org_id id m ≡ true
    → find_person (m ∷ people) org_id id ≡ some n
    → m ≡ n
unfolding find_person find_if
head_found org_id id m n people e h = person-inj m n (rw e at h)

found_head :
    (org_id id : ℕ) (m : Person) (people : List Person)
    → is_person org_id id m ≡ true
    → find_person (m ∷ people) org_id id ≡ some m
unfolding find_person find_if
found_head org_id id m people e = rw e refl

revised-Earlier :
    (f : Person → Person)
    → Revises f
    → (org_id id : ℕ) (m n : Person) (before : List Person) → is_person org_id id m ≡ true
    → f m ≡ n
    → Earlier org_id id (m ∷ before) n
revised-Earlier f r org_id id m n before e same =
    let next : n.revision ≡ m.revision + 1 = ap (λ x. x.revision) (sym same) ∙ r.next m in
    record {
      row = m;
      found = found_head org_id id m before e;
      older = omega (arith, next);
      same_role = λ g. absurd (omega (arith, next, g));
    }

head-Later :
    (f : Person → Person)
    → Revises f
    → (org_id : ℕ) (m : Person) (people : List Person) → Later org_id (m ∷ people) (f m ∷ people)
head-Later f r org_id m people = record {
  earlier = λ id n h. elim (Bool-cases (is_person org_id id m)) [
    | inl e ↦
        let here = revised f r org_id id m ∙ e in
        revised-Earlier f r org_id id m n people e (head_found org_id id (f m) n people here h)
    | inr e ↦
        let here = revised f r org_id id m ∙ e in
        skip org_id id m n people e
          ((Later-refl org_id people).earlier id n (tail_found org_id id (f m) n people here h))
  ];
}

tail-Later :
    (org_id : ℕ) (m : Person) (people after : List Person)
    → Later org_id people after
    → Later org_id (m ∷ people) (m ∷ after)
tail-Later org_id m people after l = record {
  earlier = λ id n h. elim (Bool-cases (is_person org_id id m)) [
    | inl e ↦
        subst (λ x. Earlier org_id id (m ∷ people) x) (head_found org_id id m n after e h)
          (record {
            row = m;
            found = found_head org_id id m people e;
            older = omega arith;
            same_role = λ g. refl;
          })
    | inr e ↦ skip org_id id m n people e (l.earlier id n (tail_found org_id id m n after e h))
  ];
}

update_where-Later :
    (test : Person → Bool) (f : Person → Person)
    → Revises f
    → (org_id id : ℕ) (people after : List Person)
    → update_where test f org_id id people ≡ some after
    → Later org_id people after
unfolding update_where
update_where-Later test f r org_id id [] after h = cc
update_where-Later test f r org_id id (m ∷ people) after h =
    elim (Bool-cases (is_person org_id id m)) [
      | inl e ↦ elim (Bool-cases (test m)) [
        | inl t ↦
            subst (λ a. Later org_id (m ∷ people) a)
              (people-inj (f m ∷ people) after (rw (e, t) at h)) (head-Later f r org_id m people)
        | inr t ↦ absurd (cc (rw (e, t) at h))
      ]
      | inr e ↦ elim (Option-cases (update_where test f org_id id people)) [
        | inl n ↦ absurd (cc (rw (e, n) at h))
        | inr (ms, n) ↦
            subst (λ a. Later org_id (m ∷ people) a) (people-inj (m ∷ ms) after (rw (e, n) at h))
              (tail-Later org_id m people ms (update_where-Later test f r org_id id people ms n))
      ]
    ]

pub update_where-Wrote :
    (test : Person → Bool) (f : Person → Person)
    → Revises f
    → (org_id id : ℕ) (people after : List Person)
    → update_where test f org_id id people ≡ some after
    → Sole org_id people
    → Wrote org_id people after
update_where-Wrote test f r org_id id people after h s =
    let a = update_where-Affected test f org_id id people after h in
    record {
      later = update_where-Later test f r org_id id people after h;
      sole = record {
        sole = λ i.
            let eq = revised f r org_id i a.row in
            ground (arith, a.counts (is_person org_id i), s.sole i, eq);
      };
    }

alone :
    (org_id id : ℕ) (m n : Person) (people : List Person)
    → count_if (is_person org_id id) (m ∷ people) ≤ 1
    → find_person people org_id id ≡ some n
    → is_person org_id id n ≡ true
    → is_person org_id id m ≡ false
unfolding count_if
alone org_id id m n people one h e =
    let there = found-counts (is_person org_id id) people org_id id n h in
    ground (arith, one, e, there)

tail-Sole :
    (org_id : ℕ) (m : Person) (people : List Person) → Sole org_id (m ∷ people) → Sole org_id people
unfolding count_if
tail-Sole org_id m people s = record { sole = λ i. ground (arith, s.sole i) }

deleted-Later :
    (org_id : ℕ) (m : Person) (people : List Person)
    → Sole org_id (m ∷ people)
    → Later org_id (m ∷ people) people
unfolding find_person
deleted-Later org_id m people s = record {
  earlier = λ id n h.
      let passes = find_if-passes (is_person org_id id) people n h in
      skip org_id id m n people (alone org_id id m n people (s.sole id) h passes)
        ((Later-refl org_id people).earlier id n h);
}

delete_where-Later :
    (test : Person → Bool) (org_id id : ℕ) (people after : List Person)
    → delete_where test org_id id people ≡ some after
    → Sole org_id people
    → Later org_id people after
unfolding delete_where
delete_where-Later test org_id id [] after h s = cc
delete_where-Later test org_id id (m ∷ people) after h s =
    elim (Bool-cases (is_person org_id id m)) [
      | inl e ↦ elim (Bool-cases (test m)) [
        | inl t ↦
            subst (λ a. Later org_id (m ∷ people) a) (people-inj people after (rw (e, t) at h))
              (deleted-Later org_id m people s)
        | inr t ↦ absurd (cc (rw (e, t) at h))
      ]
      | inr e ↦ elim (Option-cases (delete_where test org_id id people)) [
        | inl n ↦ absurd (cc (rw (e, n) at h))
        | inr (ms, n) ↦
            subst (λ a. Later org_id (m ∷ people) a) (people-inj (m ∷ ms) after (rw (e, n) at h))
              (tail-Later org_id m people ms
                (delete_where-Later test org_id id people ms n (tail-Sole org_id m people s)))
      ]
    ]

pub delete_where-Wrote :
    (test : Person → Bool) (org_id id : ℕ) (people after : List Person)
    → delete_where test org_id id people ≡ some after
    → Sole org_id people
    → Wrote org_id people after
delete_where-Wrote test org_id id people after h s =
    let d = delete_where-Removed test org_id id people after h in
    record {
      later = delete_where-Later test org_id id people after h s;
      sole = record { sole = λ i. ground (arith, d.counts (is_person org_id i), s.sole i) };
    }
