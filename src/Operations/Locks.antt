-- ===== src/Operations/Locks.antt =====
-- The table operation_locks under the transactions of internal/core/operations.go: its primary key,
-- and who holds what.
use mailhearth.Common.{
  ℕ, ◌≡◌, refl, sym, inl, inr, Bool, false, not, List, [], ◌∷◌, none, arith, Text, text_eq,
  Bool-cases, Option-cases, All, All-keep_if, keep_if, ok, >>=-eq-ok, subst,
}
use mailhearth.Operations.Tables.{Lock, lock_holder, unlock, insert_lock}
use mailhearth.Operations.Queue.{insert_locks}
use mailhearth.Operations.Control.{take_locks}

-- PRIMARY KEY(org_id, resource_key)
abbrev pub Unique : List Lock → Type 0
Unique [] = Unit
Unique (l ∷ locks) = (lock_holder locks l.org_id l.key ≡ none) × Unique locks

lock_holder-keep_if :
    (p : Lock → Bool) (locks : List Lock) (org_id : ℕ) (key : Text)
    → lock_holder locks org_id key ≡ none
    → lock_holder (keep_if p locks) org_id key ≡ none
unfolding lock_holder keep_if
lock_holder-keep_if p [] org_id key h = refl
lock_holder-keep_if p (l ∷ locks) org_id key h =
    ground (arith, lock_holder-keep_if p locks org_id key)

Unique-keep_if : (p : Lock → Bool) (locks : List Lock) → Unique locks → Unique (keep_if p locks)
unfolding keep_if
Unique-keep_if p [] u = tt
Unique-keep_if p (l ∷ locks) u = elim (Bool-cases (p l)) [
  | inl e ↦ rw e (lock_holder-keep_if p locks l.org_id l.key u.0, Unique-keep_if p locks u.1)
  | inr e ↦ rw e (Unique-keep_if p locks u.1)
]

pub Unique-unlock : (id : Text) (locks : List Lock) → Unique locks → Unique (unlock id locks)
unfolding unlock
Unique-unlock id locks u = Unique-keep_if _ locks u

-- What is left after an operation gave its locks back is held by others.
pub All-unlock :
    (P Q : Lock → Type 0) (id : Text) (locks : List Lock)
    → ((l : Lock) → text_eq l.holder id ≡ false → P l → Q l)
    → All P locks
    → All Q (unlock id locks)
unfolding unlock
All-unlock P Q id locks f h =
    All-keep_if P Q (λ l. not (text_eq l.holder id)) locks (λ l e. f l (ground (arith, e))) h

-- Locks that are unique, and of which each satisfies P.
pub record Kept (P : Lock → Type 0) (locks : List Lock) : Type 0 where
  pub unique : Unique locks
  pub each : All P locks

insert_lock-added :
    (locks : List Lock) (org_id : ℕ) (key id : Text) (more : List Lock)
    → insert_lock locks org_id key id ≡ ok more
    → (lock_holder locks org_id key ≡ none)
      × (more ≡ record { org_id = org_id; key = key; holder = id } ∷ locks)
unfolding insert_lock
insert_lock-added locks org_id key id more h = (ground arith, ground arith)

insert_lock-Kept :
    (P : Lock → Type 0) (locks : List Lock) (org_id : ℕ) (key id : Text) (more : List Lock)
    → P (record { org_id = org_id; key = key; holder = id })
    → insert_lock locks org_id key id ≡ ok more
    → Kept P locks
    → Kept P more
insert_lock-Kept P locks org_id key id more new h k =
    let (free, added) = insert_lock-added locks org_id key id more h in
    subst (Kept P) (sym added) (record { unique = (free, k.unique); each = (new, k.each) })

pub insert_locks-Kept :
    (P : Lock → Type 0) (locks : List Lock) (org_id : ℕ) (keys : List Text) (id : Text)
    (more : List Lock)
    → ((key : Text) → P (record { org_id = org_id; key = key; holder = id }))
    → insert_locks locks org_id keys id ≡ ok more
    → Kept P locks
    → Kept P more
unfolding insert_locks
insert_locks-Kept P locks org_id [] id more new h k =
    let same : locks ≡ more = ground (arith, h) in subst (Kept P) same k
insert_locks-Kept P locks org_id (key ∷ keys) id more new h k =
    let (one, e, rest) = >>=-eq-ok (insert_lock locks org_id key id) _ more h in
    insert_locks-Kept P one org_id keys id more new rest
      (insert_lock-Kept P locks org_id key id one (new key) e k)

-- What a retry does with one key and goes on to do with the others.
pub take_locks-Kept :
    (P : Lock → Type 0) (locks : List Lock) (org_id : ℕ) (keys : List Text) (id : Text)
    (more : List Lock)
    → ((key : Text) → P (record { org_id = org_id; key = key; holder = id }))
    → take_locks locks org_id keys id ≡ ok more
    → Kept P locks
    → Kept P more
unfolding take_locks
take_locks-Kept P locks org_id [] id more new h k =
    let same : locks ≡ more = ground (arith, h) in subst (Kept P) same k
take_locks-Kept P locks org_id (key ∷ keys) id more new h k =
    elim (Option-cases (lock_holder locks org_id key)) [
      | inl e ↦
          let (one, added, rest) =
            >>=-eq-ok (insert_lock locks org_id key id) _ more (rw (take_locks, e) at h) in
          take_locks-Kept P one org_id keys id more new rest
            (insert_lock-Kept P locks org_id key id one (new key) added k)
      | inr (holder, e) ↦ elim (Bool-cases (text_eq holder id)) [
        | inl own ↦ take_locks-Kept P locks org_id keys id more new (rw (take_locks, e, own) at h) k
        | inr other ↦ absurd (ground (arith, h, e, other))
      ]
    ]
