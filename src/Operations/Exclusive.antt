-- ===== src/Operations/Exclusive.antt =====
-- One worker at a time, and one operation for each resource (internal/core/operations.go).
use mailhearth.Common.{
  ℕ, ◌≡◌, refl, inl, inr, Bool, true, false, List, [], ◌∷◌, none, some, arith, Text, text_eq_iff,
  text_eq_refl, Option-cases, ok, >>=-eq-ok, subst, contains,
}
use mailhearth.Access.Store.{Db}
use mailhearth.Operations.Tables.{
  lock_holder, insert_lock, Status, running, succeeded, is_queued, Operation, Lock, Tables,
}
use mailhearth.Operations.Queue.{require_free, enter_operation, insert_locks}
use mailhearth.Operations.Execute.{claim}
use mailhearth.Operations.History.{World}
use mailhearth.Operations.Rows.{is_busy}
use mailhearth.Operations.Holders.{Busy}
use mailhearth.Operations.Sound.{Sound}
use mailhearth.Operations.Sound.{enter_operation-added}
use mailhearth.Operations.Histories.{All-contains, Busy-found}

busy_claimed : (s : Status) → is_busy s ≡ true → is_queued s ≡ false
unfolding is_busy is_queued
busy_claimed running h = refl
busy_claimed succeeded h = refl
busy_claimed _ h = cc

-- In a state in which the invariant of the queue holds, no worker can claim an operation that a
-- worker has in hand.
pub claim-exclusive :
    (w : World) (id : Text) → Sound w → contains w.workers id ≡ true → claim w.tables id ≡ none
unfolding claim
claim-exclusive w id s h =
    let (o, found, busy) =
      Busy-found w.tables.operations id
        (All-contains (Busy w.tables.operations) w.workers id h s.workers) in
    let taken = busy_claimed o.status busy in rw (claim, found, taken) refl

-- Every key is free.
abbrev pub AllFree : List Lock → ℕ → List Text → Type 0
AllFree locks org_id [] = Unit
AllFree locks org_id (key ∷ keys) =
    (lock_holder locks org_id key ≡ none) × AllFree locks org_id keys

-- Every key is locked by the operation.
abbrev pub AllTaken : List Lock → ℕ → List Text → Text → Type 0
AllTaken locks org_id [] id = Unit
AllTaken locks org_id (key ∷ keys) id =
    (lock_holder locks org_id key ≡ some id) × AllTaken locks org_id keys id

require_free-AllFree :
    (locks : List Lock) (org_id : ℕ) (keys : List Text)
    → require_free locks org_id keys ≡ ok tt
    → AllFree locks org_id keys
unfolding require_free
require_free-AllFree locks org_id [] h = tt
require_free-AllFree locks org_id (key ∷ keys) h =
    elim (Option-cases (lock_holder locks org_id key)) [
      | inl e ↦ (e, require_free-AllFree locks org_id keys (ground (arith, h, e)))
      | inr (holder, e) ↦ absurd (ground (arith, h, e))
    ]

-- A lock that is inserted hides no older one.
insert_lock-holder :
    (locks : List Lock) (org_id : ℕ) (key id : Text) (more : List Lock)
    → insert_lock locks org_id key id ≡ ok more
    → (lock_holder more org_id key ≡ some id)
      × ((k h : Text) → lock_holder locks org_id k ≡ some h → lock_holder more org_id k ≡ some h)
unfolding insert_lock lock_holder
insert_lock-holder locks org_id key id more h =
    (ground (arith, h, text_eq_refl key), λ k holder e. ground (arith, h, e, text_eq_iff key k))

insert_locks-AllTaken :
    (locks : List Lock) (org_id : ℕ) (keys : List Text) (id : Text) (more : List Lock)
    → insert_locks locks org_id keys id ≡ ok more
    → AllTaken more org_id keys id
      × ((k h : Text) → lock_holder locks org_id k ≡ some h → lock_holder more org_id k ≡ some h)
unfolding insert_locks
insert_locks-AllTaken locks org_id [] id more h =
    let same : locks ≡ more = ground (arith, h) in
    (tt, λ k holder e. subst (λ l. lock_holder l org_id k ≡ some holder) same e)
insert_locks-AllTaken locks org_id (key ∷ keys) id more h =
    let (one, e1, h1) = >>=-eq-ok (insert_lock locks org_id key id) _ more h in
    let (mine, older) = insert_lock-holder locks org_id key id one e1 in
    let (rest, later) = insert_locks-AllTaken one org_id keys id more h1 in
    ((later key id mine, rest), λ k holder e. later k holder (older k holder e))

-- If a new operation is entered, then no operation held any of its keys before, it holds all of
-- them afterwards, and every lock of its organisation that was held is held by the same operation.
pub enter_operation-locks :
    (full_access : ℕ → ℕ → Bool) (db : Db) (t : Tables) (o : Operation) (keys : List Text)
    (t' : Tables)
    → enter_operation full_access db t o keys ≡ ok t'
    → AllFree t.locks o.org_id keys
      × (AllTaken t'.locks o.org_id keys o.id
          × ((k h : Text)
              → lock_holder t.locks o.org_id k ≡ some h
              → lock_holder t'.locks o.org_id k ≡ some h))
unfolding enter_operation
enter_operation-locks full_access db t o keys t' h =
    let (u, e1, h1) = >>=-eq-ok (require_free t.locks o.org_id keys) _ t' h in
    let (fresh, rows, locks) = enter_operation-added full_access db t o keys t' h in
    let (taken, kept) = insert_locks-AllTaken t.locks o.org_id keys o.id t'.locks locks in
    (require_free-AllFree t.locks o.org_id keys e1, (taken, kept))
