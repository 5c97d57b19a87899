-- ===== src/Operations/Rows.antt =====
-- How updates and insertions change what a row of the table operations holds
-- (internal/core/operations.go).
use mailhearth.Common.{
  ◌≡◌, refl, ◌∙◌, inl, inr, Bool, true, false, List, [], ◌∷◌, ◌++◌, Option, none, some, arith, Text,
  text_eq, text_eq_iff, text_eq_refl, text_eq→eq, subst, ap, if◌then◌else◌, Bool-cases,
  Option-cases, ok,
}
use mailhearth.Operations.Tables.{
  Status, queued, running, succeeded, unknown, needs_action, cancelled, Operation, find_operation,
  change, is_running, OperationError, or_fail,
}
use mailhearth.Operations.Execute.{interrupt_operations}

-- An operation in these states may hold locks; the others are over.
unfoldable pub is_live : Status → Bool
is_live queued = true
is_live running = true
is_live unknown = true
is_live needs_action = true
is_live _ = false

-- What a worker has in hand: an operation that runs, or that has committed its own success.
unfoldable pub is_busy : Status → Bool
is_busy running = true
is_busy succeeded = true
is_busy _ = false

unfoldable pub is_final : Status → Bool
is_final succeeded = true
is_final cancelled = true
is_final _ = false

-- A test on the status of the operation with an id.
unfoldable pub at : (Status → Bool) → List Operation → Text → Bool
at p ops id = elim (find_operation ops id) [ none ↦ false | some o ↦ p o.status ]

abbrev pub KeepsId : (Operation → Operation) → Type 0
KeepsId f = (o : Operation) → (f o).id ≡ o.id

-- The request of an operation is written once.
abbrev pub KeepsRequest : (Operation → Operation) → Type 0
KeepsRequest f =
    (o : Operation)
    → ((f o).id ≡ o.id)
      × (((f o).org_id ≡ o.org_id)
          × (((f o).actor ≡ o.actor)
              × (((f o).request_id ≡ o.request_id) × ((f o).digest ≡ o.digest))))

pub find_operation-id :
    (ops : List Operation) (id : Text) (o : Operation) → find_operation ops id ≡ some o → o.id ≡ id
unfolding find_operation
find_operation-id [] id o h = cc
find_operation-id (q ∷ ops) id o h =
    ground (arith, find_operation-id ops id o, text_eq_iff q.id id, h)

pub find_operation-change_other :
    (ops : List Operation) (id j : Text) (f : Operation → Operation)
    → KeepsId f
    → text_eq id j ≡ false
    → find_operation (change id f ops) j ≡ find_operation ops j
unfolding find_operation change
find_operation-change_other [] id j f k h = refl
find_operation-change_other (q ∷ ops) id j f k h = ground (
  arith,
  find_operation-change_other ops id j f k h,
  k q,
  text_eq_iff q.id id,
  text_eq_iff q.id j,
  text_eq_iff id j,
  h,
)

some-inj : (a b : Operation) → some a ≡ some b → a ≡ b
some-inj a b h = ground (arith, h)

pub find_operation-change :
    (ops : List Operation) (id : Text) (f : Operation → Operation) (o : Operation)
    → KeepsId f
    → find_operation ops id ≡ some o
    → find_operation (change id f ops) id ≡ some (f o)
unfolding find_operation change
find_operation-change [] id f o k h = cc
find_operation-change (q ∷ ops) id f o k h = elim (Bool-cases (text_eq q.id id)) [
  | inl e ↦
      let found : q ≡ o = some-inj q o (rw e at h) in
      let kept : text_eq (f q).id id ≡ true = ap (λ i. text_eq i id) (k q) ∙ e in
      rw (e, kept) (ap (λ r. some (f r)) found)
  | inr e ↦ rw (e, e) (find_operation-change ops id f o k (rw e at h))
]

-- A test on the status of a row, after the row with some id was updated.
pub at-change :
    (p : Status → Bool) (ops : List Operation) (id j : Text) (f : Operation → Operation)
    (o : Operation)
    → KeepsId f
    → find_operation ops id ≡ some o
    → at p (change id f ops) j ≡ (if text_eq id j then p (f o).status else at p ops j)
unfolding at
at-change p ops id j f o k h = elim (Bool-cases (text_eq id j)) [
  | inl e ↦
      let same : id ≡ j = text_eq→eq id j e in
      rw e (
        subst
          (λ i.
            elim (find_operation (change id f ops) i) [ none ↦ false | some q ↦ p q.status ]
            ≡ p (f o).status)
          same (rw (find_operation-change ops id f o k h) refl))
  | inr e ↦ rw e (
      ap (λ r. elim r [ none ↦ false | some q ↦ p q.status ])
        (find_operation-change_other ops id j f k e))
]

-- A restart turns running operations into unknown ones, which are as live.
pub at-interrupt_operations :
    (ops : List Operation) (j : Text) → at is_live (interrupt_operations ops) j ≡ at is_live ops j
unfolding at interrupt_operations find_operation is_live is_running
at-interrupt_operations [] j = refl
at-interrupt_operations (q ∷ ops) j = ground (arith, at-interrupt_operations ops j)

-- A row that is appended hides no other.
pub find_operation-append :
    (ops : List Operation) (o q : Operation) (j : Text)
    → find_operation ops j ≡ some q
    → find_operation (ops ++ o ∷ []) j ≡ some q
unfolding find_operation
find_operation-append [] o q j h = cc
find_operation-append (r ∷ ops) o q j h = ground (arith, find_operation-append ops o q j)

pub find_operation-append_new :
    (ops : List Operation) (o : Operation)
    → find_operation ops o.id ≡ none
    → find_operation (ops ++ o ∷ []) o.id ≡ some o
unfolding find_operation
find_operation-append_new [] o h = ground (arith, text_eq_refl o.id)
find_operation-append_new (r ∷ ops) o h = ground (arith, find_operation-append_new ops o)

pub at-found :
    (p : Status → Bool) (ops : List Operation) (id : Text) (o : Operation)
    → find_operation ops id ≡ some o
    → at p ops id ≡ p o.status
unfolding at
at-found p ops id o h = ap (λ r. elim r [ none ↦ false | some q ↦ p q.status ]) h

-- A row that is appended changes no test that an older row passes.
pub at-append :
    (p : Status → Bool) (ops : List Operation) (o : Operation) (j : Text)
    → at p ops j ≡ true
    → at p (ops ++ o ∷ []) j ≡ true
unfolding at
at-append p ops o j h = elim (Option-cases (find_operation ops j)) [
  | inl e ↦ absurd (ground (arith, h, e))
  | inr (q, e) ↦ ground (arith, h, e, find_operation-append ops o q j e)
]

pub or_fail-eq-ok {ℓ} :
    {A : Type ℓ} (o : Option A) (e : OperationError) (a : A) → or_fail o e ≡ ok a → o ≡ some a
or_fail-eq-ok none e a h = cc
or_fail-eq-ok (some b) e a h = ground (arith, h)
