-- ===== src/Operations/Repeat.antt =====
-- Repeated requests to `QueueOperation` of internal/core/operations.go.
use mailhearth.Common.{
  ℕ, ◌≡◌, refl, ◌∙◌, sym, ap, inl, inr, Bool, true, List, [], ◌∷◌, ◌++◌, Option, none, some, arith,
  Text, text_eq, text_eq→eq, text_eq_refl, if◌then◌else◌, Bool-cases, Option-cases, ok, err,
  >>=-eq-ok, guard-eq-ok, guard, subst,
}
use mailhearth.Access.Store.{Db}
use mailhearth.Operations.Tables.{queued, Operation, Tables, change, idempotency_conflict}
use mailhearth.Operations.Queue.{enqueue, enter_operation, find_request}
use mailhearth.Operations.Execute.{interrupt_operations}
use mailhearth.Operations.Rows.{KeepsRequest}
use mailhearth.Operations.Sound.{enter_operation-added}

-- The id and the digest that are on record for a request.
unfoldable pub recorded : List Operation → ℕ → ℕ → Text → Option (Text × Text)
recorded ops org_id actor request_id = elim (find_request ops org_id actor request_id) [
  | none ↦ none
  | some o ↦ some (o.id, o.digest)
]

pub recorded-change :
    (ops : List Operation) (id : Text) (f : Operation → Operation) (org_id actor : ℕ)
    (request_id : Text)
    → KeepsRequest f
    → recorded (change id f ops) org_id actor request_id ≡ recorded ops org_id actor request_id
unfolding recorded find_request change
recorded-change [] id f org_id actor request_id k = refl
recorded-change (q ∷ ops) id f org_id actor request_id k =
    ground (arith, recorded-change ops id f org_id actor request_id k, k q)

pub recorded-interrupt :
    (ops : List Operation) (org_id actor : ℕ) (request_id : Text)
    → recorded (interrupt_operations ops) org_id actor request_id
      ≡ recorded ops org_id actor request_id
unfolding recorded find_request interrupt_operations
recorded-interrupt [] org_id actor request_id = refl
recorded-interrupt (q ∷ ops) org_id actor request_id =
    ground (arith, recorded-interrupt ops org_id actor request_id)

pub recorded-append :
    (ops : List Operation) (o : Operation) (org_id actor : ℕ) (request_id : Text) (r : Text × Text)
    → recorded ops org_id actor request_id ≡ some r
    → recorded (ops ++ o ∷ []) org_id actor request_id ≡ some r
unfolding recorded find_request
recorded-append [] o org_id actor request_id r h = cc
recorded-append (q ∷ ops) o org_id actor request_id r h =
    ground (arith, recorded-append ops o org_id actor request_id r)

recorded-append_new :
    (ops : List Operation) (o : Operation)
    → recorded ops o.org_id o.actor o.request_id ≡ none
    → recorded (ops ++ o ∷ []) o.org_id o.actor o.request_id ≡ some (o.id, o.digest)
unfolding recorded find_request
recorded-append_new [] o h = ground (arith, text_eq_refl o.request_id)
recorded-append_new (q ∷ ops) o h = ground (arith, recorded-append_new ops o)

recorded-none :
    (ops : List Operation) (org_id actor : ℕ) (request_id : Text)
    → find_request ops org_id actor request_id ≡ none
    → recorded ops org_id actor request_id ≡ none
unfolding recorded
recorded-none ops org_id actor request_id h =
    ap (λ r. elim r [ none ↦ none | some q ↦ some (q.id, q.digest) ]) h

recorded-prior :
    (ops : List Operation) (o prior : Operation)
    → find_request ops o.org_id o.actor o.request_id ≡ some prior
    → recorded ops o.org_id o.actor o.request_id ≡ some (prior.id, prior.digest)
unfolding recorded
recorded-prior ops o prior e = ap (λ r. elim r [ none ↦ none | some q ↦ some (q.id, q.digest) ]) e

-- A request that is answered with an id is on record under this id.
pub enqueue-recorded :
    (full_access : ℕ → ℕ → Bool) (db : Db) (t : Tables) (o : Operation) (keys : List Text)
    (id : Text) (repeated : Bool) (t' : Tables)
    → enqueue full_access db t o keys ≡ ok (id, (repeated, t'))
    → recorded t'.operations o.org_id o.actor o.request_id ≡ some (id, o.digest)
unfolding enqueue
enqueue-recorded full_access db t o keys id repeated t' h =
    elim (Option-cases (find_request t.operations o.org_id o.actor o.request_id)) [
      | inl e ↦
          let (entered, e1, h1) =
            >>=-eq-ok (enter_operation full_access db t o keys) _ _ (rw (enqueue, e) at h) in
          let (fresh, rows, locks) = enter_operation-added full_access db t o keys entered e1 in
          let new : Operation = record o { status = queued; error_code = none } in
          let found = recorded-append_new t.operations new (recorded-none t.operations _ _ _ e) in
          let same : entered ≡ t' = ground (arith, h1) in
          let named : o.id ≡ id = ground (arith, h1) in
          subst (λ t. recorded t.operations o.org_id o.actor o.request_id ≡ some (id, o.digest))
            same
            (subst (λ ops. recorded ops o.org_id o.actor o.request_id ≡ some (id, o.digest))
              (sym rows) (found ∙ ap (λ i. some (i, o.digest)) named))
      | inr (prior, e) ↦
          let (u, e1, h1) =
            >>=-eq-ok (guard (text_eq o.digest prior.digest) idempotency_conflict) _ _
              (rw (enqueue, e) at h) in
          let equal : o.digest ≡ prior.digest =
            text_eq→eq _ _
              (guard-eq-ok (text_eq o.digest prior.digest) idempotency_conflict u e1) in
          let same : t ≡ t' = ground (arith, h1) in
          let named : prior.id ≡ id = ground (arith, h1) in
          subst (λ t. recorded t.operations o.org_id o.actor o.request_id ≡ some (id, o.digest))
            same
            (recorded-prior t.operations o prior e
              ∙ (ap (λ i. some (i, prior.digest)) named ∙ ap (λ d. some (id, d)) (sym equal)))
    ]

-- What is on record answers a request.
pub recorded-enqueue :
    (full_access : ℕ → ℕ → Bool) (db : Db) (t : Tables) (o : Operation) (keys : List Text)
    (id digest : Text)
    → recorded t.operations o.org_id o.actor o.request_id ≡ some (id, digest)
    → enqueue full_access db t o keys
      ≡ (if text_eq o.digest digest then ok (id, (true, t)) else err idempotency_conflict)
unfolding enqueue recorded
recorded-enqueue full_access db t o keys id digest h =
    elim (Option-cases (find_request t.operations o.org_id o.actor o.request_id)) [
      | inl e ↦ absurd (ground (arith, h, e))
      | inr (prior, e) ↦ elim (Bool-cases (text_eq o.digest prior.digest)) [
        | inl d ↦ ground (arith, h, e, d)
        | inr d ↦ ground (arith, h, e, d)
      ]
    ]
