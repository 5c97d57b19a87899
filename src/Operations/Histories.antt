-- ===== src/Operations/Histories.antt =====
-- The invariant of the queue of internal/core/operations.go in every history.
use mailhearth.Common.{
  ℕ, ◌≡◌, refl, ◌∙◌, sym, inl, inr, Bool, true, List, [], ◌∷◌, Option, none, some, arith, Text,
  text_eq, text_eq→eq, Bool-cases, Option-cases, All, All-imp, ok, err, subst, contains,
}
use mailhearth.Access.Store.{Db}
use mailhearth.Operations.Tables.{succeeded, Operation, Lock, Tables, find_operation, Result}
use mailhearth.Operations.Queue.{enqueue}
use mailhearth.Operations.Execute.{
  start_operations, set_final, complete_local, interrupt_operations,
}
use mailhearth.Operations.Control.{Action, Payload, control_local}
use mailhearth.Operations.History.{
  World, Event, queues, restarts, claims, commits, finishes, controls, after_enqueue, after, step,
  run,
}
use mailhearth.Operations.Rows.{is_busy, at, at-interrupt_operations, find_operation-id, at-found}
use mailhearth.Operations.Locks.{Kept}
use mailhearth.Operations.Holders.{Held, Busy, over-Kept, workers-Busy}
use mailhearth.Operations.Effects.{complete_local-running, control_local-acts, act-Controlled}
use mailhearth.Operations.Sound.{
  Sound, make-Sound, after_claim-Sound, entered-Sound, enqueue-result,
}
use mailhearth.Operations.Finish.{finish-Sound}

interrupt-Kept :
    (ops : List Operation) (locks : List Lock)
    → Kept (Held ops) locks
    → Kept (Held (interrupt_operations ops)) locks
interrupt-Kept ops locks k = record {
  unique = k.unique;
  each =
      All-imp (Held ops) (Held (interrupt_operations ops)) locks
        (λ l held. at-interrupt_operations ops l.holder ∙ held) k.each;
}

restart-Sound :
    (w : World) → Sound w → Sound (record { tables = start_operations w.tables; workers = [] })
unfolding start_operations
restart-Sound w s =
    make-Sound (start_operations w.tables) [] (interrupt_operations w.tables.operations)
      w.tables.locks refl refl (interrupt-Kept w.tables.operations w.tables.locks s.locks) tt

commit-Sound :
    (full_access : ℕ → ℕ → Bool) (db : Db) (w : World) (id : Text) (r : Result Tables)
    → complete_local full_access db w.tables id ≡ r
    → Sound w
    → Sound (after w r)
unfolding set_final is_busy
commit-Sound full_access db w id (err e) h s = s
commit-Sound full_access db w id (ok t) h s =
    let (o, found, runs, rows, locks) = complete_local-running full_access db w.tables id t h in
    let f = set_final succeeded none in
    make-Sound t w.workers _ _ rows locks
      (over-Kept w.tables.operations id f o w.tables.locks (λ q. refl) found s.locks)
      (workers-Busy w id f o (λ q. refl) found (λ b. refl) s.workers)

control-Sound :
    (open_payload : Text → Option Payload) (full_access : ℕ → ℕ → Bool) (db : Db) (w : World)
    (org_id actor : ℕ) (id : Text) (action : Action) (c m : ℕ) (r : Result Tables)
    → control_local open_payload full_access db w.tables org_id actor id action c m ≡ r
    → Sound w
    → Sound (after w r)
control-Sound open_payload full_access db w org_id actor id action c m (err e) h s = s
control-Sound open_payload full_access db w org_id actor id action c m (ok t) h s =
    let (o, found, acts) =
      control_local-acts open_payload full_access db w.tables org_id actor id action c m t h in
    let k = act-Controlled open_payload w.tables o action c m t acts in
    let named : find_operation w.tables.operations o.id ≡ some o =
      subst (λ i. find_operation w.tables.operations i ≡ some o)
        (sym (find_operation-id w.tables.operations id o found)) found in
    let never : is_busy o.status ≡ true → is_busy (k.update o).status ≡ true =
      λ b. absurd (ground (arith, b, k.idle)) in
    make-Sound t w.workers _ t.locks k.rows refl (k.locks named s.locks)
      (workers-Busy w o.id k.update o k.keeps named never s.workers)

-- What a worker has in hand is in the table.
pub All-contains :
    (P : Text → Type 0) (xs : List Text) (id : Text) → contains xs id ≡ true → All P xs → P id
unfolding contains
All-contains P [] id h a = cc
All-contains P (x ∷ xs) id h a = elim (Bool-cases (text_eq x id)) [
  | inl e ↦ subst P (text_eq→eq x id e) a.0
  | inr e ↦ All-contains P xs id (ground (arith, h, e)) a.1
]

pub Busy-found :
    (ops : List Operation) (id : Text)
    → Busy ops id
    → (o : Operation) × (find_operation ops id ≡ some o) × (is_busy o.status ≡ true)
unfolding at
Busy-found ops id b = elim (Option-cases (find_operation ops id)) [
  | inl e ↦ absurd (ground (arith, b, e))
  | inr (o, e) ↦ (o, e, sym (at-found is_busy ops id o e) ∙ b)
]

after_enqueue-Sound :
    (full_access : ℕ → ℕ → Bool) (db : Db) (w : World) (o : Operation) (keys : List Text)
    (r : Result (Text × (Bool × Tables)))
    → enqueue full_access db w.tables o keys ≡ r
    → Sound w
    → Sound (after_enqueue w r)
after_enqueue-Sound full_access db w o keys (err e) h s = s
after_enqueue-Sound full_access db w o keys (ok (id, (repeated, t))) h s =
    elim (enqueue-result full_access db w.tables o keys id repeated t h) [
      | inl same ↦ subst (λ t. Sound (record w { tables = t })) same s
      | inr entered ↦ entered-Sound full_access db w o keys t entered s
    ]

module _ (full_access : ℕ → ℕ → Bool) (open_payload : Text → Option Payload) where
  pub step-Sound : (w : World) (e : Event) → Sound w → Sound (step full_access open_payload w e)
  unfolding step
  step-Sound w (queues db o keys) s = after_enqueue-Sound full_access db w o keys _ refl s
  step-Sound w restarts s = restart-Sound w s
  step-Sound w (claims id) s = after_claim-Sound w id _ refl s
  step-Sound w (commits db id) s = elim (Bool-cases (contains w.workers id)) [
    | inl e ↦ rw (step, e) (commit-Sound full_access db w id _ refl s)
    | inr e ↦ rw (step, e) s
  ]
  step-Sound w (finishes id ran) s = elim (Bool-cases (contains w.workers id)) [
    | inl e ↦
        let (o, found, busy) =
          Busy-found w.tables.operations id
            (All-contains (Busy w.tables.operations) w.workers id e s.workers) in
        rw (step, e) (finish-Sound w id ran o found s)
    | inr e ↦ rw (step, e) s
  ]
  step-Sound w (controls db org_id actor id action c m) s =
      control-Sound open_payload full_access db w org_id actor id action c m _ refl s

-- After any history of requests, claims, commits, ends, controls and restarts, from a state in which
-- it is so: no resource key of an organisation is locked twice, every lock is held by an operation
-- that is queued, running, unknown or needs action, and the operation of every worker is running or
-- has committed its success.
pub run-Sound :
    (full_access : ℕ → ℕ → Bool) (open_payload : Text → Option Payload) (w : World)
    (events : List Event)
    → Sound w
    → Sound (run full_access open_payload w events)
unfolding run
run-Sound full_access open_payload w [] s = s
run-Sound full_access open_payload w (e ∷ events) s =
    run-Sound full_access open_payload (step full_access open_payload w e) events
      (step-Sound full_access open_payload w e s)
