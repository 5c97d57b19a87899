-- ===== src/Operations/Final.antt =====
-- Operations of internal/core/operations.go that are over for good.
use mailhearth.Common.{
  ℕ, ◌≡◌, refl, ◌∙◌, sym, ap, inl, inr, Bool, true, false, List, [], ◌∷◌, Option, none, some, arith,
  Text, text_eq, text_eq→eq, Bool-cases, ok, err, subst, contains,
}
use mailhearth.Access.Store.{Db}
use mailhearth.Operations.Tables.{
  Status, queued, running, succeeded, cancelled, is_queued, is_running, is_succeeded, Operation,
  Tables, find_operation, change, Result,
}
use mailhearth.Operations.Queue.{enqueue}
use mailhearth.Operations.Execute.{
  start_operations, claim, set_running, Ran, finish, set_final, complete_local,
  interrupt_operations,
}
use mailhearth.Operations.Control.{Action, Payload, control_local}
use mailhearth.Operations.History.{
  World, Event, queues, restarts, claims, commits, finishes, controls, after_enqueue, after,
  after_claim, step, run,
}
use mailhearth.Operations.Rows.{
  is_busy, KeepsId, find_operation-append, find_operation-change_other, find_operation-id, is_final,
}
use mailhearth.Operations.Holders.{Busy}
use mailhearth.Operations.Effects.{
  claim-queued, complete_local-running, control_local-acts, act-Controlled,
}
use mailhearth.Operations.Sound.{Sound, enqueue-result}
use mailhearth.Operations.Sound.{enter_operation-added}
use mailhearth.Operations.Finish.{finish-rows, finish-done, written}
use mailhearth.Operations.Histories.{All-contains, Busy-found, step-Sound}

module _ (ops : List Operation) (j : Text) (o : Operation) where
  -- An update of a row that is not final leaves a final row alone.
  change-final :
      (id : Text) (f : Operation → Operation) (q : Operation)
      → find_operation ops j ≡ some o
      → is_final o.status ≡ true
      → find_operation ops id ≡ some q
      → is_final q.status ≡ false
      → KeepsId f
      → find_operation (change id f ops) j ≡ some o
  change-final id f q h final g not_final keeps = elim (Bool-cases (text_eq id j)) [
    | inl e ↦
        let same : id ≡ j = text_eq→eq id j e in
        let one : some q ≡ some o = sym g ∙ (ap (λ i. find_operation ops i) same ∙ h) in
        absurd (ground (arith, one, final, not_final))
    | inr e ↦ find_operation-change_other ops id j f keeps e ∙ h
  ]

final_idle : (s : Status) → is_final s ≡ true → is_running s ≡ false
unfolding is_final is_running
final_idle succeeded h = refl
final_idle cancelled h = refl
final_idle _ h = cc

queued_open : (s : Status) → is_queued s ≡ true → is_final s ≡ false
unfolding is_final is_queued
queued_open queued h = refl
queued_open _ h = cc

running_open : (s : Status) → is_running s ≡ true → is_final s ≡ false
unfolding is_final is_running
running_open running h = refl
running_open _ h = cc

-- What a worker has in hand and has not succeeded is not final.
busy_open : (s : Status) → is_busy s ≡ true → is_succeeded s ≡ false → is_final s ≡ false
unfolding is_final is_busy is_succeeded
busy_open running b h = refl
busy_open succeeded b h = cc
busy_open _ b h = cc

interrupt-final :
    (ops : List Operation) (j : Text) (o : Operation)
    → find_operation ops j ≡ some o
    → is_running o.status ≡ false
    → find_operation (interrupt_operations ops) j ≡ some o
unfolding find_operation interrupt_operations
interrupt-final [] j o h idle = cc
interrupt-final (q ∷ ops) j o h idle = ground (arith, interrupt-final ops j o, h, idle)

module _ (j : Text) (o : Operation) where
  -- The row with id `j` is `o`.
  Row : World → Type 0
  Row w = find_operation w.tables.operations j ≡ some o

  enqueue-Row :
      (full_access : ℕ → ℕ → Bool) (db : Db) (w : World) (new : Operation) (keys : List Text)
      (r : Result (Text × (Bool × Tables)))
      → enqueue full_access db w.tables new keys ≡ r
      → Row w
      → Row (after_enqueue w r)
  unfolding Row
  enqueue-Row full_access db w new keys (err e) h row = row
  enqueue-Row full_access db w new keys (ok (id, (repeated, t))) h row =
      elim (enqueue-result full_access db w.tables new keys id repeated t h) [
        | inl same ↦ subst (λ t. find_operation t.operations j ≡ some o) same row
        | inr entered ↦
            let (fresh, rows, locks) =
              enter_operation-added full_access db w.tables new keys t entered in
            subst (λ ops. find_operation ops j ≡ some o) (sym rows)
              (find_operation-append w.tables.operations _ o j row)
      ]

  claim-Row :
      (w : World) (id : Text) (r : Option Tables)
      → claim w.tables id ≡ r
      → is_final o.status ≡ true
      → Row w
      → Row (after_claim w id r)
  unfolding Row
  claim-Row w id none h final row = row
  claim-Row w id (some t) h final row =
      let (q, found, free, rows, locks) = claim-queued w.tables id t h in
      subst (λ ops. find_operation ops j ≡ some o) (sym rows)
        (change-final w.tables.operations j o id set_running q row final found
          (queued_open q.status free) (λ x. refl))

  commit-Row :
      (full_access : ℕ → ℕ → Bool) (db : Db) (w : World) (id : Text) (r : Result Tables)
      → complete_local full_access db w.tables id ≡ r
      → is_final o.status ≡ true
      → Row w
      → Row (after w r)
  unfolding Row set_final
  commit-Row full_access db w id (err e) h final row = row
  commit-Row full_access db w id (ok t) h final row =
      let (q, found, runs, rows, locks) = complete_local-running full_access db w.tables id t h in
      subst (λ ops. find_operation ops j ≡ some o) (sym rows)
        (change-final w.tables.operations j o id (set_final succeeded none) q row final found
          (running_open q.status runs) (λ x. refl))

  finish-Row :
      (w : World) (id : Text) (ran : Ran) (q : Operation)
      → find_operation w.tables.operations id ≡ some q
      → is_busy q.status ≡ true
      → is_final o.status ≡ true
      → Row w
      → find_operation (finish w.tables id ran).operations j ≡ some o
  unfolding Row written set_final
  finish-Row w id ran q found busy final row = elim (Bool-cases (is_succeeded q.status)) [
    | inl e ↦
        subst (λ t. find_operation t.operations j ≡ some o) (sym (finish-done w id ran q found e))
          row
    | inr e ↦
        subst (λ ops. find_operation ops j ≡ some o) (sym (finish-rows w id ran q found e))
          (change-final w.tables.operations j o id (written w id ran q) q row final found
            (busy_open q.status busy e) (λ x. refl))
  ]

  control-Row :
      (open_payload : Text → Option Payload) (full_access : ℕ → ℕ → Bool) (db : Db) (w : World)
      (org_id actor : ℕ) (id : Text) (action : Action) (c m : ℕ) (r : Result Tables)
      → control_local open_payload full_access db w.tables org_id actor id action c m ≡ r
      → is_final o.status ≡ true
      → Row w
      → Row (after w r)
  unfolding Row
  control-Row open_payload full_access db w org_id actor id action c m (err e) h final row = row
  control-Row open_payload full_access db w org_id actor id action c m (ok t) h final row =
      let (q, found, acts) =
        control_local-acts open_payload full_access db w.tables org_id actor id action c m t h in
      let k = act-Controlled open_payload w.tables q action c m t acts in
      let named : find_operation w.tables.operations q.id ≡ some q =
        subst (λ i. find_operation w.tables.operations i ≡ some q)
          (sym (find_operation-id w.tables.operations id q found)) found in
      subst (λ ops. find_operation ops j ≡ some o) (sym k.rows)
        (change-final w.tables.operations j o q.id k.update q row final named k.not_final k.keeps)

  restart-Row :
      (w : World)
      → is_final o.status ≡ true
      → Row w
      → Row (record { tables = start_operations w.tables; workers = [] })
  unfolding Row start_operations
  restart-Row w final row = interrupt-final w.tables.operations j o row (final_idle o.status final)

  step-Row :
      (full_access : ℕ → ℕ → Bool) (open_payload : Text → Option Payload) (w : World) (e : Event)
      → Sound w
      → is_final o.status ≡ true
      → Row w
      → Row (step full_access open_payload w e)
  unfolding step Row
  step-Row full_access open_payload w (queues db new keys) s final row =
      enqueue-Row full_access db w new keys _ refl row
  step-Row full_access open_payload w restarts s final row = restart-Row w final row
  step-Row full_access open_payload w (claims id) s final row = claim-Row w id _ refl final row
  step-Row full_access open_payload w (commits db id) s final row =
      elim (Bool-cases (contains w.workers id)) [
        | inl e ↦ rw (step, e) (commit-Row full_access db w id _ refl final row)
        | inr e ↦ rw (step, e) row
      ]
  step-Row full_access open_payload w (finishes id ran) s final row =
      elim (Bool-cases (contains w.workers id)) [
        | inl e ↦
            let (q, found, busy) =
              Busy-found w.tables.operations id
                (All-contains (Busy w.tables.operations) w.workers id e s.workers) in
            rw (step, e) (finish-Row w id ran q found busy final row)
        | inr e ↦ rw (step, e) row
      ]
  step-Row full_access open_payload w (controls db org_id actor id action c m) s final row =
      control-Row open_payload full_access db w org_id actor id action c m _ refl final row

-- In a state with unique locks, live holders and busy workers, as every history from an empty queue
-- leads to: the row of an operation that has succeeded or was cancelled is not changed by any history
-- of requests, claims, commits, ends, controls and restarts.
pub run-final :
    (full_access : ℕ → ℕ → Bool) (open_payload : Text → Option Payload) (w : World)
    (events : List Event) (id : Text) (o : Operation)
    → Sound w
    → find_operation w.tables.operations id ≡ some o
    → is_final o.status ≡ true
    → find_operation (run full_access open_payload w events).tables.operations id ≡ some o
unfolding run Row
run-final full_access open_payload w [] id o s row final = row
run-final full_access open_payload w (e ∷ events) id o s row final =
    run-final full_access open_payload (step full_access open_payload w e) events id o
      (step-Sound full_access open_payload w e s)
      (step-Row id o full_access open_payload w e s final row) final
