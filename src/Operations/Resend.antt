-- ===== src/Operations/Resend.antt =====
-- Requests that are sent again later, after any history of the queue of internal/core/operations.go.
use mailhearth.Common.{
  ℕ, ◌≡◌, refl, ◌∙◌, sym, ap, inl, inr, Bool, true, List, [], ◌∷◌, Option, none, some, Text,
  text_eq, if◌then◌else◌, Bool-cases, Option-cases, ok, err, contains,
}
use mailhearth.Access.Store.{Db}
use mailhearth.Operations.Tables.{
  Status, succeeded, is_succeeded, Operation, Tables, find_operation, change, Result,
  idempotency_conflict,
}
use mailhearth.Operations.Queue.{enqueue}
use mailhearth.Operations.Execute.{
  start_operations, claim, set_running, Ran, finish, set_final, complete_local,
}
use mailhearth.Operations.Control.{Action, Payload, control_local}
use mailhearth.Operations.History.{
  World, Event, queues, restarts, claims, commits, finishes, controls, after_enqueue, after,
  after_claim, step, run,
}
use mailhearth.Operations.Rows.{KeepsRequest}
use mailhearth.Operations.Effects.{
  claim-queued, complete_local-running, control_local-acts, act-Controlled,
}
use mailhearth.Operations.Sound.{enqueue-result}
use mailhearth.Operations.Sound.{enter_operation-added}
use mailhearth.Operations.Repeat.{
  recorded, recorded-change, recorded-interrupt, recorded-append, enqueue-recorded,
  recorded-enqueue,
}

same_request : KeepsRequest set_running
same_request q = (refl, (refl, (refl, (refl, refl))))

final_request : (s : Status) (code : Option Text) → KeepsRequest (set_final s code)
unfolding set_final
final_request s code q = (refl, (refl, (refl, (refl, refl))))

module _ (org_id actor : ℕ) (request_id : Text) (r : Text × Text) where
  -- The request is on record in a state.
  OnRecord : List Operation → Type 0
  OnRecord ops = recorded ops org_id actor request_id ≡ some r

  keep_record :
      (ops ops' : List Operation) (id : Text) (f : Operation → Operation)
      → KeepsRequest f
      → ops' ≡ change id f ops
      → OnRecord ops
      → OnRecord ops'
  unfolding OnRecord
  keep_record ops ops' id f k rows h =
      ap (λ t. recorded t org_id actor request_id) rows
      ∙ (recorded-change ops id f org_id actor request_id k ∙ h)

  enqueue-OnRecord :
      (full_access : ℕ → ℕ → Bool) (db : Db) (w : World) (new : Operation) (keys : List Text)
      (a : Result (Text × (Bool × Tables)))
      → enqueue full_access db w.tables new keys ≡ a
      → OnRecord w.tables.operations
      → OnRecord (after_enqueue w a).tables.operations
  unfolding OnRecord
  enqueue-OnRecord full_access db w new keys (err e) h row = row
  enqueue-OnRecord full_access db w new keys (ok (id, (repeated, t))) h row =
      elim (enqueue-result full_access db w.tables new keys id repeated t h) [
        | inl same ↦ ap (λ t. recorded t.operations org_id actor request_id) (sym same) ∙ row
        | inr entered ↦
            let (fresh, rows, locks) =
              enter_operation-added full_access db w.tables new keys t entered in
            ap (λ ops. recorded ops org_id actor request_id) rows
            ∙ recorded-append w.tables.operations _ org_id actor request_id r row
      ]

  claim-OnRecord :
      (w : World) (id : Text) (a : Option Tables)
      → claim w.tables id ≡ a
      → OnRecord w.tables.operations
      → OnRecord (after_claim w id a).tables.operations
  claim-OnRecord w id none h row = row
  claim-OnRecord w id (some t) h row =
      let (q, found, free, rows, locks) = claim-queued w.tables id t h in
      keep_record w.tables.operations t.operations id set_running same_request rows row

  commit-OnRecord :
      (full_access : ℕ → ℕ → Bool) (db : Db) (w : World) (id : Text) (a : Result Tables)
      → complete_local full_access db w.tables id ≡ a
      → OnRecord w.tables.operations
      → OnRecord (after w a).tables.operations
  commit-OnRecord full_access db w id (err e) h row = row
  commit-OnRecord full_access db w id (ok t) h row =
      let (q, found, runs, rows, locks) = complete_local-running full_access db w.tables id t h in
      keep_record w.tables.operations t.operations id _ (final_request succeeded none) rows row

  finish-OnRecord :
      (w : World) (id : Text) (ran : Ran)
      → OnRecord w.tables.operations
      → OnRecord (finish w.tables id ran).operations
  unfolding finish OnRecord
  finish-OnRecord w id ran row = elim (Option-cases (find_operation w.tables.operations id)) [
    | inl e ↦ rw (finish, e) row
    | inr (q, e) ↦ elim (Bool-cases (is_succeeded q.status)) [
      | inl done ↦ rw (finish, e, done) row
      | inr still ↦
          rw (finish, e, still)
            (recorded-change w.tables.operations id _ org_id actor request_id (final_request _ _)
              ∙ row)
    ]
  ]

  control-OnRecord :
      (open_payload : Text → Option Payload) (full_access : ℕ → ℕ → Bool) (db : Db) (w : World)
      (org actor' : ℕ) (id : Text) (action : Action) (c m : ℕ) (a : Result Tables)
      → control_local open_payload full_access db w.tables org actor' id action c m ≡ a
      → OnRecord w.tables.operations
      → OnRecord (after w a).tables.operations
  control-OnRecord open_payload full_access db w org actor' id action c m (err e) h row = row
  control-OnRecord open_payload full_access db w org actor' id action c m (ok t) h row =
      let (q, found, acts) =
        control_local-acts open_payload full_access db w.tables org actor' id action c m t h in
      let k = act-Controlled open_payload w.tables q action c m t acts in
      keep_record w.tables.operations t.operations q.id k.update k.same_request k.rows row

  restart-OnRecord :
      (w : World) → OnRecord w.tables.operations → OnRecord (start_operations w.tables).operations
  unfolding OnRecord start_operations
  restart-OnRecord w row = recorded-interrupt w.tables.operations org_id actor request_id ∙ row

  step-OnRecord :
      (full_access : ℕ → ℕ → Bool) (open_payload : Text → Option Payload) (w : World) (e : Event)
      → OnRecord w.tables.operations
      → OnRecord (step full_access open_payload w e).tables.operations
  unfolding step
  step-OnRecord full_access open_payload w (queues db new keys) row =
      enqueue-OnRecord full_access db w new keys _ refl row
  step-OnRecord full_access open_payload w restarts row = restart-OnRecord w row
  step-OnRecord full_access open_payload w (claims id) row = claim-OnRecord w id _ refl row
  step-OnRecord full_access open_payload w (commits db id) row =
      elim (Bool-cases (contains w.workers id)) [
        | inl e ↦ rw (step, e) (commit-OnRecord full_access db w id _ refl row)
        | inr e ↦ rw (step, e) row
      ]
  step-OnRecord full_access open_payload w (finishes id ran) row =
      elim (Bool-cases (contains w.workers id)) [
        | inl e ↦ rw (step, e) (finish-OnRecord w id ran row)
        | inr e ↦ rw (step, e) row
      ]
  step-OnRecord full_access open_payload w (controls db org actor' id action c m) row =
      control-OnRecord open_payload full_access db w org actor' id action c m _ refl row

  run-OnRecord :
      (full_access : ℕ → ℕ → Bool) (open_payload : Text → Option Payload) (w : World)
      (events : List Event)
      → OnRecord w.tables.operations
      → OnRecord (run full_access open_payload w events).tables.operations
  unfolding run
  run-OnRecord full_access open_payload w [] row = row
  run-OnRecord full_access open_payload w (e ∷ events) row =
      run-OnRecord full_access open_payload (step full_access open_payload w e) events
        (step-OnRecord full_access open_payload w e row)

-- Once the transaction of a request has answered with an id, then after any history the transaction
-- of a request by the same member with the same request id changes nothing: it answers with this id
-- if the digest is the same, and otherwise with `idempotency_conflict`.
pub run-repeats :
    (full_access : ℕ → ℕ → Bool) (open_payload : Text → Option Payload) (w : World) (db later : Db)
    (o again : Operation) (keys other_keys : List Text) (id : Text) (repeated : Bool) (t : Tables)
    (events : List Event)
    → enqueue full_access db w.tables o keys ≡ ok (id, (repeated, t))
    → again.org_id ≡ o.org_id
    → again.actor ≡ o.actor
    → again.request_id ≡ o.request_id
    → enqueue full_access later
        (run full_access open_payload (record w { tables = t }) events).tables
        again
        other_keys
      ≡ (if text_eq again.digest o.digest
          then ok
              (id, (true, (run full_access open_payload (record w { tables = t }) events).tables))
          else err idempotency_conflict)
unfolding OnRecord
run-repeats full_access open_payload w db later o again keys other_keys id repeated t events h eo ea
      er =
    let first = enqueue-recorded full_access db w.tables o keys id repeated t h in
    let kept =
      run-OnRecord o.org_id o.actor o.request_id (id, o.digest) full_access open_payload
        (record w { tables = t }) events first in
    recorded-enqueue full_access later _ again other_keys id o.digest (rw (eo, ea, er) kept)
