-- ===== src/Operations/History.antt =====
-- The histories of the queue: every order of requests, workers' steps, controls and restarts of
-- internal/core/operations.go. `workers` are the operations that a worker of this process has
-- claimed and not finished. An event that fails or does not fit changes nothing.
use mailhearth.Common.{
  ℕ, Bool, not, List, [], ◌∷◌, Option, none, some, Text, text_eq, if◌then◌else◌, ok, err, contains,
  keep_if,
}
use mailhearth.Access.Store.{Db}
use mailhearth.Operations.Tables.{Operation, Tables, Result}
use mailhearth.Operations.Queue.{enqueue}
use mailhearth.Operations.Execute.{start_operations, claim, Ran, finish, complete_local}
use mailhearth.Operations.Control.{Action, Payload, control_local}

pub record World : Type 0 where
  pub tables : Tables
  pub workers : List Text

-- The members and roles as they are at the event come with it.
pub data Event : Type 0 where
  queues : Db → Operation → List Text → Event
  restarts : Event
  claims : Text → Event
  commits : Db → Text → Event
  finishes : Text → Ran → Event
  controls : Db → ℕ → ℕ → Text → Action → ℕ → ℕ → Event

abbrev pub after_enqueue : World → Result (Text × (Bool × Tables)) → World
after_enqueue w (ok (id, (repeated, t))) = record w { tables = t }
after_enqueue w (err e) = w

abbrev pub after : World → Result Tables → World
after w (ok t) = record w { tables = t }
after w (err e) = w

abbrev pub after_claim : World → Text → Option Tables → World
after_claim w id (some t) = record { tables = t; workers = id ∷ w.workers }
after_claim w id none = w

module _ (full_access : ℕ → ℕ → Bool) (open_payload : Text → Option Payload) where
  unfoldable pub step : World → Event → World
  step w (queues db o keys) = after_enqueue w (enqueue full_access db w.tables o keys)
  step w restarts = record { tables = start_operations w.tables; workers = [] }
  step w (claims id) = after_claim w id (claim w.tables id)
  step w (commits db id) =
      if contains w.workers id then after w (complete_local full_access db w.tables id) else w
  step w (finishes id ran) =
      if contains w.workers id
      then record {
        tables = finish w.tables id ran;
        workers = keep_if (λ j. not (text_eq j id)) w.workers;
      }
      else w
  step w (controls db org_id actor id action connection_now mailbox_now) = after w (
      control_local open_payload full_access db w.tables org_id actor id action connection_now
        mailbox_now)

  unfoldable pub run : World → List Event → World
  run w [] = w
  run w (e ∷ events) = run (step w e) events

abbrev pub empty : World
empty = record { tables = record { operations = []; locks = []; steps = [] }; workers = [] }
