-- ===== src/Members/Histories.antt =====
-- Histories of the requests that write a member (internal/core/members.go). A request reads the members, other requests
-- write them, and then its transaction runs; so an event is a transaction with the number of writes
-- that have happened since its request read.
use mailhearth.Common.{
  ℕ, zero, suc, ◌≡◌, refl, ap, subst, inl, inr, List, [], ◌∷◌, Option, none, some, Text, ok, err,
  get_elem?, Option-cases,
}
use mailhearth.Access.Store.{Role}
use mailhearth.Members.Table.{Person, View, Result, owners}
use mailhearth.Members.Versions.{Later, Sole, Later-refl, Later-trans}
use mailhearth.Members.Preserve.{Keyed}
use mailhearth.Members.Handle.{Request, handle, handle-owners}

-- `past` has what the table members was before, newest first, with what it is now at its head.
pub record World : Type 0 where
  pub people : List Person
  pub past : List (List Person)

pub record Event : Type 0 where
  pub actor : ℕ
  pub age : ℕ
  pub locked : List Text
  pub request : Request

unfoldable pub start : List Person → World
start people = record { people = people; past = people ∷ [] }

-- A transaction that fails is rolled back.
unfoldable pub after_transaction : World → Result (List Person) → World
after_transaction w (err e) = w
after_transaction w (ok people) = record { people = people; past = people ∷ w.past }

module _ (to_lower : Text → Text) (parse_address : Text → Option Text) (roles : List Role)
    (org_id : ℕ) where
  abbrev view : List Person → List Text → View
  view people locked = record { roles = roles; people = people; locked = locked }

  unfoldable pub step : World → Event → World
  unfolding handle after_transaction
  step w e = elim (get_elem? w.past e.age) [
    | none ↦ w
    | some seen ↦ after_transaction w (
        handle to_lower parse_address (view seen []) (view w.people e.locked) org_id e.actor
          e.request)
  ]

  unfoldable pub run : World → List Event → World
  unfolding step
  run w [] = w
  run w (e ∷ events) = run (step w e) events

  pub record IsSound (w : World) : Type 0 where
    one : owners roles org_id w.people ≡ 1
    sole : Sole org_id w.people
    seen :
        (i : ℕ) (people : List Person)
        → get_elem? w.past i ≡ some people
        → Later org_id people w.people

  list-inj : (a b : List Person) → some a ≡ some b → a ≡ b
  list-inj a b h = ap (λ o. elim o [ none ↦ a | some ms ↦ ms ]) h

  still_seen :
      (w : World) (after : List Person)
      → IsSound w
      → Later org_id w.people after
      → (i : ℕ) (people : List Person) → get_elem? (after ∷ w.past) i ≡ some people
      → Later org_id people after
  still_seen w after s l zero people h =
      subst (λ x. Later org_id x after) (list-inj after people h) (Later-refl org_id after)
  still_seen w after s l (suc i) people h =
      Later-trans org_id people w.people after (s.seen i people h) l

  transaction-IsSound :
      (k : Keyed roles org_id) (w : World) (e : Event) (seen : List Person)
      (r : Result (List Person))
      → Later org_id seen w.people
      → IsSound w
      → handle to_lower parse_address
          (view seen [])
          (view w.people e.locked)
          org_id
          e.actor
          e.request
        ≡ r
      → IsSound (after_transaction w r)
  unfolding after_transaction
  transaction-IsSound k w e seen (err x) l s h = s
  transaction-IsSound k w e seen (ok after) l s h =
      let (one, wrote) =
        handle-owners to_lower parse_address (view seen []) (view w.people e.locked) org_id e.actor
          e.request after refl k l s.sole s.one h in
      record { one = one; sole = wrote.sole; seen = still_seen w after s wrote.later }

  step-IsSound : (k : Keyed roles org_id) (w : World) (e : Event) → IsSound w → IsSound (step w e)
  unfolding step
  step-IsSound k w e s = elim (Option-cases (get_elem? w.past e.age)) [
    | inl n ↦ rw (step, n) s
    | inr (seen, n) ↦ rw (step, n) (transaction-IsSound k w e seen _ (s.seen e.age seen n) s refl)
  ]

  run-IsSound :
      (k : Keyed roles org_id) (w : World) (events : List Event)
      → IsSound w
      → IsSound (run w events)
  unfolding run
  run-IsSound k w [] s = s
  run-IsSound k w (e ∷ events) s = run-IsSound k (step w e) events (step-IsSound k w e s)

  start-IsSound :
      (people : List Person)
      → owners roles org_id people ≡ 1
      → Sole org_id people
      → IsSound (start people)
  unfolding start
  start-IsSound people one s = record { one = one; sole = s; seen = only }
    where
      only :
          (i : ℕ) (ms : List Person) → get_elem? (people ∷ []) i ≡ some ms → Later org_id ms people
      only zero ms h =
          subst (λ x. Later org_id x people) (list-inj people ms h) (Later-refl org_id people)
      only (suc i) ms h = cc

-- An organisation that has one owner keeps one owner through every history of updates of members,
-- transfers of the ownership, deletions, changes of a status and accepted invitations, whoever asks
-- for them. A request may have read the members before any number of the others' writes, and what it
-- read is not always true any more when its transaction runs. The ids of members are unique, the
-- roles stay as they are, and a role that is found by its key is found by its id.
pub run-owners :
    (to_lower : Text → Text) (parse_address : Text → Option Text) (roles : List Role) (org_id : ℕ)
    (people : List Person) (events : List Event)
    → Keyed roles org_id
    → Sole org_id people
    → owners roles org_id people ≡ 1
    → owners roles org_id (run to_lower parse_address roles org_id (start people) events).people ≡ 1
run-owners to_lower parse_address roles org_id people events k s one =
    let sound = start-IsSound to_lower parse_address roles org_id people one s in
    (run-IsSound to_lower parse_address roles org_id k (start people) events sound).one
