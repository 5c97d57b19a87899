-- ===== src/Operations/Sound.antt =====
-- What every history of the queue of internal/core/operations.go keeps true of locks and workers.
use mailhearth.Common.{
  ℕ, ◌≡◌, ◌⊎◌, refl, ◌∙◌, sym, inl, inr, Bool, true, false, List, [], ◌∷◌, ◌++◌, Option, none, some,
  arith, Text, text_eq, text_eq_refl, Option-cases, All, All-imp, ok, >>=-eq-ok, guard, subst,
}
use mailhearth.Access.Store.{Db}
use mailhearth.Operations.Permission.{controller_permission}
use mailhearth.Operations.Tables.{
  Status, queued, is_queued, Operation, Lock, Tables, find_operation, idempotency_conflict,
}
use mailhearth.Operations.Queue.{
  enqueue, require_free, enter_operation, insert_operation, insert_locks, find_request,
}
use mailhearth.Operations.Execute.{claim, set_running}
use mailhearth.Operations.History.{World, after_claim}
use mailhearth.Operations.Rows.{
  is_live, is_busy, at-change, find_operation-append_new, at-found, at-append,
}
use mailhearth.Operations.Locks.{Kept, insert_locks-Kept}
use mailhearth.Operations.Holders.{Held, Busy, live-Kept, workers-Busy}
use mailhearth.Operations.Effects.{claim-queued}

-- Locks are unique and held by operations that are not over, and a worker's operation is running or
-- has committed its success.
pub record Sound (w : World) : Type 0 where
  pub locks : Kept (Held w.tables.operations) w.tables.locks
  pub workers : All (Busy w.tables.operations) w.workers

pub make-Sound :
    (t : Tables) (workers : List Text) (ops : List Operation) (locks : List Lock)
    → t.operations ≡ ops
    → t.locks ≡ locks
    → Kept (Held ops) locks
    → All (Busy ops) workers
    → Sound (record { tables = t; workers = workers })
make-Sound t workers ops locks rows held k b = record {
  locks =
      subst (Kept (Held t.operations)) (sym held) (subst (λ o. Kept (Held o) locks) (sym rows) k);
  workers = subst (λ o. All (Busy o) workers) (sym rows) b;
}

queued_live : (s : Status) → is_queued s ≡ true → is_busy s ≡ false
unfolding is_queued is_busy
queued_live queued h = refl
queued_live _ h = cc

pub after_claim-Sound :
    (w : World) (id : Text) (o : Option Tables)
    → claim w.tables id ≡ o
    → Sound w
    → Sound (after_claim w id o)
unfolding is_live is_busy
after_claim-Sound w id none e s = s
after_claim-Sound w id (some t) e s =
    let (o, found, free, rows, locks) = claim-queued w.tables id t e in
    let mine =
      at-change is_busy w.tables.operations id id set_running o (λ q. refl) found
      ∙ rw (text_eq_refl id) refl in
    make-Sound t (id ∷ w.workers) _ w.tables.locks rows locks
      (live-Kept w.tables.operations id set_running o w.tables.locks (λ q. refl) found refl s.locks)
      (mine, workers-Busy w id set_running o (λ q. refl) found (λ b. refl) s.workers)

-- What a new operation has found and written.
pub enter_operation-added :
    (full_access : ℕ → ℕ → Bool) (db : Db) (t : Tables) (o : Operation) (keys : List Text)
    (t' : Tables)
    → enter_operation full_access db t o keys ≡ ok t'
    → (find_operation t.operations o.id ≡ none)
      × (t'.operations ≡ t.operations ++ record o { status = queued; error_code = none } ∷ [])
      × (insert_locks t.locks o.org_id keys o.id ≡ ok t'.locks)
unfolding enter_operation insert_operation
enter_operation-added full_access db t o keys t' h =
    let (u, e1, h1) = >>=-eq-ok (require_free t.locks o.org_id keys) _ t' h in
    let new : Operation = record o { status = queued; error_code = none } in
    let (ops, e2, h2) = >>=-eq-ok (insert_operation t.operations new) _ t' h1 in
    let entered : Tables = record t { operations = ops } in
    let (u3, e3, h3) =
      >>=-eq-ok (controller_permission full_access db entered o.id o.actor) _ t' h2 in
    let (locks, e4, h4) = >>=-eq-ok (insert_locks t.locks o.org_id keys o.id) _ t' h3 in
    (ground (arith, e2, h4), ground (arith, e2, h4), ground (arith, e4, h4))

pub enqueue-result :
    (full_access : ℕ → ℕ → Bool) (db : Db) (t : Tables) (o : Operation) (keys : List Text)
    (id : Text) (repeated : Bool) (t' : Tables)
    → enqueue full_access db t o keys ≡ ok (id, (repeated, t'))
    → (t ≡ t') ⊎ (enter_operation full_access db t o keys ≡ ok t')
unfolding enqueue
enqueue-result full_access db t o keys id repeated t' h =
    elim (Option-cases (find_request t.operations o.org_id o.actor o.request_id)) [
      | inl e ↦
          let (entered, e1, h1) =
            >>=-eq-ok (enter_operation full_access db t o keys) _ _ (rw (enqueue, e) at h) in
          inr (ground (arith, e1, h1))
      | inr (prior, e) ↦
          let (u, e1, h1) =
            >>=-eq-ok (guard (text_eq o.digest prior.digest) idempotency_conflict) _ _
              (rw (enqueue, e) at h) in
          inl (ground (arith, h1))
    ]

pub entered-Sound :
    (full_access : ℕ → ℕ → Bool) (db : Db) (w : World) (o : Operation) (keys : List Text)
    (t' : Tables)
    → enter_operation full_access db w.tables o keys ≡ ok t'
    → Sound w
    → Sound (record w { tables = t' })
unfolding is_live
entered-Sound full_access db w o keys t' h s =
    let ops = w.tables.operations in
    let (fresh, rows, locks) = enter_operation-added full_access db w.tables o keys t' h in
    let new : Operation = record o { status = queued; error_code = none } in
    let live =
      at-found is_live (ops ++ new ∷ []) o.id new (find_operation-append_new ops new fresh) in
    let older : Kept (Held (ops ++ new ∷ [])) w.tables.locks = record {
      unique = s.locks.unique;
      each =
          All-imp (Held ops) (Held (ops ++ new ∷ [])) w.tables.locks
            (λ l. at-append is_live ops new l.holder) s.locks.each;
    } in
    make-Sound t' w.workers (ops ++ new ∷ []) t'.locks rows refl
      (insert_locks-Kept (Held (ops ++ new ∷ [])) w.tables.locks o.org_id keys o.id t'.locks
        (λ key. live) locks older)
      (All-imp (Busy ops) (Busy (ops ++ new ∷ [])) w.workers (λ j. at-append is_busy ops new j)
        s.workers)
