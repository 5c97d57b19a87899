-- ===== src/Operations/Finish.antt =====
-- The end of `executeOperation` of internal/core/operations.go.
use mailhearth.Common.{
  ◌≡◌, refl, sym, ap, inl, inr, true, false, not, some, arith, Text, text_eq, text_eq_iff,
  Bool-cases, All, All-keep_if, keep_if, subst,
}
use mailhearth.Operations.Tables.{
  Status, unknown, needs_action, is_unknown, is_succeeded, is_needs_action, Operation,
  find_operation, change,
}
use mailhearth.Operations.Execute.{
  Ran, finish, final_status, has_effects, set_final, code_of, keeps_locks,
}
use mailhearth.Operations.History.{World}
use mailhearth.Operations.Rows.{is_live, is_busy, at-change}
use mailhearth.Operations.Locks.{Kept}
use mailhearth.Operations.Holders.{Held, Busy, live-Kept, over-Kept}
use mailhearth.Operations.Sound.{Sound, make-Sound}

-- A worker that finishes: its operation is the only one that changes.
final_live : (s : Status) → keeps_locks s ≡ true → is_live s ≡ true
unfolding keeps_locks is_unknown is_needs_action is_live
final_live unknown h = refl
final_live needs_action h = refl
final_live _ h = cc

module _ (w : World) (id : Text) (ran : Ran) (o : Operation) where
  unfoldable pub written : Operation → Operation
  written = set_final (final_status (has_effects id w.tables.steps) ran) (code_of ran)

  finish-Kept :
      find_operation w.tables.operations id ≡ some o
      → Kept (Held w.tables.operations) w.tables.locks
      → is_succeeded o.status ≡ false
      → Kept (Held (finish w.tables id ran).operations) (finish w.tables id ran).locks
  unfolding finish written set_final
  finish-Kept found k not_done =
      elim (Bool-cases (keeps_locks (final_status (has_effects id w.tables.steps) ran))) [
        | inl e ↦
            let live = final_live (final_status (has_effects id w.tables.steps) ran) e in
            rw (finish, found, not_done, e)
              (live-Kept w.tables.operations id written o w.tables.locks (λ q. refl) found live k)
        | inr e ↦
            rw (finish, found, not_done, e)
              (over-Kept w.tables.operations id written o w.tables.locks (λ q. refl) found k)
      ]

  pub finish-rows :
      find_operation w.tables.operations id ≡ some o
      → is_succeeded o.status ≡ false
      → (finish w.tables id ran).operations ≡ change id written w.tables.operations
  unfolding finish written
  finish-rows found not_done = rw (finish, found, not_done) refl

  pub finish-done :
      find_operation w.tables.operations id ≡ some o
      → is_succeeded o.status ≡ true
      → finish w.tables id ran ≡ w.tables
  unfolding finish
  finish-done found done = rw (finish, found, done) refl

  -- The other workers' operations stay as they are.
  finish-Busy :
      find_operation w.tables.operations id ≡ some o
      → is_succeeded o.status ≡ false
      → All (Busy w.tables.operations) w.workers
      → All (Busy (finish w.tables id ran).operations) (keep_if (λ j. not (text_eq j id)) w.workers)
  unfolding set_final written
  finish-Busy found not_done b =
      All-keep_if (Busy w.tables.operations) (Busy (finish w.tables id ran).operations)
        (λ j. not (text_eq j id)) w.workers
        (λ j other busy.
          let rows = finish-rows found not_done in
          let moved = at-change is_busy w.tables.operations id j written o (λ q. refl) found in
          subst (λ ops. Busy ops j) (sym rows)
            (ground (arith, moved, text_eq_iff id j, text_eq_iff j id, other, busy)))
        b

  pub finish-Sound :
      find_operation w.tables.operations id ≡ some o
      → Sound w
      → Sound (record {
        tables = finish w.tables id ran;
        workers = keep_if (λ j. not (text_eq j id)) w.workers;
      })
  finish-Sound found s = elim (Bool-cases (is_succeeded o.status)) [
    | inl e ↦
        let same = finish-done found e in
        make-Sound (finish w.tables id ran) _ w.tables.operations w.tables.locks
          (ap (λ t. t.operations) same) (ap (λ t. t.locks) same) s.locks
          (All-keep_if (Busy w.tables.operations) (Busy w.tables.operations)
            (λ j. not (text_eq j id)) w.workers (λ j other b. b) s.workers)
    | inr e ↦ record {
      locks = finish-Kept found s.locks e;
      workers = finish-Busy found e s.workers;
    }
  ]
