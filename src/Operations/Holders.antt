-- ===== src/Operations/Holders.antt =====
-- Who holds locks while the rows of internal/core/operations.go change.
use mailhearth.Common.{
  ◌≡◌, ◌∙◌, sym, inl, inr, true, List, some, arith, Text, text_eq, text_eq_iff, text_eq→eq,
  Bool-cases, All, All-imp, subst,
}
use mailhearth.Operations.Tables.{Operation, Lock, find_operation, change, unlock}
use mailhearth.Operations.History.{World}
use mailhearth.Operations.Rows.{is_live, is_busy, at, KeepsId, at-change, at-found}
use mailhearth.Operations.Locks.{Kept, Unique-unlock, All-unlock}

-- The holder of the lock is an operation that is not over.
abbrev pub Held : List Operation → Lock → Type 0
Held ops l = at is_live ops l.holder ≡ true

abbrev pub Busy : List Operation → Text → Type 0
Busy ops id = at is_busy ops id ≡ true

-- An operation that stays live keeps its locks.
pub live-Kept :
    (ops : List Operation) (id : Text) (f : Operation → Operation) (o : Operation)
    (locks : List Lock)
    → KeepsId f
    → find_operation ops id ≡ some o
    → is_live (f o).status ≡ true
    → Kept (Held ops) locks
    → Kept (Held (change id f ops)) locks
live-Kept ops id f o locks keeps h live k = record {
  unique = k.unique;
  each =
      All-imp (Held ops) (Held (change id f ops)) locks
        (λ l held. ground (arith, at-change is_live ops id l.holder f o keeps h, live, held))
        k.each;
}

-- An operation that is over has given its locks back.
pub over-Kept :
    (ops : List Operation) (id : Text) (f : Operation → Operation) (o : Operation)
    (locks : List Lock)
    → KeepsId f
    → find_operation ops id ≡ some o
    → Kept (Held ops) locks
    → Kept (Held (change id f ops)) (unlock id locks)
over-Kept ops id f o locks keeps h k = record {
  unique = Unique-unlock id locks k.unique;
  each =
      All-unlock (Held ops) (Held (change id f ops)) id locks
        (λ l other held. ground (
          arith,
          at-change is_live ops id l.holder f o keeps h,
          text_eq_iff id l.holder,
          text_eq_iff l.holder id,
          other,
          held,
        ))
        k.each;
}

-- An update leaves a worker's operation busy if the new status is busy, or if the old one was not.
pub change-Busy :
    (ops : List Operation) (id j : Text) (f : Operation → Operation) (o : Operation)
    → KeepsId f
    → find_operation ops id ≡ some o
    → (is_busy o.status ≡ true → is_busy (f o).status ≡ true)
    → Busy ops j
    → Busy (change id f ops) j
change-Busy ops id j f o keeps h busy b = elim (Bool-cases (text_eq id j)) [
  | inl e ↦
      let same : id ≡ j = text_eq→eq id j e in
      let old : is_busy o.status ≡ true =
        sym (at-found is_busy ops id o h) ∙ subst (Busy ops) (sym same) b in
      at-change is_busy ops id j f o keeps h ∙ rw e (busy old)
  | inr e ↦ at-change is_busy ops id j f o keeps h ∙ rw e b
]

module _ (w : World) (id : Text) (f : Operation → Operation) (o : Operation) where
  -- All workers' operations after an update.
  pub workers-Busy :
      KeepsId f
      → find_operation w.tables.operations id ≡ some o
      → (is_busy o.status ≡ true → is_busy (f o).status ≡ true)
      → All (Busy w.tables.operations) w.workers
      → All (Busy (change id f w.tables.operations)) w.workers
  workers-Busy keeps h busy b =
      All-imp (Busy w.tables.operations) (Busy (change id f w.tables.operations)) w.workers
        (λ j. change-Busy w.tables.operations id j f o keeps h busy) b
