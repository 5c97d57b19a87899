-- ===== src/Submissions/Protocol.antt =====
-- What the SMTP status of a submission promises, without the worker: the status that is reported, and
-- what the calls of SubmitSMTP have returned (internal/core/submissions.go).
use mailhearth.Common.{
  ℕ, ◌≡◌, ◌≢◌, refl, sym, ◌∙◌, ◌⊎◌, inl, inr, subst, List, [], ◌∷◌, Option, none, some, Text, arith,
  err, ok, Outcome,
}
use mailhearth.Submissions.Row.{
  SmtpStatus, not_started, submitting, smtp_unknown, Submission, persist, Locator,
}
use mailhearth.Submissions.Directory.{Directory}
use mailhearth.Submissions.Reserve.{Envelope}
use mailhearth.Submissions.Execute.{
  Worker, Answer, Job, call, fail, checked, mark, record_answer, copy, look_for_copy, compare_copy,
}
use mailhearth.Submissions.Once.{Fits, Returned, Accepted}

pub record Delivery : Type 0 where
  pub reported : SmtpStatus
  pub returned : List SmtpStatus

-- A delivery is announced before it begins, is answered at most once, and is reported as it was
-- answered or as unknown.
infix 4 ◌⟶◌ ◌⟶*◌
pub data ◌⟶◌ : Delivery → Delivery → Type 0 where
  begins :
      record { reported = not_started; returned = [] }
      ⟶ record { reported = submitting; returned = [] }
  answers :
      (s : SmtpStatus)
      → s ≢ not_started
      → s ≢ submitting
      → record { reported = submitting; returned = [] }
        ⟶ record { reported = submitting; returned = s ∷ [] }
  reports :
      (s : SmtpStatus)
      → record { reported = submitting; returned = s ∷ [] }
        ⟶ record { reported = s; returned = s ∷ [] }
  forgets :
      (returned : List SmtpStatus)
      → record { reported = submitting; returned = returned }
        ⟶ record { reported = smtp_unknown; returned = returned }

pub data ◌⟶*◌ : Delivery → Delivery → Type 0 where
  stays : (d : Delivery) → d ⟶* d
  goes : {a b c : Delivery} → a ⟶ b → b ⟶* c → a ⟶* c

-- What a job says of its delivery.
unfoldable pub delivery : Job → Delivery
delivery j = record { reported = j.row.smtp_status; returned = j.sessions }

abbrev pub Moves : Delivery → Delivery → Type 0
Moves a b = (a ≡ b) ⊎ (a ⟶ b)

-- The delivery of a job with its status and results given.
pub same :
    (j i : Job)
    → i.row.smtp_status ≡ j.row.smtp_status
    → i.sessions ≡ j.sessions
    → Moves (delivery j) (delivery i)
unfolding delivery
same j i s l = inl (ground (arith, s, l))

fail-smtp :
    (w : Worker) (code : Text) (r : Submission) → (fail w code r).smtp_status ≡ w.smtp_status
unfolding fail persist
fail-smtp w code r = ground arith

-- A transition between deliveries that are given by their parts.
pub moved :
    (j i : Job) {a b : Delivery}
    → a ⟶ b
    → delivery j ≡ a
    → delivery i ≡ b
    → Moves (delivery j) (delivery i)
moved j i {a} {b} t e f = inr (subst (λ x. x ⟶ delivery i) (sym e) (subst (λ y. a ⟶ y) (sym f) t))

pub checked-Moves :
    (j : Job) (w : Worker) (o : Outcome Text Envelope)
    → j.row.smtp_status ≡ w.smtp_status
    → Moves (delivery j) (delivery (checked j w o))
unfolding checked fail persist
checked-Moves j w (err code) e = same j _ (ground (arith, e)) refl
checked-Moves j w (ok envelope) e = same j _ (ground (arith, e)) (ground arith)

-- Either the row is left as it is or the delivery is announced.
mark-cases :
    (j : Job) (w : Worker) (envelope : Envelope) (d : Directory) (now : ℕ)
    → j.row.smtp_status ≡ w.smtp_status
    → (mark j w envelope d now).row.smtp_status ≡ j.row.smtp_status
      ⊎ (mark j w envelope d now).row.smtp_status ≡ submitting
unfolding mark fail persist
mark-cases j w envelope d now e = ground (arith, e)

mark-sessions :
    (j : Job) (w : Worker) (envelope : Envelope) (d : Directory) (now : ℕ)
    → (mark j w envelope d now).sessions ≡ j.sessions
unfolding mark
mark-sessions j w envelope d now = ground arith

pub mark-Moves :
    (j : Job) (w : Worker) (envelope : Envelope) (d : Directory) (now : ℕ)
    → j.row.smtp_status ≡ not_started
    → w.smtp_status ≡ not_started
    → Fits j
    → Moves (delivery j) (delivery (mark j w envelope d now))
unfolding delivery
mark-Moves j w envelope d now e k f = elim (mark-cases j w envelope d now (e ∙ sym k)) [
  | inl s ↦ same j (mark j w envelope d now) s (mark-sessions j w envelope d now)
  | inr s ↦
      let l : j.sessions ≡ [] = ground (arith, f, e) in
      moved j (mark j w envelope d now) begins (ground (arith, e, l))
        (ground (arith, s, mark-sessions j w envelope d now, l))
]

pub call-Moves :
    (j : Job) (w : Worker) (s : SmtpStatus) (e : Option Text)
    → j.row.smtp_status ≡ submitting
    → j.sessions ≡ []
    → Returned s e
    → Moves (delivery j) (delivery (call j w s e))
unfolding delivery call
call-Moves j w s e p l r =
    moved j (call j w s e) (answers s (ground (arith, r)) (ground (arith, r)))
      (ground (arith, p, l)) (ground (arith, p, l))

pub record_answer-Moves :
    (j : Job) (w : Worker) (s : SmtpStatus) (e : Option Text)
    → j.row.smtp_status ≡ submitting
    → j.sessions ≡ s ∷ []
    → Returned s e
    → Moves (delivery j) (delivery (record_answer j w s e))
unfolding delivery record_answer persist
record_answer-Moves j w s none p l r =
    moved j (record_answer j w s none) (reports s) (ground (arith, p, l)) (ground (arith, p, l, r))
record_answer-Moves j w s (some code) p l r =
    moved j (record_answer j w s (some code)) (reports s) (ground (arith, p, l))
      (ground (arith, p, l))

pub copy-Moves :
    (j : Job) (w : Worker) (a : Answer) → Accepted j w → Moves (delivery j) (delivery (copy j w a))
unfolding copy look_for_copy fail persist
copy-Moves j w a p = same j _ (ground (arith, p)) (ground (arith, p))

pub compare_copy-Moves :
    (sha256 : Text → Text) (j : Job) (w : Worker) (locator : Locator) (raw : Text)
    → Accepted j w
    → Moves (delivery j) (delivery (compare_copy sha256 j w locator raw))
unfolding compare_copy fail persist
compare_copy-Moves sha256 j w locator raw p = same j _ (ground (arith, p)) (ground arith)

pub fail-Moves :
    (j : Job) (w : Worker) (code : Text)
    → j.row.smtp_status ≡ w.smtp_status
    → Moves (delivery j) (delivery (record j { row = fail w code j.row; worker = none }))
fail-Moves j w code e = same j _ (fail-smtp w code j.row ∙ sym e) refl
