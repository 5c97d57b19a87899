-- ===== src/Submissions/Refine.antt =====
-- Every event of internal/core/submissions.go is a transition of the delivery's protocol, or none.
use mailhearth.Common.{
  ℕ, ◌≡◌, refl, sym, ◌∙◌, inl, inr, subst, Bool, List, [], ◌∷◌, Option, none, some, Text, arith,
  Outcome, Bool-cases,
}
use mailhearth.Submissions.Row.{preparing, not_started, Submission, persist, is_submitting, Locator}
use mailhearth.Submissions.Directory.{Mailbox, Level}
use mailhearth.Submissions.Smtp.{submit_smtp}
use mailhearth.Submissions.Reserve.{complete_submission_staging}
use mailhearth.Submissions.Execute.{
  Phase, checking, marking, calling, answered, copying, appending, found_copy, storing, cleaning,
  Worker, Answer, Job, proceed, claim, clean, check, error_of, fine, problem, finds, transaction,
  session, found, reads,
}
use mailhearth.Submissions.History.{
  Findings, World, Event, stages, restarts, reconciles, claims, proceeds, retries, restart,
  reconcile_staging, find_draft, retry_sent_copy, after, proceed_with, step, run, reserved,
  interrupt_running, interrupt_copy, interrupt_submitting,
}
use mailhearth.Submissions.Once.{Fits, Working, InPhase}
use mailhearth.Submissions.Histories.{Holds, step-Holds, reserved-Holds}
use mailhearth.Submissions.Sessions.{submit_smtp-Returned}
use mailhearth.Submissions.Protocol.{
  ◌⟶*◌, stays, goes, forgets, delivery, Moves, same, moved, checked-Moves, mark-Moves, call-Moves,
  record_answer-Moves, copy-Moves, compare_copy-Moves, fail-Moves,
}

module _ (sha256 : Text → Text) where
  proceed-Moves :
      (j : Job) (k : Worker) (phase : Phase) (a : Answer)
      → InPhase j.row.status j.row.smtp_status j.sessions k.smtp_status phase
      → Fits j
      → Moves (delivery j) (delivery (proceed sha256 j k phase a))
  unfolding proceed InPhase clean persist
  proceed-Moves j k checking (finds c) p f = checked-Moves j k (check sha256 k.work c) p.1
  proceed-Moves j k (marking envelope) (transaction d now) p f =
      mark-Moves j k envelope d now p.1.0 p.1.1 f
  proceed-Moves j k (marking envelope) (problem code) p f = fail-Moves j k code (p.1.0 ∙ sym p.1.1)
  proceed-Moves j k calling (session c code) p f =
      call-Moves j k (submit_smtp c).0 (error_of (submit_smtp c).1 code) p.1.0 p.1.1
        (submit_smtp-Returned c code)
  proceed-Moves j k (answered s e) fine p f = record_answer-Moves j k s e p.1.0 p.1.1.0 p.1.1.1.1
  proceed-Moves j k copying a p f = copy-Moves j k a p
  proceed-Moves j k (found_copy locator) (problem code) p f =
      fail-Moves j k code (p.1.0 ∙ sym p.1.1)
  proceed-Moves j k (found_copy locator) (reads raw) p f =
      compare_copy-Moves sha256 j k locator raw p
  proceed-Moves j k appending (problem code) p f = fail-Moves j k code (p.1.0 ∙ sym p.1.1)
  proceed-Moves j k (storing locator) fine p f =
      same j (proceed sha256 j k (storing locator) fine) (sym p.1.0) refl
  proceed-Moves j k appending (found (some locator)) p f =
      same j (proceed sha256 j k appending (found (some locator))) refl refl
  proceed-Moves j k cleaning fine p f = same j (proceed sha256 j k cleaning fine) refl refl
  proceed-Moves j k cleaning (problem code) p f =
      same j (proceed sha256 j k cleaning (problem code)) refl refl
  proceed-Moves j k phase a p f = same j (proceed sha256 j k phase a) refl refl

restart-Moves : (w : World) → Moves (delivery w.job) (delivery (restart w).job)
unfolding delivery restart interrupt_submitting interrupt_copy interrupt_running is_submitting
restart-Moves w = elim (Bool-cases (is_submitting w.job.row.smtp_status)) [
  | inl e ↦
      moved w.job (restart w).job (forgets w.job.sessions) (ground (arith, e)) (ground (arith, e))
  | inr e ↦ same w.job (restart w).job (ground (arith, e)) refl
]

stage-Moves :
    (w : World) (draft : Option Locator)
    → Moves (delivery w.job) (delivery (after w (complete_submission_staging draft w.job.row)).job)
unfolding complete_submission_staging
stage-Moves w draft =
    same w.job (after w (complete_submission_staging draft w.job.row)).job (ground arith)
      (ground arith)

reconcile-smtp :
    (o : Outcome Text Locator) (r : Submission)
    → r.smtp_status ≡ not_started
    → (reconcile_staging o r).smtp_status ≡ r.smtp_status
unfolding reconcile_staging persist
reconcile-smtp o r e = ground (arith, e)

retry-Moves :
    (w : World) (actor : ℕ) (b : Mailbox) (level : Level) (active : Bool) (session_hash : Text)
    → Moves
        (delivery w.job)
        (delivery (after w (retry_sent_copy actor b level active session_hash w.job.row)).job)
unfolding retry_sent_copy
retry-Moves w actor b level active session_hash =
    same w.job (after w (retry_sent_copy actor b level active session_hash w.job.row)).job
      (ground arith) (ground arith)

module _ (sha256 : Text → Text) where
  reconcile-Moves :
      (w : World) (f : Findings)
      → Holds w
      → Moves (delivery w.job) (delivery (step sha256 w (reconciles f)).job)
  unfolding step
  reconcile-Moves w f h =
      same w.job (step sha256 w (reconciles f)).job
        (ground (arith, h, reconcile-smtp (find_draft sha256 w.job.row f) w.job.row)) (ground arith)

  proceed_with-Moves :
      (w : World) (k : Option Worker) (a : Answer)
      → w.job.worker ≡ k
      → Holds w
      → Moves (delivery w.job) (delivery (proceed_with sha256 w k a).job)
  unfolding proceed_with Working
  proceed_with-Moves w none a e h = same w.job w.job refl refl
  proceed_with-Moves w (some k) a e h =
      proceed-Moves sha256 w.job k k.phase a (rw e at h.job.working) h.job

  step-Moves :
      (w : World) (e : Event) → Holds w → Moves (delivery w.job) (delivery (step sha256 w e).job)
  unfolding step claim
  step-Moves w (stages draft) h = stage-Moves w draft
  step-Moves w restarts h = restart-Moves w
  step-Moves w (reconciles f) h = reconcile-Moves w f h
  step-Moves w claims h = same w.job (step sha256 w claims).job (ground arith) (ground arith)
  step-Moves w (proceeds a) h = proceed_with-Moves w w.job.worker a refl h
  step-Moves w (retries actor b level active session_hash) h =
      retry-Moves w actor b level active session_hash

  run-Moves :
      (w : World) (events : List Event)
      → Holds w
      → delivery w.job ⟶* delivery (run sha256 w events).job
  unfolding run
  run-Moves w [] h = stays (delivery w.job)
  run-Moves w (e ∷ events) h =
      let rest : delivery (step sha256 w e).job ⟶* delivery (run sha256 w (e ∷ events)).job =
        run-Moves (step sha256 w e) events (step-Holds sha256 w e h) in
      elim (step-Moves w e h) [
        | inl same ↦ subst (λ d. d ⟶* delivery (run sha256 w (e ∷ events)).job) (sym same) rest
        | inr t ↦ goes t rest
      ]

  -- In every history of a submission that was reserved, whatever the servers and the database
  -- answer and wherever the process stops, its SMTP status follows the protocol of a delivery: it is
  -- `submitting` before SubmitSMTP is called, then at most one call returns, and then what it
  -- returned is reported, or `unknown`; and nothing after that changes it.
  pub run-delivery :
      (r : Submission) (events : List Event)
      → r.status ≡ preparing
      → r.smtp_status ≡ not_started
      → record { reported = not_started; returned = [] }
        ⟶* delivery (run sha256 (reserved r) events).job
  unfolding delivery
  run-delivery r events s e =
      subst (λ d. d ⟶* delivery (run sha256 (reserved r) events).job) (ground (arith, e))
        (run-Moves (reserved r) events (reserved-Holds r s e))
