-- ===== src/Submissions/Histories.antt =====
-- The submission in every history of internal/core/submissions.go.
use mailhearth.Common.{
  ℕ, ◌≡◌, refl, sym, ◌∙◌, Bool, true, List, [], ◌∷◌, Option, none, some, Text, arith, Outcome,
}
use mailhearth.Submissions.Row.{
  preparing, unknown, SmtpStatus, not_started, accepted, Submission, persist, saved, is_queued,
  is_preparing, is_running, is_submitting, is_accepted, is_not_started, is_unknown, is_copy_failed,
  sent, Locator,
}
use mailhearth.Submissions.Directory.{Mailbox, Level, can_send, can_delete}
use mailhearth.Submissions.Reserve.{complete_submission_staging}
use mailhearth.Submissions.Execute.{
  Phase, checking, marking, calling, answered, copying, appending, found_copy, storing, cleaning,
  Worker, Answer, Job, proceed, claim, call, clean, check, goes_on, at, fine, problem,
  database_error, finds, transaction, session, found, reads,
}
use mailhearth.Submissions.History.{
  World, Event, stages, restarts, reconciles, claims, proceeds, retries, restart, reconcile_staging,
  find_draft, retry_sent_copy, after, proceed_with, step, run, reserved, interrupt_running,
  interrupt_copy, interrupt_submitting, is_interrupted,
}
use mailhearth.Submissions.Once.{
  Fits, Working, InPhase, Returned, fail-Fits, claim-Fits, checked-Fits, mark-Fits,
  record_answer-Fits, copy-Fits, compare_copy-Fits, Accepted,
}
use mailhearth.Submissions.Sessions.{submit_smtp-Returned}

pub record Holds (w : World) : Type 0 where
  pub job : Fits w.job
  pub in_doubt : w.reconciling ≡ true → w.job.row.status ≡ unknown
  pub not_begun : w.reconciling ≡ true → w.job.row.smtp_status ≡ not_started
  pub nobody : w.reconciling ≡ true → w.job.worker ≡ none

call-Fits :
    (j : Job) (k : Worker) (s : SmtpStatus) (e : Option Text)
    → InPhase j.row.status j.row.smtp_status j.sessions k.smtp_status calling
    → Returned s e
    → Fits j
    → Fits (call j k s e)
unfolding call Working InPhase
call-Fits j k s e p r f = ground (arith, f, p, r)

returns-Fits : (j : Job) → Fits j → Fits (record j { worker = none })
unfolding Working InPhase
returns-Fits j f = ground (arith, f)

clean-Fits : (j : Job) (code : Option Text) → Fits j → Fits (clean j code)
unfolding clean Working InPhase
clean-Fits j code f = ground (arith, f)

to_store-Fits :
    (j : Job) (k : Worker) (locator : Locator)
    → Accepted j k
    → Fits j
    → Fits (goes_on j j.row (at k (storing locator)))
unfolding Working InPhase
to_store-Fits j k locator p f = ground (arith, f, p)

stored-Fits :
    (j : Job) (k : Worker) (locator : Locator)
    → Accepted j k
    → Fits j
    → Fits (goes_on j (persist sent accepted saved none (some locator) j.row) (at k cleaning))
unfolding persist Working InPhase
stored-Fits j k locator p f = ground (arith, f, p)

module _ (sha256 : Text → Text) where
  proceed-Fits :
      (j : Job) (k : Worker) (phase : Phase) (a : Answer)
      → InPhase j.row.status j.row.smtp_status j.sessions k.smtp_status phase
      → Fits j
      → Fits (proceed sha256 j k phase a)
  unfolding proceed InPhase
  proceed-Fits j k checking (finds c) p f = checked-Fits j k (check sha256 k.work c) p.0 p.1 f
  proceed-Fits j k (marking envelope) (transaction d now) p f =
      mark-Fits j k envelope d now p.0 p.1.0 p.1.1 f
  proceed-Fits j k (marking envelope) (problem code) p f = fail-Fits j k code (p.1.0 ∙ sym p.1.1) f
  proceed-Fits j k calling (session c code) p f =
      call-Fits j k _ _ p (submit_smtp-Returned c code) f
  proceed-Fits j k (answered s e) fine p f = record_answer-Fits j k s e p f
  proceed-Fits j k copying a p f = copy-Fits j k a p f
  proceed-Fits j k (found_copy locator) (problem code) p f =
      fail-Fits j k code (p.1.0 ∙ sym p.1.1) f
  proceed-Fits j k (found_copy locator) (reads raw) p f =
      compare_copy-Fits sha256 j k locator raw p f
  proceed-Fits j k appending (found (some locator)) p f = to_store-Fits j k locator p f
  proceed-Fits j k appending (problem code) p f = fail-Fits j k code (p.1.0 ∙ sym p.1.1) f
  proceed-Fits j k (storing locator) fine p f = stored-Fits j k locator p f
  proceed-Fits j k cleaning fine p f = clean-Fits j none f
  proceed-Fits j k cleaning (problem code) p f = clean-Fits j (some code) f
  proceed-Fits j k checking database_error p f = returns-Fits j f
  proceed-Fits j k (marking envelope) database_error p f = returns-Fits j f
  proceed-Fits j k (answered s e) database_error p f = returns-Fits j f
  proceed-Fits j k (found_copy locator) database_error p f = returns-Fits j f
  proceed-Fits j k appending database_error p f = returns-Fits j f
  proceed-Fits j k (storing locator) database_error p f = returns-Fits j f
  proceed-Fits j k cleaning database_error p f = returns-Fits j f
  proceed-Fits j k phase a p f = f

staged-Holds :
    (w : World) (draft : Option Locator)
    → Holds w
    → Holds (after w (complete_submission_staging draft w.job.row))
unfolding complete_submission_staging is_preparing Working InPhase
staged-Holds w draft h = ground (arith, h)

restart-Holds : (w : World) → Holds w → Holds (restart w)
unfolding restart interrupt_running interrupt_copy interrupt_submitting is_preparing is_submitting
    is_accepted is_running is_interrupted Working
restart-Holds w h = ground (arith, h)

reconciled-Fits :
    (w : World) (o : Outcome Text Locator)
    → Holds w
    → w.reconciling ≡ true
    → Fits (record w.job { row = reconcile_staging o w.job.row })
unfolding reconcile_staging is_not_started is_unknown persist Working
reconciled-Fits w o h e = ground (arith, h, e)

retried-Holds :
    (w : World) (actor : ℕ) (b : Mailbox) (level : Level) (active : Bool) (session_hash : Text)
    → Holds w
    → Holds (after w (retry_sent_copy actor b level active session_hash w.job.row))
unfolding retry_sent_copy is_accepted is_copy_failed can_send can_delete Working InPhase
retried-Holds w actor b level active session_hash h = ground (arith, h)

claimed-Holds : (w : World) → Holds w → Holds (record w { job = claim w.job })
unfolding claim is_queued
claimed-Holds w h = ground (arith, h, claim-Fits w.job)

proceeded-Holds :
    (sha256 : Text → Text) (w : World) (k : Option Worker) (a : Answer)
    → w.job.worker ≡ k
    → Holds w
    → Holds (proceed_with sha256 w k a)
unfolding proceed_with Working
proceeded-Holds sha256 w none a e h = h
proceeded-Holds sha256 w (some k) a e h =
    let working : InPhase w.job.row.status w.job.row.smtp_status w.job.sessions k.smtp_status
        k.phase =
      rw e at h.job.working in
    record {
      job = proceed-Fits sha256 w.job k k.phase a working h.job;
      in_doubt = ground (arith, h, e);
      not_begun = ground (arith, h, e);
      nobody = ground (arith, h, e);
    }

module _ (sha256 : Text → Text) where
  pub step-Holds : (w : World) (e : Event) → Holds w → Holds (step sha256 w e)
  unfolding step
  step-Holds w (stages draft) h = staged-Holds w draft h
  step-Holds w restarts h = restart-Holds w h
  step-Holds w (reconciles f) h =
      ground (arith, h, reconciled-Fits w (find_draft sha256 w.job.row f) h)
  step-Holds w claims h = claimed-Holds w h
  step-Holds w (proceeds a) h = proceeded-Holds sha256 w w.job.worker a refl h
  step-Holds w (retries actor b level active session_hash) h =
      retried-Holds w actor b level active session_hash h

  pub run-Holds : (w : World) (events : List Event) → Holds w → Holds (run sha256 w events)
  unfolding run
  run-Holds w [] h = h
  run-Holds w (e ∷ events) h = run-Holds (step sha256 w e) events (step-Holds w e h)

pub reserved-Holds :
    (r : Submission) → r.status ≡ preparing → r.smtp_status ≡ not_started → Holds (reserved r)
unfolding Working
reserved-Holds r s e = ground (arith, s, e)
