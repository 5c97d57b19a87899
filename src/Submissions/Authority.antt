-- ===== src/Submissions/Authority.antt =====
-- When SubmitSMTP is called for a submission (internal/core/submissions.go).
use mailhearth.Common.{
  ℕ, ◌≡◌, ◌≢◌, refl, ap, ◌⊎◌, inl, inr, true, Option, none, some, Text, arith, Outcome, err, ok,
}
use mailhearth.Submissions.Row.{Submission, Locator, SmtpStatus, Result}
use mailhearth.Submissions.Directory.{Directory}
use mailhearth.Submissions.Permit.{may_submit}
use mailhearth.Submissions.Reserve.{Envelope}
use mailhearth.Submissions.Execute.{
  Phase, checking, marking, calling, answered, copying, appending, found_copy, storing, cleaning,
  Worker, Answer, Job, proceed, claim, call, clean, check, checked, mark, record_answer, copy,
  look_for_copy, compare_copy, submit_claim, fine, problem, finds, transaction, session, found,
  reads,
}
use mailhearth.Submissions.History.{
  World, Event, stages, restarts, reconciles, claims, proceeds, retries, restart, after,
  proceed_with, step,
}
use mailhearth.Submissions.Entitled.{Entitled, may_submit-Entitled}

-- The transaction with which a worker was let through.
Passed : Worker → Phase → Answer → Type 0
Passed k phase a =
    (envelope : Envelope) × (d : Directory) × (now : ℕ) × (phase ≡ marking envelope)
    × (a ≡ transaction d now)
    × (may_submit (submit_claim k.work envelope now) d ≡ true)

checked-starts :
    (j : Job) (w : Worker) (o : Outcome Text Envelope) → (checked j w o).starts ≡ j.starts
unfolding checked
checked-starts j w (err code) = refl
checked-starts j w (ok envelope) = ground arith

mark-starts :
    (j : Job) (w : Worker) (envelope : Envelope) (d : Directory) (now : ℕ)
    → ((mark j w envelope d now).starts ≡ j.starts)
      ⊎ (may_submit (submit_claim w.work envelope now) d ≡ true)
unfolding mark
mark-starts j w envelope d now = ground arith

record_answer-starts :
    (j : Job) (w : Worker) (s : SmtpStatus) (e : Option Text)
    → (record_answer j w s e).starts ≡ j.starts
unfolding record_answer
record_answer-starts j w s none = refl
record_answer-starts j w s (some code) = refl

copy-starts : (j : Job) (w : Worker) (a : Answer) → (copy j w a).starts ≡ j.starts
unfolding copy look_for_copy
copy-starts j w a = ground arith

compare_copy-starts :
    (sha256 : Text → Text) (j : Job) (w : Worker) (locator : Locator) (raw : Text)
    → (compare_copy sha256 j w locator raw).starts ≡ j.starts
unfolding compare_copy
compare_copy-starts sha256 j w locator raw = ground arith

module _ (sha256 : Text → Text) where
  proceed-starts :
      (j : Job) (k : Worker) (phase : Phase) (a : Answer)
      → ((proceed sha256 j k phase a).starts ≡ j.starts) ⊎ Passed k phase a
  unfolding proceed Passed clean call
  proceed-starts j k checking (finds c) = inl (checked-starts j k (check sha256 k.work c))
  proceed-starts j k (marking envelope) (transaction d now) =
      elim (mark-starts j k envelope d now) [
        | inl e ↦ inl e
        | inr e ↦ inr (envelope, d, now, refl, refl, e)
      ]
  proceed-starts j k calling (session c code) = inl refl
  proceed-starts j k (answered s e) fine = inl (record_answer-starts j k s e)
  proceed-starts j k copying a = inl (copy-starts j k a)
  proceed-starts j k (found_copy locator) (reads raw) =
      inl (compare_copy-starts sha256 j k locator raw)
  proceed-starts j k appending (found (some locator)) = inl refl
  proceed-starts j k (storing locator) fine = inl refl
  proceed-starts j k cleaning fine = inl refl
  proceed-starts j k cleaning (problem code) = inl refl
  proceed-starts j k phase a = inl refl

  proceed_with-starts :
      (w : World) (k : Option Worker) (a : Answer)
      → (proceed_with sha256 w k a).job.starts ≢ w.job.starts
      → (l : Worker) × (k ≡ some l) × Passed l l.phase a
  unfolding proceed_with
  proceed_with-starts w none a h = absurd (h refl)
  proceed_with-starts w (some k) a h = elim (proceed-starts w.job k k.phase a) [
    | inl e ↦ absurd (h e)
    | inr p ↦ (k, refl, p)
  ]

  after-starts : (w : World) (r : Result Submission) → (after w r).job.starts ≡ w.job.starts
  after-starts w r = ground arith

  -- SubmitSMTP is called for a submission only in the step in which a transaction has found, in the
  -- tables as they are then, that the member who executes it is active and has the session that the
  -- row names, which has not expired, may send from the mailbox, whose permissions have not changed
  -- since, and that the sender's address is an identity of the mailbox that is allowed.
  pub step-Entitled :
      (w : World) (e : Event)
      → (step sha256 w e).job.starts ≢ w.job.starts
      → (k : Worker) × (envelope : Envelope) × (d : Directory) × (now : ℕ) × (w.job.worker ≡ some k)
        × (k.phase ≡ marking envelope)
        × (e ≡ proceeds (transaction d now))
        × Entitled d (submit_claim k.work envelope now)
  unfolding step claim restart Passed
  step-Entitled w (stages draft) h = absurd (h (after-starts w _))
  step-Entitled w restarts h = absurd (h refl)
  step-Entitled w (reconciles f) h = absurd (h (ground arith))
  step-Entitled w claims h = absurd (h (ground arith))
  step-Entitled w (proceeds a) h =
      let (k, working, passed) = proceed_with-starts w w.job.worker a h in
      let (envelope, d, now, phase, answer, may) = passed in
      (
        k,
        envelope,
        d,
        now,
        working,
        phase,
        ap proceeds answer,
        may_submit-Entitled (submit_claim k.work envelope now) d may,
      )
  step-Entitled w (retries actor b level active session_hash) h = absurd (h (after-starts w _))
