-- ===== src/Submissions/Once.antt =====
-- What holds of a submission between two events: how its row, its worker and the calls of SubmitSMTP
-- fit together (internal/core/submissions.go).
use mailhearth.Common.{
  ℕ, ◌≤◌, ◌≡◌, sym, ◌∙◌, codes, ◌⊎◌, ◌≢◌, List, [], ◌∷◌, Option, none, some, Text, arith, length,
  err, ok, Outcome,
}
use mailhearth.Submissions.Row.{
  is_queued, is_accepted, is_not_started, Status, preparing, queued, running, sent,
  sent_copy_failed, SmtpStatus, not_started, submitting, accepted, rejected, smtp_unknown,
  Submission, persist, Locator, is_running, is_smtp_unknown,
}
use mailhearth.Submissions.Execute.{
  Phase, checking, marking, calling, answered, cleaning, Worker, Answer, Job, claim, fail, checked,
  mark, record_answer, look_for_copy, copy, compare_copy, problem, found, database_error,
}
use mailhearth.Submissions.Reserve.{Envelope}
use mailhearth.Submissions.Directory.{Directory}

-- A row with the number of calls and their results.
pub record Told (status : Status) (smtp : SmtpStatus) (starts : ℕ) (sessions : List SmtpStatus)
    : Type 0 where
  pub once : starts ≤ 1
  pub within : length sessions ≤ starts
  pub not_begun : smtp ≡ not_started → starts ≡ 0
  pub begun : smtp ≢ not_started → starts ≡ 1
  pub delivered : smtp ≡ accepted → sessions ≡ accepted ∷ []
  pub refused : smtp ≡ rejected → sessions ≡ rejected ∷ []
  pub in_preparation : status ≡ preparing → smtp ≡ not_started
  pub in_queue : status ≡ queued → (smtp ≡ not_started) ⊎ (smtp ≡ accepted)
  pub over : status ≡ sent → smtp ≡ accepted
  pub without_copy : status ≡ sent_copy_failed → smtp ≡ accepted

-- A result of SubmitSMTP.
pub record Returned (s : SmtpStatus) (e : Option Text) : Type 0 where
  pub success : e ≡ none → s ≡ accepted
  pub failure : e ≢ none → (s ≡ rejected) ⊎ (s ≡ smtp_unknown)

-- What a worker at a point relies on: the row's status and SMTP status, the results of the calls, and
-- the SMTP status that the worker remembers.
unfoldable pub InPhase : Status → SmtpStatus → List SmtpStatus → SmtpStatus → Phase → Type 0
InPhase status smtp sessions known checking = (status ≡ running) × (smtp ≡ known)
InPhase status smtp sessions known (marking envelope) =
    (status ≡ running) × ((smtp ≡ not_started) × (known ≡ not_started))
InPhase status smtp sessions known calling =
    (status ≡ running) × ((smtp ≡ submitting) × (sessions ≡ []))
InPhase status smtp sessions known (answered s e) =
    (status ≡ running)
    × ((smtp ≡ submitting) × ((sessions ≡ s ∷ []) × ((known ≡ s) × Returned s e)))
InPhase status smtp sessions known cleaning = smtp ≡ accepted
InPhase status smtp sessions known _ = (status ≡ running) × ((smtp ≡ accepted) × (known ≡ accepted))

unfoldable pub Working : Submission → List SmtpStatus → Option Worker → Type 0
unfolding InPhase
Working r sessions none = Unit {0}
Working r sessions (some w) = InPhase r.status r.smtp_status sessions w.smtp_status w.phase

pub record Fits (j : Job) : Type 0 where
  pub told : Told j.row.status j.row.smtp_status j.starts j.sessions
  pub working : Working j.row j.sessions j.worker

-- A worker that returns after `fail`.
pub fail-Fits :
    (j : Job) (w : Worker) (code : Text)
    → j.row.smtp_status ≡ w.smtp_status
    → Fits j
    → Fits (record j { row = fail w code j.row; worker = none })
unfolding fail Working is_accepted persist
fail-Fits j w code e f = ground (arith, f, e)

pub claim-Fits : (j : Job) → Fits j → Fits (claim j)
unfolding claim is_queued Working InPhase
claim-Fits j f = ground (arith, f)

pub checked-Fits :
    (j : Job) (w : Worker) (o : Outcome Text Envelope)
    → j.row.status ≡ running
    → j.row.smtp_status ≡ w.smtp_status
    → Fits j
    → Fits (checked j w o)
unfolding checked is_accepted is_not_started Working InPhase
checked-Fits j w (err code) s e f = fail-Fits j w code e f
checked-Fits j w (ok envelope) s e f = ground (arith, f, e, s, fail-Fits j w)

pub mark-Fits :
    (j : Job) (w : Worker) (envelope : Envelope) (d : Directory) (now : ℕ)
    → j.row.status ≡ running
    → j.row.smtp_status ≡ not_started
    → w.smtp_status ≡ not_started
    → Fits j
    → Fits (mark j w envelope d now)
unfolding mark is_running is_not_started Working InPhase
mark-Fits j w envelope d now s e k f = ground (
  arith,
  f,
  s,
  e,
  k,
  fail-Fits j w (codes "submission_not_retryable"),
  fail-Fits j w (codes "revision_conflict"),
)

pub record_answer-Fits :
    (j : Job) (w : Worker) (s : SmtpStatus) (e : Option Text)
    → InPhase j.row.status j.row.smtp_status j.sessions w.smtp_status (answered s e)
    → Fits j
    → Fits (record_answer j w s e)
unfolding record_answer is_smtp_unknown persist Working InPhase
record_answer-Fits j w s none p f = ground (arith, f, p)
record_answer-Fits j w s (some code) p f = ground (arith, f, p)

-- The row in the phases after the message was accepted.
abbrev pub Accepted : Job → Worker → Type 0
Accepted j w =
    (j.row.status ≡ running) × ((j.row.smtp_status ≡ accepted) × (w.smtp_status ≡ accepted))

look_for_copy-Fits :
    (j : Job) (w : Worker) (a : Answer) → Accepted j w → Fits j → Fits (look_for_copy j w a)
unfolding look_for_copy persist Working InPhase
look_for_copy-Fits j w (problem code) p f = fail-Fits j w code (p.1.0 ∙ sym p.1.1) f
look_for_copy-Fits j w (found (some locator)) p f = ground (arith, f, p)
look_for_copy-Fits j w (found none) p f = ground (arith, f, p)
look_for_copy-Fits j w database_error p f = ground (arith, f, p)
look_for_copy-Fits j w _ p f = f

pub copy-Fits : (j : Job) (w : Worker) (a : Answer) → Accepted j w → Fits j → Fits (copy j w a)
unfolding copy persist Working InPhase
copy-Fits j w a p f =
    ground (arith, f, p, look_for_copy-Fits j w a, fail-Fits j w (codes "folder_mapping_required"))

pub compare_copy-Fits :
    (sha256 : Text → Text) (j : Job) (w : Worker) (locator : Locator) (raw : Text)
    → Accepted j w
    → Fits j
    → Fits (compare_copy sha256 j w locator raw)
unfolding compare_copy Working InPhase
compare_copy-Fits sha256 j w locator raw p f =
    ground (arith, f, p, fail-Fits j w (codes "submission_content_changed"))
