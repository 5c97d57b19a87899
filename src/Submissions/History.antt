-- ===== src/Submissions/History.antt =====
-- The histories of one submission: every order of the draft's storage, the worker's steps, restarts,
-- the check of the drafts after a restart and retries of the copy (`StartSubmissions`,
-- `reconcileStaging` and `RetrySubmissionSentCopy` of internal/core/submissions.go). An event that
-- fails or does not fit changes nothing.
use mailhearth.Common.{
  ℕ, Bool, true, false, ◌&&◌, ◌||◌, ◌==◌, List, [], ◌∷◌, Option, none, some, Text, codes, text_eq,
  if◌then◌else◌, Outcome, err, ok, guard, ◌>>=◌, ◌>>◌,
}
use mailhearth.Submissions.Row.{
  Status, preparing, queued, running, sent_copy_failed, unknown, not_started, smtp_unknown,
  SentStatus, no_copy, saving, copy_unknown, Locator, Submission, Result, forbidden,
  submission_not_retryable, is_preparing, is_running, is_unknown, is_copy_failed, is_not_started,
  is_submitting, is_accepted, persist,
}
use mailhearth.Submissions.Directory.{Mailbox, Level, can_send, can_delete}
use mailhearth.Submissions.Reserve.{complete_submission_staging}
use mailhearth.Submissions.Execute.{Worker, Answer, Job, claim, proceed}

-- The three updates of `StartSubmissions`, in their order.
unfoldable pub interrupt_submitting : Submission → Submission
unfolding is_submitting
interrupt_submitting r =
    if is_submitting r.smtp_status
    then record r {
      status = unknown;
      smtp_status = smtp_unknown;
      error_code = some (codes "process_interrupted");
    }
    else r

-- CASE WHEN sent_status='saving' THEN 'unknown' ELSE sent_status END
unfoldable pub interrupted_copy : SentStatus → SentStatus
interrupted_copy saving = copy_unknown
interrupted_copy s = s

unfoldable pub interrupt_copy : Submission → Submission
unfolding is_accepted is_running interrupted_copy
interrupt_copy r =
    if is_accepted r.smtp_status && is_running r.status
    then record r {
      status = sent_copy_failed;
      sent_status = interrupted_copy r.sent_status;
      error_code = some (codes "process_interrupted");
    }
    else r

-- WHERE status IN ('preparing','running')
unfoldable pub is_interrupted : Status → Bool
is_interrupted preparing = true
is_interrupted running = true
is_interrupted _ = false

unfoldable pub interrupt_running : Submission → Submission
unfolding is_interrupted
interrupt_running r =
    if is_interrupted r.status
    then record r { status = unknown; error_code = some (codes "process_interrupted") }
    else r

-- What `reconcileStaging` finds, each a value or the code of an error: whether the session is
-- active, the member's level, where the draft is, and its content.
pub record Findings : Type 0 where
  pub session : Outcome Text Bool
  pub level : Outcome Text Level
  pub search : Outcome Text (Option Locator)
  pub message : Outcome Text Text

unfoldable pub or_code {ℓ} : {A : Type ℓ} → Option A → Text → Outcome Text A
or_code none code = err code
or_code (some a) code = ok a

unfoldable pub find_draft : (Text → Text) → Submission → Findings → Outcome Text Locator
unfolding can_send or_code
find_draft sha256 r f = do
  active ← f.session
  guard active (codes "forbidden")
  level ← f.level
  guard (can_send level) (codes "forbidden")
  search ← f.search
  locator ← or_code search (codes "staging_missing")
  raw ← f.message
  guard (text_eq (sha256 raw) r.message_sha256) (codes "submission_content_changed")
  ok locator

unfoldable pub reconcile_staging : Outcome Text Locator → Submission → Submission
unfolding persist is_not_started is_unknown
reconcile_staging (err code) r = persist unknown not_started no_copy (some code) none r
reconcile_staging (ok locator) r =
    if is_not_started r.smtp_status && is_unknown r.status
    then record r { status = queued; draft = some locator; error_code = none }
    else r

-- RetrySubmissionSentCopy, after CheckMailboxAccess: the actor's mailbox and level, and whether the
-- actor's session is active.
unfoldable pub retry_sent_copy : ℕ → Mailbox → Level → Bool → Text → Submission → Result Submission
unfolding can_send can_delete is_accepted is_copy_failed
retry_sent_copy actor b level active session_hash r = do
  guard ((actor == r.member_id) || can_delete level) forbidden
  guard (can_send level) forbidden
  guard active forbidden
  guard (is_accepted r.smtp_status && is_copy_failed r.status) submission_not_retryable
  ok (record r {
    status = queued;
    execution_member_id = actor;
    session_hash = session_hash;
    access_revision = b.access_revision;
    error_code = none;
  })

-- `reconciling` says that the process found the submission in preparation when it started, and has
-- not yet looked for its draft.
pub record World : Type 0 where
  pub job : Job
  pub reconciling : Bool

pub data Event : Type 0 where
  stages : Option Locator → Event
  restarts : Event
  reconciles : Findings → Event
  claims : Event
  proceeds : Answer → Event
  retries : ℕ → Mailbox → Level → Bool → Text → Event

abbrev pub after : World → Result Submission → World
after w (ok r) = record w { job = record w.job { row = r } }
after w (err e) = w

unfoldable pub restart : World → World
unfolding interrupt_running interrupt_copy interrupt_submitting is_preparing
restart w = record {
  job = record w.job {
    row = interrupt_running (interrupt_copy (interrupt_submitting w.job.row));
    worker = none;
  };
  reconciling = is_preparing w.job.row.status;
}

module _ (sha256 : Text → Text) where
  unfoldable pub proceed_with : World → Option Worker → Answer → World
  unfolding proceed
  proceed_with w none a = w
  proceed_with w (some k) a = record w { job = proceed sha256 w.job k k.phase a }

  unfoldable pub step : World → Event → World
  unfolding complete_submission_staging restart find_draft reconcile_staging claim proceed_with
      retry_sent_copy
  step w (stages draft) = after w (complete_submission_staging draft w.job.row)
  step w restarts = restart w
  step w (reconciles f) =
      if w.reconciling
      then record {
        job = record w.job { row = reconcile_staging (find_draft sha256 w.job.row f) w.job.row };
        reconciling = false;
      }
      else w
  step w claims = record w { job = claim w.job }
  step w (proceeds a) = proceed_with w w.job.worker a
  step w (retries actor b level active session_hash) =
      after w (retry_sent_copy actor b level active session_hash w.job.row)

  unfoldable pub run : World → List Event → World
  unfolding step
  run w [] = w
  run w (e ∷ events) = run (step w e) events

-- A submission that was just reserved.
abbrev pub reserved : Submission → World
reserved r = record {
  job = record { row = r; worker = none; starts = 0; sessions = [] };
  reconciling = false;
}
