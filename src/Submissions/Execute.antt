-- ===== src/Submissions/Execute.antt =====
-- `executeSubmission`, `markSMTPSubmitting` and `cleanupSubmission` of internal/core/submissions.go.
-- A worker is at one of the points between two writes of the row; what the checks, the mail servers
-- and the database answer on the way to the next point is an argument.
use mailhearth.Common.{
  ℕ, ◌+◌, Bool, true, false, ◌&&◌, ◌||◌, List, ◌∷◌, Option, none, some, Text, codes, text_eq, ◌==◌,
  if◌then◌else◌, Outcome, err, ok, guard, ◌>>=◌, ◌>>◌,
}
use mailhearth.Submissions.Row.{
  running, sent, sent_copy_failed, failed, unknown, SmtpStatus, submitting, accepted, SentStatus,
  no_copy, saving, saved, server_managed, copy_failed, copy_unknown, append_copy, server_copy,
  Locator, Submission, is_queued, is_running, is_not_started, is_accepted, is_smtp_unknown,
  is_saving, is_copy_unknown, persist,
}
use mailhearth.Submissions.Directory.{Directory, Level, can_send, can_delete}
use mailhearth.Submissions.Permit.{Claim, may_submit}
use mailhearth.Submissions.Reserve.{Envelope, has_folder}
use mailhearth.Submissions.Smtp.{Conversation, SmtpError, submit_smtp}

-- What stands between two writes of the row.
pub data Phase : Type 0 where
  -- The checks up to the comparison of the digests.
  checking : Phase
  -- The checks of the endpoint, and the transaction that marks the row.
  marking : Envelope → Phase
  -- The call of SubmitSMTP, and what it returned.
  calling : Phase
  answered : SmtpStatus → Option Text → Phase
  -- The search for a copy in the Sent folder, the reading of a copy that was found, the append, and
  -- the write of where the copy is.
  copying appending : Phase
  found_copy storing : Locator → Phase
  -- The clean-up of drafts and flags.
  cleaning : Phase

-- The worker's variables: the row as it was read, with `w.SMTPStatus` and `w.SentStatus`.
pub record Worker : Type 0 where
  pub work : Submission
  pub smtp_status : SmtpStatus
  pub sent_status : SentStatus
  pub phase : Phase

-- What the checks find, each a value or the code of an error: whether the session is active, the
-- member's level with the access revision of the mailbox, the envelope, and the draft's content.
pub record Checks : Type 0 where
  pub session : Outcome Text Bool
  pub mailbox : Outcome Text (Level × ℕ)
  pub envelope : Outcome Text Envelope
  pub message : Outcome Text Text

pub data Answer : Type 0 where
  -- All went well.
  fine : Answer
  -- An error that `fail` or the clean-up records, by its code.
  problem : Text → Answer
  -- The database did not write the row, so the worker returns.
  database_error : Answer
  -- What the checks found.
  finds : Checks → Answer
  -- The tables and the time of the transaction that marks the row.
  transaction : Directory → ℕ → Answer
  -- The session of SubmitSMTP, and the code of the error that it returned, if any.
  session : Conversation → Text → Answer
  -- What a search for the message has found.
  found : Option Locator → Answer
  -- The content of a message.
  reads : Text → Answer

-- The closure `fail`.
unfoldable pub fail : Worker → Text → Submission → Submission
unfolding is_accepted is_saving is_copy_unknown persist
fail w code r =
    if is_accepted w.smtp_status
    then persist sent_copy_failed w.smtp_status
        (if is_saving w.sent_status || is_copy_unknown w.sent_status
          then copy_unknown
          else copy_failed)
        (some code) none r
    else persist failed w.smtp_status w.sent_status (some code) none r

-- One submission with the worker that executes it, if one does, how often SubmitSMTP was called for
-- it, and what the calls have returned, newest first.
pub record Job : Type 0 where
  pub row : Submission
  pub worker : Option Worker
  pub starts : ℕ
  pub sessions : List SmtpStatus

abbrev pub at : Worker → Phase → Worker
at w phase = record w { phase = phase }

-- The worker returns, with the row as it has written it.
abbrev pub returns : Job → Submission → Job
returns j r = record j { row = r; worker = none }

abbrev pub goes_on : Job → Submission → Worker → Job
goes_on j r w = record j { row = r; worker = some w }

-- The first lines of `executeSubmission`: the row is claimed and read.
unfoldable pub claim : Job → Job
unfolding is_queued
claim j =
    if is_queued j.row.status
    then goes_on j (record j.row { status = running })
        (record {
          work = record j.row { status = running };
          smtp_status = j.row.smtp_status;
          sent_status = j.row.sent_status;
          phase = checking;
        })
    else j

unfoldable pub is_some {ℓ} : {A : Type ℓ} → Option A → Bool
is_some none = false
is_some (some a) = true

-- The checks of the session, of the mailbox, of the envelope and of the draft, in their order.
unfoldable pub check : (Text → Text) → Submission → Checks → Outcome Text Envelope
unfolding can_send can_delete is_some
check sha256 r c = do
  active ← c.session
  guard active (codes "forbidden")
  mc ← c.mailbox
  guard (can_send mc.0 && ((r.execution_member_id == r.member_id) || can_delete mc.0))
      (codes "forbidden")
  guard (mc.1 == r.access_revision) (codes "revision_conflict")
  envelope ← c.envelope
  guard (is_some r.draft) (codes "staging_missing")
  raw ← c.message
  guard (text_eq (sha256 raw) r.message_sha256) (codes "submission_content_changed")
  ok envelope

-- What follows the checks.
unfoldable pub checked : Job → Worker → Outcome Text Envelope → Job
unfolding fail is_accepted is_not_started
checked j w (err code) = returns j (fail w code j.row)
checked j w (ok envelope) =
    if is_accepted w.smtp_status
    then goes_on j j.row (at w copying)
    else if is_not_started w.smtp_status
    then goes_on j j.row (at w (marking envelope))
    else returns j (fail w (codes "submission_unknown") j.row)

-- The arguments of the query of markSMTPSubmitting.
unfoldable pub submit_claim : Submission → Envelope → ℕ → Claim
submit_claim r envelope now = record {
  org_id = r.org_id;
  member_id = r.execution_member_id;
  mailbox_id = r.mailbox_id;
  access_revision = r.access_revision;
  connection_revision = r.connection_revision;
  endpoint_revision = r.smtp_endpoint_revision;
  identity_id = envelope.identity_id;
  identity_revision = r.identity_revision;
  envelope_from = envelope.envelope_from;
  session_hash = r.session_hash;
  now = now;
}

-- markSMTPSubmitting, and the call of SubmitSMTP that follows its success.
unfoldable pub mark : Job → Worker → Envelope → Directory → ℕ → Job
unfolding fail is_running is_not_started may_submit submit_claim
mark j w envelope d now =
    if may_submit (submit_claim w.work envelope now) d
    then (if is_running j.row.status && is_not_started j.row.smtp_status
        then record j {
          row = record j.row { smtp_status = submitting };
          worker = some (at w calling);
          starts = j.starts + 1;
        }
        else returns j (fail w (codes "submission_not_retryable") j.row))
    else returns j (fail w (codes "revision_conflict") j.row)

-- The code that is written for the error of SubmitSMTP.
unfoldable pub error_of : Option SmtpError → Text → Option Text
error_of none code = none
error_of (some e) code = some code

-- SubmitSMTP returns.
unfoldable pub call : Job → Worker → SmtpStatus → Option Text → Job
call j w s e = record j {
  worker = some (record w { smtp_status = s; phase = answered s e });
  sessions = s ∷ j.sessions;
}

-- The result of SubmitSMTP is written.
unfoldable pub record_answer : Job → Worker → SmtpStatus → Option Text → Job
unfolding persist is_smtp_unknown
record_answer j w s none =
    goes_on j (persist running accepted no_copy none none j.row) (at w copying)
record_answer j w s (some code) =
    returns j
      (persist (if is_smtp_unknown s then unknown else failed) s no_copy (some code) none j.row)

-- The copy is looked for in the Sent folder, if there is one.
unfoldable pub look_for_copy : Job → Worker → Answer → Job
unfolding fail persist
look_for_copy j w (problem code) = returns j (fail w code j.row)
look_for_copy j w (found (some locator)) = goes_on j j.row (at w (found_copy locator))
look_for_copy j w (found none) =
    goes_on j (persist running accepted saving none none j.row)
      (record w { sent_status = saving; phase = appending })
look_for_copy j w database_error = returns j j.row
look_for_copy j w _ = j

-- The copy is left to the server, or is looked for.
unfoldable pub copy : Job → Worker → Answer → Job
unfolding fail has_folder persist look_for_copy
copy j w database_error = returns j j.row
copy j w a = elim w.work.sent_copy_mode [
  | server_copy ↦ goes_on j (persist sent accepted server_managed none none j.row) (at w cleaning)
  | append_copy ↦
      if has_folder w.work.sent_folder
      then look_for_copy j w a
      else returns j (fail w (codes "folder_mapping_required") j.row)
]

-- A copy that was found is compared with what was sent.
unfoldable pub compare_copy : (Text → Text) → Job → Worker → Locator → Text → Job
unfolding fail
compare_copy sha256 j w locator raw =
    if text_eq (sha256 raw) w.work.message_sha256
    then goes_on j j.row (at w (storing locator))
    else returns j (fail w (codes "submission_content_changed") j.row)

-- The last statement of `cleanupSubmission`.
unfoldable pub clean : Job → Option Text → Job
clean j code = returns j (record j.row { cleanup_error_code = code })

-- The worker at its point, with an answer. An answer that does not fit changes nothing.
module _ (sha256 : Text → Text) where
  unfoldable pub proceed : Job → Worker → Phase → Answer → Job
  unfolding fail check checked mark submit_smtp error_of call record_answer copy compare_copy
      persist clean
  proceed j w checking (finds c) = checked j w (check sha256 w.work c)
  proceed j w (marking envelope) (transaction d now) = mark j w envelope d now
  proceed j w (marking envelope) (problem code) = returns j (fail w code j.row)
  proceed j w calling (session c code) =
      call j w (submit_smtp c).0 (error_of (submit_smtp c).1 code)
  proceed j w (answered s e) fine = record_answer j w s e
  proceed j w (answered s e) database_error = returns j j.row
  proceed j w copying a = copy j w a
  proceed j w (found_copy locator) (problem code) = returns j (fail w code j.row)
  proceed j w (found_copy locator) (reads raw) = compare_copy sha256 j w locator raw
  proceed j w appending (found (some locator)) = goes_on j j.row (at w (storing locator))
  proceed j w appending (problem code) = returns j (fail w code j.row)
  proceed j w (storing locator) fine =
      goes_on j (persist sent accepted saved none (some locator) j.row) (at w cleaning)
  proceed j w cleaning fine = clean j none
  proceed j w cleaning (problem code) = clean j (some code)
  proceed j w calling _ = j
  proceed j w _ database_error = returns j j.row
  proceed j w _ _ = j
