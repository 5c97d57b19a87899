-- ===== src/Submissions/Row.antt =====
-- A row of the table submissions (internal/db/migrations/0001_init.sql) and the updates that
-- internal/core/submissions.go makes of it. Times are left out.
use mailhearth.Common.{ℕ, Bool, true, false, Option, none, some, Text, Outcome}

pub data Status : Type 0 where
  preparing queued running sent sent_copy_failed failed unknown : Status

-- `smtp_unknown` is "unknown".
pub data SmtpStatus : Type 0 where
  not_started submitting accepted rejected smtp_unknown : SmtpStatus

-- `no_copy` is "not_started", `copy_failed` is "failed", `copy_unknown` is "unknown".
pub data SentStatus : Type 0 where
  no_copy saving saved server_managed copy_failed copy_unknown : SentStatus

pub data SentCopyMode : Type 0 where
  append_copy server_copy : SentCopyMode

-- MessageLocator
pub record Locator : Type 0 where
  pub folder : Text
  pub uid_validity : ℕ
  pub uid : ℕ

pub record Submission : Type 0 where
  pub id : Text
  pub org_id : ℕ
  pub mailbox_id : ℕ
  pub member_id : ℕ
  pub execution_member_id : ℕ
  pub request_id : Text
  pub request_digest : Text
  pub session_hash : Text
  pub message_id : Text
  pub message_sha256 : Text
  pub envelope_enc : Text
  pub status : Status
  pub smtp_status : SmtpStatus
  pub sent_status : SentStatus
  pub sent_copy_mode : SentCopyMode
  pub draft : Option Locator
  pub sent_locator : Option Locator
  pub staging_folder : Text
  pub sent_folder : Option Text
  pub smtp_endpoint_revision : ℕ
  pub connection_revision : ℕ
  pub access_revision : ℕ
  pub identity_revision : ℕ
  pub error_code : Option Text
  pub cleanup_error_code : Option Text

pub data SubmissionError : Type 0 where
  invalid : SubmissionError
  folder_mapping_required : SubmissionError
  submission_content_changed : SubmissionError
  idempotency_conflict : SubmissionError
  forbidden : SubmissionError
  revision_conflict : SubmissionError
  constraint_failed : SubmissionError
  submission_not_retryable : SubmissionError
  not_found : SubmissionError
  endpoint_disabled : SubmissionError
  unreadable : SubmissionError

abbrev pub Result {ℓ} : Type ℓ → Type ℓ
Result A = Outcome SubmissionError A

unfoldable pub is_preparing : Status → Bool
is_preparing preparing = true
is_preparing _ = false

unfoldable pub is_queued : Status → Bool
is_queued queued = true
is_queued _ = false

unfoldable pub is_running : Status → Bool
is_running running = true
is_running _ = false

unfoldable pub is_unknown : Status → Bool
is_unknown unknown = true
is_unknown _ = false

unfoldable pub is_copy_failed : Status → Bool
is_copy_failed sent_copy_failed = true
is_copy_failed _ = false

unfoldable pub is_not_started : SmtpStatus → Bool
is_not_started not_started = true
is_not_started _ = false

unfoldable pub is_submitting : SmtpStatus → Bool
is_submitting submitting = true
is_submitting _ = false

unfoldable pub is_accepted : SmtpStatus → Bool
is_accepted accepted = true
is_accepted _ = false

unfoldable pub is_smtp_unknown : SmtpStatus → Bool
is_smtp_unknown smtp_unknown = true
is_smtp_unknown _ = false

unfoldable pub is_saving : SentStatus → Bool
is_saving saving = true
is_saving _ = false

unfoldable pub is_copy_unknown : SentStatus → Bool
is_copy_unknown copy_unknown = true
is_copy_unknown _ = false

-- COALESCE(?, old)
unfoldable pub coalesce {ℓ} : {A : Type ℓ} → Option A → Option A → Option A
coalesce none old = old
coalesce (some new) old = some new

-- persistSubmissionResult
unfoldable pub persist :
    Status → SmtpStatus → SentStatus → Option Text → Option Locator → Submission → Submission
persist status smtp_status sent_status code locator r = record r {
  status = status;
  smtp_status = smtp_status;
  sent_status = sent_status;
  error_code = code;
  sent_locator = coalesce locator r.sent_locator;
}
