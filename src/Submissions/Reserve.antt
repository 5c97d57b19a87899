-- ===== src/Submissions/Reserve.antt =====
-- `SubmissionByRequest`, `ReserveSubmission` and `CompleteSubmissionStaging` of
-- internal/core/submissions.go. The first reads happen before the transaction, so that they may see
-- other tables than the transaction does.
use mailhearth.Common.{
  ℕ, Bool, true, false, not, ◌&&◌, ◌||◌, List, [], ◌∷◌, ◌++◌, Option, none, some, Text, codes,
  text_eq, ◌==◌, find_if, if◌then◌else◌, guard, ◌>>=◌, ◌>>◌, err, ok,
}
use mailhearth.Submissions.Row.{
  preparing, queued, unknown, not_started, no_copy, SentCopyMode, append_copy, server_copy, Locator,
  Submission, Result, invalid, folder_mapping_required, submission_content_changed,
  idempotency_conflict, forbidden, revision_conflict, constraint_failed, unreadable, is_preparing,
}
use mailhearth.Submissions.Directory.{Directory, can_send, check_mailbox_access}
use mailhearth.Submissions.Permit.{Claim, any_if, may_reserve}

-- SubmissionEnvelope, without the message that is answered.
pub record Envelope : Type 0 where
  pub identity_id : ℕ
  pub envelope_from : Text
  pub recipients : List Text
  pub original_draft : Option Locator

-- ResolvedEndpoint
pub record Smtp : Type 0 where
  pub org_id : ℕ
  pub mailbox_id : ℕ
  pub connection_revision : ℕ
  pub endpoint_revision : ℕ

-- ReserveSubmissionInput. `headers` is what the parser of net/mail reads in `raw`: the headers
-- X-Mailhearth-Submission-ID and Message-ID.
pub record Input : Type 0 where
  pub id : Text
  pub request_id : Text
  pub request_digest : Text
  pub message_id : Text
  pub raw : Text
  pub headers : Option (Text × Text)
  pub envelope : Envelope
  pub session_hash : Text
  pub smtp : Option Smtp
  pub access_revision : ℕ
  pub identity_revision : ℕ
  pub sent_copy_mode : Text
  pub staging_folder : Text
  pub sent_folder : Option Text

-- What a request reads before the transaction, or in it.
pub record View : Type 0 where
  pub directory : Directory
  pub rows : List Submission

unfoldable pub is_empty : Text → Bool
is_empty [] = true
is_empty (c ∷ s) = false

unfoldable pub sent_copy_mode_of : Text → Option SentCopyMode
sent_copy_mode_of mode =
    if text_eq mode (codes "append")
    then some append_copy
    else if text_eq mode (codes "server")
    then some server_copy
    else none

-- A folder that is given and has a name.
unfoldable pub has_folder : Option Text → Bool
unfolding is_empty
has_folder none = false
has_folder (some name) = not (is_empty name)

unfoldable pub smtp_fits : ℕ → ℕ → Option Smtp → Result Smtp
smtp_fits org_id mailbox_id none = err invalid
smtp_fits org_id mailbox_id (some s) =
    if (s.org_id == org_id) && (s.mailbox_id == mailbox_id) then ok s else err invalid

unfoldable pub mode_fits : Option SentCopyMode → Option Text → Result SentCopyMode
unfolding has_folder
mode_fits none folder = err invalid
mode_fits (some server_copy) folder = ok server_copy
mode_fits (some append_copy) folder =
    if has_folder folder then ok append_copy else err folder_mapping_required

unfoldable pub headers_fit : Input → Option (Text × Text) → Result (Unit {0})
headers_fit in_ none = err unreadable
headers_fit in_ (some (id, message_id)) =
    guard (text_eq id in_.id && text_eq message_id in_.message_id) submission_content_changed

unfoldable pub is_request : ℕ → ℕ → ℕ → Text → Submission → Bool
is_request org_id mailbox_id member_id request_id r =
    (r.org_id == org_id)
    && ((r.mailbox_id == mailbox_id)
        && ((r.member_id == member_id) && text_eq r.request_id request_id))

-- The reply to a request whose row is found: its id, if it asks for the same.
unfoldable pub prior : Option Submission → Text → Result (Option Text)
prior none digest = ok none
prior (some r) digest =
    if text_eq r.request_digest digest then ok (some r.id) else err idempotency_conflict

-- PRIMARY KEY(id), UNIQUE(mailbox_id, member_id, request_id)
unfoldable pub collides : Submission → Submission → Bool
collides new r =
    text_eq r.id new.id
    || ((r.mailbox_id == new.mailbox_id)
        && ((r.member_id == new.member_id) && text_eq r.request_id new.request_id))

unfoldable pub insert : Submission → List Submission → Result (List Submission)
unfolding any_if collides
insert new rows =
    if any_if (collides new) rows then err constraint_failed else ok (rows ++ new ∷ [])

-- The arguments of the query of ReserveSubmission.
unfoldable pub reserve_claim : ℕ → ℕ → ℕ → ℕ → Input → Smtp → Claim
reserve_claim now org_id member_id mailbox_id in_ smtp = record {
  org_id = org_id;
  member_id = member_id;
  mailbox_id = mailbox_id;
  access_revision = in_.access_revision;
  connection_revision = smtp.connection_revision;
  endpoint_revision = smtp.endpoint_revision;
  identity_id = in_.envelope.identity_id;
  identity_revision = in_.identity_revision;
  envelope_from = in_.envelope.envelope_from;
  session_hash = in_.session_hash;
  now = now;
}

-- `canonical` is the parser of github.com/google/uuid, `seal` is Box.Seal on the encoded envelope, and
-- `sha256` is MessageSHA256.
module _ (canonical : Text → Bool) (seal : Envelope → Text) (sha256 : Text → Text) where
  unfoldable pub submission_by_request : View → ℕ → ℕ → ℕ → Text → Text → Result (Option Text)
  unfolding check_mailbox_access find_if is_request prior
  submission_by_request v org_id member_id mailbox_id request_id digest = do
    guard (canonical request_id) invalid
    mc ← check_mailbox_access v.directory org_id member_id mailbox_id
    prior (find_if (is_request org_id mailbox_id member_id request_id) v.rows) digest

  unfoldable pub new_submission : ℕ → ℕ → ℕ → Input → Smtp → SentCopyMode → Submission
  new_submission org_id member_id mailbox_id in_ smtp mode = record {
    id = in_.id;
    org_id = org_id;
    mailbox_id = mailbox_id;
    member_id = member_id;
    execution_member_id = member_id;
    request_id = in_.request_id;
    request_digest = in_.request_digest;
    session_hash = in_.session_hash;
    message_id = in_.message_id;
    message_sha256 = sha256 in_.raw;
    envelope_enc = seal in_.envelope;
    status = preparing;
    smtp_status = not_started;
    sent_status = no_copy;
    sent_copy_mode = mode;
    draft = none;
    sent_locator = none;
    staging_folder = in_.staging_folder;
    sent_folder = in_.sent_folder;
    smtp_endpoint_revision = smtp.endpoint_revision;
    connection_revision = smtp.connection_revision;
    access_revision = in_.access_revision;
    identity_revision = in_.identity_revision;
    error_code = none;
    cleanup_error_code = none;
  }

  -- The transaction, after the row of the request was looked for.
  unfoldable pub insert_submission :
      View → ℕ → ℕ → ℕ → ℕ → Input → Smtp → SentCopyMode → Result (List Submission)
  unfolding may_reserve reserve_claim insert new_submission
  insert_submission v now org_id member_id mailbox_id in_ smtp mode = do
    guard (may_reserve (reserve_claim now org_id member_id mailbox_id in_ smtp) v.directory)
        revision_conflict
    insert (new_submission org_id member_id mailbox_id in_ smtp mode) v.rows

  -- The id of the row, whether it was there before, and the rows.
  unfoldable pub reserve_in :
      View
      → ℕ
      → ℕ
      → ℕ
      → ℕ
      → Input
      → Smtp
      → SentCopyMode
      → Option Text
      → Result (Text × (Bool × List Submission))
  unfolding insert_submission
  reserve_in v now org_id member_id mailbox_id in_ smtp mode (some id) = ok (id, (true, v.rows))
  reserve_in v now org_id member_id mailbox_id in_ smtp mode none = do
    rows ← insert_submission v now org_id member_id mailbox_id in_ smtp mode
    ok (in_.id, (false, rows))

  -- The checks before the transaction, and the transaction.
  unfoldable pub reserve_new :
      View
      → View
      → ℕ
      → ℕ
      → ℕ
      → ℕ
      → Input
      → Smtp
      → SentCopyMode
      → Result (Text × (Bool × List Submission))
  unfolding check_mailbox_access can_send prior find_if is_request reserve_in
  reserve_new before v now org_id member_id mailbox_id in_ smtp mode = do
    mc ← check_mailbox_access before.directory org_id member_id mailbox_id
    guard (can_send mc.1) forbidden
    found ←
        prior (find_if (is_request org_id mailbox_id member_id in_.request_id) v.rows)
          in_.request_digest
    reserve_in v now org_id member_id mailbox_id in_ smtp mode found

  unfoldable pub reserve_submission :
      View → View → ℕ → ℕ → ℕ → ℕ → Input → Result (Text × (Bool × List Submission))
  unfolding smtp_fits is_empty mode_fits sent_copy_mode_of headers_fit submission_by_request
      reserve_new
  reserve_submission before v now org_id member_id mailbox_id in_ = do
    smtp ← smtp_fits org_id mailbox_id in_.smtp
    guard (not (is_empty in_.staging_folder || (is_empty in_.request_digest || is_empty in_.raw)))
        invalid
    mode ← mode_fits (sent_copy_mode_of in_.sent_copy_mode) in_.sent_folder
    guard (canonical in_.id) invalid
    headers_fit in_ in_.headers
    found ←
        submission_by_request before org_id member_id mailbox_id in_.request_id in_.request_digest
    elim found [
      | some id ↦ ok (id, (true, v.rows))
      | none ↦ reserve_new before v now org_id member_id mailbox_id in_ smtp mode
    ]

-- CompleteSubmissionStaging: the draft of the message, unless it was not stored.
unfoldable pub complete_submission_staging : Option Locator → Submission → Result Submission
unfolding is_preparing
complete_submission_staging draft r = do
  guard (is_preparing r.status) revision_conflict
  elim draft [
    | none ↦
        ok
          (record r { status = unknown; error_code = some (codes "staging_unknown"); draft = none })
    | some locator ↦ ok (record r { status = queued; error_code = none; draft = some locator })
  ]
