-- ===== src/Submissions/AtMostOnce.antt =====
-- How often a submission of internal/core/submissions.go is handed to an SMTP server, and when it is
-- reported as sent.
use mailhearth.Common.{◌≤◌, ◌≡◌, ◌⊎◌, List, ◌∷◌, [], Text, arith, length}
use mailhearth.Submissions.Row.{
  preparing, sent, sent_copy_failed, not_started, accepted, Submission,
}
use mailhearth.Submissions.History.{Event, run, reserved}
use mailhearth.Submissions.Once.{Told}
use mailhearth.Submissions.Histories.{run-Holds, reserved-Holds}

module _ (sha256 : Text → Text) (r : Submission) (events : List Event) (s : r.status ≡ preparing)
    (e : r.smtp_status ≡ not_started) where
  told :
      Told
        (run sha256 (reserved r) events).job.row.status
        (run sha256 (reserved r) events).job.row.smtp_status
        (run sha256 (reserved r) events).job.starts
        (run sha256 (reserved r) events).job.sessions
  told = (run-Holds sha256 (reserved r) events (reserved-Holds r s e)).job.told

  -- In every history of a submission that was reserved, with restarts of the process, failures of
  -- the database and retries of the copy anywhere, SubmitSMTP is called at most once, and it
  -- returns at most as often as it is called.
  pub run-once :
      ((run sha256 (reserved r) events).job.starts ≤ 1)
      × (length (run sha256 (reserved r) events).job.sessions
          ≤ (run sha256 (reserved r) events).job.starts)
  run-once = (told.once, told.within)

  -- A submission whose row says that the message was sent, that only its copy failed, or that the
  -- server accepted it, was accepted by the server in the one call of SubmitSMTP that returned.
  pub run-sent :
      ((run sha256 (reserved r) events).job.row.status ≡ sent)
        ⊎ (((run sha256 (reserved r) events).job.row.status ≡ sent_copy_failed)
            ⊎ ((run sha256 (reserved r) events).job.row.smtp_status ≡ accepted))
      → (run sha256 (reserved r) events).job.sessions ≡ accepted ∷ []
  run-sent h = ground (arith, told, h)
