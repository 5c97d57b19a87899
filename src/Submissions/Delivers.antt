-- ===== src/Submissions/Delivers.antt =====
-- A submission of internal/core/submissions.go on which nothing goes wrong.
use mailhearth.Common.{ℕ, ◌≡◌, List, [], ◌∷◌, none, some}
use mailhearth.Submissions.Row.{sent, accepted, saved, Locator}
use mailhearth.Submissions.Smtp.{Conversation}
use mailhearth.Submissions.Directory.{Directory}
use mailhearth.Submissions.Execute.{Checks, Job, fine, finds, transaction, session, found}
use mailhearth.Submissions.History.{Event, claims, proceeds}

-- What the worker meets when all goes well, from the claim of the row to the clean-up.
abbrev pub good_day : Checks → Directory → ℕ → Conversation → Locator → List Event
good_day c d now conversation locator =
    claims
    ∷ (proceeds (finds c)
        ∷ (proceeds (transaction d now)
            ∷ (proceeds (session conversation [])
                ∷ (proceeds fine
                    ∷ (proceeds (found none)
                        ∷ (proceeds (found (some locator))
                            ∷ (proceeds fine ∷ (proceeds fine ∷ []))))))))

-- Sent, with the place of the copy, and nothing left to do.
pub record Done (locator : Locator) (j : Job) : Type 0 where
  pub is_sent : j.row.status ≡ sent
  pub is_accepted_ : j.row.smtp_status ≡ accepted
  pub is_saved : j.row.sent_status ≡ saved
  pub is_there : j.row.sent_locator ≡ some locator
  pub no_error : j.row.error_code ≡ none
  pub is_clean : j.row.cleanup_error_code ≡ none
  pub nobody : j.worker ≡ none
  pub once : j.starts ≡ 1
