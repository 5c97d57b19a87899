-- ===== src/Submissions/Smtp.antt =====
-- `SubmitSMTP` and `smtpFailureStatus` of internal/mailproto/mailops/compose.go. What the server
-- answers to each command is an argument; `none` is success.
use mailhearth.Common.{ℕ, ◌&&◌, List, [], ◌∷◌, Option, none, some, leb, ltb, if◌then◌else◌}
use mailhearth.Submissions.Row.{SmtpStatus, accepted, rejected, smtp_unknown}

-- An error of the SMTP client: a reply of the server with its code, or anything else.
pub data SmtpError : Type 0 where
  smtp_reply : ℕ → SmtpError
  no_recipients broken : SmtpError

pub record Conversation : Type 0 where
  pub connect : Option SmtpError
  pub mail : Option SmtpError
  -- The answers for the recipients, one for each.
  pub recipients : List (Option SmtpError)
  pub data_command : Option SmtpError
  pub write : Option SmtpError
  pub close : Option SmtpError

unfoldable pub smtp_failure_status : SmtpError → SmtpStatus
smtp_failure_status (smtp_reply code) =
    if leb 400 code && ltb code 600 then rejected else smtp_unknown
smtp_failure_status _ = smtp_unknown

-- The loop over the recipients: the first refusal ends the session.
unfoldable pub first_refusal : List (Option SmtpError) → Option SmtpError
first_refusal [] = none
first_refusal (none ∷ answers) = first_refusal answers
first_refusal (some e ∷ answers) = some e

-- The end of the session, from the DATA command on.
unfoldable pub send_data : Conversation → SmtpStatus × Option SmtpError
send_data c = elim c.data_command [
  | some e ↦ (smtp_failure_status e, some e)
  | none ↦ elim c.write [
    | some e ↦ (smtp_unknown, some e)
    | none ↦ elim c.close [ some e ↦ (smtp_failure_status e, some e) | none ↦ (accepted, none) ]
  ]
]

unfoldable pub submit_smtp : Conversation → SmtpStatus × Option SmtpError
unfolding first_refusal send_data
submit_smtp c = elim c.recipients [
  | [] ↦ (rejected, some no_recipients)
  | answer ∷ answers ↦ elim c.connect [
    | some e ↦ (rejected, some e)
    | none ↦ elim c.mail [
      | some e ↦ (rejected, some e)
      | none ↦ elim (first_refusal (answer ∷ answers)) [
        | some e ↦ (rejected, some e)
        | none ↦ send_data c
      ]
    ]
  ]
]
