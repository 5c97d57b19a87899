-- ===== src/Submissions/Sessions.antt =====
-- What the result of `SubmitSMTP` (internal/mailproto/mailops/compose.go) says of the session.
use mailhearth.Common.{◌≡◌, refl, ◌↔◌, ◌≢◌, List, [], ◌∷◌, Option, none, some, Text, arith, All}
use mailhearth.Submissions.Row.{accepted}
use mailhearth.Submissions.Smtp.{
  Conversation, SmtpError, submit_smtp, smtp_failure_status, first_refusal, send_data,
}
use mailhearth.Submissions.Execute.{error_of}
use mailhearth.Submissions.Once.{Returned}

-- A session in which the server answered every command with success.
pub record Clean (c : Conversation) : Type 0 where
  pub someone : c.recipients ≢ []
  pub connected : c.connect ≡ none
  pub sender : c.mail ≡ none
  pub recipients : All (λ answer. answer ≡ none) c.recipients
  pub data_command : c.data_command ≡ none
  pub write : c.write ≡ none
  pub close : c.close ≡ none

first_refusal-All :
    (answers : List (Option SmtpError))
    → (first_refusal answers ≡ none) ↔ All (λ answer. answer ≡ none) answers
unfolding first_refusal
first_refusal-All [] = ((λ e. tt), (λ e. refl))
first_refusal-All (none ∷ answers) = ground (arith, first_refusal-All answers)
first_refusal-All (some e ∷ answers) = ground arith

-- SubmitSMTP reports `accepted` exactly for a session in which every command was answered with
-- success: the connection, the sender, at least one recipient and each of them, the DATA command, the text and its end.
pub submit_smtp-accepted : (c : Conversation) → ((submit_smtp c).0 ≡ accepted) ↔ Clean c
unfolding submit_smtp send_data smtp_failure_status
submit_smtp-accepted c = ground (arith, first_refusal-All c.recipients)

pub submit_smtp-Returned :
    (c : Conversation) (code : Text) → Returned (submit_smtp c).0 (error_of (submit_smtp c).1 code)
unfolding submit_smtp send_data error_of smtp_failure_status
submit_smtp-Returned c code = ground arith
