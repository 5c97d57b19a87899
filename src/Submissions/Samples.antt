-- ===== src/Submissions/Samples.antt =====
-- Tests of the submissions of internal/core/submissions.go on one message, and the theorems at its
-- data.
use mailhearth.Common.{
  ℕ, ◌≡◌, ◌≢◌, ◌≤◌, refl, inl, ◌↔◌, true, false, List, [], ◌∷◌, ◌++◌, none, some, Text, codes,
  arith, length, err, ok, find_if, text_eq,
}
use mailhearth.Access.Store.{find_member, is_active}
use mailhearth.Submissions.Row.{
  Result, queued, running, sent, not_started, accepted, rejected, smtp_unknown, no_copy, is_queued,
  is_preparing, is_running, is_not_started, is_accepted, is_submitting, is_smtp_unknown, is_saving,
  is_copy_unknown, is_copy_failed, is_unknown, persist, coalesce, idempotency_conflict,
}
use mailhearth.Submissions.Smtp.{submit_smtp, smtp_failure_status, first_refusal, send_data}
use mailhearth.Submissions.Directory.{
  Directory, full, send, check_mailbox_access, level_of, can_send, can_delete, equals_some,
  is_active_mailbox, is_allowed, is_smtp,
}
use mailhearth.Submissions.Permit.{
  may_submit, may_reserve, any_if, mailbox_fits, open_endpoint_fits, endpoint_fits, credential_fits,
  connection_fits, identity_fits, member_fits, session_fits, grant_fits,
}
use mailhearth.Submissions.Reserve.{
  Envelope, Input, View, is_empty, has_folder, reserve_submission, smtp_fits, mode_fits,
  sent_copy_mode_of, headers_fit, submission_by_request, is_request, prior, reserve_new, reserve_in,
  insert_submission, insert, collides, new_submission, reserve_claim, complete_submission_staging,
}
use mailhearth.Submissions.Execute.{
  Worker, marking, claim, check, checked, mark, submit_claim, call, error_of, record_answer, copy,
  look_for_copy, compare_copy, clean, proceed, fail, is_some, fine, finds, transaction, session,
  found, reads,
}
use mailhearth.Submissions.History.{
  World, Event, stages, restarts, reconciles, claims, proceeds, retries, restart,
  interrupt_submitting, interrupt_copy, interrupted_copy, interrupt_running, is_interrupted,
  reconcile_staging, find_draft, or_code, retry_sent_copy, proceed_with, step, run, reserved,
}
use mailhearth.Submissions.Sessions.{Clean, submit_smtp-accepted}
use mailhearth.Submissions.Protocol.{◌⟶*◌, delivery}
use mailhearth.Submissions.Refine.{run-delivery}
use mailhearth.Submissions.AtMostOnce.{run-once, run-sent}
use mailhearth.Submissions.Entitled.{Entitled}
use mailhearth.Submissions.Authority.{step-Entitled}
use mailhearth.Submissions.Requests.{Later, Reply}
use mailhearth.Submissions.Repeats.{reserve_submission-once}
use mailhearth.Submissions.Dispatch.{
  dispatch, is_active_for, take_turns, scans, ends, Room, take_turns-Room,
}
use mailhearth.Submissions.Delivers.{good_day}
use mailhearth.Submissions.Letter.{
  box, tables, envelope, input, some_text, sealed, digest, letter, before, after, draft, copy_place,
  checks, good, refused, lost,
}

reserve : View → View → Input → Result Reply
unfolding reserve_submission smtp_fits is_empty mode_fits has_folder sent_copy_mode_of headers_fit
    submission_by_request check_mailbox_access find_member find_if is_active is_active_mailbox
    level_of equals_some is_request prior reserve_new can_send reserve_in insert_submission
    may_reserve reserve_claim any_if mailbox_fits endpoint_fits connection_fits identity_fits
    member_fits session_fits grant_fits is_smtp is_allowed insert collides new_submission text_eq
reserve v w i = reserve_submission some_text sealed digest v w 50 1 7 3 i

first_time : reserve before before input ≡ ok (codes "s1", (false, letter ∷ []))
unfolding reserve
first_time = refl

second_time :
    reserve after after (record input { id = codes "s2"; headers = some (codes "s2", codes "m1") })
    ≡ ok (codes "s1", (true, letter ∷ []))
unfolding reserve
second_time = refl

other_content :
    reserve before after (record input { request_digest = codes "d2" }) ≡ err idempotency_conflict
unfolding reserve
other_content = refl

history : World → List Event → World
unfolding run step complete_submission_staging is_preparing proceed_with proceed claim is_queued
    check is_some can_send can_delete checked is_accepted is_not_started is_running mark
    submit_claim may_submit any_if mailbox_fits open_endpoint_fits endpoint_fits credential_fits
    connection_fits identity_fits member_fits session_fits grant_fits is_smtp is_allowed is_active
    is_active_mailbox equals_some text_eq call submit_smtp first_refusal send_data
    smtp_failure_status error_of record_answer is_smtp_unknown persist coalesce copy has_folder
    is_empty look_for_copy compare_copy clean fail is_saving is_copy_unknown restart
    interrupt_submitting interrupt_copy interrupted_copy interrupt_running is_interrupted
    is_submitting reconcile_staging find_draft or_code is_unknown retry_sent_copy is_copy_failed
history w events = run digest w events

abbrev staged : List Event
staged = stages (some draft) ∷ []

-- The copy fails, the process is restarted, and the copy is tried again.
abbrev troubled : List Event
troubled =
    stages (some draft)
    ∷ (claims
        ∷ (proceeds (finds checks)
            ∷ (proceeds (transaction tables 50)
                ∷ (proceeds (session good [])
                    ∷ (proceeds fine
                        ∷ (proceeds (found none)
                            ∷ (restarts
                                ∷ (retries 7 box full true (codes "hash")
                                    ∷ (claims
                                        ∷ (proceeds (finds checks)
                                            ∷ (proceeds (found (some copy_place))
                                                ∷ (proceeds (reads (codes "Hello"))
                                                    ∷ (proceeds fine ∷ [])))))))))))))

sent_in_the_end : (history (reserved letter) troubled).job.row.status ≡ sent
unfolding history
sent_in_the_end = refl

copied_later :
    (history
      (reserved letter)
      (staged ++ good_day checks tables 50 good copy_place)).job.row.sent_locator
    ≡ some copy_place
unfolding history
copied_later = refl

-- A restart while the server has the message leaves it in doubt.
in_doubt :
    (history (reserved letter) (
      staged
      ++ (claims
          ∷ (proceeds (finds checks)
              ∷ (proceeds (transaction tables 50) ∷ (restarts ∷ [])))))).job.row.smtp_status
    ≡ smtp_unknown
unfolding history
in_doubt = refl

found_after_restart :
    (history (reserved letter) (
      restarts
      ∷ (reconciles (record {
        session = ok true;
        level = ok send;
        search = ok (some draft);
        message = ok (codes "Hello");
      })
          ∷ []))).job.row.status
    ≡ queued
unfolding history
found_after_restart = refl

answers_end :
    ((submit_smtp good).0 ≡ accepted)
    × ((submit_smtp refused).0 ≡ rejected)
    × ((submit_smtp lost).0 ≡ smtp_unknown)
unfolding submit_smtp first_refusal send_data smtp_failure_status
answers_end = (refl, refl, refl)

submit_smtp-accepted_example : ((submit_smtp refused).0 ≡ accepted) ↔ Clean refused
submit_smtp-accepted_example = submit_smtp-accepted refused

run-once_example :
    ((run digest (reserved letter) troubled).job.starts ≤ 1)
    × (length (run digest (reserved letter) troubled).job.sessions
        ≤ (run digest (reserved letter) troubled).job.starts)
run-once_example = run-once digest letter troubled refl refl

was_sent : (run digest (reserved letter) troubled).job.row.status ≡ sent
unfolding history
was_sent = sent_in_the_end

run-sent_example : (run digest (reserved letter) troubled).job.sessions ≡ accepted ∷ []
run-sent_example = run-sent digest letter troubled refl refl (inl was_sent)

run-delivery_example :
    record { reported = not_started; returned = [] }
    ⟶* delivery (run digest (reserved letter) troubled).job
run-delivery_example = run-delivery digest letter troubled refl refl

abbrev worker : Worker
worker = record {
  work = record letter { status = running };
  smtp_status = not_started;
  sent_status = no_copy;
  phase = marking envelope;
}

abbrev at_mark : World
at_mark = record {
  job = record {
    row = record letter { status = running };
    worker = some worker;
    starts = 0;
    sessions = [];
  };
  reconciling = false;
}

step_starts : (step digest at_mark (proceeds (transaction tables 50))).job.starts ≢ 0
unfolding history step
step_starts = λ e. absurd (ground (arith, e))

step-Entitled_example :
    (k : Worker) × (envelope : Envelope) × (d : Directory) × (now : ℕ) × (some worker ≡ some k)
    × (k.phase ≡ marking envelope)
    × (proceeds (transaction tables 50) ≡ proceeds (transaction d now))
    × Entitled d (submit_claim k.work envelope now)
step-Entitled_example = step-Entitled digest at_mark (proceeds (transaction tables 50)) step_starts

abbrev queued_world : World
queued_world = reserved (record letter { status = queued; draft = some draft })

abbrev again : Input
again = record input { id = codes "s2"; headers = some (codes "s2", codes "m1") }

unchanged : Later (letter ∷ []) (letter ∷ [])
unchanged = record {
  update = λ r. r;
  keeps = record {
    keeps_id = λ r. refl;
    keeps_org = λ r. refl;
    keeps_mailbox = λ r. refl;
    keeps_member = λ r. refl;
    keeps_request = λ r. refl;
    keeps_digest = λ r. refl;
  };
  added = [];
  are = refl;
}

abbrev known : Reply
known = (codes "s1", (true, letter ∷ []))

abbrev known_before : Reply
known_before = (codes "s1", (true, after.rows))

first_reservation :
    reserve_submission some_text sealed digest before before 50 1 7 3 input
    ≡ ok (codes "s1", (false, letter ∷ []))
unfolding reserve
first_reservation = first_time

second_reservation :
    reserve_submission some_text sealed digest after after 50 1 7 3 again ≡ ok known
unfolding reserve
second_reservation = second_time

reserve_submission-once_example :
    (known ≡ known_before) × (again.request_digest ≡ input.request_digest)
reserve_submission-once_example =
    reserve_submission-once some_text sealed digest 1 7 3 before before 50 input (codes "s1")
      (letter ∷ []) after after 50 again known first_reservation refl unchanged (inl unchanged)
      second_reservation

abbrev work : List (Text × ℕ)
work =
    (codes "a", 1)
    ∷ ((codes "b", 1)
        ∷ ((codes "c", 2) ∷ ((codes "d", 3) ∷ ((codes "e", 4) ∷ ((codes "f", 5) ∷ [])))))

four_at_a_time :
    dispatch [] [] work
    ≡ (4 ∷ (3 ∷ (2 ∷ (1 ∷ []))), codes "e" ∷ (codes "d" ∷ (codes "c" ∷ (codes "a" ∷ []))))
unfolding dispatch is_active_for
four_at_a_time = refl

take_turns-Room_example : Room (take_turns [] (scans work ∷ (ends 2 ∷ (scans work ∷ []))))
take_turns-Room_example = take_turns-Room (scans work ∷ (ends 2 ∷ (scans work ∷ [])))
