-- ===== src/Submissions/Letter.antt =====
-- One message of internal/core/submissions.go with its mailbox, for the tests.
use mailhearth.Common.{Bool, true, false, [], ◌∷◌, none, some, Text, codes, ok}
use mailhearth.Access.Store.{Member, active}
use mailhearth.Submissions.Row.{Submission, preparing, not_started, no_copy, append_copy, Locator}
use mailhearth.Submissions.Smtp.{Conversation, smtp_reply, broken}
use mailhearth.Submissions.Directory.{Directory, Mailbox, mailbox_active, full, smtp, allowed}
use mailhearth.Submissions.Reserve.{Envelope, Input, View}
use mailhearth.Submissions.Execute.{Checks}

abbrev pub ada : Member
ada = record { id = 7; org_id = 1; role_id = 2; status = active }

abbrev pub box : Mailbox
box = record {
  id = 3;
  org_id = 1;
  connection_id = 9;
  owner_member_id = some 7;
  status = mailbox_active;
  access_revision = 2;
}

abbrev pub tables : Directory
tables = record {
  members = ada ∷ [];
  sessions = record { member_id = 7; token_hash = codes "hash"; expires_at = 100 } ∷ [];
  mailboxes = box ∷ [];
  grants = [];
  connections = record { id = 9; org_id = 1; enabled = true; revision = 4 } ∷ [];
  endpoints =
      record {
        mailbox_id = 3;
        protocol = smtp;
        disabled = false;
        credential_id = some 8;
        revision = 5;
      }
      ∷ [];
  credentials =
      record { id = 8; connection_id = 9; mailbox_id = some 3; for_mail = true; current = true }
      ∷ [];
  identities =
      record {
        id = 6;
        mailbox_id = 3;
        address = codes "ada@a.org";
        authorization = allowed;
        revision = 1;
      }
      ∷ [];
}

abbrev pub envelope : Envelope
envelope = record {
  identity_id = 6;
  envelope_from = codes "ada@a.org";
  recipients = codes "bob@b.org" ∷ [];
  original_draft = none;
}

abbrev pub input : Input
input = record {
  id = codes "s1";
  request_id = codes "q1";
  request_digest = codes "d1";
  message_id = codes "m1";
  raw = codes "Hello";
  headers = some (codes "s1", codes "m1");
  envelope = envelope;
  session_hash = codes "hash";
  smtp =
      some (record { org_id = 1; mailbox_id = 3; connection_revision = 4; endpoint_revision = 5 });
  access_revision = 2;
  identity_revision = 1;
  sent_copy_mode = codes "append";
  staging_folder = codes "Drafts";
  sent_folder = some (codes "Sent");
}

abbrev pub some_text : Text → Bool
some_text [] = false
some_text (c ∷ s) = true

abbrev pub sealed : Envelope → Text
sealed e = e.envelope_from

abbrev pub digest : Text → Text
digest s = s

-- The row that the reservation inserts.
abbrev pub letter : Submission
letter = record {
  id = codes "s1";
  org_id = 1;
  mailbox_id = 3;
  member_id = 7;
  execution_member_id = 7;
  request_id = codes "q1";
  request_digest = codes "d1";
  session_hash = codes "hash";
  message_id = codes "m1";
  message_sha256 = codes "Hello";
  envelope_enc = codes "ada@a.org";
  status = preparing;
  smtp_status = not_started;
  sent_status = no_copy;
  sent_copy_mode = append_copy;
  draft = none;
  sent_locator = none;
  staging_folder = codes "Drafts";
  sent_folder = some (codes "Sent");
  smtp_endpoint_revision = 5;
  connection_revision = 4;
  access_revision = 2;
  identity_revision = 1;
  error_code = none;
  cleanup_error_code = none;
}

abbrev pub before : View
before = record { directory = tables; rows = [] }

abbrev pub after : View
after = record { directory = tables; rows = letter ∷ [] }

abbrev pub draft : Locator
draft = record { folder = codes "Drafts"; uid_validity = 1; uid = 11 }

abbrev pub copy_place : Locator
copy_place = record { folder = codes "Sent"; uid_validity = 1; uid = 12 }

abbrev pub checks : Checks
checks = record {
  session = ok true;
  mailbox = ok (full, 2);
  envelope = ok envelope;
  message = ok (codes "Hello");
}

-- A session in which all goes well, one whose end is refused and one whose end is lost.
abbrev pub good : Conversation
good = record {
  connect = none;
  mail = none;
  recipients = none ∷ [];
  data_command = none;
  write = none;
  close = none;
}

abbrev pub refused : Conversation
refused = record good { close = some (smtp_reply 554) }

abbrev pub lost : Conversation
lost = record good { write = some broken }
