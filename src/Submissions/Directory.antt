-- ===== src/Submissions/Directory.antt =====
-- The tables that say who may send from a mailbox, as far as internal/core/submissions.go and
-- `CheckMailboxAccess` of internal/core/mailboxes.go read them (internal/db/migrations/0001_init.sql).
use mailhearth.Common.{
  ℕ, Bool, true, false, ◌&&◌, List, Option, none, some, Text, ◌==◌, find_if, if◌then◌else◌, guard,
  ◌>>=◌, ◌>>◌, err, ok,
}
use mailhearth.Access.Store.{Member, find_member, is_active}
use mailhearth.Submissions.Row.{
  SubmissionError, Result, forbidden, not_found, invalid, endpoint_disabled,
}

pub data MailboxStatus : Type 0 where
  mailbox_active suspended archived : MailboxStatus

-- mailbox_access.level
pub data Level : Type 0 where
  full send read : Level

pub data Protocol : Type 0 where
  imap smtp managesieve : Protocol

pub data Authorization : Type 0 where
  allowed unverified denied : Authorization

pub record Mailbox : Type 0 where
  pub id : ℕ
  pub org_id : ℕ
  pub connection_id : ℕ
  pub owner_member_id : Option ℕ
  pub status : MailboxStatus
  pub access_revision : ℕ

pub record Grant : Type 0 where
  pub mailbox_id : ℕ
  pub member_id : ℕ
  pub level : Level

pub record Connection : Type 0 where
  pub id : ℕ
  pub org_id : ℕ
  pub enabled : Bool
  pub revision : ℕ

-- `disabled` is network_mode = 'disabled'.
pub record Endpoint : Type 0 where
  pub mailbox_id : ℕ
  pub protocol : Protocol
  pub disabled : Bool
  pub credential_id : Option ℕ
  pub revision : ℕ

-- `for_mail` is purpose = 'mail', `current` is state = 'active'.
pub record Credential : Type 0 where
  pub id : ℕ
  pub connection_id : ℕ
  pub mailbox_id : Option ℕ
  pub for_mail : Bool
  pub current : Bool

pub record Identity : Type 0 where
  pub id : ℕ
  pub mailbox_id : ℕ
  pub address : Text
  pub authorization : Authorization
  pub revision : ℕ

pub record Session : Type 0 where
  pub member_id : ℕ
  pub token_hash : Text
  pub expires_at : ℕ

pub record Directory : Type 0 where
  pub members : List Member
  pub sessions : List Session
  pub mailboxes : List Mailbox
  pub grants : List Grant
  pub connections : List Connection
  pub endpoints : List Endpoint
  pub credentials : List Credential
  pub identities : List Identity

unfoldable pub is_active_mailbox : MailboxStatus → Bool
is_active_mailbox mailbox_active = true
is_active_mailbox _ = false

unfoldable pub is_smtp : Protocol → Bool
is_smtp smtp = true
is_smtp _ = false

unfoldable pub is_allowed : Authorization → Bool
is_allowed allowed = true
is_allowed _ = false

-- level IN ('send','full'), CanSend
unfoldable pub can_send : Level → Bool
can_send full = true
can_send send = true
can_send read = false

-- CanDelete
unfoldable pub can_delete : Level → Bool
can_delete full = true
can_delete _ = false

-- A comparison with a column that may be NULL.
unfoldable pub equals_some : Option ℕ → ℕ → Bool
equals_some none n = false
equals_some (some m) n = m == n

abbrev or_fail {ℓ} : {A : Type ℓ} → Option A → SubmissionError → Result A
or_fail none e = err e
or_fail (some a) e = ok a

unfoldable pub level_of : Directory → ℕ → Mailbox → Option Level
unfolding find_if equals_some
level_of d member_id b =
    if equals_some b.owner_member_id member_id
    then some full
    else elim (find_if (λ g. (g.mailbox_id == b.id) && (g.member_id == member_id)) d.grants) [
      | none ↦ none
      | some g ↦ some g.level
    ]

unfoldable pub check_mailbox_access : Directory → ℕ → ℕ → ℕ → Result (Mailbox × Level)
unfolding find_member find_if is_active is_active_mailbox level_of
check_mailbox_access d org_id member_id mailbox_id = do
  m ← or_fail (find_member d.members org_id member_id) not_found
  guard (is_active m.status) forbidden
  b ← or_fail (find_if (λ b. (b.org_id == org_id) && (b.id == mailbox_id)) d.mailboxes) not_found
  level ← or_fail (level_of d member_id b) forbidden
  guard (is_active_mailbox b.status) invalid
  c ←
      or_fail (find_if (λ c. (c.id == b.connection_id) && (c.org_id == org_id)) d.connections)
        not_found
  guard c.enabled endpoint_disabled
  ok (b, level)
