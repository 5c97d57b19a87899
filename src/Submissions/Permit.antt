-- ===== src/Submissions/Permit.antt =====
-- The two queries of internal/core/submissions.go that decide, inside a transaction, whether a member
-- may still send from a mailbox as it was set up: in `ReserveSubmission` and in `markSMTPSubmitting`.
-- A join of rows exists if there is a row of each table that fits the others.
use mailhearth.Common.{ℕ, Bool, false, not, ◌&&◌, ◌||◌, List, [], ◌∷◌, Text, text_eq, ◌==◌, ltb}
use mailhearth.Access.Store.{Member, is_active}
use mailhearth.Submissions.Directory.{
  Directory, Mailbox, Connection, Endpoint, Credential, Identity, Session, Grant, is_active_mailbox,
  is_smtp, is_allowed, can_send, equals_some,
}

unfoldable pub any_if {ℓ} : {A : Type ℓ} → (A → Bool) → List A → Bool
any_if p [] = false
any_if p (x ∷ xs) = p x || any_if p xs

-- The arguments of the queries.
pub record Claim : Type 0 where
  pub org_id : ℕ
  pub member_id : ℕ
  pub mailbox_id : ℕ
  pub access_revision : ℕ
  pub connection_revision : ℕ
  pub endpoint_revision : ℕ
  pub identity_id : ℕ
  pub identity_revision : ℕ
  pub envelope_from : Text
  pub session_hash : Text
  pub now : ℕ

unfoldable pub session_fits : Claim → Session → Bool
session_fits q s =
    (s.member_id == q.member_id) && (text_eq s.token_hash q.session_hash && ltb q.now s.expires_at)

unfoldable pub member_fits : Claim → Directory → Mailbox → Member → Bool
unfolding is_active any_if session_fits
member_fits q d b m =
    (m.org_id == b.org_id)
    && ((m.id == q.member_id) && (is_active m.status && any_if (session_fits q) d.sessions))

unfoldable pub connection_fits : Claim → Mailbox → Connection → Bool
connection_fits q b c =
    (c.id == b.connection_id)
    && ((c.org_id == b.org_id) && (c.enabled && (c.revision == q.connection_revision)))

unfoldable pub identity_fits : Claim → Mailbox → Identity → Bool
unfolding is_allowed
identity_fits q b i =
    (i.mailbox_id == b.id)
    && ((i.id == q.identity_id)
        && ((i.revision == q.identity_revision)
            && (text_eq i.address q.envelope_from && is_allowed i.authorization)))

unfoldable pub grant_fits : Claim → Mailbox → Grant → Bool
unfolding can_send
grant_fits q b g = (g.mailbox_id == b.id) && ((g.member_id == q.member_id) && can_send g.level)

-- The endpoint in ReserveSubmission, and with its credential in markSMTPSubmitting.
unfoldable pub endpoint_fits : Claim → Mailbox → Endpoint → Bool
unfolding is_smtp
endpoint_fits q b e =
    (e.mailbox_id == b.id) && (is_smtp e.protocol && (e.revision == q.endpoint_revision))

unfoldable pub credential_fits : Mailbox → Endpoint → Credential → Bool
unfolding equals_some
credential_fits b e c =
    equals_some e.credential_id c.id
    && (equals_some c.mailbox_id b.id
        && ((c.connection_id == b.connection_id) && (c.for_mail && c.current)))

unfoldable pub open_endpoint_fits : Claim → Directory → Mailbox → Endpoint → Bool
unfolding endpoint_fits any_if credential_fits
open_endpoint_fits q d b e =
    endpoint_fits q b e && (not e.disabled && any_if (credential_fits b e) d.credentials)

unfoldable pub mailbox_fits : Claim → Directory → (Mailbox → Endpoint → Bool) → Mailbox → Bool
unfolding is_active_mailbox any_if connection_fits identity_fits member_fits equals_some grant_fits
mailbox_fits q d endpoint b =
    (b.id == q.mailbox_id)
    && ((b.org_id == q.org_id)
        && (is_active_mailbox b.status
            && ((b.access_revision == q.access_revision)
                && (any_if (connection_fits q b) d.connections
                    && (any_if (endpoint b) d.endpoints
                        && (any_if (identity_fits q b) d.identities
                            && (any_if (member_fits q d b) d.members
                                && (equals_some b.owner_member_id q.member_id
                                    || any_if (grant_fits q b) d.grants))))))))

unfoldable pub may_reserve : Claim → Directory → Bool
unfolding any_if mailbox_fits endpoint_fits
may_reserve q d = any_if (mailbox_fits q d (endpoint_fits q)) d.mailboxes

unfoldable pub may_submit : Claim → Directory → Bool
unfolding any_if mailbox_fits open_endpoint_fits
may_submit q d = any_if (mailbox_fits q d (open_endpoint_fits q d)) d.mailboxes
