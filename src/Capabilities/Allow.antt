-- ===== src/Capabilities/Allow.antt =====
-- The keys of `ObjectCapabilities` (internal/core/capabilities.go) and who is allowed what.
use mailhearth.Common.{
  Bool, true, false, not, ◌&&◌, ◌||◌, List, [], ◌∷◌, Option, none, some, Text, codes, text_eq,
  has_prefix, if◌then◌else◌,
}
use mailhearth.Access.{has_permission}
use mailhearth.Submissions.Directory.{Level, full, send, equals_some}
use mailhearth.Capabilities.State.{Mailbox, Actor}

unfoldable pub capability_keys : List Text
capability_keys =
    codes "domain.discover"
    ∷ codes "domain.create"
    ∷ codes "domain.delete"
    ∷ codes "domain.dnsRecords"
    ∷ codes "domain.checkDNS"
    ∷ codes "mailbox.create"
    ∷ codes "mailbox.delete"
    ∷ codes "mailbox.resetPassword"
    ∷ codes "credential.create"
    ∷ codes "credential.rotate"
    ∷ codes "credential.revoke"
    ∷ codes "remoteAccess.revokeAll"
    ∷ codes "address.alias"
    ∷ codes "address.forward"
    ∷ codes "address.catchall"
    ∷ codes "address.prefix"
    ∷ codes "mailbox.forwarding"
    ∷ codes "identity.authorize"
    ∷ codes "mail.read"
    ∷ codes "mail.send"
    ∷ codes "rules.manage"
    ∷ codes "vacation.manage"
    ∷ []

abbrev pub is : Text → Text → Bool
is key other = text_eq key other

-- The level of the member: full for the owner, else what was granted.
unfoldable pub actor_level : Actor → Option Mailbox → Option Level
unfolding equals_some
actor_level a none = none
actor_level a (some b) = if equals_some b.owner_member_id a.id then some full else a.granted

-- PermMailboxesManage, or PermSharedManage for a shared mailbox.
unfoldable pub mail_permission : Option Mailbox → Text
mail_permission none = codes "mailboxes.manage"
mail_permission (some b) = if b.is_shared then codes "shared.manage" else codes "mailboxes.manage"

unfoldable pub required_permission : Option Mailbox → Text → Text
unfolding has_prefix mail_permission text_eq
required_permission b key =
    if is key (codes "domain.discover")
    then codes "org.manage"
    else if has_prefix key (codes "domain.")
    then codes "domains.manage"
    else mail_permission b

-- The permissions for the keys that stand on permissions.
unfoldable pub permitted : Actor → Option Mailbox → Text → Bool
unfolding has_permission has_prefix required_permission text_eq
permitted a b key =
    a.working
    && (if has_prefix key (codes "address.")
        then has_permission a.permissions (codes "addresses.manage")
        else has_permission a.permissions (required_permission b key)
          && (not (is key (codes "mailbox.forwarding"))
              || has_permission a.permissions (codes "addresses.manage")))

unfoldable pub may_read : Option Level → Bool
may_read none = false
may_read (some l) = true

unfoldable pub may_send : Option Level → Bool
may_send (some full) = true
may_send (some send) = true
may_send _ = false

unfoldable pub may_manage : Option Level → Bool
may_manage (some full) = true
may_manage _ = false

-- The keys of rules and vacation.
unfoldable pub is_sieve_key : Text → Bool
unfolding text_eq
is_sieve_key key = is key (codes "rules.manage") || is key (codes "vacation.manage")

unfoldable pub is_protocol_key : Text → Bool
unfolding text_eq is_sieve_key
is_protocol_key key = is key (codes "mail.read") || (is key (codes "mail.send") || is_sieve_key key)

unfoldable pub allows : Actor → Option Mailbox → Text → Bool
unfolding text_eq actor_level may_read may_send may_manage is_sieve_key permitted
allows a b key =
    if is key (codes "mail.read")
    then a.working && may_read (actor_level a b)
    else if is key (codes "mail.send")
    then a.working && may_send (actor_level a b)
    else if is_sieve_key key
    then a.working && may_manage (actor_level a b)
    else permitted a b key
