-- ===== src/Capabilities/Samples.antt =====
-- Tests of `ObjectCapabilities` (internal/core/capabilities.go) on one mailbox, and the theorem at it.
use mailhearth.Common.{
  ◌≡◌, refl, true, false, List, [], ◌∷◌, Option, none, some, Text, codes, text_eq, has_prefix,
  is_space, contains, ok, err,
}
use mailhearth.Access.{has_permission}
use mailhearth.Submissions.Directory.{send, equals_some}
use mailhearth.Capabilities.State.{
  purelymail, manual, ready, unverified, Capability, MailConnection, Mailbox, Actor, not_found,
}
use mailhearth.Capabilities.Compute.{
  initial, endpoint_of, with_endpoint, is_ready, extend_word, cut_at_spaces, full_words, fields,
  with_identity, with_vacation, by_protocol, api_state, is_unverified_key, for_migadu, at_migadu,
  at_provider, is_migadu, with_delivery, is_entered, with_mailbox, by_api, out_of_use, disable,
  object_capability, capabilities_for, object_capabilities,
}
use mailhearth.Capabilities.Allow.{
  capability_keys, actor_level, mail_permission, required_permission, permitted, may_read, may_send,
  may_manage, is_sieve_key, is_protocol_key, allows,
}
use mailhearth.Capabilities.Offered.{is_automatic, offered}

abbrev host : MailConnection
host = record {
  id = 9;
  provider_kind = purelymail;
  enabled = true;
  api_configured = true;
  api_passed = true;
}

abbrev ada : Actor
ada = record {
  id = 7;
  working = true;
  permissions = codes "addresses.manage" ∷ [];
  granted = some send;
}

abbrev box : Mailbox
box = record {
  connection_id = 9;
  is_shared = true;
  owner_member_id = none;
  in_use = true;
  by_api = true;
  present = true;
  imap = some ready;
  smtp = some ready;
  managesieve = some ready;
  allowed_identity = true;
  sieve = some (codes "fileinto vacation");
  credential_source = none;
}

-- The keys that are offered.
offered_keys : List Capability → List Text
offered_keys [] = []
offered_keys (c ∷ cs) =
    let rest = offered_keys cs in elim (offered c) [ true ↦ c.key ∷ rest | false ↦ rest ]

ask : MailConnection → Actor → Option Mailbox → List Text
unfolding object_capabilities capabilities_for capability_keys object_capability actor_level
    mail_permission required_permission permitted may_read may_send may_manage is_sieve_key
    is_protocol_key allows initial endpoint_of with_endpoint is_ready extend_word cut_at_spaces
    full_words fields with_identity with_vacation by_protocol api_state is_unverified_key for_migadu
    at_migadu at_provider is_migadu with_delivery is_entered with_mailbox by_api out_of_use disable
    has_permission has_prefix is_space contains text_eq equals_some offered is_automatic
    offered_keys
ask m a b = elim (object_capabilities m a b) [
  | ok cs ↦ offered_keys cs
  | err e ↦ codes "error" ∷ []
]

at_purelymail :
    ask host ada (some box)
    ≡ codes "address.alias"
      ∷ codes "address.forward"
      ∷ codes "address.catchall"
      ∷ codes "address.prefix"
      ∷ codes "mail.read"
      ∷ codes "mail.send"
      ∷ []
unfolding ask
at_purelymail = refl

owner :
    ask host
      (record ada { permissions = [] })
      (some (record box { owner_member_id = some 7; smtp = some unverified }))
    ≡ codes "mail.read" ∷ codes "rules.manage" ∷ codes "vacation.manage" ∷ []
unfolding ask
owner = refl

at_no_provider :
    ask (record host { provider_kind = manual }) ada (some box)
    ≡ codes "mail.read" ∷ codes "mail.send" ∷ []
unfolding ask
at_no_provider = refl

switched_off : ask (record host { enabled = false }) ada (some box) ≡ []
unfolding ask
switched_off = refl

other_connection : object_capabilities (record host { id = 8 }) ada (some box) ≡ err not_found
unfolding object_capabilities
other_connection = refl

-- The answers for the member and the mailbox.
known : List Capability
unfolding ask
known = elim (object_capabilities host ada (some box)) [ ok cs ↦ cs | err e ↦ [] ]
