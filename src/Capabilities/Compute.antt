-- ===== src/Capabilities/Compute.antt =====
-- `ObjectCapabilities` of internal/core/capabilities.go: one capability after the other, each by the
-- stages of the loop's body.
use mailhearth.Common.{
  ℕ, Bool, true, false, not, ◌&&◌, ◌||◌, List, [], ◌∷◌, Option, none, some, Text, codes, text_eq,
  ◌==◌, has_prefix, contains, is_space, if◌then◌else◌, Outcome, ok, err, guard, ◌>>=◌, ◌>>◌,
}
use mailhearth.Capabilities.State.{
  ProviderKind, migadu, manual, automatic, unsupported, external, Readiness, ready, unconfigured,
  unverified, disabled, Capability, MailConnection, Mailbox, Actor, CapabilityError, not_found,
  unreadable,
}
use mailhearth.Capabilities.Allow.{capability_keys, is, is_protocol_key, allows}

abbrev pub externally : Capability → Capability
externally c = record c { support = external; reason_code = codes "external_action_required" }

abbrev pub waits : Readiness → Text → Capability → Capability
waits r code c = record c { readiness = r; reason_code = code }

-- The capability before the protocol or the provider is looked at.
unfoldable pub initial : Actor → Option Mailbox → Text → Capability
unfolding allows text_eq
initial a b key =
    let c : Capability = record {
      key = key;
      support = automatic;
      readiness = ready;
      permission_allowed = allows a b key;
      reason_code = [];
      required_sieve_extensions =
          if is key (codes "vacation.manage") then codes "vacation" ∷ [] else [];
      same_domain_only = false;
      same_connection_only = false;
      allowed_delivery_modes = [];
    } in
    if is key (codes "remoteAccess.revokeAll") then externally c else c

unfoldable pub endpoint_of : Text → Mailbox → Option Readiness
unfolding text_eq
endpoint_of key b =
    if is key (codes "mail.read")
    then b.imap
    else if is key (codes "mail.send")
    then b.smtp
    else b.managesieve

-- The reason for an endpoint's readiness; `unconfigured` keeps the one that is there.
unfoldable pub with_endpoint : Capability → Option Readiness → Capability
with_endpoint c none = waits unconfigured (codes "endpoint_unconfigured") c
with_endpoint c (some ready) = waits ready [] c
with_endpoint c (some disabled) = waits disabled (codes "endpoint_disabled") c
with_endpoint c (some unverified) = waits unverified (codes "verification_required") c
with_endpoint c (some unconfigured) = waits unconfigured (codes "endpoint_unconfigured") c

unfoldable pub is_ready : Readiness → Bool
is_ready ready = true
is_ready _ = false

-- A character in front of the first word.
unfoldable pub extend_word : ℕ → List Text → List Text
extend_word c [] = (c ∷ []) ∷ []
extend_word c (w ∷ words) = (c ∷ w) ∷ words

-- The text cut at each space, and the words that are not empty: strings.Fields.
unfoldable pub cut_at_spaces : Text → List Text
unfolding is_space extend_word
cut_at_spaces [] = [] ∷ []
cut_at_spaces (c ∷ s) = if is_space c then [] ∷ cut_at_spaces s else extend_word c (cut_at_spaces s)

unfoldable pub full_words : List Text → List Text
full_words [] = []
full_words ([] ∷ words) = full_words words
full_words ((c ∷ w) ∷ words) = (c ∷ w) ∷ full_words words

unfoldable pub fields : Text → List Text
unfolding cut_at_spaces full_words
fields s = full_words (cut_at_spaces s)

-- mail.send needs an allowed identity, vacation.manage the extension.
unfoldable pub with_identity : Bool → Capability → Capability
unfolding text_eq is_ready
with_identity allowed c =
    if is c.key (codes "mail.send") && (is_ready c.readiness && not allowed)
    then waits unverified (codes "verification_required") c
    else c

unfoldable pub with_vacation : Option Text → Capability → Outcome CapabilityError Capability
unfolding text_eq is_ready fields contains
with_vacation sieve c =
    if is c.key (codes "vacation.manage") && is_ready c.readiness
    then elim sieve [
      | none ↦ err unreadable
      | some s ↦
          if contains (fields s) (codes "vacation")
          then ok c
          else ok
              (record c { support = unsupported; reason_code = codes "sieve_extension_missing" })
    ]
    else ok c

-- The branch for a protocol.
unfoldable pub by_protocol : Option Mailbox → Capability → Outcome CapabilityError Capability
unfolding with_endpoint endpoint_of with_identity with_vacation
by_protocol none c = ok (with_endpoint c none)
by_protocol (some b) c =
    with_vacation b.sieve (with_identity b.allowed_identity (with_endpoint c (endpoint_of c.key b)))

unfoldable pub api_state : MailConnection → Capability → Capability
api_state m c = elim m.provider_kind [
  | manual ↦ externally c
  | _ ↦
      if not m.api_configured
      then waits unconfigured (codes "endpoint_unconfigured") c
      else if not m.api_passed
      then waits unverified (codes "verification_required") c
      else c
]

-- The keys that nobody has verified at Migadu.
unfoldable pub is_unverified_key : Text → Bool
unfolding text_eq
is_unverified_key key =
    is key (codes "credential.create")
    || (is key (codes "credential.rotate")
        || (is key (codes "credential.revoke")
            || (is key (codes "address.alias")
                || (is key (codes "address.catchall")
                    || (is key (codes "address.prefix")
                        || (is key (codes "mailbox.forwarding")
                            || is key (codes "domain.checkDNS")))))))

unfoldable pub for_migadu : Capability → Capability
unfolding text_eq is_unverified_key
for_migadu c =
    if is c.key (codes "domain.delete")
    then externally c
    else if is c.key (codes "address.forward")
    then record c { support = unsupported; reason_code = codes "unsupported_operation" }
    else if is_unverified_key c.key
    then waits unverified (codes "verification_required") c
    else c

unfoldable pub at_migadu : Capability → Capability
unfolding for_migadu has_prefix
at_migadu c =
    if has_prefix c.key (codes "address.")
    then record (for_migadu c) { same_domain_only = true; same_connection_only = true }
    else for_migadu c

unfoldable pub at_provider : ProviderKind → Capability → Capability
unfolding at_migadu
at_provider migadu c = at_migadu c
at_provider _ c = c

unfoldable pub is_migadu : ProviderKind → Bool
is_migadu migadu = true
is_migadu _ = false

unfoldable pub with_delivery : ProviderKind → Capability → Capability
unfolding text_eq is_migadu
with_delivery kind c =
    if is c.key (codes "mailbox.forwarding")
    then record c { allowed_delivery_modes = if is_migadu kind then [] else codes "redirect" ∷ [] }
    else c

unfoldable pub is_entered : Option Text → Bool
unfolding text_eq
is_entered none = false
is_entered (some s) = text_eq s (codes "entered")

unfoldable pub with_mailbox : Option Mailbox → Capability → Capability
unfolding has_prefix is_entered
with_mailbox none c = c
with_mailbox (some b) c =
    let entered : Capability =
      if has_prefix c.key (codes "credential.") && is_entered b.credential_source
      then externally c
      else c in
    if not b.by_api
    then externally entered
    else if not b.present
    then waits unverified (codes "verification_required") entered
    else entered

-- The branch for the provider's interface.
unfoldable pub by_api : MailConnection → Option Mailbox → Capability → Capability
unfolding api_state at_provider with_delivery with_mailbox
by_api m b c =
    with_mailbox b (with_delivery m.provider_kind (at_provider m.provider_kind (api_state m c)))

unfoldable pub out_of_use : Option Mailbox → Bool
out_of_use none = false
out_of_use (some b) = not b.in_use

unfoldable pub disable : MailConnection → Option Mailbox → Capability → Capability
unfolding is_protocol_key out_of_use
disable m b c =
    if not m.enabled || (is_protocol_key c.key && out_of_use b)
    then waits disabled (codes "endpoint_disabled") c
    else c

unfoldable pub object_capability :
    MailConnection → Actor → Option Mailbox → Text → Outcome CapabilityError Capability
unfolding initial is_protocol_key by_protocol by_api text_eq disable
object_capability m a b key = do
  c ←
      if is_protocol_key key
      then by_protocol b (initial a b key)
      else if is key (codes "identity.authorize")
      then ok (initial a b key)
      else ok (by_api m b (initial a b key))
  ok (disable m b c)

unfoldable pub capabilities_for :
    MailConnection → Actor → Option Mailbox → List Text → Outcome CapabilityError (List Capability)
unfolding object_capability
capabilities_for m a b [] = ok []
capabilities_for m a b (key ∷ keys) = do
  c ← object_capability m a b key
  cs ← capabilities_for m a b keys
  ok (c ∷ cs)

-- A mailbox must be one of the connection.
unfoldable pub object_capabilities :
    MailConnection → Actor → Option Mailbox → Outcome CapabilityError (List Capability)
unfolding capabilities_for capability_keys
object_capabilities m a none = capabilities_for m a none capability_keys
object_capabilities m a (some b) = do
  guard (b.connection_id == m.id) not_found
  capabilities_for m a (some b) capability_keys
