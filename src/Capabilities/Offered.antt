-- ===== src/Capabilities/Offered.antt =====
-- When `ObjectCapabilities` (internal/core/capabilities.go) offers an action: that it can be done by
-- the program, is set up, and is allowed to the member.
use mailhearth.Common.{
  ◌≡◌, refl, ◌∙◌, inl, inr, Bool, true, false, not, ◌&&◌, ◌||◌, Option, none, some, Text, codes,
  text_eq, has_prefix, contains, if◌then◌else◌, ok, arith, Bool-cases,
}
use mailhearth.Capabilities.State.{
  ProviderKind, purelymail, migadu, manual, Support, automatic, Readiness, Capability,
  MailConnection, Mailbox, Actor,
}
use mailhearth.Capabilities.Compute.{
  endpoint_of, with_endpoint, is_ready, fields, with_identity, with_vacation, api_state,
  is_unverified_key, at_migadu, for_migadu, at_provider, is_migadu, with_delivery, is_entered,
  with_mailbox, by_api, out_of_use, disable,
}
use mailhearth.Capabilities.Allow.{is, allows, is_protocol_key}

unfoldable pub is_automatic : Support → Bool
is_automatic automatic = true
is_automatic _ = false

-- The browser offers an action that is automatic, ready and allowed.
unfoldable pub offered : Capability → Bool
unfolding is_automatic is_ready
offered c = is_automatic c.support && (is_ready c.readiness && c.permission_allowed)

unfoldable pub is_manual : ProviderKind → Bool
is_manual manual = true
is_manual _ = false

unfoldable pub is_ready_endpoint : Option Readiness → Bool
unfolding is_ready
is_ready_endpoint none = false
is_ready_endpoint (some r) = is_ready r

unfoldable pub offers_vacation : Option Text → Bool
unfolding fields contains
offers_vacation none = false
offers_vacation (some s) = contains (fields s) (codes "vacation")

-- The mailbox is in use and its endpoint is ready; sending needs an allowed identity, the vacation
-- reply the extension.
unfoldable pub reachable : Option Mailbox → Text → Bool
unfolding is_ready_endpoint endpoint_of text_eq offers_vacation
reachable none key = false
reachable (some b) key =
    b.in_use
    && (is_ready_endpoint (endpoint_of key b)
        && ((not (is key (codes "mail.send")) || b.allowed_identity)
            && (not (is key (codes "vacation.manage")) || offers_vacation b.sieve)))

-- What Migadu does not do, or nobody has verified.
unfoldable pub lacks : ProviderKind → Text → Bool
unfolding text_eq is_unverified_key is_migadu
lacks kind key =
    is_migadu kind
    && (is key (codes "domain.delete")
        || (is key (codes "address.forward") || is_unverified_key key))

-- A mailbox is managed through the provider, is there, and its password was not entered by hand.
unfoldable pub managed : Option Mailbox → Text → Bool
unfolding has_prefix is_entered
managed none key = true
managed (some b) key =
    b.by_api
    && (b.present && not (has_prefix key (codes "credential.") && is_entered b.credential_source))

-- The provider's interface is set up and passed its check, and does what the key says.
unfoldable pub managed_here : MailConnection → Option Mailbox → Text → Bool
unfolding is_manual lacks managed
managed_here m b key =
    not (is_manual m.provider_kind)
    && (m.api_configured && (m.api_passed && (not (lacks m.provider_kind key) && managed b key)))

-- When an action can be offered, without the stages.
unfoldable pub usable : MailConnection → Actor → Option Mailbox → Text → Bool
unfolding is_protocol_key reachable managed_here allows text_eq
usable m a b key =
    m.enabled
    && (allows a b key
        && (if is_protocol_key key
            then reachable b key
            else not (is key (codes "remoteAccess.revokeAll"))
              && (is key (codes "identity.authorize") || managed_here m b key)))

pub disable-offered :
    (m : MailConnection) (b : Option Mailbox) (c : Capability)
    → offered (disable m b c)
      ≡ m.enabled && (not (is_protocol_key c.key && out_of_use b) && offered c)
unfolding offered disable is_automatic is_ready
disable-offered m b c = ground arith

pub with_mailbox-offered :
    (b : Option Mailbox) (c : Capability)
    → offered (with_mailbox b c) ≡ managed b c.key && offered c
unfolding offered with_mailbox managed is_automatic is_ready
with_mailbox-offered none c = refl
with_mailbox-offered (some b) c = ground arith

pub api_state-offered :
    (m : MailConnection) (c : Capability)
    → offered (api_state m c)
      ≡ not (is_manual m.provider_kind) && (m.api_configured && (m.api_passed && offered c))
unfolding offered api_state is_manual is_automatic is_ready
api_state-offered m c = ground arith

pub for_migadu-offered :
    (c : Capability)
    → offered (for_migadu c)
      ≡ not (
          is c.key (codes "domain.delete")
          || (is c.key (codes "address.forward") || is_unverified_key c.key))
        && offered c
unfolding offered for_migadu is_automatic is_ready
for_migadu-offered c = ground arith

pub at_provider-offered :
    (kind : ProviderKind) (c : Capability)
    → offered (at_provider kind c) ≡ not (lacks kind c.key) && offered c
unfolding at_provider at_migadu lacks is_migadu offered
at_provider-offered migadu c = elim (Bool-cases (has_prefix c.key (codes "address."))) [
  | inl e ↦ rw e (for_migadu-offered c)
  | inr e ↦ rw e (for_migadu-offered c)
]
at_provider-offered manual c = refl
at_provider-offered purelymail c = refl

pub with_delivery-offered :
    (kind : ProviderKind) (c : Capability) → offered (with_delivery kind c) ≡ offered c
unfolding offered with_delivery
with_delivery-offered kind c = ground arith

-- No stage changes the key.
pub with_mailbox-key : (b : Option Mailbox) (c : Capability) → (with_mailbox b c).key ≡ c.key
unfolding with_mailbox
with_mailbox-key none c = refl
with_mailbox-key (some b) c = ground arith

pub api_state-key : (m : MailConnection) (c : Capability) → (api_state m c).key ≡ c.key
unfolding api_state
api_state-key m c = ground arith

pub for_migadu-key : (c : Capability) → (for_migadu c).key ≡ c.key
unfolding for_migadu
for_migadu-key c = ground arith

pub at_provider-key : (kind : ProviderKind) (c : Capability) → (at_provider kind c).key ≡ c.key
unfolding at_provider at_migadu
at_provider-key migadu c = elim (Bool-cases (has_prefix c.key (codes "address."))) [
  | inl e ↦ rw e (for_migadu-key c)
  | inr e ↦ rw e (for_migadu-key c)
]
at_provider-key manual c = refl
at_provider-key purelymail c = refl

pub with_delivery-key : (kind : ProviderKind) (c : Capability) → (with_delivery kind c).key ≡ c.key
unfolding with_delivery
with_delivery-key kind c = ground arith

pub by_api-key :
    (m : MailConnection) (b : Option Mailbox) (c : Capability) → (by_api m b c).key ≡ c.key
unfolding by_api
by_api-key m b c =
    with_mailbox-key b _
    ∙ with_delivery-key m.provider_kind _
    ∙ at_provider-key m.provider_kind _
    ∙ api_state-key m c

reorder :
    (n k p l g o : Bool)
    → g && (not l && (not n && (k && (p && o)))) ≡ (not n && (k && (p && (not l && g)))) && o
reorder n k p l g o = ground arith

pub by_api-offered :
    (m : MailConnection) (b : Option Mailbox) (c : Capability)
    → offered (by_api m b c) ≡ managed_here m b c.key && offered c
unfolding by_api managed_here
by_api-offered m b c =
    let c1 = api_state m c in
    let c2 = at_provider m.provider_kind c1 in
    let c3 = with_delivery m.provider_kind c2 in
    rw
      (
        with_mailbox-offered b c3,
        with_delivery-offered m.provider_kind c2,
        at_provider-offered m.provider_kind c1,
        api_state-offered m c,
        with_delivery-key m.provider_kind c2,
        at_provider-key m.provider_kind c1,
        api_state-key m c,
      )
      (reorder (is_manual m.provider_kind) m.api_configured m.api_passed
        (lacks m.provider_kind c.key) (managed b c.key) (offered c))

-- Endpoint, identity and extension.
pub with_endpoint-offered :
    (c : Capability) (o : Option Readiness)
    → is_automatic c.support ≡ true
    → offered (with_endpoint c o) ≡ is_ready_endpoint o && c.permission_allowed
unfolding offered with_endpoint is_ready_endpoint is_ready
with_endpoint-offered c o h = ground (arith, h)

pub with_endpoint-key : (c : Capability) (o : Option Readiness) → (with_endpoint c o).key ≡ c.key
unfolding with_endpoint
with_endpoint-key c o = ground arith

pub with_identity-offered :
    (allowed : Bool) (c : Capability)
    → offered (with_identity allowed c)
      ≡ (not (is c.key (codes "mail.send")) || allowed) && offered c
unfolding offered with_identity is_ready
with_identity-offered allowed c = ground arith

pub with_identity-key : (allowed : Bool) (c : Capability) → (with_identity allowed c).key ≡ c.key
unfolding with_identity
with_identity-key allowed c = ground arith

pub with_vacation-offered :
    (sieve : Option Text) (c d : Capability)
    → with_vacation sieve c ≡ ok d
    → offered d ≡ (not (is c.key (codes "vacation.manage")) || offers_vacation sieve) && offered c
unfolding offered with_vacation is_ready is_automatic offers_vacation
with_vacation-offered none c d h = ground (arith, h)
with_vacation-offered (some s) c d h = ground (arith, h)

pub with_vacation-key :
    (sieve : Option Text) (c d : Capability) → with_vacation sieve c ≡ ok d → d.key ≡ c.key
unfolding with_vacation
with_vacation-key none c d h = ground (arith, h)
with_vacation-key (some s) c d h = ground (arith, h)
