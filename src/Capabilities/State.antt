-- ===== src/Capabilities/State.antt =====
-- What `ObjectCapabilities` (internal/core/capabilities.go) reads: the member, the connection and the
-- mailbox, as far as it looks at them.
use mailhearth.Common.{ℕ, Bool, List, Option, Text}
use mailhearth.Submissions.Directory.{Level}

pub data ProviderKind : Type 0 where
  purelymail migadu manual : ProviderKind

pub data Support : Type 0 where
  automatic unsupported external : Support

pub data Readiness : Type 0 where
  ready unconfigured unverified disabled : Readiness

-- Capability with its constraints.
pub record Capability : Type 0 where
  pub key : Text
  pub support : Support
  pub readiness : Readiness
  pub permission_allowed : Bool
  pub reason_code : Text
  pub required_sieve_extensions : List Text
  pub same_domain_only : Bool
  pub same_connection_only : Bool
  pub allowed_delivery_modes : List Text

-- The connection; `api_passed` is lastAPICheckStatus = 'passed'.
pub record MailConnection : Type 0 where
  pub id : ℕ
  pub provider_kind : ProviderKind
  pub enabled : Bool
  pub api_configured : Bool
  pub api_passed : Bool

-- The mailbox with its endpoints' readiness. `allowed_identity` says whether an identity is allowed,
-- `sieve` is what the server offers under SIEVE, if it can be read, `credential_source` is the source
-- of the newest active credential.
pub record Mailbox : Type 0 where
  pub connection_id : ℕ
  pub is_shared : Bool
  pub owner_member_id : Option ℕ
  pub in_use : Bool
  pub by_api : Bool
  pub present : Bool
  pub imap : Option Readiness
  pub smtp : Option Readiness
  pub managesieve : Option Readiness
  pub allowed_identity : Bool
  pub sieve : Option Text
  pub credential_source : Option Text

-- The member: its permissions, and the level that it was granted for the mailbox.
pub record Actor : Type 0 where
  pub id : ℕ
  pub working : Bool
  pub permissions : List Text
  pub granted : Option Level

pub data CapabilityError : Type 0 where
  not_found unreadable : CapabilityError
