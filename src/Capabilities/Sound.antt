-- ===== src/Capabilities/Sound.antt =====
-- What `ObjectCapabilities` (internal/core/capabilities.go) offers is what can be done.
use mailhearth.Common.{◌≡◌, List, map, Option, Text, All}
use mailhearth.Capabilities.State.{Capability, MailConnection, Mailbox, Actor}
use mailhearth.Capabilities.Offered.{offered, usable}

-- A capability for a key that is offered just if the action can be used.
pub record Right (m : MailConnection) (a : Actor) (b : Option Mailbox) (key : Text) (c : Capability)
    : Type 0 where
  pub is_key : c.key ≡ key
  pub is_right : offered c ≡ usable m a b key

-- Each key is answered, in order, and each answer is right.
pub record Answered (m : MailConnection) (a : Actor) (b : Option Mailbox) (keys : List Text)
    (cs : List Capability) : Type 0 where
  pub right : All (λ c. offered c ≡ usable m a b c.key) cs
  pub complete : map (λ c. c.key) cs ≡ keys
