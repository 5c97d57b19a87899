-- ===== src/ImapPool/Cred.antt =====
-- The credential of a mailbox login and its key in the pool's maps (`Cred.key` of
-- internal/mailproto/imappool/pool.go). The password digest is a function of the standard library;
-- only logins without a mailbox use it.
use mailhearth.Common.{ℕ, ◌≡◌, ◌∷◌, ◌++◌, Text, codes, ltb, if◌then◌else◌, decimal}

pub record Cred : Type 0 where
  pub user : Text
  pub pass : Text
  pub org_id : ℕ
  pub connection_id : ℕ
  pub mailbox_id : ℕ
  pub connection_revision : ℕ
  pub endpoint_revision : ℕ
  pub credential_id : ℕ
  pub credential_generation : ℕ
  pub addr : Text
  pub tls_mode : Text

abbrev slash : ℕ
slash = b'/'

-- fmt.Sprintf("%d/%d/%d/imap/%d/%d/%d/%d", …)
unfoldable pub mailbox_key : Cred → Text
mailbox_key c =
    decimal c.org_id
    ++ (slash ∷ decimal c.connection_id
        ++ (slash ∷ decimal c.mailbox_id
            ++ ((slash ∷ codes "imap/")
                ++ (decimal c.connection_revision
                    ++ (slash ∷ decimal c.endpoint_revision
                        ++ (slash ∷ decimal c.credential_id
                            ++ (slash ∷ decimal c.credential_generation)))))))

unfoldable pub key : (Text → Text) → Cred → Text
unfolding mailbox_key
key sha256_hex c =
    if ltb 0 c.mailbox_id
    then mailbox_key c
    else c.addr ++ (b'|' ∷ c.tls_mode ++ (b'|' ∷ c.user ++ (b'|' ∷ sha256_hex c.pass)))

-- The numbers of a mailbox login that its key shows.
pub record SameLogin (c d : Cred) : Type 0 where
  pub org : c.org_id ≡ d.org_id
  pub connection : c.connection_id ≡ d.connection_id
  pub mailbox : c.mailbox_id ≡ d.mailbox_id
  pub connection_revision : c.connection_revision ≡ d.connection_revision
  pub endpoint_revision : c.endpoint_revision ≡ d.endpoint_revision
  pub credential : c.credential_id ≡ d.credential_id
  pub generation : c.credential_generation ≡ d.credential_generation
