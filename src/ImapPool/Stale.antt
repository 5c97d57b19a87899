-- ===== src/ImapPool/Stale.antt =====
-- What `get` and `SubscribeChecked` of internal/mailproto/imappool/pool.go refuse after an
-- invalidation of the login that they serve.
use mailhearth.Common.{ℕ, ◌+◌, ◌%◌, ◌<◌, ◌≡◌, ◌≢◌, Bool, true, false, List, none, arith, Text}
use mailhearth.ImapPool.Cred.{Cred}
use mailhearth.ImapPool.State.{Pool, u64_mod}
use mailhearth.ImapPool.Conns.{
  begin_dial, finish_dial, is_current, Target, connection, mailbox, matches,
}
use mailhearth.ImapPool.Watch.{register}
use mailhearth.ImapPool.World.{World, Event, run}
use mailhearth.ImapPool.Epochs.{epoch_of, id_of, invalidations, run-epoch}

-- The epochs that were read in `p` are refused in `q`.
pub record Stale (sha256_hex : Text → Text) (p q : Pool) (c : Cred) : Type 0 where
  pub no_dial :
      begin_dial q c (p.connection_epoch c.connection_id) (p.mailbox_epoch c.mailbox_id) ≡ none
  pub no_conn :
      (dial : ℕ) (fresh ended : Bool) (now : ℕ)
      → (finish_dial sha256_hex q c dial
          (p.connection_epoch c.connection_id)
          (p.mailbox_epoch c.mailbox_id)
          fresh
          ended
          now).0
        ≡ false
  pub no_watcher :
      (k : Text)
      → register q c k (p.connection_epoch c.connection_id) (p.mailbox_epoch c.mailbox_id) ≡ none

not_current-Stale :
    (sha256_hex : Text → Text) (p q : Pool) (c : Cred)
    → is_current q c (p.connection_epoch c.connection_id) (p.mailbox_epoch c.mailbox_id) ≡ false
    → Stale sha256_hex p q c
unfolding begin_dial finish_dial register
not_current-Stale sha256_hex p q c h = record {
  no_dial = ground arith;
  no_conn = λ dial fresh ended now. ground arith;
  no_watcher = λ k. ground arith;
}

changed : (e k : ℕ) → e < u64_mod → 0 < k → k < u64_mod → (e + k) % u64_mod ≢ e
changed e k he hk hm h = omega arith

moved-not_current :
    (p q : Pool) (c : Cred) (t : Target)
    → matches t c ≡ true
    → epoch_of q t ≢ epoch_of p t
    → is_current q c (p.connection_epoch c.connection_id) (p.mailbox_epoch c.mailbox_id) ≡ false
unfolding is_current matches
moved-not_current p q c (connection id) m ne = ground arith
moved-not_current p q c (mailbox id) m ne = ground arith

-- A login read its epochs in some state; then came events, among them at least one and fewer than
-- 2 ^ 64 invalidations of the login's connection or mailbox (number 0 is none). Then with these
-- epochs no dial begins, no finished dial joins the pool, and no watcher is registered.
pub invalidated-Stale :
    (sha256_hex : Text → Text) (w : World) (events : List Event) (c : Cred) (t : Target)
    → matches t c ≡ true
    → id_of t ≢ 0
    → epoch_of w.pool t < u64_mod
    → 0 < invalidations t events
    → invalidations t events < u64_mod
    → Stale sha256_hex w.pool (run sha256_hex w events).pool c
invalidated-Stale sha256_hex w events c t m ne lt some_inv few =
    let ahead = run-epoch sha256_hex w events t ne lt in
    let away = changed (epoch_of w.pool t) (invalidations t events) lt some_inv few in
    not_current-Stale sha256_hex w.pool _ c
      (moved-not_current w.pool _ c t m λ same. away (ground (arith, ahead, same)))
