-- ===== src/ImapPool/Samples.antt =====
-- Tests of the pool of internal/mailproto/imappool/pool.go on small histories, and the theorems at
-- their data. The digest of a password is the password itself here.
use mailhearth.Common.{
  ℕ, ◌<◌, ◌≡◌, ◌≢◌, refl, true, false, List, [], ◌∷◌, ◌++◌, arith, Text, codes, text_eq, decimal,
  length, count_if, keep_if,
}
use mailhearth.ImapPool.Cred.{Cred, key, mailbox_key}
use mailhearth.ImapPool.State.{
  reserved, pool_closed, full, reserve, release, has_room, new_pool, u64_mod, lookup_or, assign,
  delete,
}
use mailhearth.ImapPool.Conns.{
  connection, mailbox, begin_dial, is_current, finish_dial, was_cancelled, put, get_start,
  close_conn, invalidate, with_epoch, bump, close_pool, matches,
}
use mailhearth.ImapPool.World.{
  World, start, run, step, Event, reserves, begins, dial_succeeds, puts, closes, leaves,
  invalidates, shuts, enter, begin_step, succeed_step, take_step, close_step, leave_step,
}
use mailhearth.ImapPool.Interleavings.{FitsWorld, run-Fits}
use mailhearth.ImapPool.Wakeup.{run-no_lost_wakeup}
use mailhearth.ImapPool.Epochs.{invalidations, is_invalidation, same_target}
use mailhearth.ImapPool.Stale.{Stale, invalidated-Stale}

abbrev digest : Text → Text
digest t = t

abbrev login : ℕ → ℕ → Cred
login connection_id mailbox_id = record {
  user = codes "ada@example.org";
  pass = codes "secret";
  org_id = 1;
  connection_id = connection_id;
  mailbox_id = mailbox_id;
  connection_revision = 3;
  endpoint_revision = 1;
  credential_id = 12;
  credential_generation = 2;
  addr = codes "imap.example.org:993";
  tls_mode = codes "tls";
}

key_test : key digest (login 7 45) ≡ codes "1/7/45/imap/3/1/12/2"
unfolding key mailbox_key decimal
key_test = refl

-- One mailbox takes three of five slots; a fourth login for it must wait.
abbrev three_dials : List Event
three_dials =
    reserves (login 7 45) 0 0 false
    ∷ reserves (login 7 45) 0 0 false
    ∷ reserves (login 7 45) 0 0 true
    ∷ reserves (login 7 45) 0 0 false
    ∷ begins 1
    ∷ dial_succeeds 1 false 100
    ∷ puts 0 true 200
    ∷ []

after : List Event → World
unfolding run step enter reserve has_room begin_step begin_dial is_current succeed_step finish_dial
    was_cancelled put lookup_or assign new_pool key mailbox_key close_step close_conn leave_step
    release invalidate with_epoch bump close_pool take_step get_start matches keep_if delete text_eq
    decimal
after events = run digest (start 5 2 0) events

three_dials_test : length (after three_dials).holders ≡ 3
unfolding after text_eq decimal
three_dials_test = refl

idle_test : lookup_or [] (key digest (login 7 45)) (after three_dials).pool.idle ≡ 0 ∷ []
unfolding after text_eq decimal
idle_test = refl

-- When one connection is closed and its slot released, the login gets the slot.
freed_test :
    length
      (after (three_dials ++ (closes 1 ∷ leaves 1 ∷ reserves (login 7 45) 0 0 false ∷ []))).holders
    ≡ 3
unfolding after text_eq decimal
freed_test = refl

-- An invalidated mailbox keeps no idle connection.
invalidated_test :
    lookup_or []
      (key digest (login 7 45))
      (after (three_dials ++ invalidates (mailbox 45) ∷ [])).pool.idle
    ≡ []
unfolding after text_eq decimal
invalidated_test = refl

closed_test : reserve (after (three_dials ++ shuts ∷ [])).pool (login 8 1) false ≡ pool_closed
unfolding after text_eq decimal
closed_test = refl

-- The user name is not in the key of a mailbox login.
abbrev renamed : Cred
renamed = record (login 7 45) { user = codes "countess" }

run-Fits_example : FitsWorld (run digest (start 5 2 0) three_dials)
run-Fits_example = run-Fits digest 5 2 0 three_dials

-- The fourth login waits while another login dials and a connection is put back.
abbrev meanwhile : List Event
meanwhile =
    reserves (login 7 46) 0 0 false ∷ begins 0 ∷ dial_succeeds 0 false 300 ∷ puts 1 true 400 ∷ []

waits : reserve (after three_dials).pool (login 7 45) false ≡ full 0
unfolding after
waits = refl

still_open : (run digest (after three_dials) meanwhile).pool.capacity ≡ 0
unfolding after
still_open = refl

run-no_lost_wakeup_example :
    reserve (run digest (after three_dials) meanwhile).pool (login 7 45) false
    ≢ reserved (new_pool 5 2 0)
run-no_lost_wakeup_example =
    run-no_lost_wakeup digest (after three_dials) (login 7 45) false 0 meanwhile (new_pool 5 2 0)
      waits still_open

abbrev revoked : List Event
revoked = invalidates (connection 9) ∷ invalidates (connection 7) ∷ puts 0 true 400 ∷ []

some_invalidation : 0 < invalidations (connection 7) revoked
unfolding invalidations is_invalidation same_target count_if
some_invalidation = omega arith

few_invalidations : invalidations (connection 7) revoked < u64_mod
unfolding invalidations is_invalidation same_target count_if
few_invalidations = omega arith

epoch_zero : (after three_dials).pool.connection_epoch 7 < u64_mod
unfolding after
epoch_zero = omega arith

is_matched : matches (connection 7) (login 7 45) ≡ true
unfolding matches
is_matched = refl

invalidated-Stale_example :
    Stale digest (after three_dials).pool (run digest (after three_dials) revoked).pool (login 7 45)
invalidated-Stale_example =
    invalidated-Stale digest (after three_dials) revoked (login 7 45) (connection 7) is_matched
      (omega arith) epoch_zero some_invalidation few_invalidations
