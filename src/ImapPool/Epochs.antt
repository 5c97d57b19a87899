-- ===== src/ImapPool/Epochs.antt =====
-- The epochs of internal/mailproto/imappool/pool.go: `invalidate` counts them up, and `get` and
-- `SubscribeChecked` compare them before they trust a connection that took long to make.
use mailhearth.Common.{
  ℕ, ◌+◌, ◌%◌, ◌<◌, ◌≡◌, ◌≢◌, refl, inl, inr, Bool, true, false, List, [], ◌∷◌, Option, arith, ◌==◌,
  if◌then◌else◌, count_if, Bool-cases, Text, ap,
}
use mailhearth.ImapPool.Cred.{Cred}
use mailhearth.ImapPool.State.{Pool, reserve, release, u64_mod}
use mailhearth.ImapPool.Conns.{
  get_start, begin_dial, finish_dial, close_conn, Target, connection, mailbox, invalidate,
  with_epoch, bump, end_dial, hand_out, put, reap, close_pool,
}
use mailhearth.ImapPool.Watch.{register, stop_watcher, drop_watcher}
use mailhearth.ImapPool.World.{
  World, Holder, reserving, subscribing, Event, reserves, begins, dial_fails, dial_succeeds,
  ends_dial, takes, hands, puts, closes, leaves, watch_reserves, registers, watch_ends, stops,
  drops, invalidates, reaps, shuts, enter, begin_step, fail_step, succeed_step, take_step,
  close_step, leave_step, register_step, watch_end_step, step, run,
}

-- The epoch of a connection or of a mailbox.
abbrev pub epoch_of : Pool → Target → ℕ
epoch_of p (connection id) = p.connection_epoch id
epoch_of p (mailbox id) = p.mailbox_epoch id

abbrev pub id_of : Target → ℕ
id_of (connection id) = id
id_of (mailbox id) = id

unfoldable pub same_target : Target → Target → Bool
same_target (connection i) (connection j) = i == j
same_target (mailbox i) (mailbox j) = i == j
same_target _ _ = false

-- How often a target is invalidated by some events.
unfoldable pub is_invalidation : Target → Event → Bool
is_invalidation t (invalidates u) = same_target t u
is_invalidation t _ = false

unfoldable pub invalidations : Target → List Event → ℕ
unfolding same_target is_invalidation
invalidations t events = count_if (is_invalidation t) events

record SameEpochs (p q : Pool) : Type 0 where
  connections : q.connection_epoch ≡ p.connection_epoch
  mailboxes : q.mailbox_epoch ≡ p.mailbox_epoch

reserve-SameEpochs :
    (w : World) (h : Holder) (c : Cred) (watch : Bool)
    → SameEpochs w.pool (enter w h (reserve w.pool c watch)).pool
unfolding enter reserve
reserve-SameEpochs w h c watch = record { connections = ground arith; mailboxes = ground arith }

module _ (sha256_hex : Text → Text) where
  begin_step-SameEpochs :
      (w : World) (n : ℕ) (o : Option Holder) → SameEpochs w.pool (begin_step sha256_hex w n o).pool
  unfolding begin_step begin_dial
  begin_step-SameEpochs w n o = record { connections = ground arith; mailboxes = ground arith }

  fail_step-SameEpochs :
      (w : World) (n : ℕ) (o : Option Holder) → SameEpochs w.pool (fail_step sha256_hex w n o).pool
  unfolding fail_step
  fail_step-SameEpochs w n o = record { connections = ground arith; mailboxes = ground arith }

  succeed_step-SameEpochs :
      (w : World) (n : ℕ) (ended : Bool) (now : ℕ) (o : Option Holder)
      → SameEpochs w.pool (succeed_step sha256_hex w n ended now o).pool
  unfolding succeed_step finish_dial
  succeed_step-SameEpochs w n ended now o = record {
    connections = ground arith;
    mailboxes = ground arith;
  }

  take_step-SameEpochs :
      (w : World) (c : Cred) (fresh ended : Bool)
      → SameEpochs w.pool (take_step sha256_hex w (get_start sha256_hex w.pool c fresh ended)).pool
  unfolding take_step get_start
  take_step-SameEpochs w c fresh ended = record {
    connections = ground arith;
    mailboxes = ground arith;
  }

  close_step-SameEpochs :
      (w : World) (n : ℕ) (o : Option Holder) → SameEpochs w.pool (close_step sha256_hex w n o).pool
  unfolding close_step close_conn
  close_step-SameEpochs w n o = record { connections = ground arith; mailboxes = ground arith }

  leave_step-SameEpochs :
      (w : World) (n : ℕ) (o : Option Holder) → SameEpochs w.pool (leave_step sha256_hex w n o).pool
  unfolding leave_step release
  leave_step-SameEpochs w n o = record { connections = ground arith; mailboxes = ground arith }

  register_step-SameEpochs :
      (w : World) (n : ℕ) (o : Option Holder)
      → SameEpochs w.pool (register_step sha256_hex w n o).pool
  unfolding register_step register
  register_step-SameEpochs w n o = record { connections = ground arith; mailboxes = ground arith }

  watch_end_step-SameEpochs :
      (w : World) (n : ℕ) (o : Option Holder)
      → SameEpochs w.pool (watch_end_step sha256_hex w n o).pool
  unfolding watch_end_step
  watch_end_step-SameEpochs w n o = record { connections = ground arith; mailboxes = ground arith }

epoch-same : (p q : Pool) (t : Target) → SameEpochs p q → epoch_of q t ≡ epoch_of p t
epoch-same p q (connection id) s = ap (λ f. f id) s.connections
epoch-same p q (mailbox id) s = ap (λ f. f id) s.mailboxes

-- `invalidate` counts the epoch of its target up, and no other.
invalidate-epoch :
    (p : Pool) (u t : Target)
    → id_of t ≢ 0
    → epoch_of (invalidate p u).1 t
      ≡ (if same_target t u then (epoch_of p t + 1) % u64_mod else epoch_of p t)
unfolding invalidate with_epoch bump same_target
invalidate-epoch p (connection i) (connection j) ne = ground arith
invalidate-epoch p (connection i) (mailbox j) ne = ground arith
invalidate-epoch p (mailbox i) (connection j) ne = ground arith
invalidate-epoch p (mailbox i) (mailbox j) ne = ground arith

put-SameEpochs : (p : Pool) (c : ℕ) (alive : Bool) (now : ℕ) → SameEpochs p (put p c alive now).1
unfolding put
put-SameEpochs p c alive now = record { connections = ground arith; mailboxes = ground arith }

stop-SameEpochs : (p : Pool) (v : ℕ) → SameEpochs p (stop_watcher p v).1
unfolding stop_watcher
stop-SameEpochs p v = record { connections = ground arith; mailboxes = ground arith }

drop-SameEpochs : (p : Pool) (v : ℕ) → SameEpochs p (drop_watcher p v)
unfolding drop_watcher
drop-SameEpochs p v = record { connections = ground arith; mailboxes = ground arith }

reap-SameEpochs : (p : Pool) (alive : ℕ → Bool) (now : ℕ) → SameEpochs p (reap p alive now).1
unfolding reap
reap-SameEpochs p alive now = record { connections = refl; mailboxes = refl }

close-SameEpochs : (p : Pool) → SameEpochs p (close_pool p).1
unfolding close_pool
close-SameEpochs p = record { connections = ground arith; mailboxes = ground arith }

module _ (sha256_hex : Text → Text) where
  step-epoch :
      (w : World) (e : Event) (t : Target)
      → id_of t ≢ 0
      → epoch_of (step sha256_hex w e).pool t
        ≡ (if is_invalidation t e then (epoch_of w.pool t + 1) % u64_mod else epoch_of w.pool t)
  unfolding step is_invalidation end_dial hand_out
  step-epoch w (invalidates u) t ne = invalidate-epoch w.pool u t ne
  step-epoch w (reserves c e m fresh) t ne =
      epoch-same _ _ t (reserve-SameEpochs w (reserving c e m fresh) c false)
  step-epoch w (watch_reserves c k e m) t ne =
      epoch-same _ _ t (reserve-SameEpochs w (subscribing c k e m) c true)
  step-epoch w (begins n) t ne = epoch-same _ _ t (begin_step-SameEpochs sha256_hex w n _)
  step-epoch w (dial_fails n) t ne = epoch-same _ _ t (fail_step-SameEpochs sha256_hex w n _)
  step-epoch w (dial_succeeds n ended now) t ne =
      epoch-same _ _ t (succeed_step-SameEpochs sha256_hex w n ended now _)
  step-epoch w (ends_dial d) t ne =
      epoch-same w.pool (end_dial w.pool d) t (record { connections = refl; mailboxes = refl })
  step-epoch w (takes c fresh ended) t ne =
      epoch-same _ _ t (take_step-SameEpochs sha256_hex w c fresh ended)
  step-epoch w (hands c) t ne =
      epoch-same w.pool (hand_out w.pool c) t (record { connections = refl; mailboxes = refl })
  step-epoch w (puts c alive now) t ne = epoch-same _ _ t (put-SameEpochs w.pool c alive now)
  step-epoch w (closes n) t ne = epoch-same _ _ t (close_step-SameEpochs sha256_hex w n _)
  step-epoch w (leaves n) t ne = epoch-same _ _ t (leave_step-SameEpochs sha256_hex w n _)
  step-epoch w (registers n) t ne = epoch-same _ _ t (register_step-SameEpochs sha256_hex w n _)
  step-epoch w (watch_ends n) t ne = epoch-same _ _ t (watch_end_step-SameEpochs sha256_hex w n _)
  step-epoch w (stops v) t ne = epoch-same _ _ t (stop-SameEpochs w.pool v)
  step-epoch w (drops v) t ne = epoch-same _ _ t (drop-SameEpochs w.pool v)
  step-epoch w (reaps alive now) t ne = epoch-same _ _ t (reap-SameEpochs w.pool alive now)
  step-epoch w shuts t ne = epoch-same _ _ t (close-SameEpochs w.pool)

  -- The epoch counts the invalidations, modulo 2 ^ 64.
  pub run-epoch :
      (w : World) (events : List Event) (t : Target)
      → id_of t ≢ 0
      → epoch_of w.pool t < u64_mod
      → epoch_of (run sha256_hex w events).pool t
        ≡ (epoch_of w.pool t + invalidations t events) % u64_mod
  unfolding run invalidations count_if
  run-epoch w [] t ne lt = ground arith
  run-epoch w (e ∷ events) t ne lt =
      let one = step-epoch w e t ne in
      elim (Bool-cases (is_invalidation t e)) [
        | inl h ↦ ground (arith, one, h, run-epoch (step sha256_hex w e) events t ne)
        | inr h ↦ ground (arith, one, h, run-epoch (step sha256_hex w e) events t ne)
      ]
