-- ===== src/ImapPool/Wakeup.antt =====
-- The wait of `reserve` in internal/mailproto/imappool/pool.go: it sleeps until the channel
-- `capacity` that the full round read is closed, and only `release` closes it.
use mailhearth.Common.{
  ℕ, ◌≤◌, ◌≡◌, ◌≢◌, refl, Bool, true, false, List, [], ◌∷◌, Option, some, arith, Text, ◌∙◌,
}
use mailhearth.ImapPool.Cred.{Cred}
use mailhearth.ImapPool.State.{
  Pool, Reserved, reserved, pool_closed, full, reserve, release, has_room,
}
use mailhearth.ImapPool.World.{
  World, Holder, leaving, Event, reserves, begins, dial_fails, dial_succeeds, ends_dial, takes,
  hands, puts, closes, leaves, watch_reserves, registers, watch_ends, stops, drops, invalidates,
  reaps, shuts, enter, leave_step, step, run,
}
use mailhearth.ImapPool.Frame.{
  SameSlots, same, hand_out-SameSlots, put-SameSlots, invalidate-SameSlots, reap-SameSlots,
  close_pool-SameSlots, end_dial-SameSlots, stop_watcher-SameSlots, drop_watcher-SameSlots,
}
use mailhearth.ImapPool.Quiet.{
  begin_step-Same, fail_step-Same, succeed_step-Same, take_step-Same, close_step-Same,
  register_step-Same, watch_end_step-Same,
}

-- While the channel is the same, no slot has become free.
record Fills (p q : Pool) : Type 0 where
  later : p.capacity ≤ q.capacity
  max : q.max_conns ≡ p.max_conns
  sem : q.capacity ≡ p.capacity → p.sem ≤ q.sem
  connections : q.capacity ≡ p.capacity → (i : ℕ) → p.connection_use i ≤ q.connection_use i
  mailboxes : q.capacity ≡ p.capacity → (i : ℕ) → p.mailbox_use i ≤ q.mailbox_use i

Fills-same : (p q : Pool) → SameSlots p q → Fills p q
Fills-same p q s = record {
  later = omega (arith, s.capacity);
  max = s.max;
  sem = λ _. omega (arith, s.sem);
  connections = λ _ i. ground (arith, s.connection);
  mailboxes = λ _ i. ground (arith, s.mailbox);
}

Fills-trans : (p q r : Pool) → Fills p q → Fills q r → Fills p r
Fills-trans p q r a b = record {
  later = omega (arith, a.later, b.later);
  max = ground (arith, a.max, b.max);
  sem = λ e. omega (
    arith,
    a.sem (omega (arith, e, a.later, b.later)),
    b.sem (omega (arith, e, a.later, b.later)),
  );
  connections = λ e i. omega (
    arith,
    a.connections (omega (arith, e, a.later, b.later)) i,
    b.connections (omega (arith, e, a.later, b.later)) i,
  );
  mailboxes = λ e i. omega (
    arith,
    a.mailboxes (omega (arith, e, a.later, b.later)) i,
    b.mailboxes (omega (arith, e, a.later, b.later)) i,
  );
}

reserve-Fills :
    (p : Pool) (c : Cred) (watch : Bool) (q : Pool) → reserve p c watch ≡ reserved q → Fills p q
unfolding reserve
reserve-Fills p c watch q h = record {
  later = ground arith;
  max = ground arith;
  sem = λ _. ground arith;
  connections = λ _ i. ground arith;
  mailboxes = λ _ i. ground arith;
}

release-Fills : (p : Pool) (c : Cred) → Fills p (release p c)
unfolding release
release-Fills p c = record {
  later = omega arith;
  max = refl;
  sem = λ e. absurd (omega (arith, e));
  connections = λ e. absurd (omega (arith, e));
  mailboxes = λ e. absurd (omega (arith, e));
}

enter-Fills :
    (w : World) (h : Holder) (c : Cred) (watch : Bool) (r : Reserved)
    → reserve w.pool c watch ≡ r
    → Fills w.pool (enter w h r).pool
unfolding enter
enter-Fills w h c watch (reserved q) e = reserve-Fills w.pool c watch q e
enter-Fills w h c watch pool_closed e = Fills-same w.pool w.pool (same w.pool)
enter-Fills w h c watch (full d) e = Fills-same w.pool w.pool (same w.pool)

module _ (sha256_hex : Text → Text) where
  leave_step-Fills :
      (w : World) (n : ℕ) (o : Option Holder) → Fills w.pool (leave_step sha256_hex w n o).pool
  unfolding leave_step
  leave_step-Fills w n (some (leaving c)) = release-Fills w.pool c
  leave_step-Fills w n _ = Fills-same w.pool w.pool (same w.pool)

  step-Fills : (w : World) (e : Event) → Fills w.pool (step sha256_hex w e).pool
  unfolding step
  step-Fills w (reserves c e m fresh) = enter-Fills w _ c false _ refl
  step-Fills w (watch_reserves c k e m) = enter-Fills w _ c true _ refl
  step-Fills w (leaves n) = leave_step-Fills w n _
  step-Fills w (begins n) = Fills-same _ _ (begin_step-Same sha256_hex w n _)
  step-Fills w (dial_fails n) = Fills-same _ _ (fail_step-Same sha256_hex w n _)
  step-Fills w (dial_succeeds n ended now) =
      Fills-same _ _ (succeed_step-Same sha256_hex w n ended now _)
  step-Fills w (ends_dial d) = Fills-same _ _ (end_dial-SameSlots w.pool d)
  step-Fills w (takes c fresh ended) =
      Fills-same _ _ (take_step-Same sha256_hex w c fresh ended _ refl)
  step-Fills w (hands c) = Fills-same _ _ (hand_out-SameSlots w.pool c)
  step-Fills w (puts c alive now) = Fills-same _ _ (put-SameSlots w.pool c alive now)
  step-Fills w (closes n) = Fills-same _ _ (close_step-Same sha256_hex w n _)
  step-Fills w (registers n) = Fills-same _ _ (register_step-Same sha256_hex w n _)
  step-Fills w (watch_ends n) = Fills-same _ _ (watch_end_step-Same sha256_hex w n _)
  step-Fills w (stops v) = Fills-same _ _ (stop_watcher-SameSlots w.pool v)
  step-Fills w (drops v) = Fills-same _ _ (drop_watcher-SameSlots w.pool v)
  step-Fills w (invalidates t) = Fills-same _ _ (invalidate-SameSlots w.pool t)
  step-Fills w (reaps alive now) = Fills-same _ _ (reap-SameSlots w.pool alive now)
  step-Fills w shuts = Fills-same _ _ (close_pool-SameSlots w.pool)

  run-Fills : (w : World) (events : List Event) → Fills w.pool (run sha256_hex w events).pool
  unfolding run
  run-Fills w [] = Fills-same w.pool w.pool (same w.pool)
  run-Fills w (e ∷ events) =
      Fills-trans w.pool (step sha256_hex w e).pool _ (step-Fills w e)
        (run-Fills (step sha256_hex w e) events)

-- A pool that has filled up further has no more room than before.
Fills-no_room :
    (p q : Pool) (c : Cred) (watch : Bool)
    → Fills p q
    → q.capacity ≡ p.capacity
    → has_room p c watch ≡ false
    → has_room q c watch ≡ false
unfolding has_room
Fills-no_room p q c watch f e h =
    ground (arith, f.max, f.sem e, f.connections e c.connection_id, f.mailboxes e c.mailbox_id, h)

full-no_room :
    (p : Pool) (c : Cred) (watch : Bool) (channel : ℕ)
    → reserve p c watch ≡ full channel
    → (has_room p c watch ≡ false) × (channel ≡ p.capacity)
unfolding reserve
full-no_room p c watch channel h = (ground arith, ground arith)

no_room-not_reserved :
    (p q : Pool) (c : Cred) (watch : Bool)
    → has_room p c watch ≡ false
    → reserve p c watch ≢ reserved q
unfolding reserve
no_room-not_reserved p q c watch h e = ground arith

-- No wake-up is lost: if a round of `reserve` found no room and waits for the channel it read, then
-- after any events that leave this channel open, there is still no room for this login.
pub run-no_lost_wakeup :
    (sha256_hex : Text → Text) (w : World) (c : Cred) (watch : Bool) (channel : ℕ)
    (events : List Event) (q : Pool)
    → reserve w.pool c watch ≡ full channel
    → (run sha256_hex w events).pool.capacity ≡ channel
    → reserve (run sha256_hex w events).pool c watch ≢ reserved q
run-no_lost_wakeup sha256_hex w c watch channel events q h e =
    let (no_room, same) = full-no_room w.pool c watch channel h in
    no_room-not_reserved _ q c watch
      (Fills-no_room w.pool _ c watch (run-Fills sha256_hex w events) (e ∙ same) no_room)
