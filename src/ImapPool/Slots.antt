-- ===== src/ImapPool/Slots.antt =====
-- `reserve` and `release` of internal/mailproto/imappool/pool.go against the holders of slots.
use mailhearth.Common.{
  ℕ, suc, ◌+◌, ◌≤◌, ◌<◌, ◌≡◌, ◌≢◌, ◌∙◌, Bool, List, ◌∷◌, some, arith, ◌==◌, count_if, weight,
  get_elem?, erase_at, count_if-cons, count_if-le, count_if-le-length, count_if-erase_at,
  length-erase_at, ap,
}
use mailhearth.ImapPool.Cred.{Cred}
use mailhearth.ImapPool.State.{
  Pool, reserved, reserve, release, has_room, global_max, connection_max,
}
use mailhearth.ImapPool.World.{Holder, cred_of, is_watch}
use mailhearth.ImapPool.Bounds.{on_connection, on_mailbox, watches_on, Fits}

-- What a round of `reserve` that found room has checked and written.
record Granted (p : Pool) (c : Cred) (watch : Bool) (q : Pool) : Type 0 where
  sem : q.sem ≡ suc p.sem
  connections : (i : ℕ) → q.connection_use i ≡ weight (c.connection_id == i) + p.connection_use i
  mailboxes : (i : ℕ) → q.mailbox_use i ≡ weight (c.mailbox_id == i) + p.mailbox_use i
  max : q.max_conns ≡ p.max_conns
  below : p.sem < global_max p watch
  connection_room : c.connection_id ≢ 0 → p.connection_use c.connection_id < connection_max watch
  mailbox_room : c.mailbox_id ≢ 0 → p.mailbox_use c.mailbox_id < 3

reserve-Granted :
    (p : Pool) (c : Cred) (watch : Bool) (q : Pool)
    → reserve p c watch ≡ reserved q
    → Granted p c watch q
unfolding reserve has_room
reserve-Granted p c watch q h = record {
  sem = ground arith;
  connections = λ i. ground arith;
  mailboxes = λ i. ground arith;
  max = ground arith;
  below = ground arith;
  connection_room = λ ne. ground arith;
  mailbox_room = λ ne. ground arith;
}

-- The fewer slots for watchers leave a watcher's connection with at most 6 of them.
watches-le-connection :
    (i : ℕ) (holders : List Holder)
    → count_if (watches_on i) holders ≤ count_if (on_connection i) holders
watches-le-connection i holders =
    count_if-le (watches_on i) (on_connection i) holders λ h e. ground (arith, e)

pub reserve-Fits :
    (p : Pool) (h : Holder) (q : Pool) (holders : List Holder)
    → reserve p (cred_of h) (is_watch h) ≡ reserved q
    → Fits p holders
    → Fits q (h ∷ holders)
reserve-Fits p h q holders e f =
    let g = reserve-Granted p (cred_of h) (is_watch h) q e in
    let on = λ (i : ℕ). count_if-cons (on_connection i) h holders in
    let box = λ (i : ℕ). count_if-cons (on_mailbox i) h holders in
    record {
      sem = g.sem ∙ ap suc f.sem;
      connections = λ i. omega (arith, g.connections i, on i, f.connections i);
      mailboxes = λ i. omega (arith, g.mailboxes i, box i, f.mailboxes i);
      at_most_24 = omega (arith, g.max, f.at_most_24);
      within = ground (arith, g.below, g.max, f.sem);
      per_connection =
          λ i ne. ground (arith, g.connection_room, f.connections i, on i, f.per_connection i ne);
      per_mailbox =
          λ i ne. ground (arith, g.mailbox_room, f.mailboxes i, box i, f.per_mailbox i ne);
      watchers = ground (
        arith,
        g.below,
        g.max,
        f.sem,
        count_if-cons is_watch h holders,
        f.watchers,
        count_if-le-length is_watch holders,
      );
      watchers_per_connection = λ i ne. ground (
        arith,
        g.connection_room,
        f.connections i,
        count_if-cons (watches_on i) h holders,
        f.watchers_per_connection i ne,
        watches-le-connection i holders,
      );
    }

-- A holder that releases its slot was counted, so no counter falls below 0.
pub release-Fits :
    (p : Pool) (n : ℕ) (h : Holder) (holders : List Holder)
    → get_elem? holders n ≡ some h
    → Fits p holders
    → Fits (release p (cred_of h)) (erase_at holders n)
unfolding release
release-Fits p n h holders e f =
    let size = length-erase_at holders n h e in
    let on = λ (i : ℕ). count_if-erase_at (on_connection i) holders n h e in
    let box = λ (i : ℕ). count_if-erase_at (on_mailbox i) holders n h e in
    record {
      sem = omega (arith, f.sem, size);
      connections = λ i. ground (arith, f.connections i, on i);
      mailboxes = λ i. ground (arith, f.mailboxes i, box i);
      at_most_24 = f.at_most_24;
      within = omega (arith, f.within, size);
      per_connection = λ i ne. omega (arith, f.per_connection i ne, on i);
      per_mailbox = λ i ne. omega (arith, f.per_mailbox i ne, box i);
      watchers = omega (arith, f.watchers, count_if-erase_at is_watch holders n h e);
      watchers_per_connection = λ i ne.
          omega
            (arith, f.watchers_per_connection i ne, count_if-erase_at (watches_on i) holders n h e);
    }
