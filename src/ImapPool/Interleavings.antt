-- ===== src/ImapPool/Interleavings.antt =====
-- What holds of the slots after any interleaving of the critical sections of
-- internal/mailproto/imappool/pool.go.
use mailhearth.Common.{
  ℕ, ◌≡◌, refl, inl, inr, Bool, List, [], ◌∷◌, Option, some, arith, count_if, get_elem?,
  Option-cases, Bool-cases, Text,
}
use mailhearth.ImapPool.Cred.{Cred}
use mailhearth.ImapPool.State.{Reserved, reserved, pool_closed, full, reserve, new_pool}
use mailhearth.ImapPool.Conns.{Start, reuse, get_start, begin_dial, close_conn}
use mailhearth.ImapPool.Watch.{register}
use mailhearth.ImapPool.World.{
  World, Holder, reserving, dialing, open_conn, subscribing, watching, leaving, cred_of, is_watch,
  Event, reserves, begins, dial_fails, dial_succeeds, ends_dial, takes, hands, puts, closes, leaves,
  watch_reserves, registers, watch_ends, stops, drops, invalidates, reaps, shuts, enter, begin_step,
  fail_step, succeed_step, take_step, close_step, leave_step, register_step, watch_end_step, step,
  run, start,
}
use mailhearth.ImapPool.Frame.{
  get_start-SameSlots, hand_out-SameSlots, begin_dial-SameSlots, finish_dial-SameSlots,
  close_conn-SameSlots, put-SameSlots, invalidate-SameSlots, reap-SameSlots, close_pool-SameSlots,
  end_dial-SameSlots, register-SameSlots, stop_watcher-SameSlots, drop_watcher-SameSlots,
}
use mailhearth.ImapPool.Bounds.{Fits, Follows, frame-Fits, follow-Fits}
use mailhearth.ImapPool.Slots.{reserve-Fits, release-Fits}

abbrev pub FitsWorld : World → Type 0
FitsWorld w = Fits w.pool w.holders

-- A goroutine that goes on with the same login.
keeps_cred : (x v : Holder) → cred_of v ≡ cred_of x → is_watch v ≡ is_watch x → Follows x v
keeps_cred x v c k = record { cred = c; watch = λ e. ground (arith, e, k) }

gives_up : (x : Holder) → Follows x (leaving (cred_of x))
gives_up x = record { cred = refl; watch = λ e. ground (arith, e) }

enter-Fits :
    (w : World) (h : Holder)
    → FitsWorld w
    → FitsWorld (enter w h (reserve w.pool (cred_of h) (is_watch h)))
unfolding enter
enter-Fits w h f = go (reserve w.pool (cred_of h) (is_watch h)) refl
  where
    go : (r : Reserved) → reserve w.pool (cred_of h) (is_watch h) ≡ r → FitsWorld (enter w h r)
    go (reserved q) e = reserve-Fits w.pool h q w.holders e f
    go pool_closed e = f
    go (full c) e = f

module _ (sha256_hex : Text → Text) where
  begin_step-Fits :
      (w : World) (n : ℕ) (o : Option Holder)
      → get_elem? w.holders n ≡ o
      → FitsWorld w
      → FitsWorld (begin_step sha256_hex w n o)
  unfolding begin_step
  begin_step-Fits w n (some (reserving c e m fresh)) g f =
      elim (Option-cases (begin_dial w.pool c e m)) [
        | inl h ↦
            rw (begin_step, h)
              (follow-Fits w.pool w.holders n _ _ g (gives_up (reserving c e m fresh)) f)
        | inr ((d, p), h) ↦
            let moved =
              follow-Fits w.pool w.holders n _ (dialing c d e m fresh) g (keeps_cred _ _ refl refl)
                f in
            rw (begin_step, h)
              (frame-Fits w.pool p _ (begin_dial-SameSlots w.pool c e m d p h) moved)
      ]
  begin_step-Fits w n _ g f = f

  fail_step-Fits :
      (w : World) (n : ℕ) (o : Option Holder)
      → get_elem? w.holders n ≡ o
      → FitsWorld w
      → FitsWorld (fail_step sha256_hex w n o)
  unfolding fail_step
  fail_step-Fits w n (some (dialing c d e m fresh)) g f =
      follow-Fits w.pool w.holders n _ _ g (gives_up (dialing c d e m fresh)) f
  fail_step-Fits w n _ g f = f

  succeed_step-Fits :
      (w : World) (n : ℕ) (ended : Bool) (now : ℕ) (o : Option Holder)
      → get_elem? w.holders n ≡ o
      → FitsWorld w
      → FitsWorld (succeed_step sha256_hex w n ended now o)
  unfolding succeed_step
  succeed_step-Fits w n ended now (some (dialing c d e m fresh)) g f =
      let v = open_conn c w.pool.next_conn in
      let moved = follow-Fits w.pool w.holders n _ v g (keeps_cred _ _ refl refl) f in
      frame-Fits w.pool _ _ (finish_dial-SameSlots sha256_hex w.pool c d e m fresh ended now) moved
  succeed_step-Fits w n ended now _ g f = f

  take_step-Fits :
      (w : World) (c : Cred) (fresh ended : Bool) (s : Start)
      → get_start sha256_hex w.pool c fresh ended ≡ s
      → FitsWorld w
      → FitsWorld (take_step sha256_hex w s)
  unfolding take_step
  take_step-Fits w c fresh ended (reuse i q) e f =
      frame-Fits w.pool q w.holders (get_start-SameSlots sha256_hex w.pool c fresh ended i q e) f
  take_step-Fits w c fresh ended _ e f = f

  close_step-Fits :
      (w : World) (n : ℕ) (o : Option Holder)
      → get_elem? w.holders n ≡ o
      → FitsWorld w
      → FitsWorld (close_step sha256_hex w n o)
  unfolding close_step
  close_step-Fits w n (some (open_conn c i)) g f = elim (Bool-cases (close_conn w.pool i).0) [
    | inl h ↦
        let moved = follow-Fits w.pool w.holders n _ _ g (gives_up (open_conn c i)) f in
        rw (close_step, h) (frame-Fits w.pool _ _ (close_conn-SameSlots w.pool i) moved)
    | inr h ↦ rw (close_step, h) f
  ]
  close_step-Fits w n _ g f = f

  leave_step-Fits :
      (w : World) (n : ℕ) (o : Option Holder)
      → get_elem? w.holders n ≡ o
      → FitsWorld w
      → FitsWorld (leave_step sha256_hex w n o)
  unfolding leave_step
  leave_step-Fits w n (some (leaving c)) g f = release-Fits w.pool n (leaving c) w.holders g f
  leave_step-Fits w n _ g f = f

  register_step-Fits :
      (w : World) (n : ℕ) (o : Option Holder)
      → get_elem? w.holders n ≡ o
      → FitsWorld w
      → FitsWorld (register_step sha256_hex w n o)
  unfolding register_step
  register_step-Fits w n (some (subscribing c k e m)) g f =
      elim (Option-cases (register w.pool c k e m)) [
        | inl h ↦
            rw (register_step, h)
              (follow-Fits w.pool w.holders n _ _ g (gives_up (subscribing c k e m)) f)
        | inr ((v, p), h) ↦
            let moved =
              follow-Fits w.pool w.holders n _ (watching c v) g (keeps_cred _ _ refl refl) f in
            rw (register_step, h)
              (frame-Fits w.pool p _ (register-SameSlots w.pool c k e m v p h) moved)
      ]
  register_step-Fits w n _ g f = f

  watch_end_step-Fits :
      (w : World) (n : ℕ) (o : Option Holder)
      → get_elem? w.holders n ≡ o
      → FitsWorld w
      → FitsWorld (watch_end_step sha256_hex w n o)
  unfolding watch_end_step
  watch_end_step-Fits w n (some (watching c v)) g f =
      follow-Fits w.pool w.holders n _ _ g (gives_up (watching c v)) f
  watch_end_step-Fits w n _ g f = f

  step-Fits : (w : World) (e : Event) → FitsWorld w → FitsWorld (step sha256_hex w e)
  unfolding step
  step-Fits w (reserves c e m fresh) f = enter-Fits w (reserving c e m fresh) f
  step-Fits w (begins n) f = begin_step-Fits w n _ refl f
  step-Fits w (dial_fails n) f = fail_step-Fits w n _ refl f
  step-Fits w (dial_succeeds n ended now) f = succeed_step-Fits w n ended now _ refl f
  step-Fits w (ends_dial d) f = frame-Fits w.pool _ _ (end_dial-SameSlots w.pool d) f
  step-Fits w (takes c fresh ended) f = take_step-Fits w c fresh ended _ refl f
  step-Fits w (hands c) f = frame-Fits w.pool _ _ (hand_out-SameSlots w.pool c) f
  step-Fits w (puts c alive now) f = frame-Fits w.pool _ _ (put-SameSlots w.pool c alive now) f
  step-Fits w (closes n) f = close_step-Fits w n _ refl f
  step-Fits w (leaves n) f = leave_step-Fits w n _ refl f
  step-Fits w (watch_reserves c k e m) f = enter-Fits w (subscribing c k e m) f
  step-Fits w (registers n) f = register_step-Fits w n _ refl f
  step-Fits w (watch_ends n) f = watch_end_step-Fits w n _ refl f
  step-Fits w (stops v) f = frame-Fits w.pool _ _ (stop_watcher-SameSlots w.pool v) f
  step-Fits w (drops v) f = frame-Fits w.pool _ _ (drop_watcher-SameSlots w.pool v) f
  step-Fits w (invalidates t) f = frame-Fits w.pool _ _ (invalidate-SameSlots w.pool t) f
  step-Fits w (reaps alive now) f = frame-Fits w.pool _ _ (reap-SameSlots w.pool alive now) f
  step-Fits w shuts f = frame-Fits w.pool _ _ (close_pool-SameSlots w.pool) f

  run_from-Fits :
      (w : World) (events : List Event) → FitsWorld w → FitsWorld (run sha256_hex w events)
  unfolding run
  run_from-Fits w [] f = f
  run_from-Fits w (e ∷ events) f = run_from-Fits (step sha256_hex w e) events (step-Fits w e f)

start-Fits :
    (max_conns per_cred_idle idle_timeout : ℕ)
    → FitsWorld (start max_conns per_cred_idle idle_timeout)
unfolding new_pool count_if
start-Fits max_conns per_cred_idle idle_timeout = record {
  sem = refl;
  connections = λ i. refl;
  mailboxes = λ i. refl;
  at_most_24 = ground arith;
  within = omega arith;
  per_connection = λ i ne. omega arith;
  per_mailbox = λ i ne. omega arith;
  watchers = omega arith;
  watchers_per_connection = λ i ne. omega arith;
}

-- After any interleaving of critical sections from a new pool: the slots in use and the counters of
-- each connection and mailbox are the numbers of holders; there are at most `max_conns` holders,
-- which is at most 24, at most 8 for each connection and 3 for each mailbox; and at most
-- `max_conns - 4` of them are watchers, at most 6 for each connection. (Number 0 stands for no
-- connection or mailbox and has no limit.)
pub run-Fits :
    (sha256_hex : Text → Text) (max_conns per_cred_idle idle_timeout : ℕ) (events : List Event)
    → FitsWorld (run sha256_hex (start max_conns per_cred_idle idle_timeout) events)
run-Fits sha256_hex max_conns per_cred_idle idle_timeout events =
    run_from-Fits sha256_hex _ events (start-Fits max_conns per_cred_idle idle_timeout)
