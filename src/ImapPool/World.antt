-- ===== src/ImapPool/World.antt =====
-- The pool with its goroutines, as far as they hold slots: every interleaving of the critical
-- sections of internal/mailproto/imappool/pool.go is a list of events. A goroutine that reserved a
-- slot is a holder until it releases the slot; what it does in between is the holder's state. An
-- event that does not fit the state changes nothing.
use mailhearth.Common.{
  ℕ, Bool, true, false, List, [], ◌∷◌, Option, none, some, Text, if◌then◌else◌, get_elem?, set,
  erase_at,
}
use mailhearth.ImapPool.Cred.{Cred}
use mailhearth.ImapPool.State.{
  Pool, Reserved, reserved, pool_closed, full, reserve, release, new_pool,
}
use mailhearth.ImapPool.Conns.{
  Start, reuse, get_start, hand_out, begin_dial, finish_dial, end_dial, close_conn, put, Target,
  invalidate, reap, close_pool,
}
use mailhearth.ImapPool.Watch.{register, stop_watcher, drop_watcher}

-- The numbers are the epochs of the connection and of the mailbox that `get` or `SubscribeChecked`
-- read before it reserved the slot; the Boolean says whether a connection of its own was asked for.
pub data Holder : Type 0 where
  reserving : Cred → ℕ → ℕ → Bool → Holder
  dialing : Cred → ℕ → ℕ → ℕ → Bool → Holder
  open_conn : Cred → ℕ → Holder
  subscribing : Cred → Text → ℕ → ℕ → Holder
  watching : Cred → ℕ → Holder
  leaving : Cred → Holder

pub record World : Type 0 where
  pub pool : Pool
  pub holders : List Holder

abbrev pub cred_of : Holder → Cred
cred_of (reserving c e m f) = c
cred_of (dialing c d e m f) = c
cred_of (open_conn c i) = c
cred_of (subscribing c k e m) = c
cred_of (watching c w) = c
cred_of (leaving c) = c

-- A slot that a watcher holds.
abbrev pub is_watch : Holder → Bool
is_watch (subscribing c k e m) = true
is_watch (watching c w) = true
is_watch _ = false

pub data Event : Type 0 where
  reserves : Cred → ℕ → ℕ → Bool → Event
  begins : ℕ → Event
  dial_fails : ℕ → Event
  dial_succeeds : ℕ → Bool → ℕ → Event
  ends_dial : ℕ → Event
  takes : Cred → Bool → Bool → Event
  hands : ℕ → Event
  puts : ℕ → Bool → ℕ → Event
  closes : ℕ → Event
  leaves : ℕ → Event
  watch_reserves : Cred → Text → ℕ → ℕ → Event
  registers : ℕ → Event
  watch_ends : ℕ → Event
  stops : ℕ → Event
  drops : ℕ → Event
  invalidates : Target → Event
  reaps : (ℕ → Bool) → ℕ → Event
  shuts : Event

abbrev pub with_pool : World → Pool → World
with_pool w p = record w { pool = p }

-- The slot of a round of `reserve` that found room.
unfoldable pub enter : World → Holder → Reserved → World
enter w h (reserved p) = record { pool = p; holders = h ∷ w.holders }
enter w h pool_closed = w
enter w h (full c) = w

module _ (sha256_hex : Text → Text) where
  -- The holder with number `n`, if there is one, takes its next step.
  unfoldable pub begin_step : World → ℕ → Option Holder → World
  begin_step w n (some (reserving c e m f)) = elim (begin_dial w.pool c e m) [
    | none ↦ record w { holders = set w.holders n (leaving c) }
    | some (d, p) ↦ record { pool = p; holders = set w.holders n (dialing c d e m f) }
  ]
  begin_step w n _ = w

  unfoldable pub fail_step : World → ℕ → Option Holder → World
  fail_step w n (some (dialing c d e m f)) = record w { holders = set w.holders n (leaving c) }
  fail_step w n _ = w

  unfoldable pub succeed_step : World → ℕ → Bool → ℕ → Option Holder → World
  succeed_step w n ended now (some (dialing c d e m f)) = record {
    pool = (finish_dial sha256_hex w.pool c d e m f ended now).1;
    holders = set w.holders n (open_conn c w.pool.next_conn);
  }
  succeed_step w n ended now _ = w

  unfoldable pub take_step : World → Start → World
  take_step w (reuse c p) = with_pool w p
  take_step w _ = w

  unfoldable pub close_step : World → ℕ → Option Holder → World
  close_step w n (some (open_conn c i)) =
      let (done, p) = close_conn w.pool i in
      if done then record { pool = p; holders = set w.holders n (leaving c) } else w
  close_step w n _ = w

  unfoldable pub leave_step : World → ℕ → Option Holder → World
  leave_step w n (some (leaving c)) = record {
    pool = release w.pool c;
    holders = erase_at w.holders n;
  }
  leave_step w n _ = w

  unfoldable pub register_step : World → ℕ → Option Holder → World
  register_step w n (some (subscribing c k e m)) = elim (register w.pool c k e m) [
    | none ↦ record w { holders = set w.holders n (leaving c) }
    | some (v, p) ↦ record { pool = p; holders = set w.holders n (watching c v) }
  ]
  register_step w n _ = w

  unfoldable pub watch_end_step : World → ℕ → Option Holder → World
  watch_end_step w n (some (watching c v)) = record w { holders = set w.holders n (leaving c) }
  watch_end_step w n _ = w

  unfoldable pub step : World → Event → World
  step w (reserves c e m f) = enter w (reserving c e m f) (reserve w.pool c false)
  step w (begins n) = begin_step w n (get_elem? w.holders n)
  step w (dial_fails n) = fail_step w n (get_elem? w.holders n)
  step w (dial_succeeds n ended now) = succeed_step w n ended now (get_elem? w.holders n)
  step w (ends_dial d) = with_pool w (end_dial w.pool d)
  step w (takes c f ended) = take_step w (get_start sha256_hex w.pool c f ended)
  step w (hands c) = with_pool w (hand_out w.pool c)
  step w (puts c alive now) = with_pool w (put w.pool c alive now).1
  step w (closes n) = close_step w n (get_elem? w.holders n)
  step w (leaves n) = leave_step w n (get_elem? w.holders n)
  step w (watch_reserves c k e m) = enter w (subscribing c k e m) (reserve w.pool c true)
  step w (registers n) = register_step w n (get_elem? w.holders n)
  step w (watch_ends n) = watch_end_step w n (get_elem? w.holders n)
  step w (stops v) = with_pool w (stop_watcher w.pool v).1
  step w (drops v) = with_pool w (drop_watcher w.pool v)
  step w (invalidates t) = with_pool w (invalidate w.pool t).1
  step w (reaps alive now) = with_pool w (reap w.pool alive now).1
  step w shuts = with_pool w (close_pool w.pool).1

  unfoldable pub run : World → List Event → World
  run w [] = w
  run w (e ∷ events) = run (step w e) events

abbrev pub start : ℕ → ℕ → ℕ → World
start max_conns per_cred_idle idle_timeout = record {
  pool = new_pool max_conns per_cred_idle idle_timeout;
  holders = [];
}
