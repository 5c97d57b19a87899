-- ===== src/ImapPool/Frame.antt =====
-- Which critical sections of internal/mailproto/imappool/pool.go leave the slots alone: all but
-- `reserve` and `release`.
use mailhearth.Common.{ℕ, ◌≡◌, refl, inl, inr, Bool, ◌||◌, ◌&&◌, not, some, arith, Text, Bool-cases}
use mailhearth.ImapPool.Cred.{Cred}
use mailhearth.ImapPool.State.{Pool}
use mailhearth.ImapPool.Conns.{
  reuse, get_start, hand_out, is_current, begin_dial, was_cancelled, finish_dial, end_dial,
  close_conn, put, Target, connection, mailbox, with_epoch, invalidate, reap, close_pool,
}
use mailhearth.ImapPool.Watch.{register, stop_watcher, drop_watcher}

-- The slots of `q` are those of `p`, and nobody was told that one is free.
pub record SameSlots (p q : Pool) : Type 0 where
  pub sem : q.sem ≡ p.sem
  pub connection : q.connection_use ≡ p.connection_use
  pub mailbox : q.mailbox_use ≡ p.mailbox_use
  pub max : q.max_conns ≡ p.max_conns
  pub capacity : q.capacity ≡ p.capacity

pub same : (p : Pool) → SameSlots p p
same p = record { sem = refl; connection = refl; mailbox = refl; max = refl; capacity = refl }

pub get_start-SameSlots :
    (sha256_hex : Text → Text) (p : Pool) (cred : Cred) (fresh ended : Bool) (c : ℕ) (q : Pool)
    → get_start sha256_hex p cred fresh ended ≡ reuse c q
    → SameSlots p q
unfolding get_start
get_start-SameSlots sha256_hex p cred fresh ended c q h = record {
  sem = ground arith;
  connection = ground arith;
  mailbox = ground arith;
  max = ground arith;
  capacity = ground arith;
}

pub hand_out-SameSlots : (p : Pool) (c : ℕ) → SameSlots p (hand_out p c)
unfolding hand_out
hand_out-SameSlots p c = record {
  sem = refl;
  connection = refl;
  mailbox = refl;
  max = refl;
  capacity = refl;
}

pub begin_dial-SameSlots :
    (p : Pool) (cred : Cred) (e m d : ℕ) (q : Pool)
    → begin_dial p cred e m ≡ some (d, q)
    → SameSlots p q
unfolding begin_dial
begin_dial-SameSlots p cred e m d q h = record {
  sem = ground arith;
  connection = ground arith;
  mailbox = ground arith;
  max = ground arith;
  capacity = ground arith;
}

pub finish_dial-SameSlots :
    (sha256_hex : Text → Text) (p : Pool) (cred : Cred) (d e m : ℕ) (fresh ended : Bool) (now : ℕ)
    → SameSlots p (finish_dial sha256_hex p cred d e m fresh ended now).1
unfolding finish_dial
finish_dial-SameSlots sha256_hex p cred d e m fresh ended now =
    elim (Bool-cases (is_current p cred e m && not (ended || was_cancelled d p.pending))) [
      | inl h ↦
          rw h
            (record { sem = refl; connection = refl; mailbox = refl; max = refl; capacity = refl })
      | inr h ↦
          rw h
            (record { sem = refl; connection = refl; mailbox = refl; max = refl; capacity = refl })
    ]

pub close_conn-SameSlots : (p : Pool) (c : ℕ) → SameSlots p (close_conn p c).1
unfolding close_conn
close_conn-SameSlots p c = record {
  sem = ground arith;
  connection = ground arith;
  mailbox = ground arith;
  max = ground arith;
  capacity = ground arith;
}

pub put-SameSlots : (p : Pool) (c : ℕ) (alive : Bool) (now : ℕ) → SameSlots p (put p c alive now).1
unfolding put
put-SameSlots p c alive now = record {
  sem = ground arith;
  connection = ground arith;
  mailbox = ground arith;
  max = ground arith;
  capacity = ground arith;
}

pub invalidate-SameSlots : (p : Pool) (t : Target) → SameSlots p (invalidate p t).1
unfolding invalidate with_epoch
invalidate-SameSlots p (connection id) = record {
  sem = refl;
  connection = refl;
  mailbox = refl;
  max = refl;
  capacity = refl;
}
invalidate-SameSlots p (mailbox id) = record {
  sem = refl;
  connection = refl;
  mailbox = refl;
  max = refl;
  capacity = refl;
}

pub reap-SameSlots : (p : Pool) (alive : ℕ → Bool) (now : ℕ) → SameSlots p (reap p alive now).1
unfolding reap
reap-SameSlots p alive now = record {
  sem = refl;
  connection = refl;
  mailbox = refl;
  max = refl;
  capacity = refl;
}

pub close_pool-SameSlots : (p : Pool) → SameSlots p (close_pool p).1
unfolding close_pool
close_pool-SameSlots p = record {
  sem = ground arith;
  connection = ground arith;
  mailbox = ground arith;
  max = ground arith;
  capacity = ground arith;
}

pub end_dial-SameSlots : (p : Pool) (d : ℕ) → SameSlots p (end_dial p d)
unfolding end_dial
end_dial-SameSlots p d = record {
  sem = refl;
  connection = refl;
  mailbox = refl;
  max = refl;
  capacity = refl;
}

pub register-SameSlots :
    (p : Pool) (cred : Cred) (k : Text) (e m w : ℕ) (q : Pool)
    → register p cred k e m ≡ some (w, q)
    → SameSlots p q
unfolding register
register-SameSlots p cred k e m w q h = record {
  sem = ground arith;
  connection = ground arith;
  mailbox = ground arith;
  max = ground arith;
  capacity = ground arith;
}

pub stop_watcher-SameSlots : (p : Pool) (w : ℕ) → SameSlots p (stop_watcher p w).1
unfolding stop_watcher
stop_watcher-SameSlots p w = record {
  sem = ground arith;
  connection = ground arith;
  mailbox = ground arith;
  max = ground arith;
  capacity = ground arith;
}

pub drop_watcher-SameSlots : (p : Pool) (w : ℕ) → SameSlots p (drop_watcher p w)
unfolding drop_watcher
drop_watcher-SameSlots p w = record {
  sem = ground arith;
  connection = ground arith;
  mailbox = ground arith;
  max = ground arith;
  capacity = ground arith;
}
