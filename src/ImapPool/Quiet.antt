-- ===== src/ImapPool/Quiet.antt =====
-- The steps of single goroutines of internal/mailproto/imappool/pool.go, other than `reserve` and
-- `release`: none of them touches the slots.
use mailhearth.Common.{ℕ, ◌≡◌, inl, inr, Bool, Option, some, Option-cases, Bool-cases, Text}
use mailhearth.ImapPool.Cred.{Cred}
use mailhearth.ImapPool.Conns.{Start, reuse, get_start, begin_dial, close_conn}
use mailhearth.ImapPool.Watch.{register}
use mailhearth.ImapPool.World.{
  World, Holder, reserving, dialing, open_conn, subscribing, watching, begin_step, fail_step,
  succeed_step, take_step, close_step, register_step, watch_end_step,
}
use mailhearth.ImapPool.Frame.{
  SameSlots, same, get_start-SameSlots, begin_dial-SameSlots, finish_dial-SameSlots,
  close_conn-SameSlots, register-SameSlots,
}

module _ (sha256_hex : Text → Text) where
  pub begin_step-Same :
      (w : World) (n : ℕ) (o : Option Holder) → SameSlots w.pool (begin_step sha256_hex w n o).pool
  unfolding begin_step
  begin_step-Same w n (some (reserving c e m fresh)) =
      elim (Option-cases (begin_dial w.pool c e m)) [
        | inl h ↦ rw (begin_step, h) (same w.pool)
        | inr ((d, p), h) ↦ rw (begin_step, h) (begin_dial-SameSlots w.pool c e m d p h)
      ]
  begin_step-Same w n _ = same w.pool

  pub fail_step-Same :
      (w : World) (n : ℕ) (o : Option Holder) → SameSlots w.pool (fail_step sha256_hex w n o).pool
  unfolding fail_step
  fail_step-Same w n (some (dialing c d e m fresh)) = same w.pool
  fail_step-Same w n _ = same w.pool

  pub succeed_step-Same :
      (w : World) (n : ℕ) (ended : Bool) (now : ℕ) (o : Option Holder)
      → SameSlots w.pool (succeed_step sha256_hex w n ended now o).pool
  unfolding succeed_step
  succeed_step-Same w n ended now (some (dialing c d e m fresh)) =
      finish_dial-SameSlots sha256_hex w.pool c d e m fresh ended now
  succeed_step-Same w n ended now _ = same w.pool

  pub take_step-Same :
      (w : World) (c : Cred) (fresh ended : Bool) (s : Start)
      → get_start sha256_hex w.pool c fresh ended ≡ s
      → SameSlots w.pool (take_step sha256_hex w s).pool
  unfolding take_step
  take_step-Same w c fresh ended (reuse i q) e =
      get_start-SameSlots sha256_hex w.pool c fresh ended i q e
  take_step-Same w c fresh ended _ e = same w.pool

  pub close_step-Same :
      (w : World) (n : ℕ) (o : Option Holder) → SameSlots w.pool (close_step sha256_hex w n o).pool
  unfolding close_step
  close_step-Same w n (some (open_conn c i)) = elim (Bool-cases (close_conn w.pool i).0) [
    | inl h ↦ rw (close_step, h) (close_conn-SameSlots w.pool i)
    | inr h ↦ rw (close_step, h) (same w.pool)
  ]
  close_step-Same w n _ = same w.pool

  pub register_step-Same :
      (w : World) (n : ℕ) (o : Option Holder)
      → SameSlots w.pool (register_step sha256_hex w n o).pool
  unfolding register_step
  register_step-Same w n (some (subscribing c k e m)) =
      elim (Option-cases (register w.pool c k e m)) [
        | inl h ↦ rw (register_step, h) (same w.pool)
        | inr ((v, p), h) ↦ rw (register_step, h) (register-SameSlots w.pool c k e m v p h)
      ]
  register_step-Same w n _ = same w.pool

  pub watch_end_step-Same :
      (w : World) (n : ℕ) (o : Option Holder)
      → SameSlots w.pool (watch_end_step sha256_hex w n o).pool
  unfolding watch_end_step
  watch_end_step-Same w n (some (watching c v)) = same w.pool
  watch_end_step-Same w n _ = same w.pool
