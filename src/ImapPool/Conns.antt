-- ===== src/ImapPool/Conns.antt =====
-- Getting, putting back, closing, invalidating and reaping connections: the critical sections of
-- `get`, `Put`, `close`, `invalidate`, `reaper` and `Close` of
-- internal/mailproto/imappool/pool.go. What the network decides (whether a connection is alive,
-- whether a dial succeeds, whether a context has ended) comes as a Boolean argument.
use mailhearth.Common.{
  ℕ, ◌+◌, ◌%◌, Bool, true, false, not, ◌&&◌, ◌||◌, List, [], ◌∷◌, ◌++◌, map, Option, none, some,
  Text, ltb, leb, ◌==◌, if◌then◌else◌, length, keep_if,
}
use mailhearth.ImapPool.Cred.{Cred, key}
use mailhearth.ImapPool.State.{Pool, Conn, Pending, update, u64_mod, lookup_or, assign, delete}

-- The last entry of a list and what stands before it.
unfoldable pub split_last : List ℕ → Option (List ℕ × ℕ)
split_last [] = none
split_last (x ∷ []) = some ([], x)
split_last (x ∷ y ∷ xs) = elim (split_last (y ∷ xs)) [
  | none ↦ none
  | some (front, z) ↦ some (x ∷ front, z)
]

-- The first section of `get`: an idle connection is taken off, newest first, or a new one is to be
-- dialled, under the epochs of this moment.
pub data Start : Type 0 where
  context_ended : Start
  closed_pool : Start
  reuse : ℕ → Pool → Start
  dial_anew : ℕ → ℕ → Start

unfoldable pub get_start : (Text → Text) → Pool → Cred → Bool → Bool → Start
unfolding split_last
get_start sha256_hex p cred fresh ended =
    let k = key sha256_hex cred in
    let anew =
      dial_anew (p.connection_epoch cred.connection_id) (p.mailbox_epoch cred.mailbox_id) in
    if ended
    then context_ended
    else if p.closed
    then closed_pool
    else if fresh
    then anew
    else elim (split_last (lookup_or [] k p.idle)) [
      | none ↦ anew
      | some (front, c) ↦ reuse c (record p { idle = assign k front p.idle })
    ]

-- An idle connection that is still alive is handed out; its cached selection may be old.
unfoldable pub hand_out : Pool → ℕ → Pool
hand_out p c = record p { conns = update p.conns c (record (p.conns c) { refresh = true }) }

-- The second section: after a slot was reserved, the dial is registered unless the pool was closed
-- or the login was invalidated since the first section.
unfoldable pub is_current : Pool → Cred → ℕ → ℕ → Bool
is_current p cred connection_epoch mailbox_epoch =
    not p.closed
    && ((p.connection_epoch cred.connection_id == connection_epoch)
        && (p.mailbox_epoch cred.mailbox_id == mailbox_epoch))

unfoldable pub begin_dial : Pool → Cred → ℕ → ℕ → Option (ℕ × Pool)
begin_dial p cred connection_epoch mailbox_epoch =
    let dial = (p.next_dial + 1) % u64_mod in
    if is_current p cred connection_epoch mailbox_epoch
    then some (
      dial,
      record p {
        next_dial = dial;
        pending = record { dial = dial; cred = cred; cancelled = false } ∷ p.pending;
      },
    )
    else none

-- Whether the context of a registered dial was cancelled.
unfoldable pub was_cancelled : ℕ → List Pending → Bool
was_cancelled d [] = false
was_cancelled d (q ∷ pending) = if q.dial == d then q.cancelled else was_cancelled d pending

-- The third section, after a dial that succeeded: the new connection is one of the pool's if
-- nothing has changed, and is to be closed if something has. A connection that is not for reuse is
-- marked as broken.
unfoldable pub finish_dial : (Text → Text) → Pool → Cred → ℕ → ℕ → ℕ → Bool → Bool → ℕ → Bool × Pool
finish_dial sha256_hex p cred dial connection_epoch mailbox_epoch fresh ended now =
    let c = p.next_conn in
    let conn : Conn = record {
      cred = cred;
      key = key sha256_hex cred;
      last_used = now;
      refresh = false;
      broken = fresh;
      closed_once = false;
    } in
    let q = record p { conns = update p.conns c conn; next_conn = c + 1 } in
    if is_current p cred connection_epoch mailbox_epoch
      && not (ended || was_cancelled dial p.pending)
    then (true, record q { all = c ∷ p.all })
    else (false, q)

-- The deferred end of `get`: the dial is no longer pending.
unfoldable pub end_dial : Pool → ℕ → Pool
end_dial p dial = record p { pending = keep_if (λ q. not (q.dial == dial)) p.pending }

-- `close` up to the release: done once for each connection.
unfoldable pub close_conn : Pool → ℕ → Bool × Pool
close_conn p c = if (p.conns c).closed_once then (false, p) else (
  true,
  record p {
    conns = update p.conns c (record (p.conns c) { broken = true; closed_once = true });
    all = keep_if (λ d. not (d == c)) p.all;
  },
)

-- Put: true if the connection went back to the idle ones, false if it is to be closed.
unfoldable pub put : Pool → ℕ → Bool → ℕ → Bool × Pool
put p c alive now =
    let conn = p.conns c in
    let l = lookup_or [] conn.key p.idle in
    if conn.broken || not alive
    then (false, p)
    else if p.closed || leb p.per_cred_idle (length l)
    then (false, p)
    else (
      true,
      record p {
        conns = update p.conns c (record conn { last_used = now });
        idle = assign conn.key (l ++ c ∷ []) p.idle;
      },
    )

-- What is invalidated: all logins of a connection or of a mailbox.
pub data Target : Type 0 where
  connection mailbox : ℕ → Target

unfoldable pub matches : Target → Cred → Bool
matches (connection id) c = c.connection_id == id
matches (mailbox id) c = c.mailbox_id == id

unfoldable pub bump : (ℕ → ℕ) → ℕ → ℕ → ℕ
bump epoch id = if ltb 0 id then update epoch id ((epoch id + 1) % u64_mod) else epoch

cancel_matching : Target → List Pending → List Pending
cancel_matching t [] = []
cancel_matching t (q ∷ pending) =
    let rest = cancel_matching t pending in
    if matches t q.cred then record q { cancelled = true } ∷ rest else q ∷ rest

delete_keys : (ℕ → Conn) → List ℕ → List (Text × List ℕ) → List (Text × List ℕ)
delete_keys conns [] idle = idle
delete_keys conns (c ∷ cs) idle = delete_keys conns cs (delete (conns c).key idle)

unfoldable pub with_epoch : Pool → Target → Pool
unfolding bump
with_epoch p (connection id) = record p { connection_epoch = bump p.connection_epoch id }
with_epoch p (mailbox id) = record p { mailbox_epoch = bump p.mailbox_epoch id }

-- The section of `invalidate` under the lock, with the connections that it closes and the watchers
-- that it shuts down afterwards.
unfoldable pub invalidate : Pool → Target → (List ℕ × List ℕ) × Pool
unfolding with_epoch cancel_matching delete_keys
invalidate p t =
    let q = with_epoch p t in
    let found = keep_if (λ c. matches t (p.conns c).cred) p.all in
    let listeners = keep_if (λ w. matches t (p.watchers w).cred) (map (λ e. e.1) p.wtch) in
    (
      (found, listeners),
      record q { pending = cancel_matching t p.pending; idle = delete_keys p.conns found p.idle },
    )

-- One round of the reaper: what has been idle too long, or has ended, is taken off and closed.
is_old : Pool → (ℕ → Bool) → ℕ → ℕ → Bool
is_old p alive now c = ltb ((p.conns c).last_used + p.idle_timeout) now || not (alive c)

sweep : Pool → (ℕ → Bool) → ℕ → List (Text × List ℕ) → List ℕ × List (Text × List ℕ)
unfolding is_old
sweep p alive now [] = ([], [])
sweep p alive now ((k, l) ∷ idle) =
    let rest = sweep p alive now idle in
    let keep = keep_if (λ c. not (is_old p alive now c)) l in
    let old = keep_if (is_old p alive now) l in
    (old ++ rest.0, if length keep == 0 then rest.1 else (k, keep) ∷ rest.1)

unfoldable pub reap : Pool → (ℕ → Bool) → ℕ → List ℕ × Pool
unfolding sweep
reap p alive now =
    let (victims, idle) = sweep p alive now p.idle in (victims, record p { idle = idle })

cancel_all : List Pending → List Pending
cancel_all [] = []
cancel_all (q ∷ pending) = record q { cancelled = true } ∷ cancel_all pending

-- The section of `Close` under the lock, with the connections that it closes and the watchers that
-- it shuts down afterwards.
unfoldable pub close_pool : Pool → (List ℕ × List ℕ) × Pool
unfolding cancel_all
close_pool p = if p.closed then (([], []), p) else (
  (p.all, map (λ e. e.1) p.wtch),
  record p { closed = true; pending = cancel_all p.pending; idle = [] },
)
