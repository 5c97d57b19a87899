-- ===== src/ImapPool/Watch.antt =====
-- The watchers that share one IDLE connection (`SubscribeChecked`, `shutdown` and `run` of
-- internal/mailproto/imappool/pool.go), as far as they take slots and stand in the map of watchers.
-- The subscribers' channels and the IDLE session are not modelled.
use mailhearth.Common.{
  ℕ, ◌+◌, Bool, true, false, List, ◌∷◌, ◌++◌, map, Option, none, some, Text, ◌==◌, if◌then◌else◌,
}
use mailhearth.ImapPool.Cred.{Cred, key}
use mailhearth.ImapPool.State.{Pool, Watcher, update, lookup_or, assign, delete}
use mailhearth.ImapPool.Conns.{is_current}

-- p.wtch[key]
unfoldable pub watcher_at : Text → List (Text × ℕ) → Option ℕ
watcher_at k m = lookup_or none k (map (λ e. (e.0, some e.1)) m)

unfoldable pub watch_key : (Text → Text) → Cred → Text → Text
watch_key sha256_hex cred mailbox = key sha256_hex cred ++ (b'|' ∷ mailbox)

-- The first section: a watcher that is there is joined; otherwise a slot is to be reserved.
pub data Subscribe : Type 0 where
  closed_pool : Subscribe
  join : ℕ → Subscribe
  start_anew : ℕ → ℕ → Subscribe

unfoldable pub subscribe_start : Pool → Cred → Text → Subscribe
unfolding watcher_at
subscribe_start p cred k = if p.closed then closed_pool else elim (watcher_at k p.wtch) [
  | none ↦ start_anew (p.connection_epoch cred.connection_id) (p.mailbox_epoch cred.mailbox_id)
  | some w ↦ join w
]

-- The second section, with a slot reserved: the watcher is entered, unless the pool was closed, the
-- login was invalidated, or another watcher came first. In these cases the slot is given back.
unfoldable pub register : Pool → Cred → Text → ℕ → ℕ → Option (ℕ × Pool)
unfolding watcher_at
register p cred k connection_epoch mailbox_epoch =
    let w = p.next_watcher in
    let watcher : Watcher = record { cred = cred; key = k; stopped = false } in
    if is_current p cred connection_epoch mailbox_epoch
    then elim (watcher_at k p.wtch) [
      | none ↦ some (
        w,
        record p {
          watchers = update p.watchers w watcher;
          next_watcher = w + 1;
          wtch = assign k w p.wtch;
        },
      )
      | some other ↦ none
    ]
    else none

-- `shutdown` under the watcher's lock: the first call stops it.
unfoldable pub stop_watcher : Pool → ℕ → Bool × Pool
stop_watcher p w = if (p.watchers w).stopped then (false, p) else (
  true,
  record p { watchers = update p.watchers w (record (p.watchers w) { stopped = true }) },
)

unfoldable pub is_watcher : ℕ → Option ℕ → Bool
is_watcher w none = false
is_watcher w (some v) = v == w

-- `shutdown` under the pool's lock: the map forgets the watcher, if it is still this one.
unfoldable pub drop_watcher : Pool → ℕ → Pool
unfolding watcher_at is_watcher
drop_watcher p w =
    let k = (p.watchers w).key in
    if is_watcher w (watcher_at k p.wtch) then record p { wtch = delete k p.wtch } else p
