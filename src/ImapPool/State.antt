-- ===== src/ImapPool/State.antt =====
-- The state of the pool (`Pool`, `Conn`, `New`, `reserve`, `release` and `pendingDial` of
-- internal/mailproto/imappool/pool.go). Connections and watchers are objects that several
-- goroutines hold, so they live in a heap and are named by their numbers. A map from keys is an
-- association list; a map from ids to counters is a function. The channel `capacity`, which is
-- closed and made anew at each release, is a number that grows.
use mailhearth.Common.{
  ℕ, ◌+◌, ◌-◌, Bool, false, ◌&&◌, ◌||◌, List, [], ◌∷◌, Text, text_eq, ltb, ◌==◌, if◌then◌else◌,
}
use Prim.Native.Nat.{◌^◌}
use mailhearth.ImapPool.Cred.{Cred}

pub record Conn : Type 0 where
  pub cred : Cred
  pub key : Text
  pub last_used : ℕ
  pub refresh : Bool
  pub broken : Bool
  -- The body of `closeOnce` has begun.
  pub closed_once : Bool

pub record Pending : Type 0 where
  pub dial : ℕ
  pub cred : Cred
  pub cancelled : Bool

pub record Watcher : Type 0 where
  pub cred : Cred
  pub key : Text
  pub stopped : Bool

pub record Pool : Type 0 where
  pub max_conns : ℕ
  pub per_cred_idle : ℕ
  pub idle_timeout : ℕ
  -- len(p.sem)
  pub sem : ℕ
  pub idle : List (Text × List ℕ)
  pub wtch : List (Text × ℕ)
  pub all : List ℕ
  pub connection_use : ℕ → ℕ
  pub mailbox_use : ℕ → ℕ
  pub capacity : ℕ
  pub connection_epoch : ℕ → ℕ
  pub mailbox_epoch : ℕ → ℕ
  pub pending : List Pending
  pub next_dial : ℕ
  pub closed : Bool
  -- The heap: connections and watchers by number, and the next free numbers.
  pub conns : ℕ → Conn
  pub next_conn : ℕ
  pub watchers : ℕ → Watcher
  pub next_watcher : ℕ

-- f with the value v at i.
abbrev pub update {ℓ} : {A : Type ℓ} → (ℕ → A) → ℕ → A → ℕ → A
update f i v j = if j == i then v else f j

-- Counters of type uint64.
abbrev pub u64_mod : ℕ
u64_mod = 2 ^ 64

-- m[k] of a map from keys; a missing key has the value given.
unfoldable pub lookup_or {ℓ} : {A : Type ℓ} → A → Text → List (Text × A) → A
lookup_or none_there k [] = none_there
lookup_or none_there k ((j, v) ∷ m) = if text_eq j k then v else lookup_or none_there k m

-- m[k] = v
unfoldable pub assign {ℓ} : {A : Type ℓ} → Text → A → List (Text × A) → List (Text × A)
assign k v [] = (k, v) ∷ []
assign k v ((j, w) ∷ m) = if text_eq j k then (k, v) ∷ m else (j, w) ∷ assign k v m

-- delete(m, k)
unfoldable pub delete {ℓ} : {A : Type ℓ} → Text → List (Text × A) → List (Text × A)
delete k [] = []
delete k ((j, w) ∷ m) = let rest = delete k m in if text_eq j k then rest else (j, w) ∷ rest

-- The heap before anything was allocated.
abbrev no_cred : Cred
no_cred = record {
  user = [];
  pass = [];
  org_id = 0;
  connection_id = 0;
  mailbox_id = 0;
  connection_revision = 0;
  endpoint_revision = 0;
  credential_id = 0;
  credential_generation = 0;
  addr = [];
  tls_mode = [];
}

abbrev no_conn : Conn
no_conn = record {
  cred = no_cred;
  key = [];
  last_used = 0;
  refresh = false;
  broken = false;
  closed_once = false;
}

abbrev no_watcher : Watcher
no_watcher = record { cred = no_cred; key = []; stopped = false }

-- New: limits that are missing or too large are replaced. A limit that is not positive is 0 here,
-- and the timeout of 90 seconds is in milliseconds.
unfoldable pub new_pool : ℕ → ℕ → ℕ → Pool
new_pool max_conns per_cred_idle idle_timeout = record {
  max_conns = if (max_conns == 0) || ltb 24 max_conns then 24 else max_conns;
  per_cred_idle = if per_cred_idle == 0 then 2 else per_cred_idle;
  idle_timeout = if idle_timeout == 0 then 90000 else idle_timeout;
  sem = 0;
  idle = [];
  wtch = [];
  all = [];
  connection_use = λ i. 0;
  mailbox_use = λ i. 0;
  capacity = 0;
  connection_epoch = λ i. 0;
  mailbox_epoch = λ i. 0;
  pending = [];
  next_dial = 0;
  closed = false;
  conns = λ i. no_conn;
  next_conn = 0;
  watchers = λ i. no_watcher;
  next_watcher = 0;
}

-- One round of the loop in `reserve`: `full` hands out the channel to wait for.
pub data Reserved : Type 0 where
  reserved : Pool → Reserved
  pool_closed : Reserved
  full : ℕ → Reserved

-- The limits that the round compares with: fewer for a watcher.
abbrev pub global_max : Pool → Bool → ℕ
global_max p watch = if watch then p.max_conns - 4 else p.max_conns

abbrev pub connection_max : Bool → ℕ
connection_max watch = if watch then 6 else 8

unfoldable pub has_room : Pool → Cred → Bool → Bool
has_room p cred watch =
    ltb p.sem (global_max p watch)
    && (((cred.connection_id == 0)
          || ltb (p.connection_use cred.connection_id) (connection_max watch))
        && ((cred.mailbox_id == 0) || ltb (p.mailbox_use cred.mailbox_id) 3))

unfoldable pub reserve : Pool → Cred → Bool → Reserved
reserve p cred watch =
    if p.closed
    then pool_closed
    else if has_room p cred watch
    then reserved (record p {
      sem = p.sem + 1;
      connection_use =
          update p.connection_use cred.connection_id (p.connection_use cred.connection_id + 1);
      mailbox_use = update p.mailbox_use cred.mailbox_id (p.mailbox_use cred.mailbox_id + 1);
    })
    else full p.capacity

-- The receive from `sem` would wait on an empty channel, and Go's counters could go below 0; here all
-- three stop at 0.
unfoldable pub release : Pool → Cred → Pool
release p cred = record p {
  sem = p.sem - 1;
  connection_use =
      update p.connection_use cred.connection_id (p.connection_use cred.connection_id - 1);
  mailbox_use = update p.mailbox_use cred.mailbox_id (p.mailbox_use cred.mailbox_id - 1);
  capacity = p.capacity + 1;
}
