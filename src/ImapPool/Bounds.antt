-- ===== src/ImapPool/Bounds.antt =====
-- The slots in every interleaving of internal/mailproto/imappool/pool.go: the counters count the
-- holders, and the limits hold.
use mailhearth.Common.{
  ℕ, ◌-◌, ◌≤◌, ◌≡◌, ◌≢◌, sym, ◌∙◌, inl, inr, Bool, true, ◌&&◌, List, some, arith, ◌==◌, length,
  count_if, weight, get_elem?, set, length-set, count_if-set, Bool-cases, ap,
}
use mailhearth.ImapPool.State.{Pool}
use mailhearth.ImapPool.World.{Holder, cred_of, is_watch}
use mailhearth.ImapPool.Frame.{SameSlots}

-- The holders that count for a connection, for a mailbox, and the watchers of a connection.
abbrev pub on_connection : ℕ → Holder → Bool
on_connection i h = (cred_of h).connection_id == i

abbrev pub on_mailbox : ℕ → Holder → Bool
on_mailbox i h = (cred_of h).mailbox_id == i

abbrev pub watches_on : ℕ → Holder → Bool
watches_on i h = is_watch h && on_connection i h

-- The counters are the numbers of holders, and the holders are within the limits.
pub record Fits (p : Pool) (holders : List Holder) : Type 0 where
  pub sem : p.sem ≡ length holders
  pub connections : (i : ℕ) → p.connection_use i ≡ count_if (on_connection i) holders
  pub mailboxes : (i : ℕ) → p.mailbox_use i ≡ count_if (on_mailbox i) holders
  pub at_most_24 : p.max_conns ≤ 24
  pub within : length holders ≤ p.max_conns
  pub per_connection : (i : ℕ) → i ≢ 0 → count_if (on_connection i) holders ≤ 8
  pub per_mailbox : (i : ℕ) → i ≢ 0 → count_if (on_mailbox i) holders ≤ 3
  pub watchers : count_if is_watch holders ≤ p.max_conns - 4
  pub watchers_per_connection : (i : ℕ) → i ≢ 0 → count_if (watches_on i) holders ≤ 6

pub frame-Fits :
    (p q : Pool) (holders : List Holder) → SameSlots p q → Fits p holders → Fits q holders
frame-Fits p q holders s f = record {
  sem = s.sem ∙ f.sem;
  connections = λ i. ap (λ f. f i) s.connection ∙ f.connections i;
  mailboxes = λ i. ap (λ f. f i) s.mailbox ∙ f.mailboxes i;
  at_most_24 = omega (arith, s.max, f.at_most_24);
  within = omega (arith, s.max, f.within);
  per_connection = f.per_connection;
  per_mailbox = f.per_mailbox;
  watchers = omega (arith, s.max, f.watchers);
  watchers_per_connection = f.watchers_per_connection;
}

-- What a holder turns into: it keeps its login, and becomes no watcher.
pub record Follows (x v : Holder) : Type 0 where
  pub cred : cred_of v ≡ cred_of x
  pub watch : is_watch v ≡ true → is_watch x ≡ true

count-le :
    (p : Holder → Bool) (holders : List Holder) (n : ℕ) (x v : Holder)
    → get_elem? holders n ≡ some x
    → (p v ≡ true → p x ≡ true)
    → count_if p (set holders n v) ≤ count_if p holders
count-le p holders n x v h less =
    let moved = count_if-set p holders n x v h in
    elim (Bool-cases (p v)) [
      | inl e ↦ ground (arith, moved, less e, e)
      | inr e ↦ ground (arith, moved, e)
    ]

count-eq :
    (p : Holder → Bool) (holders : List Holder) (n : ℕ) (x v : Holder)
    → get_elem? holders n ≡ some x
    → p v ≡ p x
    → count_if p (set holders n v) ≡ count_if p holders
count-eq p holders n x v h e = omega (arith, count_if-set p holders n x v h, ap weight e)

pub follow-Fits :
    (p : Pool) (holders : List Holder) (n : ℕ) (x v : Holder)
    → get_elem? holders n ≡ some x
    → Follows x v
    → Fits p holders
    → Fits p (set holders n v)
follow-Fits p holders n x v h o f =
    let on : (i : ℕ) → on_connection i v ≡ on_connection i x =
      λ i. ap (λ c. c.connection_id == i) o.cred in
    let conn : (i : ℕ)
        → count_if (on_connection i) (set holders n v) ≡ count_if (on_connection i) holders =
      λ i. count-eq (on_connection i) holders n x v h (on i) in
    let box : (i : ℕ)
        → count_if (on_mailbox i) (set holders n v) ≡ count_if (on_mailbox i) holders =
      λ i. count-eq (on_mailbox i) holders n x v h (ap (λ c. c.mailbox_id == i) o.cred) in
    let size = length-set holders n v in
    record {
      sem = f.sem ∙ sym size;
      connections = λ i. f.connections i ∙ sym (conn i);
      mailboxes = λ i. f.mailboxes i ∙ sym (box i);
      at_most_24 = f.at_most_24;
      within = omega (arith, size, f.within);
      per_connection = λ i ne. omega (arith, conn i, f.per_connection i ne);
      per_mailbox = λ i ne. omega (arith, box i, f.per_mailbox i ne);
      watchers = omega (arith, count-le is_watch holders n x v h o.watch, f.watchers);
      watchers_per_connection = λ i ne.
          let less : watches_on i v ≡ true → watches_on i x ≡ true =
            λ e. ground (arith, o.watch, on i, e) in
          omega
            (arith, count-le (watches_on i) holders n x v h less, f.watchers_per_connection i ne);
    }
