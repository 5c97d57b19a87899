-- ===== src/Sessions/Accounts.antt =====
-- Each session of internal/core/members.go has been opened by a login that is in force.
use mailhearth.Common.{
  ℕ, ◌+◌, ◌-◌, ◌*◌, ◌<◌, ◌≡◌, refl, ap, subst, inl, inr, Bool, true, false, not, ◌&&◌, List, [],
  ◌∷◌, map, none, some, Text, arith, ◌==◌, ltb, text_eq, text_eq_refl, text_eq→eq, find_if,
  find_if-passes, if◌then◌else◌, Bool-cases, Option-cases, All, All-keep_if, All-find_if,
}
use mailhearth.Sessions.Table.{
  second, Session, Config, parse_time, has_token, create_session, lookup_session, purge_expired,
  delete_session, revoke_sessions, hard_limit, is_over, extend,
}
use mailhearth.Sessions.History.{
  Event, opens, looks, purges, closes, revokes, Login, Fact, opened, closed, revoked, World,
  no_sessions, step, run, signed_in, login,
}

Vouched : List Fact → Session → Type 0
Vouched log s = signed_in log s.token_hash ≡ some (login s)

IsVouched : World → Type 0
IsVouched w = All (Vouched w.log) w.sessions

All-map :
    (P : Session → Type 0) (f : Session → Session) (xs : List Session)
    → ((x : Session) → P x → P (f x))
    → All P xs
    → All P (map f xs)
All-map P f [] g h = tt
All-map P f (x ∷ xs) g h = (g x h.0, All-map P f xs g h.1)

none_found :
    (P Q : Session → Type 0) (p : Session → Bool) (xs : List Session)
    → find_if p xs ≡ none
    → ((x : Session) → p x ≡ false → P x → Q x)
    → All P xs
    → All Q xs
unfolding find_if
none_found P Q p [] n g h = tt
none_found P Q p (x ∷ xs) n g h = elim (Bool-cases (p x)) [
  | inl e ↦ absurd (cc (rw e at n))
  | inr e ↦ (g x e h.0, none_found P Q p xs (rw e at n) g h.1)
]

extend-login :
    (cfg : Config) (now : ℕ) (log : List Fact) (s : Session)
    → Vouched log s
    → Vouched log (extend cfg now s)
unfolding Vouched extend
extend-login cfg now log s h =
    elim (Bool-cases (ltb (300 * second) (now - parse_time s.last_seen_at))) [
      | inl e ↦ rw e h
      | inr e ↦ rw e h
    ]

Vouched-opened :
    (log : List Fact) (h : Text) (l : Login) (s : Session)
    → has_token h s ≡ false
    → Vouched log s
    → Vouched (opened h l ∷ log) s
unfolding Vouched signed_in
Vouched-opened log h l s e v = rw e v

Vouched-closed :
    (log : List Fact) (h : Text) (s : Session)
    → not (has_token h s) ≡ true
    → Vouched log s
    → Vouched (closed h ∷ log) s
unfolding Vouched signed_in
Vouched-closed log h s e v =
    let other : text_eq s.token_hash h ≡ false = ground (arith, e) in rw other v

Vouched-revoked :
    (log : List Fact) (m : ℕ) (keep : Text) (s : Session)
    → not ((s.member_id == m) && not (has_token keep s)) ≡ true
    → Vouched log s
    → Vouched (revoked m keep ∷ log) s
unfolding Vouched signed_in
Vouched-revoked log m keep s e v =
    let other : ((s.member_id == m) && not (text_eq s.token_hash keep)) ≡ false =
      ground (arith, e) in
    rw (v, other) refl

Vouched-new : (log : List Fact) (s : Session) → Vouched (opened s.token_hash (login s) ∷ log) s
unfolding Vouched signed_in
Vouched-new log s = rw (text_eq_refl s.token_hash) refl

updated-Vouched :
    (cfg : Config) (now id : ℕ) (log : List Fact) (s : Session)
    → Vouched log s
    → Vouched log (if s.id == id then extend cfg now s else s)
updated-Vouched cfg now id log s v = elim (Bool-cases (s.id == id)) [
  | inl e ↦ rw e (extend-login cfg now log s v)
  | inr e ↦ rw e v
]

lookup-Vouched :
    (cfg : Config) (log : List Fact) (sessions : List Session) (is_active : ℕ → Bool) (h : Text)
    (now : ℕ)
    → All (Vouched log) sessions
    → All (Vouched log) (lookup_session cfg sessions is_active h now).0
unfolding lookup_session
lookup-Vouched cfg log sessions is_active h now a =
    elim (Option-cases (find_if (has_token h) sessions)) [
      | inl n ↦ rw (lookup_session, n) a
      | inr (s, n) ↦ elim (Bool-cases (is_over cfg now s)) [
        | inl e ↦
            rw (lookup_session, n, e)
              (All-keep_if (Vouched log) (Vouched log) (λ r. not (r.id == s.id)) sessions
                (λ r p v. v) a)
        | inr e ↦
            rw (lookup_session, n, e)
              (All-map (Vouched log) (λ r. if r.id == s.id then extend cfg now r else r) sessions
                (updated-Vouched cfg now s.id log) a)
      ]
    ]

step-IsVouched : (cfg : Config) (w : World) (e : Event) → IsVouched w → IsVouched (step cfg w e)
unfolding step IsVouched create_session purge_expired delete_session revoke_sessions
step-IsVouched cfg w (opens id is_active member_id h now) a =
    elim (Option-cases (find_if (has_token h) w.sessions)) [
      | inr (s, n) ↦ rw (step, create_session, n) a
      | inl n ↦ elim (Bool-cases (is_active member_id)) [
        | inr e ↦ rw (step, create_session, n, e) a
        | inl e ↦
            rw (step, create_session, n, e)
              (
                Vouched-new w.log _,
                none_found (Vouched w.log) (Vouched _) (has_token h) w.sessions n
                    (λ s o v. Vouched-opened w.log h _ s o v) a,
              )
      ]
    ]
step-IsVouched cfg w (looks is_active h now) a =
    lookup-Vouched cfg w.log w.sessions is_active h now a
step-IsVouched cfg w (purges now) a =
    All-keep_if (Vouched w.log) (Vouched w.log) _ w.sessions (λ r p v. v) a
step-IsVouched cfg w (closes h) a =
    All-keep_if (Vouched w.log) (Vouched (closed h ∷ w.log)) _ w.sessions
      (λ r p v. Vouched-closed w.log h r p v) a
step-IsVouched cfg w (revokes m keep) a =
    All-keep_if (Vouched w.log) (Vouched (revoked m keep ∷ w.log)) _ w.sessions
      (λ r p v. Vouched-revoked w.log m keep r p v) a

run-IsVouched :
    (cfg : Config) (w : World) (events : List Event) → IsVouched w → IsVouched (run cfg w events)
unfolding run
run-IsVouched cfg w [] a = a
run-IsVouched cfg w (e ∷ events) a =
    run-IsVouched cfg (step cfg w e) events (step-IsVouched cfg w e a)

passing :
    (cfg : Config) (sessions : List Session) (is_active : ℕ → Bool) (h : Text) (now m : ℕ)
    → (lookup_session cfg sessions is_active h now).1 ≡ some m
    → (s : Session) × (find_if (has_token h) sessions ≡ some s)
      × (is_over cfg now s ≡ false)
      × (is_active s.member_id ≡ true)
      × (s.member_id ≡ m)
unfolding lookup_session
passing cfg sessions is_active h now m a = elim (Option-cases (find_if (has_token h) sessions)) [
  | inl n ↦ absurd (cc (rw (lookup_session, n) at a))
  | inr (s, n) ↦ elim (Bool-cases (is_over cfg now s)) [
    | inl e ↦ absurd (cc (rw (lookup_session, n, e) at a))
    | inr e ↦ elim (Bool-cases (is_active s.member_id)) [
      | inl t ↦ (
        s,
        n,
        e,
        t,
        ap (λ o. elim o [ none ↦ s.member_id | some x ↦ x ]) (rw (lookup_session, n, e, t) at a),
      )
      | inr t ↦ absurd (cc (rw (lookup_session, n, e, t) at a))
    ]
  ]
]

-- What stands behind an answer.
pub record Accounted (cfg : Config) (log : List Fact) (is_active : ℕ → Bool) (h : Text) (now m : ℕ)
    : Type 0 where
  pub l : Login
  pub in_force : signed_in log h ≡ some l
  pub of_member : l.member ≡ m
  pub active : is_active m ≡ true
  pub in_time : now < parse_time l.created + cfg.session_max_age

in_time :
    (cfg : Config) (now : ℕ) (s : Session)
    → is_over cfg now s ≡ false
    → now < parse_time s.created_at + cfg.session_max_age
unfolding is_over hard_limit
in_time cfg now s h = ground (arith, h)

-- Whenever a token is looked up, after any history of logins, lookups, purges, logouts and changes of
-- passwords, and stands for a member, then the log of the logins and logouts says so: the last login
-- with the token was this member's, no logout or revocation has ended it, the member is active now,
-- and less than the absolute lifetime of a session has passed since the login.
pub lookup_session-Accounted :
    (cfg : Config) (events : List Event) (is_active : ℕ → Bool) (token_hash : Text) (now m : ℕ)
    → (lookup_session cfg (run cfg no_sessions events).sessions is_active token_hash now).1 ≡ some m
    → Accounted cfg (run cfg no_sessions events).log is_active token_hash now m
unfolding IsVouched Vouched
lookup_session-Accounted cfg events is_active token_hash now m a =
    let w = run cfg no_sessions events in
    let (s, n, e, t, same) = passing cfg w.sessions is_active token_hash now m a in
    let v =
      All-find_if (Vouched w.log) (has_token token_hash) w.sessions s n
        (run-IsVouched cfg no_sessions events tt) in
    let is : s.token_hash ≡ token_hash =
      text_eq→eq s.token_hash token_hash (find_if-passes (has_token token_hash) w.sessions s n) in
    record {
      l = login s;
      in_force = subst (λ x. signed_in w.log x ≡ some (login s)) is v;
      of_member = same;
      active = subst (λ x. is_active x ≡ true) same t;
      in_time = in_time cfg now s e;
    }
