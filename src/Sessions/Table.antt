-- ===== src/Sessions/Table.antt =====
-- The table sessions and the operations on it, internal/core/members.go. Moments are nanoseconds, and
-- what the table stores are whole seconds (RFC 3339).
use mailhearth.Common.{
  ℕ, ◌+◌, ◌-◌, ◌*◌, ◌/◌, Bool, not, ◌&&◌, ◌||◌, List, ◌∷◌, map, Option, none, some, Text, ◌==◌, ltb,
  text_eq, find_if, keep_if, if◌then◌else◌,
}

pub record Session : Type 0 where
  pub id : ℕ
  pub member_id : ℕ
  pub token_hash : Text
  pub created_at : ℕ
  pub expires_at : ℕ
  pub last_seen_at : ℕ

pub record Config : Type 0 where
  pub session_ttl : ℕ
  pub session_max_age : ℕ

abbrev pub second : ℕ
second = 1000000000

-- Format(time.RFC3339)
unfoldable pub format : ℕ → ℕ
format t = t / second

-- ParseTime
unfoldable pub parse_time : ℕ → ℕ
parse_time s = s * second

abbrev pub has_token : Text → Session → Bool
has_token token_hash s = text_eq s.token_hash token_hash

-- CreateSession: one row for an active member; the hash is unique.
unfoldable pub create_session :
    Config → List Session → ℕ → (ℕ → Bool) → ℕ → Text → ℕ → Option (List Session)
unfolding format find_if text_eq
create_session cfg sessions new_id is_active member_id token_hash now =
    elim (find_if (has_token token_hash) sessions) [
      | some s ↦ none
      | none ↦
          if is_active member_id
          then some (
              record {
                id = new_id;
                member_id = member_id;
                token_hash = token_hash;
                created_at = format now;
                expires_at = format (now + cfg.session_ttl);
                last_seen_at = format now;
              }
              ∷ sessions)
          else none
    ]

unfoldable pub hard_limit : Config → Session → ℕ
unfolding parse_time
hard_limit cfg s = parse_time s.created_at + cfg.session_max_age

unfoldable pub is_over : Config → ℕ → Session → Bool
unfolding parse_time hard_limit
is_over cfg now s = ltb (parse_time s.expires_at) now || not (ltb now (hard_limit cfg s))

-- The new end of a session that is used.
unfoldable pub next_end : Config → ℕ → Session → ℕ
unfolding hard_limit
next_end cfg now s =
    let next = now + cfg.session_ttl in
    if ltb (hard_limit cfg s) next then hard_limit cfg s else next

unfoldable pub extend : Config → ℕ → Session → Session
unfolding format parse_time next_end
extend cfg now s =
    if ltb (300 * second) (now - parse_time s.last_seen_at)
    then record s { last_seen_at = format now; expires_at = format (next_end cfg now s) }
    else s

abbrev pub delete_id : ℕ → List Session → List Session
delete_id id sessions = keep_if (λ s. not (s.id == id)) sessions

abbrev pub update_id : ℕ → (Session → Session) → List Session → List Session
update_id id f sessions = map (λ s. if s.id == id then f s else s) sessions

-- LookupSession: the sessions after it, and the member that the token stands for.
unfoldable pub lookup_session :
    Config → List Session → (ℕ → Bool) → Text → ℕ → List Session × Option ℕ
unfolding find_if text_eq is_over extend
lookup_session cfg sessions is_active token_hash now =
    elim (find_if (has_token token_hash) sessions) [
      | none ↦ (sessions, none)
      | some s ↦ if is_over cfg now s then (delete_id s.id sessions, none) else (
        update_id s.id (extend cfg now) sessions,
        (if is_active s.member_id then some s.member_id else none),
      )
    ]

-- PurgeExpiredSessions
unfoldable pub purge_expired : Config → List Session → ℕ → List Session
unfolding format
purge_expired cfg sessions now =
    keep_if
      (λ s. not (
        not (ltb (format now) s.expires_at)
        || not (ltb (format (now - cfg.session_max_age)) s.created_at)))
      sessions

-- DeleteSession
unfoldable pub delete_session : List Session → Text → List Session
unfolding text_eq
delete_session sessions token_hash = keep_if (λ s. not (has_token token_hash s)) sessions

-- The DELETE of setPassword; RevokeSessions keeps none.
unfoldable pub revoke_sessions : List Session → ℕ → Text → List Session
unfolding text_eq
revoke_sessions sessions member_id keep =
    keep_if (λ s. not ((s.member_id == member_id) && not (has_token keep s))) sessions
