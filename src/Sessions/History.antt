-- ===== src/Sessions/History.antt =====
-- Histories of the sessions of internal/core/members.go, with a log of who has signed in and out.
use mailhearth.Common.{
  ℕ, Bool, not, ◌&&◌, List, [], ◌∷◌, Option, none, some, Text, ◌==◌, text_eq, if◌then◌else◌,
}
use mailhearth.Sessions.Table.{
  Session, Config, format, create_session, lookup_session, purge_expired, delete_session,
  revoke_sessions,
}

-- `is_active` is what the table members says at that moment.
pub data Event : Type 0 where
  opens : ℕ → (ℕ → Bool) → ℕ → Text → ℕ → Event
  looks : (ℕ → Bool) → Text → ℕ → Event
  purges : ℕ → Event
  closes : Text → Event
  revokes : ℕ → Text → Event

pub record Login : Type 0 where
  pub member : ℕ
  pub created : ℕ

pub data Fact : Type 0 where
  opened : Text → Login → Fact
  closed : Text → Fact
  revoked : ℕ → Text → Fact

pub record World : Type 0 where
  pub sessions : List Session
  pub log : List Fact

abbrev pub no_sessions : World
no_sessions = record { sessions = []; log = [] }

unfoldable pub step : Config → World → Event → World
unfolding create_session lookup_session purge_expired delete_session revoke_sessions format
step cfg w (opens id is_active member_id token_hash now) =
    elim (create_session cfg w.sessions id is_active member_id token_hash now) [
      | none ↦ w
      | some sessions ↦ record {
        sessions = sessions;
        log = opened token_hash (record { member = member_id; created = format now }) ∷ w.log;
      }
    ]
step cfg w (looks is_active token_hash now) = record w {
  sessions = (lookup_session cfg w.sessions is_active token_hash now).0;
}
step cfg w (purges now) = record w { sessions = purge_expired cfg w.sessions now }
step cfg w (closes token_hash) = record {
  sessions = delete_session w.sessions token_hash;
  log = closed token_hash ∷ w.log;
}
step cfg w (revokes member_id keep) = record {
  sessions = revoke_sessions w.sessions member_id keep;
  log = revoked member_id keep ∷ w.log;
}

unfoldable pub run : Config → World → List Event → World
unfolding step
run cfg w [] = w
run cfg w (e ∷ events) = run cfg (step cfg w e) events

-- Whom a token stands for, from the log alone, newest entry first.
unfoldable pub signed_in : List Fact → Text → Option Login
unfolding text_eq
signed_in [] t = none
signed_in (opened h l ∷ log) t = let rest = signed_in log t in if text_eq t h then some l else rest
signed_in (closed h ∷ log) t = let rest = signed_in log t in if text_eq t h then none else rest
signed_in (revoked m keep ∷ log) t = elim (signed_in log t) [
  | none ↦ none
  | some l ↦ if (l.member == m) && not (text_eq t keep) then none else some l
]

abbrev pub login : Session → Login
login s = record { member = s.member_id; created = s.created_at }
