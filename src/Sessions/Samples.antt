-- ===== src/Sessions/Samples.antt =====
-- Tests of the sessions, and the theorem at their data.
use mailhearth.Common.{
  ℕ, ◌≡◌, refl, Bool, ◌==◌, not, List, [], ◌∷◌, Option, some, none, Text, codes, text_eq, find_if,
  keep_if, ◌*◌,
}
use mailhearth.Sessions.Table.{
  Config, second, format, parse_time, create_session, lookup_session, purge_expired, delete_session,
  revoke_sessions, hard_limit, is_over, next_end, extend,
}
use mailhearth.Sessions.History.{
  Event, opens, looks, purges, closes, revokes, no_sessions, step, run,
}
use mailhearth.Sessions.Accounts.{Accounted, lookup_session-Accounted}

-- A session ends after an hour without use, and after two hours.
abbrev config : Config
config = record { session_ttl = 3600 * second; session_max_age = 7200 * second }

abbrev not_nine : ℕ → Bool
not_nine id = not (id == 9)

abbrev morning : List Event
morning =
    opens 1 not_nine 7 (codes "a") (100 * second)
    ∷ opens 2 not_nine 7 (codes "b") (200 * second)
    ∷ opens 3 not_nine 9 (codes "c") (300 * second)
    ∷ opens 4 not_nine 8 (codes "d") (400 * second)
    ∷ looks not_nine (codes "a") (3000 * second)
    ∷ revokes 7 (codes "a")
    ∷ closes (codes "d")
    ∷ purges (4200 * second)
    ∷ []

abbrev at : Text → ℕ → Option ℕ
at token_hash time =
    (lookup_session config (run config no_sessions morning).sessions not_nine token_hash
      (time * second)).1

-- Only the session that was kept answers, and the use of it has put off its end, but not past two
-- hours after its start.
answers :
    (at (codes "a") 6000 ≡ some 7)
    × (at (codes "a") 6601 ≡ none)
    × (at (codes "b") 3100 ≡ none)
    × (at (codes "c") 3100 ≡ none)
    × (at (codes "d") 3100 ≡ none)
unfolding run step create_session lookup_session purge_expired delete_session revoke_sessions format
    parse_time hard_limit is_over next_end extend find_if keep_if text_eq
answers = (refl, refl, refl, refl, refl)

six_thousand : at (codes "a") 6000 ≡ some 7
six_thousand = answers.0

lookup_session-Accounted_example :
    Accounted config (run config no_sessions morning).log not_nine (codes "a") (6000 * second) 7
lookup_session-Accounted_example =
    lookup_session-Accounted config morning not_nine (codes "a") (6000 * second) 7 six_thousand
