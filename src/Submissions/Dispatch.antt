-- ===== src/Submissions/Dispatch.antt =====
-- The loop of `StartSubmissions` (internal/core/submissions.go) that hands queued submissions to
-- workers: at most four at a time, and one for a mailbox. `active` are the mailboxes in
-- `submissionActive`.
use mailhearth.Common.{
  ℕ, ◌≤◌, ◌≡◌, refl, inl, inr, Bool, true, false, not, ◌&&◌, ◌||◌, List, [], ◌∷◌, Text, arith,
  length, leb, ◌==◌, if◌then◌else◌, keep_if, Bool-cases, All,
}

unfoldable pub is_active_for : List ℕ → ℕ → Bool
is_active_for [] mailbox = false
is_active_for (b ∷ active) mailbox = (b == mailbox) || is_active_for active mailbox

-- One pass over the queued submissions, an id with its mailbox each: the mailboxes that have a worker
-- then, and the submissions that were handed to one, the last first.
unfoldable pub dispatch : List ℕ → List Text → List (Text × ℕ) → List ℕ × List Text
unfolding is_active_for
dispatch active started [] = (active, started)
dispatch active started ((id, mailbox) ∷ pending) =
    if leb 4 (length active) || is_active_for active mailbox
    then dispatch active started pending
    else dispatch (mailbox ∷ active) (id ∷ started) pending

-- A worker ends: delete(s.submissionActive, p.mailbox).
unfoldable pub release : List ℕ → ℕ → List ℕ
unfolding keep_if
release active mailbox = keep_if (λ b. not (b == mailbox)) active

pub data Turn : Type 0 where
  scans : List (Text × ℕ) → Turn
  ends : ℕ → Turn

unfoldable pub take_turns : List ℕ → List Turn → List ℕ
unfolding dispatch release
take_turns active [] = active
take_turns active (scans pending ∷ turns) = take_turns (dispatch active [] pending).0 turns
take_turns active (ends mailbox ∷ turns) = take_turns (release active mailbox) turns

-- Each mailbox once.
unfoldable pub distinct : List ℕ → Bool
unfolding is_active_for
distinct [] = true
distinct (b ∷ active) = not (is_active_for active b) && distinct active

pub record Room (active : List ℕ) : Type 0 where
  pub bounded : length active ≤ 4
  pub single : distinct active ≡ true

dispatch-Room :
    (active : List ℕ) (started : List Text) (pending : List (Text × ℕ))
    → Room active
    → Room (dispatch active started pending).0
unfolding dispatch distinct
dispatch-Room active started [] r = r
dispatch-Room active started ((id, mailbox) ∷ pending) r = ground (
  arith,
  r,
  dispatch-Room active started pending,
  dispatch-Room (mailbox ∷ active) (id ∷ started) pending,
)

is_active_for-release :
    (active : List ℕ) (mailbox b : ℕ)
    → is_active_for active b ≡ false
    → is_active_for (release active mailbox) b ≡ false
unfolding is_active_for release keep_if
is_active_for-release [] mailbox b h = refl
is_active_for-release (a ∷ active) mailbox b h =
    ground (arith, h, is_active_for-release active mailbox b)

length-release : (active : List ℕ) (mailbox : ℕ) → length (release active mailbox) ≤ length active
unfolding release keep_if
length-release [] mailbox = omega arith
length-release (a ∷ active) mailbox = elim (Bool-cases (a == mailbox)) [
  | inl e ↦ rw e (ground (arith, length-release active mailbox))
  | inr e ↦ rw e (ground (arith, length-release active mailbox))
]

release-distinct :
    (active : List ℕ) (mailbox : ℕ)
    → distinct active ≡ true
    → distinct (release active mailbox) ≡ true
unfolding release keep_if distinct
release-distinct [] mailbox d = refl
release-distinct (a ∷ active) mailbox d = elim (Bool-cases (a == mailbox)) [
  | inl e ↦ rw e (release-distinct active mailbox (ground (arith, d)))
  | inr e ↦
      rw e
        (ground (arith, d, release-distinct active mailbox, is_active_for-release active mailbox a))
]

release-Room : (active : List ℕ) (mailbox : ℕ) → Room active → Room (release active mailbox)
release-Room active mailbox r = record {
  bounded = ground (arith, r, length-release active mailbox);
  single = release-distinct active mailbox r.single;
}

turns-Room : (active : List ℕ) (turns : List Turn) → Room active → Room (take_turns active turns)
unfolding take_turns
turns-Room active [] r = r
turns-Room active (scans pending ∷ turns) r =
    turns-Room (dispatch active [] pending).0 turns (dispatch-Room active [] pending r)
turns-Room active (ends mailbox ∷ turns) r =
    turns-Room (release active mailbox) turns (release-Room active mailbox r)

-- However the passes over the queue and the ends of workers follow each other, at most four
-- submissions have a worker, and no two of one mailbox.
pub take_turns-Room : (turns : List Turn) → Room (take_turns [] turns)
unfolding distinct
take_turns-Room turns = turns-Room [] turns (ground arith)

-- A mailbox has a worker, or no more workers may be started.
unfoldable pub taken : List ℕ → ℕ → Bool
taken active mailbox = is_active_for active mailbox || leb 4 (length active)

-- What a pass owes to the queued submissions.
abbrev Serves : List ℕ × List Text → List (Text × ℕ) → Type 0
Serves after pending = All (λ p. taken after.0 p.1 ≡ true) pending
