-- ===== src/Submissions/Requests.antt =====
-- What a request that is sent again is told (`ReserveSubmission` and `SubmissionByRequest` of
-- internal/core/submissions.go).
use mailhearth.Common.{
  ℕ, ◌≡◌, subst, refl, ◌∙◌, ap, inl, inr, Bool, true, false, ◌||◌, List, [], ◌∷◌, ◌++◌, map, Option,
  none, some, Text, arith, ok, Bool-cases, find_if, ◌>>◌, guard, not, >>=-eq-ok, guard-eq-ok,
  text_eq,
}
use mailhearth.Submissions.Row.{
  Submission, SubmissionError, Result, SentCopyMode, forbidden, invalid,
}
use mailhearth.Submissions.Directory.{check_mailbox_access, can_send}
use mailhearth.Submissions.Reserve.{
  Envelope, Smtp, Input, View, is_empty, smtp_fits, mode_fits, headers_fit, sent_copy_mode_of,
  is_request, prior, insert, new_submission, insert_submission, reserve_in, reserve_new,
  reserve_submission, submission_by_request, reserve_claim,
}
use mailhearth.Submissions.Entitled.{Entitled, may_reserve-Entitled}

-- An update that leaves the request of a row as it is.
pub record KeepsRequest (f : Submission → Submission) : Type 0 where
  pub keeps_id : (r : Submission) → (f r).id ≡ r.id
  pub keeps_org : (r : Submission) → (f r).org_id ≡ r.org_id
  pub keeps_mailbox : (r : Submission) → (f r).mailbox_id ≡ r.mailbox_id
  pub keeps_member : (r : Submission) → (f r).member_id ≡ r.member_id
  pub keeps_request : (r : Submission) → (f r).request_id ≡ r.request_id
  pub keeps_digest : (r : Submission) → (f r).request_digest ≡ r.request_digest

module _ {ℓ} {A : Type ℓ} where
  find_if-append :
      (p : A → Bool) (xs ys : List A) (x : A)
      → find_if p xs ≡ some x
      → find_if p (xs ++ ys) ≡ some x
  unfolding find_if
  find_if-append p [] ys x h = cc
  find_if-append p (y ∷ xs) ys x h = ground (arith, find_if-append p xs ys x)

  pub find_if-append_new :
      (p : A → Bool) (xs ys : List A) (x : A)
      → find_if p xs ≡ none
      → p x ≡ true
      → find_if p (xs ++ (x ∷ ys)) ≡ some x
  unfolding find_if
  find_if-append_new p [] ys x h e = ground (arith, e)
  find_if-append_new p (y ∷ xs) ys x h e = ground (arith, find_if-append_new p xs ys x)

  find_if-map :
      (p : A → Bool) (f : A → A) (xs : List A) (x : A)
      → ((y : A) → p (f y) ≡ p y)
      → find_if p xs ≡ some x
      → find_if p (map f xs) ≡ some (f x)
  unfolding find_if
  find_if-map p f [] x k h = cc
  find_if-map p f (y ∷ xs) x k h = elim (Bool-cases (p y)) [
    | inl e ↦ rw (k y, e) (ap (λ o. elim o [ none ↦ none | some z ↦ some (f z) ]) (rw e at h))
    | inr e ↦ rw (k y, e) (find_if-map p f xs x k (rw e at h))
  ]

-- The rows at a later time: each may have been updated, and others were added.
pub record Later (rows later : List Submission) : Type 0 where
  pub update : Submission → Submission
  pub keeps : KeepsRequest update
  pub added : List Submission
  pub are : later ≡ map update rows ++ added

is_request-keeps :
    (org_id mailbox_id member_id : ℕ) (request_id : Text) (f : Submission → Submission)
    → KeepsRequest f
    → (r : Submission)
    → is_request org_id mailbox_id member_id request_id (f r)
      ≡ is_request org_id mailbox_id member_id request_id r
unfolding is_request
is_request-keeps org_id mailbox_id member_id request_id f k r =
    rw (k.keeps_org r, k.keeps_mailbox r, k.keeps_member r, k.keeps_request r) refl

pub find_request-Later :
    (org_id mailbox_id member_id : ℕ) (request_id : Text) (rows later : List Submission)
    (r : Submission) (l : Later rows later)
    → find_if (is_request org_id mailbox_id member_id request_id) rows ≡ some r
    → find_if (is_request org_id mailbox_id member_id request_id) later ≡ some (l.update r)
find_request-Later org_id mailbox_id member_id request_id rows later r l h = rw l.are (
    find_if-append (is_request org_id mailbox_id member_id request_id) (map l.update rows) l.added
      (l.update r)
      (find_if-map (is_request org_id mailbox_id member_id request_id) l.update rows r
        (is_request-keeps org_id mailbox_id member_id request_id l.update l.keeps) h))

prior-none : (o : Option Submission) (digest : Text) → prior o digest ≡ ok none → o ≡ none
unfolding prior
prior-none o digest h = ground (arith, h)

pub prior-ok :
    (r : Submission) (digest : Text) (o : Option Text)
    → prior (some r) digest ≡ ok o
    → (o ≡ some r.id) × (text_eq r.request_digest digest ≡ true)
unfolding prior
prior-ok r digest o h = ground (arith, h)

insert-ok :
    (new : Submission) (rows after : List Submission)
    → insert new rows ≡ ok after
    → after ≡ rows ++ (new ∷ [])
unfolding insert
insert-ok new rows after h = ground (arith, h)

-- The id of the row, whether it was there before, and the rows.
abbrev pub Reply : Type 0
Reply = Text × (Bool × List Submission)

-- A chain that succeeds passes its first check.
guarded-ok {ℓ} :
    {B : Type ℓ} (b : Bool) (e : SubmissionError) (m : Result B) (x : B)
    → (guard b e >> m) ≡ ok x
    → (b ≡ true) × (m ≡ ok x)
guarded-ok true e m x h = (refl, h)
guarded-ok false e m x h = cc

module _ (canonical : Text → Bool) (seal : Envelope → Text) (sha256 : Text → Text) where
  -- What a reservation that inserts a row has found, and the row.
  pub record Reserved (v : View) (now org_id member_id mailbox_id : ℕ) (in_ : Input) (id : Text)
      (rows : List Submission) : Type 0 where
    pub smtp : Smtp
    pub mode : SentCopyMode
    pub is_id : id ≡ in_.id
    pub fresh : find_if (is_request org_id mailbox_id member_id in_.request_id) v.rows ≡ none
    pub permitted : Entitled v.directory (reserve_claim now org_id member_id mailbox_id in_ smtp)
    pub are :
        rows
        ≡ v.rows
          ++ (new_submission canonical seal sha256 org_id member_id mailbox_id in_ smtp mode ∷ [])

  module _ (v : View) (now org_id member_id mailbox_id : ℕ) (in_ : Input) where
    insert_submission-Reserved :
        (smtp : Smtp) (mode : SentCopyMode) (rows : List Submission)
        → find_if (is_request org_id mailbox_id member_id in_.request_id) v.rows ≡ none
        → insert_submission canonical seal sha256 v now org_id member_id mailbox_id in_ smtp mode
          ≡ ok rows
        → Reserved v now org_id member_id mailbox_id in_ in_.id rows
    unfolding insert_submission
    insert_submission-Reserved smtp mode rows n h =
        let (u, may, h1) = >>=-eq-ok _ _ rows h in
        record {
          smtp = smtp;
          mode = mode;
          is_id = refl;
          fresh = n;
          permitted =
              may_reserve-Entitled (reserve_claim now org_id member_id mailbox_id in_ smtp)
                v.directory (guard-eq-ok _ _ u may);
          are = insert-ok _ v.rows rows h1;
        }

    reserve_in-Reserved :
        (smtp : Smtp) (mode : SentCopyMode) (o : Option Submission) (found : Option Text)
        (id : Text) (rows : List Submission)
        → find_if (is_request org_id mailbox_id member_id in_.request_id) v.rows ≡ o
        → prior o in_.request_digest ≡ ok found
        → reserve_in canonical seal sha256 v now org_id member_id mailbox_id in_ smtp mode found
          ≡ ok (id, (false, rows))
        → Reserved v now org_id member_id mailbox_id in_ id rows
    unfolding reserve_in
    reserve_in-Reserved smtp mode o (some prior_id) id rows n p h = absurd (ground (arith, h))
    reserve_in-Reserved smtp mode o none id rows n p h =
        let (inserted, e, h1) =
          >>=-eq-ok
            (insert_submission canonical seal sha256 v now org_id member_id mailbox_id in_ smtp
              mode)
            (λ (r : List Submission). ok (in_.id, (false, r))) (id, (false, rows)) h in
        let (same_id, same_rows) : (in_.id ≡ id) × (inserted ≡ rows) = ground (arith, h1) in
        subst (λ i. Reserved v now org_id member_id mailbox_id in_ i rows) same_id
          (insert_submission-Reserved smtp mode rows (n ∙ prior-none o in_.request_digest p)
            (e ∙ ap ok same_rows))

    pub reserve_new-ok :
        (before : View) (smtp : Smtp) (mode : SentCopyMode) (x : Reply)
        → reserve_new canonical seal sha256 before v now org_id member_id mailbox_id in_ smtp mode
          ≡ ok x
        → (found : Option Text) × (prior
              (find_if (is_request org_id mailbox_id member_id in_.request_id) v.rows)
              in_.request_digest
            ≡ ok found)
          × (reserve_in canonical seal sha256 v now org_id member_id mailbox_id in_ smtp mode found
              ≡ ok x)
    unfolding reserve_new
    reserve_new-ok before smtp mode x h =
        let (mc, e, h1) =
          >>=-eq-ok (check_mailbox_access before.directory org_id member_id mailbox_id) _ x h in
        let h2 = (guarded-ok (can_send mc.1) forbidden _ x h1).1 in
        >>=-eq-ok
          (prior (find_if (is_request org_id mailbox_id member_id in_.request_id) v.rows)
            in_.request_digest)
          _ x h2

    -- The reply once the first look for the request is done.
    abbrev pub reply : View → Smtp → SentCopyMode → Option Text → Result Reply
    reply before smtp mode found = elim found [
      | some prior_id ↦ ok (prior_id, (true, v.rows))
      | none ↦
          reserve_new canonical seal sha256 before v now org_id member_id mailbox_id in_ smtp mode
    ]

    pub reserve_submission-ok :
        (before : View) (x : Reply)
        → reserve_submission canonical seal sha256 before v now org_id member_id mailbox_id in_
          ≡ ok x
        → (smtp : Smtp) × (mode : SentCopyMode) × (found : Option Text) × (submission_by_request
              canonical seal sha256 before org_id member_id mailbox_id in_.request_id
              in_.request_digest
            ≡ ok found)
          × (reply before smtp mode found ≡ ok x)
    unfolding reserve_submission
    reserve_submission-ok before x h =
        let (smtp, e, h1) = >>=-eq-ok (smtp_fits org_id mailbox_id in_.smtp) _ x h in
        let h2 =
          (guarded-ok
            (not (is_empty in_.staging_folder || (is_empty in_.request_digest || is_empty in_.raw)))
            invalid _ x h1).1 in
        let (mode, e1, h3) =
          >>=-eq-ok (mode_fits (sent_copy_mode_of in_.sent_copy_mode) in_.sent_folder) _ x h2 in
        let h4 = (guarded-ok (canonical in_.id) invalid _ x h3).1 in
        let (u, e2, h5) = >>=-eq-ok (headers_fit in_ in_.headers) _ x h4 in
        let (found, e3, h6) =
          >>=-eq-ok
            (submission_by_request canonical seal sha256 before org_id member_id mailbox_id
              in_.request_id in_.request_digest)
            _ x h5 in
        (smtp, mode, found, e3, h6)

    replied-Reserved :
        (before : View) (smtp : Smtp) (mode : SentCopyMode) (found : Option Text) (id : Text)
        (rows : List Submission)
        → reply before smtp mode found ≡ ok (id, (false, rows))
        → Reserved v now org_id member_id mailbox_id in_ id rows
    replied-Reserved before smtp mode (some prior_id) id rows h = absurd (ground (arith, h))
    replied-Reserved before smtp mode none id rows h =
        let (found, p, h1) = reserve_new-ok before smtp mode (id, (false, rows)) h in
        reserve_in-Reserved smtp mode _ found id rows refl p h1

    pub reserve_submission-Reserved :
        (before : View) (id : Text) (rows : List Submission)
        → reserve_submission canonical seal sha256 before v now org_id member_id mailbox_id in_
          ≡ ok (id, (false, rows))
        → Reserved v now org_id member_id mailbox_id in_ id rows
    reserve_submission-Reserved before id rows h =
        let (smtp, mode, found, e, h1) = reserve_submission-ok before (id, (false, rows)) h in
        replied-Reserved before smtp mode found id rows h1

    pub submission_by_request-ok :
        (before : View) (found : Option Text)
        → submission_by_request canonical seal sha256 before org_id member_id mailbox_id
            in_.request_id in_.request_digest
          ≡ ok found
        → prior
            (find_if (is_request org_id mailbox_id member_id in_.request_id) before.rows)
            in_.request_digest
          ≡ ok found
    unfolding submission_by_request
    submission_by_request-ok before found h =
        let h1 = (guarded-ok (canonical in_.request_id) invalid _ found h).1 in
        let (mc, e, h2) =
          >>=-eq-ok (check_mailbox_access before.directory org_id member_id mailbox_id) _ found
            h1 in
        h2
