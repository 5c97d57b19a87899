-- ===== src/Submissions/Repeats.antt =====
-- A request that is sent twice (`ReserveSubmission` of internal/core/submissions.go).
use mailhearth.Common.{
  ℕ, ◌≡◌, sym, ◌∙◌, ap, ◌⊎◌, inl, inr, Bool, true, false, List, [], Option, none, some, Text, arith,
  ok, find_if, text_eq_refl, text_eq→eq,
}
use mailhearth.Submissions.Row.{Submission, SentCopyMode}
use mailhearth.Submissions.Reserve.{
  Envelope, Smtp, Input, View, is_request, prior, new_submission, reserve_in, reserve_submission,
  submission_by_request,
}
use mailhearth.Submissions.Requests.{
  Reply, Later, find_request-Later, prior-ok, reserve_new-ok, reply, reserve_submission-ok,
  reserve_submission-Reserved, submission_by_request-ok, find_if-append_new,
}

-- What a repetition is told: the id of the row, that it was there, and the rows as they are. It asks
-- for the same as the request did.
pub record Again (r : Submission) (rows : List Submission) (digest : Text) (x : Reply)
    : Type 0 where
  pub same_id : x.0 ≡ r.id
  pub repeated : x.1.0 ≡ true
  pub unchanged : x.1.1 ≡ rows
  pub same_request : r.request_digest ≡ digest

-- The rows of a request may be seen by the first look, or not yet.
abbrev pub Sees : ℕ → ℕ → ℕ → Text → List Submission → View → Type 0
Sees org_id mailbox_id member_id request_id rows before =
    Later rows before.rows
    ⊎ (find_if (is_request org_id mailbox_id member_id request_id) before.rows ≡ none)

module _ (canonical : Text → Bool) (seal : Envelope → Text) (sha256 : Text → Text) where
  new_submission-is_request :
      (org_id member_id mailbox_id : ℕ) (in_ : Input) (smtp : Smtp) (mode : SentCopyMode)
      → is_request org_id mailbox_id member_id in_.request_id
          (new_submission canonical seal sha256 org_id member_id mailbox_id in_ smtp mode)
        ≡ true
  unfolding new_submission is_request
  new_submission-is_request org_id member_id mailbox_id in_ smtp mode =
      ground (arith, text_eq_refl in_.request_id)

  module _ (v : View) (now org_id member_id mailbox_id : ℕ) (again : Input) where
    -- A look that finds the row of a request.
    seen :
        (r : Submission) (rows : List Submission) (found : Option Text) (view : View)
        (l : Later rows view.rows)
        → find_if (is_request org_id mailbox_id member_id again.request_id) rows ≡ some r
        → prior
            (find_if (is_request org_id mailbox_id member_id again.request_id) view.rows)
            again.request_digest
          ≡ ok found
        → (found ≡ some r.id) × (r.request_digest ≡ again.request_digest)
    seen r rows found view l f p =
        let (e, d) = prior-ok (l.update r) again.request_digest found (
          rw (find_request-Later org_id mailbox_id member_id again.request_id rows view.rows r l f)
            at p) in
        (
          e ∙ ap some (l.keeps.keeps_id r),
          sym (l.keeps.keeps_digest r)
              ∙ text_eq→eq (l.update r).request_digest again.request_digest d,
        )

    told_by_row :
        (r : Submission) (found : Option Text) (x : Reply)
        → (smtp : Smtp) (mode : SentCopyMode) → found ≡ some r.id
        → r.request_digest ≡ again.request_digest
        → reserve_in canonical seal sha256 v now org_id member_id mailbox_id again smtp mode found
          ≡ ok x
        → Again r v.rows again.request_digest x
    unfolding reserve_in
    told_by_row r none x smtp mode e d h = cc
    told_by_row r (some id) x smtp mode e d h = ground (arith, e, d, h)

    replied-Again :
        (r : Submission) (rows : List Submission) (before : View) (smtp : Smtp)
        (mode : SentCopyMode) (found : Option Text) (x : Reply) (l : Later rows v.rows)
        → find_if (is_request org_id mailbox_id member_id again.request_id) rows ≡ some r
        → (found ≡ none) ⊎ ((found ≡ some r.id) × (r.request_digest ≡ again.request_digest))
        → reply canonical seal sha256 v now org_id member_id mailbox_id again before smtp mode found
          ≡ ok x
        → Again r v.rows again.request_digest x
    replied-Again r rows before smtp mode (some id) x l f s h = ground (arith, s, h)
    replied-Again r rows before smtp mode none x l f s h =
        let (found, p, h1) =
          reserve_new-ok canonical seal sha256 v now org_id member_id mailbox_id again before smtp
            mode x h in
        let (e, d) = seen r rows found v l f p in told_by_row r found x smtp mode e d h1

    first_look :
        (r : Submission) (rows : List Submission) (before : View) (found : Option Text)
        → find_if (is_request org_id mailbox_id member_id again.request_id) rows ≡ some r
        → Sees org_id mailbox_id member_id again.request_id rows before
        → submission_by_request canonical seal sha256 before org_id member_id mailbox_id
            again.request_id again.request_digest
          ≡ ok found
        → (found ≡ none) ⊎ ((found ≡ some r.id) × (r.request_digest ≡ again.request_digest))
    unfolding prior
    first_look r rows before found f (inl l) h = inr (
        seen r rows found before l f (
          submission_by_request-ok canonical seal sha256 v now org_id member_id mailbox_id again
            before found h))
    first_look r rows before found f (inr n) h =
        let p =
          submission_by_request-ok canonical seal sha256 v now org_id member_id mailbox_id again
            before found h in
        inl (ground (arith, rw n at p))

    row-Again :
        (r : Submission) (rows : List Submission) (before : View) (x : Reply)
        → find_if (is_request org_id mailbox_id member_id again.request_id) rows ≡ some r
        → Later rows v.rows
        → Sees org_id mailbox_id member_id again.request_id rows before
        → reserve_submission canonical seal sha256 before v now org_id member_id mailbox_id again
          ≡ ok x
        → Again r v.rows again.request_digest x
    row-Again r rows before x f l s h =
        let (smtp, mode, found, e, h1) =
          reserve_submission-ok canonical seal sha256 v now org_id member_id mailbox_id again before
            x h in
        replied-Again r rows before smtp mode found x l f (first_look r rows before found f s e) h1

  -- A message is reserved once for a request: after a reservation has inserted a row, whatever the
  -- rows have become and whatever else was reserved, a reservation of the same member and mailbox
  -- with the same request id that succeeds asks for the same content, gives the id of that row, says
  -- that it was there, and changes no row; whether its first look comes before the row is inserted
  -- or after.
  pub reserve_submission-once :
      (org_id member_id mailbox_id : ℕ) (first_before first : View) (now : ℕ) (in_ : Input)
      (id : Text) (rows : List Submission) (before v : View) (later : ℕ) (again : Input) (x : Reply)
      → reserve_submission canonical seal sha256 first_before first now org_id member_id mailbox_id
          in_
        ≡ ok (id, (false, rows))
      → again.request_id ≡ in_.request_id
      → Later rows v.rows
      → Sees org_id mailbox_id member_id in_.request_id rows before
      → reserve_submission canonical seal sha256 before v later org_id member_id mailbox_id again
        ≡ ok x
      → (x ≡ (id, (true, v.rows))) × (again.request_digest ≡ in_.request_digest)
  unfolding new_submission
  reserve_submission-once org_id member_id mailbox_id first_before first now in_ id rows before v
        later again x h e l s g =
      let r =
        reserve_submission-Reserved canonical seal sha256 first now org_id member_id mailbox_id in_
          first_before id rows h in
      let new =
        new_submission canonical seal sha256 org_id member_id mailbox_id in_ r.smtp r.mode in
      let there : find_if (is_request org_id mailbox_id member_id in_.request_id) rows ≡ some new =
        rw r.are (
          find_if-append_new (is_request org_id mailbox_id member_id in_.request_id) first.rows []
            new r.fresh
            (new_submission-is_request org_id member_id mailbox_id in_ r.smtp r.mode)) in
      let t =
        row-Again v later org_id member_id mailbox_id again new rows before x (rw e there) l
          (rw e s) g in
      ground (arith, t, r.is_id)
