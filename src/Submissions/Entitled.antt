-- ===== src/Submissions/Entitled.antt =====
-- Who a message is sent for: what the transaction of `markSMTPSubmitting`
-- (internal/core/submissions.go) has found when SubmitSMTP is called.
use mailhearth.Common.{
  ℕ, ◌<◌, ◌≡◌, ◌≢◌, refl, ◌⊎◌, inl, inr, Bool, true, ◌||◌, List, [], ◌∷◌, Option, some, arith,
  Bool-cases, text_eq→eq,
}
use mathlib.Core.List.{Memᴰ}
use mailhearth.Access.Store.{Member, active, is_active}
use mailhearth.Submissions.Directory.{
  Directory, Mailbox, mailbox_active, read, allowed, Session, Grant, Identity, Endpoint,
  is_active_mailbox, is_allowed, can_send, equals_some,
}
use mailhearth.Submissions.Permit.{
  Claim, any_if, session_fits, member_fits, identity_fits, grant_fits, endpoint_fits,
  open_endpoint_fits, mailbox_fits, may_reserve, may_submit,
}

-- A member with a session that has not expired.
pub record Present (d : Directory) (q : Claim) (org_id : ℕ) : Type 0 where
  pub member : Member
  pub in_members : Memᴰ member d.members
  pub of_org : member.org_id ≡ org_id
  pub is_member : member.id ≡ q.member_id
  pub is_working : member.status ≡ active
  pub session : Session
  pub in_sessions : Memᴰ session d.sessions
  pub of_member : session.member_id ≡ q.member_id
  pub of_token : session.token_hash ≡ q.session_hash
  pub lasts : q.now < session.expires_at

-- A level that allows to send: the owner's, or one that was granted.
abbrev pub Granted : Directory → Claim → Mailbox → Type 0
Granted d q b =
    (b.owner_member_id ≡ some q.member_id)
    ⊎ ((g : Grant) × Memᴰ g d.grants
        × (g.mailbox_id ≡ b.id)
        × (g.member_id ≡ q.member_id)
        × (g.level ≢ read))

-- An identity of the mailbox that is allowed, with the address of the envelope.
abbrev pub Identified : Directory → Claim → Mailbox → Type 0
Identified d q b =
    (i : Identity) × Memᴰ i d.identities
    × (i.mailbox_id ≡ b.id)
    × (i.address ≡ q.envelope_from)
    × (i.authorization ≡ allowed)

pub record Entitled (d : Directory) (q : Claim) : Type 0 where
  pub mailbox : Mailbox
  pub in_mailboxes : Memᴰ mailbox d.mailboxes
  pub is_mailbox : mailbox.id ≡ q.mailbox_id
  pub of_org : mailbox.org_id ≡ q.org_id
  pub in_use : mailbox.status ≡ mailbox_active
  pub unchanged : mailbox.access_revision ≡ q.access_revision
  pub present : Present d q mailbox.org_id
  pub granted : Granted d q mailbox
  pub identified : Identified d q mailbox

any_if-finds {ℓ} :
    {A : Type ℓ} (p : A → Bool) (xs : List A)
    → any_if p xs ≡ true
    → (x : A) × Memᴰ x xs × (p x ≡ true)
unfolding any_if
any_if-finds p [] h = cc
any_if-finds p (x ∷ xs) h = elim (Bool-cases (p x)) [
  | inl e ↦ (x, Memᴰ.head refl, e)
  | inr e ↦ let (y, m, f) = any_if-finds p xs (rw e at h) in (y, Memᴰ.tail m, f)
]

session_fits-inv :
    (q : Claim) (s : Session)
    → session_fits q s ≡ true
    → (s.member_id ≡ q.member_id) × (s.token_hash ≡ q.session_hash) × (q.now < s.expires_at)
unfolding session_fits
session_fits-inv q s h = ground (arith, h, text_eq→eq s.token_hash q.session_hash)

member_fits-inv :
    (q : Claim) (d : Directory) (b : Mailbox) (m : Member)
    → member_fits q d b m ≡ true
    → (m.org_id ≡ b.org_id)
      × (m.id ≡ q.member_id)
      × (m.status ≡ active)
      × (any_if (session_fits q) d.sessions ≡ true)
unfolding member_fits is_active
member_fits-inv q d b m h = ground (arith, h)

-- The member of a claim that fits, with the session of the claim.
present :
    (d : Directory) (q : Claim) (b : Mailbox)
    → any_if (member_fits q d b) d.members ≡ true
    → Present d q b.org_id
present d q b h =
    let (m, in_members, fits) = any_if-finds (member_fits q d b) d.members h in
    let (of_org, is_member, is_working, sessions) = member_fits-inv q d b m fits in
    let (s, in_sessions, fits_too) = any_if-finds (session_fits q) d.sessions sessions in
    let (of_member, of_token, lasts) = session_fits-inv q s fits_too in
    record {
      member = m;
      in_members = in_members;
      of_org = of_org;
      is_member = is_member;
      is_working = is_working;
      session = s;
      in_sessions = in_sessions;
      of_member = of_member;
      of_token = of_token;
      lasts = lasts;
    }

grant_fits-inv :
    (q : Claim) (b : Mailbox) (g : Grant)
    → grant_fits q b g ≡ true
    → (g.mailbox_id ≡ b.id) × (g.member_id ≡ q.member_id) × (g.level ≢ read)
unfolding grant_fits can_send
grant_fits-inv q b g h = ground (arith, h)

equals_some-inv : (o : Option ℕ) (n : ℕ) → equals_some o n ≡ true → o ≡ some n
unfolding equals_some
equals_some-inv o n h = ground (arith, h)

granted :
    (d : Directory) (q : Claim) (b : Mailbox)
    → (equals_some b.owner_member_id q.member_id || any_if (grant_fits q b) d.grants) ≡ true
    → Granted d q b
granted d q b h = elim (Bool-cases (equals_some b.owner_member_id q.member_id)) [
  | inl e ↦ inl (equals_some-inv b.owner_member_id q.member_id e)
  | inr e ↦
      let (g, m, f) = any_if-finds (grant_fits q b) d.grants (rw e at h) in
      let (of_mailbox, of_member, level) = grant_fits-inv q b g f in
      inr (g, m, of_mailbox, of_member, level)
]

identity_fits-inv :
    (q : Claim) (b : Mailbox) (i : Identity)
    → identity_fits q b i ≡ true
    → (i.mailbox_id ≡ b.id) × (i.address ≡ q.envelope_from) × (i.authorization ≡ allowed)
unfolding identity_fits is_allowed
identity_fits-inv q b i h = ground (arith, h, text_eq→eq i.address q.envelope_from)

mailbox_fits-inv :
    (q : Claim) (d : Directory) (endpoint : Mailbox → Endpoint → Bool) (b : Mailbox)
    → mailbox_fits q d endpoint b ≡ true
    → (b.id ≡ q.mailbox_id)
      × (b.org_id ≡ q.org_id)
      × (b.status ≡ mailbox_active)
      × (b.access_revision ≡ q.access_revision)
      × (any_if (identity_fits q b) d.identities ≡ true)
      × (any_if (member_fits q d b) d.members ≡ true)
      × ((equals_some b.owner_member_id q.member_id || any_if (grant_fits q b) d.grants) ≡ true)
unfolding mailbox_fits is_active_mailbox
mailbox_fits-inv q d endpoint b h = ground (arith, h)

entitled :
    (q : Claim) (d : Directory) (endpoint : Mailbox → Endpoint → Bool)
    → any_if (mailbox_fits q d endpoint) d.mailboxes ≡ true
    → Entitled d q
entitled q d endpoint h =
    let (b, in_mailboxes, fits) = any_if-finds (mailbox_fits q d endpoint) d.mailboxes h in
    let (is_mailbox, of_org, in_use, unchanged, identities, members, level) =
      mailbox_fits-inv q d endpoint b fits in
    let (i, m, f) = any_if-finds (identity_fits q b) d.identities identities in
    let (of_mailbox, address, status) = identity_fits-inv q b i f in
    record {
      mailbox = b;
      in_mailboxes = in_mailboxes;
      is_mailbox = is_mailbox;
      of_org = of_org;
      in_use = in_use;
      unchanged = unchanged;
      present = present d q b members;
      granted = granted d q b level;
      identified = (i, m, of_mailbox, address, status);
    }

pub may_submit-Entitled : (q : Claim) (d : Directory) → may_submit q d ≡ true → Entitled d q
unfolding may_submit
may_submit-Entitled q d h = entitled q d (open_endpoint_fits q d) h

pub may_reserve-Entitled : (q : Claim) (d : Directory) → may_reserve q d ≡ true → Entitled d q
unfolding may_reserve
may_reserve-Entitled q d h = entitled q d (endpoint_fits q) h
