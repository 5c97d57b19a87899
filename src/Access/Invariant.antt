-- ===== src/Access/Invariant.antt =====
-- What every history of role requests keeps true of the role table (internal/core/roles.go).
use mailhearth.Common.{
  ℕ, ◌≡◌, refl, ◌∙◌, sym, subst, inl, inr, Bool, false, ◌&&◌, ◌||◌, List, [], ◌∷◌, ◌++◌, arith,
  Text, text_eq, text_eq_iff, contains, trim_space, All, All-append, Bool-cases, keep_if, ◌==◌,
}
use mailhearth.Access.{org_owner, Result, ok, err, validate_permissions}
use mailhearth.Access.Validation.{IsGrantable, validate_permissions_sound}
use mailhearth.Access.Store.{Db, Role}
use mailhearth.Access.Roles.{
  create_role, update_role, delete_role, set_role, key_taken, Request, creates, updates, deletes,
  handle, handle_all, after_role, after_db,
}
use mailhearth.Access.Outcomes.{
  create_role-Created, update_role-Updated, delete_role-Deleted, new_role,
}

-- No two roles of one organisation have the same key.
abbrev pub Unique : List Role → Type 0
Unique [] = Unit
Unique (r ∷ roles) = (key_taken roles r.org_id r.key ≡ false) × Unique roles

-- A role that is not built in does not hold the owner's permission.
abbrev pub IsModest : Role → Type 0
IsModest r = r.builtin ≡ false → contains r.permissions org_owner ≡ false

pub record IsSafe (roles : List Role) : Type 0 where
  pub unique : Unique roles
  pub modest : All IsModest roles

grantable-modest : (perms : List Text) → All IsGrantable perms → contains perms org_owner ≡ false
unfolding contains
grantable-modest [] g = refl
grantable-modest (p ∷ perms) g = ground (arith, grantable-modest perms g.1, g.0.1)

validated-modest :
    (raw perms : List Text) → validate_permissions raw ≡ ok perms → contains perms org_owner ≡ false
validated-modest raw perms h = grantable-modest perms (validate_permissions_sound raw perms h).0

key_taken-snoc :
    (roles : List Role) (r : Role) (org_id : ℕ) (key : Text)
    → key_taken (roles ++ r ∷ []) org_id key
      ≡ (key_taken roles org_id key || ((r.org_id == org_id) && text_eq r.key key))
unfolding key_taken
key_taken-snoc [] r org_id key = ground arith
key_taken-snoc (q ∷ roles) r org_id key = ground (arith, key_taken-snoc roles r org_id key)

Unique-snoc :
    (roles : List Role) (r : Role)
    → Unique roles
    → key_taken roles r.org_id r.key ≡ false
    → Unique (roles ++ r ∷ [])
unfolding key_taken
Unique-snoc [] r u h = (refl, tt)
Unique-snoc (q ∷ roles) r u h = (
  ground (
    arith,
    u.0,
    key_taken-snoc roles r q.org_id q.key,
    text_eq_iff r.key q.key,
    text_eq_iff q.key r.key,
  ),
  Unique-snoc roles r u.1 (ground arith),
)

-- An UPDATE leaves the organisation, the key and the built-in mark of every row.
key_taken-set_role :
    (id : ℕ) (name description : Text) (perms : List Text) (roles : List Role) (org_id : ℕ)
    (key : Text)
    → key_taken (set_role id name description perms roles) org_id key ≡ key_taken roles org_id key
unfolding key_taken set_role
key_taken-set_role id name description perms [] org_id key = refl
key_taken-set_role id name description perms (r ∷ roles) org_id key =
    ground (arith, key_taken-set_role id name description perms roles org_id key)

set_role-IsSafe :
    (id : ℕ) (name description : Text) (perms : List Text) (roles : List Role)
    → contains perms org_owner ≡ false
    → IsSafe roles
    → IsSafe (set_role id name description perms roles)
unfolding set_role
set_role-IsSafe id name description perms [] h s = s
set_role-IsSafe id name description perms (r ∷ roles) h s =
    let rest =
      set_role-IsSafe id name description perms roles h
        (record { unique = s.unique.1; modest = s.modest.1 }) in
    let free : key_taken (set_role id name description perms roles) r.org_id r.key ≡ false =
      key_taken-set_role id name description perms roles r.org_id r.key ∙ s.unique.0 in
    elim (Bool-cases (r.id == id)) [
      | inl e ↦ rw e (record { unique = (free, rest.unique); modest = ((λ _. h), rest.modest) })
      | inr e ↦ rw e (record { unique = (free, rest.unique); modest = (s.modest.0, rest.modest) })
    ]

key_taken-keep_if :
    (f : Role → Bool) (roles : List Role) (org_id : ℕ) (key : Text)
    → key_taken roles org_id key ≡ false
    → key_taken (keep_if f roles) org_id key ≡ false
unfolding key_taken keep_if
key_taken-keep_if f [] org_id key h = refl
key_taken-keep_if f (r ∷ roles) org_id key h = ground (arith, key_taken-keep_if f roles org_id key)

keep_if-IsSafe : (f : Role → Bool) (roles : List Role) → IsSafe roles → IsSafe (keep_if f roles)
unfolding keep_if
keep_if-IsSafe f [] s = s
keep_if-IsSafe f (r ∷ roles) s =
    let rest = keep_if-IsSafe f roles (record { unique = s.unique.1; modest = s.modest.1 }) in
    elim (Bool-cases (f r)) [
      | inl e ↦ rw e (record {
        unique = (key_taken-keep_if f roles r.org_id r.key s.unique.0, rest.unique);
        modest = (s.modest.0, rest.modest);
      })
      | inr e ↦ rw e rest
    ]

after_role-IsSafe :
    (db : Db) (result : Result (Role × Db))
    → IsSafe db.roles
    → ((r : Role) (db' : Db) → result ≡ ok (r, db') → IsSafe db'.roles)
    → IsSafe (after_role db result).roles
after_role-IsSafe db (ok (r, db')) s h = h r db' refl
after_role-IsSafe db (err e) s h = s

after_db-IsSafe :
    (db : Db) (result : Result Db)
    → IsSafe db.roles
    → ((db' : Db) → result ≡ ok db' → IsSafe db'.roles)
    → IsSafe (after_db db result).roles
after_db-IsSafe db (ok db') s h = h db' refl
after_db-IsSafe db (err e) s h = s

handle-IsSafe :
    (org_id : ℕ) (db : Db) (q : Request) → IsSafe db.roles → IsSafe (handle org_id db q).roles
unfolding handle
handle-IsSafe org_id db (creates id actor input) s =
    after_role-IsSafe db (create_role db id org_id actor input) s λ r db' h.
      let c = create_role-Created db id org_id actor input r db' h in
      let modest = validated-modest input.permissions c.perms c.valid in
      subst IsSafe (sym c.roles) (record {
        unique = Unique-snoc db.roles (new_role id org_id input c.perms) s.unique c.key_free;
        modest =
            All-append _ db.roles (new_role id org_id input c.perms ∷ []) s.modest
              ((λ _. modest), tt);
      })
handle-IsSafe org_id db (updates actor id input) s =
    after_role-IsSafe db (update_role db org_id actor id input) s λ r db' h.
      let u = update_role-Updated db org_id actor id input r db' h in
      subst IsSafe (sym u.roles) (
        set_role-IsSafe id (trim_space input.name) (trim_space input.description) u.perms db.roles
          (validated-modest input.permissions u.perms u.valid) s)
handle-IsSafe org_id db (deletes actor id) s =
    after_db-IsSafe db (delete_role db org_id actor id) s λ db' h.
      let d = delete_role-Deleted db org_id actor id db' h in
      subst IsSafe (sym d.roles) (keep_if-IsSafe _ db.roles s)

-- If no two roles of an organisation share a key and no custom role holds the owner's permission,
-- then both still hold after any requests to create, update and delete roles.
pub handle_all-IsSafe :
    (org_id : ℕ) (db : Db) (requests : List Request)
    → IsSafe db.roles
    → IsSafe (handle_all org_id db requests).roles
unfolding handle_all
handle_all-IsSafe org_id db [] s = s
handle_all-IsSafe org_id db (q ∷ requests) s =
    handle_all-IsSafe org_id (handle org_id db q) requests (handle-IsSafe org_id db q s)
