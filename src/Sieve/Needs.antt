-- ===== src/Sieve/Needs.antt =====
-- Which Sieve extensions rules and an auto-reply need, read off the rules themselves, and that the
-- compiler requires exactly these (internal/mailproto/sieve/compile.go).
use mailhearth.Common.{
  >>=-eq-ok, ℕ, ◌≡◌, refl, ap, ◌∙◌, sym, inl, inr, Bool, true, false, ◌&&◌, ◌||◌, List, [], ◌∷◌,
  Option, some, arith, Text, codes, text_eq, text_eq→eq, Bool-cases, trim_space, if◌then◌else◌,
}
use mailhearth.Sieve.Rules.{
  SieveRule, SieveCondition, SieveAction, Extension, fileinto, imap4flags, copy, body, vacation,
  extension_eq, header_test, size_test, field_test, fail, operator, unknown_field, ok, Required,
  requires, condition, action,
}
use mailhearth.Sieve.Compile.{Vacation}

unfoldable pub needs_condition : SieveCondition → Extension → Bool
needs_condition c body = text_eq c.field (codes "body")
needs_condition c _ = false

unfoldable pub needs_action : SieveAction → Extension → Bool
needs_action a fileinto = text_eq a.kind (codes "move") || text_eq a.kind (codes "copy")
needs_action a copy = text_eq a.kind (codes "copy") || text_eq a.kind (codes "forward")
needs_action a imap4flags = text_eq a.kind (codes "flag") || text_eq a.kind (codes "markread")
needs_action a _ = false

unfoldable pub some_condition : List SieveCondition → Extension → Bool
some_condition [] e = false
some_condition (c ∷ cs) e = needs_condition c e || some_condition cs e

unfoldable pub some_action : List SieveAction → Extension → Bool
some_action [] e = false
some_action (a ∷ rest) e = needs_action a e || some_action rest e

unfoldable pub needs_rule : SieveRule → Extension → Bool
unfolding some_condition some_action
needs_rule rule e = some_condition rule.conditions e || some_action rule.actions e

-- A disabled rule needs nothing.
unfoldable pub needs_rules : List SieveRule → Extension → Bool
unfolding needs_rule
needs_rules [] e = false
needs_rules (rule ∷ rules) e = (rule.enabled && needs_rule rule e) || needs_rules rules e

unfoldable pub needs_reply : Option Vacation → Extension → Bool
needs_reply (some v) vacation = v.enabled
needs_reply _ _ = false

-- The extensions that a configuration needs.
unfoldable pub needs : List SieveRule → Option Vacation → Extension → Bool
unfolding needs_rules needs_reply
needs rules reply e = needs_rules rules e || needs_reply reply e

-- A text that is one literal is no other one.
exclusive : (k a b : Text) → text_eq a b ≡ false → text_eq k a ≡ true → text_eq k b ≡ false
exclusive k a b h e = rw (text_eq→eq k a e) h

-- What a text field's test does to the required extensions.
header_test-requires :
    (rule : Text) (i : ℕ) (by : Text) (c : SieveCondition) (op value : Text) (r : Required)
    (t : Text) (r' : Required) (e : Extension)
    → header_test rule i by c op value r ≡ ok (t, r')
    → text_eq c.field (codes "from")
        || (text_eq c.field (codes "to")
            || (text_eq c.field (codes "subject")
                || (text_eq c.field (codes "header") || text_eq c.field (codes "body"))))
      ≡ true
    → requires r' e ≡ (needs_condition c e || requires r e)
unfolding header_test needs_condition requires extension_eq
header_test-requires rule i by c op value r t r' body h f = ground (
  arith,
  exclusive c.field (codes "from") (codes "body") (unfold text_eq in refl),
  exclusive c.field (codes "to") (codes "body") (unfold text_eq in refl),
  exclusive c.field (codes "subject") (codes "body") (unfold text_eq in refl),
  exclusive c.field (codes "header") (codes "body") (unfold text_eq in refl),
)
header_test-requires rule i by c op value r t r' _ h f = ground arith

pub action-requires :
    (rule : Text) (i : ℕ) (by : Text) (a : SieveAction) (r : Required) (t : Text) (r' : Required)
    (e : Extension)
    → action rule i by a r ≡ ok (t, r')
    → requires r' e ≡ (needs_action a e || requires r e)
unfolding action needs_action requires extension_eq
action-requires rule i by a r t r' fileinto h = ground arith
action-requires rule i by a r t r' imap4flags h = ground (
  arith,
  exclusive a.kind (codes "move") (codes "flag") (unfold text_eq in refl),
  exclusive a.kind (codes "move") (codes "markread") (unfold text_eq in refl),
  exclusive a.kind (codes "copy") (codes "flag") (unfold text_eq in refl),
  exclusive a.kind (codes "copy") (codes "markread") (unfold text_eq in refl),
)
action-requires rule i by a r t r' copy h = ground (
  arith,
  exclusive a.kind (codes "move") (codes "forward") (unfold text_eq in refl),
  exclusive a.kind (codes "flag") (codes "forward") (unfold text_eq in refl),
  exclusive a.kind (codes "markread") (codes "forward") (unfold text_eq in refl),
)
action-requires rule i by a r t r' _ h = ground arith

size_test-requires :
    (rule : Text) (i : ℕ) (op value : Text) (r : Required) (t : Text) (r' : Required)
    → size_test rule i op value r ≡ ok (t, r')
    → r' ≡ r
unfolding size_test
size_test-requires rule i op value r t r' h = ground arith

abbrev is_text_field : Text → Bool
is_text_field f =
    text_eq f (codes "from")
    || (text_eq f (codes "to")
        || (text_eq f (codes "subject")
            || (text_eq f (codes "header") || text_eq f (codes "body"))))

-- A field that is none of the five is not "body".
needs_condition-other :
    (c : SieveCondition) (e : Extension)
    → is_text_field c.field ≡ false
    → needs_condition c e ≡ false
unfolding needs_condition
needs_condition-other c body h = ground arith
needs_condition-other c _ h = refl

field_test-requires :
    (rule : Text) (i : ℕ) (by : Text) (c : SieveCondition) (op value : Text) (r : Required)
    (t : Text) (r' : Required) (e : Extension)
    → field_test rule i by c op value r ≡ ok (t, r')
    → requires r' e ≡ (needs_condition c e || requires r e)
unfolding field_test fail
field_test-requires rule i by c op value r t r' e h = elim (Bool-cases (is_text_field c.field)) [
  | inl f ↦ header_test-requires rule i by c op value r t r' e (rw f at h) f
  | inr f ↦ ground (
    arith,
    needs_condition-other c e f,
    size_test-requires rule i op value r t r',
    ap (λ (q : Required). requires q e) (same (rw f at h)),
  )
]
  where
    same :
        (if text_eq c.field (codes "size")
            then size_test rule i op value r
            else fail rule i (unknown_field c.field))
          ≡ ok (t, r')
        → r' ≡ r
    same k = ground (arith, size_test-requires rule i op value r t r')

pub condition-requires :
    (rule : Text) (i : ℕ) (by : Text) (c : SieveCondition) (r : Required) (t : Text) (r' : Required)
    (e : Extension)
    → condition rule i by c r ≡ ok (t, r')
    → requires r' e ≡ (needs_condition c e || requires r e)
unfolding condition fail
condition-requires rule i by c r t r' e h = elim (Bool-cases (text_eq (trim_space c.value) [])) [
  | inl blank ↦ cc (rw blank at h)
  | inr given ↦
      let (found, ef, h1) =
        >>=-eq-ok (field_test rule i by c (operator c) (trim_space c.value) r) _ (t, r')
          (rw given at h) in
      let same : found.1 ≡ r' = ground arith in
      sym (ap (λ (q : Required). requires q e) same)
      ∙ field_test-requires rule i by c (operator c) (trim_space c.value) r found.0 found.1 e ef
]
