-- ===== src/Sieve/Safety.antt =====
-- What a rule cannot do to the rest of the script: its tests stay on their lines, and a disabled
-- rule is only a comment (internal/mailproto/sieve/compile.go).
use mailhearth.Common.{
  >>=-eq-ok, ℕ, ◌+◌, ◌≡◌, refl, sym, subst, inl, inr, Bool, true, false, ◌||◌, List, [], ◌∷◌, ◌++◌,
  map, arith, Text, codes, text_eq, text_eq→eq, Bool-cases, or_cases, trim_space, if◌then◌else◌,
  All-append, keep_if,
}
use mailhearth.Sieve.Quote.{quote, IsBreakFree, quote-IsBreakFree}
use mailhearth.Sieve.Patterns.{is_size, is_digit, size_tail, is_unit}
use mailhearth.Sieve.Rules.{
  SieveRule, SieveCondition, CompileError, Result, ok, err, ◌>>=◌, Required, condition, field_test,
  header_test, header_line, size_test, upper, fail, operator, is_negated, body,
}
use mailhearth.Sieve.Compile.{compile_enabled, compile_rules, disabled_line}

append-IsBreakFree : (s t : Text) → IsBreakFree s → IsBreakFree t → IsBreakFree (s ++ t)
append-IsBreakFree s t = All-append _ s t

size_tail-IsBreakFree : (read : ℕ) (s : Text) → size_tail read s ≡ true → IsBreakFree (map upper s)
unfolding size_tail is_unit is_digit upper
size_tail-IsBreakFree read [] h = tt
size_tail-IsBreakFree read (c ∷ []) h = (ground arith, tt)
size_tail-IsBreakFree read (c ∷ d ∷ s) h =
    (ground arith, size_tail-IsBreakFree (read + 1) (d ∷ s) (ground arith))

is_size-IsBreakFree : (s : Text) → is_size s ≡ true → IsBreakFree (map upper s)
unfolding is_size is_digit upper
is_size-IsBreakFree [] h = tt
is_size-IsBreakFree (c ∷ s) h = (ground arith, size_tail-IsBreakFree 1 s (ground arith))

-- An operator that was compared with literals is one of them.
operator-IsBreakFree :
    (op a b : Text)
    → IsBreakFree a
    → IsBreakFree b
    → text_eq op a || text_eq op b ≡ true
    → IsBreakFree op
operator-IsBreakFree op a b ha hb h = elim (or_cases _ _ h) [
  | inl e ↦ subst IsBreakFree (sym (text_eq→eq op a e)) ha
  | inr e ↦ subst IsBreakFree (sym (text_eq→eq op b e)) hb
]

matching-IsBreakFree :
    (op : Text)
    → text_eq op (codes "contains") || (text_eq op (codes "is") || text_eq op (codes "matches"))
      ≡ true
    → IsBreakFree op
matching-IsBreakFree op h =
    elim (or_cases (text_eq op (codes "contains"))
      (text_eq op (codes "is") || text_eq op (codes "matches")) h) [
        | inl e ↦ subst IsBreakFree (sym (text_eq→eq op (codes "contains") e)) (omega arith)
        | inr e ↦
            operator-IsBreakFree op (codes "is") (codes "matches") (omega arith) (omega arith) e
      ]

if_IsBreakFree :
    (b : Bool) (s t : Text) → IsBreakFree s → IsBreakFree t → IsBreakFree (if b then s else t)
if_IsBreakFree true s t hs ht = hs
if_IsBreakFree false s t hs ht = ht

-- A test is made of literals, a match type and quoted strings.
test-IsBreakFree :
    (a m b value : Text)
    → IsBreakFree a
    → IsBreakFree m
    → IsBreakFree b
    → IsBreakFree (a ++ m ++ b ++ quote value)
test-IsBreakFree a m b value ha hm hb =
    append-IsBreakFree (a ++ m ++ b) (quote value)
      (append-IsBreakFree (a ++ m) b (append-IsBreakFree a m ha hm) hb) (quote-IsBreakFree value)

-- The text of a result, if there is one, stays on its line.
record Safe (m : Result (Text × Required)) : Type 0 where
  at : (t : Text) (r : Required) → m ≡ ok (t, r) → IsBreakFree t

Safe-ok : (s : Text) (q : Required) → IsBreakFree s → Safe (ok (s, q))
Safe-ok s q f = record { at = λ t r h. let same : s ≡ t = ground arith in subst IsBreakFree same f }

Safe-err : (e : CompileError) → Safe (err e)
Safe-err e = record { at = λ t r h. cc }

Safe-if :
    (b : Bool) (m n : Result (Text × Required))
    → (b ≡ true → Safe m)
    → (b ≡ false → Safe n)
    → Safe (if b then m else n)
Safe-if true m n hm hn = hm refl
Safe-if false m n hm hn = hn refl

-- The condition of a test that is written with these parts.
Safe-test :
    (a m b value : Text) (q : Required)
    → IsBreakFree a
    → IsBreakFree m
    → IsBreakFree b
    → Safe (ok (a ++ m ++ b ++ quote value, q))
Safe-test a m b value q ha hm hb = Safe-ok _ q (test-IsBreakFree a m b value ha hm hb)

header_line-Safe :
    (rule : Text) (i : ℕ) (by : Text) (c : SieveCondition) (m value : Text) (r : Required)
    → IsBreakFree m
    → Safe (header_line rule i by c m value r)
unfolding header_line fail
header_line-Safe rule i by c m value r h =
    let name : Text = codes "header " ++ m ++ codes " " ++ quote c.header in
    let named : Safe (ok (name ++ codes " " ++ quote value, r)) = Safe-ok _ r (
      append-IsBreakFree (name ++ codes " ") (quote value)
        (append-IsBreakFree name (codes " ")
          (test-IsBreakFree (codes "header ") m (codes " ") c.header (omega arith) h (omega arith))
          (omega arith))
        (quote-IsBreakFree value)) in
    search
      (
        Safe-if,
        Safe-err,
        named,
        Safe-test (codes "address ") m (codes " \"from\" ") value r (omega arith) h (omega arith),
        Safe-test (codes "address ") m (codes " [\"to\", \"cc\"] ") value r (omega arith) h
            (omega arith),
        Safe-test (codes "header ") m (codes " \"subject\" ") value r (omega arith) h (omega arith),
        Safe-test (codes "body :text ") m (codes " ") value ((body, by) ∷ r) (omega arith) h
            (omega arith),
      )
      depth 8

header_test-Safe :
    (rule : Text) (i : ℕ) (by : Text) (c : SieveCondition) (op value : Text) (r : Required)
    → Safe (header_test rule i by c op value r)
unfolding header_test fail
header_test-Safe rule i by c op value r =
    Safe-if _ _ _
      (λ good.
        header_line-Safe rule i by c (codes ":" ++ op) value r
          (append-IsBreakFree (codes ":") op (omega arith) (matching-IsBreakFree op good)))
      (λ bad. Safe-err _)

size_test-Safe :
    (rule : Text) (i : ℕ) (op value : Text) (r : Required) → Safe (size_test rule i op value r)
unfolding size_test
size_test-Safe rule i op value r =
    Safe-if _ _ _
      (λ sized.
        Safe-if _ _ _
          (λ named. Safe-ok _ r (
            append-IsBreakFree (codes "size :" ++ op ++ codes " ") (map upper value)
              (append-IsBreakFree (codes "size :" ++ op) (codes " ")
                (append-IsBreakFree (codes "size :") op (omega arith) (
                  operator-IsBreakFree op (codes "over") (codes "under") (omega arith) (omega arith)
                    named))
                (omega arith))
              (is_size-IsBreakFree value sized)))
          (λ _. Safe-err _))
      (λ _. Safe-err _)

field_test-Safe :
    (rule : Text) (i : ℕ) (by : Text) (c : SieveCondition) (op value : Text) (r : Required)
    → Safe (field_test rule i by c op value r)
unfolding field_test fail
field_test-Safe rule i by c op value r =
    search (Safe-if, Safe-err, header_test-Safe, size_test-Safe)

-- Whatever the strings of a condition hold, its test has no line break, so it cannot end the line
-- or the comment that it stands on.
pub condition-IsBreakFree :
    (rule : Text) (i : ℕ) (by : Text) (c : SieveCondition) (r : Required) (t : Text) (r' : Required)
    → condition rule i by c r ≡ ok (t, r')
    → IsBreakFree t
unfolding condition fail
condition-IsBreakFree rule i by c r t r' h = elim (Bool-cases (text_eq (trim_space c.value) [])) [
  | inl blank ↦ absurd (cc (rw blank at h))
  | inr given ↦
      let (found, ef, h1) =
        >>=-eq-ok (field_test rule i by c (operator c) (trim_space c.value) r) _ (t, r')
          (rw given at h) in
      let f =
        (field_test-Safe rule i by c (operator c) (trim_space c.value) r).at found.0 found.1 ef in
      (Safe-ok (if is_negated c then codes "not " ++ found.0 else found.0) found.1 (
          if_IsBreakFree (is_negated c) _ _
            (append-IsBreakFree (codes "not ") found.0 (omega arith) f) f)).at
        t r' h1
]

-- What the rules require, or the error, without the text that they add.
abbrev pub outcome : Result (Text × Required) → Result Required
outcome (ok (t, r)) = ok r
outcome (err e) = err e

outcome-bind :
    (m : Result (Text × Required)) (f g : Text × Required → Result (Text × Required))
    → ((p : Text × Required) → outcome (f p) ≡ outcome (g p))
    → outcome (m >>= f) ≡ outcome (m >>= g)
outcome-bind (ok p) f g h = h p
outcome-bind (err e) f g h = refl

enabled_step :
    (b : Bool) (rule : SieveRule) (rules : List SieveRule) (out out' : Text) (r : Required)
    → rule.enabled ≡ b
    → ((o o' : Text) (q : Required)
        → outcome (compile_rules rules o q)
          ≡ outcome (compile_rules (keep_if (λ x. x.enabled) rules) o' q))
    → outcome (compile_rules (rule ∷ rules) out r)
      ≡ outcome (compile_rules (keep_if (λ x. x.enabled) (rule ∷ rules)) out' r)
unfolding compile_rules keep_if
enabled_step true rule rules out out' r on ih =
    simp on (outcome-bind (compile_enabled rule r) _ _ (λ p. ih (out ++ p.0) (out' ++ p.0) p.1))
enabled_step false rule rules out out' r off ih = simp off (ih (out ++ disabled_line rule) out' r)

-- Disabled rules change neither whether the rules compile, nor the error, nor the extensions that
-- are required: all is as if only the enabled rules were there.
pub compile_rules-enabled :
    (rules : List SieveRule) (out out' : Text) (r : Required)
    → outcome (compile_rules rules out r)
      ≡ outcome (compile_rules (keep_if (λ q. q.enabled) rules) out' r)
unfolding compile_rules keep_if
compile_rules-enabled [] out out' r = refl
compile_rules-enabled (rule ∷ rules) out out' r =
    enabled_step rule.enabled rule rules out out' r refl
      λ o o' q. compile_rules-enabled rules o o' q
