-- ===== src/Sieve/Compile.antt =====
-- `Compile` of internal/mailproto/sieve/compile.go.
use mailhearth.Common.{
  ℕ, ◌+◌, ◌≤◌, ◌≡◌, arith, Bool, true, false, not, ◌&&◌, List, [], ◌∷◌, ◌++◌, Option, none, some,
  Text, codes, ◌==◌, ltb, text_eq, trim_space, contains, decimal, if◌then◌else◌,
}
use mailhearth.Common.Int.{ℤ, pos, negsuc}
use mailhearth.Sieve.Quote.{quote, comment_text}
use mailhearth.Sieve.Multiline.{crlf, multiline}
use mailhearth.Sieve.Rules.{
  SieveRule, SieveCondition, SieveAction, Extension, fileinto, imap4flags, copy, body, vacation,
  extension_name, invalid, missing_extension, conditions, actions, vacation_body,
  condition_required, action_required, text_required, Result, ok, err, ◌>>=◌, ◌>>◌, Required,
  requires, required_by, condition, action,
}

pub record Vacation : Type 0 where
  pub enabled : Bool
  pub subject : Text
  pub text : Text
  pub days : ℤ

-- The tests of a rule, from the condition with number `i` on.
unfoldable pub compile_conditions :
    Text → Text → ℕ → List SieveCondition → Required → Result (List Text × Required)
compile_conditions rule by i [] r = ok ([], r)
compile_conditions rule by i (c ∷ cs) r = do
  t ← condition rule i by c r
  rest ← compile_conditions rule by (i + 1) cs t.1
  ok (t.0 ∷ rest.0, rest.1)

-- The lines of the actions, from the action with number `i` on.
unfoldable pub compile_actions :
    Text → Text → ℕ → List SieveAction → Required → Result (Text × Required)
compile_actions rule by i [] r = ok ([], r)
compile_actions rule by i (a ∷ rest) r = do
  s ← action rule i by a r
  more ← compile_actions rule by (i + 1) rest s.1
  ok (codes "    " ++ s.0 ++ crlf ++ more.0, more.1)

-- strings.Join
unfoldable pub join : Text → List Text → Text
join sep [] = []
join sep (t ∷ []) = t
join sep (t ∷ u ∷ ts) = t ++ sep ++ join sep (u ∷ ts)

unfoldable pub if_line : Text → List Text → Text
unfolding join
if_line combinator [] = codes "if " ++ combinator ++ codes " (" ++ codes ") {" ++ crlf
if_line combinator (t ∷ []) = codes "if " ++ t ++ codes " {" ++ crlf
if_line combinator (t ∷ u ∷ ts) =
    codes "if "
    ++ combinator
    ++ codes " ("
    ++ join (codes "," ++ crlf ++ codes "          ") (t ∷ u ∷ ts)
    ++ codes ") {"
    ++ crlf

unfoldable pub rule_name : SieveRule → Text
rule_name r =
    let name = trim_space r.name in if text_eq name [] then codes "Untitled rule" else name

unfoldable pub is_empty {ℓ} : {A : Type ℓ} → List A → Bool
is_empty [] = true
is_empty (x ∷ xs) = false

-- An enabled rule: what it adds to the body, and the extensions then required.
unfoldable pub compile_enabled : SieveRule → Required → Result (Text × Required)
compile_enabled rule r =
    let name = rule_name rule in
    let combinator =
      if text_eq rule.match_kind (codes "any") then codes "anyof" else codes "allof" in
    if is_empty rule.conditions
    then err (invalid name conditions condition_required)
    else if is_empty rule.actions
    then err (invalid name actions action_required)
    else do
      tests ← compile_conditions name rule.id 0 rule.conditions r
      lines ← compile_actions name rule.id 0 rule.actions tests.1
      ok (
        codes "# Rule: "
            ++ comment_text name
            ++ crlf
            ++ (if_line combinator tests.0 ++ (lines.0 ++ (codes "}" ++ crlf ++ crlf))),
        lines.1,
      )

unfoldable pub disabled_line : SieveRule → Text
disabled_line rule = codes "# (disabled) " ++ comment_text (rule_name rule) ++ crlf ++ crlf

-- The loop over the rules; `out` is the body so far.
unfoldable pub compile_rules : List SieveRule → Text → Required → Result (Text × Required)
compile_rules [] out r = ok (out, r)
compile_rules (rule ∷ rules) out r =
    let skipped = compile_rules rules (out ++ disabled_line rule) r in
    let compiled = (do part ← compile_enabled rule r; compile_rules rules (out ++ part.0) part.1) in
    if rule.enabled then compiled else skipped

-- Between 1 and 30 days, and 7 where none are given.
unfoldable pub vacation_days : ℤ → ℕ
vacation_days (negsuc n) = 7
vacation_days (pos n) = if n == 0 then 7 else if ltb 30 n then 30 else n

unfoldable pub compile_vacation : Option Vacation → Text → Required → Result (Text × Required)
compile_vacation none out r = ok (out, r)
compile_vacation (some v) out r =
    let subject = trim_space v.subject in
    let text = trim_space v.text in
    if not v.enabled
    then ok (out, r)
    else if text_eq text []
    then err (invalid [] vacation_body text_required)
    else ok (
      out
          ++ (codes "# Auto-reply"
              ++ crlf
              ++ (codes "vacation :days "
                  ++ decimal (vacation_days v.days)
                  ++ ((if text_eq subject [] then [] else codes " :subject " ++ quote subject)
                      ++ (codes " " ++ (multiline text ++ crlf))))),
      (vacation, codes "vacation") ∷ r,
    )

abbrev pub known_extensions : List Extension
known_extensions = fileinto ∷ imap4flags ∷ copy ∷ body ∷ vacation ∷ []

-- The first known extension that is required and not available is an error.
unfoldable pub check_extensions : List Extension → List Text → Required → Result (Unit {0})
check_extensions [] available r = ok tt
check_extensions (e ∷ es) available r =
    if requires r e && not (contains available (extension_name e))
    then err (missing_extension (required_by r e) e)
    else check_extensions es available r

unfoldable pub check_available : Option (List Text) → Required → Result (Unit {0})
check_available none r = ok tt
check_available (some available) r = check_extensions known_extensions available r

-- The names of the required extensions among `es`, quoted.
unfoldable pub required_names : List Extension → (Extension → Bool) → List Text
required_names [] needs = []
required_names (e ∷ es) needs =
    if needs e
    then (codes "\"" ++ extension_name e ++ codes "\"") ∷ required_names es needs
    else required_names es needs

-- The head of the script, for the extensions that are needed.
unfoldable pub header : (Extension → Bool) → Text
unfolding required_names join is_empty
header needs =
    let names = required_names known_extensions needs in
    codes
      "# Generated by Mailhearth. Edit your rules in Mailhearth; manual changes are overwritten."
    ++ crlf
    ++ (if is_empty names
        then crlf
        else codes "require [" ++ join (codes ", ") names ++ codes "];" ++ crlf ++ crlf)

unfoldable pub compile : List SieveRule → Option Vacation → Option (List Text) → Result Text
compile rules reply extensions = do
  written ← compile_rules rules [] []
  whole ← compile_vacation reply written.0 written.1
  check_available extensions whole.1
  ok (header (requires whole.1) ++ whole.0)

-- The days of an auto-reply lie between 1 and 30, and a number of days in that range is kept.
pub vacation_days_bounds :
    (d : ℤ)
    → (1 ≤ vacation_days d)
      × (vacation_days d ≤ 30)
      × ((n : ℕ) → d ≡ pos n → 1 ≤ n → n ≤ 30 → vacation_days d ≡ n)
unfolding vacation_days
vacation_days_bounds (pos n) = (ground arith, ground arith, λ m e l h. ground arith)
vacation_days_bounds (negsuc n) = (omega arith, omega arith, λ m e l h. absurd (cc))
