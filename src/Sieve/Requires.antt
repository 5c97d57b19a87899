-- ===== src/Sieve/Requires.antt =====
-- The require line and the check of the server's extensions, for whole configurations
-- (`Compile` of internal/mailproto/sieve/compile.go).
use mailhearth.Common.{
  >>=-eq-ok, ℕ, ◌+◌, ◌≡◌, refl, ap, ◌∙◌, sym, subst, inl, inr, ◌⊎◌, Bool, true, false, not, ◌&&◌,
  ◌||◌, List, [], ◌∷◌, ◌++◌, Option, none, some, arith, Text, codes, text_eq, Bool-cases, if-eq,
  trim_space, contains,
}
use mathlib.Core.Path.{fun_ext}
use mailhearth.Sieve.Rules.{
  SieveRule, SieveCondition, SieveAction, Extension, fileinto, vacation, extension_eq,
  extension_name, missing_extension, ok, err, Required, requires, required_by, condition, action,
}
use mailhearth.Sieve.Compile.{
  Vacation, compile_conditions, compile_actions, compile_enabled, compile_rules, compile_vacation,
  is_empty, disabled_line, check_extensions, check_available, known_extensions, header, compile,
  rule_name,
}
use mailhearth.Sieve.Needs.{
  needs_rule, needs_rules, needs_reply, needs, some_condition, some_action, condition-requires,
  action-requires,
}

-- Whether a list holds an extension.
abbrev among : List Extension → Extension → Bool
among [] e = false
among (d ∷ es) e = extension_eq d e || among es e

-- The reply needs its own extension, and that only if it is enabled.
needs_reply-some :
    (e : Extension) (v : Vacation) (by : Text) (r : Required)
    → (v.enabled ≡ false → needs_reply (some v) e ≡ false)
      × (v.enabled ≡ true
          → requires ((vacation, by) ∷ r) e ≡ (needs_reply (some v) e || requires r e))
unfolding needs_reply requires extension_eq
needs_reply-some vacation v by r = (λ off. off, λ on. ground arith)
needs_reply-some _ v by r = (λ off. refl, λ on. refl)

extension_eq→eq : (d e : Extension) → extension_eq d e ≡ true → d ≡ e
unfolding extension_eq
extension_eq→eq d e h = ground arith

module _ (e : Extension) where
  compile_conditions-requires :
      (rule by : Text) (i : ℕ) (cs : List SieveCondition) (r : Required) (ts : List Text)
      (r' : Required)
      → compile_conditions rule by i cs r ≡ ok (ts, r')
      → requires r' e ≡ (some_condition cs e || requires r e)
  unfolding compile_conditions some_condition
  compile_conditions-requires rule by i [] r ts r' h =
      let same : r ≡ r' = ground arith in ap (λ (q : Required). requires q e) (sym same)
  compile_conditions-requires rule by i (c ∷ cs) r ts r' h =
      let (t, et, h1) = >>=-eq-ok (condition rule i by c r) _ (ts, r') h in
      let (rest, er, h2) = >>=-eq-ok (compile_conditions rule by (i + 1) cs t.1) _ (ts, r') h1 in
      let same : rest.1 ≡ r' = ground arith in
      ground (
        arith,
        ap (λ (q : Required). requires q e) same,
        condition-requires rule i by c r t.0 t.1 e et,
        compile_conditions-requires rule by (i + 1) cs t.1 rest.0 rest.1 er,
      )

  compile_actions-requires :
      (rule by : Text) (i : ℕ) (cs : List SieveAction) (r : Required) (ts : Text) (r' : Required)
      → compile_actions rule by i cs r ≡ ok (ts, r')
      → requires r' e ≡ (some_action cs e || requires r e)
  unfolding compile_actions some_action
  compile_actions-requires rule by i [] r ts r' h =
      let same : r ≡ r' = ground arith in ap (λ (q : Required). requires q e) (sym same)
  compile_actions-requires rule by i (a ∷ cs) r ts r' h =
      let (t, et, h1) = >>=-eq-ok (action rule i by a r) _ (ts, r') h in
      let (rest, er, h2) = >>=-eq-ok (compile_actions rule by (i + 1) cs t.1) _ (ts, r') h1 in
      let same : rest.1 ≡ r' = ground arith in
      ground (
        arith,
        ap (λ (q : Required). requires q e) same,
        action-requires rule i by a r t.0 t.1 e et,
        compile_actions-requires rule by (i + 1) cs t.1 rest.0 rest.1 er,
      )

  compile_enabled-requires :
      (rule : SieveRule) (r : Required) (t : Text) (r' : Required)
      → compile_enabled rule r ≡ ok (t, r')
      → requires r' e ≡ (needs_rule rule e || requires r e)
  unfolding compile_enabled needs_rule
  compile_enabled-requires rule r t r' h = elim (Bool-cases (is_empty rule.conditions)) [
    | inl none_given ↦ cc (rw none_given at h)
    | inr given ↦ elim (Bool-cases (is_empty rule.actions)) [
      | inl idle ↦ cc (rw (given, idle) at h)
      | inr acts ↦
          let name = rule_name rule in
          let (ts, et, h1) =
            >>=-eq-ok (compile_conditions name rule.id 0 rule.conditions r) _ (t, r')
              (rw (given, acts) at h) in
          let (ls, el, h2) =
            >>=-eq-ok (compile_actions name rule.id 0 rule.actions ts.1) _ (t, r') h1 in
          let same : ls.1 ≡ r' = ground arith in
          ground (
            arith,
            ap (λ (q : Required). requires q e) same,
            compile_conditions-requires name rule.id 0 rule.conditions r ts.0 ts.1 et,
            compile_actions-requires name rule.id 0 rule.actions ts.1 ls.0 ls.1 el,
          )
    ]
  ]

  compile_rules-requires :
      (rules : List SieveRule) (out : Text) (r : Required) (t : Text) (r' : Required)
      → compile_rules rules out r ≡ ok (t, r')
      → requires r' e ≡ (needs_rules rules e || requires r e)
  unfolding compile_rules needs_rules
  compile_rules-requires [] out r t r' h =
      let same : r ≡ r' = ground arith in ap (λ (q : Required). requires q e) (sym same)
  compile_rules-requires (rule ∷ rules) out r t r' h =
      elim (if-eq rule.enabled _ _ (ok (t, r')) h) [
        | inl (on, k) ↦
            let (part, ep, h1) = >>=-eq-ok (compile_enabled rule r) _ (t, r') k in
            ground (
              arith,
              compile_enabled-requires rule r part.0 part.1 ep,
              compile_rules-requires rules (out ++ part.0) part.1 t r' h1,
            )
        | inr (off, k) ↦
            ground (arith, compile_rules-requires rules (out ++ disabled_line rule) r t r' k)
      ]

  needs_reply-none : needs_reply none e ≡ false
  unfolding needs_reply
  needs_reply-none = elim e as (λ d. needs_reply none d ≡ false) [ fileinto ↦ refl | _ ↦ refl ]

  compile_vacation-requires :
      (reply : Option Vacation) (out : Text) (r : Required) (t : Text) (r' : Required)
      → compile_vacation reply out r ≡ ok (t, r')
      → requires r' e ≡ (needs_reply reply e || requires r e)
  unfolding compile_vacation
  compile_vacation-requires none out r t r' h =
      let same : r ≡ r' = ground arith in
      ground (arith, needs_reply-none, ap (λ (q : Required). requires q e) same)
  compile_vacation-requires (some v) out r t r' h =
      elim (if-eq (not v.enabled) _ _ (ok (t, r')) h) [
        | inl (off, k) ↦
            let same : r ≡ r' = ground arith in
            ground (arith, (needs_reply-some e v [] r).0, ap (λ (q : Required). requires q e) same)
        | inr (on, k) ↦ elim (if-eq (text_eq (trim_space v.text) []) _ _ (ok (t, r')) k) [
          | inl (blank, k') ↦ cc
          | inr (given, k') ↦
              let same : (vacation, codes "vacation") ∷ r ≡ r' = ground arith in
              ground (
                arith,
                (needs_reply-some e v (codes "vacation") r).1,
                ap (λ (q : Required). requires q e) same,
              )
        ]
      ]

-- What a configuration that is compiled requires is what it needs.
compiled-requires :
    (rules : List SieveRule) (reply : Option Vacation) (w b : Text) (r r' : Required)
    (e : Extension)
    → compile_rules rules [] [] ≡ ok (w, r)
    → compile_vacation reply w r ≡ ok (b, r')
    → requires r' e ≡ needs rules reply e
unfolding needs requires
compiled-requires rules reply w b r r' e h k = ground (
  arith,
  compile_rules-requires e rules [] [] w r h,
  compile_vacation-requires e reply w r b r' k,
)

among_known : (e : Extension) → among known_extensions e ≡ true
unfolding extension_eq
among_known fileinto = refl
among_known _ = refl

check_extensions_sound :
    (es : List Extension) (available : List Text) (r : Required) (u : Unit {0}) (e : Extension)
    → check_extensions es available r ≡ ok u
    → among es e ≡ true
    → requires r e ≡ true
    → contains available (extension_name e) ≡ true
unfolding check_extensions
check_extensions_sound [] available r u e h m q = cc
check_extensions_sound (d ∷ es) available r u e h m q =
    elim (if-eq (requires r d && not (contains available (extension_name d))) _ _ (ok u) h) [
      | inl (missing, k) ↦ cc
      | inr (fine, k) ↦ elim (Bool-cases (extension_eq d e)) [
        | inl same ↦
            let de : d ≡ e = extension_eq→eq d e same in
            subst (λ x. contains available (extension_name x) ≡ true) de
              (available_first d (subst (λ x. requires r x ≡ true) (sym de) q) fine)
        | inr other ↦ check_extensions_sound es available r u e k (rw other at m) q
      ]
    ]
  where
    available_first :
        (x : Extension)
        → requires r x ≡ true
        → requires r x && not (contains available (extension_name x)) ≡ false
        → contains available (extension_name x) ≡ true
    available_first x a b = ground arith

check_extensions-cases :
    (es : List Extension) (available : List Text) (r : Required)
    → (check_extensions es available r ≡ ok tt)
      ⊎ ((e : Extension) × (check_extensions es available r
            ≡ err (missing_extension (required_by r e) e))
          × (requires r e ≡ true)
          × (contains available (extension_name e) ≡ false))
unfolding check_extensions
check_extensions-cases [] available r = inl refl
check_extensions-cases (d ∷ es) available r =
    elim (Bool-cases (requires r d && not (contains available (extension_name d)))) [
      | inl missing ↦ inr (d, rw missing, ground arith, ground arith)
      | inr fine ↦ rw fine (check_extensions-cases es available r)
    ]

pub compile-requires :
    (rules : List SieveRule) (reply : Option Vacation) (extensions : Option (List Text))
    (script : Text)
    → compile rules reply extensions ≡ ok script
    → ((rest : Text) × (script ≡ header (needs rules reply) ++ rest))
      × ((available : List Text) (e : Extension)
          → extensions ≡ some available
          → needs rules reply e ≡ true
          → contains available (extension_name e) ≡ true)
unfolding compile check_available
compile-requires rules reply extensions script h =
    let (w, ew, h1) = >>=-eq-ok (compile_rules rules [] []) _ script h in
    let (b, eb, h2) = >>=-eq-ok (compile_vacation reply w.0 w.1) _ script h1 in
    let (u, eu, h3) = >>=-eq-ok (check_available extensions b.1) _ script h2 in
    let needed = λ (e : Extension). compiled-requires rules reply w.0 b.0 w.1 b.1 e ew eb in
    let written : header (requires b.1) ++ b.0 ≡ script = ground arith in
    (
      (b.0, sym written ∙ ap (λ f. header f ++ b.0) (fun_ext needed)),
      λ available e given n.
          check_extensions_sound known_extensions available b.1 u e (rw given at eu) (among_known e)
            (needed e ∙ n),
    )

-- If a configuration compiles, then against the extensions of a server it either compiles to the
-- same script, and the server offers all that is needed, or the error names an extension that is
-- needed and not offered.
pub compile-available :
    (rules : List SieveRule) (reply : Option Vacation) (available : List Text) (script : Text)
    → compile rules reply none ≡ ok script
    → ((compile rules reply (some available) ≡ ok script)
        × ((e : Extension)
            → needs rules reply e ≡ true
            → contains available (extension_name e) ≡ true))
      ⊎ ((id : Text) × (e : Extension) × (compile rules reply (some available)
            ≡ err (missing_extension id e))
          × (needs rules reply e ≡ true)
          × (contains available (extension_name e) ≡ false))
unfolding compile check_available
compile-available rules reply available script h =
    let (w, ew, h1) = >>=-eq-ok (compile_rules rules [] []) _ script h in
    let (b, eb, h2) = >>=-eq-ok (compile_vacation reply w.0 w.1) _ script h1 in
    let needed = λ (e : Extension). compiled-requires rules reply w.0 b.0 w.1 b.1 e ew eb in
    elim (check_extensions-cases known_extensions available b.1) [
      | inl fine ↦
          let same : compile rules reply (some available) ≡ ok script = rw (ew, eb, fine) h2 in
          inl (
            same,
            λ e. (compile-requires rules reply (some available) script same).1 available e refl,
          )
      | inr (e, missing, q, a) ↦
          inr (required_by b.1 e, e, rw (ew, eb, missing) refl, sym (needed e) ∙ q, a)
    ]
