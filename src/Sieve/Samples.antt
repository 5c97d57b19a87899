-- ===== src/Sieve/Samples.antt =====
-- Tests of the Sieve compiler on small configurations, and the theorems at their data.
use mailhearth.Common.{
  ℕ, ◌≡◌, ◌≤◌, refl, ◌⊎◌, true, false, List, [], ◌∷◌, ◌++◌, map, Option, none, some, Text, codes,
  text_eq, trim_space, contains, keep_if, decimal,
}
use mailhearth.Common.Int.{pos, negsuc}
use mailhearth.Sieve.Quote.{lf, quote, unquote, unbroken, comment_text, IsBreakFree, unquote-quote}
use mailhearth.Sieve.Multiline.{
  crlf, multiline, read_multiline, replace_crlf, read_multiline-multiline,
}
use mailhearth.Sieve.Patterns.{is_header_name, is_size, is_flag, is_address}
use mailhearth.Sieve.Rules.{
  SieveRule, SieveCondition, SieveAction, Extension, fileinto, vacation, extension_name,
  missing_extension, invalid, condition_at, value_required, Result, ok, err, requires, required_by,
  condition, field_test, header_test, header_line, size_test, operator, action, fail, extension_eq,
}
use mailhearth.Sieve.Compile.{
  Vacation, compile, compile_rules, compile_enabled, compile_conditions, compile_actions, if_line,
  rule_name, is_empty, disabled_line, compile_vacation, check_available, check_extensions, header,
  join, vacation_days, vacation_days_bounds,
}
use mailhearth.Sieve.Needs.{needs}
use mailhearth.Sieve.Requires.{compile-available}
use mailhearth.Sieve.Safety.{condition-IsBreakFree, outcome, compile_rules-enabled}

abbrev invoice : SieveCondition
invoice = record {
  field = codes "subject";
  header = [];
  op = codes "contains";
  value = codes " say \"hi\" ";
}

abbrev to_folder : SieveAction
to_folder = record { kind = codes "move"; folder = codes "Bills"; flag = []; address = [] }

abbrev file_bills : SieveRule
file_bills = record {
  id = codes "r1";
  name = codes "Bills";
  enabled = true;
  match_kind = codes "all";
  conditions = invoice ∷ [];
  actions = to_folder ∷ [];
}

abbrev paused : SieveRule
paused = record file_bills { id = codes "r2"; name = codes "Old"; enabled = false }

-- The whole compiler and the reader, opened for the tests.
run : List SieveRule → Option Vacation → Option (List Text) → Result Text
unfolding compile compile_rules compile_enabled compile_conditions compile_actions if_line rule_name
    is_empty disabled_line compile_vacation check_available check_extensions header join condition
    field_test header_test header_line size_test operator action quote comment_text trim_space
    text_eq contains extension_name requires required_by extension_eq fail decimal vacation_days
    multiline
run = compile

abbrev bills_script : Text
bills_script =
    (codes
        "# Generated by Mailhearth. Edit your rules in Mailhearth; manual changes are overwritten."
      ++ crlf)
    ++ ((codes "require [\"fileinto\"];" ++ (crlf ++ crlf))
        ++ ((codes "# Rule: Bills" ++ crlf)
            ++ ((codes "if header :contains \"subject\" \"say \\\"hi\\\"\" {" ++ crlf)
                ++ ((codes "    fileinto \"Bills\";" ++ crlf) ++ (codes "}" ++ (crlf ++ crlf))))))

compiled : compile (file_bills ∷ []) none none ≡ ok bills_script
unfolding run
compiled = refl

refused :
    run (file_bills ∷ []) none (some (codes "copy" ∷ []))
    ≡ err (missing_extension (codes "r1") fileinto)
unfolding run
refused = refl

abbrev blank : SieveCondition
blank = record invoice { value = codes "  " }

value_missing :
    run (record file_bills { conditions = invoice ∷ blank ∷ [] } ∷ []) none none
    ≡ err (invalid (codes "Bills") (condition_at 1) value_required)
unfolding run
value_missing = refl

abbrev away : Vacation
away = record { enabled = true; subject = []; text = codes "out"; days = negsuc 2 }

reply_needs_vacation :
    run [] (some away) (some []) ≡ err (missing_extension (codes "vacation") vacation)
unfolding run
reply_needs_vacation = refl

unquote-quote_example :
    unquote (quote (codes "a\"b\\") ++ codes ";") ≡ some (map unbroken (codes "a\"b\\"), codes ";")
unquote-quote_example = unquote-quote (codes "a\"b\\") (codes ";")

read_multiline-multiline_example :
    read_multiline (multiline (codes "hi" ++ lf ∷ codes ".") ++ codes "keep;")
    ≡ some (replace_crlf (codes "hi" ++ lf ∷ codes "."), codes "keep;")
read_multiline-multiline_example =
    read_multiline-multiline (codes "hi" ++ lf ∷ codes ".") (codes "keep;")

abbrev invoice_test : Text
invoice_test = codes "header :contains \"subject\" \"say \\\"hi\\\"\""

invoice_compiled : condition (codes "Bills") 0 (codes "r1") invoice [] ≡ ok (invoice_test, [])
unfolding run
invoice_compiled = refl

condition-IsBreakFree_example : IsBreakFree invoice_test
condition-IsBreakFree_example =
    condition-IsBreakFree (codes "Bills") 0 (codes "r1") invoice [] invoice_test [] invoice_compiled

compile_rules-enabled_example :
    outcome (compile_rules (paused ∷ file_bills ∷ []) [] [])
    ≡ outcome (compile_rules (keep_if (λ q. q.enabled) (paused ∷ file_bills ∷ [])) [] [])
compile_rules-enabled_example = compile_rules-enabled (paused ∷ file_bills ∷ []) [] [] []

compile-available_example :
    ((compile (file_bills ∷ []) none (some (codes "copy" ∷ [])) ≡ ok bills_script)
      × ((e : Extension)
          → needs (file_bills ∷ []) none e ≡ true
          → contains (codes "copy" ∷ []) (extension_name e) ≡ true))
    ⊎ ((id : Text) × (e : Extension) × (compile (file_bills ∷ []) none (some (codes "copy" ∷ []))
          ≡ err (missing_extension id e))
        × (needs (file_bills ∷ []) none e ≡ true)
        × (contains (codes "copy" ∷ []) (extension_name e) ≡ false))
compile-available_example =
    compile-available (file_bills ∷ []) none (codes "copy" ∷ []) bills_script compiled

vacation_days_bounds_example :
    (1 ≤ vacation_days (pos 45))
    × (vacation_days (pos 45) ≤ 30)
    × ((n : ℕ) → pos 45 ≡ pos n → 1 ≤ n → n ≤ 30 → vacation_days (pos 45) ≡ n)
vacation_days_bounds_example = vacation_days_bounds (pos 45)

address_forms :
    (is_address (codes "a@b.c") ≡ true)
    × (is_address (codes "a@b.") ≡ false)
    × (is_address (codes "a b@c.d") ≡ false)
    × (is_size (codes "500K") ≡ true)
    × (is_size (codes "1234567890") ≡ false)
    × (is_flag (codes "\\Seen") ≡ true)
    × (is_flag (codes "a b") ≡ false)
    × (is_header_name (codes "X-Spam") ≡ true)
    × (is_header_name [] ≡ false)
unfolding is_address is_size is_flag is_header_name
address_forms = (refl, refl, refl, refl, refl, refl, refl, refl, refl)
