-- ===== src/Sieve/Rules.antt =====
-- The tests and actions of a rule: `condition` and `action` of
-- internal/mailproto/sieve/compile.go, over the rule model of internal/model/model.go.
pub use mailhearth.Common.{Outcome, ok, err, guard, ◌>>=◌, ◌>>◌}
use mailhearth.Common.{
  ℕ, ◌-◌, Bool, true, false, ◌&&◌, ◌||◌, List, [], ◌∷◌, ◌++◌, map, Text, codes, leb, text_eq,
  trim_space, if◌then◌else◌,
}
use mailhearth.Sieve.Quote.{quote}
use mailhearth.Sieve.Multiline.{crlf}
use mailhearth.Sieve.Patterns.{is_header_name, is_size, is_flag, is_address}

pub record SieveCondition : Type 0 where
  pub field : Text
  pub header : Text
  pub op : Text
  pub value : Text

pub record SieveAction : Type 0 where
  pub kind : Text
  pub folder : Text
  pub flag : Text
  pub address : Text

pub record SieveRule : Type 0 where
  pub id : Text
  pub name : Text
  pub enabled : Bool
  pub match_kind : Text
  pub conditions : List SieveCondition
  pub actions : List SieveAction

-- The Sieve extensions that the compiler knows, in the order of the require line.
pub data Extension : Type 0 where
  fileinto imap4flags copy body vacation : Extension

unfoldable pub extension_name : Extension → Text
extension_name fileinto = codes "fileinto"
extension_name imap4flags = codes "imap4flags"
extension_name copy = codes "copy"
extension_name body = codes "body"
extension_name vacation = codes "vacation"

unfoldable pub extension_eq : Extension → Extension → Bool
extension_eq fileinto fileinto = true
extension_eq imap4flags imap4flags = true
extension_eq copy copy = true
extension_eq body body = true
extension_eq vacation vacation = true
extension_eq _ _ = false

-- Where a ValidationError points: the rule's name and the field.
pub data Field : Type 0 where
  conditions actions : Field
  condition_at action_at : ℕ → Field
  vacation_body : Field

pub data Message : Type 0 where
  condition_required action_required value_required folder_required text_required : Message
  invalid_header invalid_size invalid_flag invalid_forwarding : Message
  size_operator : Message
  unknown_operator unknown_field unknown_action : Text → Message

pub data CompileError : Type 0 where
  invalid : Text → Field → Message → CompileError
  missing_extension : Text → Extension → CompileError

abbrev pub Result {ℓ} : Type ℓ → Type ℓ
Result A = Outcome CompileError A

-- The maps `requires` and `requiredBy` of the compiler: the extensions that were required, newest
-- first, each with the id of the rule that was being compiled.
abbrev pub Required : Type 0
Required = List (Extension × Text)

-- c.requires[e]
unfoldable pub requires : Required → Extension → Bool
requires [] e = false
requires ((d, by) ∷ r) e = extension_eq d e || requires r e

-- c.requiredBy[e]
unfoldable pub required_by : Required → Extension → Text
required_by [] e = []
required_by ((d, by) ∷ r) e = if extension_eq d e then by else required_by r e

-- strings.ToUpper on ASCII
unfoldable pub upper : ℕ → ℕ
upper c = if leb b'a' c && leb c b'z' then c - 32 else c

-- The operator of a condition as it is given, with the default.
given_operator : SieveCondition → Text
given_operator cond = if text_eq cond.op [] then codes "contains" else cond.op

-- Whether the test is negated.
unfoldable pub is_negated : SieveCondition → Bool
unfolding given_operator
is_negated cond = text_eq (given_operator cond) (codes "not_contains")

-- The operator of the test under the negation.
unfoldable pub operator : SieveCondition → Text
unfolding given_operator is_negated
operator cond = if is_negated cond then codes "contains" else given_operator cond

-- One condition: `rule` and `i` say where an error is, `by` is the id of the rule.
module _ (rule : Text) (i : ℕ) where
  unfoldable pub fail {ℓ} : {A : Type ℓ} → Message → Result A
  fail m = err (invalid rule (condition_at i) m)

  -- The inner switch on the field, with the match type that was chosen.
  unfoldable pub header_line :
      Text → SieveCondition → Text → Text → Required → Result (Text × Required)
  header_line by cond matching value r =
      if text_eq cond.field (codes "from")
      then ok (codes "address " ++ matching ++ codes " \"from\" " ++ quote value, r)
      else if text_eq cond.field (codes "to")
      then ok (codes "address " ++ matching ++ codes " [\"to\", \"cc\"] " ++ quote value, r)
      else if text_eq cond.field (codes "subject")
      then ok (codes "header " ++ matching ++ codes " \"subject\" " ++ quote value, r)
      else if text_eq cond.field (codes "header")
      then if is_header_name cond.header
        then ok (
          codes "header " ++ matching ++ codes " " ++ quote cond.header ++ codes " " ++ quote value,
          r,
        )
        else fail invalid_header
      else ok (codes "body :text " ++ matching ++ codes " " ++ quote value, (body, by) ∷ r)

  -- case "from", "to", "subject", "header", "body"
  unfoldable pub header_test :
      Text → SieveCondition → Text → Text → Required → Result (Text × Required)
  unfolding fail header_line
  header_test by cond op value r =
      if text_eq op (codes "contains") || (text_eq op (codes "is") || text_eq op (codes "matches"))
      then header_line by cond (codes ":" ++ op) value r
      else fail (unknown_operator op)

  -- case "size"
  unfoldable pub size_test : Text → Text → Required → Result (Text × Required)
  unfolding fail upper
  size_test op value r =
      if is_size value
      then if text_eq op (codes "over") || text_eq op (codes "under")
        then ok (codes "size :" ++ op ++ codes " " ++ map upper value, r)
        else fail size_operator
      else fail invalid_size

  unfoldable pub field_test :
      Text → SieveCondition → Text → Text → Required → Result (Text × Required)
  field_test by cond op value r =
      if text_eq cond.field (codes "from")
        || (text_eq cond.field (codes "to")
            || (text_eq cond.field (codes "subject")
                || (text_eq cond.field (codes "header") || text_eq cond.field (codes "body"))))
      then header_test by cond op value r
      else if text_eq cond.field (codes "size")
      then size_test op value r
      else fail (unknown_field cond.field)

  unfoldable pub condition : Text → SieveCondition → Required → Result (Text × Required)
  condition by cond r =
      let value = trim_space cond.value in
      if text_eq value [] then fail value_required else do
        found ← field_test by cond (operator cond) value r
        ok (if is_negated cond then codes "not " ++ found.0 else found.0, found.1)

-- One action, likewise.
module _ (rule : Text) (i : ℕ) where
  unfoldable pub fail_action {ℓ} : {A : Type ℓ} → Message → Result A
  fail_action m = err (invalid rule (action_at i) m)

  -- case "move", "copy"
  unfoldable pub folder_action : Text → SieveAction → Required → Result (Text × Required)
  unfolding fail_action
  folder_action by a r =
      let folder = trim_space a.folder in
      if text_eq folder []
      then fail_action folder_required
      else if text_eq a.kind (codes "copy")
      then ok
          (codes "fileinto :copy " ++ quote folder ++ codes ";", (copy, by) ∷ (fileinto, by) ∷ r)
      else ok (codes "fileinto " ++ quote folder ++ codes ";", (fileinto, by) ∷ r)

  -- case "flag"
  unfoldable pub flag_action : Text → SieveAction → Required → Result (Text × Required)
  unfolding fail_action
  flag_action by a r =
      let trimmed = trim_space a.flag in
      let flag = if text_eq trimmed [] then codes "\\Flagged" else trimmed in
      if is_flag flag
      then ok (codes "addflag " ++ quote flag ++ codes ";", (imap4flags, by) ∷ r)
      else fail_action invalid_flag

  -- case "forward", "redirect"
  unfoldable pub forward_action : Text → SieveAction → Required → Result (Text × Required)
  unfolding fail_action
  forward_action by a r =
      let addr = trim_space a.address in
      if is_address addr
      then if text_eq a.kind (codes "forward")
        then ok (codes "redirect :copy " ++ quote addr ++ codes ";", (copy, by) ∷ r)
        else ok (codes "redirect " ++ quote addr ++ codes ";", r)
      else fail_action invalid_forwarding

  unfoldable pub action : Text → SieveAction → Required → Result (Text × Required)
  unfolding fail_action folder_action flag_action forward_action
  action by a r =
      if text_eq a.kind (codes "move") || text_eq a.kind (codes "copy")
      then folder_action by a r
      else if text_eq a.kind (codes "flag")
      then flag_action by a r
      else if text_eq a.kind (codes "markread")
      then ok (codes "addflag \"\\\\Seen\";", (imap4flags, by) ∷ r)
      else if text_eq a.kind (codes "forward") || text_eq a.kind (codes "redirect")
      then forward_action by a r
      else if text_eq a.kind (codes "discard")
      then ok (codes "discard;" ++ crlf ++ codes "    stop;", r)
      else if text_eq a.kind (codes "stop")
      then ok (codes "stop;", r)
      else fail_action (unknown_action a.kind)
