-- ===== src/Secrets/Base64.antt =====
-- base64.RawStdEncoding of Go's standard library, as internal/secrets/secrets.go calls it: without
-- padding, line breaks are skipped, and the last bits need not be zero.
use mailhearth.Common.{
  ℕ, ◌+◌, ◌-◌, ◌*◌, ◌/◌, ◌%◌, Bool, ◌&&◌, ◌||◌, List, [], ◌∷◌, Option, none, some, Text, ltb, leb,
  ◌==◌, if◌then◌else◌,
}

-- The character of six bits: A-Z, a-z, 0-9, + and /.
unfoldable pub base64_char : ℕ → ℕ
base64_char n =
    if ltb n 26
    then n + 65
    else if ltb n 52
    then n + 71
    else if ltb n 62
    then n - 4
    else if n == 62
    then 43
    else 47

unfoldable pub base64_value : ℕ → Option ℕ
base64_value c =
    if leb 65 c && leb c 90
    then some (c - 65)
    else if leb 97 c && leb c 122
    then some (c - 71)
    else if leb 48 c && leb c 57
    then some (c + 4)
    else if c == 43
    then some 62
    else if c == 47
    then some 63
    else none

-- EncodeToString
unfoldable pub encode_base64 : List ℕ → Text
unfolding base64_char
encode_base64 [] = []
encode_base64 (a ∷ []) = base64_char (a / 4) ∷ base64_char (a % 4 * 16) ∷ []
encode_base64 (a ∷ b ∷ []) =
    base64_char (a / 4) ∷ base64_char (a % 4 * 16 + b / 16) ∷ base64_char (b % 16 * 4) ∷ []
encode_base64 (a ∷ b ∷ c ∷ bytes) =
    base64_char (a / 4)
    ∷ base64_char (a % 4 * 16 + b / 16)
    ∷ base64_char (b % 16 * 4 + c / 64)
    ∷ base64_char (c % 64)
    ∷ encode_base64 bytes

abbrev pub map_some {ℓ} : {A : Type ℓ} {B : Type ℓ} → (A → B) → Option A → Option B
map_some f none = none
map_some f (some a) = some (f a)

-- A character in front of what the rest stands for.
unfoldable pub with_value : Option ℕ → Option (List ℕ) → Option (List ℕ)
with_value none rest = none
with_value (some v) rest = map_some (λ vs. v ∷ vs) rest

unfoldable pub is_line_break : ℕ → Bool
is_line_break c = (c == 10) || (c == 13)

-- The six bits of each character, line breaks left out.
unfoldable pub values : Text → Option (List ℕ)
unfolding base64_value with_value is_line_break
values [] = some []
values (c ∷ s) = if is_line_break c then values s else with_value (base64_value c) (values s)

-- Four characters are three bytes, and what is left two or three characters, one or two bytes.
unfoldable pub join_values : List ℕ → Option (List ℕ)
join_values [] = some []
join_values (a ∷ []) = none
join_values (a ∷ b ∷ []) = some ((a * 4 + b / 16) ∷ [])
join_values (a ∷ b ∷ c ∷ []) = some ((a * 4 + b / 16) ∷ (b % 16 * 16 + c / 4) ∷ [])
join_values (a ∷ b ∷ c ∷ d ∷ vs) =
    map_some (λ bytes. (a * 4 + b / 16) ∷ (b % 16 * 16 + c / 4) ∷ (c % 4 * 64 + d) ∷ bytes)
      (join_values vs)

unfoldable pub join_all : Option (List ℕ) → Option (List ℕ)
unfolding join_values
join_all none = none
join_all (some vs) = join_values vs

-- DecodeString
unfoldable pub decode_base64 : Text → Option (List ℕ)
unfolding values join_all
decode_base64 s = join_all (values s)
