-- ===== src/Sieve/Quote.antt =====
-- `quote` and `commentText` of internal/mailproto/sieve/compile.go: quoted strings and comments.
use mathlib.Core.List.{flat_map}
use mailhearth.Common.{
  ℕ, ◌≡◌, refl, ◌≢◌, Bool, true, false, ◌||◌, [], ◌∷◌, ◌++◌, map, append_assoc, Option, none, some,
  arith, ap, Text, ◌==◌, ltb, if◌then◌else◌, All, All-append,
}

abbrev pub quote_mark : ℕ
quote_mark = b'"'

abbrev pub backslash : ℕ
backslash = b'\\'

abbrev pub cr : ℕ
cr = 13

abbrev pub lf : ℕ
lf = 10

-- strings.ReplaceAll(s, old, new) where `old` is one character.
pub replace_char : ℕ → Text → Text → Text
replace_char old new [] = []
replace_char old new (c ∷ s) =
    if c == old then new ++ replace_char old new s else c ∷ replace_char old new s

unfoldable pub quote : Text → Text
unfolding replace_char
quote s =
    let s1 = replace_char backslash (backslash ∷ backslash ∷ []) s in
    let s2 = replace_char quote_mark (backslash ∷ quote_mark ∷ []) s1 in
    let s3 = replace_char cr (32 ∷ []) s2 in
    let s4 = replace_char lf (32 ∷ []) s3 in quote_mark ∷ s4 ++ quote_mark ∷ []

comment_char : ℕ → ℕ
comment_char r = if ltb r 32 || (r == 0x7f) then 32 else r

-- commentText
unfoldable pub comment_text : Text → Text
unfolding comment_char
comment_text s = map comment_char s

-- The text of a quoted string of RFC 5228, section 2.4.2, after its opening quote: the string that
-- it stands for and what follows the closing quote. A backslash is pending if the flag is set.
push : ℕ → Option (Text × Text) → Option (Text × Text)
push c none = none
push c (some (s, rest)) = some (c ∷ s, rest)

read_quoted : Bool → Text → Option (Text × Text)
unfolding push
read_quoted pending [] = none
read_quoted true (c ∷ s) = push c (read_quoted false s)
read_quoted false (c ∷ s) =
    let escape = read_quoted true s in
    let copy = push c (read_quoted false s) in
    if c == quote_mark then some ([], s) else if c == backslash then escape else copy

unfoldable pub unquote : Text → Option (Text × Text)
unfolding read_quoted
unquote [] = none
unquote (c ∷ s) = if c == quote_mark then read_quoted false s else none

-- A line break becomes a space.
unfoldable pub unbroken : ℕ → ℕ
unbroken c = if c == cr || (c == lf) then 32 else c

-- What the four replacements make of one character.
encode : ℕ → Text
encode c =
    if c == backslash
    then backslash ∷ backslash ∷ []
    else if c == quote_mark
    then backslash ∷ quote_mark ∷ []
    else if c == cr || (c == lf)
    then 32 ∷ []
    else c ∷ []

passes :
    (s : Text)
    → replace_char lf (32 ∷ []) (
        replace_char cr (32 ∷ []) (
          replace_char quote_mark
            (backslash ∷ quote_mark ∷ [])
            (replace_char backslash (backslash ∷ backslash ∷ []) s)))
      ≡ flat_map encode s
unfolding replace_char encode flat_map
passes [] = refl
passes (c ∷ s) = ground (arith, passes s)

quote-flat_map : (s : Text) → quote s ≡ quote_mark ∷ flat_map encode s ++ quote_mark ∷ []
unfolding quote
quote-flat_map s = ap (λ body. quote_mark ∷ body ++ quote_mark ∷ []) (passes s)

-- What the reader makes of one encoded character.
read_quoted-encode :
    (c : ℕ) (s : Text) → read_quoted false (encode c ++ s) ≡ push (unbroken c) (read_quoted false s)
unfolding read_quoted encode unbroken
read_quoted-encode c s = ground arith

read_quoted-flat_map :
    (s rest : Text)
    → read_quoted false (flat_map encode s ++ quote_mark ∷ rest) ≡ some (map unbroken s, rest)
unfolding read_quoted flat_map
read_quoted-flat_map [] rest = refl
read_quoted-flat_map (c ∷ s) rest =
    rw (append_assoc (encode c) (flat_map encode s) (quote_mark ∷ rest)) (
      rw (read_quoted-encode c (flat_map encode s ++ quote_mark ∷ rest))
        (rw (read_quoted-flat_map s rest)))

-- A reader of a quoted string gets back the string that was quoted, with a space for each line
-- break, and goes on right behind it, whatever follows.
pub unquote-quote : (s rest : Text) → unquote (quote s ++ rest) ≡ some (map unbroken s, rest)
unfolding unquote
unquote-quote s rest =
    rw (quote-flat_map s)
      (rw (append_assoc (flat_map encode s) (quote_mark ∷ []) rest) (read_quoted-flat_map s rest))

-- A text on one line: no control character, and so no line break.
abbrev pub IsBreakFree : Text → Type 0
IsBreakFree = All (λ c. (c ≢ cr) × (c ≢ lf))

flat_map-IsBreakFree : (s : Text) → IsBreakFree (flat_map encode s)
unfolding flat_map encode
flat_map-IsBreakFree [] = tt
flat_map-IsBreakFree (c ∷ s) =
    All-append _ (encode c) (flat_map encode s) (ground arith) (flat_map-IsBreakFree s)

-- A quoted string stays on its line.
pub quote-IsBreakFree : (s : Text) → IsBreakFree (quote s)
quote-IsBreakFree s = rw (quote-flat_map s) (
  (omega arith, omega arith),
  All-append _ (flat_map encode s) (quote_mark ∷ []) (flat_map-IsBreakFree s)
      ((omega arith, omega arith), tt),
)

-- A comment stays on its line.
pub comment_text-IsBreakFree : (s : Text) → IsBreakFree (comment_text s)
unfolding comment_text
comment_text-IsBreakFree [] = tt
comment_text-IsBreakFree (c ∷ s) = (ground arith, comment_text-IsBreakFree s)
