-- ===== src/Sieve/Multiline.antt =====
-- `multiline` of internal/mailproto/sieve/compile.go: multi-line strings with dot-stuffing, and the
-- reader of RFC 5228, section 2.4.2.1, that they are written for.
use mailhearth.Common.{
  ℕ, ◌≡◌, refl, ◌≢◌, ap, ◌∙◌, false, ◌&&◌, List, [], ◌∷◌, ◌++◌, append_assoc, append-nil, Option,
  none, some, arith, Text, codes, text_eq, has_prefix, ◌==◌, if◌then◌else◌, All, Bool-cases, inl,
  inr,
}
use mailhearth.Sieve.Quote.{cr, lf}

abbrev pub crlf : Text
crlf = cr ∷ lf ∷ []

abbrev pub dot : ℕ
dot = b'.'

-- strings.ReplaceAll(s, "\r\n", "\n")
unfoldable pub replace_crlf : Text → Text
replace_crlf [] = []
replace_crlf (c ∷ []) = c ∷ []
replace_crlf (c ∷ d ∷ s) =
    let joined = lf ∷ replace_crlf s in
    let kept = c ∷ replace_crlf (d ∷ s) in if (c == cr) && (d == lf) then joined else kept

-- The first line gets one more character in front.
extend_first : ℕ → List Text → List Text
extend_first c [] = (c ∷ []) ∷ []
extend_first c (l ∷ ls) = (c ∷ l) ∷ ls

-- strings.Split(s, "\n")
unfoldable pub split_lines : Text → List Text
unfolding extend_first
split_lines [] = [] ∷ []
split_lines (c ∷ s) = let ls = split_lines s in if c == lf then [] ∷ ls else extend_first c ls

-- A line that begins with a dot gets a second one.
stuff : Text → Text
stuff l = if has_prefix l (dot ∷ []) then dot ∷ l else l

write_lines : List Text → Text
unfolding stuff
write_lines [] = []
write_lines (l ∷ ls) = stuff l ++ (crlf ++ write_lines ls)

unfoldable pub multiline : Text → Text
unfolding replace_crlf split_lines write_lines has_prefix
multiline s = (codes "text:" ++ crlf) ++ (write_lines (split_lines (replace_crlf s)) ++ dot ∷ crlf)

-- The reader: a line ends at the first CR LF, a dot alone ends the string, and the first dot of
-- any other line is dropped.
unstuff : Text → Text
unstuff [] = []
unstuff (c ∷ l) = if c == dot then l else c ∷ l

push_line : Text → Option (List Text × Text) → Option (List Text × Text)
push_line l none = none
push_line l (some (ls, rest)) = some (l ∷ ls, rest)

-- `line` is the part of the present line that is read.
scan : Text → Text → Option (List Text × Text)
unfolding push_line unstuff
scan line [] = none
scan line (c ∷ []) = none
scan line (c ∷ d ∷ s) =
    let more = push_line (unstuff line) (scan [] s) in
    let next = scan (line ++ c ∷ []) (d ∷ s) in
    if (c == cr) && (d == lf) then if text_eq line (dot ∷ []) then some ([], s) else more else next

unfoldable pub join_lines : List Text → Text
join_lines [] = []
join_lines (l ∷ []) = l
join_lines (l ∷ k ∷ ls) = l ++ lf ∷ join_lines (k ∷ ls)

-- The text of a multi-line string, with a line feed between two lines, and what follows it.
abbrev joined : Option (List Text × Text) → Option (Text × Text)
joined none = none
joined (some (ls, rest)) = some (join_lines ls, rest)

drop_prefix : Text → Text → Option Text
drop_prefix [] s = some s
drop_prefix (d ∷ p) [] = none
drop_prefix (d ∷ p) (c ∷ s) = let rest = drop_prefix p s in if c == d then rest else none

unfoldable pub read_multiline : Text → Option (Text × Text)
unfolding drop_prefix scan join_lines
read_multiline s = elim (drop_prefix (codes "text:" ++ crlf) s) [
  | none ↦ none
  | some body ↦ joined (scan [] body)
]

abbrev LacksLf : Text → Type 0
LacksLf = All (λ c. c ≢ lf)

extend_first-LacksLf :
    (c : ℕ) (ls : List Text) → c ≢ lf → All LacksLf ls → All LacksLf (extend_first c ls)
unfolding extend_first
extend_first-LacksLf c [] h a = ((h, tt), tt)
extend_first-LacksLf c (l ∷ ls) h a = ((h, a.0), a.1)

split_lines-LacksLf : (s : Text) → All LacksLf (split_lines s)
unfolding split_lines
split_lines-LacksLf [] = (tt, tt)
split_lines-LacksLf (c ∷ s) = elim (Bool-cases (c == lf)) [
  | inl e ↦ rw e (tt, split_lines-LacksLf s)
  | inr e ↦ rw e (extend_first-LacksLf c (split_lines s) (ground arith) (split_lines-LacksLf s))
]

extend_first-cons :
    (c : ℕ) (ls : List Text) → (l : Text) × (k : List Text) × (extend_first c ls ≡ l ∷ k)
unfolding extend_first
extend_first-cons c [] = (c ∷ [], [], refl)
extend_first-cons c (l ∷ ls) = (c ∷ l, ls, refl)

split_lines-cons : (s : Text) → (l : Text) × (k : List Text) × (split_lines s ≡ l ∷ k)
unfolding split_lines
split_lines-cons [] = ([], [], refl)
split_lines-cons (c ∷ s) = elim (Bool-cases (c == lf)) [
  | inl e ↦ ([], split_lines s, rw e)
  | inr e ↦ rw e (extend_first-cons c (split_lines s))
]

join_lines-extend_first :
    (c : ℕ) (ls : List Text) → join_lines (extend_first c ls) ≡ c ∷ join_lines ls
unfolding join_lines extend_first
join_lines-extend_first c [] = refl
join_lines-extend_first c (l ∷ []) = refl
join_lines-extend_first c (l ∷ k ∷ ls) = refl

join_lines-split_lines : (s : Text) → join_lines (split_lines s) ≡ s
unfolding split_lines join_lines
join_lines-split_lines [] = refl
join_lines-split_lines (c ∷ s) = elim (Bool-cases (c == lf)) [
  | inl e ↦
      let (l, k, split) = split_lines-cons s in
      rw (e, split) (ground (arith, join_lines-split_lines s, ap join_lines split))
  | inr e ↦ rw e (join_lines-extend_first c (split_lines s) ∙ ap (◌∷◌ c) (join_lines-split_lines s))
]

-- Up to the next CR LF the reader takes the line as it stands.
finish_scan : Text → Text → Option (List Text × Text)
finish_scan line s =
    if text_eq line (dot ∷ []) then some ([], s) else push_line (unstuff line) (scan [] s)

scan-line :
    (l line rest : Text)
    → LacksLf l
    → scan line (l ++ cr ∷ lf ∷ rest) ≡ finish_scan (line ++ l) rest
unfolding scan finish_scan
scan-line [] line rest h = rw append-nil
scan-line (c ∷ []) line rest h = elim (Bool-cases (c == cr)) [ inl e ↦ rw e | inr e ↦ rw e ]
scan-line (c ∷ d ∷ l) line rest h =
    let other : (c == cr) && (d == lf) ≡ false = ground (arith, h.1.0) in
    rw other (
      scan-line (d ∷ l) (line ++ c ∷ []) rest h.1
      ∙ ap (λ k. finish_scan k rest) (append_assoc line (c ∷ []) (d ∷ l)))

finish_scan-stuff : (l rest : Text) → finish_scan (stuff l) rest ≡ push_line l (scan [] rest)
unfolding finish_scan stuff unstuff has_prefix text_eq
finish_scan-stuff [] rest = refl
finish_scan-stuff (c ∷ l) rest = ground arith

LacksLf-stuff : (l : Text) → LacksLf l → LacksLf (stuff l)
unfolding stuff
LacksLf-stuff l h = elim (Bool-cases (has_prefix l (dot ∷ []))) [
  | inl e ↦ rw e (omega arith, h)
  | inr e ↦ rw e h
]

scan-end : (rest : Text) → scan [] (dot ∷ crlf ++ rest) ≡ some ([], rest)
unfolding scan text_eq
scan-end rest = refl

scan-write_lines :
    (ls : List Text) (rest : Text)
    → All LacksLf ls
    → scan [] (write_lines ls ++ (dot ∷ crlf ++ rest)) ≡ some (ls, rest)
unfolding write_lines push_line
scan-write_lines [] rest h = scan-end rest
scan-write_lines (l ∷ ls) rest h =
    let after = write_lines ls ++ (dot ∷ crlf ++ rest) in
    ap (scan []) (append_assoc (stuff l) (crlf ++ write_lines ls) (dot ∷ crlf ++ rest))
    ∙ scan-line (stuff l) [] after (LacksLf-stuff l h.0)
    ∙ finish_scan-stuff l after
    ∙ ap (push_line l) (scan-write_lines ls rest h.1)

-- A reader of a multi-line string gets back the text that was written, with a line feed for each
-- CR LF, whatever dots stand in it, and goes on right behind it, whatever follows.
pub read_multiline-multiline :
    (s rest : Text) → read_multiline (multiline s ++ rest) ≡ some (replace_crlf s, rest)
unfolding read_multiline multiline
read_multiline-multiline s rest =
    let t = replace_crlf s in
    ap (λ (body : Text). joined (scan [] body))
      (append_assoc (write_lines (split_lines t)) (dot ∷ crlf) rest)
    ∙ ap joined (scan-write_lines (split_lines t) rest (split_lines-LacksLf t))
    ∙ ap (λ (body : Text). some (body, rest)) (join_lines-split_lines t)
