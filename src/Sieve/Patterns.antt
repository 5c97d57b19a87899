-- ===== src/Sieve/Patterns.antt =====
-- The four regular expressions of internal/mailproto/sieve/compile.go, as tests.
use mailhearth.Common.{
  ℕ, ◌+◌, Bool, true, false, not, ◌&&◌, ◌||◌, [], ◌∷◌, Text, ◌==◌, ltb, leb, if◌then◌else◌, length,
}

-- [0-9]
unfoldable pub is_digit : ℕ → Bool
is_digit c = leb b'0' c && leb c b'9'

-- [A-Za-z]
unfoldable pub is_letter : ℕ → Bool
is_letter c = (leb b'A' c && leb c b'Z') || (leb b'a' c && leb c b'z')

unfoldable pub every : (ℕ → Bool) → Text → Bool
every p [] = true
every p (c ∷ s) = p c && every p s

-- Between one character and `most` of them, each in a class: C{1,most}
unfoldable pub run_of : (ℕ → Bool) → ℕ → Text → Bool
unfolding every
run_of p most s = every p s && (ltb 0 (length s) && leb (length s) most)

-- headerNameRe: ^[A-Za-z0-9-]{1,64}$
unfoldable pub is_header_name : Text → Bool
unfolding run_of is_letter is_digit
is_header_name = run_of (λ c. is_letter c || (is_digit c || (c == b'-'))) 64

unfoldable pub is_unit : ℕ → Bool
is_unit c = (c == b'K') || ((c == b'M') || ((c == b'k') || (c == b'm')))

-- [0-9]{0,most}[KMkm]?$, one digit being read already.
unfoldable pub size_tail : ℕ → Text → Bool
unfolding is_unit
size_tail read [] = true
size_tail read (c ∷ s) =
    let more = size_tail (read + 1) s in
    if is_digit c then ltb read 9 && more else is_unit c && (length s == 0)

-- sizeRe: ^[0-9]{1,9}[KMkm]?$
unfoldable pub is_size : Text → Bool
unfolding size_tail is_digit
is_size [] = false
is_size (c ∷ s) = is_digit c && size_tail 1 s

-- [A-Za-z0-9_-]{1,32}
is_keyword : Text → Bool
unfolding run_of is_letter is_digit
is_keyword = run_of (λ c. is_letter c || (is_digit c || ((c == b'_') || (c == b'-')))) 32

-- flagRe: ^(\\[A-Za-z]+|\$?[A-Za-z0-9_-]{1,32})$
unfoldable pub is_flag : Text → Bool
unfolding is_keyword every is_letter
is_flag [] = false
is_flag (c ∷ s) =
    if c == b'\\'
    then every is_letter s && ltb 0 (length s)
    else if c == b'$'
    then is_keyword s
    else is_keyword (c ∷ s)

-- [^@\s"<>]
unfoldable pub is_address_char : ℕ → Bool
is_address_char c = not (
    (c == b'@')
    || ((c == 9) || ((c == 10) || ((c == 12) || ((c == 13) || (c == 32)))))
    || ((c == b'"') || ((c == b'<') || (c == b'>'))))

-- A dot that is not the last character.
dot_inside : Text → Bool
dot_inside [] = false
dot_inside (c ∷ []) = false
dot_inside (c ∷ d ∷ s) = (c == b'.') || dot_inside (d ∷ s)

-- [^@\s"<>]+\.[^@\s"<>]+$
is_host : Text → Bool
unfolding dot_inside every is_address_char
is_host [] = false
is_host (c ∷ s) = every is_address_char (c ∷ s) && dot_inside s

-- What follows the first character of the local part, up to the `@` and the host.
local_tail : Text → Bool
unfolding is_host
local_tail [] = false
local_tail (c ∷ s) = if c == b'@' then is_host s else is_address_char c && local_tail s

-- addressRe: ^[^@\s"<>]+@[^@\s"<>]+\.[^@\s"<>]+$
unfoldable pub is_address : Text → Bool
unfolding local_tail is_address_char
is_address [] = false
is_address (c ∷ s) = is_address_char c && local_tail s
