-- ===== src/Secrets/Password.antt =====
-- `HashPassword` and `VerifyPassword` of internal/secrets/secrets.go. The key derivation
-- (golang.org/x/crypto/argon2) is a parameter: password, salt, time, memory, threads, length.
use mailhearth.Common.{
  ℕ, ◌+◌, ◌-◌, ◌*◌, ◌/◌, ◌%◌, ◌≡◌, refl, ap, Bool, false, not, ◌&&◌, List, [], ◌∷◌, ◌++◌, Option,
  none, some, Text, codes, arith, ltb, leb, ◌==◌, if◌then◌else◌, length, text_eq, is_space, decimal,
  All,
}
use mailhearth.Secrets.Base64.{encode_base64, decode_base64, base64_char}
use mailhearth.Secrets.RoundTrip.{IsByte, decode-encode_base64}

abbrev pub dollar : ℕ
dollar = 36

-- A character in front of the first part.
unfoldable pub extend : ℕ → List Text → List Text
extend c [] = (c ∷ []) ∷ []
extend c (part ∷ parts) = (c ∷ part) ∷ parts

-- strings.Split(s, "$")
unfoldable pub split_dollar : Text → List Text
unfolding extend
split_dollar [] = [] ∷ []
split_dollar (c ∷ s) = if c == dollar then [] ∷ split_dollar s else extend c (split_dollar s)

-- The parts of fmt.Sscanf: a literal, and a number behind blanks, none of them a line break.
unfoldable pub scan_literal : Text → Text → Option Text
scan_literal [] s = some s
scan_literal (d ∷ ds) [] = none
scan_literal (d ∷ ds) (c ∷ s) = if c == d then scan_literal ds s else none

unfoldable pub is_digit : ℕ → Bool
is_digit c = leb 48 c && leb c 57

unfoldable pub scan_digits : ℕ → Text → ℕ × Text
unfolding is_digit
scan_digits n [] = (n, [])
scan_digits n (c ∷ s) = if is_digit c then scan_digits (n * 10 + (c - 48)) s else (n, c ∷ s)

-- A number for an unsigned integer below a bound.
unfoldable pub scan_number : ℕ → Text → Option (ℕ × Text)
unfolding is_space is_digit scan_digits
scan_number bound [] = none
scan_number bound (c ∷ s) =
    let rest = scan_number bound s in
    if is_space c && not (c == 10)
    then rest
    else if is_digit c
    then (let r = scan_digits 0 (c ∷ s) in if ltb r.0 bound then some r else none)
    else none

infixl 5 ◌>>=◌
abbrev ◌>>=◌ {ℓ κ} : {A : Type ℓ} {B : Type κ} → Option A → (A → Option B) → Option B
none >>= k = none
some a >>= k = k a

-- "m=%d,t=%d,p=%d", into two uint32 and a uint8.
unfoldable pub scan_params : Text → Option (ℕ × (ℕ × ℕ))
unfolding scan_literal scan_number
scan_params s = do
  s1 ← scan_literal (codes "m=") s
  m ← scan_number 0x100000000 s1
  s2 ← scan_literal (codes ",t=") m.1
  t ← scan_number 0x100000000 s2
  s3 ← scan_literal (codes ",p=") t.1
  p ← scan_number 256 s3
  some (m.0, (t.0, p.0))

abbrev pub argon_time : ℕ
argon_time = 2

abbrev pub argon_memory : ℕ
argon_memory = 19 * 1024

abbrev pub argon_threads : ℕ
argon_threads = 1

abbrev pub argon_key_len : ℕ
argon_key_len = 32

unfoldable pub is_true : Option Bool → Bool
is_true none = false
is_true (some b) = b

module _ (id_key : List ℕ → List ℕ → ℕ → ℕ → ℕ → ℕ → List ℕ) where
  -- The salt is read from the system's random source.
  unfoldable pub hash_password : List ℕ → List ℕ → Text
  unfolding decimal encode_base64
  hash_password salt password =
      codes "$argon2id$v=19$m="
      ++ (decimal argon_memory
          ++ (codes ",t="
              ++ (decimal argon_time
                  ++ (codes ",p="
                      ++ (decimal argon_threads
                          ++ (dollar
                              ∷ (encode_base64 salt
                                  ++ (dollar
                                      ∷ encode_base64 (
                                          id_key password salt argon_time argon_memory argon_threads
                                            argon_key_len)))))))))

  -- The length is that of the digest, as a uint32.
  unfoldable pub verify_parts : Text → Text → Text → List ℕ → Option Bool
  unfolding scan_params decode_base64 text_eq
  verify_parts params salt_part want_part password = do
    r ← scan_params params
    salt ← decode_base64 salt_part
    want ← decode_base64 want_part
    some (text_eq (id_key password salt r.1.0 r.0 r.1.1 (length want % 0x100000000)) want)

  unfoldable pub verify_split : List Text → List ℕ → Bool
  unfolding verify_parts text_eq is_true
  verify_split (before ∷ kind ∷ version ∷ params ∷ salt ∷ want ∷ []) password =
      text_eq kind (codes "argon2id") && is_true (verify_parts params salt want password)
  verify_split _ password = false

  unfoldable pub verify_password : Text → List ℕ → Bool
  unfolding split_dollar verify_split
  verify_password encoded password = verify_split (split_dollar encoded) password

-- Text without a dollar.
abbrev pub IsPlain : ℕ → Type 0
IsPlain c = (c == dollar) ≡ false

split_dollar-plain : (s : Text) → All IsPlain s → split_dollar s ≡ s ∷ []
unfolding split_dollar extend
split_dollar-plain [] h = refl
split_dollar-plain (c ∷ s) h = rw (h.0, split_dollar-plain s h.1) refl

split_dollar-append :
    (s t : Text) → All IsPlain s → split_dollar (s ++ (dollar ∷ t)) ≡ s ∷ split_dollar t
unfolding split_dollar extend
split_dollar-append [] t h = refl
split_dollar-append (c ∷ s) t h = rw (h.0, split_dollar-append s t h.1) refl

base64_char-IsPlain : (n : ℕ) → IsPlain (base64_char n)
unfolding base64_char
base64_char-IsPlain n = ground arith

encode_base64-IsPlain : (bytes : List ℕ) → All IsPlain (encode_base64 bytes)
unfolding encode_base64
encode_base64-IsPlain [] = tt
encode_base64-IsPlain (a ∷ []) =
    (base64_char-IsPlain (a / 4), (base64_char-IsPlain (a % 4 * 16), tt))
encode_base64-IsPlain (a ∷ b ∷ []) = (
  base64_char-IsPlain (a / 4),
  (base64_char-IsPlain (a % 4 * 16 + b / 16), (base64_char-IsPlain (b % 16 * 4), tt)),
)
encode_base64-IsPlain (a ∷ b ∷ c ∷ bytes) = (
  base64_char-IsPlain (a / 4),
  (
    base64_char-IsPlain (a % 4 * 16 + b / 16),
    (
      base64_char-IsPlain (b % 16 * 4 + c / 64),
      (base64_char-IsPlain (c % 64), encode_base64-IsPlain bytes),
    ),
  ),
)

-- What the program relies on of the key derivation: as many bytes as were asked for.
pub record Derives (id_key : List ℕ → List ℕ → ℕ → ℕ → ℕ → ℕ → List ℕ) : Type 0 where
  pub as_long : (p s : List ℕ) (t m k n : ℕ) → length (id_key p s t m k n) ≡ n
  pub bytes : (p s : List ℕ) (t m k n : ℕ) → All IsByte (id_key p s t m k n)

abbrev written_params : Text
written_params = codes "m=19456,t=2,p=1"

verify_parts-written :
    (id_key : List ℕ → List ℕ → ℕ → ℕ → ℕ → ℕ → List ℕ) (salt want other : List ℕ)
    → All IsByte salt
    → All IsByte want
    → length want ≡ argon_key_len
    → verify_parts id_key written_params (encode_base64 salt) (encode_base64 want) other
      ≡ some (text_eq (id_key other salt argon_time argon_memory argon_threads argon_key_len) want)
unfolding verify_parts
verify_parts-written id_key salt want other b w l =
    rw (decode-encode_base64 salt b, decode-encode_base64 want w, l) refl

-- A hash that HashPassword made of one password, with any salt, is verified for another just if both
-- have the same digest under that salt; so always for the password itself.
pub verify_password-hash :
    (id_key : List ℕ → List ℕ → ℕ → ℕ → ℕ → ℕ → List ℕ) (salt password other : List ℕ)
    → Derives id_key
    → All IsByte salt
    → verify_password id_key (hash_password id_key salt password) other
      ≡ text_eq
          (id_key other salt argon_time argon_memory argon_threads argon_key_len)
          (id_key password salt argon_time argon_memory argon_threads argon_key_len)
unfolding verify_password verify_split hash_password is_true
verify_password-hash id_key salt password other d b =
    let want = id_key password salt argon_time argon_memory argon_threads argon_key_len in
    rw
      (
        split_dollar-append (encode_base64 salt) (encode_base64 want) (encode_base64-IsPlain salt),
        split_dollar-plain (encode_base64 want) (encode_base64-IsPlain want),
      )
      (ap is_true (
        verify_parts-written id_key salt want other b (d.bytes _ _ _ _ _ _)
          (d.as_long _ _ _ _ _ _)))
