-- ===== src/Secrets/Samples.antt =====
-- Tests of internal/secrets/secrets.go with a toy cipher and a toy digest, and the theorems at them.
use mailhearth.Common.{
  ℕ, zero, suc, ◌%◌, ◌<◌, ◌≡◌, refl, ap, false, List, [], ◌∷◌, ◌++◌, Option, none, some, codes,
  arith, ok, err, length, has_prefix, text_eq, All,
}
use mailhearth.Secrets.Base64.{
  base64_char, base64_value, encode_base64, with_value, is_line_break, values, join_values,
  join_all, decode_base64,
}
use mailhearth.Secrets.RoundTrip.{IsByte}
use mailhearth.Secrets.Box.{
  unknown_format, too_short, drop, seal, open_sealed, open_box, Opens, open_box-seal,
}
use mailhearth.Secrets.Password.{
  hash_password, verify_password, verify_split, split_dollar, extend, Derives, verify_password-hash,
  argon_time, argon_memory, argon_threads, argon_key_len,
}
use mailhearth.Secrets.Random.{
  fill, character, character_at, random_password_from, random_password, all_accepted, first,
  random_password-first,
}

foobar : encode_base64 (codes "foobar") ≡ codes "Zm9vYmFy"
unfolding encode_base64 base64_char
foobar = refl

short : encode_base64 (codes "fo") ≡ codes "Zm8"
unfolding encode_base64 base64_char
short = refl

broken_line : decode_base64 (codes "Zm9v\nYmE") ≡ some (codes "fooba")
unfolding decode_base64 values base64_value with_value is_line_break join_values join_all
broken_line = refl

one_character : decode_base64 (codes "Zm9vY") ≡ none
unfolding decode_base64 values base64_value with_value is_line_break join_values join_all
one_character = refl

-- A cipher that writes the text behind a mark.
abbrev cover : List ℕ → List ℕ → List ℕ
cover nonce plain = 7 ∷ plain

abbrev uncover : List ℕ → List ℕ → Option (List ℕ)
uncover nonce [] = none
uncover nonce (c ∷ s) = some s

toy_cipher : Opens 2 cover uncover
toy_cipher = record { opens = λ nonce plain e b. refl; bytes = λ nonce plain b. (omega arith, b) }

open_box-seal_example :
    open_box 2 cover uncover (seal 2 cover uncover (200 ∷ 9 ∷ []) (codes "secret"))
    ≡ ok (codes "secret")
open_box-seal_example =
    open_box-seal 2 cover uncover (200 ∷ 9 ∷ []) (codes "secret") toy_cipher refl (omega arith)
      (omega arith)

other_format : open_box 2 cover uncover (codes "v2:AAAA") ≡ err unknown_format
unfolding open_box open_sealed has_prefix
other_format = refl

no_nonce : open_box 2 cover uncover (codes "v1:Zg") ≡ err too_short
unfolding open_box open_sealed has_prefix drop decode_base64 values base64_value with_value
    is_line_break join_values join_all
no_nonce = refl

-- A digest that repeats the length of the password.
abbrev repeated : ℕ → ℕ → List ℕ
repeated zero b = []
repeated (suc n) b = b ∷ repeated n b

length-repeated : (n b : ℕ) → length (repeated n b) ≡ n
length-repeated zero b = refl
length-repeated (suc n) b = ap suc (length-repeated n b)

repeated-IsByte : (n b : ℕ) → b < 256 → All IsByte (repeated n b)
repeated-IsByte zero b h = tt
repeated-IsByte (suc n) b h = (h, repeated-IsByte n b h)

abbrev toy_key : List ℕ → List ℕ → ℕ → ℕ → ℕ → ℕ → List ℕ
toy_key p s t m k n = repeated n (length p % 256)

toy_digest : Derives toy_key
toy_digest = record {
  as_long = λ p s t m k n. length-repeated n (length p % 256);
  bytes = λ p s t m k n. repeated-IsByte n (length p % 256) (omega arith);
}

verify_password-hash_example :
    verify_password toy_key (hash_password toy_key (1 ∷ 2 ∷ []) (codes "pass")) (codes "password")
    ≡ text_eq
        (toy_key
          (codes "password")
          (1 ∷ 2 ∷ [])
          argon_time
          argon_memory
          argon_threads
          argon_key_len)
        (toy_key (codes "pass") (1 ∷ 2 ∷ []) argon_time argon_memory argon_threads argon_key_len)
verify_password-hash_example =
    verify_password-hash toy_key (1 ∷ 2 ∷ []) (codes "pass") (codes "password") toy_digest
      (omega arith)

not_a_hash : verify_password toy_key (codes "$2b$10$abc") (codes "pass") ≡ false
unfolding verify_password split_dollar extend verify_split
not_a_hash = refl

abbrev buffers : List (List ℕ)
buffers = (0 ∷ 250 ∷ repeated 20 61) ∷ repeated 30 1 ∷ []

filled : random_password buffers ≡ some (repeated 21 65 ++ repeated 3 66)
unfolding random_password random_password_from fill character character_at
filled = refl

random_password-first_example : random_password buffers ≡ first 24 (all_accepted buffers)
random_password-first_example = random_password-first buffers
