-- ===== src/Secrets/RoundTrip.antt =====
-- What is encoded in base64 is read back.
use mailhearth.Common.{
  ℕ, ◌+◌, ◌*◌, ◌/◌, ◌%◌, ◌<◌, ◌≡◌, refl, false, List, [], ◌∷◌, some, Text, arith, All,
}
use mailhearth.Secrets.Base64.{
  base64_char, base64_value, encode_base64, with_value, is_line_break, values, join_values,
  decode_base64, join_all,
}

abbrev pub IsByte : ℕ → Type 0
IsByte b = b < 256

base64_value-char : (n : ℕ) → n < 64 → base64_value (base64_char n) ≡ some n
unfolding base64_value base64_char
base64_value-char n h = ground (arith, h)

base64_char-no_break : (n : ℕ) → is_line_break (base64_char n) ≡ false
unfolding is_line_break base64_char
base64_char-no_break n = ground arith

values-char :
    (n : ℕ) (s : Text) (vs : List ℕ)
    → n < 64
    → values s ≡ some vs
    → values (base64_char n ∷ s) ≡ some (n ∷ vs)
unfolding values with_value
values-char n s vs h e = rw (base64_char-no_break n, base64_value-char n h, e) refl

values-nil : values [] ≡ some []
unfolding values
values-nil = refl

-- The six-bit groups of a list of bytes.
sixes : List ℕ → List ℕ
sixes [] = []
sixes (a ∷ []) = (a / 4) ∷ (a % 4 * 16) ∷ []
sixes (a ∷ b ∷ []) = (a / 4) ∷ (a % 4 * 16 + b / 16) ∷ (b % 16 * 4) ∷ []
sixes (a ∷ b ∷ c ∷ bytes) =
    (a / 4) ∷ (a % 4 * 16 + b / 16) ∷ (b % 16 * 4 + c / 64) ∷ (c % 64) ∷ sixes bytes

values-encode :
    (bytes : List ℕ) → All IsByte bytes → values (encode_base64 bytes) ≡ some (sixes bytes)
unfolding encode_base64 sixes
values-encode [] h = values-nil
values-encode (a ∷ []) h =
    values-char (a / 4) _ _ (omega arith) (values-char (a % 4 * 16) [] [] (omega arith) values-nil)
values-encode (a ∷ b ∷ []) h = values-char (a / 4) _ _ (omega arith) (
    values-char (a % 4 * 16 + b / 16) _ _ (omega arith)
      (values-char (b % 16 * 4) [] [] (omega arith) values-nil))
values-encode (a ∷ b ∷ c ∷ bytes) h = values-char (a / 4) _ _ (omega arith) (
    values-char (a % 4 * 16 + b / 16) _ _ (omega arith) (
      values-char (b % 16 * 4 + c / 64) _ _ (omega arith) (
        values-char (c % 64) (encode_base64 bytes) (sixes bytes) (omega arith)
          (values-encode bytes h.1.1.1))))

join-sixes : (bytes : List ℕ) → All IsByte bytes → join_values (sixes bytes) ≡ some bytes
unfolding join_values sixes
join-sixes [] h = refl
join-sixes (a ∷ []) h = ground (arith, h)
join-sixes (a ∷ b ∷ []) h = ground (arith, h)
join-sixes (a ∷ b ∷ c ∷ bytes) h = rw (join-sixes bytes h.1.1.1) (ground (arith, h))

pub decode-encode_base64 :
    (bytes : List ℕ) → All IsByte bytes → decode_base64 (encode_base64 bytes) ≡ some bytes
unfolding decode_base64 join_all
decode-encode_base64 bytes h = rw (values-encode bytes h) (join-sixes bytes h)
