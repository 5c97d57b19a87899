-- ===== src/Secrets/Box.antt =====
-- `Seal` and `Open` of `Box` in internal/secrets/secrets.go. The cipher (cipher.AEAD) is a parameter:
-- the size of its nonces, what it makes of a nonce and a plain text, and the way back.
use mailhearth.Common.{
  ℕ, zero, suc, ◌≡◌, refl, ap, false, not, List, [], ◌∷◌, ◌++◌, Option, none, some, Text, codes,
  arith, ltb, Outcome, ok, err, guard, ◌>>=◌, ◌>>◌, subst, length, length-append, has_prefix, All,
  All-append,
}
use mailhearth.Secrets.Base64.{encode_base64, decode_base64}
use mailhearth.Secrets.RoundTrip.{IsByte, decode-encode_base64}

pub data BoxError : Type 0 where
  unknown_format bad_base64 too_short could_not_decrypt : BoxError

-- s[:n] and s[n:], for n up to the length.
unfoldable pub take : ℕ → List ℕ → List ℕ
take zero s = []
take (suc n) [] = []
take (suc n) (c ∷ s) = c ∷ take n s

unfoldable pub drop : ℕ → List ℕ → List ℕ
drop zero s = s
drop (suc n) [] = []
drop (suc n) (c ∷ s) = drop n s

abbrev pub or_error {ℓ} : {A : Type ℓ} → Option A → BoxError → Outcome BoxError A
or_error none e = err e
or_error (some a) e = ok a

abbrev pub version : Text
version = codes "v1:"

module _ (nonce_size : ℕ) (seal_aead : List ℕ → List ℕ → List ℕ)
    (open_aead : List ℕ → List ℕ → Option (List ℕ)) where
  -- The nonce is read from the system's random source.
  unfoldable pub seal : List ℕ → List ℕ → Text
  unfolding encode_base64
  seal nonce plain = version ++ encode_base64 (nonce ++ seal_aead nonce plain)

  -- A value that is not empty.
  unfoldable pub open_sealed : Text → Outcome BoxError (List ℕ)
  unfolding has_prefix drop decode_base64 take
  open_sealed sealed = do
    guard (has_prefix sealed version) unknown_format
    raw ← or_error (decode_base64 (drop 3 sealed)) bad_base64
    guard (not (ltb (length raw) nonce_size)) too_short
    or_error (open_aead (take nonce_size raw) (drop nonce_size raw)) could_not_decrypt

  unfoldable pub open_box : Text → Outcome BoxError (List ℕ)
  unfolding open_sealed
  open_box [] = ok []
  open_box (c ∷ s) = open_sealed (c ∷ s)

pub take-append : (s t : List ℕ) → take (length s) (s ++ t) ≡ s
unfolding take
take-append [] t = refl
take-append (c ∷ s) t = ap (λ r. c ∷ r) (take-append s t)

drop-append : (s t : List ℕ) → drop (length s) (s ++ t) ≡ t
unfolding drop
drop-append [] t = refl
drop-append (c ∷ s) t = drop-append s t

-- What the program relies on of the cipher: a nonce of the right size opens what it has sealed, and
-- what is sealed is bytes.
pub record Opens (nonce_size : ℕ) (seal_aead : List ℕ → List ℕ → List ℕ)
    (open_aead : List ℕ → List ℕ → Option (List ℕ)) : Type 0 where
  pub opens :
      (nonce plain : List ℕ)
      → length nonce ≡ nonce_size
      → All IsByte plain
      → open_aead nonce (seal_aead nonce plain) ≡ some plain
  pub bytes : (nonce plain : List ℕ) → All IsByte plain → All IsByte (seal_aead nonce plain)

take-nonce : (n : ℕ) (nonce t : List ℕ) → length nonce ≡ n → take n (nonce ++ t) ≡ nonce
take-nonce n nonce t e = subst (λ k. take k (nonce ++ t) ≡ nonce) e (take-append nonce t)

drop-nonce : (n : ℕ) (nonce t : List ℕ) → length nonce ≡ n → drop n (nonce ++ t) ≡ t
drop-nonce n nonce t e = subst (λ k. drop k (nonce ++ t) ≡ t) e (drop-append nonce t)

long_enough : (n : ℕ) (nonce t : List ℕ) → length nonce ≡ n → ltb (length (nonce ++ t)) n ≡ false
long_enough n nonce t e = ground (arith, e, length-append nonce t)

-- What Seal makes of a text, with any nonce of the cipher's size, Open gives back.
pub open_box-seal :
    (nonce_size : ℕ) (seal_aead : List ℕ → List ℕ → List ℕ)
    (open_aead : List ℕ → List ℕ → Option (List ℕ)) (nonce plain : List ℕ)
    → Opens nonce_size seal_aead open_aead
    → length nonce ≡ nonce_size
    → All IsByte nonce
    → All IsByte plain
    → open_box nonce_size seal_aead open_aead (seal nonce_size seal_aead open_aead nonce plain)
      ≡ ok plain
unfolding open_box open_sealed seal has_prefix drop
open_box-seal nonce_size seal_aead open_aead nonce plain o n b p =
    let ct = seal_aead nonce plain in
    rw (decode-encode_base64 (nonce ++ ct) (All-append IsByte nonce ct b (o.bytes nonce plain p))) (
      rw
        (
          long_enough nonce_size nonce ct n,
          take-nonce nonce_size nonce ct n,
          drop-nonce nonce_size nonce ct n,
          o.opens nonce plain n p,
        )
        refl)
