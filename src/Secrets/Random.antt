-- ===== src/Secrets/Random.antt =====
-- `RandomPassword` of internal/secrets/secrets.go. What the system's random source puts into the
-- buffer, once for each turn of the loop, is an argument; `none` says that the loop is still
-- running when it is used up.
use mailhearth.Common.{
  ℕ, zero, suc, ◌-◌, ◌%◌, ◌≤◌, ◌<◌, ◌≡◌, refl, sym, ◌∙◌, ap, Bool, true, ◌&&◌, List, [], ◌∷◌, ◌++◌,
  Option, none, some, Text, codes, arith, ltb, leb, ◌==◌, if◌then◌else◌, length, Bool-cases, ==→eq,
  inl, inr, subst, append-nil, append_assoc, length-append,
}
use mailhearth.Secrets.Box.{take, take-append}

abbrev pub alphabet : Text
alphabet = codes "ABCDEFGHJKLMNPQRSTUVWXYZabcdefghijkmnopqrstuvwxyz23456789-_.!"

-- 256 - 256%len(alphabet)
abbrev pub limit : ℕ
limit = 256 - 256 % length alphabet

-- alphabet[v%len(alphabet)]
unfoldable pub character_at : List ℕ → ℕ → ℕ
character_at [] n = 0
character_at (c ∷ s) zero = c
character_at (c ∷ s) (suc n) = character_at s n

unfoldable pub character : ℕ → ℕ
unfolding character_at
character v = character_at alphabet (v % length alphabet)

-- The loop over the buffer.
unfoldable pub fill : Text → List ℕ → Text
unfolding character
fill out [] = out
fill out (v ∷ buf) =
    fill (if ltb v limit && ltb (length out) 24 then out ++ character v ∷ [] else out) buf

-- The loop over the random source.
unfoldable pub random_password_from : Text → List (List ℕ) → Option Text
unfolding fill
random_password_from out [] = if ltb (length out) 24 then none else some out
random_password_from out (buf ∷ source) =
    let rest = random_password_from (fill out buf) source in
    if ltb (length out) 24 then rest else some out

unfoldable pub random_password : List (List ℕ) → Option Text
unfolding random_password_from
random_password source = random_password_from [] source

-- The bytes of the source that are not discarded, as characters.
unfoldable pub accepted : List ℕ → Text
unfolding character
accepted [] = []
accepted (v ∷ buf) = if ltb v limit then character v ∷ accepted buf else accepted buf

unfoldable pub all_accepted : List (List ℕ) → Text
unfolding accepted
all_accepted [] = []
all_accepted (buf ∷ source) = accepted buf ++ all_accepted source

-- The first n characters, if there are as many.
unfoldable pub first : ℕ → Text → Option Text
unfolding take
first n s = if leb n (length s) then some (take n s) else none

take-full : (n : ℕ) (s t : List ℕ) → length s ≡ n → take n (s ++ t) ≡ s
take-full n s t e = subst (λ k. take k (s ++ t) ≡ s) e (take-append s t)

take-take : (n : ℕ) (s t : List ℕ) → take n (take n s ++ t) ≡ take n (s ++ t)
unfolding take
take-take zero s t = refl
take-take (suc n) [] t = refl
take-take (suc n) (c ∷ s) t = ap (λ r. c ∷ r) (take-take n s t)

length-take : (n : ℕ) (s t : List ℕ) → leb n (length (take n s ++ t)) ≡ leb n (length (s ++ t))
unfolding take
length-take zero s t = ground arith
length-take (suc n) [] t = refl
length-take (suc n) (c ∷ s) t = ground (arith, length-take n s t)

length-take_le : (n : ℕ) (s : List ℕ) → length (take n s) ≤ n
unfolding take
length-take_le zero s = omega arith
length-take_le (suc n) [] = omega arith
length-take_le (suc n) (c ∷ s) = ground (arith, length-take_le n s)

first-take : (n : ℕ) (s t : List ℕ) → first n (take n s ++ t) ≡ first n (s ++ t)
unfolding first
first-take n s t = rw (length-take n s t, take-take n s t) refl

take-all : (n : ℕ) (s : List ℕ) → length s ≤ n → take n s ≡ s
unfolding take
take-all zero [] h = refl
take-all zero (c ∷ s) h = absurd (omega arith)
take-all (suc n) [] h = refl
take-all (suc n) (c ∷ s) h = ap (λ r. c ∷ r) (take-all n s (ground (arith, h)))

first-full : (n : ℕ) (s t : List ℕ) → length s ≡ n → first n (s ++ t) ≡ some s
unfolding first
first-full n s t e = rw (take-full n s t e) (ground (arith, e, length-append s t))

first-short : (n : ℕ) (s : List ℕ) → length s < n → first n s ≡ none
unfolding first
first-short n s h = ground (arith, h)

-- The loop over the buffer keeps the first 24 accepted characters.
fill-take :
    (out : Text) (buf : List ℕ) → length out ≤ 24 → fill out buf ≡ take 24 (out ++ accepted buf)
unfolding fill accepted
fill-take out [] h = rw (append-nil out) (sym (take-all 24 out h))
fill-take out (v ∷ buf) h = elim (Bool-cases (ltb v limit)) [
  | inr e ↦ rw e (fill-take out buf h)
  | inl e ↦ rw e (elim (Bool-cases (ltb (length out) 24)) [
    | inl l ↦
        let longer : length (out ++ (character v ∷ [])) ≤ 24 =
          ground (arith, l, length-append out (character v ∷ [])) in
        rw l (
          fill-take (out ++ (character v ∷ [])) buf longer
          ∙ ap (take 24) (append_assoc out (character v ∷ []) (accepted buf)))
    | inr l ↦ rw l (
        fill-take out buf h
        ∙ take-full 24 out (accepted buf) (ground (arith, l, h))
        ∙ sym (take-full 24 out (character v ∷ accepted buf) (ground (arith, l, h))))
  ])
]

random_password-first_from :
    (out : Text) (source : List (List ℕ))
    → length out ≤ 24
    → random_password_from out source ≡ first 24 (out ++ all_accepted source)
unfolding random_password_from all_accepted
random_password-first_from out [] h = rw (append-nil out) (elim (Bool-cases (ltb (length out) 24)) [
  | inl l ↦ rw l (sym (first-short 24 out (ground (arith, l))))
  | inr l ↦
      rw l
        (sym (sym (ap (first 24) (append-nil out)) ∙ first-full 24 out [] (ground (arith, l, h))))
])
random_password-first_from out (buf ∷ source) h = elim (Bool-cases (ltb (length out) 24)) [
  | inl l ↦
      let e = fill-take out buf h in
      let bound : length (fill out buf) ≤ 24 = rw e (length-take_le 24 (out ++ accepted buf)) in
      rw l (
        random_password-first_from (fill out buf) source bound
        ∙ ap (λ s. first 24 (s ++ all_accepted source)) e
        ∙ first-take 24 (out ++ accepted buf) (all_accepted source)
        ∙ ap (first 24) (append_assoc out (accepted buf) (all_accepted source)))
  | inr l ↦
      rw l (sym (first-full 24 out (accepted buf ++ all_accepted source) (ground (arith, l, h))))
]

-- The loop ends as soon as the random source has given 24 bytes below the limit, whatever else it
-- gives and however the bytes fall into the buffers, and not before; the password is then their
-- characters, in their order.
pub random_password-first :
    (source : List (List ℕ)) → random_password source ≡ first 24 (all_accepted source)
unfolding random_password
random_password-first source = random_password-first_from [] source (omega arith)

-- The bytes below the limit whose character is the one at a place of the alphabet.
unfoldable pub ways : ℕ → ℕ → ℕ
ways zero i = 0
ways (suc n) i =
    let rest = ways n i in if ltb n limit && (n % length alphabet == i) then suc rest else rest

unfoldable pub all_below : (ℕ → Bool) → ℕ → Bool
all_below p zero = true
all_below p (suc n) = p n && all_below p n

all_below-true : (p : ℕ → Bool) (n i : ℕ) → all_below p n ≡ true → i < n → p i ≡ true
unfolding all_below
all_below-true p zero i h l = absurd (omega arith)
all_below-true p (suc n) i h l = elim (Bool-cases (i == n)) [
  | inl e ↦ subst (λ k. p k ≡ true) (sym (==→eq i n e)) (ground (arith, h))
  | inr e ↦ all_below-true p n i (ground (arith, h)) (ground (arith, l, e))
]

even_ways : all_below (λ i. ways 256 i == 4) (length alphabet) ≡ true
unfolding all_below ways
even_ways = refl

-- Of the 256 values of a byte, as many give one character of the alphabet as any other: four.
pub ways-even : (i : ℕ) → i < length alphabet → ways 256 i ≡ 4
ways-even i h =
    ==→eq (ways 256 i) 4 (all_below-true (λ i. ways 256 i == 4) (length alphabet) i even_ways h)
