-- ===== src/Common/Lists.antt =====
-- Lists with native lengths, and predicates on lists by recursion.
use Prim.Native.Nat.{ℕ, zero, suc, ◌+◌, ◌≤◌}
use mathlib.Core.Path.{◌≡◌, refl, ap, subst}
use mathlib.Core.Logic.{inl, inr}
use mathlib.Core.Bool.{Bool, true, false}
use mathlib.Core.Option.{Option, none, some}
use mathlib.Core.List.{List, [], ◌∷◌, ◌++◌}
use native.Mathlib.Omega.{arith}
use mailhearth.Common.Tests.{if◌then◌else◌, Bool-cases}

-- A test counted as 0 or 1.
abbrev pub weight : Bool → ℕ
weight true = 1
weight false = 0

module _ {ℓ} {A : Type ℓ} where
  abbrev pub length : List A → ℕ
  length [] = 0
  length (x ∷ xs) = suc (length xs)

  pub length-append : (xs ys : List A) → length (xs ++ ys) ≡ length xs + length ys
  length-append [] ys = omega arith
  length-append (x ∷ xs) ys = omega (arith, length-append xs ys)

  -- The entries for which a test passes, in order.
  unfoldable pub keep_if : (A → Bool) → List A → List A
  keep_if p [] = []
  keep_if p (x ∷ xs) = if p x then x ∷ keep_if p xs else keep_if p xs

  -- How many entries pass a test.
  unfoldable pub count_if : (A → Bool) → List A → ℕ
  count_if p [] = 0
  count_if p (x ∷ xs) = if p x then suc (count_if p xs) else count_if p xs

  pub count_if-le-length : (p : A → Bool) (xs : List A) → count_if p xs ≤ length xs
  unfolding count_if
  count_if-le-length p [] = omega arith
  count_if-le-length p (x ∷ xs) = ground (arith, count_if-le-length p xs)

  pub count_if-le :
      (p q : A → Bool) (xs : List A)
      → ((x : A) → p x ≡ true → q x ≡ true)
      → count_if p xs ≤ count_if q xs
  unfolding count_if
  count_if-le p q [] h = omega arith
  count_if-le p q (x ∷ xs) h = ground (arith, count_if-le p q xs h, h x)

  -- The first entry for which a test passes.
  unfoldable pub find_if : (A → Bool) → List A → Option A
  find_if p [] = none
  find_if p (x ∷ xs) = if p x then some x else find_if p xs

  abbrev pub get_elem? : List A → ℕ → Option A
  get_elem? [] i = none
  get_elem? (x ∷ xs) zero = some x
  get_elem? (x ∷ xs) (suc i) = get_elem? xs i

  -- A write out of bounds changes nothing.
  abbrev pub set : List A → ℕ → A → List A
  set [] i v = []
  set (x ∷ xs) zero v = v ∷ xs
  set (x ∷ xs) (suc i) v = x ∷ set xs i v

  abbrev pub erase_at : List A → ℕ → List A
  erase_at [] i = []
  erase_at (x ∷ xs) zero = xs
  erase_at (x ∷ xs) (suc i) = x ∷ erase_at xs i

  pub length-set : (xs : List A) (i : ℕ) (v : A) → length (set xs i v) ≡ length xs
  length-set [] i v = refl
  length-set (x ∷ xs) zero v = refl
  length-set (x ∷ xs) (suc i) v = ap suc (length-set xs i v)

  pub length-erase_at :
      (xs : List A) (i : ℕ) (x : A)
      → get_elem? xs i ≡ some x
      → length xs ≡ suc (length (erase_at xs i))
  length-erase_at [] i x h = cc
  length-erase_at (y ∷ xs) zero x h = refl
  length-erase_at (y ∷ xs) (suc i) x h = ap suc (length-erase_at xs i x h)

  pub count_if-cons :
      (p : A → Bool) (x : A) (xs : List A) → count_if p (x ∷ xs) ≡ weight (p x) + count_if p xs
  unfolding count_if
  count_if-cons p x xs = ground arith

  pub count_if-set :
      (p : A → Bool) (xs : List A) (i : ℕ) (x v : A)
      → get_elem? xs i ≡ some x
      → count_if p (set xs i v) + weight (p x) ≡ count_if p xs + weight (p v)
  unfolding count_if
  count_if-set p [] i x v h = cc
  count_if-set p (y ∷ xs) zero x v h = ground arith
  count_if-set p (y ∷ xs) (suc i) x v h = ground (arith, count_if-set p xs i x v)

  pub count_if-erase_at :
      (p : A → Bool) (xs : List A) (i : ℕ) (x : A)
      → get_elem? xs i ≡ some x
      → count_if p xs ≡ weight (p x) + count_if p (erase_at xs i)
  unfolding count_if
  count_if-erase_at p [] i x h = cc
  count_if-erase_at p (y ∷ xs) zero x h = ground arith
  count_if-erase_at p (y ∷ xs) (suc i) x h = ground (arith, count_if-erase_at p xs i x)

  pub find_if-passes : (p : A → Bool) (xs : List A) (x : A) → find_if p xs ≡ some x → p x ≡ true
  unfolding find_if
  find_if-passes p [] x h = ground arith
  find_if-passes p (y ∷ xs) x h = ground (arith, find_if-passes p xs x)

-- What holds of every entry, as a tuple with one component for each.
module _ {ℓ κ} {A : Type ℓ} where
  abbrev pub All : (A → Type κ) → List A → Type κ
  All P (x ∷ xs) = P x × All P xs
  All P [] = Unit

  pub All-append :
      (P : A → Type κ) (front back : List A) → All P front → All P back → All P (front ++ back)
  All-append P (x ∷ front) back h k = (h.0, All-append P front back h.1 k)
  All-append P [] back h k = k

  pub All-append_inv : (P : A → Type κ) (xs ys : List A) → All P (xs ++ ys) → All P xs × All P ys
  All-append_inv P [] ys h = (tt, h)
  All-append_inv P (x ∷ xs) ys h = let rest = All-append_inv P xs ys h.1 in ((h.0, rest.0), rest.1)

  pub All-find_if :
      (P : A → Type κ) (p : A → Bool) (xs : List A) (x : A) → find_if p xs ≡ some x → All P xs → P x
  unfolding find_if
  All-find_if P p [] x h a = cc
  All-find_if P p (y ∷ xs) x h a = elim (Bool-cases (p y)) [
    | inl e ↦ let same : y ≡ x = ground arith in subst P same a.0
    | inr e ↦ All-find_if P p xs x (rw e at h) a.1
  ]

module _ {ℓ κ} {A : Type ℓ} where
  pub All-imp : (P Q : A → Type κ) (xs : List A) → ((x : A) → P x → Q x) → All P xs → All Q xs
  All-imp P Q [] f h = tt
  All-imp P Q (x ∷ xs) f h = (f x h.0, All-imp P Q xs f h.1)

  -- What holds of the entries that are kept may use that they passed the test.
  pub All-keep_if :
      (P Q : A → Type κ) (p : A → Bool) (xs : List A)
      → ((x : A) → p x ≡ true → P x → Q x)
      → All P xs
      → All Q (keep_if p xs)
  unfolding keep_if
  All-keep_if P Q p [] f h = tt
  All-keep_if P Q p (x ∷ xs) f h = elim (Bool-cases (p x)) [
    | inl e ↦ rw e (f x e h.0, All-keep_if P Q p xs f h.1)
    | inr e ↦ rw e (All-keep_if P Q p xs f h.1)
  ]
