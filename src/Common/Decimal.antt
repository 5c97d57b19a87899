-- ===== src/Common/Decimal.antt =====
-- Decimal numbers as Go's `%d` and `strconv.FormatInt` print them, for numbers that are not
-- negative, and a reader that shows that different numbers print differently.
use Prim.Native.Nat.{ℕ, zero, suc, ◌+◌, ◌-◌, ◌*◌, ◌/◌, ◌%◌, ◌≤◌, ◌<◌}
use mathlib.Core.Path.{◌≡◌, refl, ap, sym, ◌∙◌}
use mathlib.Core.Logic.{inl, inr}
use mathlib.Core.List.{[], ◌∷◌, ◌++◌}
use native.Mathlib.Omega.{arith}
use mailhearth.Common.Tests.{ltb, if◌then◌else◌, Bool-cases}
use mailhearth.Common.Lists.{All, All-append}
use mailhearth.Common.Strings.{Text}

-- One digit a round; `decimal` gives more rounds than there are digits.
print_digits : ℕ → ℕ → Text
print_digits zero n = []
print_digits (suc f) n =
    let front = print_digits f (n / 10) in
    if ltb n 10 then (48 + n) ∷ [] else front ++ (48 + n % 10) ∷ []

unfoldable pub decimal : ℕ → Text
unfolding print_digits
decimal n = print_digits (suc n) n

-- The number that a row of digits stands for, behind the digits of `acc`.
read_digits : ℕ → Text → ℕ
read_digits acc [] = acc
read_digits acc (c ∷ s) = read_digits (acc * 10 + (c - 48)) s

read_digits-append :
    (acc : ℕ) (s t : Text) → read_digits acc (s ++ t) ≡ read_digits (read_digits acc s) t
unfolding read_digits
read_digits-append acc [] t = refl
read_digits-append acc (c ∷ s) t = read_digits-append (acc * 10 + (c - 48)) s t

read-print_digits : (f n : ℕ) → n < f → read_digits 0 (print_digits f n) ≡ n
unfolding print_digits read_digits
read-print_digits zero n h = elim h [ ]
read-print_digits (suc f) n h = elim (Bool-cases (ltb n 10)) [
  | inl small ↦ rw small (omega arith)
  | inr large ↦ rw large (
      rw (read_digits-append 0 (print_digits f (n / 10)) ((48 + n % 10) ∷ []))
        (rw (read-print_digits f (n / 10) (ground arith)) (omega arith)))
]

pub decimal-injective : (m n : ℕ) → decimal m ≡ decimal n → m ≡ n
unfolding decimal
decimal-injective m n h =
    sym (read-print_digits (suc m) m (omega arith))
    ∙ ap (read_digits 0) h
    ∙ read-print_digits (suc n) n (omega arith)

abbrev pub IsDigit : ℕ → Type 0
IsDigit c = (48 ≤ c) × (c ≤ 57)

print_digits-IsDigit : (f n : ℕ) → All IsDigit (print_digits f n)
unfolding print_digits
print_digits-IsDigit zero n = tt
print_digits-IsDigit (suc f) n = elim (Bool-cases (ltb n 10)) [
  | inl small ↦ rw small (ground arith)
  | inr large ↦ rw large (
      All-append IsDigit (print_digits f (n / 10)) _ (print_digits-IsDigit f (n / 10))
        (omega arith))
]

pub decimal-IsDigit : (n : ℕ) → All IsDigit (decimal n)
unfolding decimal
decimal-IsDigit n = print_digits-IsDigit (suc n) n
