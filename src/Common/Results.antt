-- ===== src/Common/Results.antt =====
-- Results of fallible code: a value or one of the component's errors, chained by do blocks.
use mathlib.Core.Path.{◌≡◌, refl}
use mathlib.Core.Bool.{Bool, true, false}

pub data Outcome {ℓ} (E : Type 0) (A : Type ℓ) : Type ℓ where
  err : E → Outcome E A
  ok : A → Outcome E A

-- An error if a condition does not hold.
abbrev pub guard : {E : Type 0} → Bool → E → Outcome E (Unit {0})
guard false e = err e
guard true e = ok tt

infixl 5 ◌>>=◌ ◌>>◌
abbrev pub ◌>>=◌ {ℓ κ} :
    {E : Type 0} {A : Type ℓ} {B : Type κ} → Outcome E A → (A → Outcome E B) → Outcome E B
err e >>= k = err e
ok a >>= k = k a

abbrev pub ◌>>◌ {κ} : {E : Type 0} {B : Type κ} → Outcome E (Unit {0}) → Outcome E B → Outcome E B
first >> next = first >>= λ _. next

-- A chain that succeeds has a first part that succeeds.
pub >>=-eq-ok {ℓ κ} :
    {E : Type 0} {A : Type ℓ} {B : Type κ} (m : Outcome E A) (f : A → Outcome E B) (b : B)
    → (m >>= f) ≡ ok b
    → (a : A) × (m ≡ ok a) × (f a ≡ ok b)
>>=-eq-ok (err e) f b h = cc
>>=-eq-ok (ok a) f b h = (a, refl, h)

pub guard-eq-ok : {E : Type 0} (b : Bool) (e : E) (u : Unit {0}) → guard b e ≡ ok u → b ≡ true
guard-eq-ok true e u h = refl
guard-eq-ok false e u h = cc
