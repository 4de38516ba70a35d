-- ===== src/Base/Res.antt =====
-- A result or an error, for Go's `(T, error)`.
use mathlib.Core.Bool.{Bool, true, false}
use mathlib.Core.Path.{◌≡◌, refl}
use mathlib.Core.Logic.{◌⊎◌, inl, inr}
use native.Mathlib.Omega.{arith}

pub data Res {ℓ} (E : Type 0) (A : Type ℓ) : Type ℓ where
  ok : A → Res E A
  err : E → Res E A

infixl 5 ◌>>=◌ ◌>>◌
abbrev pub ◌>>=◌ {ℓ κ} : {E : Type 0} {A : Type ℓ} {B : Type κ} → Res E A → (A → Res E B) → Res E B
ok a >>= f = f a
err e >>= f = err e

abbrev pub ◌>>◌ {ℓ} : {E : Type 0} {B : Type ℓ} → Res E (Unit {0}) → Res E B → Res E B
m >> k = m >>= λ _. k

-- `if test { return e }`.
abbrev pub refuse : {E : Type 0} → Bool → E → Res E (Unit {0})
refuse true e = err e
refuse false e = ok tt

pub Res-cases {ℓ} :
    {E : Type 0} {A : Type ℓ} (r : Res E A) → ((e : E) × (r ≡ err e)) ⊎ ((a : A) × (r ≡ ok a))
Res-cases (ok a) = inr (a, refl)
Res-cases (err e) = inl (e, refl)

-- A chain that gives a result has one at each of its steps.
pub >>=-eq-ok :
    {E A B : Type 0} (m : Res E A) (f : A → Res E B) (b : B)
    → m >>= f ≡ ok b
    → (a : A) × (m ≡ ok a) × (f a ≡ ok b)
>>=-eq-ok (ok a) f b h = (a, refl, h)
>>=-eq-ok (err e) f b h = absurd (ground arith)
