-- ===== src/Base/Results.antt =====
-- Code that raises returns a `Result`: the value, or the exception as a value.
use mathlib.Core.Path.{◌≡◌, refl}
use mathlib.Core.Logic.{◌⊎◌, inl, inr}
use mathlib.Core.Bool.{Bool, true, false}

pub data Result {ℓ κ} (E : Type κ) (A : Type ℓ) : Type (ℓ ⊔ κ) where
  ok : A → Result E A
  err : E → Result E A

-- `if c: raise e`
abbrev pub raise_if {κ} : {E : Type κ} → Bool → E → Result E (Unit {0})
raise_if false e = ok tt
raise_if true e = err e

-- What follows a call that may raise, with its value and without.
infixl 5 ◌>>=◌
abbrev pub ◌>>=◌ {κ ℓ μ} :
    {Raised : Type κ} {A : Type ℓ} {B : Type μ}
    → Result Raised A
    → (A → Result Raised B)
    → Result Raised B
err raised >>= next = err raised
ok value >>= next = next value

infixl 5 ◌>>◌
abbrev pub ◌>>◌ {κ μ} :
    {Raised : Type κ} {B : Type μ} → Result Raised (Unit {0}) → Result Raised B → Result Raised B
first >> next = first >>= λ _. next

-- A chain that returns: what its first call returned, and what the rest did with it.
pub >>=-eq-ok {ℓ κ μ} :
    {E : Type κ} {A : Type ℓ} {B : Type μ} (call : Result E A) (next : A → Result E B) {b : B}
    → (call >>= next) ≡ ok b
    → (value : A) × (call ≡ ok value) × (next value ≡ ok b)
>>=-eq-ok (err raised) next returned = cc
>>=-eq-ok (ok value) next returned = (value, refl, returned)

pub raise_if-eq-ok {κ} : {E : Type κ} (c : Bool) (e : E) → raise_if c e ≡ ok tt → c ≡ false
raise_if-eq-ok true e h = cc
raise_if-eq-ok false e h = refl

pub >>=-eq-err {ℓ κ μ} :
    {E : Type κ} {A : Type ℓ} {B : Type μ} (m : Result E A) (f : A → Result E B) {e : E}
    → (m >>= f) ≡ err e
    → (m ≡ err e) ⊎ ((a : A) × (m ≡ ok a) × (f a ≡ err e))
>>=-eq-err (ok a) f h = inr (a, refl, h)
>>=-eq-err (err e) f h = inl (cc)

pub Result-cases {ℓ κ} :
    {E : Type κ} {A : Type ℓ} (m : Result E A) → ((a : A) × (m ≡ ok a)) ⊎ ((e : E) × (m ≡ err e))
Result-cases (ok a) = inl (a, refl)
Result-cases (err e) = inr (e, refl)

-- A chain returns where its first call does and the rest does on what that returned.
pub >>=-returns {ℓ κ μ} :
    {E : Type κ} {A : Type ℓ} {B : Type μ} (call : Result E A) (next : A → Result E B)
    → (value : A) × (call ≡ ok value)
    → ((value : A) → call ≡ ok value → (b : B) × (next value ≡ ok b))
    → (b : B) × ((call >>= next) ≡ ok b)
>>=-returns (ok value) next returned rest = rest value refl
>>=-returns (err raised) next returned rest = absurd (cc (returned.1))
