-- ===== src/Common/Run.antt =====
-- Errors as values, and calls that may panic (a nil pointer is read) instead of returning.
use mathlib.Core.Path.{subst}
use karydia.Common.{
  String, Bool, true, false, if◌then◌else◌, ◌≡◌, ◌⊎◌, inl, inr, refl, Option, none, some,
}

-- What the program reads of an `error`: its text, and the answer of errors.IsNotFound.
pub record Error : Type 0 where
  pub message : String
  pub is_not_found : Bool

-- fmt.Errorf
abbrev pub errorf : String → Error
errorf text = record { message = text; is_not_found = false }

-- A pair (value, error) of which one is nil.
pub data Result {ℓ} (A : Type ℓ) : Type ℓ where
  ok : A → Result A
  err : Error → Result A

pub data Run {ℓ} (A : Type ℓ) : Type ℓ where
  returns : A → Run A
  panics : Run A

infixl 5 ◌>>=◌
abbrev pub ◌>>=◌ {ℓ κ} : {A : Type ℓ} {B : Type κ} → Run A → (A → Run B) → Run B
returns a >>= f = f a
panics >>= f = panics

-- A read through a pointer.
abbrev pub deref {ℓ} : {A : Type ℓ} → Option A → Run A
deref none = panics
deref (some a) = returns a

pub >>=-eq-returns {ℓ κ} :
    {A : Type ℓ} {B : Type κ} (m : Run A) (f : A → Run B) {b : B}
    → (m >>= f) ≡ returns b
    → (a : A) × (m ≡ returns a) × (f a ≡ returns b)
>>=-eq-returns (returns a) f h = (a, refl, h)
>>=-eq-returns panics f h = cc

module _ {ℓ} {A : Type ℓ} where
  pub Result-cases : (r : Result A) → ((a : A) × (r ≡ ok a)) ⊎ ((e : Error) × (r ≡ err e))
  Result-cases (ok a) = inl (a, refl)
  Result-cases (err e) = inr (e, refl)

  pub Run-cases : (r : Run A) → ((a : A) × (r ≡ returns a)) ⊎ (r ≡ panics)
  Run-cases (returns a) = inl (a, refl)
  Run-cases panics = inr refl

  -- What holds of the value that a call returns, if it returns.
  abbrev pub Holds {κ} : (A → Type κ) → Run A → Type κ
  Holds P (returns a) = P a
  Holds P panics = Unit

pub Holds-bind {ℓ κ μ} :
    {A : Type ℓ} {B : Type κ} (P : B → Type μ) (r : Run A) (f : A → Run B)
    → ((a : A) → Holds P (f a))
    → Holds P (r >>= f)
Holds-bind P (returns a) f h = h a
Holds-bind P panics f h = tt

pub Holds-returns {ℓ κ} :
    {A : Type ℓ} (P : A → Type κ) (r : Run A) (a : A) → Holds P r → r ≡ returns a → P a
Holds-returns P r a h e = subst (Holds P) e h

-- The call returns, and what it returns has a property.
abbrev pub Returns {ℓ} : {A : Type ℓ} → (A → Type 0) → Run A → Type 0
Returns P (returns a) = P a
Returns P panics = ⊥

pub Returns-bind {ℓ κ} :
    {A : Type ℓ} {B : Type κ} (P : A → Type 0) (Q : B → Type 0) (m : Run A) (f : A → Run B)
    → Returns P m
    → ((a : A) → P a → Returns Q (f a))
    → Returns Q (m >>= f)
Returns-bind P Q (returns a) f h k = k a h
Returns-bind P Q panics f h k = absurd h

pub Returns-if {ℓ} :
    {A : Type ℓ} (P : A → Type 0) (b : Bool) (m n : Run A)
    → Returns P m
    → Returns P n
    → Returns P (if b then m else n)
Returns-if P true m n h k = h
Returns-if P false m n h k = k

pub Returns-inv {ℓ} :
    {A : Type ℓ} (P : A → Type 0) (m : Run A) → Returns P m → (a : A) × (m ≡ returns a) × P a
Returns-inv P (returns a) h = (a, refl, h)
Returns-inv P panics h = absurd h
