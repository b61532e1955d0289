-- ===== src/Base/Results.antt =====
-- A Go result `(value, error)`: one of the two. Computations that may end early in `none` are
-- chained by `do`.
use mathlib.Core.Option.{Option, none, some}
use mathlib.Core.Path.{◌≡◌, refl}
use mathlib.Core.Logic.{◌⊎◌, inl, inr}
use mathlib.Core.Bool.{Bool, true, false}
use m_cloud.Base.Tests.{if◌then◌else◌, some_inj}
use mathlib.Core.Path.{subst}

pub data Result {ℓ κ} (E : Type ℓ) (A : Type κ) : Type (ℓ ⊔ κ) where
  ok : A → Result E A
  err : E → Result E A

pub Result-cases :
    {E A : Type 0} (x : Result E A) → ((e : E) × (x ≡ err e)) ⊎ ((a : A) × (x ≡ ok a))
Result-cases (err e) = inl (e, refl)
Result-cases (ok a) = inr (a, refl)

infixl 5 ◌>>=◌
abbrev pub ◌>>=◌ : {A B : Type 0} → Option A → (A → Option B) → Option B
none >>= f = none
some a >>= f = f a

-- A predicate of the result of a computation that may end early.
pub record Every {A : Type 0} (P : A → Type 0) (o : Option A) : Type 0 where
  pub kept : (b : A) → o ≡ some b → P b

module _ {A : Type 0} (P : A → Type 0) where
  pub Every-some : (a : A) → P a → Every P (some a)
  Every-some a h = record { kept = λ b e. subst P (some_inj e) h }

  pub Every-if :
      (c : Bool) (x y : Option A)
      → (c ≡ true → Every P x)
      → (c ≡ false → Every P y)
      → Every P (if c then x else y)
  Every-if true x y hx hy = hx refl
  Every-if false x y hx hy = hy refl

  -- A handler that does nothing if its argument cannot be decoded.
  pub Every-decoded :
      {V : Type 0} (o : Option V) (a : A) (f : V → Option A)
      → P a
      → ((v : V) → Every P (f v))
      → Every P (elim o [ none ↦ some a | some v ↦ f v ])
  Every-decoded none a f h k = Every-some a h
  Every-decoded (some v) a f h k = k v

  pub Every-bind :
      {B : Type 0} (Q : B → Type 0) (o : Option A) (f : A → Option B)
      → Every P o
      → ((b : A) → P b → Every Q (f b))
      → Every Q (o >>= f)
  Every-bind Q none f h k = record { kept = λ b e. cc }
  Every-bind Q (some a) f h k = k a (h.kept a refl)

-- A computation that does not end early, and whose result satisfies a predicate.
pub record Goes {A : Type 0} (P : A → Type 0) (o : Option A) : Type 0 where
  pub result : A
  pub is : o ≡ some result
  pub good : P result

module _ {A : Type 0} (P : A → Type 0) where
  pub Goes-some : (a : A) → P a → Goes P (some a)
  Goes-some a h = record { result = a; is = refl; good = h }

  pub Goes-if :
      (c : Bool) (x y : Option A)
      → (c ≡ true → Goes P x)
      → (c ≡ false → Goes P y)
      → Goes P (if c then x else y)
  Goes-if true x y hx hy = hx refl
  Goes-if false x y hx hy = hy refl

  pub Goes-decoded :
      {V : Type 0} (o : Option V) (a : A) (f : V → Option A)
      → P a
      → ((v : V) → o ≡ some v → Goes P (f v))
      → Goes P (elim o [ none ↦ some a | some v ↦ f v ])
  Goes-decoded none a f h k = Goes-some a h
  Goes-decoded (some v) a f h k = k v refl

  pub Goes-bind :
      {B : Type 0} (Q : B → Type 0) (o : Option A) (f : A → Option B)
      → Goes P o
      → ((b : A) → P b → Goes Q (f b))
      → Goes Q (o >>= f)
  Goes-bind Q none f h k = absurd (let e = h.is in cc e)
  Goes-bind Q (some a) f h k = let same : a ≡ h.result = some_inj h.is in k a (rw same h.good)
