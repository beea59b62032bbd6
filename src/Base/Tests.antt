-- ===== src/Base/Tests.antt =====
-- Boolean tests on the native numbers, the conditional, and the result type of fallible code.
use Prim.Native.Nat.{ℕ, ◌≤◌, ◌<◌, compare, Ordering}
use mathlib.Core.Path.{◌≡◌, refl}
use mathlib.Core.Logic.{◌↔◌, ◌⊎◌, inl, inr}
use mathlib.Core.Bool.{Bool, true, false}
use mathlib.Core.Option.{Option, none, some}
use native.Mathlib.Omega.{arith}

abbrev pub ltb : ℕ → ℕ → Bool
ltb a b = elim (compare a b) [ Ordering.lt ↦ true | _ ↦ false ]

abbrev pub leb : ℕ → ℕ → Bool
leb a b = elim (compare a b) [ Ordering.gt ↦ false | _ ↦ true ]

infix 50 ◌==◌
abbrev pub ◌==◌ : ℕ → ℕ → Bool
a == b = elim (compare a b) [ Ordering.eq ↦ true | _ ↦ false ]

infix 1 if◌then◌else◌
abbrev pub if◌then◌else◌ {ℓ} : {A : Type ℓ} → Bool → A → A → A
if true then x else y = x
if false then x else y = y

pub ltb→lt : (a b : ℕ) → ltb a b ≡ true → a < b
ltb→lt a b h = ground arith

pub leb→le : (a b : ℕ) → leb a b ≡ true → a ≤ b
leb→le a b h = ground arith

pub ==_iff : (a b : ℕ) → ((a == b) ≡ true) ↔ (a ≡ b)
==_iff a b = ground arith

pub ==_refl : (a : ℕ) → (a == a) ≡ true
==_refl a = ground arith

pub Bool-cases : (b : Bool) → (b ≡ true) ⊎ (b ≡ false)
Bool-cases true = inl refl
Bool-cases false = inr refl

pub Option-cases {ℓ} : {A : Type ℓ} (o : Option A) → (o ≡ none) ⊎ ((a : A) × (o ≡ some a))
Option-cases none = inl refl
Option-cases (some a) = inr (a, refl)

-- `Result<A, AppError>`: the error is what the module at hand can fail with.
pub data Result {ℓ κ} (E : Type κ) (A : Type ℓ) : Type (ℓ ⊔ κ) where
  ok : A → Result E A
  err : E → Result E A

-- `?`: the first error is the answer.
infixl 5 ◌>>=◌
abbrev pub ◌>>=◌ {ℓ κ ξ} :
    {E : Type ξ} {A : Type ℓ} {B : Type κ} (m : Result E A) (next : A → Result E B) → Result E B
m >>= next = elim m [ err failure ↦ err failure | ok value ↦ next value ]

pub Result-cases {ℓ ξ} :
    {E : Type ξ} {A : Type ℓ} (r : Result E A) → ((a : A) × (r ≡ ok a)) ⊎ ((e : E) × (r ≡ err e))
Result-cases (ok a) = inl (a, refl)
Result-cases (err e) = inr (e, refl)

module _ {ℓ κ ξ} {E : Type ξ} {A : Type ℓ} {B : Type κ} where
  -- A chain that gives a value passed through a value of its first step.
  pub bind_ok :
      (m : Result E A) (next : A → Result E B) (b : B)
      → m >>= next ≡ ok b
      → (a : A) × (m ≡ ok a) × (next a ≡ ok b)
  bind_ok (ok a) next b e = (a, refl, e)
  bind_ok (err x) next b e = cc

  -- A chain that fails does so in its first step or after it.
  pub bind_err :
      (m : Result E A) (next : A → Result E B) (x : E)
      → m >>= next ≡ err x
      → (m ≡ err x) ⊎ ((a : A) × (m ≡ ok a) × (next a ≡ err x))
  bind_err (ok a) next x e = inr (a, refl, e)
  bind_err (err y) next x e = inl (cc)
