-- ===== src/Base/Tests.antt =====
-- Boolean tests on the native numbers, JavaScript's truthiness of texts, and the conditional.
use Prim.Native.Nat.{ℕ, zero, suc, compare, Ordering}
use mathlib.Core.Path.{◌≡◌, refl, ap}
use mathlib.Core.Logic.{◌⊎◌, inl, inr}
use mathlib.Core.Bool.{Bool, true, false}
use mathlib.Core.Option.{Option, none, some}
use native.Mathlib.Omega.{arith}

abbrev pub ltb : ℕ → ℕ → Bool
ltb a b = elim (compare a b) [ Ordering.lt ↦ true | _ ↦ false ]

abbrev pub leb : ℕ → ℕ → Bool
leb a b = elim (compare a b) [ Ordering.gt ↦ false | _ ↦ true ]

infix 50 ◌==◌ ◌==?◌
abbrev pub ◌==◌ : ℕ → ℕ → Bool
a == b = elim (compare a b) [ Ordering.eq ↦ true | _ ↦ false ]

-- Equality of nullable columns; `null` is equal to `null`, as in a Prisma `where`.
abbrev pub ◌==?◌ : Option ℕ → Option ℕ → Bool
none ==? none = true
none ==? some b = false
some a ==? none = false
some a ==? some b = a == b

infix 1 if◌then◌else◌
abbrev pub if◌then◌else◌ {ℓ} : {A : Type ℓ} → Bool → A → A → A
if true then x else y = x
if false then x else y = y

-- An optional text where the source tests its truth: 0 stands for the empty text, which is false.
abbrev pub truthy : Option ℕ → Option ℕ
truthy none = none
truthy (some zero) = none
truthy (some (suc n)) = some (suc n)

pub ==→≡ : (a b : ℕ) → (a == b) ≡ true → a ≡ b
==→≡ a b h = ground arith

pub ==?→≡ : (a b : Option ℕ) → (a ==? b) ≡ true → a ≡ b
==?→≡ none none h = refl
==?→≡ none (some b) h = cc
==?→≡ (some a) none h = cc
==?→≡ (some a) (some b) h = ap some (==→≡ a b h)

pub ==_refl : (a : ℕ) → (a == a) ≡ true
==_refl a = ground arith

pub ==?_refl : (a : Option ℕ) → (a ==? a) ≡ true
==?_refl none = refl
==?_refl (some a) = ==_refl a

-- To split on a computed value and keep the equation.
pub Bool-cases : (b : Bool) → (b ≡ true) ⊎ (b ≡ false)
Bool-cases true = inl refl
Bool-cases false = inr refl

pub Option-cases {ℓ} : {A : Type ℓ} (o : Option A) → (o ≡ none) ⊎ ((a : A) × (o ≡ some a))
Option-cases none = inl refl
Option-cases (some a) = inr (a, refl)
