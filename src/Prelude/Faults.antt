-- ===== src/Prelude/Faults.antt =====
-- Code that may fault: a failed `assert`, an access outside an object, an exception that nothing
-- catches, or a loop whose fuel ran out.
use mathlib.Core.Path.{◌≡◌, refl}
use mathlib.Core.Bool.{Bool, true, false}

pub data Fault : Type 0 where
  assertion out_of_range out_of_fuel : Fault

pub data Outcome {ℓ} (A : Type ℓ) : Type ℓ where
  ok : A → Outcome A
  fault : Fault → Outcome A

infixl 5 ◌>>=◌ ◌>>◌
abbrev pub ◌>>=◌ {ℓ κ} : {A : Type ℓ} {B : Type κ} → Outcome A → (A → Outcome B) → Outcome B
ok a >>= f = f a
fault e >>= f = fault e

abbrev pub ◌>>◌ {ℓ} : {B : Type ℓ} → Outcome (Unit {0}) → Outcome B → Outcome B
m >> k = m >>= λ _. k

-- `assert(b)`; the build type defaults to Debug, which keeps assertions.
abbrev pub assert : Bool → Outcome (Unit {0})
assert true = ok tt
assert false = fault assertion

-- What the language leaves undefined, or a library answers with an exception.
abbrev pub in_range : Bool → Outcome (Unit {0})
in_range true = ok tt
in_range false = fault out_of_range

-- The proposition with no proof, at any level.
pub data Never {κ} : Type κ where

-- The code runs to its end, and what it returns has the property.
abbrev pub Returns {ℓ κ} : {A : Type ℓ} → (A → Type κ) → Outcome A → Type κ
Returns P (ok a) = P a
Returns P (fault e) = Never

module _ {ℓ κ} {A : Type ℓ} {B : Type κ} where
  pub Returns->>= {μ ν} :
      (P : A → Type μ) (Q : B → Type ν) (m : Outcome A) (f : A → Outcome B)
      → Returns P m
      → ((a : A) → P a → Returns Q (f a))
      → Returns Q (m >>= f)
  Returns->>= P Q (ok a) f h k = k a h
  Returns->>= P Q (fault e) f h k = elim h [ ]

module _ {ℓ} {A : Type ℓ} where
  pub Returns-assert {κ} :
      (P : A → Type κ) (b : Bool) (m : Outcome A)
      → b ≡ true
      → Returns P m
      → Returns P (assert b >> m)
  Returns-assert P true m e h = h
  Returns-assert P false m e h = cc

  pub Returns-in_range {κ} :
      (P : A → Type κ) (b : Bool) (m : Outcome A)
      → b ≡ true
      → Returns P m
      → Returns P (in_range b >> m)
  Returns-in_range P true m e h = h
  Returns-in_range P false m e h = cc

  pub Returns-map {κ μ} :
      (P : A → Type κ) (Q : A → Type μ) (m : Outcome A)
      → Returns P m
      → ((a : A) → P a → Q a)
      → Returns Q m
  Returns-map P Q (ok a) h k = k a h
  Returns-map P Q (fault e) h k = elim h [ ]

  pub Returns-both {κ μ} :
      (P : A → Type κ) (Q : A → Type μ) (m : Outcome A)
      → Returns P m
      → Returns Q m
      → Returns (λ a. P a × Q a) m
  Returns-both P Q (ok a) h k = (h, k)
  Returns-both P Q (fault e) h k = elim h [ ]

  -- The value that the code returns, with the equation.
  pub Returns-value {κ} :
      (P : A → Type κ) (m : Outcome A) → Returns P m → (a : A) × (m ≡ ok a) × P a
  Returns-value P (ok a) h = (a, refl, h)
  Returns-value P (fault e) h = elim h [ ]
