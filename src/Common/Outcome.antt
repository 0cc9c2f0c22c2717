-- ===== src/Common/Outcome.antt =====
-- What a call of the C++ code ends in.
use mathlib.Core.Path.{◌≡◌, refl}
use mathlib.Core.Bool.{Bool, true, false}
use mathlib.Core.Option.{Option, none, some}

-- `thrown` is an exception, `aborted` a failed SYLAR_ASSERT, `fault` undefined behaviour such as a
-- null dereference, and `stuck` a loop that ran out of the model's fuel, which is no outcome of the
-- code.
pub data Outcome {ℓ} (A : Type ℓ) : Type ℓ where
  ok : A → Outcome A
  thrown : Outcome A
  aborted : Outcome A
  fault : Outcome A
  stuck : Outcome A

infixl 5 ◌>>=◌ ◌>>◌
abbrev pub ◌>>=◌ {ℓ κ} : {A : Type ℓ} {B : Type κ} → Outcome A → (A → Outcome B) → Outcome B
ok a >>= f = f a
thrown >>= f = thrown
aborted >>= f = aborted
fault >>= f = fault
stuck >>= f = stuck

abbrev pub ◌>>◌ {ℓ} : {B : Type ℓ} → Outcome (Unit {0}) → Outcome B → Outcome B
m >> k = m >>= λ _. k

-- SYLAR_ASSERT.
abbrev pub assert : Bool → Outcome (Unit {0})
assert true = ok tt
assert false = aborted

-- A use of a pointer, which must not be null.
abbrev pub deref {ℓ} : {A : Type ℓ} → Option A → Outcome A
deref none = fault
deref (some a) = ok a

-- A chain that ends well has passed through a value.
pub through_ok {ℓ κ} :
    {A : Type ℓ} {B : Type κ} {y : B} (next : A → Outcome B) (first : Outcome A)
    → (first >>= next) ≡ ok y
    → (x : A) × (first ≡ ok x) × (next x ≡ ok y)
through_ok next (ok x) e = (x, refl, e)
through_ok next stuck e = cc
through_ok next fault e = cc
through_ok next aborted e = cc
through_ok next thrown e = cc

-- A property of the value that a call returns, if it returns one.
abbrev pub OnOk {ℓ κ} : {A : Type ℓ} → (A → Type κ) → Outcome A → Type κ
OnOk P (ok a) = P a
OnOk P thrown = Unit
OnOk P aborted = Unit
OnOk P fault = Unit
OnOk P stuck = Unit

pub OnOk-bind {ℓ ι κ} :
    {A : Type ℓ} {B : Type ι} (P : B → Type κ) (m : Outcome A) (next : A → Outcome B)
    → ((a : A) → OnOk P (next a))
    → OnOk P (m >>= next)
OnOk-bind P (ok a) next each = each a
OnOk-bind P thrown next each = tt
OnOk-bind P aborted next each = tt
OnOk-bind P fault next each = tt
OnOk-bind P stuck next each = tt

-- The same, with what is known of the first value.
pub OnOk-chain {ℓ ι κ μ} :
    {A : Type ℓ} {B : Type ι} (Q : A → Type μ) (P : B → Type κ) (m : Outcome A)
    (next : A → Outcome B)
    → OnOk Q m
    → ((a : A) → Q a → OnOk P (next a))
    → OnOk P (m >>= next)
OnOk-chain Q P (ok a) next known each = each a known
OnOk-chain Q P thrown next known each = tt
OnOk-chain Q P aborted next known each = tt
OnOk-chain Q P fault next known each = tt
OnOk-chain Q P stuck next known each = tt
