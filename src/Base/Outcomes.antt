-- ===== src/Base/Outcomes.antt =====
-- How a piece of the C++ code can end: with a value, in undefined or fatal behaviour, or not at
-- all.
use mathlib.Core.Path.{◌≡◌, refl}
use mathlib.Core.Bool.{Bool, true, false}
use mathlib.Core.Option.{Option, none, some}

-- `null_dereference` and `out_of_bounds` are undefined behaviour of a pointer, `assertion` is a
-- failed `assert`, `stack_overflow` a recursion deeper than the stack, `division_by_zero` a `% 0`,
-- `number_out_of_range` a number that `atoll` cannot represent.
pub data Fault : Type 0 where
  null_dereference out_of_bounds assertion stack_overflow division_by_zero number_out_of_range :
      Fault

-- `stuck` is no state of the program: the fuel of a loop ran out.
pub data Outcome {ℓ} (A : Type ℓ) : Type ℓ where
  ok : A → Outcome A
  fault : Fault → Outcome A
  stuck : Outcome A

-- What runs after a piece of code runs only if that gave a value.
infixl 5 ◌>>=◌
abbrev pub ◌>>=◌ {ℓ κ} : {A : Type ℓ} {B : Type κ} → Outcome A → (A → Outcome B) → Outcome B
fault e >>= f = fault e
stuck >>= f = stuck
ok a >>= f = f a

infixl 5 ◌>>◌
abbrev pub ◌>>◌ {ℓ κ} : {A : Type ℓ} {B : Type κ} → Outcome A → Outcome B → Outcome B
first >> rest = first >>= λ a. rest

-- `assert(b)`; `ndebug` says whether the build drops assertions.
abbrev pub assert : Bool → Bool → Outcome (Unit {0})
assert ndebug true = ok tt
assert true false = ok tt
assert false false = fault assertion

-- A read through a pointer that may be null.
abbrev pub deref {ℓ} : {A : Type ℓ} → Option A → Outcome A
deref none = fault null_dereference
deref (some a) = ok a

-- A sequence that gave a value has a first part that did.
pub >>=-eq-ok {ℓ κ} :
    {A : Type ℓ} {B : Type κ} (first : Outcome A) (rest : A → Outcome B) {r : B}
    → (first >>= rest) ≡ ok r
    → (x : A) × (first ≡ ok x) × (rest x ≡ ok r)
>>=-eq-ok (fault e) rest eq = absurd (cc)
>>=-eq-ok stuck rest eq = absurd (cc)
>>=-eq-ok (ok x) rest eq = (x, refl, eq)

-- What follows an assertion is reached only if it holds, in a build that checks assertions.
pub assert_inv {ℓ} :
    {A : Type ℓ} (b : Bool) (k : Outcome A) {a : A}
    → (assert false b >> k) ≡ ok a
    → (b ≡ true) × (k ≡ ok a)
assert_inv true k h = (refl, h)
assert_inv false k h = absurd (cc)
