-- ===== src/Base/Loops.antt =====
-- Results of code that may stop: at a failed assertion, or at a pointer to memory already freed.
use mathlib.Core.Path.{◌≡◌, refl}
use mathlib.Core.Bool.{Bool, true, false}

-- `abort` is a failed `assert`; `dangling` an access to memory that is not allocated;
-- `waiting` a busy wait that the readings of the environment do not end; `out_of_fuel` a loop
-- that the rounds given do not finish; `overflow` a conversion whose result does not fit its type.
pub data Fault : Type 0 where
  abort dangling waiting out_of_fuel overflow : Fault

pub data Run {ℓ} (A : Type ℓ) : Type ℓ where
  fault : Fault → Run A
  ok : A → Run A

-- `assert(b)`
abbrev pub assert : Bool → Run (Unit {0})
assert true = ok tt
assert false = fault abort

-- The run ends normally, with a result that satisfies `P`.
abbrev pub Returns {ℓ κ} : {A : Type ℓ} → Run A → (A → Type κ) → Type (ℓ ⊔ κ)
Returns {A} run P = (result : A) × (run ≡ ok result) × P result

infixl 5 ◌>>=◌ ◌>>◌
abbrev pub ◌>>=◌ {ℓ κ} : {A : Type ℓ} {B : Type κ} → Run A → (A → Run B) → Run B
fault stop >>= next = fault stop
ok result >>= next = next result

abbrev pub ◌>>◌ {ℓ} : {B : Type ℓ} → Run (Unit {0}) → Run B → Run B
first >> second = first >>= λ _. second

-- What a run that ends went through.
pub bind_ok {ℓ κ} :
    {A : Type ℓ} {B : Type κ} (run : Run A) (f : A → Run B) {b : B}
    → (run >>= f) ≡ ok b
    → (a : A) × (run ≡ ok a) × (f a ≡ ok b)
bind_ok (ok a) f e = (a, refl, e)
bind_ok (fault stop) f e = absurd cc

pub ok-injective {ℓ} : {A : Type ℓ} {a b : A} → ok a ≡ ok b → a ≡ b
ok-injective e = cc
