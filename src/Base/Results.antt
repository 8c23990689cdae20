-- ===== src/Base/Results.antt =====
-- Outcomes of the C++ functions: a value, a thrown exception, or undefined behaviour.
use mathlib.Core.Path.{◌≡◌, refl}
use mathlib.Core.Bool.{Bool, true, false}

-- The exception classes that the library throws. `out_of_bounds` stands for a read
-- or a write outside a buffer, which C++ leaves undefined; `no_instance` for a template that does
-- not compile at the type; `suspended` for a coroutine that stays suspended, so that nothing behind it
-- runs; `out_of_fuel` is of the model alone.
pub data Error : Type 0 where
  malformed_input invalid_signature deserialization serialization length_error : Error
  runtime_error internal variant_unmarshal invalid_name invalid_object_path : Error
  invalid_match_rule empty_match_rule dbus_error : Error
  out_of_bounds out_of_fuel no_instance suspended : Error

pub data Result {ℓ} (A : Type ℓ) : Type ℓ where
  err : Error → Result A
  ok : A → Result A

-- `if (test) throw e;`
abbrev pub throw_if : Bool → Error → Result (Unit {0})
throw_if false e = ok tt
throw_if true e = err e

-- The rest of a function body runs where nothing was thrown.
module _ {ℓ κ} {A : Type ℓ} {B : Type κ} where
  infixl 5 ◌>>=◌ ◌>>◌
  abbrev pub ◌>>=◌ : Result A → (A → Result B) → Result B
  err e >>= rest = err e
  ok a >>= rest = rest a

  abbrev pub ◌>>◌ : Result A → Result B → Result B
  first >> rest = first >>= λ a. rest

  -- A body that returns has not thrown in its first step.
  pub >>=-eq-ok :
      (first : Result A) (rest : A → Result B) {b : B}
      → (first >>= rest) ≡ ok b
      → (a : A) × (first ≡ ok a) × (rest a ≡ ok b)
  >>=-eq-ok (err e) rest thrown = cc
  >>=-eq-ok (ok a) rest returned = (a, refl, returned)

pub ok-injective {ℓ} : {A : Type ℓ} {a b : A} → ok a ≡ ok b → a ≡ b
ok-injective e = cc e
