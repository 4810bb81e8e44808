-- ===== src/Prelude/Result.antt =====
-- Go's `(value, error)` results. `fmt.Errorf("label: %w", err)` is `wrap`.
use Prim.Native.String.{String}
use mathlib.Core.Bool.{Bool, true, false}

pub data Error : Type 0 where
  msg : String → Error
  wrap : String → Error → Error

pub data Result {ℓ} (A : Type ℓ) : Type ℓ where
  ok : A → Result A
  err : Error → Result A

infixl 5 ◌>>=◌ ◌>>◌
abbrev pub ◌>>=◌ {ℓ κ} : {A : Type ℓ} {B : Type κ} → Result A → (A → Result B) → Result B
ok x >>= next = next x
err x >>= next = err x

abbrev pub ◌>>◌ {ℓ} : {B : Type ℓ} → Result (Unit {0}) → Result B → Result B
first >> second = first >>= λ u. second

-- `if err != nil { return fmt.Errorf("label: %w", err) }`
abbrev pub label {ℓ} : {A : Type ℓ} → String → Result A → Result A
label l (ok a) = ok a
label l (err e) = err (wrap l e)

-- `if !b { return fmt.Errorf(m) }`
abbrev pub require : Bool → String → Result (Unit {0})
require true m = ok tt
require false m = err (msg m)
