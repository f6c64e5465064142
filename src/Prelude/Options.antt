-- ===== src/Prelude/Options.antt =====
-- The pair `(value, ok)` of a Go function: a value, or none.
use mathlib.Core.Bool.{Bool, true, false}
use mathlib.Core.Option.{Option, none, some}
use mathlib.Core.List.{List, [], ◌∷◌}
use Prim.Native.Nat.{ℕ, ◌-◌}
use stock_scanner.Prelude.Lists.{length, drop}

infixl 5 ◌>>=◌ ◌>>◌
abbrev pub ◌>>=◌ {ℓ κ} : {A : Type ℓ} {B : Type κ} → Option A → (A → Option B) → Option B
some a >>= f = f a
none >>= f = none

abbrev pub ◌>>◌ {ℓ} : {B : Type ℓ} → Option (Unit {0}) → Option B → Option B
m >> k = m >>= λ _. k

-- `if !test { return 0, false }`
abbrev pub require : Bool → Option (Unit {0})
require true = some tt
require false = none

module _ {ℓ} {A : Type ℓ} where
  -- xs[0]
  abbrev pub first : List A → Option A
  first [] = none
  first (x ∷ xs) = some x

  -- xs[len(xs)-1]
  abbrev pub last : List A → Option A
  last [] = none
  last (x ∷ []) = some x
  last (x ∷ y ∷ xs) = last (y ∷ xs)

  -- xs[len(xs)-n:]
  abbrev pub last_n : ℕ → List A → List A
  last_n n xs = drop (length xs - n) xs
