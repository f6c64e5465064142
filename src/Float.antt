-- ===== src/Float.antt =====
-- Go's `float64`. The language has no floating point numbers: the type and the operations that the
-- program uses are an interface, and the facts of IEEE 754 on its order are a second one.
-- `decimal m k` is the literal m / 10^k.
pub mod Fixed
use stock_scanner.Prelude.{ℕ, ◌≡◌, Bool, true, not}

pub record Float (F : Type 0) : Type 0 where
  pub decimal : ℕ → ℕ → F
  pub add : F → F → F
  pub sub : F → F → F
  pub mul : F → F → F
  pub div : F → F → F
  pub abs : F → F
  pub lt : F → F → Bool
  pub le : F → F → Bool
  pub eq : F → F → Bool
  -- float64(i) and int64(f), over the 64-bit patterns of Int64.antt
  pub of_int : ℕ → F
  pub to_int : F → ℕ

module _ {F : Type 0} ⦃fl : Float F⦄ where
  -- Only NaN differs from itself.
  abbrev pub IsNumber : F → Type 0
  IsNumber x = fl.eq x x ≡ true

-- The literal 0.
abbrev pub zero_f : {F : Type 0} ⦃fl : Float F⦄ → F
zero_f ⦃fl⦄ = fl.decimal 0 0

-- A comparison with NaN is false, and the numbers are ordered totally.
pub record IsOrdered (F : Type 0) ⦃fl : Float F⦄ : Type 0 where
  pub decimal_number : (m k : ℕ) → fl.eq (fl.decimal m k) (fl.decimal m k) ≡ true
  pub le_refl : (x : F) → fl.eq x x ≡ true → fl.le x x ≡ true
  pub le_trans : (x y z : F) → fl.le x y ≡ true → fl.le y z ≡ true → fl.le x z ≡ true
  pub lt_le : (x y : F) → fl.lt x y ≡ true → fl.le x y ≡ true
  pub eq_le : (x y : F) → fl.eq x y ≡ true → fl.le x y ≡ true
  pub lt_flip : (x y : F) → fl.eq x x ≡ true → fl.eq y y ≡ true → fl.lt x y ≡ not (fl.le y x)
