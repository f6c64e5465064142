-- ===== src/Float/Fixed.antt =====
-- A concrete number type that meets the interface: unsigned fixed point with four decimals.
use stock_scanner.Prelude.{ℕ, ◌-◌, ◌*◌, ◌/◌, ◌^◌, ◌+◌, arith, ltb, leb, ◌==◌}
use stock_scanner.Float.{Float, IsOrdered}

instance abbrev pub fixed : Float ℕ
fixed = record {
  decimal = λ m k. m * 10 ^ 4 / 10 ^ k;
  add = ◌+◌;
  sub = ◌-◌;
  mul = λ a b. a * b / 10 ^ 4;
  div = λ a b. a * 10 ^ 4 / b;
  abs = λ a. a;
  lt = ltb;
  le = leb;
  eq = ◌==◌;
  of_int = λ i. i * 10 ^ 4;
  to_int = λ a. a / 10 ^ 4;
}

pub fixed-IsOrdered : IsOrdered ℕ
fixed-IsOrdered = record {
  decimal_number = λ m k. ground arith;
  le_refl = λ x h. ground arith;
  le_trans = λ x y z h k. ground arith;
  lt_le = λ x y h. ground arith;
  eq_le = λ x y h. ground arith;
  lt_flip = λ x y h k. ground arith;
}
