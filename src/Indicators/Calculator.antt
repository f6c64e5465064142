-- ===== src/Indicators/Calculator.antt =====
-- pkg/indicator/calculator.go: the interface of an indicator, over the state `S` of its object, and
-- what its implementations keep to.
use stock_scanner.Prelude.{String, ◌≡◌, Bool, Option, Result}
use stock_scanner.Models.Market.{Bar1m}

pub data IndicatorError : Type 0 where
  nil_bar not_ready window_not_positive : IndicatorError

-- `none` is a nil bar. An update gives its value and the new state.
pub record Calculator (F : Type 0) (S : Type 0) : Type 0 where
  pub name : S → String
  pub update : Option (Bar1m F) → S → Result IndicatorError F × S
  pub value : S → Result IndicatorError F
  pub reset : S → S
  pub is_ready : S → Bool

-- Resetting forgets what was seen.
pub record IsResettable (F : Type 0) (S : Type 0) ⦃calc : Calculator F S⦄ : Type 0 where
  pub reset-update : (o : Option (Bar1m F)) (s : S) → calc.reset (calc.update o s).1 ≡ calc.reset s
