-- ===== src/Rules/Resolver.antt =====
-- internal/rules/metrics.go: resolving a metric name, and evaluating one condition.
pub mod Operators
use stock_scanner.Prelude.{
  ℕ, String, Bool, true, false, not, Option, none, some, List, [], ◌∷◌, str_eq, if◌then◌else◌,
  Result, ok, err, ◌>>=◌, ◌>>◌, fail_if,
}
use stock_scanner.Float.{Float}
use stock_scanner.Dict.{Dict, lookup, insert}
use stock_scanner.Models.Rule.{Value, nil_value, number, text, other, Condition}
use stock_scanner.Rules.Error.{
  RuleError, nil_condition, nil_value_error, nil_function, empty_metric, metric_not_found,
  resolve_failed, invalid_comparison, cannot_convert, string_comparison, unsupported_operator,
}
use stock_scanner.Rules.Validation.{validate_metric_name}

-- The interface MetricResolver, by its one method
abbrev pub MetricResolver : Type 0 → Type 0
MetricResolver F = String → Dict F → Result RuleError F

abbrev pub ComputedMetricFunc : Type 0 → Type 0
ComputedMetricFunc F = Dict F → Result RuleError F

pub record DefaultMetricResolver (F : Type 0) : Type 0 where
  pub computed_metrics : Dict (ComputedMetricFunc F)

module _ {F : Type 0} where
  -- NewMetricResolver: `registerBuiltInMetrics` registers nothing.
  abbrev pub new_metric_resolver : DefaultMetricResolver F
  new_metric_resolver = record { computed_metrics = [] }

  unfoldable pub register_computed_metric :
      DefaultMetricResolver F
      → String
      → Option (ComputedMetricFunc F)
      → Result RuleError (DefaultMetricResolver F)
  unfolding validate_metric_name insert
  register_computed_metric r name none =
      if str_eq name "" then err empty_metric else err nil_function
  register_computed_metric r name (some fn) = do
    fail_if (str_eq name "") empty_metric
    validate_metric_name name
    ok (record { computed_metrics = insert name fn r.computed_metrics })

  abbrev or_computed : Option (ComputedMetricFunc F) → String → Dict F → Result RuleError F
  or_computed none metric m = err (metric_not_found metric)
  or_computed (some fn) metric m = fn m

  unfoldable pub resolve_metric : DefaultMetricResolver F → MetricResolver F
  unfolding lookup
  resolve_metric r metric m =
      if str_eq metric "" then err empty_metric else elim (lookup metric m) [
        | some v ↦ ok v
        | none ↦ or_computed (lookup metric r.computed_metrics) metric m
      ]

  unfoldable pub get_numeric_value : Value F → Result RuleError F
  get_numeric_value nil_value = err nil_value_error
  get_numeric_value (number x) = ok x
  get_numeric_value (text s) = err cannot_convert
  get_numeric_value other = err cannot_convert

  unfoldable pub is_numeric : Value F → Bool
  is_numeric nil_value = false
  is_numeric (number x) = true
  is_numeric (text s) = false
  is_numeric other = false

  abbrev pub wrap : (RuleError → RuleError) → Result RuleError F → Result RuleError F
  wrap f (ok x) = ok x
  wrap f (err e) = err (f e)

module _ {F : Type 0} ⦃fl : Float F⦄ where
  -- The switch on the operator; `value` is the condition's own.
  unfoldable pub compare_values : String → Value F → F → F → Result RuleError Bool
  unfolding is_numeric
  compare_values op value x y =
      if str_eq op ">"
      then ok (fl.lt y x)
      else if str_eq op "<"
      then ok (fl.lt x y)
      else if str_eq op ">="
      then ok (fl.le y x)
      else if str_eq op "<="
      then ok (fl.le x y)
      else if str_eq op "=="
      then (if is_numeric value
          then ok (fl.lt (fl.abs (fl.sub x y)) (fl.decimal 1 4))
          else err string_comparison)
      else if str_eq op "!="
      then (if is_numeric value
          then ok (fl.le (fl.decimal 1 4) (fl.abs (fl.sub x y)))
          else err string_comparison)
      else err unsupported_operator

  -- EvaluateCondition; `none` is a nil condition
  unfoldable pub evaluate_condition :
      Option (Condition F) → MetricResolver F → Dict F → Result RuleError Bool
  unfolding get_numeric_value compare_values
  evaluate_condition none resolver m = err nil_condition
  evaluate_condition (some c) resolver m = do
    x ← wrap (resolve_failed c.metric) (resolver c.metric m)
    y ← wrap invalid_comparison (get_numeric_value c.value)
    compare_values c.operator c.value x y
