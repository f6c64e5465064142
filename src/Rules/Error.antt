-- ===== src/Rules/Error.antt =====
-- The errors of internal/rules, without their texts; wrapped errors are wrapped here too.
use stock_scanner.Prelude.{ℕ, String}
use stock_scanner.Models.Market.{ModelError}

pub data RuleError : Type 0 where
  model : ModelError → RuleError
  negative_cooldown nil_rule nil_condition nil_value_error : RuleError
  invalid_calculated_during invalid_value_type negative_threshold : RuleError
  string_operator unsupported_value empty_metric invalid_character : RuleError
  nil_function : RuleError
  at_condition : ℕ → RuleError → RuleError
  invalid_rule : RuleError → RuleError
  metric_not_found : String → RuleError
  resolve_failed : String → RuleError → RuleError
  invalid_comparison : RuleError → RuleError
  cannot_convert string_comparison unsupported_operator : RuleError
  rule_not_found rule_exists compile_failed : String → RuleError
  empty_rule_id : RuleError
