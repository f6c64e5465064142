-- ===== src/Models/Rule.antt =====
-- internal/models/models.go: Rule, Condition, and their methods.
use stock_scanner.Prelude.{
  ℕ, String, Bool, not, ◌||◌, Option, List, [], ◌∷◌, str_eq, Result, ok, ◌>>◌, fail_if, is_empty,
}
use stock_scanner.Models.Market.{
  ModelError, invalid_rule_id, invalid_rule_name, no_conditions, invalid_metric, invalid_operator,
}

-- The `interface{}` of a condition: nil, a value of one of Go's numeric types as the `float64` that
-- it converts to, a string, or a value of another type.
pub data Value (F : Type 0) : Type 0 where
  nil_value : Value F
  number : F → Value F
  text : String → Value F
  other : Value F

pub record Condition (F : Type 0) : Type 0 where
  pub metric : String
  pub operator : String
  pub value : Value F
  pub volume_threshold : Option ℕ
  pub calculated_during : String
  pub timeframe : String
  pub value_type : String

pub record Rule (F : Type 0) : Type 0 where
  pub id : String
  pub name : String
  pub description : String
  pub conditions : List (Condition F)
  pub cooldown : ℕ
  pub enabled : Bool
  pub created_at : ℕ
  pub updated_at : ℕ

-- The table `validOps`
unfoldable pub valid_op : String → Bool
valid_op op =
    str_eq op ">"
    || str_eq op "<"
    || str_eq op ">="
    || str_eq op "<="
    || str_eq op "=="
    || str_eq op "!="

module _ {F : Type 0} where
  unfoldable pub validate_model_condition : Condition F → Result ModelError (Unit {0})
  unfolding valid_op
  validate_model_condition c = do
    fail_if (str_eq c.metric "") invalid_metric
    fail_if (not (valid_op c.operator)) invalid_operator

  pub validate_model_conditions : List (Condition F) → Result ModelError (Unit {0})
  validate_model_conditions [] = ok tt
  validate_model_conditions (c ∷ cs) = do validate_model_condition c; validate_model_conditions cs

  unfoldable pub validate_model_rule : Rule F → Result ModelError (Unit {0})
  unfolding validate_model_condition validate_model_conditions
  validate_model_rule r = do
    fail_if (str_eq r.id "") invalid_rule_id
    fail_if (str_eq r.name "") invalid_rule_name
    fail_if (is_empty r.conditions) no_conditions
    validate_model_conditions r.conditions
