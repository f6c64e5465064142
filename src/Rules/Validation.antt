-- ===== src/Rules/Validation.antt =====
-- internal/rules/validation.go
use stock_scanner.Prelude.{
  ℕ, ◌+◌, String, Bool, not, ◌&&◌, ◌||◌, List, [], ◌∷◌, str_eq, leb, ◌==◌, Result, ok, err, ◌>>◌,
  fail_if, codes,
}
use stock_scanner.Int64.{is_neg}
use stock_scanner.Models.Market.{ModelError}
use stock_scanner.Models.Rule.{
  Value, nil_value, number, text, other, Condition, Rule, validate_model_condition,
  validate_model_rule, valid_op,
}
use stock_scanner.Rules.Error.{
  RuleError, model, negative_cooldown, nil_value_error, string_operator, unsupported_value,
  empty_metric, invalid_character, at_condition, unsupported_operator,
}
use stock_scanner.Rules.Filters.{validate_filter_config}

-- An error of internal/models, passed on as it is.
abbrev pub lift : {A : Type 0} → Result ModelError A → Result RuleError A
lift (ok a) = ok a
lift (err e) = err (model e)

-- fmt.Errorf("condition %d: %w", i, err)
abbrev pub wrap_at : ℕ → Result RuleError (Unit {0}) → Result RuleError (Unit {0})
wrap_at i (ok u) = ok u
wrap_at i (err e) = err (at_condition i e)

module _ {F : Type 0} where
  -- The switch on the type of the value
  unfoldable pub validate_value : String → Value F → Result RuleError (Unit {0})
  validate_value op nil_value = err nil_value_error
  validate_value op (number x) = ok tt
  validate_value op (text s) =
      fail_if (not (str_eq op "==") && not (str_eq op "!=")) string_operator
  validate_value op other = err unsupported_value

  unfoldable pub validate_condition : Condition F → Result RuleError (Unit {0})
  unfolding validate_model_condition validate_filter_config validate_value
  validate_condition c = do
    lift (validate_model_condition c)
    validate_filter_config c
    validate_value c.operator c.value

  -- The loop of ValidateRule, from index `i`
  unfoldable pub validate_conditions : ℕ → List (Condition F) → Result RuleError (Unit {0})
  unfolding validate_condition
  validate_conditions i [] = ok tt
  validate_conditions i (c ∷ cs) = do
    wrap_at i (validate_condition c)
    validate_conditions (i + 1) cs

  unfoldable pub validate_rule : Rule F → Result RuleError (Unit {0})
  unfolding validate_model_rule validate_conditions
  validate_rule r = do
    lift (validate_model_rule r)
    fail_if (is_neg r.cooldown) negative_cooldown
    validate_conditions 0 r.conditions

abbrev name_character : ℕ → Bool
name_character c =
    (leb b'a' c && leb c b'z')
    || (leb b'A' c && leb c b'Z')
    || (leb b'0' c && leb c b'9')
    || (c == b'_')

pub name_characters : List ℕ → Result RuleError (Unit {0})
name_characters [] = ok tt
name_characters (c ∷ cs) = do fail_if (not (name_character c)) invalid_character; name_characters cs

unfoldable pub validate_metric_name : String → Result RuleError (Unit {0})
unfolding name_characters
validate_metric_name metric = do
  fail_if (str_eq metric "") empty_metric
  name_characters (codes metric)

unfoldable pub validate_operator : String → Result RuleError (Unit {0})
unfolding valid_op
validate_operator op = fail_if (not (valid_op op)) unsupported_operator
