-- ===== src/Models/Alert.antt =====
-- internal/models/models.go: Alert and its validation. The metadata is the metrics of the match.
use stock_scanner.Prelude.{ℕ, String, str_eq, Result, ◌>>◌, fail_if, ◌==◌}
use stock_scanner.Dict.{Dict}
use stock_scanner.Models.Market.{
  ModelError, invalid_alert_id, invalid_rule_id, invalid_symbol, invalid_timestamp,
}

pub record Alert (F : Type 0) : Type 0 where
  pub id : String
  pub rule_id : String
  pub rule_name : String
  pub symbol : String
  pub timestamp : ℕ
  pub price : F
  pub message : String
  pub metrics : Dict F
  pub trace_id : String

unfoldable pub validate_alert : {F : Type 0} → Alert F → Result ModelError (Unit {0})
validate_alert a = do
  fail_if (str_eq a.id "") invalid_alert_id
  fail_if (str_eq a.rule_id "") invalid_rule_id
  fail_if (str_eq a.symbol "") invalid_symbol
  fail_if (a.timestamp == 0) invalid_timestamp
