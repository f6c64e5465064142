-- ===== src/Rules/Extraction.antt =====
-- internal/rules/metric_extraction.go: the names of the metrics that the rules need.
pub mod Covered
use stock_scanner.Prelude.{
  ℕ, String, Bool, true, false, not, Option, none, some, List, [], ◌∷◌, str_eq, if◌then◌else◌,
}
use stock_scanner.Int64.{is_nonpos}
use stock_scanner.Dict.{Dict, insert}
use stock_scanner.Models.Rule.{Condition, Rule}

-- cond.VolumeThreshold != nil && *cond.VolumeThreshold > 0
abbrev pub has_threshold : Option ℕ → Bool
has_threshold none = false
has_threshold (some t) = not (is_nonpos t)

-- The metrics that a volume threshold adds
unfoldable pub require_volumes : Dict Bool → Dict Bool
unfolding insert
require_volumes required = insert "market_volume" true (
    insert "postmarket_volume" true
      (insert "premarket_volume" true (insert "volume_daily" true required)))

module _ {F : Type 0} where
  unfoldable pub require_condition : Dict Bool → Condition F → Dict Bool
  unfolding require_volumes insert
  require_condition required c =
      let named = if not (str_eq c.metric "") then insert c.metric true required else required in
      if has_threshold c.volume_threshold then require_volumes named else named

  unfoldable pub require_conditions : Dict Bool → List (Condition F) → Dict Bool
  unfolding require_condition
  require_conditions required [] = required
  require_conditions required (c ∷ cs) = require_conditions (require_condition required c) cs

  -- The loop over the rules
  unfoldable pub require_rules : Dict Bool → List (Rule F) → Dict Bool
  unfolding require_conditions
  require_rules required [] = required
  require_rules required (r ∷ rs) =
      require_rules (if r.enabled then require_conditions required r.conditions else required) rs

  unfoldable pub extract_required_metrics : List (Rule F) → Dict Bool
  unfolding require_rules
  extract_required_metrics rules = require_rules [] rules

  unfoldable pub extract_required_metrics_from_rule : Option (Rule F) → Dict Bool
  unfolding require_conditions
  extract_required_metrics_from_rule none = []
  extract_required_metrics_from_rule (some r) =
      if r.enabled then require_conditions [] r.conditions else []
