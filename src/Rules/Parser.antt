-- ===== src/Rules/Parser.antt =====
-- internal/rules/parser.go: rules from JSON. What json.Unmarshal decodes is an argument, `none` where it
-- fails.
use stock_scanner.Prelude.{
  ℕ, ◌+◌, Option, none, some, List, [], ◌∷◌, map, if◌then◌else◌, ◌==◌, Result, ok, err, ◌>>=◌,
}
use stock_scanner.Models.Rule.{Rule}
use stock_scanner.Rules.Error.{RuleError}
use stock_scanner.Rules.Validation.{validate_rule}
use stock_scanner.Rules.Enrichment.{enrich_condition}

pub data ParseError : Type 0 where
  unmarshal_failed : ParseError
  invalid_rule : RuleError → ParseError
  invalid_rule_at : ℕ → RuleError → ParseError
  nil_rule_panic : ParseError

module _ {F : Type 0} where
  -- The timestamps that are missing and the enriched conditions; the clock is read for either time.
  unfoldable pub prepare_rule : ℕ → ℕ → Rule F → Rule F
  unfolding enrich_condition
  prepare_rule now now' r = record r {
    created_at = if r.created_at == 0 then now else r.created_at;
    updated_at = if r.updated_at == 0 then now' else r.updated_at;
    conditions = map enrich_condition r.conditions;
  }

  abbrev pub checked : (RuleError → ParseError) → Rule F → Result ParseError (Rule F)
  checked wrap r = elim (validate_rule r) [ ok u ↦ ok r | err e ↦ err (wrap e) ]

  unfoldable pub parse_rule : ℕ → ℕ → Option (Rule F) → Result ParseError (Rule F)
  unfolding prepare_rule validate_rule
  parse_rule now now' none = err unmarshal_failed
  parse_rule now now' (some r) = checked invalid_rule (prepare_rule now now' r)

  -- The loop of ParseRules from an index, with the clock's readings for each rule. A null of the JSON
  -- array is a nil pointer, `none`, at which Go panics.
  unfoldable pub parse_from :
      (ℕ → ℕ × ℕ) → ℕ → List (Option (Rule F)) → Result ParseError (List (Rule F))
  unfolding prepare_rule validate_rule
  parse_from clock i [] = ok []
  parse_from clock i (none ∷ rs) = err nil_rule_panic
  parse_from clock i (some r ∷ rs) = do
    parsed ← checked (invalid_rule_at i) (prepare_rule (clock i).0 (clock i).1 r)
    rest ← parse_from clock (i + 1) rs
    ok (parsed ∷ rest)

  unfoldable pub parse_rules :
      (ℕ → ℕ × ℕ) → Option (List (Option (Rule F))) → Result ParseError (List (Rule F))
  unfolding parse_from
  parse_rules clock none = err unmarshal_failed
  parse_rules clock (some rs) = parse_from clock 0 rs
