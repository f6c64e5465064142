-- ===== src/Tests/Rulebook.antt =====
-- Rules, their store and their evaluation, on concrete values.
use stock_scanner.Prelude.{
  ℕ, ◌≡◌, refl, true, false, inl, not, ◌&&◌, some, [], ◌∷◌, All, Any, ◌↔◌, ok, is_ok, str_eq,
  if◌then◌else◌,
}
use stock_scanner.Float.Fixed.{fixed}
use stock_scanner.Dict.{Dict, lookup, has}
use stock_scanner.Models.Rule.{text}
use stock_scanner.Rules.Resolver.{
  MetricResolver, resolve_metric, new_metric_resolver, is_numeric, evaluate_condition,
}
use stock_scanner.Rules.Resolver.Operators.{evaluate_condition-is_ok}
use stock_scanner.Rules.Compiler.{CompiledRule, compile_rule, compile_enabled_rules, evaluate_all}
use stock_scanner.Rules.Compiler.Matches.{
  Matches, Compiles, compile_rule-Matches, compile_enabled_rules-Compiles,
}
use stock_scanner.Rules.Validation.{validate_rule, validate_condition}
use stock_scanner.Rules.Store.{RuleStore, new_rule_store, copy_rule, stamped, add_rule, get_rule}
use stock_scanner.Rules.Store.Effects.{add_rule_effect}
use stock_scanner.Rules.Store.Stripped.{IsStripped, get_rule-All}
use stock_scanner.Tests.Data.{above_fifty, strong}

abbrev metrics : Dict ℕ
metrics = ("rsi_14", 650000) ∷ ("volume_daily", 20000000) ∷ []

abbrev resolver : MetricResolver ℕ
resolver = resolve_metric new_metric_resolver

evaluate_condition-is_ok_example :
    let with_text = record above_fifty { operator = "=="; value = text "high" } in
    (is_ok (evaluate_condition (some above_fifty) resolver metrics) ≡ is_numeric above_fifty.value)
    × (validate_condition with_text ≡ ok tt)
    × (is_ok (evaluate_condition (some with_text) resolver metrics) ≡ false)
unfolding validate_condition resolve_metric
evaluate_condition-is_ok_example =
    evaluate_condition-is_ok above_fifty resolver metrics 650000 "==" "high" refl refl (inl refl)

abbrev compiled : CompiledRule ℕ
compiled symbol m = evaluate_all resolver m 0 strong.conditions

compile_rule-Matches_example :
    (compiled "AAPL" metrics ≡ ok true) ↔ All (Matches resolver metrics) strong.conditions
unfolding compile_rule
compile_rule-Matches_example = compile_rule-Matches resolver strong compiled "AAPL" metrics refl

compile_enabled_rules-Compiles_example :
    Any (λ r. (r.enabled ≡ true) × Compiles resolver "r1" compiled r) (strong ∷ [])
unfolding compile_enabled_rules compile_rule lookup
compile_enabled_rules-Compiles_example =
    compile_enabled_rules-Compiles resolver (strong ∷ []) (("r1", compiled) ∷ []) "r1" compiled refl
      refl

abbrev one_rule : RuleStore ℕ
one_rule = record { rules = ("r1", strong) ∷ [] }

abbrev no_rules : RuleStore ℕ
no_rules = new_rule_store

add_rule_effect_example :
    (is_ok (add_rule no_rules 7 (some strong)).0
      ≡ (is_ok (validate_rule strong) && not (has "r1" no_rules.rules)))
    × (lookup "r1" (add_rule no_rules 7 (some strong)).1.rules ≡ (
        if is_ok (add_rule no_rules 7 (some strong)).0 && str_eq "r1" "r1"
        then some (copy_rule (stamped 7 strong))
        else lookup "r1" no_rules.rules))
add_rule_effect_example = add_rule_effect no_rules 7 strong "r1"

get_rule-All_example : All IsStripped (copy_rule strong).conditions
unfolding get_rule
get_rule-All_example = get_rule-All one_rule "r1" (copy_rule strong) refl
