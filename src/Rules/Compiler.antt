-- ===== src/Rules/Compiler.antt =====
-- internal/rules/compiler.go: rules into functions of a symbol and its metrics.
pub mod Matches
use stock_scanner.Prelude.{
  ℕ, ◌+◌, String, Bool, true, false, Option, none, some, List, [], ◌∷◌, if◌then◌else◌, Result, ok,
  err, ◌>>=◌, ◌>>◌,
}
use stock_scanner.Float.{Float}
use stock_scanner.Dict.{Dict, insert}
use stock_scanner.Models.Rule.{Condition, Rule}
use stock_scanner.Rules.Error.{RuleError, nil_rule, invalid_rule, at_condition, compile_failed}
use stock_scanner.Rules.Validation.{validate_rule}
use stock_scanner.Rules.Resolver.{MetricResolver, evaluate_condition}

abbrev pub CompiledRule : Type 0 → Type 0
CompiledRule F = String → Dict F → Result RuleError Bool

abbrev pub map_error {ℓ} :
    {A : Type ℓ} → (RuleError → RuleError) → Result RuleError A → Result RuleError A
map_error f (ok a) = ok a
map_error f (err e) = err (f e)

module _ {F : Type 0} ⦃fl : Float F⦄ where
  -- The loop of a compiled rule, from index `i`
  unfoldable pub evaluate_all :
      MetricResolver F → Dict F → ℕ → List (Condition F) → Result RuleError Bool
  unfolding evaluate_condition
  evaluate_all resolver m i [] = ok true
  evaluate_all resolver m i (c ∷ cs) = do
    matched ← map_error (at_condition i) (evaluate_condition (some c) resolver m)
    let rest = evaluate_all resolver m (i + 1) cs
    if matched then rest else ok false

  unfoldable pub compile_rule :
      MetricResolver F → Option (Rule F) → Result RuleError (CompiledRule F)
  unfolding evaluate_all validate_rule
  compile_rule resolver none = err nil_rule
  compile_rule resolver (some r) = do
    map_error invalid_rule (validate_rule r)
    ok (λ symbol m. evaluate_all resolver m 0 r.conditions)

  -- The loop of CompileRules, over the map built so far
  pub compile_into :
      MetricResolver F
      → Dict (CompiledRule F)
      → List (Rule F)
      → Result RuleError (Dict (CompiledRule F))
  unfolding insert
  compile_into resolver compiled [] = ok compiled
  compile_into resolver compiled (r ∷ rs) = do
    f ← map_error (λ e. compile_failed r.id) (compile_rule resolver (some r))
    compile_into resolver (insert r.id f compiled) rs

  unfoldable pub compile_rules :
      MetricResolver F → List (Rule F) → Result RuleError (Dict (CompiledRule F))
  unfolding compile_into
  compile_rules resolver rules = compile_into resolver [] rules

abbrev pub enabled_rules : {F : Type 0} → List (Rule F) → List (Rule F)
enabled_rules [] = []
enabled_rules (r ∷ rs) = let rest = enabled_rules rs in if r.enabled then r ∷ rest else rest

unfoldable pub compile_enabled_rules :
    {F : Type 0} ⦃fl : Float F⦄
    → MetricResolver F
    → List (Rule F)
    → Result RuleError (Dict (CompiledRule F))
unfolding compile_rules
compile_enabled_rules resolver rules = compile_rules resolver (enabled_rules rules)
