-- ===== src/Metrics/Registry/Sufficient.antt =====
-- internal/metrics/registry.go with internal/rules/metric_extraction.go and compiler.go: the metrics
-- that the enabled rules require are enough to evaluate them.
use stock_scanner.Prelude.{
  ℕ, ◌+◌, String, ◌≡◌, refl, ◌∙◌, Bool, true, inl, inr, some, List, [], ◌∷◌, arith, str_eq, All,
}
use stock_scanner.Float.{Float}
use stock_scanner.Dict.{Dict, lookup, IsMap}
use stock_scanner.Models.Rule.{Condition, Rule}
use stock_scanner.Rules.Resolver.{new_metric_resolver, resolve_metric, evaluate_condition}
use stock_scanner.Rules.Compiler.{evaluate_all, enabled_rules}
use stock_scanner.Rules.Extraction.{extract_required_metrics}
use stock_scanner.Rules.Extraction.Covered.{IsCovered, require_rules-IsCovered}
use stock_scanner.Scanner.Snapshot.{SymbolStateSnapshot}
use stock_scanner.Metrics.Registry.{Registry, compute_all, compute_metrics}
use stock_scanner.Metrics.Registry.Laws.{IsRegistry, compute_metrics_lem}

module _ {F : Type 0} ⦃fl : Float F⦄ where
  -- Two dictionaries that agree on a metric resolve it alike.
  resolve_metric-agrees :
      (metric : String) (m m' : Dict F)
      → lookup metric m ≡ lookup metric m'
      → resolve_metric new_metric_resolver metric m ≡ resolve_metric new_metric_resolver metric m'
  unfolding resolve_metric
  resolve_metric-agrees metric m m' e = rw (e, lookup) refl

  resolve_metric-nameless :
      (metric : String) (m m' : Dict F)
      → str_eq metric "" ≡ true
      → resolve_metric new_metric_resolver metric m ≡ resolve_metric new_metric_resolver metric m'
  unfolding resolve_metric
  resolve_metric-nameless metric m m' e = rw e refl

  evaluate_condition-agrees :
      (c : Condition F) (m m' : Dict F)
      → resolve_metric new_metric_resolver c.metric m
        ≡ resolve_metric new_metric_resolver c.metric m'
      → evaluate_condition (some c) (resolve_metric new_metric_resolver) m
        ≡ evaluate_condition (some c) (resolve_metric new_metric_resolver) m'
  unfolding evaluate_condition
  evaluate_condition-agrees c m m' e = rw e refl

  evaluate_all-agrees :
      (m m' : Dict F) (i : ℕ) (cs : List (Condition F))
      → All
          (λ c.
            resolve_metric new_metric_resolver c.metric m
            ≡ resolve_metric new_metric_resolver c.metric m')
          cs
      → evaluate_all (resolve_metric new_metric_resolver) m i cs
        ≡ evaluate_all (resolve_metric new_metric_resolver) m' i cs
  unfolding evaluate_all
  evaluate_all-agrees m m' i [] h = refl
  evaluate_all-agrees m m' i (c ∷ cs) h =
      rw (evaluate_condition-agrees c m m' h.0, evaluate_all-agrees m m' (i + 1) cs h.1) refl

  module _ (r : Registry F) (now : ℕ) (s : SymbolStateSnapshot F) where
    covered-agrees :
        (required : Dict Bool) (c : Condition F)
        → IsRegistry r
        → IsMap s.indicators
        → IsCovered required c
        → resolve_metric new_metric_resolver c.metric (compute_metrics r now s required)
          ≡ resolve_metric new_metric_resolver c.metric (compute_all r now s)
    covered-agrees required c v h (inl e) = resolve_metric-nameless c.metric _ _ e
    covered-agrees required c v h (inr q) =
        resolve_metric-agrees c.metric _ _
          (compute_metrics_lem r now s required c.metric v h ∙ rw q (ground arith))

    covered-All :
        (required : Dict Bool) (cs : List (Condition F))
        → IsRegistry r
        → IsMap s.indicators
        → All (IsCovered required) cs
        → All
            (λ c.
              resolve_metric new_metric_resolver c.metric (compute_metrics r now s required)
              ≡ resolve_metric new_metric_resolver c.metric (compute_all r now s))
            cs
    covered-All required [] v h q = tt
    covered-All required (c ∷ cs) v h q =
        (covered-agrees required c v h q.0, covered-All required cs v h q.1)

    rules-agree :
        (required : Dict Bool) (rs : List (Rule F))
        → IsRegistry r
        → IsMap s.indicators
        → All (λ rule. All (IsCovered required) rule.conditions) rs
        → All
            (λ rule.
              evaluate_all
                (resolve_metric new_metric_resolver)
                (compute_metrics r now s required)
                0
                rule.conditions
              ≡ evaluate_all
                  (resolve_metric new_metric_resolver)
                  (compute_all r now s)
                  0
                  rule.conditions)
            rs
    rules-agree required [] v h q = tt
    rules-agree required (rule ∷ rs) v h q = (
      evaluate_all-agrees _ _ 0 rule.conditions (covered-All required rule.conditions v h q.0),
      rules-agree required rs v h q.1,
    )

  -- For any rules, the conditions of every enabled rule evaluate on the metrics that the rules
  -- require exactly as on all metrics, to the same answer or the same error: computing only the
  -- required metrics does not change what a rule says. The registry's computers stand under
  -- their own names, and the snapshot's indicators once each.
  pub compute_metrics-sufficient :
      (r : Registry F) (now : ℕ) (s : SymbolStateSnapshot F) (rules : List (Rule F))
      → IsRegistry r
      → IsMap s.indicators
      → All
          (λ rule.
            evaluate_all
              (resolve_metric new_metric_resolver)
              (compute_metrics r now s (extract_required_metrics rules))
              0
              rule.conditions
            ≡ evaluate_all
                (resolve_metric new_metric_resolver)
                (compute_all r now s)
                0
                rule.conditions)
          (enabled_rules rules)
  unfolding extract_required_metrics
  compute_metrics-sufficient r now s rules v h =
      rules-agree r now s (extract_required_metrics rules) (enabled_rules rules) v h
        (require_rules-IsCovered [] rules)
