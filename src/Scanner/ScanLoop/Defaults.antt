-- ===== src/Scanner/ScanLoop/Defaults.antt =====
-- internal/rules/parser.go against the scan loop: the defaults that parsing fills in change no rule's
-- meaning.
use stock_scanner.Prelude.{
  ℕ, ◌+◌, String, ◌≡◌, refl, ap, subst, true, false, not, ◌&&◌, Option, none, some, List, [], ◌∷◌,
  map, str_eq, if◌then◌else◌, Result, ok, err, inl, inr, Bool-cases,
}
use stock_scanner.Float.{Float}
use stock_scanner.Dict.{Dict}
use stock_scanner.Models.Rule.{Condition, Rule}
use stock_scanner.Rules.Error.{RuleError}
use stock_scanner.Rules.Validation.{validate_rule}
use stock_scanner.Rules.Enrichment.{or_zero, enrich_condition}
use stock_scanner.Rules.Parser.{ParseError, invalid_rule, checked, prepare_rule, parse_rule}
use stock_scanner.Rules.Filters.{check_volume_threshold, check_session_filter}
use stock_scanner.Rules.Resolver.{MetricResolver, evaluate_condition}
use stock_scanner.Rules.Compiler.{evaluate_all}
use stock_scanner.Scanner.ScanLoop.{
  positive_option, filters_pass, all_filters_pass, should_evaluate_rule,
}

during_empty :
    (session d : String)
    → str_eq d "" ≡ true
    → (not (str_eq (if str_eq d "" then "all" else d) "")
        && not (str_eq (if str_eq d "" then "all" else d) "all")
        && not (check_session_filter session (if str_eq d "" then "all" else d)))
      ≡ (not (str_eq d "") && not (str_eq d "all") && not (check_session_filter session d))
during_empty session d e = rw (e) refl

during_kept : (d : String) → str_eq d "" ≡ false → (if str_eq d "" then "all" else d) ≡ d
during_kept d e = rw (e) refl

during_part :
    (session d : String)
    → (not (str_eq (if str_eq d "" then "all" else d) "")
        && not (str_eq (if str_eq d "" then "all" else d) "all")
        && not (check_session_filter session (if str_eq d "" then "all" else d)))
      ≡ (not (str_eq d "") && not (str_eq d "all") && not (check_session_filter session d))
during_part session d = elim (Bool-cases (str_eq d "")) [
  | inl e ↦ during_empty session d e
  | inr e ↦
      ap (λ x. not (str_eq x "") && not (str_eq x "all") && not (check_session_filter session x))
        (during_kept d e)
]

module _ {F : Type 0} ⦃fl : Float F⦄ where
  threshold_part :
      (m : Dict F) (t : Option ℕ)
      → (positive_option (or_zero t) && not (check_volume_threshold m (or_zero t)))
        ≡ (positive_option t && not (check_volume_threshold m t))
  threshold_part m none = refl
  threshold_part m (some t) = refl

  filters_pass-enrich_condition :
      (m : Dict F) (session : String) (c : Condition F)
      → filters_pass m session (enrich_condition c) ≡ filters_pass m session c
  unfolding filters_pass enrich_condition
  filters_pass-enrich_condition m session c =
      rw (threshold_part m c.volume_threshold, during_part session c.calculated_during) refl

  all_filters_pass-map :
      (m : Dict F) (session : String) (cs : List (Condition F))
      → all_filters_pass m session (map enrich_condition cs) ≡ all_filters_pass m session cs
  unfolding all_filters_pass
  all_filters_pass-map m session [] = refl
  all_filters_pass-map m session (c ∷ cs) =
      rw (filters_pass-enrich_condition m session c, all_filters_pass-map m session cs) refl

  evaluate_all-map :
      (resolver : MetricResolver F) (m : Dict F) (i : ℕ) (cs : List (Condition F))
      → evaluate_all resolver m i (map enrich_condition cs) ≡ evaluate_all resolver m i cs
  unfolding evaluate_all evaluate_condition enrich_condition
  evaluate_all-map resolver m i [] = refl
  evaluate_all-map resolver m i (c ∷ cs) = rw (evaluate_all-map resolver m (i + 1) cs) refl

module _ {F : Type 0} where
  checked-ok :
      (r r' : Rule F) → checked invalid_rule r ≡ ok r' → (validate_rule r ≡ ok tt) × (r ≡ r')
  checked-ok r r' h = go (validate_rule r) refl h
    where
      go :
          (v : Result RuleError (Unit {0}))
          → validate_rule r ≡ v
          → (elim v as (λ _. Result ParseError (Rule F)) [
            | ok u ↦ ok r
            | err e ↦ err (invalid_rule e)
          ])
            ≡ ok r'
          → (validate_rule r ≡ ok tt) × (r ≡ r')
      go (ok u) e q = (e, cc)
      go (err x) e q = cc

module _ {F : Type 0} ⦃fl : Float F⦄ where
  -- A rule that parses is valid, and the pre-filters of the scan loop and the evaluation of its
  -- conditions say of it what they say of the rule as it was written: the timeframe, the value
  -- type, the session and the threshold that parsing fills in change neither.
  pub parse_rule_lem :
      (now now' : ℕ) (r r' : Rule F) (resolver : MetricResolver F) (m : Dict F) (session : String)
      → parse_rule now now' (some r) ≡ ok r'
      → (validate_rule r' ≡ ok tt)
        × (should_evaluate_rule r' m session ≡ should_evaluate_rule r m session)
        × (evaluate_all resolver m 0 r'.conditions ≡ evaluate_all resolver m 0 r.conditions)
  unfolding parse_rule should_evaluate_rule
  parse_rule_lem now now' r r' resolver m session h =
      let passed = checked-ok (prepare_rule now now' r) r' h in
      subst
        (λ x.
          (validate_rule x ≡ ok tt)
          × (should_evaluate_rule x m session ≡ should_evaluate_rule r m session)
          × (evaluate_all resolver m 0 x.conditions ≡ evaluate_all resolver m 0 r.conditions))
        passed.1
        (
          passed.0,
          all_filters_pass-map m session r.conditions,
          evaluate_all-map resolver m 0 r.conditions,
        )
