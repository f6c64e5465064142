-- ===== src/Rules/Store/Stripped.antt =====
-- What the copies of the store keep of a condition, for every reader of the store.
use stock_scanner.Prelude.{
  ◌≡◌, refl, subst, String, Option, none, some, List, [], ◌∷◌, map, All, ok, err,
}
use stock_scanner.Dict.{lookup}
use stock_scanner.Models.Rule.{Condition, Rule}
use stock_scanner.Rules.Error.{rule_not_found}
use stock_scanner.Rules.Store.{RuleStore, copy_condition, copy_rule, get_rule}

-- A condition without filter configuration
abbrev pub IsStripped : {F : Type 0} → Condition F → Type 0
IsStripped c =
    (c.volume_threshold ≡ none)
    × (c.calculated_during ≡ "")
    × (c.timeframe ≡ "")
    × (c.value_type ≡ "")

module _ {F : Type 0} where
  copies : (cs : List (Condition F)) → All IsStripped (map copy_condition cs)
  unfolding copy_condition
  copies [] = tt
  copies (c ∷ cs) = ((refl, refl, refl, refl), copies cs)

  found_copy :
      (id : String) (o : Option (Rule F)) (r : Rule F)
      → elim o [ none ↦ err (rule_not_found id) | some x ↦ ok (copy_rule x) ] ≡ ok r
      → All IsStripped r.conditions
  unfolding copy_rule
  found_copy id none r h = cc
  found_copy id (some x) r h =
      let p : copy_rule x ≡ r = cc in
      subst (λ (y : Rule F). All IsStripped y.conditions) p (copies x.conditions)

  -- Every condition of a rule that `get_rule` gives is without a volume threshold, a session, a
  -- timeframe and a value type, whatever rule was stored.
  pub get_rule-All :
      (s : RuleStore F) (id : String) (r : Rule F)
      → get_rule s id ≡ ok r
      → All IsStripped r.conditions
  unfolding get_rule
  get_rule-All s id r h = found_copy id (lookup id s.rules) r h
