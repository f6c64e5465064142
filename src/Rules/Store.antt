-- ===== src/Rules/Store.antt =====
-- internal/rules/store.go: InMemoryRuleStore. Each method runs under the store's mutex. `now` is
-- the clock's reading; `none` is a nil rule. A method that changes the caller's rule returns it.
pub mod Effects
pub mod Stripped
pub mod Keyed
use stock_scanner.Prelude.{
  ℕ, String, Bool, true, false, Option, none, some, List, [], ◌∷◌, map, str_eq, if◌then◌else◌, ◌==◌,
  Result, ok, err, length,
}
use stock_scanner.Dict.{Dict, lookup, insert, remove, values}
use stock_scanner.Models.Rule.{Condition, Rule}
use stock_scanner.Rules.Error.{
  RuleError, nil_rule, invalid_rule, rule_not_found, rule_exists, empty_rule_id,
}
use stock_scanner.Rules.Validation.{validate_rule}

pub record RuleStore (F : Type 0) : Type 0 where
  pub rules : Dict (Rule F)

module _ {F : Type 0} where
  abbrev pub new_rule_store : RuleStore F
  new_rule_store = record { rules = [] }

  -- The copy has the metric, the operator and the value, and the zero value of the other fields.
  unfoldable pub copy_condition : Condition F → Condition F
  copy_condition c = record {
    metric = c.metric;
    operator = c.operator;
    value = c.value;
    volume_threshold = none;
    calculated_during = "";
    timeframe = "";
    value_type = "";
  }

  unfoldable pub copy_rule : Rule F → Rule F
  unfolding copy_condition
  copy_rule r = record {
    id = r.id;
    name = r.name;
    description = r.description;
    conditions = map copy_condition r.conditions;
    cooldown = r.cooldown;
    enabled = r.enabled;
    created_at = r.created_at;
    updated_at = r.updated_at;
  }

  unfoldable pub get_rule : RuleStore F → String → Result RuleError (Rule F)
  unfolding lookup copy_rule
  get_rule s id = elim (lookup id s.rules) [
    | none ↦ err (rule_not_found id)
    | some r ↦ ok (copy_rule r)
  ]

  unfoldable pub get_all_rules : RuleStore F → List (Rule F)
  unfolding copy_rule
  get_all_rules s = map copy_rule (values s.rules)

  pub copy_enabled : List (Rule F) → List (Rule F)
  unfolding copy_rule
  copy_enabled [] = []
  copy_enabled (r ∷ rs) =
      let rest = copy_enabled rs in if r.enabled then copy_rule r ∷ rest else rest

  unfoldable pub get_enabled_rules : RuleStore F → List (Rule F)
  unfolding copy_enabled
  get_enabled_rules s = copy_enabled (values s.rules)

  -- The timestamps that AddRule sets on the caller's rule
  unfoldable pub stamped : ℕ → Rule F → Rule F
  stamped now r = record r {
    created_at = if r.created_at == 0 then now else r.created_at;
    updated_at = if r.updated_at == 0 then now else r.updated_at;
  }

  unfoldable pub add_rule :
      RuleStore F → ℕ → Option (Rule F) → Result RuleError (Rule F) × RuleStore F
  add_rule s now none = (err nil_rule, s)
  add_rule s now (some r) = elim (validate_rule r) [
    | err e ↦ (err (invalid_rule e), s)
    | ok _ ↦ elim (lookup r.id s.rules) [
      | some old ↦ (err (rule_exists r.id), s)
      | none ↦
          let r' = stamped now r in (ok r', record { rules = insert r.id (copy_rule r') s.rules })
    ]
  ]

  unfoldable pub update_rule :
      RuleStore F → ℕ → Option (Rule F) → Result RuleError (Rule F) × RuleStore F
  update_rule s now none = (err nil_rule, s)
  update_rule s now (some r) = elim (validate_rule r) [
    | err e ↦ (err (invalid_rule e), s)
    | ok _ ↦ elim (lookup r.id s.rules) [
      | none ↦ (err (rule_not_found r.id), s)
      | some existing ↦
          let r' = record r { created_at = existing.created_at; updated_at = now } in
          (ok r', record { rules = insert r.id (copy_rule r') s.rules })
    ]
  ]

  unfoldable pub delete_rule : RuleStore F → String → Result RuleError (Unit {0}) × RuleStore F
  delete_rule s id = if str_eq id "" then (err empty_rule_id, s) else elim (lookup id s.rules) [
    | none ↦ (err (rule_not_found id), s)
    | some r ↦ (ok tt, record { rules = remove id s.rules })
  ]

  unfoldable pub set_rule_enabled :
      RuleStore F → ℕ → String → Bool → Result RuleError (Unit {0}) × RuleStore F
  set_rule_enabled s now id on =
      if str_eq id "" then (err empty_rule_id, s) else elim (lookup id s.rules) [
        | none ↦ (err (rule_not_found id), s)
        | some r ↦
            let r' = record r { enabled = on; updated_at = now } in
            (ok tt, record { rules = insert id r' s.rules })
      ]

  unfoldable pub enable_rule : RuleStore F → ℕ → String → Result RuleError (Unit {0}) × RuleStore F
  unfolding set_rule_enabled
  enable_rule s now id = set_rule_enabled s now id true

  unfoldable pub disable_rule : RuleStore F → ℕ → String → Result RuleError (Unit {0}) × RuleStore F
  unfolding set_rule_enabled
  disable_rule s now id = set_rule_enabled s now id false

  unfoldable pub count : RuleStore F → ℕ
  count s = length s.rules

  unfoldable pub clear : RuleStore F → RuleStore F
  clear s = record { rules = [] }
