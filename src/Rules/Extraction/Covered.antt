-- ===== src/Rules/Extraction/Covered.antt =====
-- The required metrics are those of the conditions of the enabled rules.
use stock_scanner.Prelude.{
  String, ◌≡◌, refl, Bool, true, false, ◌⊎◌, inl, inr, List, [], ◌∷◌, arith, str_eq, eq_refl, All,
  Bool-cases,
}
use stock_scanner.Dict.{Dict, insert, get_or}
use stock_scanner.Dict.Laws.{lookup-insert}
use stock_scanner.Models.Rule.{Condition, Rule}
use stock_scanner.Rules.Compiler.{enabled_rules}
use stock_scanner.Rules.Extraction.{
  require_volumes, require_condition, require_conditions, require_rules,
}

abbrev pub IsRequired : Dict Bool → String → Type 0
IsRequired required k = get_or false k required ≡ true

-- Every name that is required stays so.
abbrev Grows : Dict Bool → Dict Bool → Type 0
Grows before after = (k : String) → IsRequired before k → IsRequired after k

insert-Grows : (k : String) (required : Dict Bool) → Grows required (insert k true required)
unfolding get_or
insert-Grows k required j h = elim (Bool-cases (str_eq k j)) [
  | inl e ↦ rw (get_or, lookup-insert k j true required, e) refl
  | inr e ↦ rw (get_or, lookup-insert k j true required, e) h
]

insert-IsRequired : (k : String) (required : Dict Bool) → IsRequired (insert k true required) k
unfolding get_or
insert-IsRequired k required = rw (get_or, lookup-insert k k true required, eq_refl k) refl

require_volumes-Grows : (required : Dict Bool) → Grows required (require_volumes required)
unfolding require_volumes
require_volumes-Grows required k h = insert-Grows "market_volume" _ k (
    insert-Grows "postmarket_volume" _ k
      (insert-Grows "premarket_volume" _ k (insert-Grows "volume_daily" _ k h)))

module _ {F : Type 0} where
  require_condition-Grows :
      (required : Dict Bool) (c : Condition F) → Grows required (require_condition required c)
  unfolding require_condition
  require_condition-Grows required c k h = ground (
    arith,
    require_volumes-Grows required k,
    require_volumes-Grows (insert c.metric true required) k,
    insert-Grows c.metric required k,
  )

  require_condition-IsRequired :
      (required : Dict Bool) (c : Condition F)
      → str_eq c.metric "" ≡ false
      → IsRequired (require_condition required c) c.metric
  unfolding require_condition
  require_condition-IsRequired required c h = ground (
    arith,
    require_volumes-Grows (insert c.metric true required) c.metric,
    insert-IsRequired c.metric required,
  )

  require_conditions-Grows :
      (required : Dict Bool) (cs : List (Condition F))
      → Grows required (require_conditions required cs)
  unfolding require_conditions
  require_conditions-Grows required [] k h = h
  require_conditions-Grows required (c ∷ cs) k h =
      require_conditions-Grows (require_condition required c) cs k
        (require_condition-Grows required c k h)

  -- A condition without a name, or whose name is required
  abbrev pub IsCovered : Dict Bool → Condition F → Type 0
  IsCovered required c = (str_eq c.metric "" ≡ true) ⊎ IsRequired required c.metric

  IsCovered-Grows :
      (before after : Dict Bool) (cs : List (Condition F))
      → Grows before after
      → All (IsCovered before) cs
      → All (IsCovered after) cs
  IsCovered-Grows before after [] g h = tt
  IsCovered-Grows before after (c ∷ cs) g h = (
    elim h.0 [ inl e ↦ inl e | inr q ↦ inr (g c.metric q) ],
    IsCovered-Grows before after cs g h.1,
  )

  require_conditions-IsCovered :
      (required : Dict Bool) (cs : List (Condition F))
      → All (IsCovered (require_conditions required cs)) cs
  unfolding require_conditions
  require_conditions-IsCovered required [] = tt
  require_conditions-IsCovered required (c ∷ cs) = (
    elim (Bool-cases (str_eq c.metric "")) [
      | inl e ↦ inl e
      | inr e ↦ inr (
          require_conditions-Grows (require_condition required c) cs c.metric
            (require_condition-IsRequired required c e))
    ],
    require_conditions-IsCovered (require_condition required c) cs,
  )

  require_rules-Grows :
      (required : Dict Bool) (rs : List (Rule F)) → Grows required (require_rules required rs)
  unfolding require_rules
  require_rules-Grows required [] k h = h
  require_rules-Grows required (r ∷ rs) k h = elim (Bool-cases r.enabled) [
    | inl e ↦ rw e (
        require_rules-Grows (require_conditions required r.conditions) rs k
          (require_conditions-Grows required r.conditions k h))
    | inr e ↦ rw e (require_rules-Grows required rs k h)
  ]

  -- The enabled rules have only covered conditions.
  pub require_rules-IsCovered :
      (required : Dict Bool) (rs : List (Rule F))
      → All (λ r. All (IsCovered (require_rules required rs)) r.conditions) (enabled_rules rs)
  unfolding require_rules
  require_rules-IsCovered required [] = tt
  require_rules-IsCovered required (r ∷ rs) = elim (Bool-cases r.enabled) [
    | inl e ↦ rw e (
      IsCovered-Grows _ _ r.conditions
          (require_rules-Grows (require_conditions required r.conditions) rs)
          (require_conditions-IsCovered required r.conditions),
      require_rules-IsCovered (require_conditions required r.conditions) rs,
    )
    | inr e ↦ rw e (require_rules-IsCovered required rs)
  ]
