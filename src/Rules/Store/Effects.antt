-- ===== src/Rules/Store/Effects.antt =====
-- When the operations of the store succeed, and what they change.
use stock_scanner.Prelude.{
  ℕ, String, ◌≡◌, Bool, not, ◌&&◌, Option, none, some, str_eq, eq_iff, if◌then◌else◌, is_ok, arith,
  Option-cases, inl, inr,
}
use stock_scanner.Dict.{lookup, has}
use stock_scanner.Dict.Laws.{lookup-insert, lookup-remove}
use stock_scanner.Models.Rule.{Rule}
use stock_scanner.Rules.Validation.{validate_rule}
use stock_scanner.Rules.Store.{
  RuleStore, copy_rule, stamped, add_rule, update_rule, delete_rule, set_rule_enabled,
}

module _ {F : Type 0} (s : RuleStore F) (now : ℕ) (r : Rule F) where
  -- AddRule succeeds exactly for a valid rule whose ID is free. It then stores a copy, stamped
  -- with the time, under that ID; no other entry changes, and a failure changes nothing.
  pub add_rule_effect :
      (j : String)
      → (is_ok (add_rule s now (some r)).0 ≡ (is_ok (validate_rule r) && not (has r.id s.rules)))
        × (lookup j (add_rule s now (some r)).1.rules ≡ (
            if is_ok (add_rule s now (some r)).0 && str_eq r.id j
            then some (copy_rule (stamped now r))
            else lookup j s.rules))
  unfolding add_rule has
  add_rule_effect j = ground (arith, lookup-insert r.id j (copy_rule (stamped now r)) s.rules)

  -- The rule that an update stores, from the one that it replaces.
  abbrev pub updated : Rule F → Rule F
  updated old = copy_rule (record r { created_at = old.created_at; updated_at = now })

  abbrev pub updated_over : Option (Rule F) → Option (Rule F)
  updated_over none = none
  updated_over (some old) = some (updated old)

  -- UpdateRule succeeds exactly for a valid rule whose ID is taken. It then keeps the creation
  -- time of the old rule; no other entry changes, and a failure changes nothing.
  pub update_rule_effect :
      (j : String)
      → (is_ok (update_rule s now (some r)).0 ≡ (is_ok (validate_rule r) && has r.id s.rules))
        × (lookup j (update_rule s now (some r)).1.rules ≡ (
            if is_ok (update_rule s now (some r)).0 && str_eq r.id j
            then updated_over (lookup j s.rules)
            else lookup j s.rules))
  unfolding update_rule has
  update_rule_effect j = elim (Option-cases (lookup r.id s.rules)) [
    | inl e ↦ ground arith
    | inr (old, e) ↦ ground (arith, lookup-insert r.id j (updated old) s.rules, eq_iff r.id j)
  ]

module _ {F : Type 0} (s : RuleStore F) (id : String) where
  -- DeleteRule succeeds exactly for a stored, non-empty ID, and removes that entry alone.
  pub delete_rule_effect :
      (j : String)
      → (is_ok (delete_rule s id).0 ≡ (not (str_eq id "") && has id s.rules))
        × (lookup j (delete_rule s id).1.rules
            ≡ (if is_ok (delete_rule s id).0 && str_eq id j then none else lookup j s.rules))
  unfolding delete_rule has
  delete_rule_effect j = ground (arith, lookup-remove id j s.rules)

  abbrev pub switched : ℕ → Bool → Option (Rule F) → Option (Rule F)
  switched now on none = none
  switched now on (some r) = some (record r { enabled = on; updated_at = now })

  -- EnableRule and DisableRule succeed exactly for a stored, non-empty ID, and change the flag and
  -- the update time of that rule alone.
  pub set_rule_enabled_effect :
      (now : ℕ) (on : Bool) (j : String)
      → (is_ok (set_rule_enabled s now id on).0 ≡ (not (str_eq id "") && has id s.rules))
        × (lookup j (set_rule_enabled s now id on).1.rules ≡ (
            if is_ok (set_rule_enabled s now id on).0 && str_eq id j
            then switched now on (lookup j s.rules)
            else lookup j s.rules))
  unfolding set_rule_enabled has
  set_rule_enabled_effect now on j = elim (Option-cases (lookup id s.rules)) [
    | inl e ↦ ground arith
    | inr (r, e) ↦ ground (
      arith,
      lookup-insert id j (record r { enabled = on; updated_at = now }) s.rules,
      eq_iff id j,
    )
  ]
