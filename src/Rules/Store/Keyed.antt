-- ===== src/Rules/Store/Keyed.antt =====
-- The store holds each rule under the rule's own ID, after any operations.
use stock_scanner.Prelude.{
  ℕ, String, ◌≡◌, refl, sym, ap, ◌∙◌, Bool, Option, none, some, List, [], ◌∷◌, ok, err, str_eq,
  eq_iff, arith, if◌then◌else◌, is_ok, ◌&&◌, Option-cases, inl, inr,
}
use stock_scanner.Dict.{lookup}
use stock_scanner.Dict.Laws.{lookup-empty}
use stock_scanner.Models.Rule.{Rule}
use stock_scanner.Rules.Error.{rule_not_found}
use stock_scanner.Rules.Store.{
  RuleStore, new_rule_store, copy_rule, stamped, get_rule, add_rule, update_rule, delete_rule,
  set_rule_enabled, clear,
}
use stock_scanner.Rules.Store.Effects.{
  add_rule_effect, update_rule_effect, delete_rule_effect, set_rule_enabled_effect,
}

pub data Op (F : Type 0) : Type 0 where
  added : ℕ → Rule F → Op F
  changed : ℕ → Rule F → Op F
  deleted : String → Op F
  toggled : ℕ → String → Bool → Op F
  cleared : Op F

module _ {F : Type 0} where
  unfoldable pub apply_op : RuleStore F → Op F → RuleStore F
  apply_op s (added now r) = (add_rule s now (some r)).1
  apply_op s (changed now r) = (update_rule s now (some r)).1
  apply_op s (deleted id) = (delete_rule s id).1
  apply_op s (toggled now id on) = (set_rule_enabled s now id on).1
  apply_op s cleared = clear s

  unfoldable pub apply_ops : RuleStore F → List (Op F) → RuleStore F
  apply_ops s [] = s
  apply_ops s (o ∷ os) = apply_ops (apply_op s o) os

  IsKeyed : RuleStore F → Type 0
  IsKeyed s = (j : String) (r : Rule F) → lookup j s.rules ≡ some r → r.id ≡ j

  copied-id : (r : Rule F) → (copy_rule r).id ≡ r.id
  unfolding copy_rule
  copied-id r = refl

  -- An entry that is new under its own ID, or as before
  placed :
      (s s' : RuleStore F) (b : Bool) (id : String) (o : Option (Rule F))
      → ((j : String) → lookup j s'.rules ≡ (if b && str_eq id j then o else lookup j s.rules))
      → ((r : Rule F) → o ≡ some r → r.id ≡ id)
      → IsKeyed s
      → IsKeyed s'
  unfolding IsKeyed
  placed s s' b id o e n k j r h = ground (arith, e j, n r, k j r, eq_iff id j)

  added-IsKeyed :
      (s : RuleStore F) (now : ℕ) (r : Rule F) → IsKeyed s → IsKeyed (add_rule s now (some r)).1
  unfolding stamped
  added-IsKeyed s now r k =
      placed s (add_rule s now (some r)).1 (is_ok (add_rule s now (some r)).0) r.id
        (some (copy_rule (stamped now r))) (λ j. (add_rule_effect s now r j).1)
        (λ x e. cc (copied-id (stamped now r))) k

  changed-IsKeyed :
      (s : RuleStore F) (now : ℕ) (r : Rule F) → IsKeyed s → IsKeyed (update_rule s now (some r)).1
  unfolding IsKeyed
  changed-IsKeyed s now r k j x h = elim (Option-cases (lookup j s.rules)) [
    | inl e ↦ ground (arith, (update_rule_effect s now r j).1)
    | inr (old, e) ↦ ground (
      arith,
      (update_rule_effect s now r j).1,
      k j old,
      eq_iff r.id j,
      copied-id (record r { created_at = old.created_at; updated_at = now }),
    )
  ]

  deleted-IsKeyed : (s : RuleStore F) (id : String) → IsKeyed s → IsKeyed (delete_rule s id).1
  unfolding IsKeyed
  deleted-IsKeyed s id k j x h = ground (arith, (delete_rule_effect s id j).1, k j x)

  toggled-IsKeyed :
      (s : RuleStore F) (now : ℕ) (id : String) (on : Bool)
      → IsKeyed s
      → IsKeyed (set_rule_enabled s now id on).1
  unfolding IsKeyed
  toggled-IsKeyed s now id on k j x h = elim (Option-cases (lookup j s.rules)) [
    | inl e ↦ ground (arith, (set_rule_enabled_effect s id now on j).1)
    | inr (old, e) ↦ ground (arith, (set_rule_enabled_effect s id now on j).1, k j old)
  ]

  empty-IsKeyed : (s : RuleStore F) → s.rules ≡ [] → IsKeyed s
  unfolding IsKeyed
  empty-IsKeyed s e j x h = cc (lookup-empty {V = Rule F} j)

  apply_ops-IsKeyed : (s : RuleStore F) (os : List (Op F)) → IsKeyed s → IsKeyed (apply_ops s os)
  unfolding apply_ops apply_op clear
  apply_ops-IsKeyed s [] k = k
  apply_ops-IsKeyed s (added now r ∷ os) k =
      apply_ops-IsKeyed (add_rule s now (some r)).1 os (added-IsKeyed s now r k)
  apply_ops-IsKeyed s (changed now r ∷ os) k =
      apply_ops-IsKeyed (update_rule s now (some r)).1 os (changed-IsKeyed s now r k)
  apply_ops-IsKeyed s (deleted id ∷ os) k =
      apply_ops-IsKeyed (delete_rule s id).1 os (deleted-IsKeyed s id k)
  apply_ops-IsKeyed s (toggled now id on ∷ os) k =
      apply_ops-IsKeyed (set_rule_enabled s now id on).1 os (toggled-IsKeyed s now id on k)
  apply_ops-IsKeyed s (cleared ∷ os) k =
      apply_ops-IsKeyed (clear s) os (empty-IsKeyed (clear s) refl)

  found_id :
      (id : String) (o : Option (Rule F)) (r : Rule F)
      → ((x : Rule F) → o ≡ some x → x.id ≡ id)
      → elim o [ none ↦ err (rule_not_found id) | some x ↦ ok (copy_rule x) ] ≡ ok r
      → r.id ≡ id
  found_id id none r k h = cc
  found_id id (some x) r k h =
      let p : copy_rule x ≡ r = cc in ap (λ (y : Rule F). y.id) (sym p) ∙ copied-id x ∙ k x refl

  -- After any operations on a new store, succeeding or not, what GetRule gives under an ID is a
  -- rule with that ID.
  pub apply_ops-id :
      (os : List (Op F)) (id : String) (r : Rule F)
      → get_rule (apply_ops new_rule_store os) id ≡ ok r
      → r.id ≡ id
  unfolding get_rule IsKeyed
  apply_ops-id os id r h =
      let s = apply_ops new_rule_store os in
      found_id id (lookup id s.rules) r
        (apply_ops-IsKeyed new_rule_store os (empty-IsKeyed new_rule_store refl) id) h
