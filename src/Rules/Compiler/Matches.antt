-- ===== src/Rules/Compiler/Matches.antt =====
-- A compiled rule is the conjunction of its conditions, and only enabled, valid rules compile.
use stock_scanner.Prelude.{
  ℕ, ◌+◌, String, ◌≡◌, refl, ap, subst, Bool-cases, sym, ◌∙◌, true, some, List, [], ◌∷◌,
  if◌then◌else◌, Result, ok, err, ◌>>=◌, ◌>>◌, All, Any, ◌⊎◌, inl, inr, ◌↔◌, arith, str_eq, eq_iff,
}
use stock_scanner.Float.{Float}
use stock_scanner.Dict.{Dict, lookup, insert}
use stock_scanner.Dict.Laws.{lookup-insert, lookup-empty}
use stock_scanner.Models.Rule.{Condition, Rule}
use stock_scanner.Rules.Error.{RuleError, invalid_rule, compile_failed}
use stock_scanner.Rules.Validation.{validate_rule}
use stock_scanner.Rules.Resolver.{MetricResolver, evaluate_condition}
use stock_scanner.Rules.Compiler.{
  CompiledRule, map_error, evaluate_all, compile_rule, compile_into, enabled_rules,
  compile_enabled_rules,
}

module _ {F : Type 0} ⦃fl : Float F⦄ (resolver : MetricResolver F) where
  abbrev pub Matches : Dict F → Condition F → Type 0
  Matches m c = evaluate_condition (some c) resolver m ≡ ok true

  Matches-evaluate_all :
      (m : Dict F) (i : ℕ) (cs : List (Condition F))
      → evaluate_all resolver m i cs ≡ ok true
      → All (Matches m) cs
  unfolding evaluate_all
  Matches-evaluate_all m i [] h = tt
  Matches-evaluate_all m i (c ∷ cs) h = ground (arith, Matches-evaluate_all m (i + 1) cs)

  evaluate_all-Matches :
      (m : Dict F) (i : ℕ) (cs : List (Condition F))
      → All (Matches m) cs
      → evaluate_all resolver m i cs ≡ ok true
  unfolding evaluate_all
  evaluate_all-Matches m i [] h = refl
  evaluate_all-Matches m i (c ∷ cs) h = rw h.0 (evaluate_all-Matches m (i + 1) cs h.1)

  passed_check :
      (v : Result RuleError (Unit {0})) (g f : CompiledRule F)
      → (do map_error invalid_rule v; ok g) ≡ ok f
      → (v ≡ ok tt) × (g ≡ f)
  passed_check (ok u) g f h = (refl, cc)
  passed_check (err e) g f h = cc

  compile_rule-ok :
      (r : Rule F) (f : CompiledRule F)
      → compile_rule resolver (some r) ≡ ok f
      → (validate_rule r ≡ ok tt) × ((λ symbol m. evaluate_all resolver m 0 r.conditions) ≡ f)
  unfolding compile_rule
  compile_rule-ok r f h =
      passed_check (validate_rule r) (λ symbol m. evaluate_all resolver m 0 r.conditions) f h

  -- A compiled rule matches metrics exactly when each of its conditions evaluates to true: one
  -- that is false or fails to evaluate keeps it from matching. The symbol does not matter.
  pub compile_rule-Matches :
      (r : Rule F) (f : CompiledRule F) (symbol : String) (m : Dict F)
      → compile_rule resolver (some r) ≡ ok f
      → (f symbol m ≡ ok true) ↔ All (Matches m) r.conditions
  compile_rule-Matches r f symbol m h =
      let e = ap (λ (g : CompiledRule F). g symbol m) (compile_rule-ok r f h).1 in
      (
        λ t. Matches-evaluate_all m 0 r.conditions (e ∙ t),
        λ a. sym e ∙ evaluate_all-Matches m 0 r.conditions a,
      )

  -- The rule behind a compiled one.
  abbrev pub Compiles : String → CompiledRule F → Rule F → Type 0
  Compiles id f r =
      (r.id ≡ id) × (validate_rule r ≡ ok tt) × (compile_rule resolver (some r) ≡ ok f)

  inserted-Compiles :
      (r : Rule F) (g f : CompiledRule F) (acc : Dict (CompiledRule F)) (id : String)
      → compile_rule resolver (some r) ≡ ok g
      → lookup id (insert r.id g acc) ≡ some f
      → (lookup id acc ≡ some f) ⊎ Compiles id f r
  inserted-Compiles r g f acc id e l = elim (Bool-cases (str_eq r.id id)) [
    | inl same ↦
        let p : some g ≡ some f = rw (lookup-insert r.id id g acc, same) at l in
        inr ((eq_iff r.id id).0 same, (compile_rule-ok r g e).0, e ∙ cc)
    | inr other ↦ inl (rw (lookup-insert r.id id g acc, other) at l)
  ]

  compile_into-Compiles :
      (rs : List (Rule F)) (acc compiled : Dict (CompiledRule F)) (id : String) (f : CompiledRule F)
      → compile_into resolver acc rs ≡ ok compiled
      → lookup id compiled ≡ some f
      → (lookup id acc ≡ some f) ⊎ Any (Compiles id f) rs
  unfolding compile_into
  compile_into-Compiles [] acc compiled id f h l = inl (ground arith)
  compile_into-Compiles (r ∷ rs) acc compiled id f h l =
      go (compile_rule resolver (some r)) refl h
        (λ g. compile_into-Compiles rs (insert r.id g acc) compiled id f)
    where
      go :
          (c : Result RuleError (CompiledRule F))
          → compile_rule resolver (some r) ≡ c
          → (do
            g ← map_error (λ e. compile_failed r.id) c
            compile_into resolver (insert r.id g acc) rs)
            ≡ ok compiled
          → ((g : CompiledRule F)
              → compile_into resolver (insert r.id g acc) rs ≡ ok compiled
              → lookup id compiled ≡ some f
              → (lookup id (insert r.id g acc) ≡ some f) ⊎ Any (Compiles id f) rs)
          → (lookup id acc ≡ some f) ⊎ Any (Compiles id f) (r ∷ rs)
      go (ok g) e k ih = elim (ih g k l) [
        | inl found ↦ elim (inserted-Compiles r g f acc id e found) [
          | inl before ↦ inl before
          | inr here ↦ inr (inl here)
        ]
        | inr later ↦ inr (inr later)
      ]
      go (err x) e k ih = cc

  Any-enabled :
      (P : Rule F → Type 0) (rs : List (Rule F))
      → Any P (enabled_rules rs)
      → Any (λ r. (r.enabled ≡ true) × P r) rs
  Any-enabled P [] h = h
  Any-enabled P (r ∷ rs) h = elim (Bool-cases r.enabled) [
    | inl on ↦
        elim (subst (λ b. Any P (if b then r ∷ enabled_rules rs else enabled_rules rs)) on h) [
          | inl here ↦ inl (on, here)
          | inr later ↦ inr (Any-enabled P rs later)
        ]
    | inr off ↦ inr (
        Any-enabled P rs
          (subst (λ b. Any P (if b then r ∷ enabled_rules rs else enabled_rules rs)) off h))
  ]

  -- When the rules compile, each compiled rule in the map stands under the ID of one of the given
  -- rules, which is enabled and valid and whose conditions it runs.
  pub compile_enabled_rules-Compiles :
      (rs : List (Rule F)) (compiled : Dict (CompiledRule F)) (id : String) (f : CompiledRule F)
      → compile_enabled_rules resolver rs ≡ ok compiled
      → lookup id compiled ≡ some f
      → Any (λ r. (r.enabled ≡ true) × Compiles id f r) rs
  unfolding compile_enabled_rules
  compile_enabled_rules-Compiles rs compiled id f h l =
      elim (compile_into-Compiles (enabled_rules rs) [] compiled id f h l) [
        | inl none_yet ↦ cc (lookup-empty {V = CompiledRule F} id)
        | inr found ↦ Any-enabled (Compiles id f) rs found
      ]
