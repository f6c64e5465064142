-- ===== src/Scanner/ScanLoop/Firing.antt =====
-- internal/scanner/scan_loop.go: the rules that fire on a symbol, and what scanning them counts.
use stock_scanner.Prelude.{
  ℕ, ◌+◌, ◌<◌, ◌≡◌, refl, ◌∙◌, String, Bool, true, false, ◌&&◌, Option, none, some, [], ◌∷◌, inl,
  inr, Result, ok, err, arith, Bool-cases, if◌then◌else◌, length,
}
use stock_scanner.Float.{Float}
use stock_scanner.Int64.{add, word}
use stock_scanner.Dict.{Dict}
use stock_scanner.Models.Rule.{Rule}
use stock_scanner.Models.Alert.{Alert}
use stock_scanner.Rules.Error.{RuleError}
use stock_scanner.Rules.Compiler.{CompiledRule}
use stock_scanner.Scanner.State.{SymbolState}
use stock_scanner.Scanner.Snapshot.{SymbolStateSnapshot, symbol_snapshot}
use stock_scanner.Scanner.Emitter.{Env, Emitter}
use stock_scanner.Scanner.ScanLoop.{
  Cycle, Compute, session_name, should_evaluate_rule, create_alert, emit, emit_if_set, cooling,
  match_rule, try_rule, scan_rule, scan_rules,
}
use stock_scanner.Scanner.ScanLoop.Counts.{emit_if_set-Emits}

abbrev pub matched_by : Result RuleError Bool → Bool
matched_by (ok b) = b
matched_by (err e) = false

module _ {F : Type 0} ⦃fl : Float F⦄ where
  -- The rule is found, its filters pass and its conditions match.
  abbrev pub fires :
      (String → Result RuleError (Rule F))
      → Dict F
      → SymbolStateSnapshot F
      → String
      → CompiledRule F
      → Bool
  fires rule_of m snap id f = elim (rule_of id) [
    | err e ↦ false
    | ok r ↦
        should_evaluate_rule r m (session_name snap.current_session) && matched_by (f snap.symbol m)
  ]

  pub count_firing :
      (String → Result RuleError (Rule F))
      → Dict F
      → SymbolStateSnapshot F
      → Dict (CompiledRule F)
      → ℕ
  count_firing rule_of m snap [] = 0
  count_firing rule_of m snap ((id, f) ∷ rest) =
      (if fires rule_of m snap id f then 1 else 0) + count_firing rule_of m snap rest

  -- The pairs of a symbol and a rule that fire, each on the metrics computed from the symbol's snapshot
  unfoldable pub count_matches :
      (String → Result RuleError (Rule F))
      → Compute F
      → Dict Bool
      → Dict (CompiledRule F)
      → Dict (SymbolState F)
      → ℕ
  unfolding count_firing symbol_snapshot
  count_matches rule_of compute required rules [] = 0
  count_matches rule_of compute required rules ((symbol, st) ∷ rest) =
      let snap = symbol_snapshot symbol st in
      count_firing rule_of (compute snap required) snap rules
      + count_matches rule_of compute required rules rest

counted_step :
    (b : Bool) (m m' n k r : ℕ)
    → m + (1 + n) < word
    → m' ≡ (if b then add m 1 else m)
    → (m' + n < word → r ≡ m' + k)
    → r ≡ m + ((if b then 1 else 0) + k)
counted_step true m m' n k r p h q = ground (arith, q (ground arith))
counted_step false m m' n k r p h q = ground (arith, q (ground arith))

module _ {F : Type 0} ⦃fl : Float F⦄ (env : Env F) where
  emit-manager :
      (id : String) (alert : Alert F) (ae : Emitter) (c : Cycle F)
      → (emit env id alert ae c).manager ≡ c.manager
  unfolding emit
  emit-manager id alert ae c = ground arith

  emit_if_set-manager :
      (id : String) (r : Rule F) (m : Dict F) (snap : SymbolStateSnapshot F) (o : Option Emitter)
      (c : Cycle F)
      → (emit_if_set env id r m snap o c).manager ≡ c.manager
  unfolding emit_if_set
  emit_if_set-manager id r m snap none c = refl
  emit_if_set-manager id r m snap (some ae) c =
      let made = create_alert env r m snap c.world in
      emit-manager id made.0 ae (record c { world = made.1 })

  -- What a rule does to the manager and to the count of matches
  record Step (b : Bool) (c c' : Cycle F) : Type 0 where
    same_manager : c'.manager ≡ c.manager
    matches :
        c'.totals.rules_matched
        ≡ (if b then add c.totals.rules_matched 1 else c.totals.rules_matched)

  match_rule-Step :
      (id : String) (r : Rule F) (m : Dict F) (snap : SymbolStateSnapshot F) (c : Cycle F)
      → Step true c (match_rule env id r m snap c)
  unfolding match_rule
  match_rule-Step id r m snap c = elim (Bool-cases (cooling env id snap.symbol c.tracker c.world)) [
    | inl e ↦ rw e (record { same_manager = refl; matches = refl })
    | inr e ↦ rw e (record {
      same_manager = emit_if_set-manager id r m snap c.emitter _;
      matches = ground (arith, emit_if_set-Emits env id r m snap c.emitter _);
    })
  ]

  try_rule-Step :
      (id : String) (f : CompiledRule F) (r : Rule F) (m : Dict F) (snap : SymbolStateSnapshot F)
      (c : Cycle F)
      → Step
          (should_evaluate_rule r m (session_name snap.current_session)
            && matched_by (f snap.symbol m))
          c
          (try_rule env id f r m snap c)
  unfolding try_rule
  try_rule-Step id f r m snap c =
      elim (Bool-cases (should_evaluate_rule r m (session_name snap.current_session))) [
        | inl pass ↦ rw pass (
            outcome (match_rule env id r m snap c) (f snap.symbol m)
              (match_rule-Step id r m snap c))
        | inr fail ↦ rw fail (record { same_manager = refl; matches = refl })
      ]
    where
      outcome :
          (c' : Cycle F) (res : Result RuleError Bool)
          → Step true c c'
          → Step
              (matched_by res)
              c
              (elim res as (λ _. Cycle F) [ err _ ↦ c | ok matched ↦ if matched then c' else c ])
      outcome c' (ok true) e = e
      outcome c' (ok false) e = record { same_manager = refl; matches = refl }
      outcome c' (err x) e = record { same_manager = refl; matches = refl }

  scan_rule-Step :
      (rule_of : String → Result RuleError (Rule F)) (m : Dict F) (snap : SymbolStateSnapshot F)
      (id : String) (f : CompiledRule F) (c : Cycle F)
      → Step (fires rule_of m snap id f) c (scan_rule env rule_of m snap id f c)
  unfolding scan_rule
  scan_rule-Step rule_of m snap id f c = go (rule_of id)
    where
      more : Cycle F
      more = record c {
        totals = record c.totals { rules_evaluated = add c.totals.rules_evaluated 1 };
      }

      go :
          (res : Result RuleError (Rule F))
          → Step
              (elim res as (λ _. Bool) [
                | err e ↦ false
                | ok r ↦
                    should_evaluate_rule r m (session_name snap.current_session)
                    && matched_by (f snap.symbol m)
              ])
              c
              (elim res as (λ _. Cycle F) [ err _ ↦ more | ok r ↦ try_rule env id f r m snap more ])
      go (err x) = record { same_manager = refl; matches = refl }
      go (ok r) =
          let s = try_rule-Step id f r m snap more in
          record { same_manager = s.same_manager; matches = s.matches }

  pub scan_rules-manager :
      (rule_of : String → Result RuleError (Rule F)) (m : Dict F) (snap : SymbolStateSnapshot F)
      (rules : Dict (CompiledRule F)) (c : Cycle F)
      → (scan_rules env rule_of m snap rules c).manager ≡ c.manager
  unfolding scan_rules
  scan_rules-manager rule_of m snap [] c = refl
  scan_rules-manager rule_of m snap ((id, f) ∷ rest) c =
      let next = scan_rule env rule_of m snap id f c in
      scan_rules-manager rule_of m snap rest next
      ∙ (scan_rule-Step rule_of m snap id f c).same_manager

  pub scan_rules-matched :
      (rule_of : String → Result RuleError (Rule F)) (m : Dict F) (snap : SymbolStateSnapshot F)
      (rules : Dict (CompiledRule F)) (c : Cycle F)
      → c.totals.rules_matched + length rules < word
      → (scan_rules env rule_of m snap rules c).totals.rules_matched
        ≡ c.totals.rules_matched + count_firing rule_of m snap rules
  unfolding scan_rules count_firing
  scan_rules-matched rule_of m snap [] c b = omega arith
  scan_rules-matched rule_of m snap ((id, f) ∷ rest) c b =
      let next = scan_rule env rule_of m snap id f c in
      let step = scan_rule-Step rule_of m snap id f c in
      let later = scan_rules-matched rule_of m snap rest next in
      counted_step (fires rule_of m snap id f) c.totals.rules_matched next.totals.rules_matched
        (length rest) (count_firing rule_of m snap rest)
        (scan_rules env rule_of m snap rest next).totals.rules_matched (omega (arith, b))
        step.matches later
