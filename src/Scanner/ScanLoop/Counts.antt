-- ===== src/Scanner/ScanLoop/Counts.antt =====
-- The counters of a cycle.
use stock_scanner.Prelude.{
  ℕ, ◌+◌, ◌≤◌, ◌<◌, ◌≡◌, refl, String, Bool, true, false, Option, none, some, [], ◌∷◌, ◌⊎◌, inl,
  inr, Result, ok, err, arith, Bool-cases, Option-cases, if◌then◌else◌, length,
}
use stock_scanner.Float.{Float}
use stock_scanner.Int64.{add, word}
use stock_scanner.Dict.{Dict, lookup}
use stock_scanner.Models.Rule.{Rule}
use stock_scanner.Models.Alert.{Alert}
use stock_scanner.Rules.Error.{RuleError}
use stock_scanner.Rules.Compiler.{CompiledRule}
use stock_scanner.Scanner.Snapshot.{SymbolStateSnapshot}
use stock_scanner.Scanner.Emitter.{Env, Emitter, EmitError, emit_alert}
use stock_scanner.Scanner.ScanLoop.{
  Totals, Cycle, Compute, session_name, should_evaluate_rule, create_alert, emit, emit_if_set,
  cooling, match_rule, try_rule, scan_rule, scan_rules, get_metrics_from_snapshot,
}

module _ {F : Type 0} ⦃fl : Float F⦄ (env : Env F) where
  -- Emitting counts at most one alert.
  abbrev pub Emits : Totals → Totals → Type 0
  Emits t t' = (t' ≡ t) ⊎ (t' ≡ record t { alerts_emitted = add t.alerts_emitted 1 })

  emit-Emits :
      (id : String) (alert : Alert F) (ae : Emitter) (c : Cycle F)
      → Emits c.totals (emit env id alert ae c).totals
  unfolding emit
  emit-Emits id alert ae c = outcome (emit_alert env ae (some alert) c.world).0 refl
    where
      outcome :
          (res : Result EmitError (Unit {0}))
          → (emit_alert env ae (some alert) c.world).0 ≡ res
          → Emits c.totals (emit env id alert ae c).totals
      outcome (err e) h = inl (ground arith)
      outcome (ok u) h = inr (ground arith)

  pub emit_if_set-Emits :
      (id : String) (r : Rule F) (m : Dict F) (snap : SymbolStateSnapshot F) (o : Option Emitter)
      (c : Cycle F)
      → Emits c.totals (emit_if_set env id r m snap o c).totals
  unfolding emit_if_set
  emit_if_set-Emits id r m snap none c = inl refl
  emit_if_set-Emits id r m snap (some ae) c =
      let made = create_alert env r m snap c.world in
      emit-Emits id made.0 ae (record c { world = made.1 })

  -- What a rule counts: it is evaluated, it may match, and then it may emit.
  record Counts (t t' : Totals) : Type 0 where
    symbols : t'.symbols_scanned ≡ t.symbols_scanned
    evaluated : t'.rules_evaluated ≡ add t.rules_evaluated 1
    alerts :
        ((t'.rules_matched ≡ t.rules_matched) × (t'.alerts_emitted ≡ t.alerts_emitted))
        ⊎ ((t'.rules_matched ≡ add t.rules_matched 1)
            × ((t'.alerts_emitted ≡ t.alerts_emitted)
                ⊎ (t'.alerts_emitted ≡ add t.alerts_emitted 1)))

  abbrev Matches : Totals → Totals → Type 0
  Matches t t' = (t' ≡ t) ⊎ Emits (record t { rules_matched = add t.rules_matched 1 }) t'

  match_rule-Matches :
      (id : String) (r : Rule F) (m : Dict F) (snap : SymbolStateSnapshot F) (c : Cycle F)
      → Matches c.totals (match_rule env id r m snap c).totals
  unfolding match_rule
  match_rule-Matches id r m snap c =
      elim (Bool-cases (cooling env id snap.symbol c.tracker c.world)) [
        | inl e ↦ rw e (inr (inl refl))
        | inr e ↦ rw e (inr (emit_if_set-Emits id r m snap c.emitter _))
      ]

  try_rule-Matches :
      (id : String) (f : CompiledRule F) (r : Rule F) (m : Dict F) (snap : SymbolStateSnapshot F)
      (c : Cycle F)
      → Matches c.totals (try_rule env id f r m snap c).totals
  unfolding try_rule
  try_rule-Matches id f r m snap c =
      elim (Bool-cases (should_evaluate_rule r m (session_name snap.current_session))) [
        | inl pass ↦ rw pass (outcome _ (f snap.symbol m) (match_rule-Matches id r m snap c))
        | inr fail ↦ rw fail (inl refl)
      ]
    where
      outcome :
          (c' : Cycle F) (res : Result RuleError Bool)
          → Matches c.totals c'.totals
          → Matches c.totals
              (elim res as (λ _. Cycle F) [
                | err _ ↦ c
                | ok matched ↦ if matched then c' else c
              ]).totals
      outcome c' (ok true) e = e
      outcome c' (ok false) e = inl refl
      outcome c' (err x) e = inl refl

  counted :
      (t t' : Totals)
      → Matches (record t { rules_evaluated = add t.rules_evaluated 1 }) t'
      → Counts t t'
  counted t t' (inl e) = ground arith
  counted t t' (inr (inl e)) = ground arith
  counted t t' (inr (inr e)) = ground arith

  scan_rule-Counts :
      (rule_of : String → Result RuleError (Rule F)) (m : Dict F) (snap : SymbolStateSnapshot F)
      (id : String) (f : CompiledRule F) (c : Cycle F)
      → Counts c.totals (scan_rule env rule_of m snap id f c).totals
  unfolding scan_rule
  scan_rule-Counts rule_of m snap id f c = go (rule_of id)
    where
      more : Cycle F
      more = record c {
        totals = record c.totals { rules_evaluated = add c.totals.rules_evaluated 1 };
      }

      go :
          (res : Result RuleError (Rule F))
          → Counts c.totals
              (elim res as (λ _. Cycle F) [
                | err _ ↦ more
                | ok r ↦ try_rule env id f r m snap more
              ]).totals
      go (err x) = counted c.totals more.totals (inl refl)
      go (ok r) =
          counted c.totals (try_rule env id f r m snap more).totals
            (try_rule-Matches id f r m snap more)

  -- After `n` more rules for the same symbols
  pub record Ordered (t t' : Totals) (n : ℕ) : Type 0 where
    pub same_symbols : t'.symbols_scanned ≡ t.symbols_scanned
    pub all_evaluated : t'.rules_evaluated ≡ t.rules_evaluated + n
    pub matched_le : t'.rules_matched ≤ t'.rules_evaluated
    pub alerts_le : t'.alerts_emitted ≤ t'.rules_matched

  pub scan_rules-Ordered :
      (rule_of : String → Result RuleError (Rule F)) (m : Dict F) (snap : SymbolStateSnapshot F)
      (rules : Dict (CompiledRule F)) (c : Cycle F)
      → c.totals.rules_evaluated + length rules < word
      → c.totals.rules_matched ≤ c.totals.rules_evaluated
      → c.totals.alerts_emitted ≤ c.totals.rules_matched
      → Ordered c.totals (scan_rules env rule_of m snap rules c).totals (length rules)
  unfolding scan_rules
  scan_rules-Ordered rule_of m snap [] c b p q = ground arith
  scan_rules-Ordered rule_of m snap ((id, f) ∷ rest) c b p q = ground (
    arith,
    scan_rule-Counts rule_of m snap id f c,
    scan_rules-Ordered rule_of m snap rest (scan_rule env rule_of m snap id f c),
  )

  pub got-totals :
      (compute : Compute F) (snap : SymbolStateSnapshot F) (required : Dict Bool) (c : Cycle F)
      → (get_metrics_from_snapshot env compute snap required c).1.totals ≡ c.totals
  unfolding get_metrics_from_snapshot
  got-totals compute snap required c = elim (Option-cases (lookup snap.symbol c.manager.states)) [
    | inl e ↦ ground arith
    | inr (st, e) ↦ ground arith
  ]
