-- ===== src/Scanner/ScanLoop/Matching.antt =====
-- internal/scanner/scan_loop.go: which rules a cycle counts as matched.
use stock_scanner.Prelude.{
  ℕ, suc, ◌+◌, ◌*◌, ◌≤◌, ◌<◌, ◌≡◌, refl, ap, sym, ◌∙◌, String, Bool, false, Option, none, some, [],
  ◌∷◌, inl, inr, Result, arith, Bool-cases, Option-cases, length, str_eq, All, eq_iff,
}
use native.Mathlib.Nat.{suc-mul, zero-mul}
use stock_scanner.Float.{Float}
use stock_scanner.Int64.{add, word}
use stock_scanner.Dict.{Dict, lookup, keys, Fresh, IsMap}
use stock_scanner.Dict.Laws.{lookup-insert}
use stock_scanner.Models.Rule.{Rule}
use stock_scanner.Rules.Error.{RuleError}
use stock_scanner.Rules.Compiler.{CompiledRule}
use stock_scanner.Scanner.State.{SymbolState}
use stock_scanner.Scanner.Snapshot.{
  SymbolStateSnapshot, StateSnapshot, add_snapshots, symbol_snapshot, take_snapshot,
}
use stock_scanner.Scanner.MetricCache.{get_cached_metrics}
use stock_scanner.Scanner.Emitter.{Env, now}
use stock_scanner.Scanner.ScanLoop.{
  Totals, no_totals, cache_max_age, Cycle, Compute, ScanLoop, get_metrics_from_snapshot,
  scan_symbol, scan_symbols, scan_cycle,
}
use stock_scanner.Scanner.ScanLoop.Counts.{scan_rules-Ordered, got-totals}
use stock_scanner.Scanner.ScanLoop.Firing.{
  count_firing, count_matches, scan_rules-manager, scan_rules-matched,
}
use stock_scanner.Scanner.ScanLoop.Snapshots.{symbols-add_snapshots, snapshots_found}

differs : (j k : String) → str_eq j k ≡ false → str_eq k j ≡ false
differs j k h = ground (arith, eq_iff j k, eq_iff k j)

module _ {F : Type 0} ⦃fl : Float F⦄ (env : Env F) where
  abbrev cache_of : Option (SymbolState F) → Dict F
  cache_of none = []
  cache_of (some st) = st.cached_metrics

  -- The state of a symbol has no cached metrics.
  abbrev IsCold : Cycle F → String → Type 0
  IsCold c k = cache_of (lookup k c.manager.states) ≡ []

  cold_none :
      (st : SymbolState F) (t t' age : ℕ) (required : Option (Dict Bool))
      → st.cached_metrics ≡ []
      → get_cached_metrics st t t' required age ≡ none
  unfolding get_cached_metrics
  cold_none st t t' age required h = rw h refl

  got_cold :
      (compute : Compute F) (snap : SymbolStateSnapshot F) (required : Dict Bool) (c : Cycle F)
      → IsCold c snap.symbol
      → (get_metrics_from_snapshot env compute snap required c).0 ≡ compute snap required
  unfolding get_metrics_from_snapshot
  got_cold compute snap required c h = elim (Option-cases (lookup snap.symbol c.manager.states)) [
    | inl e ↦ ground (arith, e)
    | inr (st, e) ↦
        let empty : st.cached_metrics ≡ [] = sym (ap cache_of e) ∙ h in
        ground (
          arith,
          e,
          cold_none st (now env c.world) (now env (record c.world { reads = suc c.world.reads }))
              cache_max_age (some required) empty,
        )
  ]

  got_other :
      (compute : Compute F) (snap : SymbolStateSnapshot F) (required : Dict Bool) (c : Cycle F)
      (k : String)
      → str_eq snap.symbol k ≡ false
      → lookup k (get_metrics_from_snapshot env compute snap required c).1.manager.states
        ≡ lookup k c.manager.states
  unfolding get_metrics_from_snapshot
  got_other compute snap required c k h = grind (arith, lookup-insert)

  -- What the scan of a symbol without cached metrics counts and changes
  record Scanned (symbol : String) (n k : ℕ) (c c' : Cycle F) : Type 0 where
    symbols_eq : c'.totals.symbols_scanned ≡ c.totals.symbols_scanned + 1
    evaluated_eq : c'.totals.rules_evaluated ≡ c.totals.rules_evaluated + n
    matched_eq : c'.totals.rules_matched ≡ c.totals.rules_matched + k
    matched_le : c'.totals.rules_matched ≤ c'.totals.rules_evaluated
    alerts_le : c'.totals.alerts_emitted ≤ c'.totals.rules_matched
    others :
        (j : String)
        → str_eq symbol j ≡ false
        → lookup j c'.manager.states ≡ lookup j c.manager.states

  scan_symbol-Scanned :
      (rule_of : String → Result RuleError (Rule F)) (compute : Compute F) (required : Dict Bool)
      (rules : Dict (CompiledRule F)) (snap : SymbolStateSnapshot F) (c : Cycle F)
      → c.totals.rules_evaluated + length rules < word
      → c.totals.symbols_scanned + 1 < word
      → c.totals.rules_matched ≤ c.totals.rules_evaluated
      → c.totals.alerts_emitted ≤ c.totals.rules_matched
      → IsCold c snap.symbol
      → Scanned snap.symbol
          (length rules)
          (count_firing rule_of (compute snap required) snap rules)
          c
          (scan_symbol env rule_of compute required rules snap c)
  unfolding scan_symbol
  scan_symbol-Scanned rule_of compute required rules snap c b b' p q cold =
      let more : Cycle F = record c {
        totals = record c.totals { symbols_scanned = add c.totals.symbols_scanned 1 };
      } in
      let got = get_metrics_from_snapshot env compute snap required more in
      let same = got-totals env compute snap required more in
      let fresh : got.0 ≡ compute snap required = got_cold compute snap required more cold in
      let o = scan_rules-Ordered env rule_of got.0 snap rules got.1 in
      let k = scan_rules-matched env rule_of got.0 snap rules got.1 in
      let kept = scan_rules-manager env rule_of got.0 snap rules got.1 in
      record {
        symbols_eq = ground (arith, o, same);
        evaluated_eq = ground (arith, o, same);
        matched_eq = ground (arith, k, same, ap (λ m. count_firing rule_of m snap rules) fresh);
        matched_le = ground (arith, o, same);
        alerts_le = ground (arith, o, same);
        others = λ j h. ap (λ m. lookup j m.states) kept ∙ got_other compute snap required more j h;
      }

  -- The totals after the scan of the states of a list, each of which the snapshot has
  record Totaled (ss n k : ℕ) (t t' : Totals) : Type 0 where
    all_symbols : t'.symbols_scanned ≡ t.symbols_scanned + ss
    all_evaluated : t'.rules_evaluated ≡ t.rules_evaluated + ss * n
    all_matched : t'.rules_matched ≡ t.rules_matched + k
    all_alerts : t'.alerts_emitted ≤ t'.rules_matched

  kept-IsCold :
      (symbol : String) (n k : ℕ) (c c' : Cycle F) (ss : Dict (SymbolState F))
      → Scanned symbol n k c c'
      → Fresh symbol ss
      → All (λ e. IsCold c e.0) ss
      → All (λ e. IsCold c' e.0) ss
  kept-IsCold symbol n k c c' [] s f h = tt
  kept-IsCold symbol n k c c' ((j, st) ∷ ss) s f h = (
    ap cache_of (s.others j (differs j symbol f.0)) ∙ h.0,
    kept-IsCold symbol n k c c' ss s f.1 h.1,
  )

  join :
      (symbol : String) (n k len later : ℕ) (c c' : Cycle F) (t : Totals)
      → Scanned symbol n k c c'
      → Totaled len n later c'.totals t
      → Totaled (suc len) n (k + later) c.totals t
  join symbol n k len later c c' t s h = record {
    all_symbols = omega (arith, h.all_symbols, s.symbols_eq);
    all_evaluated = omega (arith, h.all_evaluated, s.evaluated_eq, suc-mul len n);
    all_matched = omega (arith, h.all_matched, s.matched_eq);
    all_alerts = h.all_alerts;
  }

  scan_symbols-Totaled :
      (rule_of : String → Result RuleError (Rule F)) (compute : Compute F) (required : Dict Bool)
      (rules : Dict (CompiledRule F)) (states : Dict (SymbolStateSnapshot F))
      (ss : Dict (SymbolState F)) (c : Cycle F)
      → c.totals.rules_evaluated + length ss * length rules < word
      → c.totals.symbols_scanned + length ss < word
      → c.totals.rules_matched ≤ c.totals.rules_evaluated
      → c.totals.alerts_emitted ≤ c.totals.rules_matched
      → IsMap ss
      → All (λ e. lookup e.0 states ≡ some (symbol_snapshot e.0 e.1)) ss
      → All (λ e. IsCold c e.0) ss
      → Totaled
          (length ss)
          (length rules)
          (count_matches rule_of compute required rules ss)
          c.totals
          (scan_symbols env rule_of compute required rules states (keys ss) c).totals
  unfolding scan_symbols count_matches symbol_snapshot
  scan_symbols-Totaled rule_of compute required rules states [] c b b' p q v found cold = record {
    all_symbols = omega arith;
    all_evaluated = ground (arith, zero-mul (length rules));
    all_matched = omega arith;
    all_alerts = q;
  }
  scan_symbols-Totaled rule_of compute required rules states ((j, st) ∷ ss) c b b' p q v found
        cold =
      let snap = symbol_snapshot j st in
      let next = scan_symbol env rule_of compute required rules snap c in
      let step =
        scan_symbol-Scanned rule_of compute required rules snap c
          (omega (arith, b, suc-mul (length ss) (length rules))) (omega (arith, b')) p q cold.0 in
      let later =
        scan_symbols-Totaled rule_of compute required rules states ss next
          (omega (arith, b, suc-mul (length ss) (length rules), step.evaluated_eq))
          (omega (arith, b', step.symbols_eq)) step.matched_le step.alerts_le v.1 found.1
          (kept-IsCold j _ _ c next ss step v.0 cold.1) in
      rw (found.0, scan_symbols)
        (join j (length rules) (count_firing rule_of (compute snap required) snap rules) (length ss)
          (count_matches rule_of compute required rules ss) c next _ step later)

  lookup_cold :
      (m : Dict (SymbolState F)) (k : String)
      → All (λ e. e.1.cached_metrics ≡ []) m
      → cache_of (lookup k m) ≡ []
  unfolding lookup
  lookup_cold [] k h = refl
  lookup_cold ((j, st) ∷ m) k h = elim (Bool-cases (str_eq j k)) [
    | inl e ↦ rw e h.0
    | inr e ↦ rw e (lookup_cold m k h.1)
  ]

  All-IsCold :
      (c : Cycle F) (ss : Dict (SymbolState F))
      → ((k : String) → IsCold c k)
      → All (λ e. IsCold c e.0) ss
  All-IsCold c [] h = tt
  All-IsCold c ((j, st) ∷ ss) h = (h j, All-IsCold c ss h)

  -- While the numbers of states and of rules and their product are below 2^64, the manager has each
  -- symbol once, and no state has cached metrics: a cycle scans every symbol of the manager and
  -- counts each compiled rule as evaluated once for each. It counts as matched exactly the
  -- pairs of a symbol and a rule where the rule is found, its filters pass and its conditions
  -- match on the metrics computed from the symbol's snapshot. No more alerts are emitted than
  -- rules match.
  pub scan_cycle_counts :
      (rule_of : String → Result RuleError (Rule F)) (compute : Compute F) (sl : ScanLoop F)
      (c : Cycle F)
      → length c.manager.states * length sl.compiled_rules < word
      → length c.manager.states < word
      → IsMap c.manager.states
      → All (λ e. e.1.cached_metrics ≡ []) c.manager.states
      → let totals = (scan_cycle env rule_of compute sl c).totals in
        (totals.symbols_scanned ≡ length c.manager.states)
        × (totals.rules_evaluated ≡ length c.manager.states * length sl.compiled_rules)
        × (totals.rules_matched
            ≡ count_matches rule_of compute sl.required_metrics sl.compiled_rules c.manager.states)
        × (totals.alerts_emitted ≤ totals.rules_matched)
  unfolding scan_cycle take_snapshot
  scan_cycle_counts rule_of compute sl c b b' v empty =
      let ss = c.manager.states in
      let none_yet : StateSnapshot F = record { symbols = []; states = [] } in
      let started : Cycle F = record c { totals = no_totals } in
      let done =
        scan_symbols-Totaled rule_of compute sl.required_metrics sl.compiled_rules
          (add_snapshots ss none_yet).states ss started (omega (arith, b)) (omega (arith, b'))
          (omega arith) (omega arith) v (snapshots_found ss none_yet v)
          (All-IsCold started ss (λ k. lookup_cold ss k empty)) in
      rw (symbols-add_snapshots ss none_yet) (
        omega (arith, done.all_symbols),
        omega (arith, done.all_evaluated),
        omega (arith, done.all_matched),
        done.all_alerts,
      )
