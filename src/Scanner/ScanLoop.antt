-- ===== src/Scanner/ScanLoop.antt =====
-- internal/scanner/scan_loop.go: one scan cycle, the reload of the rules and the statistics. The
-- metric computers (`compute`) and the rule store's lookup (`rule_of`) are arguments. Toplist
-- updates change nothing here and are left out. The ticker's loop is any sequence of these steps.
pub mod Filters
pub mod Counts
pub mod Times
pub mod Starting
pub mod Effects
pub mod Invariant
pub mod Spacing
pub mod Defaults
pub mod Firing
pub mod Snapshots
pub mod Matching
use stock_scanner.Prelude.{
  ℕ, suc, ◌+◌, ◌-◌, ◌*◌, ◌/◌, ◌%◌, String, Bool, true, false, not, ◌&&◌, Option, none, some, List,
  [], ◌∷◌, str_eq, str_append, decimal_text, if◌then◌else◌, ◌==◌, leb, Result, ok, err, ◌>>=◌,
  is_empty,
}
use stock_scanner.Float.{Float, zero_f}
use stock_scanner.Int64.{word, add, is_neg, is_nonpos, slt}
use stock_scanner.Dict.{Dict, lookup, insert}
use stock_scanner.Models.Market.{Bar1m, LiveBar}
use stock_scanner.Models.Rule.{Condition, Rule}
use stock_scanner.Models.Alert.{Alert}
use stock_scanner.Rules.Error.{RuleError}
use stock_scanner.Rules.Filters.{check_volume_threshold, check_session_filter}
use stock_scanner.Rules.Resolver.{MetricResolver}
use stock_scanner.Rules.Compiler.{CompiledRule, compile_enabled_rules, enabled_rules}
use stock_scanner.Scanner.Cooldown.{Tracker, is_on_cooldown, record_cooldown}
use stock_scanner.Scanner.Session.{MarketSession, premarket, market, postmarket, closed}
use stock_scanner.Scanner.State.{SymbolState, StateManager, get_state}
use stock_scanner.Scanner.Snapshot.{SymbolStateSnapshot, StateSnapshot, take_snapshot}
use stock_scanner.Scanner.MetricCache.{get_cached_metrics, set_cached_metrics}
use stock_scanner.Scanner.Emitter.{World, Env, Emitter, EmitError, now, emit_alert}

-- The counters of one cycle
pub record Totals : Type 0 where
  pub symbols_scanned : ℕ
  pub rules_evaluated : ℕ
  pub rules_matched : ℕ
  pub alerts_emitted : ℕ

-- What a cycle reads and changes. A nil tracker or emitter is `none`.
pub record Cycle (F : Type 0) : Type 0 where
  pub manager : StateManager F
  pub tracker : Option Tracker
  pub emitter : Option Emitter
  pub world : World F
  pub totals : Totals

abbrev pub session_name : MarketSession → String
session_name premarket = "premarket"
session_name market = "market"
session_name postmarket = "postmarket"
session_name closed = "closed"

-- 100 * time.Millisecond
abbrev pub cache_max_age : ℕ
cache_max_age = 100000000

-- Nanoseconds from Go's zero time to 1970
abbrev pub unix_epoch : ℕ
unix_epoch = 62135596800 * 1000000000

-- fmt's %d of t.UnixNano()
unfoldable pub unix_nano_text : ℕ → String
unix_nano_text t =
    if leb unix_epoch t
    then decimal_text (t - unix_epoch)
    else str_append "-" (decimal_text (unix_epoch - t))

-- The metric registry's ComputeMetrics, on a snapshot and the required metrics
abbrev pub Compute : Type 0 → Type 0
Compute F = SymbolStateSnapshot F → Dict Bool → Dict F

abbrev pub positive_option : Option ℕ → Bool
positive_option none = false
positive_option (some t) = not (is_nonpos t)

module _ {F : Type 0} ⦃fl : Float F⦄ where
  -- The loop body of shouldEvaluateRule: the condition's filters pass.
  unfoldable pub filters_pass : Dict F → String → Condition F → Bool
  filters_pass m session c =
      if positive_option c.volume_threshold && not (check_volume_threshold m c.volume_threshold)
      then false
      else if not (str_eq c.calculated_during "")
          && not (str_eq c.calculated_during "all")
          && not (check_session_filter session c.calculated_during)
      then false
      else true

  unfoldable pub all_filters_pass : Dict F → String → List (Condition F) → Bool
  unfolding filters_pass
  all_filters_pass m session [] = true
  all_filters_pass m session (c ∷ cs) =
      let rest = all_filters_pass m session cs in if filters_pass m session c then rest else false

  unfoldable pub should_evaluate_rule : Rule F → Dict F → String → Bool
  unfolding all_filters_pass
  should_evaluate_rule r m session = all_filters_pass m session r.conditions

  abbrev pub last_close : List (Bar1m F) → F
  last_close [] = zero_f
  last_close (b ∷ []) = b.close
  last_close (b ∷ c ∷ bs) = last_close (c ∷ bs)

  unfoldable pub current_price : Option (LiveBar F) → List (Bar1m F) → F
  current_price (some lb) bars = lb.close
  current_price none bars = last_close bars

  -- The clock is read for the ID and again for the timestamp.
  unfoldable pub create_alert :
      Env F → Rule F → Dict F → SymbolStateSnapshot F → World F → Alert F × World F
  unfolding current_price unix_nano_text
  create_alert env r m snap w =
      let w' = record w { reads = suc w.reads } in
      let id =
        str_append r.id
          (str_append "-" (str_append snap.symbol (str_append "-" (unix_nano_text (now env w))))) in
      (
        record {
          id = id;
          rule_id = r.id;
          rule_name = r.name;
          symbol = snap.symbol;
          timestamp = now env w';
          price = current_price snap.live_bar snap.last_final_bars;
          message =
              str_append "Rule '" (str_append r.name (str_append "' matched for " snap.symbol));
          metrics = m;
          trace_id = "";
        },
        record w' { reads = suc w'.reads },
      )

  unfoldable pub record_fired :
      Env F → String → String → Option Tracker → World F → Option Tracker × World F
  record_fired env rule_id symbol none w = (none, w)
  record_fired env rule_id symbol (some ct) w =
      (some (record_cooldown ct (now env w) rule_id symbol 0), record w { reads = suc w.reads })

  -- The emission of an alert and what follows it
  unfoldable pub emit : Env F → String → Alert F → Emitter → Cycle F → Cycle F
  unfolding record_fired
  emit env rule_id alert ae c =
      let (result, ae', w') = emit_alert env ae (some alert) c.world in
      elim result [
        | err _ ↦ record c { emitter = some ae'; world = w' }
        | ok _ ↦
            let (tracker', w'') = record_fired env rule_id alert.symbol c.tracker w' in
            record c {
              emitter = some ae';
              tracker = tracker';
              world = w'';
              totals = record c.totals { alerts_emitted = add c.totals.alerts_emitted 1 };
            }
      ]

  unfoldable pub emit_if_set :
      Env F → String → Rule F → Dict F → SymbolStateSnapshot F → Option Emitter → Cycle F → Cycle F
  unfolding create_alert emit
  emit_if_set env rule_id r m snap none c = c
  emit_if_set env rule_id r m snap (some ae) c =
      let (alert, w) = create_alert env r m snap c.world in
      emit env rule_id alert ae (record c { world = w })

  abbrev pub cooling : Env F → String → String → Option Tracker → World F → Bool
  cooling env rule_id symbol none w = false
  cooling env rule_id symbol (some ct) w = is_on_cooldown ct (now env w) rule_id symbol

  -- From a match on: the cooldown and the alert. The check of the cooldown reads the clock.
  unfoldable pub match_rule :
      Env F → String → Rule F → Dict F → SymbolStateSnapshot F → Cycle F → Cycle F
  unfolding emit_if_set
  match_rule env rule_id r m snap c =
      let matched = record c {
        totals = record c.totals { rules_matched = add c.totals.rules_matched 1 };
        world = record c.world { reads = suc c.world.reads };
      } in
      if cooling env rule_id snap.symbol c.tracker c.world
      then matched
      else emit_if_set env rule_id r m snap c.emitter matched

  unfoldable pub try_rule :
      Env F → String → CompiledRule F → Rule F → Dict F → SymbolStateSnapshot F → Cycle F → Cycle F
  unfolding match_rule should_evaluate_rule
  try_rule env rule_id f r m snap c =
      if not (should_evaluate_rule r m (session_name snap.current_session))
      then c
      else elim (f snap.symbol m) [
        | err _ ↦ c
        | ok matched ↦ if matched then match_rule env rule_id r m snap c else c
      ]

  unfoldable pub scan_rule :
      Env F
      → (String → Result RuleError (Rule F))
      → Dict F
      → SymbolStateSnapshot F
      → String
      → CompiledRule F
      → Cycle F
      → Cycle F
  unfolding try_rule
  scan_rule env rule_of m snap rule_id f c =
      let counted = record c {
        totals = record c.totals { rules_evaluated = add c.totals.rules_evaluated 1 };
      } in
      elim (rule_of rule_id) [ err _ ↦ counted | ok r ↦ try_rule env rule_id f r m snap counted ]

  unfoldable pub scan_rules :
      Env F
      → (String → Result RuleError (Rule F))
      → Dict F
      → SymbolStateSnapshot F
      → Dict (CompiledRule F)
      → Cycle F
      → Cycle F
  unfolding scan_rule
  scan_rules env rule_of m snap [] c = c
  scan_rules env rule_of m snap ((rule_id, f) ∷ rest) c =
      scan_rules env rule_of m snap rest (scan_rule env rule_of m snap rule_id f c)

  -- The metrics of a symbol, from the cache of its state or computed and then cached. The check of
  -- the cache reads the clock twice.
  unfoldable pub get_metrics_from_snapshot :
      Env F → Compute F → SymbolStateSnapshot F → Dict Bool → Cycle F → Dict F × Cycle F
  get_metrics_from_snapshot env compute snap required c =
      let w' = record c.world { reads = suc c.world.reads } in
      let w'' = record w' { reads = suc w'.reads } in
      elim (lookup snap.symbol c.manager.states) [
        | none ↦ (compute snap required, c)
        | some st ↦
            elim (get_cached_metrics st (now env c.world) (now env w') (some required)
              cache_max_age) [
                | some cached ↦ (cached, record c { world = w'' })
                | none ↦
                    let computed = compute snap required in
                    let st' = set_cached_metrics st (now env w'') computed cache_max_age in
                    (
                      computed,
                      record c {
                        world = record w'' { reads = suc w''.reads };
                        manager = record c.manager {
                          states = insert snap.symbol st' c.manager.states;
                        };
                      },
                    )
              ]
      ]

  unfoldable pub scan_symbol :
      Env F
      → (String → Result RuleError (Rule F))
      → Compute F
      → Dict Bool
      → Dict (CompiledRule F)
      → SymbolStateSnapshot F
      → Cycle F
      → Cycle F
  unfolding get_metrics_from_snapshot scan_rules
  scan_symbol env rule_of compute required rules snap c =
      let counted = record c {
        totals = record c.totals { symbols_scanned = add c.totals.symbols_scanned 1 };
      } in
      let (m, c') = get_metrics_from_snapshot env compute snap required counted in
      scan_rules env rule_of m snap rules c'

  unfoldable pub scan_symbols :
      Env F
      → (String → Result RuleError (Rule F))
      → Compute F
      → Dict Bool
      → Dict (CompiledRule F)
      → Dict (SymbolStateSnapshot F)
      → List String
      → Cycle F
      → Cycle F
  unfolding scan_symbol
  scan_symbols env rule_of compute required rules states [] c = c
  scan_symbols env rule_of compute required rules states (symbol ∷ symbols) c =
      let scanned : Cycle F = elim (lookup symbol states) [
        | none ↦ c
        | some snap ↦ scan_symbol env rule_of compute required rules snap c
      ] in
      scan_symbols env rule_of compute required rules states symbols scanned

abbrev pub no_totals : Totals
no_totals = record {
  symbols_scanned = 0;
  rules_evaluated = 0;
  rules_matched = 0;
  alerts_emitted = 0;
}

-- ScanLoopStats
pub record Stats : Type 0 where
  pub scan_cycles : ℕ
  pub totals : Totals
  pub scan_cycle_time : ℕ
  pub max_scan_cycle_time : ℕ
  pub min_scan_cycle_time : ℕ
  pub scan_cycle_time_sum : ℕ

-- The minimum starts at an hour.
unfoldable pub new_stats : Stats
new_stats = record {
  scan_cycles = 0;
  totals = no_totals;
  scan_cycle_time = 0;
  max_scan_cycle_time = 0;
  min_scan_cycle_time = 3600000000000;
  scan_cycle_time_sum = 0;
}

-- The times are signed; the comparisons are those of Int64.antt.
unfoldable pub update_stats : Stats → ℕ → Stats
update_stats s t = record s {
  scan_cycles = add s.scan_cycles 1;
  scan_cycle_time = t;
  scan_cycle_time_sum = add s.scan_cycle_time_sum t;
  max_scan_cycle_time = if slt s.max_scan_cycle_time t then t else s.max_scan_cycle_time;
  min_scan_cycle_time = if slt t s.min_scan_cycle_time then t else s.min_scan_cycle_time;
}

unfoldable pub add_totals : Totals → Totals → Totals
add_totals s t = record {
  symbols_scanned = add s.symbols_scanned t.symbols_scanned;
  rules_evaluated = add s.rules_evaluated t.rules_evaluated;
  rules_matched = add s.rules_matched t.rules_matched;
  alerts_emitted = add s.alerts_emitted t.alerts_emitted;
}

-- `cancelled` says that the context of the loop is, from which on `run` ends at once.
pub record ScanLoop (F : Type 0) : Type 0 where
  pub running : Bool
  pub cancelled : Bool
  pub compiled_rules : Dict (CompiledRule F)
  pub required_metrics : Dict Bool
  pub last_rule_reload : ℕ
  pub stats : Stats

unfoldable pub new_scan_loop : {F : Type 0} → ℕ → ScanLoop F
unfolding new_stats
new_scan_loop now = record {
  running = false;
  cancelled = false;
  compiled_rules = [];
  required_metrics = [];
  last_rule_reload = now;
  stats = new_stats;
}

module _ {F : Type 0} ⦃fl : Float F⦄ where
  -- Scan, from its reading of the snapshot to the totals of the cycle. The returned cycle has the
  -- totals; without a symbol nothing is scanned.
  unfoldable pub scan_cycle :
      Env F → (String → Result RuleError (Rule F)) → Compute F → ScanLoop F → Cycle F → Cycle F
  unfolding scan_symbols take_snapshot
  scan_cycle env rule_of compute sl c =
      let snapshot = take_snapshot c.manager in
      scan_symbols env rule_of compute sl.required_metrics sl.compiled_rules snapshot.states
        snapshot.symbols (record c { totals = no_totals })

  -- Scan: the clock is read at its start and at its end.
  unfoldable pub scan :
      Env F
      → (String → Result RuleError (Rule F))
      → Compute F
      → ScanLoop F
      → Cycle F
      → ScanLoop F × Cycle F
  unfolding scan_cycle update_stats add_totals
  scan env rule_of compute sl c =
      let start = now env c.world in
      let started = record c { world = record c.world { reads = suc c.world.reads } } in
      let c' = scan_cycle env rule_of compute sl started in
      let counted = record sl.stats { totals = add_totals sl.stats.totals c'.totals } in
      (
        record sl { stats = update_stats counted (now env c'.world - start) },
        record c' { world = record c'.world { reads = suc c'.world.reads } },
      )

  -- reloadRules on the rules that the store gave; `required` is what ExtractRequiredMetrics
  -- finds in the enabled ones. A failure keeps the rules of before.
  unfoldable pub reload_rules :
      MetricResolver F
      → (List (Rule F) → Dict Bool)
      → ℕ
      → Result RuleError (List (Rule F))
      → ScanLoop F
      → Result RuleError (Unit {0}) × ScanLoop F
  reload_rules resolver required now (err e) sl = (err e, sl)
  reload_rules resolver required now (ok all_rules) sl =
      elim (compile_enabled_rules resolver (enabled_rules all_rules)) [
        | err e ↦ (err e, sl)
        | ok compiled ↦ (
          ok tt,
          record sl {
            compiled_rules = compiled;
            required_metrics = required (enabled_rules all_rules);
            last_rule_reload = now;
          },
        )
      ]

pub data StartError : Type 0 where
  already_running : StartError
  load_failed : RuleError → StartError

-- a / b of int64, truncated towards 0, where 0 < b
abbrev pub quotient : ℕ → ℕ → ℕ
quotient a b = if is_neg a then (word - (word - a) / b) % word else a / b

-- GetStats; the average is 0 before the first cycle.
unfoldable pub average_cycle_time : Stats → ℕ
average_cycle_time s =
    if is_nonpos s.scan_cycles then 0 else quotient s.scan_cycle_time_sum s.scan_cycles

module _ {F : Type 0} ⦃fl : Float F⦄ where
  -- Start, up to the goroutine of `run`
  unfoldable pub start :
      MetricResolver F
      → (List (Rule F) → Dict Bool)
      → ℕ
      → Result RuleError (List (Rule F))
      → ScanLoop F
      → Result StartError (Unit {0}) × ScanLoop F
  start resolver required now rules sl =
      if sl.running
      then (err already_running, sl)
      else let (loaded, sl') =
          reload_rules resolver required now rules (record sl { running = true }) in
        elim loaded [ err e ↦ (err (load_failed e), sl') | ok u ↦ (ok u, sl') ]

-- Stop; it waits for the goroutine of `run`.
unfoldable pub stop : {F : Type 0} → ScanLoop F → ScanLoop F
stop sl = if sl.running then record sl { running = false; cancelled = true } else sl
